-- ===== src/Dispatcher/Inputs.antt =====
-- src/native/dns-dispatcher.cpp: the list of the physical resolvers, and the record of the included
-- applications. A text is a list of characters; an exception is `none`, since each of them rejects the
-- input whole. `find` and `substr` at a separator are a split into fields.
pub mod Resolvers
pub mod Texts
pub mod Rows
pub mod Identities
use wireguard_dns_program_sp.Base.{
  ℕ, zero, suc, ◌+◌, ◌%◌, Bool, true, false, not, ◌&&◌, ◌||◌, Option, none, some, List, [], ◌∷◌,
  ◌++◌, ltb, ◌==◌, ◌!=◌, if◌then◌else◌, length, codes,
}
use wireguard_dns_program_sp.Dispatcher.Names.{is_empty, lower, trim, same_text}

abbrev pub push_first : ℕ → List (List ℕ) → List (List ℕ)
push_first c [] = (c ∷ []) ∷ []
push_first c (field ∷ fields) = (c ∷ field) ∷ fields

-- The parts between the separators, one more than there are of them.
unfoldable pub fields : ℕ → List ℕ → List (List ℕ)
fields mark [] = [] ∷ []
fields mark (c ∷ text) =
    let rest = fields mark text in if c == mark then [] ∷ rest else push_first c rest

abbrev pub max_direct_resolvers : ℕ
max_direct_resolvers = 3

unfoldable pub repeats : ℕ → List ℕ → Bool
repeats resolver [] = false
repeats resolver (existing ∷ result) =
    let later = repeats resolver result in existing == resolver || later

abbrev pub append_resolver : Option ℕ → List ℕ → Option (List ℕ)
append_resolver none result = none
append_resolver (some resolver) result =
    if repeats resolver result then none else some (result ++ (resolver ∷ []))

abbrev pub is_malformed_item : List ℕ → List ℕ → Bool
is_malformed_item item result =
    is_empty item || ltb 15 (length item) || length result == max_direct_resolvers

-- The loop over the items.
unfoldable pub resolver_items : (List ℕ → Option ℕ) → List ℕ → List (List ℕ) → Option (List ℕ)
unfolding repeats
resolver_items address result [] = some result
resolver_items address result (item ∷ items) = elim (append_resolver (address item) result) [
  | none ↦ none
  | some longer ↦
      let rest = resolver_items address longer items in
      if is_malformed_item item result then none else rest
]

unfoldable pub resolver_list : (List ℕ → Option ℕ) → List ℕ → Option (List ℕ)
unfolding resolver_items fields
resolver_list address text = resolver_items address [] (fields 44 text)

abbrev pub identity_header : List ℕ
identity_header = codes "# wgps-identities 1" ++ (10 ∷ [])

-- The text behind a prefix that it starts with.
unfoldable pub after_prefix : List ℕ → List ℕ → Option (List ℕ)
after_prefix [] text = some text
after_prefix (c ∷ prefix) [] = none
after_prefix (c ∷ prefix) (d ∷ text) =
    let rest = after_prefix prefix text in if c == d then rest else none

unfoldable pub all_of : (ℕ → Bool) → List ℕ → Bool
all_of test [] = true
all_of test (c ∷ text) = let rest = all_of test text in test c && rest

unfoldable pub are_identifiers : (ℕ → Bool) → List (List ℕ) → Bool
unfolding all_of
are_identifiers is_hex [] = true
are_identifiers is_hex (id ∷ ids) =
    let rest = are_identifiers is_hex ids in
    (not (is_empty id) && length id % 2 == 0 && all_of is_hex id) && rest

-- The path of a row, from its fields between tabs.
unfoldable pub row_path : (ℕ → Bool) → List (List ℕ) → Option (List ℕ)
unfolding are_identifiers fields
row_path is_hex (key ∷ path ∷ ids ∷ []) =
    if is_empty key || is_empty path
    then none
    else if are_identifiers is_hex (fields 44 ids)
    then some path
    else none
row_path is_hex _ = none

abbrev pub is_printed : ℕ → Bool
is_printed c = not (ltb c 32) || c == 9

unfoldable pub identity_row : (ℕ → Bool) → List ℕ → Option (List ℕ)
unfolding row_path
identity_row is_hex row =
    let path = row_path is_hex (fields 9 row) in if all_of is_printed row then path else none

unfoldable pub contains : List ℕ → List (List ℕ) → Bool
contains text [] = false
contains text (t ∷ texts) = let rest = contains text texts in same_text t text || rest

-- `insert` of a set, which is kept in the order of the insertions.
unfoldable pub insert : List ℕ → List (List ℕ) → List (List ℕ)
unfolding contains
insert text texts = if contains text texts then texts else texts ++ (text ∷ [])

-- The loop over the rows, each of which ends with a line feed; the last field is what is behind it.
unfoldable pub identity_rows :
    (ℕ → ℕ) → (ℕ → Bool) → List (List ℕ) → List (List ℕ) → Option (List (List ℕ))
unfolding identity_row insert
identity_rows to_lower is_hex result [] = none
identity_rows to_lower is_hex result (last ∷ []) = if is_empty last then some result else none
identity_rows to_lower is_hex result (row ∷ next ∷ rows) = elim (identity_row is_hex row) [
  | none ↦ none
  | some path ↦ identity_rows to_lower is_hex (insert (lower to_lower path) result) (next ∷ rows)
]

abbrev pub is_comment : List ℕ → Bool
is_comment [] = true
is_comment (c ∷ line) = c == 35

-- The loop over the lines of a list of paths.
unfoldable pub listed_paths :
    (ℕ → ℕ) → (List ℕ → List ℕ) → List (List ℕ) → List (List ℕ) → List (List ℕ)
unfolding trim insert
listed_paths to_lower canonical result [] = result
listed_paths to_lower canonical result (text ∷ lines) =
    let line = trim text in
    listed_paths to_lower canonical
      (if is_comment line then result else insert (lower to_lower (canonical line)) result) lines

unfoldable pub parse_included_text :
    (ℕ → ℕ) → (ℕ → Bool) → (List ℕ → List ℕ) → List ℕ → Option (List (List ℕ))
unfolding after_prefix identity_rows listed_paths
parse_included_text to_lower is_hex canonical text = elim (after_prefix identity_header text) [
  | none ↦ some (listed_paths to_lower canonical [] (fields 10 text))
  | some rows ↦ identity_rows to_lower is_hex [] (fields 10 rows)
]
