-- ===== src/Dispatcher/Inputs/Identities.antt =====
-- The record of the included applications is read as the paths that were written.
use wireguard_dns_program_sp.Base.{
  ℕ, ◌<◌, ◌≡◌, refl, ap, ◌∙◌, Bool, true, false, ◌||◌, some, List, [], ◌∷◌, ◌++◌, ◌==◌, ◌!=◌,
  length, arith,
}
use wireguard_dns_program_sp.Dispatcher.Names.{lower, same_text}
use wireguard_dns_program_sp.Dispatcher.Inputs.Resolvers.{fields_nonempty}
use wireguard_dns_program_sp.Dispatcher.Inputs.{
  fields, all_of, is_printed, identity_row, contains, insert, identity_rows, identity_header,
  after_prefix, parse_included_text,
}
use wireguard_dns_program_sp.Dispatcher.Inputs.Texts.{contains-insert, all_of_weaken, fields_marked}
use wireguard_dns_program_sp.Dispatcher.Inputs.Rows.{
  Identity, printed_row, AllIdentities, identity_row-printed_row, printed_row-printed,
}

abbrev pub printed_rows : List Identity → List ℕ
printed_rows [] = []
printed_rows (row ∷ rows) = printed_row row ++ 10 ∷ printed_rows rows

-- The set that the rows make.
abbrev selected : (ℕ → ℕ) → List (List ℕ) → List Identity → List (List ℕ)
selected to_lower result [] = result
selected to_lower result (row ∷ rows) =
    selected to_lower (insert (lower to_lower row.path) result) rows

-- The paths of the rows, in lower case.
abbrev pub listed : (ℕ → ℕ) → List ℕ → List Identity → Bool
listed to_lower text [] = false
listed to_lower text (row ∷ rows) =
    let rest = listed to_lower text rows in same_text (lower to_lower row.path) text || rest

contains-selected :
    (to_lower : ℕ → ℕ) (text : List ℕ) (result : List (List ℕ)) (rows : List Identity)
    → contains text (selected to_lower result rows)
      ≡ (contains text result || listed to_lower text rows)
contains-selected to_lower text result [] = ground arith
contains-selected to_lower text result (row ∷ rows) =
    contains-selected to_lower text (insert (lower to_lower row.path) result) rows
    ∙ rw (contains-insert text (lower to_lower row.path) result) (ground arith)

identity_rows_next :
    (to_lower : ℕ → ℕ) (is_hex : ℕ → Bool) (result : List (List ℕ)) (row path : List ℕ)
    (rows : List (List ℕ))
    → 0 < length rows
    → identity_row is_hex row ≡ some path
    → identity_rows to_lower is_hex result (row ∷ rows)
      ≡ identity_rows to_lower is_hex (insert (lower to_lower path) result) rows
unfolding identity_rows
identity_rows_next to_lower is_hex result row path [] some_left e = absurd (omega arith)
identity_rows_next to_lower is_hex result row path (next ∷ rows) some_left e =
    rw (identity_rows, e) refl

identity_rows-printed :
    (to_lower : ℕ → ℕ) (is_hex : ℕ → Bool) (result : List (List ℕ)) (rows : List Identity)
    → AllIdentities is_hex rows
    → identity_rows to_lower is_hex result (fields 10 (printed_rows rows))
      ≡ some (selected to_lower result rows)
unfolding identity_rows fields
identity_rows-printed to_lower is_hex result [] h = refl
identity_rows-printed to_lower is_hex result (row ∷ rows) h =
    let unbroken : all_of (λ c. c != 10) (printed_row row) ≡ true =
      all_of_weaken is_printed (λ c. c != 10) (printed_row row) (λ c e. ground arith)
        (printed_row-printed is_hex row h.0) in
    ap (λ (texts : List (List ℕ)). identity_rows to_lower is_hex result texts)
      (fields_marked 10 (printed_row row) (printed_rows rows) unbroken)
    ∙ identity_rows_next to_lower is_hex result (printed_row row) row.path
        (fields 10 (printed_rows rows)) (fields_nonempty 10 (printed_rows rows))
        (identity_row-printed_row is_hex row h.0)
    ∙ identity_rows-printed to_lower is_hex (insert (lower to_lower row.path) result) rows h.1

after_prefix_append : (prefix text : List ℕ) → after_prefix prefix (prefix ++ text) ≡ some text
unfolding after_prefix
after_prefix_append [] text = refl
after_prefix_append (c ∷ prefix) text =
    let same : (c == c) ≡ true = ground arith in rw same (after_prefix_append prefix text)

prefixed :
    (to_lower : ℕ → ℕ) (is_hex : ℕ → Bool) (canonical : List ℕ → List ℕ) (text rest : List ℕ)
    → after_prefix identity_header text ≡ some rest
    → parse_included_text to_lower is_hex canonical text
      ≡ identity_rows to_lower is_hex [] (fields 10 rest)
unfolding parse_included_text
prefixed to_lower is_hex canonical text rest e = rw (parse_included_text, e) refl

-- A record of rows, each with a key and a path that are not empty and hold no control character, and with
-- identifiers of an even number of hex digits, is accepted, and what it selects is just the paths of the
-- rows in lower case. The hex digits are visible and no commas.
pub parse_included_text-printed_rows :
    (to_lower : ℕ → ℕ) (is_hex : ℕ → Bool) (canonical : List ℕ → List ℕ) (rows : List Identity)
    → AllIdentities is_hex rows
    → (paths : List (List ℕ)) × (parse_included_text to_lower is_hex canonical
          (identity_header ++ printed_rows rows)
        ≡ some paths)
      × ((text : List ℕ) → contains text paths ≡ listed to_lower text rows)
unfolding parse_included_text contains
parse_included_text-printed_rows to_lower is_hex canonical rows h = (
  selected to_lower [] rows,
  prefixed to_lower is_hex canonical (identity_header ++ printed_rows rows) (printed_rows rows)
        (after_prefix_append identity_header (printed_rows rows))
      ∙ identity_rows-printed to_lower is_hex [] rows h,
  λ text. contains-selected to_lower text [] rows,
)
