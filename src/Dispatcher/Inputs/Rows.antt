-- ===== src/Dispatcher/Inputs/Rows.antt =====
-- A row of the record of the included applications, and what it is read as.
use wireguard_dns_program_sp.Base.{
  ℕ, ◌%◌, ◌<◌, ◌≡◌, refl, Bool, true, false, not, ◌&&◌, some, List, [], ◌∷◌, ◌++◌, leb, ◌==◌, ◌!=◌,
  length, arith,
}
use wireguard_dns_program_sp.Dispatcher.Names.{is_empty}
use wireguard_dns_program_sp.Dispatcher.Inputs.{
  fields, all_of, are_identifiers, row_path, is_printed, identity_row,
}
use wireguard_dns_program_sp.Dispatcher.Inputs.Texts.{
  all_of_append, all_of_weaken, fields_plain, fields_marked,
}

-- A row of the record, and the text that it is written as.
pub record Identity : Type 0 where
  pub key : List ℕ
  pub path : List ℕ
  pub first_id : List ℕ
  pub other_ids : List (List ℕ)

abbrev pub joined_ids : List ℕ → List (List ℕ) → List ℕ
joined_ids id [] = id
joined_ids id (next ∷ ids) = id ++ 44 ∷ joined_ids next ids

abbrev pub printed_row : Identity → List ℕ
printed_row row = row.key ++ 9 ∷ (row.path ++ 9 ∷ joined_ids row.first_id row.other_ids)

abbrev pub is_visible : ℕ → Bool
is_visible c = leb 32 c

-- A hex digit is a visible character, and no comma.
abbrev pub is_id_char : (ℕ → Bool) → ℕ → Bool
is_id_char is_hex c = is_hex c && leb 32 c && c != 44

abbrev pub IsIdentifier : (ℕ → Bool) → List ℕ → Type 0
IsIdentifier is_hex id =
    (0 < length id) × (length id % 2 ≡ 0) × (all_of (is_id_char is_hex) id ≡ true)

abbrev pub AllIdentifiers : (ℕ → Bool) → List (List ℕ) → Type 0
AllIdentifiers is_hex [] = Unit {0}
AllIdentifiers is_hex (id ∷ ids) = IsIdentifier is_hex id × AllIdentifiers is_hex ids

-- The key and the path are not empty and hold no control character, and there is an identifier.
abbrev pub IsIdentity : (ℕ → Bool) → Identity → Type 0
IsIdentity is_hex row =
    (0 < length row.key)
    × (0 < length row.path)
    × (all_of is_visible row.key ≡ true)
    × (all_of is_visible row.path ≡ true)
    × IsIdentifier is_hex row.first_id
    × AllIdentifiers is_hex row.other_ids

abbrev pub AllIdentities : (ℕ → Bool) → List Identity → Type 0
AllIdentities is_hex [] = Unit {0}
AllIdentities is_hex (row ∷ rows) = IsIdentity is_hex row × AllIdentities is_hex rows

is_empty-long : (text : List ℕ) → 0 < length text → is_empty text ≡ false
is_empty-long [] h = absurd (omega arith)
is_empty-long (c ∷ text) h = refl

-- What is asked of an identifier, and that it stays whole between the commas.
identifier-accepted :
    (is_hex : ℕ → Bool) (id : List ℕ)
    → IsIdentifier is_hex id
    → (not (is_empty id) && length id % 2 == 0 && all_of is_hex id) ≡ true
identifier-accepted is_hex id h =
    let hex : all_of is_hex id ≡ true =
      all_of_weaken (is_id_char is_hex) is_hex id (λ c e. ground arith) h.2 in
    let even : (length id % 2 == 0) ≡ true = ground arith in
    rw (is_empty-long id h.0, even, hex) refl

identifier-uncut :
    (is_hex : ℕ → Bool) (id : List ℕ) → IsIdentifier is_hex id → all_of (λ c. c != 44) id ≡ true
identifier-uncut is_hex id h =
    all_of_weaken (is_id_char is_hex) (λ c. c != 44) id (λ c e. ground arith) h.2

identifier-visible :
    (is_hex : ℕ → Bool) (id : List ℕ) → IsIdentifier is_hex id → all_of is_visible id ≡ true
identifier-visible is_hex id h =
    all_of_weaken (is_id_char is_hex) is_visible id (λ c e. ground arith) h.2

fields-joined_ids :
    (is_hex : ℕ → Bool) (id : List ℕ) (ids : List (List ℕ))
    → IsIdentifier is_hex id
    → AllIdentifiers is_hex ids
    → are_identifiers is_hex (fields 44 (joined_ids id ids)) ≡ true
unfolding are_identifiers
fields-joined_ids is_hex id [] first others =
    rw (fields_plain 44 id (identifier-uncut is_hex id first), identifier-accepted is_hex id first)
      refl
fields-joined_ids is_hex id (next ∷ ids) first others =
    rw
      (
        fields_marked 44 id (joined_ids next ids) (identifier-uncut is_hex id first),
        identifier-accepted is_hex id first,
        fields-joined_ids is_hex next ids others.0 others.1,
      )
      refl

joined_ids-visible :
    (is_hex : ℕ → Bool) (id : List ℕ) (ids : List (List ℕ))
    → IsIdentifier is_hex id
    → AllIdentifiers is_hex ids
    → all_of is_visible (joined_ids id ids) ≡ true
unfolding all_of
joined_ids-visible is_hex id [] first others = identifier-visible is_hex id first
joined_ids-visible is_hex id (next ∷ ids) first others =
    rw
      (
        all_of_append is_visible id (44 ∷ joined_ids next ids),
        identifier-visible is_hex id first,
        joined_ids-visible is_hex next ids others.0 others.1,
      )
      refl

visible_untabbed :
    (text : List ℕ) → all_of is_visible text ≡ true → all_of (λ c. c != 9) text ≡ true
visible_untabbed text h = all_of_weaken is_visible (λ c. c != 9) text (λ c e. ground arith) h

visible_printed : (text : List ℕ) → all_of is_visible text ≡ true → all_of is_printed text ≡ true
visible_printed text h = all_of_weaken is_visible is_printed text (λ c e. ground arith) h

pub printed_row-printed :
    (is_hex : ℕ → Bool) (row : Identity)
    → IsIdentity is_hex row
    → all_of is_printed (printed_row row) ≡ true
unfolding all_of
printed_row-printed is_hex row h =
    let ids = joined_ids row.first_id row.other_ids in
    let behind = row.path ++ 9 ∷ ids in
    let seen = visible_printed ids (joined_ids-visible is_hex row.first_id row.other_ids h.4 h.5) in
    rw
      (
        all_of_append is_printed row.key (9 ∷ behind),
        visible_printed row.key h.2,
        all_of_append is_printed row.path (9 ∷ ids),
        visible_printed row.path h.3,
        seen,
      )
      refl

pub identity_row-printed_row :
    (is_hex : ℕ → Bool) (row : Identity)
    → IsIdentity is_hex row
    → identity_row is_hex (printed_row row) ≡ some row.path
unfolding identity_row row_path
identity_row-printed_row is_hex row h =
    let ids = joined_ids row.first_id row.other_ids in
    let behind = row.path ++ 9 ∷ ids in
    let untabbed =
      visible_untabbed ids (joined_ids-visible is_hex row.first_id row.other_ids h.4 h.5) in
    rw
      (
        printed_row-printed is_hex row h,
        fields_marked 9 row.key behind (visible_untabbed row.key h.2),
        fields_marked 9 row.path ids (visible_untabbed row.path h.3),
        fields_plain 9 ids untabbed,
      )
      (rw
        (
          is_empty-long row.key h.0,
          is_empty-long row.path h.1,
          fields-joined_ids is_hex row.first_id row.other_ids h.4 h.5,
        )
        refl)
