-- ===== src/Dispatcher/Inputs/Resolvers.antt =====
-- The list of the physical resolvers: one to three, distinct, each the address of its field.
use mathlib.Core.Path.{subst}
use wireguard_dns_program_sp.Base.{
  ℕ, zero, suc, ◌+◌, ◌≤◌, ◌<◌, ◌≡◌, refl, sym, ap, ◌∙◌, false, Option, some, List, [], ◌∷◌, ◌++◌,
  ◌==◌, if◌then◌else◌, length, length-append, get_or, arith, Bool-cases, Option-cases, inl, inr,
}
use wireguard_dns_program_sp.Dispatcher.Resolvers.Order.{occurrences}
use wireguard_dns_program_sp.Dispatcher.Inputs.{
  push_first, fields, repeats, is_malformed_item, resolver_items, resolver_list,
}

repeats-occurrences :
    (r : ℕ) (result : List ℕ) → repeats r result ≡ false → occurrences r result ≡ 0
unfolding repeats occurrences
repeats-occurrences r [] h = refl
repeats-occurrences r (x ∷ result) h = ground (arith, repeats-occurrences r result)

occurrences-append :
    (i r : ℕ) (result : List ℕ)
    → occurrences i (result ++ (r ∷ [])) ≡ occurrences i result + (if r == i then 1 else 0)
unfolding occurrences
occurrences-append i r [] = ground arith
occurrences-append i r (x ∷ result) = ground (arith, occurrences-append i r result)

get_or-append :
    (result : List ℕ) (r i : ℕ)
    → i < length result
    → get_or (result ++ (r ∷ [])) i 0 ≡ get_or result i 0
get_or-append [] r i h = absurd (omega arith)
get_or-append (x ∷ result) r zero h = refl
get_or-append (x ∷ result) r (suc i) h = get_or-append result r i (omega arith)

get_or-append_last : (result : List ℕ) (r : ℕ) → get_or (result ++ (r ∷ [])) (length result) 0 ≡ r
get_or-append_last [] r = refl
get_or-append_last (x ∷ result) r = get_or-append_last result r

abbrev pub AllDistinct : List ℕ → Type 0
AllDistinct result = (i : ℕ) → occurrences i result ≤ 1

-- The addresses of the items stand in the list from a position on.
abbrev pub IsRead : (List ℕ → Option ℕ) → List (List ℕ) → List ℕ → ℕ → Type 0
IsRead address [] listed from = length listed ≡ from
IsRead address (item ∷ items) listed from =
    (address item ≡ some (get_or listed from 0)) × IsRead address items listed (from + 1)

-- What the loop leaves when it is through.
abbrev IsListed : (List ℕ → Option ℕ) → List ℕ → List (List ℕ) → List ℕ → Type 0
IsListed address result items listed =
    (length listed ≤ 3)
    × AllDistinct listed
    × ((i : ℕ) → i < length result → get_or listed i 0 ≡ get_or result i 0)
    × IsRead address items listed (length result)

append-AllDistinct :
    (result : List ℕ) (r : ℕ)
    → AllDistinct result
    → repeats r result ≡ false
    → AllDistinct (result ++ (r ∷ []))
append-AllDistinct result r h fresh i = elim (Bool-cases (r == i)) [
  | inl e ↦ ground (
    arith,
    h i,
    occurrences-append i r result,
    repeats-occurrences r result fresh,
    repeats-occurrences i result,
  )
  | inr e ↦ ground (arith, h i, occurrences-append i r result)
]

some_injective : (a b : List ℕ) → Option.some a ≡ some b → a ≡ b
some_injective a b e = cc

resolver_items_next :
    (address : List ℕ → Option ℕ) (result item : List ℕ) (items : List (List ℕ)) (listed : List ℕ)
    (r : ℕ)
    → length result ≤ 3
    → AllDistinct result
    → address item ≡ some r
    → repeats r result ≡ false
    → is_malformed_item item result ≡ false
    → IsListed address (result ++ (r ∷ [])) items listed
    → IsListed address result (item ∷ items) listed
resolver_items_next address result item items listed r few h given fresh good next =
    let size : length (result ++ (r ∷ [])) ≡ length result + 1 = length-append result (r ∷ []) in
    let last : get_or listed (length result) 0 ≡ r =
      next.2 (length result) (omega (arith, size)) ∙ get_or-append_last result r in
    (
      next.0,
      next.1,
      (λ i lt. next.2 i (omega (arith, size)) ∙ get_or-append result r i lt),
      (
        given ∙ ap (λ (x : ℕ). Option.some x) (sym last),
        subst (λ (n : ℕ). IsRead address items listed n) size next.3,
      ),
    )

resolver_items-IsListed :
    (address : List ℕ → Option ℕ) (result : List ℕ) (items : List (List ℕ)) (listed : List ℕ)
    → length result ≤ 3
    → AllDistinct result
    → resolver_items address result items ≡ some listed
    → IsListed address result items listed
unfolding resolver_items
resolver_items-IsListed address result [] listed few h = λ e.
    subst (λ (l : List ℕ). IsListed address result [] l) (some_injective result listed e)
      (few, h, (λ i lt. refl), refl)
resolver_items-IsListed address result (item ∷ items) listed few h =
    elim (Option-cases (address item)) [
      | inl none_given ↦ rw (resolver_items, none_given) (λ e. absurd (cc))
      | inr (r, given) ↦
          rw (resolver_items, given)
            (elim (Bool-cases (repeats r result)) [
              | inl again ↦ rw (resolver_items, again) (λ e. absurd (cc))
              | inr fresh ↦
                  rw (resolver_items, fresh)
                    (elim (Bool-cases (is_malformed_item item result)) [
                      | inl bad ↦ rw (resolver_items, bad) (λ e. absurd (cc))
                      | inr good ↦
                          rw (resolver_items, good)
                            (λ e. rw given at (
                              resolver_items_next address result item items listed r few h given
                                fresh good
                                (resolver_items-IsListed address (result ++ (r ∷ [])) items listed
                                  (ground (arith, length-append result (r ∷ [])))
                                  (append-AllDistinct result r h fresh) e)))
                    ])
            ])
    ]

IsRead-length :
    (address : List ℕ → Option ℕ) (items : List (List ℕ)) (listed : List ℕ) (from : ℕ)
    → IsRead address items listed from
    → length listed ≡ from + length items
IsRead-length address [] listed from h = omega (arith, h)
IsRead-length address (item ∷ items) listed from h =
    omega (arith, IsRead-length address items listed (from + 1) h.1)

push_first_nonempty : (c : ℕ) (texts : List (List ℕ)) → 0 < length (push_first c texts)
push_first_nonempty c [] = omega arith
push_first_nonempty c (t ∷ texts) = omega arith

pub fields_nonempty : (mark : ℕ) (text : List ℕ) → 0 < length (fields mark text)
unfolding fields
fields_nonempty mark [] = omega arith
fields_nonempty mark (c ∷ text) = elim (Bool-cases (c == mark)) [
  | inl e ↦ rw e (omega arith)
  | inr e ↦ rw e (push_first_nonempty c (fields mark text))
]

-- A list that is accepted is of one to three resolvers without a repetition, as many as there are fields
-- between the commas, and each is the address of its field.
pub resolver_list-IsRead :
    (address : List ℕ → Option ℕ) (text : List ℕ) (listed : List ℕ)
    → resolver_list address text ≡ some listed
    → (0 < length listed)
      × (length listed ≤ 3)
      × (length listed ≡ length (fields 44 text))
      × AllDistinct listed
      × IsRead address (fields 44 text) listed 0
unfolding resolver_list occurrences
resolver_list-IsRead address text listed e =
    let done =
      resolver_items-IsListed address [] (fields 44 text) listed (omega arith) (λ i. ground arith)
        e in
    let size = IsRead-length address (fields 44 text) listed 0 done.3 in
    (omega (arith, size, fields_nonempty 44 text), done.0, omega (arith, size), done.1, done.3)
