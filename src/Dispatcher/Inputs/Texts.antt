-- ===== src/Dispatcher/Inputs/Texts.antt =====
-- Sets of texts, texts without a character, and the fields of a text.
use mathlib.Core.Path.{subst}
use wireguard_dns_program_sp.Base.{
  ℕ, ◌≡◌, refl, Bool, true, false, ◌&&◌, ◌||◌, List, [], ◌∷◌, ◌++◌, ◌==◌, ◌!=◌, arith, Bool-cases,
  inl, inr,
}
use wireguard_dns_program_sp.Dispatcher.Names.{same_text}
use wireguard_dns_program_sp.Dispatcher.Inputs.{fields, all_of, contains, insert}

-- Sets.
same_text-equal : (a b : List ℕ) → same_text a b ≡ true → a ≡ b
same_text-equal [] [] h = refl
same_text-equal [] (d ∷ b) h = absurd (cc)
same_text-equal (c ∷ a) [] h = absurd (cc)
same_text-equal (c ∷ a) (d ∷ b) h =
    let first : c ≡ d = ground arith in let rest : a ≡ b = same_text-equal a b (ground arith) in cc

contains-append :
    (text path : List ℕ) (texts : List (List ℕ))
    → contains text (texts ++ (path ∷ [])) ≡ (contains text texts || same_text path text)
unfolding contains
contains-append text path [] = ground arith
contains-append text path (t ∷ texts) = ground (arith, contains-append text path texts)

pub contains-insert :
    (text path : List ℕ) (texts : List (List ℕ))
    → contains text (insert path texts) ≡ (contains text texts || same_text path text)
unfolding insert
contains-insert text path texts = elim (Bool-cases (contains path texts)) [
  | inl e ↦ rw e (elim (Bool-cases (same_text path text)) [
    | inl same ↦
        let there : contains text texts ≡ true =
          subst (λ (t : List ℕ). contains t texts ≡ true) (same_text-equal path text same) e in
        rw there refl
    | inr other ↦ rw other (ground arith)
  ])
  | inr e ↦ rw e (contains-append text path texts)
]

-- Texts without a character.
pub all_of_append :
    (test : ℕ → Bool) (a b : List ℕ) → all_of test (a ++ b) ≡ (all_of test a && all_of test b)
unfolding all_of
all_of_append test [] b = refl
all_of_append test (c ∷ a) b = ground (arith, all_of_append test a b)

pub all_of_weaken :
    (p q : ℕ → Bool) (text : List ℕ)
    → ((c : ℕ) → p c ≡ true → q c ≡ true)
    → all_of p text ≡ true
    → all_of q text ≡ true
unfolding all_of
all_of_weaken p q [] weaken h = refl
all_of_weaken p q (c ∷ text) weaken h =
    let first = weaken c (ground arith) in
    let rest = all_of_weaken p q text weaken (ground arith) in rw (first, rest) refl

pub fields_plain :
    (mark : ℕ) (text : List ℕ) → all_of (λ c. c != mark) text ≡ true → fields mark text ≡ text ∷ []
unfolding fields all_of
fields_plain mark [] h = refl
fields_plain mark (c ∷ text) h =
    let first : (c == mark) ≡ false = ground arith in
    rw (first, fields_plain mark text (ground arith)) refl

pub fields_marked :
    (mark : ℕ) (text rest : List ℕ)
    → all_of (λ c. c != mark) text ≡ true
    → fields mark (text ++ mark ∷ rest) ≡ text ∷ fields mark rest
unfolding fields all_of
fields_marked mark [] rest h = let e : (mark == mark) ≡ true = ground arith in rw e refl
fields_marked mark (c ∷ text) rest h =
    let first : (c == mark) ≡ false = ground arith in
    rw (first, fields_marked mark text rest (ground arith)) refl
