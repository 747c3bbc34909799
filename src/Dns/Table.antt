-- ===== src/Dns/Table.antt =====
-- A hash map as an association list: `find`, `operator[]=`, `erase` and `erase_if`.
use wireguard_dns_program_sp.Base.{
  ℕ, suc, refl, ◌+◌, ◌≤◌, ◌≡◌, Bool, false, Option, none, some, List, [], ◌∷◌, if◌then◌else◌,
  bytes_eq, bytes_eq_refl, bytes_eq_sound, length, arith, Bool-cases, inl, inr, ap, ◌∙◌,
}

abbrev pub Table : Type 0 → Type 0
Table V = List (List ℕ × V)

module _ {ℓ} {V : Type ℓ} where
  unfoldable pub lookup : List ℕ → List (List ℕ × V) → Option V
  lookup k [] = none
  lookup k ((j, v) ∷ m) = if bytes_eq j k then some v else lookup k m

  unfoldable pub put : List ℕ → V → List (List ℕ × V) → List (List ℕ × V)
  put k v [] = (k, v) ∷ []
  put k v ((j, w) ∷ m) = if bytes_eq j k then (k, v) ∷ m else (j, w) ∷ put k v m

  unfoldable pub erase : List ℕ → List (List ℕ × V) → List (List ℕ × V)
  erase k [] = []
  erase k ((j, w) ∷ m) = if bytes_eq j k then erase k m else (j, w) ∷ erase k m

  unfoldable pub erase_if : (V → Bool) → List (List ℕ × V) → List (List ℕ × V)
  erase_if p [] = []
  erase_if p ((j, w) ∷ m) = if p w then erase_if p m else (j, w) ∷ erase_if p m

  pub lookup-put_self : (k : List ℕ) (v : V) (m : List (List ℕ × V)) → lookup k (put k v m) ≡ some v
  unfolding lookup put
  lookup-put_self k v [] = rw (bytes_eq_refl k)
  lookup-put_self k v ((j, w) ∷ m) = elim (Bool-cases (bytes_eq j k)) [
    | inl same ↦ rw (same, bytes_eq_refl k)
    | inr other ↦ rw (other, other) (lookup-put_self k v m)
  ]

  -- An entry that is kept is still found.
  pub lookup-erase_if :
      (p : V → Bool) (k : List ℕ) (m : List (List ℕ × V)) {v : V}
      → lookup k m ≡ some v
      → p v ≡ false
      → lookup k (erase_if p m) ≡ some v
  unfolding lookup erase_if
  lookup-erase_if p k [] h keep = cc
  lookup-erase_if p k ((j, w) ∷ m) {v} h keep = elim (Bool-cases (bytes_eq j k)) [
    | inl same ↦
        let found : some w ≡ some v = rw same at h in
        let here : w ≡ v = cc in
        let kept : p w ≡ false = ap p here ∙ keep in rw (kept, same) (ap some here)
    | inr other ↦
        let rest = lookup-erase_if p k m (rw other at h) keep in
        elim (Bool-cases (p w)) [ inl gone ↦ rw gone rest | inr kept ↦ rw (kept, other) rest ]
  ]

  pub length-erase_if : (p : V → Bool) (m : List (List ℕ × V)) → length (erase_if p m) ≤ length m
  unfolding erase_if
  length-erase_if p [] = omega arith
  length-erase_if p ((j, w) ∷ m) = ground (arith, length-erase_if p m)

  pub length-erase : (k : List ℕ) (m : List (List ℕ × V)) → length (erase k m) ≤ length m
  unfolding erase
  length-erase k [] = omega arith
  length-erase k ((j, w) ∷ m) = ground (arith, length-erase k m)

  pub length-put : (k : List ℕ) (v : V) (m : List (List ℕ × V)) → length (put k v m) ≤ length m + 1
  unfolding put
  length-put k v [] = omega arith
  length-put k v ((j, w) ∷ m) = ground (arith, length-put k v m)

  -- A key that is there is replaced.
  pub length-put_found :
      (k : List ℕ) (v : V) (m : List (List ℕ × V)) {w : V}
      → lookup k m ≡ some w
      → length (put k v m) ≡ length m
  unfolding lookup put
  length-put_found k v [] h = cc
  length-put_found k v ((j, u) ∷ m) {w} h = elim (Bool-cases (bytes_eq j k)) [
    | inl same ↦ rw same
    | inr other ↦ rw other (ap suc (length-put_found k v m (rw other at h)))
  ]

  -- An update for another key leaves what is found.
  pub lookup-put_other :
      (k other : List ℕ) (v : V) (m : List (List ℕ × V))
      → bytes_eq other k ≡ false
      → lookup k (put other v m) ≡ lookup k m
  unfolding lookup put
  lookup-put_other k other v [] apart = rw apart
  lookup-put_other k other v ((j, w) ∷ m) apart = elim (Bool-cases (bytes_eq j other)) [
    | inl same ↦
        let far : bytes_eq j k ≡ false =
          ap (λ (i : List ℕ). bytes_eq i k) (bytes_eq_sound j other same) ∙ apart in
        rw (same, apart, far)
    | inr unlike ↦ rw unlike (elim (Bool-cases (bytes_eq j k)) [
      | inl here ↦ rw here
      | inr later ↦ rw later (lookup-put_other k other v m apart)
    ])
  ]

  pub lookup-erase_other :
      (k other : List ℕ) (m : List (List ℕ × V))
      → bytes_eq other k ≡ false
      → lookup k (erase other m) ≡ lookup k m
  unfolding lookup erase
  lookup-erase_other k other [] apart = refl
  lookup-erase_other k other ((j, w) ∷ m) apart = elim (Bool-cases (bytes_eq j other)) [
    | inl same ↦
        let far : bytes_eq j k ≡ false =
          ap (λ (i : List ℕ). bytes_eq i k) (bytes_eq_sound j other same) ∙ apart in
        rw (same, far) (lookup-erase_other k other m apart)
    | inr unlike ↦ rw unlike (elim (Bool-cases (bytes_eq j k)) [
      | inl here ↦ rw here
      | inr later ↦ rw later (lookup-erase_other k other m apart)
    ])
  ]
