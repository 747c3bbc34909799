-- ===== src/Base/Options.antt =====
-- What an option that is `some` tells of the test or the chain that gave it.
use mathlib.Core.Path.{◌≡◌, refl}
use mathlib.Core.Logic.{◌⊎◌, inl, inr}
use mathlib.Core.Bool.{Bool, true, false}
use wireguard_dns_program_sp.Base.Tests.{if◌then◌else◌}
use mathlib.Core.Option.{Option, none, some}

module _ {A : Type 0} where
  pub some_same : {x y : A} → some x ≡ some y → x ≡ y
  some_same h = cc

  pub if_some :
      (c : Bool) {x y : Option A} {v : A}
      → (if c then x else y) ≡ some v
      → ((c ≡ true) × (x ≡ some v)) ⊎ ((c ≡ false) × (y ≡ some v))
  if_some true h = inl (refl, h)
  if_some false h = inr (refl, h)

  pub elim_some :
      {B : Type 0} (o : Option B) {k : B → Option A} {v : A}
      → elim o as (λ x. Option A) [ none ↦ none | some x ↦ k x ] ≡ some v
      → (x : B) × ((o ≡ some x) × (k x ≡ some v))
  elim_some none h = absurd (cc)
  elim_some (some x) h = (x, (refl, h))
