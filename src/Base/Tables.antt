-- ===== src/Base/Tables.antt =====
-- Facts that evaluation decides, value by value over a range.
use Prim.Native.Nat.{ℕ, zero, suc, ◌<◌}
use mathlib.Core.Path.{◌≡◌}
use mathlib.Core.Logic.{inl, inr}
use mathlib.Core.Bool.{Bool, true, false, not, ◌&&◌}
use native.Mathlib.Omega.{arith}
use wireguard_dns_program_sp.Base.Tests.{◌==◌, ==_iff, Bool-cases}

-- The test succeeds on every number under the bound.
unfoldable pub holds_below : ℕ → (ℕ → Bool) → Bool
holds_below zero test = true
holds_below (suc bound) test = let below = holds_below bound test in below && test bound

pub holds_below-true :
    (bound : ℕ) (test : ℕ → Bool)
    → holds_below bound test ≡ true
    → (x : ℕ) → x < bound
    → test x ≡ true
unfolding holds_below
holds_below-true zero test h x lt = absurd (omega arith)
holds_below-true (suc bound) test h x lt = elim (Bool-cases (x == bound)) [
  | inl e ↦ rw ((==_iff x bound).0 e) (ground arith)
  | inr e ↦ holds_below-true bound test (ground arith) x (ground arith)
]

unfoldable pub same : Bool → Bool → Bool
same true b = b
same false b = not b

pub same-true : (a b : Bool) → same a b ≡ true → a ≡ b
unfolding same
same-true true b h = ground arith
same-true false b h = ground arith
