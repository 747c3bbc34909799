-- ===== src/Dns/Wire/Servfail.antt =====
-- The refusal that `makeServfail` of dns-wire.h builds answers its query.
use wireguard_dns_program_sp.Base.{
  ℕ, zero, suc, ◌+◌, ◌<◌, ◌≤◌, ◌≡◌, ◌≢◌, refl, true, List, length, set, length-set, get_or-set_self,
  get_or-set_ne, arith, bit_and, bit_or, ◌∙◌, sym,
}
use native.Mathlib.Decide.{ℕ_discrete}
use wireguard_dns_program_sp.Base.Bits.{bit_and-bit_or_self}
use wireguard_dns_program_sp.Dns.Wire.{byte_at, fill_zero, make_servfail, matching_response}

pub length-fill_zero : (p : List ℕ) (from n : ℕ) → length (fill_zero p from n) ≡ length p
unfolding fill_zero
length-fill_zero p from zero = refl
length-fill_zero p from (suc n) = length-fill_zero (set p from 0) (from + 1) n ∙ length-set p from 0

-- A fill leaves what stands before it, and what stands behind it.
pub fill_zero-before :
    (p : List ℕ) (from n i : ℕ) → i < from → byte_at (fill_zero p from n) i ≡ byte_at p i
unfolding fill_zero
fill_zero-before p from zero i h = refl
fill_zero-before p from (suc n) i h =
    fill_zero-before (set p from 0) (from + 1) n i (omega arith)
    ∙ get_or-set_ne p from i 0 0 (omega arith)

pub fill_zero-behind :
    (p : List ℕ) (from n i : ℕ) → from + n ≤ i → byte_at (fill_zero p from n) i ≡ byte_at p i
unfolding fill_zero
fill_zero-behind p from zero i h = refl
fill_zero-behind p from (suc n) i h =
    fill_zero-behind (set p from 0) (from + 1) n i (omega arith)
    ∙ get_or-set_ne p from i 0 0 (omega arith)

-- Inside it every byte is zero.
pub fill_zero-inside :
    (p : List ℕ) (from n i : ℕ)
    → from ≤ i
    → i < from + n
    → from + n ≤ length p
    → byte_at (fill_zero p from n) i ≡ 0
unfolding fill_zero
fill_zero-inside p from zero i a b c = absurd (omega arith)
fill_zero-inside p from (suc n) i a b c = elim (ℕ_discrete from i) [
  | yes here ↦
      fill_zero-before (set p from 0) (from + 1) n i (omega arith)
      ∙ (rw (← here) (get_or-set_self p from 0 0 (omega arith)))
  | no later ↦
      fill_zero-inside (set p from 0) (from + 1) n i (ground arith) (omega arith)
        (omega (arith, length-set p from 0))
]

-- The two header bytes as the refusal sets them.
abbrev flagged : List ℕ → List ℕ
flagged q =
    let flags = set q 2 (bit_or (byte_at q 2) 0x80) in
    set flags 3 (bit_or (bit_and (byte_at flags 3) 0xf0) 0x02)

make_servfail-eq : (q : List ℕ) → 12 ≤ length q → make_servfail q ≡ fill_zero (flagged q) 6 6
unfolding make_servfail
make_servfail-eq q h = ground arith

flagged-kept : (q : List ℕ) (i : ℕ) → i ≢ 2 → i ≢ 3 → byte_at (flagged q) i ≡ byte_at q i
flagged-kept q i a b =
    let flags = set q 2 (bit_or (byte_at q 2) 0x80) in
    get_or-set_ne flags 3 i (bit_or (bit_and (byte_at flags 3) 0xf0) 0x02) 0 (λ e. b (sym e))
    ∙ get_or-set_ne q 2 i (bit_or (byte_at q 2) 0x80) 0 (λ e. a (sym e))

flagged-answer : (q : List ℕ) → 12 ≤ length q → byte_at (flagged q) 2 ≡ bit_or (byte_at q 2) 0x80
flagged-answer q h =
    let flags = set q 2 (bit_or (byte_at q 2) 0x80) in
    get_or-set_ne flags 3 2 (bit_or (bit_and (byte_at flags 3) 0xf0) 0x02) 0 (omega arith)
    ∙ get_or-set_self q 2 (bit_or (byte_at q 2) 0x80) 0 (omega arith)

length-flagged : (q : List ℕ) → length (flagged q) ≡ length q
length-flagged q =
    let flags = set q 2 (bit_or (byte_at q 2) 0x80) in
    length-set flags 3 (bit_or (bit_and (byte_at flags 3) 0xf0) 0x02)
    ∙ length-set q 2 (bit_or (byte_at q 2) 0x80)

-- The refusal of a query of at least a header answers it: it has the query's length and id and is
-- marked as a response, so it is matched to its query; its three record counts are zero, and the
-- question's count and everything behind the header are the query's own.
pub make_servfail-answers :
    (q : List ℕ)
    → 12 ≤ length q
    → (length (make_servfail q) ≡ length q)
      × (matching_response q (make_servfail q) ≡ true)
      × ((i : ℕ) → 6 ≤ i → i < 12 → byte_at (make_servfail q) i ≡ 0)
      × ((i : ℕ) → 12 ≤ i → byte_at (make_servfail q) i ≡ byte_at q i)
      × (byte_at (make_servfail q) 4 ≡ byte_at q 4)
      × (byte_at (make_servfail q) 5 ≡ byte_at q 5)
make_servfail-answers q h =
    let r = flagged q in
    let same = length-fill_zero r 6 6 ∙ length-flagged q in
    let head = λ (i : ℕ) (l : i < 6) (a : i ≢ 2) (b : i ≢ 3).
      fill_zero-before r 6 6 i l ∙ flagged-kept q i a b in
    rw (make_servfail-eq q h) (
      same,
      matched r same (head 0 (omega arith) (omega arith) (omega arith))
          (head 1 (omega arith) (omega arith) (omega arith))
          (fill_zero-before r 6 6 2 (omega arith) ∙ flagged-answer q h),
      λ i a b. fill_zero-inside r 6 6 i a (omega arith) (omega (arith, length-flagged q)),
      λ i a. fill_zero-behind r 6 6 i (omega arith) ∙ flagged-kept q i (omega arith) (omega arith),
      head 4 (omega arith) (omega arith) (omega arith),
      head 5 (omega arith) (omega arith) (omega arith),
    )
  where
    matched :
        (r : List ℕ)
        → length (fill_zero r 6 6) ≡ length q
        → byte_at (fill_zero r 6 6) 0 ≡ byte_at q 0
        → byte_at (fill_zero r 6 6) 1 ≡ byte_at q 1
        → byte_at (fill_zero r 6 6) 2 ≡ bit_or (byte_at q 2) 0x80
        → matching_response q (fill_zero r 6 6) ≡ true
    matched r l a b c =
        unfold matching_response in
        rw (a, b, c) (ground (arith, l, h, bit_and-bit_or_self (byte_at q 2) 7))
