-- ===== src/Dispatcher/Resolvers/Order.antt =====
-- The order of `DirectResolvers` asks every resolver once.
use wireguard_dns_program_sp.Base.{
  ℕ, zero, suc, ◌+◌, ◌-◌, ◌<◌, ◌≡◌, ◌&&◌, List, [], ◌∷◌, ltb, leb, ◌==◌, ◌!=◌, if◌then◌else◌,
  length, arith,
}
use wireguard_dns_program_sp.Dispatcher.Resolvers.{DirectResolvers, first_asked, others, order}

-- How often a number stands in a list.
unfoldable pub occurrences : ℕ → List ℕ → ℕ
occurrences i [] = 0
occurrences i (x ∷ xs) = let rest = occurrences i xs in if x == i then suc rest else rest

first_asked-inside :
    (state : DirectResolvers) (now count : ℕ) → 0 < count → first_asked state now count < count
unfolding first_asked
first_asked-inside state now count h = ground arith

occurrences-others :
    (i first index left : ℕ)
    → occurrences i (others first index left)
      ≡ (if leb index i && ltb i (index + left) && i != first then 1 else 0)
unfolding occurrences others
occurrences-others i first index zero = ground arith
occurrences-others i first index (suc left) =
    ground (arith, occurrences-others i first (index + 1) left)

-- Of one resolver or more, the order has each exactly once, and nothing else.
pub order-each_once :
    (state : DirectResolvers) (now count i : ℕ)
    → 0 < count
    → occurrences i (order state now count) ≡ (if ltb i count then 1 else 0)
unfolding occurrences order
order-each_once state now count i h = ground (
  arith,
  first_asked-inside state now count,
  occurrences-others i (first_asked state now count) 0 count,
)

length-others :
    (first index left : ℕ)
    → length (others first index left)
      ≡ (if leb index first && ltb first (index + left) then left - 1 else left)
unfolding others
length-others first index zero = ground arith
length-others first index (suc left) = ground (arith, length-others first (index + 1) left)

pub length-order :
    (state : DirectResolvers) (now count : ℕ) → 0 < count → length (order state now count) ≡ count
unfolding order
length-order state now count h = ground (
  arith,
  first_asked-inside state now count h,
  length-others (first_asked state now count) 0 count,
)
