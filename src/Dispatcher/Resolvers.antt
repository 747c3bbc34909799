-- ===== src/Dispatcher/Resolvers.antt =====
-- src/native/dns-dispatcher.cpp: `DirectResolvers` and `directExchange`. Times are nanoseconds of the
-- steady clock. What an exchange does and how long it takes is the environment's: a state of the
-- world of any type, the clock in it, and the exchange as a function on it.
pub mod Order
pub mod Primary
pub mod Attempts
pub mod Deadline
pub mod Answered
pub mod Complete
use wireguard_dns_program_sp.Base.{
  ℕ, zero, suc, ◌+◌, ◌-◌, ◌*◌, ◌/◌, Bool, true, false, not, ◌&&◌, ◌||◌, Option, none, some, List,
  [], ◌∷◌, ltb, ◌==◌, ◌!=◌, if◌then◌else◌, get_or, length, min, max,
}

abbrev pub millisecond : ℕ
millisecond = 1000000

abbrev pub direct_budget : ℕ
direct_budget = 4000

abbrev pub per_resolver : ℕ
per_resolver = 1200

-- `DirectResolvers`: the time is 0 where the source has an empty one.
pub record DirectResolvers : Type 0 where
  pub prefer_for : ℕ
  pub preferred : ℕ
  pub probe_primary_at : ℕ

unfoldable pub first_asked : DirectResolvers → ℕ → ℕ → ℕ
first_asked state now count =
    if ltb now state.probe_primary_at && ltb state.preferred count then state.preferred else 0

-- The loop that appends the others, so many of them left.
unfoldable pub others : ℕ → ℕ → ℕ → List ℕ
others first index zero = []
others first index (suc left) =
    let rest = others first (index + 1) left in if index != first then index ∷ rest else rest

unfoldable pub order : DirectResolvers → ℕ → ℕ → List ℕ
unfolding first_asked others
order state now count = let first = first_asked state now count in first ∷ others first 0 count

unfoldable pub answered : DirectResolvers → ℕ → ℕ → Bool → DirectResolvers
answered state now index primary_failed =
    let chosen = record state { preferred = index } in
    if index == 0
    then record chosen { probe_primary_at = 0 }
    else if primary_failed
    then record chosen { probe_primary_at = now + state.prefer_for }
    else chosen

abbrev pub reset : DirectResolvers → DirectResolvers
reset state = record state { preferred = 0; probe_primary_at = 0 }

unfoldable pub upstream_deadline : ℕ → ℕ
upstream_deadline now = now + direct_budget * millisecond

unfoldable pub remaining_milliseconds : ℕ → ℕ → ℕ
remaining_milliseconds deadline now = (deadline - now) / millisecond

-- The time that the next resolver gets, where so many are left.
unfoldable pub attempt_timeout : ℕ → ℕ → Bool → ℕ
attempt_timeout remaining left share_remaining =
    if left == 1
    then remaining
    else if share_remaining
    then max 1 (remaining / left)
    else min remaining per_resolver

-- An exchange: the packet, the source, the resolver and the timeout.
abbrev pub Exchange {ℓ} : Type ℓ → Type ℓ
Exchange World = World → List ℕ → ℕ → ℕ → ℕ → World × Option (List ℕ)

-- The world and the state behind it, the answer and the index of the resolver that gave it.
pub record Outcome {ℓ} (World : Type ℓ) : Type ℓ where
  pub world : World
  pub state : DirectResolvers
  pub response : Option (List ℕ)
  pub answered_by : ℕ

module _ {ℓ} {World : Type ℓ} (clock : World → ℕ) (exchange : Exchange World) where
  -- The loop over the order.
  unfoldable pub attempts :
      ℕ → Bool → List ℕ → ℕ → List ℕ → DirectResolvers → Bool → List ℕ → World → Outcome World
  unfolding remaining_milliseconds attempt_timeout answered
  attempts deadline share packet source resolvers state primary_failed [] w = record {
    world = w;
    state = state;
    response = none;
    answered_by = 0;
  }
  attempts deadline share packet source resolvers state primary_failed (index ∷ rest) w =
      let remaining = remaining_milliseconds deadline (clock w) in
      let timeout = attempt_timeout remaining (length rest + 1) share in
      let (w', response) = exchange w packet source (get_or resolvers index 0) timeout in
      let failed = if index == 0 then true else primary_failed in
      let next = attempts deadline share packet source resolvers state failed rest w' in
      let done : List ℕ → Outcome World = λ reply. record {
        world = w';
        state = answered state (clock w') index primary_failed;
        response = some reply;
        answered_by = index;
      } in
      if remaining == 0
      then record { world = w; state = state; response = none; answered_by = 0 }
      else elim response [ none ↦ next | some reply ↦ done reply ]

  unfoldable pub direct_exchange :
      List ℕ → ℕ → List ℕ → DirectResolvers → ℕ → Bool → World → Outcome World
  unfolding attempts order
  direct_exchange packet source resolvers state deadline share w =
      attempts deadline share packet source resolvers state false
        (order state (clock w) (length resolvers)) w
