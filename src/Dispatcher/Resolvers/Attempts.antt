-- ===== src/Dispatcher/Resolvers/Attempts.antt =====
-- The rounds of `directExchange` over any exchange: too late, in vain, or answered.
use wireguard_dns_program_sp.Base.{
  ℕ, ◌+◌, ◌≤◌, ◌<◌, ◌≡◌, refl, Bool, true, false, Option, none, some, List, ◌∷◌, ◌==◌,
  if◌then◌else◌, get_or, length, arith,
}
use wireguard_dns_program_sp.Dispatcher.Resolvers.{
  DirectResolvers, Exchange, Outcome, attempts, answered, remaining_milliseconds, attempt_timeout,
  per_resolver,
}

pub attempt_timeout_within :
    (remaining left : ℕ) (share : Bool)
    → 0 < remaining
    → 0 < left
    → (0 < attempt_timeout remaining left share)
      × (attempt_timeout remaining left share ≤ remaining)
unfolding attempt_timeout
attempt_timeout_within remaining left share h l = ground arith

pub attempt_timeout_short :
    (remaining left : ℕ) → 1 < left → attempt_timeout remaining left false ≤ per_resolver
unfolding attempt_timeout
attempt_timeout_short remaining left h = ground arith

module _ {ℓ} {World : Type ℓ} (clock : World → ℕ) (exchange : Exchange World) where
  module _ (deadline : ℕ) (share : Bool) (packet : List ℕ) (source : ℕ) (resolvers : List ℕ)
      (state : DirectResolvers) where
    -- The exchange with the next resolver of the order.
    abbrev pub asked : World → ℕ → List ℕ → World × Option (List ℕ)
    asked w index rest =
        exchange w packet source (get_or resolvers index 0)
          (attempt_timeout (remaining_milliseconds deadline (clock w)) (length rest + 1) share)

    abbrev pub run : Bool → List ℕ → World → Outcome World
    run failed rest w =
        attempts clock exchange deadline share packet source resolvers state failed rest w

    pub run_late :
        (failed : Bool) (index : ℕ) (rest : List ℕ) (w : World)
        → (remaining_milliseconds deadline (clock w) == 0) ≡ true
        → run failed (index ∷ rest) w
          ≡ record { world = w; state = state; response = none; answered_by = 0 }
    unfolding attempts
    run_late failed index rest w e = rw e refl

    pub run_failed :
        (failed : Bool) (index : ℕ) (rest : List ℕ) (w : World)
        → (remaining_milliseconds deadline (clock w) == 0) ≡ false
        → (asked w index rest).1 ≡ none
        → run failed (index ∷ rest) w
          ≡ run (if index == 0 then true else failed) rest (asked w index rest).0
    unfolding attempts
    run_failed failed index rest w e f = rw (e, f) refl

    pub run_answered :
        (failed : Bool) (index : ℕ) (rest : List ℕ) (w : World) (reply : List ℕ)
        → (remaining_milliseconds deadline (clock w) == 0) ≡ false
        → (asked w index rest).1 ≡ some reply
        → run failed (index ∷ rest) w ≡ record {
          world = (asked w index rest).0;
          state = answered state (clock (asked w index rest).0) index failed;
          response = some reply;
          answered_by = index;
        }
    unfolding attempts
    run_answered failed index rest w reply e f = rw (e, f) refl
