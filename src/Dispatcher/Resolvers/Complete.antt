-- ===== src/Dispatcher/Resolvers/Complete.antt =====
-- `directExchange` gives up only when every resolver was asked in vain.
use wireguard_dns_program_sp.Base.{
  ℕ, suc, ap, ◌∙◌, ◌+◌, ◌-◌, ◌*◌, ◌≤◌, ◌<◌, ◌≡◌, sym, Bool, true, false, none, List, [], ◌∷◌, ◌==◌,
  if◌then◌else◌, get_or, length, arith, Bool-cases, ==_iff, Option-cases, inl, inr,
}
use wireguard_dns_program_sp.Dispatcher.Resolvers.{
  DirectResolvers, Exchange, order, direct_exchange, remaining_milliseconds, attempt_timeout,
  millisecond, per_resolver,
}
use wireguard_dns_program_sp.Dispatcher.Resolvers.Order.{occurrences, length-order, order-each_once}
use wireguard_dns_program_sp.Dispatcher.Resolvers.Attempts.{
  attempt_timeout_short, asked, run, run_failed, run_answered,
}
use wireguard_dns_program_sp.Dispatcher.Resolvers.Deadline.{IsTimely}

more_steps : (n c : ℕ) → (suc (suc n) - 1) * c ≡ (suc n - 1) * c + c
more_steps n c =
    let less : suc (suc n) - 1 ≡ suc n = omega arith in
    let least : suc n - 1 ≡ n = omega arith in
    let more : suc n * c ≡ n * c + c = grind arith in
    ap (λ (t : ℕ). t * c) less ∙ more ∙ ap (λ (t : ℕ). t * c + c) (sym least)

module _ {ℓ} {World : Type ℓ} (clock : World → ℕ) (exchange : Exchange World) where
  module _ (deadline : ℕ) (packet : List ℕ) (source : ℕ) (resolvers : List ℕ)
      (state : DirectResolvers) where
    -- The search over the list, from this state of the world on, comes to the resolver in time and gets no
    -- answer from it: each exchange starts in the state that the one before left.
    pub data Tried : List ℕ → World → ℕ → Type ℓ where
      tried-now :
          {index : ℕ} {rest : List ℕ} {w : World}
          → 0 < remaining_milliseconds deadline (clock w)
          → (asked clock exchange deadline false packet source resolvers state w index rest).1
            ≡ none
          → Tried (index ∷ rest) w index
      tried-later :
          {index i : ℕ} {rest : List ℕ} {w : World}
          → 0 < remaining_milliseconds deadline (clock w)
          → (asked clock exchange deadline false packet source resolvers state w index rest).1
            ≡ none
          → Tried rest
              (asked clock exchange deadline false packet source resolvers state w index rest).0
              i
          → Tried (index ∷ rest) w i

  module _ (deadline : ℕ) (packet : List ℕ) (source : ℕ) (resolvers : List ℕ)
      (state : DirectResolvers) (slack : ℕ) (timely : IsTimely clock exchange slack) where
    -- Time is left for every resolver of the list, where each before the last takes the short wait and
    -- the slack.
    abbrev HasTime : ℕ → List ℕ → Type 0
    HasTime now rest =
        now + (length rest - 1) * (per_resolver * millisecond + slack) + millisecond ≤ deadline

    asked-HasTime :
        (w : World) (index next : ℕ) (rest : List ℕ)
        → HasTime (clock w) (index ∷ next ∷ rest)
        → HasTime
            (clock
              (asked clock exchange deadline false packet source resolvers state w index
                (next ∷ rest)).0)
            (next ∷ rest)
    asked-HasTime w index next rest h =
        let remaining = remaining_milliseconds deadline (clock w) in
        let left = length (next ∷ rest) + 1 in
        let one_less : (length (index ∷ next ∷ rest) - 1) * (per_resolver * millisecond + slack)
            ≡ (length (next ∷ rest) - 1) * (per_resolver * millisecond + slack)
              + (per_resolver * millisecond + slack) =
          more_steps (length rest) (per_resolver * millisecond + slack) in
        omega (
          arith,
          h,
          one_less,
          attempt_timeout_short remaining left (omega arith),
          timely w packet source (get_or resolvers index 0) (attempt_timeout remaining left false),
        )

    HasTime-rest :
        (w : World) (index : ℕ) (rest : List ℕ)
        → HasTime (clock w) (index ∷ rest)
        → 0 < length rest
        → HasTime
            (clock
              (asked clock exchange deadline false packet source resolvers state w index rest).0)
            rest
    HasTime-rest w index [] h some_left = absurd (omega arith)
    HasTime-rest w index (next ∷ rest) h some_left = asked-HasTime w index next rest h

    HasTime-remaining :
        (now index : ℕ) (rest : List ℕ)
        → HasTime now (index ∷ rest)
        → (remaining_milliseconds deadline now == 0) ≡ false
    unfolding remaining_milliseconds
    HasTime-remaining now index rest h = ground arith

    run_tries :
        (failed : Bool) (rest : List ℕ) (w : World)
        → (0 < length rest → HasTime (clock w) rest)
        → (run clock exchange deadline false packet source resolvers state failed rest w).response
          ≡ none
        → (i : ℕ) → 0 < occurrences i rest
        → Tried deadline packet source resolvers state rest w i
    unfolding occurrences
    run_tries failed [] w room h i some_left = absurd (omega arith)
    run_tries failed (index ∷ rest) w room h i some_left =
        let time = room (omega arith) in
        let e = HasTime-remaining (clock w) index rest time in
        elim (Option-cases
          (asked clock exchange deadline false packet source resolvers state w index rest).1) [
            | inl f ↦ elim (Bool-cases (index == i)) [
              | inl same ↦ rw (sym ((==_iff index i).0 same)) (tried-now (ground (arith, e)) f)
              | inr other ↦ tried-later (ground (arith, e)) f (
                  run_tries (if index == 0 then true else failed) rest
                    (asked clock exchange deadline false packet source resolvers state w index
                      rest).0
                    (HasTime-rest w index rest time)
                    (rw
                      (run_failed clock exchange deadline false packet source resolvers state failed
                        index rest w e f)
                      at h)
                    i (ground arith))
            ]
            | inr (given, f) ↦
                let answer =
                  rw
                    (run_answered clock exchange deadline false packet source resolvers state failed
                      index rest w given e f)
                    at h in
                absurd (cc)
          ]

  -- Where the time is not shared, each exchange keeps its timeout up to a slack, and at the start time is left for one
  -- short wait with its slack for each resolver but the last and a millisecond more, a search that gives no answer asked
  -- every listed resolver, one after the other, each before the deadline, and got no answer from any.
  pub direct_exchange-tries_all :
      (packet : List ℕ) (source : ℕ) (resolvers : List ℕ) (state : DirectResolvers)
      (deadline slack : ℕ) (w : World)
      → IsTimely clock exchange slack
      → clock w + (length resolvers - 1) * (per_resolver * millisecond + slack) + millisecond
        ≤ deadline
      → (direct_exchange clock exchange packet source resolvers state deadline false w).response
        ≡ none
      → (i : ℕ) → i < length resolvers
      → Tried deadline packet source resolvers state (order state (clock w) (length resolvers)) w i
  unfolding direct_exchange
  direct_exchange-tries_all packet source resolvers state deadline slack w timely start h i lt =
      let asked_order = order state (clock w) (length resolvers) in
      let size = length-order state (clock w) (length resolvers) in
      run_tries deadline packet source resolvers state slack timely false asked_order w
        (λ some_left. rw (size (omega arith)) start) h i
        (ground (arith, order-each_once state (clock w) (length resolvers) i))
