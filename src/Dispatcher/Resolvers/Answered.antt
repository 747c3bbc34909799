-- ===== src/Dispatcher/Resolvers/Answered.antt =====
-- The answer of `directExchange` is that of a listed resolver.
use wireguard_dns_program_sp.Base.{
  ℕ, ◌+◌, ◌<◌, ◌≡◌, refl, sym, ap, ◌∙◌, Bool, true, false, Option, some, List, [], ◌∷◌, ◌==◌,
  if◌then◌else◌, get_or, length, arith, Bool-cases, Option-cases, inl, inr,
}
use wireguard_dns_program_sp.Dispatcher.Resolvers.{
  DirectResolvers, Exchange, Outcome, order, attempts, direct_exchange, answered,
  remaining_milliseconds, attempt_timeout,
}
use wireguard_dns_program_sp.Dispatcher.Resolvers.Order.{occurrences, order-each_once}
use wireguard_dns_program_sp.Dispatcher.Resolvers.Attempts.{
  attempt_timeout_within, asked, run, run_late, run_failed, run_answered,
}

module _ {ℓ} {World : Type ℓ} (clock : World → ℕ) (exchange : Exchange World) where
  -- In some state of the world an exchange with a timeout of a millisecond or more gave this.
  abbrev pub Gave : List ℕ → ℕ → ℕ → Option (List ℕ) → Type ℓ
  Gave packet source resolver response =
      (w : World) × (timeout : ℕ) × (0 < timeout)
      × ((exchange w packet source resolver timeout).1 ≡ response)

  module _ (deadline : ℕ) (share : Bool) (packet : List ℕ) (source : ℕ) (resolvers : List ℕ)
      (state : DirectResolvers) where
    asked-Gave :
        (w : World) (index : ℕ) (rest : List ℕ)
        → (remaining_milliseconds deadline (clock w) == 0) ≡ false
        → Gave packet source
            (get_or resolvers index 0)
            (asked clock exchange deadline share packet source resolvers state w index rest).1
    asked-Gave w index rest e =
        let remaining = remaining_milliseconds deadline (clock w) in
        let within =
          attempt_timeout_within remaining (length rest + 1) share (ground arith) (omega arith) in
        (w, attempt_timeout remaining (length rest + 1) share, within.0, refl)

    -- An answer came from a resolver of the list, which the state now prefers.
    abbrev IsGiven : List ℕ → Outcome World → List ℕ → Type ℓ
    IsGiven rest outcome reply =
        (0 < occurrences outcome.answered_by rest)
        × (outcome.state.preferred ≡ outcome.answered_by)
        × Gave packet source (get_or resolvers outcome.answered_by 0) (some reply)

    IsGiven-later :
        (index : ℕ) (rest : List ℕ) (outcome : Outcome World) (reply : List ℕ)
        → IsGiven rest outcome reply
        → IsGiven (index ∷ rest) outcome reply
    unfolding occurrences
    IsGiven-later index rest outcome reply given = (ground (arith, given.0), given.1, given.2)

    IsGiven-now :
        (failed : Bool) (index : ℕ) (rest : List ℕ) (w : World) (given reply : List ℕ)
        → (remaining_milliseconds deadline (clock w) == 0) ≡ false
        → (asked clock exchange deadline share packet source resolvers state w index rest).1
          ≡ some given
        → Option.some given ≡ some reply
        → IsGiven
            (index ∷ rest)
            (run clock exchange deadline share packet source resolvers state failed
              (index ∷ rest)
              w)
            reply
    unfolding occurrences answered
    IsGiven-now failed index rest w given reply e f h =
        rw
          (run_answered clock exchange deadline share packet source resolvers state failed index
            rest w given e f)
          (ground arith, ground arith, rw (f ∙ h) at (asked-Gave w index rest e))

    run-IsGiven :
        (failed : Bool) (rest : List ℕ) (w : World) (reply : List ℕ)
        → (run clock exchange deadline share packet source resolvers state failed rest w).response
          ≡ some reply
        → IsGiven rest
            (run clock exchange deadline share packet source resolvers state failed rest w)
            reply
    unfolding attempts
    run-IsGiven failed [] w reply = λ h. absurd (cc)
    run-IsGiven failed (index ∷ rest) w reply =
        elim (Bool-cases (remaining_milliseconds deadline (clock w) == 0)) [
          | inl e ↦
              rw
                (run_late clock exchange deadline share packet source resolvers state failed index
                  rest w e)
                (λ h. absurd (cc))
          | inr e ↦
              elim (Option-cases
                (asked clock exchange deadline share packet source resolvers state w index
                  rest).1) [
                    | inl f ↦
                        rw
                          (run_failed clock exchange deadline share packet source resolvers state
                            failed index rest w e f)
                          (λ h.
                            IsGiven-later index rest
                              (run clock exchange deadline share packet source resolvers state
                                (if index == 0 then true else failed) rest
                                (asked clock exchange deadline share packet source resolvers state w
                                  index rest).0)
                              reply
                              (run-IsGiven (if index == 0 then true else failed) rest
                                (asked clock exchange deadline share packet source resolvers state w
                                  index rest).0
                                reply h))
                    | inr (given, f) ↦ λ h. IsGiven-now failed index rest w given reply e f (
                        (sym (
                          ap (λ (o : Outcome World). o.response)
                            (run_answered clock exchange deadline share packet source resolvers
                              state failed index rest w given e f)))
                        ∙ h)
                  ]
        ]

  -- An answer of one resolver or more came from a listed one, in an exchange of a millisecond or more,
  -- and that one is preferred from then on.
  pub direct_exchange-answered :
      (packet : List ℕ) (source : ℕ) (resolvers : List ℕ) (state : DirectResolvers) (deadline : ℕ)
      (share : Bool) (w : World) (reply : List ℕ)
      → 0 < length resolvers
      → (direct_exchange clock exchange packet source resolvers state deadline share w).response
        ≡ some reply
      → let outcome =
          direct_exchange clock exchange packet source resolvers state deadline share w in
        (outcome.answered_by < length resolvers)
        × (outcome.state.preferred ≡ outcome.answered_by)
        × Gave packet source (get_or resolvers outcome.answered_by 0) (some reply)
  unfolding direct_exchange
  direct_exchange-answered packet source resolvers state deadline share w reply some_listed h =
      let given =
        run-IsGiven deadline share packet source resolvers state false
          (order state (clock w) (length resolvers)) w reply h in
      let index =
        (direct_exchange clock exchange packet source resolvers state deadline share
          w).answered_by in
      (
        ground
            (arith, given.0, order-each_once state (clock w) (length resolvers) index some_listed),
        given.1,
        given.2,
      )
