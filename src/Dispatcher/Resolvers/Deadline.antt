-- ===== src/Dispatcher/Resolvers/Deadline.antt =====
-- `directExchange` ends by its deadline.
use wireguard_dns_program_sp.Base.{
  ℕ, ◌+◌, ◌*◌, ◌≤◌, ◌<◌, ◌≡◌, Bool, true, false, List, [], ◌∷◌, ◌==◌, if◌then◌else◌, get_or, length,
  max, arith, Bool-cases, Option-cases, inl, inr,
}
use wireguard_dns_program_sp.Dispatcher.Resolvers.{
  DirectResolvers, Exchange, order, attempts, direct_exchange, remaining_milliseconds,
  attempt_timeout, millisecond,
}
use wireguard_dns_program_sp.Dispatcher.Resolvers.Attempts.{
  attempt_timeout_within, asked, run, run_late, run_failed, run_answered,
}

module _ {ℓ} {World : Type ℓ} (clock : World → ℕ) (exchange : Exchange World) where
  -- An exchange lasts at most its timeout and a slack.
  abbrev pub IsTimely : ℕ → Type ℓ
  IsTimely slack =
      (w : World) (packet : List ℕ) (source resolver timeout : ℕ)
      → clock (exchange w packet source resolver timeout).0
        ≤ clock w + timeout * millisecond + slack

  module _ (deadline : ℕ) (share : Bool) (packet : List ℕ) (source : ℕ) (resolvers : List ℕ)
      (state : DirectResolvers) (slack : ℕ) (timely : IsTimely slack) where
    asked_deadline :
        (w : World) (index : ℕ) (rest : List ℕ)
        → (remaining_milliseconds deadline (clock w) == 0) ≡ false
        → clock (asked clock exchange deadline share packet source resolvers state w index rest).0
          ≤ deadline + slack
    unfolding remaining_milliseconds
    asked_deadline w index rest e =
        let remaining = remaining_milliseconds deadline (clock w) in
        let h : 0 < remaining = ground arith in
        let within = attempt_timeout_within remaining (length rest + 1) share h (omega arith) in
        omega (
          arith,
          within.1,
          timely w packet source (get_or resolvers index 0)
              (attempt_timeout remaining (length rest + 1) share),
        )

    run_deadline :
        (failed : Bool) (rest : List ℕ) (w : World)
        → clock
            (run clock exchange deadline share packet source resolvers state failed rest w).world
          ≤ max (clock w) (deadline + slack)
    unfolding attempts
    run_deadline failed [] w = omega arith
    run_deadline failed (index ∷ rest) w =
        elim (Bool-cases (remaining_milliseconds deadline (clock w) == 0)) [
          | inl e ↦
              rw
                (run_late clock exchange deadline share packet source resolvers state failed index
                  rest w e)
                (omega arith)
          | inr e ↦
              let bound = asked_deadline w index rest e in
              elim (Option-cases
                (asked clock exchange deadline share packet source resolvers state w index
                  rest).1) [
                    | inl f ↦
                        rw
                          (run_failed clock exchange deadline share packet source resolvers state
                            failed index rest w e f)
                          (omega (
                            arith,
                            bound,
                            run_deadline (if index == 0 then true else failed) rest
                                (asked clock exchange deadline share packet source resolvers state w
                                  index rest).0,
                          ))
                    | inr (reply, f) ↦
                        rw
                          (run_answered clock exchange deadline share packet source resolvers state
                            failed index rest w reply e f)
                          (omega (arith, bound))
                  ]
        ]

  -- Where each exchange lasts at most its timeout and a slack, the whole ends by the deadline and one
  -- slack, if it started by then, however many resolvers it asked.
  pub direct_exchange-deadline :
      (packet : List ℕ) (source : ℕ) (resolvers : List ℕ) (state : DirectResolvers) (deadline : ℕ)
      (share : Bool) (w : World) (slack : ℕ)
      → IsTimely slack
      → clock w ≤ deadline + slack
      → clock (direct_exchange clock exchange packet source resolvers state deadline share w).world
        ≤ deadline + slack
  unfolding direct_exchange
  direct_exchange-deadline packet source resolvers state deadline share w slack timely h = omega (
    arith,
    h,
    run_deadline deadline share packet source resolvers state slack timely false
        (order state (clock w) (length resolvers)) w,
  )
