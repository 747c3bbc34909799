-- ===== src/Dispatcher/Routes/Direct.antt =====
-- A direct query meets the direct source and the listed resolvers only.
use wireguard_dns_program_sp.Base.{
  ℕ, ◌+◌, ◌-◌, ◌*◌, ◌<◌, ◌≡◌, refl, sym, ap, ◌∙◌, Bool, true, false, Option, some, List, [], ◌∷◌,
  ◌==◌, if◌then◌else◌, get_or, length, arith, Bool-cases, Option-cases, inl, inr,
}
use wireguard_dns_program_sp.Dispatcher.Resolvers.{
  DirectResolvers, Exchange, Outcome, order, attempts, direct_exchange, answered,
  remaining_milliseconds, attempt_timeout, upstream_deadline, millisecond, per_resolver,
}
use wireguard_dns_program_sp.Dispatcher.Routes.{
  Routes, Answer, udp_answer, plain_answer, direct_answer, completed_answer, exchange_udp_route,
  exchange_tcp_route, needs_udp,
}
use wireguard_dns_program_sp.Dispatcher.Resolvers.Order.{occurrences, order-each_once}
use wireguard_dns_program_sp.Dispatcher.Resolvers.Attempts.{
  asked, run, run_late, run_failed, run_answered,
}
use wireguard_dns_program_sp.Dispatcher.Routes.Tunnel.{Agree, completed_answer-Agree}

module _ {ℓ} {World : Type ℓ} where
  abbrev reply_outcome : World → DirectResolvers → List ℕ → ℕ → Outcome World
  reply_outcome w state reply index = record {
    world = w;
    state = state;
    response = some reply;
    answered_by = index;
  }

  run-Agree :
      (clock : World → ℕ) (first second : Exchange World) (deadline : ℕ) (share : Bool)
      (packet : List ℕ) (source : ℕ) (resolvers : List ℕ) (state : DirectResolvers) (failed : Bool)
      (rest : List ℕ) (w : World)
      → ((i : ℕ) → 0 < occurrences i rest → Agree source (get_or resolvers i 0) first second)
      → attempts clock first deadline share packet source resolvers state failed rest w
        ≡ attempts clock second deadline share packet source resolvers state failed rest w
  unfolding attempts occurrences
  run-Agree clock first second deadline share packet source resolvers state failed [] w agree = refl
  run-Agree clock first second deadline share packet source resolvers state failed (index ∷ rest) w
        agree =
      let timeout =
        attempt_timeout (remaining_milliseconds deadline (clock w)) (length rest + 1) share in
      let same = agree index (ground arith) w packet timeout in
      let later =
        run-Agree clock first second deadline share packet source resolvers state
          (if index == 0 then true else failed) rest
          (asked clock first deadline share packet source resolvers state w index rest).0
          (λ i h. agree i (ground arith)) in
      elim (Bool-cases (remaining_milliseconds deadline (clock w) == 0)) [
        | inl e ↦
            run_late clock first deadline share packet source resolvers state failed index rest w e
            ∙ sym (
                run_late clock second deadline share packet source resolvers state failed index rest
                  w e)
        | inr e ↦
            elim (Option-cases
              (asked clock first deadline share packet source resolvers state w index rest).1) [
                | inl f ↦
                    run_failed clock first deadline share packet source resolvers state failed index
                      rest w e f
                    ∙ later
                    ∙ ap
                        (λ (result : World × Option (List ℕ)).
                          run clock second deadline share packet source resolvers state
                            (if index == 0 then true else failed) rest result.0)
                        same
                    ∙ sym (
                        run_failed clock second deadline share packet source resolvers state failed
                          index rest w e
                          (ap (λ (result : World × Option (List ℕ)). result.1) (sym same) ∙ f))
                | inr (reply, f) ↦
                    run_answered clock first deadline share packet source resolvers state failed
                      index rest w reply e f
                    ∙ ap
                        (λ (result : World × Option (List ℕ)).
                          reply_outcome result.0 (answered state (clock result.0) index failed)
                            reply index)
                        same
                    ∙ sym (
                        run_answered clock second deadline share packet source resolvers state
                          failed index rest w reply e
                          (ap (λ (result : World × Option (List ℕ)). result.1) (sym same) ∙ f))
              ]
      ]

  -- They do the same from a source with every listed resolver.
  abbrev pub AgreeAll : ℕ → List ℕ → Exchange World → Exchange World → Type ℓ
  AgreeAll source resolvers first second =
      (i : ℕ) → i < length resolvers → Agree source (get_or resolvers i 0) first second

  direct_exchange-Agree :
      (clock : World → ℕ) (first second : Exchange World) (packet : List ℕ) (source : ℕ)
      (resolvers : List ℕ) (state : DirectResolvers) (deadline : ℕ) (share : Bool) (w : World)
      → 0 < length resolvers
      → AgreeAll source resolvers first second
      → direct_exchange clock first packet source resolvers state deadline share w
        ≡ direct_exchange clock second packet source resolvers state deadline share w
  unfolding direct_exchange
  direct_exchange-Agree clock first second packet source resolvers state deadline share w
        some_listed agree =
      run-Agree clock first second deadline share packet source resolvers state false
        (order state (clock w) (length resolvers)) w
        (λ i h.
          agree i
            (ground (arith, order-each_once state (clock w) (length resolvers) i some_listed)))

  run_index :
      (clock : World → ℕ) (exchange : Exchange World) (deadline : ℕ) (share : Bool)
      (packet : List ℕ) (source : ℕ) (resolvers : List ℕ) (state : DirectResolvers) (failed : Bool)
      (rest : List ℕ) (w : World) (count : ℕ)
      → 0 < count
      → ((i : ℕ) → 0 < occurrences i rest → i < count)
      → (run clock exchange deadline share packet source resolvers state failed rest w).answered_by
        < count
  unfolding attempts occurrences
  run_index clock exchange deadline share packet source resolvers state failed [] w count h inside =
      h
  run_index clock exchange deadline share packet source resolvers state failed (index ∷ rest) w
        count h inside =
      elim (Bool-cases (remaining_milliseconds deadline (clock w) == 0)) [
        | inl e ↦
            rw
              (run_late clock exchange deadline share packet source resolvers state failed index
                rest w e)
              h
        | inr e ↦
            elim (Option-cases
              (asked clock exchange deadline share packet source resolvers state w index rest).1) [
                | inl f ↦
                    rw
                      (run_failed clock exchange deadline share packet source resolvers state failed
                        index rest w e f)
                      (run_index clock exchange deadline share packet source resolvers state
                        (if index == 0 then true else failed) rest
                        (asked clock exchange deadline share packet source resolvers state w index
                          rest).0
                        count h (λ i k. inside i (ground arith)))
                | inr (reply, f) ↦
                    rw
                      (run_answered clock exchange deadline share packet source resolvers state
                        failed index rest w reply e f)
                      (inside index (ground arith))
              ]
      ]

  direct_exchange_index :
      (clock : World → ℕ) (exchange : Exchange World) (packet : List ℕ) (source : ℕ)
      (resolvers : List ℕ) (state : DirectResolvers) (deadline : ℕ) (share : Bool) (w : World)
      → 0 < length resolvers
      → (direct_exchange clock exchange packet source resolvers state deadline share w).answered_by
        < length resolvers
  unfolding direct_exchange
  direct_exchange_index clock exchange packet source resolvers state deadline share w h =
      run_index clock exchange deadline share packet source resolvers state false
        (order state (clock w) (length resolvers)) w (length resolvers) h
        (λ i k. ground (arith, order-each_once state (clock w) (length resolvers) i h))

  -- The answer of the route over TCP: the first round's, or that of the fallback.
  abbrev tcp_answer : Outcome World → Outcome World → Answer World
  tcp_answer first fallback =
      let last = if needs_udp first.response then fallback else first in
      plain_answer last.state (last.world, last.response)

  abbrev tcp_last :
      (World → ℕ) → Exchange World → List ℕ → Routes → ℕ → Outcome World → Answer World
  tcp_last clock udp packet routes deadline first = tcp_answer first (
      direct_exchange clock udp packet routes.direct_source routes.direct_dns first.state deadline
        true first.world)

  -- What the exchange of a direct query does, over UDP and over TCP, is a matter of the exchanges from
  -- the direct source with the listed resolvers alone, of which there is one or more.
  pub exchange_route-direct_only :
      (clock : World → ℕ) (udp tcp udp2 tcp2 : Exchange World) (packet : List ℕ) (granted : Bool)
      (routes : Routes) (state : DirectResolvers) (w : World)
      → 0 < length routes.direct_dns
      → AgreeAll routes.direct_source routes.direct_dns udp udp2
      → AgreeAll routes.direct_source routes.direct_dns tcp tcp2
      → (exchange_udp_route clock udp tcp packet false granted routes state w
          ≡ exchange_udp_route clock udp2 tcp2 packet false granted routes state w)
        × (exchange_tcp_route clock udp tcp packet false granted routes state w
            ≡ exchange_tcp_route clock udp2 tcp2 packet false granted routes state w)
  unfolding exchange_udp_route exchange_tcp_route udp_answer
  exchange_route-direct_only clock udp tcp udp2 tcp2 packet granted routes state w some_listed
        over_udp over_tcp =
      let deadline = upstream_deadline (clock w) in
      let source = routes.direct_source in
      let resolvers = routes.direct_dns in
      let outcome = direct_exchange clock udp2 packet source resolvers state deadline false w in
      let first =
        direct_exchange clock tcp2 packet source resolvers state
          (deadline - per_resolver * millisecond) false w in
      (
        ap
              (λ (o : Outcome World).
                completed_answer clock udp tcp packet source (get_or resolvers o.answered_by 0)
                  deadline (direct_answer o))
              (direct_exchange-Agree clock udp udp2 packet source resolvers state deadline false w
                some_listed over_udp)
            ∙ completed_answer-Agree clock udp tcp udp2 tcp2 packet source
                (get_or resolvers outcome.answered_by 0) deadline (direct_answer outcome)
                (over_tcp outcome.answered_by (
                  direct_exchange_index clock udp2 packet source resolvers state deadline false w
                    some_listed)),
        ap (λ (o : Outcome World). tcp_last clock udp packet routes deadline o)
              (direct_exchange-Agree clock tcp tcp2 packet source resolvers state
                (deadline - per_resolver * millisecond) false w some_listed over_tcp)
            ∙ ap (λ (o : Outcome World). tcp_answer first o)
                (direct_exchange-Agree clock udp udp2 packet source resolvers first.state deadline
                  true first.world some_listed over_udp),
      )
