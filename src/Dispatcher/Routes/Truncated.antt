-- ===== src/Dispatcher/Routes/Truncated.antt =====
-- When the answer over UDP is replaced by one over TCP.
use wireguard_dns_program_sp.Base.{
  ℕ, ◌≤◌, ◌<◌, ◌≡◌, ◌⊎◌, leb→le, refl, Bool, true, false, not, ◌&&◌, Option, none, some, List, leb,
  ◌!=◌, if◌then◌else◌, length, arith, Bool-cases, inl, inr,
}
use wireguard_dns_program_sp.Dispatcher.Resolvers.{
  DirectResolvers, Exchange, remaining_milliseconds, upstream_deadline,
}
use wireguard_dns_program_sp.Dispatcher.Routes.{
  Routes, Answer, advertised_udp_size, is_truncated, udp_answer, whole_answer, completed_by,
  completed_answer, exchange_udp_route,
}

module _ {ℓ} {World : Type ℓ} where
  -- The answer stayed, or it was truncated and the other one, which fits, took its place.
  abbrev pub IsKept : Answer World → Answer World → Type 0
  IsKept first answer = (answer.completed ≡ false) × (answer.response ≡ first.response)

  abbrev pub IsReplaced : List ℕ → Answer World → Option (List ℕ) → Answer World → Type 0
  IsReplaced packet first over_tcp answer =
      (whole : List ℕ) × (reply : List ℕ) × (answer.completed ≡ true)
      × (first.response ≡ some reply)
      × (is_truncated reply ≡ true)
      × (over_tcp ≡ some whole)
      × (length whole ≤ advertised_udp_size packet)
      × (answer.response ≡ some whole)

  whole_answer-cases :
      (packet : List ℕ) (first : Answer World) (reply : List ℕ) (w : World)
      (whole : Option (List ℕ))
      → first.completed ≡ false
      → first.response ≡ some reply
      → is_truncated reply ≡ true
      → IsKept first (whole_answer packet first w whole)
        ⊎ IsReplaced packet first whole (whole_answer packet first w whole)
  whole_answer-cases packet first reply w none fresh h truncated = inl (fresh, refl)
  whole_answer-cases packet first reply w (some whole) fresh h truncated =
      elim (Bool-cases (leb (length whole) (advertised_udp_size packet))) [
        | inl e ↦ inr (
            rw e (
              whole,
              reply,
              refl,
              h,
              truncated,
              refl,
              leb→le (length whole) (advertised_udp_size packet) e,
              refl,
            ))
        | inr e ↦ inl (rw e (fresh, refl))
      ]

  IsReplaced-in_time :
      (packet : List ℕ) (remaining : ℕ) (first : Answer World) (reply : List ℕ)
      (result : World × Option (List ℕ))
      → 0 < remaining
      → first.completed ≡ false
      → first.response ≡ some reply
      → is_truncated reply ≡ true
      → IsKept first (whole_answer packet first result.0 result.1)
        ⊎ ((0 < remaining)
            × IsReplaced packet first result.1 (whole_answer packet first result.0 result.1))
  IsReplaced-in_time packet remaining first reply result h fresh e truncated =
      elim (whole_answer-cases packet first reply result.0 result.1 fresh e truncated) [
        | inl kept ↦ inl kept
        | inr replaced ↦ inr (h, replaced)
      ]

  abbrev answer_of : World → DirectResolvers → Option (List ℕ) → Bool → ℕ → Bool → Answer World
  answer_of w state response completed index limited = record {
    world = w;
    state = state;
    response = response;
    completed = completed;
    resolver_index = index;
    capacity_limited = limited;
  }

  completed_of :
      (packet : List ℕ) (remaining : ℕ) (w : World) (state : DirectResolvers)
      (response : Option (List ℕ)) (completed : Bool) (index : ℕ) (limited : Bool)
      (result : World × Option (List ℕ))
      → completed ≡ false
      → let first = answer_of w state response completed index limited in
        IsKept first (completed_by packet remaining first result)
        ⊎ ((0 < remaining)
            × IsReplaced packet first result.1 (completed_by packet remaining first result))
  unfolding completed_by
  completed_of packet remaining w state none completed index limited result fresh =
      inl (fresh, refl)
  completed_of packet remaining w state (some reply) completed index limited result fresh =
      let first = answer_of w state (some reply) completed index limited in
      elim (Bool-cases (is_truncated reply && remaining != 0)) [
        | inl f ↦ rw f (
            IsReplaced-in_time packet remaining first reply result (ground arith) fresh refl
              (ground arith))
        | inr f ↦ rw f (inl (fresh, refl))
      ]

  completed_by-cases :
      (packet : List ℕ) (remaining : ℕ) (first : Answer World) (result : World × Option (List ℕ))
      → first.completed ≡ false
      → IsKept first (completed_by packet remaining first result)
        ⊎ ((0 < remaining)
            × IsReplaced packet first result.1 (completed_by packet remaining first result))
  completed_by-cases packet remaining first result fresh =
      completed_of packet remaining first.world first.state first.response first.completed
        first.resolver_index first.capacity_limited result fresh

  udp_answer-fresh :
      (clock : World → ℕ) (udp tcp : Exchange World) (packet : List ℕ) (tunnel : Bool)
      (routes : Routes) (state : DirectResolvers) (deadline : ℕ) (w : World)
      → (udp_answer clock udp tcp packet tunnel routes state deadline w).0.completed ≡ false
  unfolding udp_answer
  udp_answer-fresh clock udp tcp packet true routes state deadline w = refl
  udp_answer-fresh clock udp tcp packet false routes state deadline w = refl

  -- Unless the lease was refused, the answer of the route over UDP is the one that came over UDP; or
  -- that was truncated, and in the time that was left TCP gave one from the same source and the same
  -- resolver, which is the answer and fits the size that the client advertised.
  pub exchange_udp_route-cases :
      (clock : World → ℕ) (udp tcp : Exchange World) (packet : List ℕ) (tunnel granted : Bool)
      (routes : Routes) (state : DirectResolvers) (w : World)
      → (tunnel && not granted) ≡ false
      → let deadline = upstream_deadline (clock w) in
        let first = (udp_answer clock udp tcp packet tunnel routes state deadline w).0 in
        let resolver = (udp_answer clock udp tcp packet tunnel routes state deadline w).1 in
        let source = if tunnel then routes.tunnel_source else routes.direct_source in
        let remaining = remaining_milliseconds deadline (clock first.world) in
        let answer = exchange_udp_route clock udp tcp packet tunnel granted routes state w in
        IsKept first answer
        ⊎ ((0 < remaining)
            × IsReplaced packet first (tcp first.world packet source resolver remaining).1 answer)
  unfolding exchange_udp_route completed_answer
  exchange_udp_route-cases clock udp tcp packet tunnel granted routes state w allowed =
      let deadline = upstream_deadline (clock w) in
      let first = (udp_answer clock udp tcp packet tunnel routes state deadline w).0 in
      let resolver = (udp_answer clock udp tcp packet tunnel routes state deadline w).1 in
      let source = if tunnel then routes.tunnel_source else routes.direct_source in
      let remaining = remaining_milliseconds deadline (clock first.world) in
      rw allowed (
        completed_by-cases packet remaining first (tcp first.world packet source resolver remaining)
          (udp_answer-fresh clock udp tcp packet tunnel routes state deadline w))
