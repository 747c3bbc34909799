-- ===== src/Dispatcher/Routes.antt =====
-- src/native/dns-dispatcher.cpp: the upstream exchange of a query on its route. The two exchanges of a
-- packet are the environment's, as in Resolvers; so is whether the lease of the tunnel is granted.
pub mod Tunnel
pub mod Direct
pub mod Truncated
use wireguard_dns_program_sp.Base.{
  ℕ, zero, suc, ◌+◌, ◌-◌, ◌*◌, ◌/◌, Bool, true, false, not, ◌&&◌, ◌||◌, Option, none, some, List,
  [], ◌∷◌, ltb, leb, ◌==◌, ◌!=◌, if◌then◌else◌, get_or, length, max, bit_and,
}
use wireguard_dns_program_sp.Dns.Wire.{byte_at, read16, skip_dns_name, skip_questions}
use wireguard_dns_program_sp.Dispatcher.Resolvers.{
  DirectResolvers, Exchange, Outcome, direct_exchange, remaining_milliseconds, upstream_deadline,
  millisecond, per_resolver,
}

-- The addresses: the sources of a query and the resolvers.
pub record Routes : Type 0 where
  pub direct_source : ℕ
  pub direct_dns : List ℕ
  pub tunnel_source : ℕ
  pub tunnel_dns : ℕ

-- The loop over the records, so many of them left.
unfoldable pub opt_size : ℕ → List ℕ → ℕ → ℕ
opt_size zero query offset = 512
opt_size (suc left) query offset = elim (skip_dns_name query offset) [
  | none ↦ 512
  | some fixed ↦
      let later = opt_size left query (fixed + 10 + read16 query (fixed + 8)) in
      if ltb (length query) (fixed + 10)
      then 512
      else if read16 query fixed == 41
      then max 512 (read16 query (fixed + 2))
      else later
]

unfoldable pub advertised_udp_size : List ℕ → ℕ
unfolding opt_size
advertised_udp_size query =
    let records = read16 query 6 + read16 query 8 + read16 query 10 in
    let found : ℕ = elim (skip_questions (read16 query 4) query 12) [
      | none ↦ 512
      | some offset ↦ opt_size records query offset
    ] in
    if ltb (length query) 12 then 512 else found

-- The world and the state behind a query, the answer, whether TCP completed it, which of the direct
-- resolvers gave it, and whether the lease was refused.
pub record Answer {ℓ} (World : Type ℓ) : Type ℓ where
  pub world : World
  pub state : DirectResolvers
  pub response : Option (List ℕ)
  pub completed : Bool
  pub resolver_index : ℕ
  pub capacity_limited : Bool

abbrev pub is_truncated : List ℕ → Bool
is_truncated response = leb 12 (length response) && bit_and (byte_at response 2) 0x02 != 0

abbrev pub is_refused : List ℕ → Bool
is_refused response = leb 4 (length response) && bit_and (byte_at response 3) 0x0f == 5

abbrev pub needs_udp : Option (List ℕ) → Bool
needs_udp none = true
needs_udp (some response) = is_refused response

module _ {ℓ} {World : Type ℓ} where
  abbrev refused_answer : DirectResolvers → World → Answer World
  refused_answer state w = record {
    world = w;
    state = state;
    response = none;
    completed = false;
    resolver_index = 0;
    capacity_limited = true;
  }

  abbrev pub plain_answer : DirectResolvers → World × Option (List ℕ) → Answer World
  plain_answer state (w, response) = record {
    world = w;
    state = state;
    response = response;
    completed = false;
    resolver_index = 0;
    capacity_limited = false;
  }

  abbrev pub direct_answer : Outcome World → Answer World
  direct_answer outcome = record (plain_answer outcome.state (outcome.world, outcome.response)) {
    resolver_index = outcome.answered_by;
  }

  abbrev pub whole_answer : List ℕ → Answer World → World → Option (List ℕ) → Answer World
  whole_answer packet answer w none = record answer { world = w }
  whole_answer packet answer w (some whole) =
      if leb (length whole) (advertised_udp_size packet)
      then record answer { world = w; response = some whole; completed = true }
      else record answer { world = w }

  -- What the exchange over TCP, which had so much time, makes of a truncated answer.
  unfoldable pub completed_by : List ℕ → ℕ → Answer World → World × Option (List ℕ) → Answer World
  unfolding advertised_udp_size
  completed_by packet remaining answer (w, whole) =
      let done = whole_answer packet answer w whole in
      elim answer.response [
        | none ↦ answer
        | some reply ↦ if is_truncated reply && remaining != 0 then done else answer
      ]

module _ {ℓ} {World : Type ℓ} (clock : World → ℕ) (udp tcp : Exchange World) where
  -- The answer over UDP, and the resolver that is asked again over TCP.
  unfoldable pub udp_answer :
      List ℕ → Bool → Routes → DirectResolvers → ℕ → World → Answer World × ℕ
  udp_answer packet tunnel routes state deadline w =
      let tunnelled =
        udp w packet routes.tunnel_source routes.tunnel_dns
          (remaining_milliseconds deadline (clock w)) in
      let direct =
        direct_exchange clock udp packet routes.direct_source routes.direct_dns state deadline false
          w in
      if tunnel
      then (plain_answer state tunnelled, routes.tunnel_dns)
      else (direct_answer direct, get_or routes.direct_dns direct.answered_by 0)

  unfoldable pub completed_answer : List ℕ → ℕ → ℕ → ℕ → Answer World → Answer World
  unfolding completed_by
  completed_answer packet source resolver deadline answer =
      let remaining = remaining_milliseconds deadline (clock answer.world) in
      completed_by packet remaining answer (tcp answer.world packet source resolver remaining)

  unfoldable pub exchange_udp_route :
      List ℕ → Bool → Bool → Routes → DirectResolvers → World → Answer World
  unfolding udp_answer completed_answer
  exchange_udp_route packet tunnel granted routes state w =
      let deadline = upstream_deadline (clock w) in
      let (answer, resolver) = udp_answer packet tunnel routes state deadline w in
      let source = if tunnel then routes.tunnel_source else routes.direct_source in
      if tunnel && not granted
      then refused_answer state w
      else completed_answer packet source resolver deadline answer

  unfoldable pub exchange_tcp_route :
      List ℕ → Bool → Bool → Routes → DirectResolvers → World → Answer World
  unfolding upstream_deadline direct_exchange
  exchange_tcp_route packet tunnel granted routes state w =
      let deadline = upstream_deadline (clock w) in
      let tunnelled =
        tcp w packet routes.tunnel_source routes.tunnel_dns
          (remaining_milliseconds deadline (clock w)) in
      let first =
        direct_exchange clock tcp packet routes.direct_source routes.direct_dns state
          (deadline - per_resolver * millisecond) false w in
      let fallback =
        direct_exchange clock udp packet routes.direct_source routes.direct_dns first.state deadline
          true first.world in
      let last = if needs_udp first.response then fallback else first in
      if tunnel && not granted
      then refused_answer state w
      else if tunnel
      then plain_answer state tunnelled
      else plain_answer last.state (last.world, last.response)
