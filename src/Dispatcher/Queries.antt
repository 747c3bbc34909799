-- ===== src/Dispatcher/Queries.antt =====
-- src/native/dns-dispatcher.cpp: a query from its bytes to its reply, over Hints and Routes. What the
-- other threads do to the hints while the query waits for the barrier and for its answer is the
-- environment's, as are the times and whether the barriers passed. The log lines are left out.
pub mod Withheld
use wireguard_dns_program_sp.Base.{
  ℕ, Bool, true, false, not, ◌&&◌, ◌||◌, Option, none, some, List, [], ◌∷◌, if◌then◌else◌, ltb,
  length,
}
use wireguard_dns_program_sp.Dns.Wire.{make_servfail}
use wireguard_dns_program_sp.Dns.Hints.{
  Hints, Route, no_route, Begun, take_begin, take_end, decided_generation, direct_answer_unsafe,
  complete,
}
use wireguard_dns_program_sp.Dispatcher.Names.{Question, parse_question}
use wireguard_dns_program_sp.Dispatcher.Resolvers.{DirectResolvers, Exchange}
use wireguard_dns_program_sp.Dispatcher.Routes.{
  Routes, Answer, exchange_udp_route, exchange_tcp_route,
}

-- What a query meets on its way.
pub record Circumstances : Type 0 where
  pub key : List ℕ → ℕ → List ℕ
  pub asked : ℕ
  pub asked_again : ℕ
  pub decided : ℕ
  pub decided_again : ℕ
  pub barrier_passed : Bool
  pub while_waiting : Hints → Hints
  pub granted : Bool
  pub while_exchanging : Hints → Hints
  pub checked : ℕ
  pub check_passed : Bool
  pub completed : ℕ
  pub sent : Bool

-- `take` with the waiting in it.
unfoldable pub take : Circumstances → Hints → List ℕ → Hints × Route
unfolding take_begin take_end
take c h key =
    let (h', begun) = take_begin h key c.asked c.decided in
    let waited = take_end (c.while_waiting h') key c.asked_again c.decided_again c.barrier_passed in
    elim begun [
      | Begun.refused ↦ (h', no_route)
      | Begun.decided route ↦ (h', route)
      | Begun.waiting ↦ waited
    ]

-- The world, the state of the resolvers and the hints behind a query, and its reply; an empty one is not sent.
pub record Served {ℓ} (World : Type ℓ) : Type ℓ where
  pub world : World
  pub state : DirectResolvers
  pub hints : Hints
  pub reply : List ℕ

abbrev pub is_some : Option (List ℕ) → Bool
is_some none = false
is_some (some response) = true

abbrev pub is_withheld : Circumstances → Hints → List ℕ → Bool → Option (List ℕ) → Bool
is_withheld c h key tunnel response =
    is_some response && not tunnel && direct_answer_unsafe h key c.checked c.check_passed

abbrev pub or_servfail : List ℕ → Option (List ℕ) → List ℕ
or_servfail packet none = make_servfail packet
or_servfail packet (some response) = response

module _ {ℓ} {World : Type ℓ} where
  -- From the answer of the route to the reply: the check, the refusal and the completion, which is left out where the
  -- client is given up.
  unfoldable pub reply_with :
      Circumstances → Bool → List ℕ → List ℕ → Bool → ℕ → Hints → Answer World → Served World
  unfolding direct_answer_unsafe complete make_servfail
  reply_with c goes_on packet key tunnel generation h answer =
      let checked = c.while_exchanging h in
      let withheld = is_withheld c checked key tunnel answer.response in
      record {
        world = answer.world;
        state = answer.state;
        hints =
            if withheld || not goes_on
            then checked
            else complete checked key c.completed (some generation);
        reply = or_servfail packet (if withheld then none else answer.response);
      }

  abbrev pub refuse : List ℕ → World → DirectResolvers → Hints → Served World
  refuse packet w state h = record {
    world = w;
    state = state;
    hints = h;
    reply = make_servfail packet;
  }

module _ {ℓ} {World : Type ℓ} (clock : World → ℕ) (udp tcp : Exchange World) where
  abbrev pub routed :
      Circumstances
      → Bool
      → List ℕ
      → List ℕ
      → DirectResolvers
      → World
      → (Bool → Answer World)
      → Hints × Route
      → Served World
  routed c goes_on packet key state w exchange (h, route) = elim route.route [
    | none ↦ refuse packet w state h
    | some tunnel ↦
        reply_with c goes_on packet key tunnel (decided_generation h key) h (exchange tunnel)
  ]

  unfoldable pub handle_udp_query :
      (ℕ → ℕ) → Circumstances → Routes → List ℕ → Hints → DirectResolvers → World → Served World
  unfolding parse_question take reply_with exchange_udp_route decided_generation
  handle_udp_query to_lower c routes packet h state w =
      let exchange : Bool → Answer World =
        λ tunnel. exchange_udp_route clock udp tcp packet tunnel c.granted routes state w in
      elim (parse_question to_lower packet) [
        | none ↦ refuse packet w state h
        | some question ↦
            let key = c.key question.name question.type in
            routed c true packet key state w exchange (take c h key)
      ]

  -- One request of a client over TCP, whose message was received whole. A client that the reply cannot be sent to is given
  -- up.
  unfoldable pub handle_tcp_request :
      (ℕ → ℕ) → Circumstances → Routes → List ℕ → Hints → DirectResolvers → World → Served World
  unfolding parse_question take reply_with exchange_tcp_route decided_generation
  handle_tcp_request to_lower c routes packet h state w =
      let exchange : Bool → Answer World =
        λ tunnel. exchange_tcp_route clock udp tcp packet tunnel c.granted routes state w in
      elim (parse_question to_lower packet) [
        | none ↦ refuse packet w state h
        | some question ↦
            let key = c.key question.name question.type in
            routed c c.sent packet key state w exchange (take c h key)
      ]
