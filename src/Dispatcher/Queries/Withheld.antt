-- ===== src/Dispatcher/Queries/Withheld.antt =====
-- No answer of a direct resolver reaches a client that asked for a name which has evidence for the tunnel.
use wireguard_dns_program_sp.Base.{
  ℕ, ◌≡◌, refl, sym, ap, ◌∙◌, Bool, true, false, ◌&&◌, Option, none, some, List, if◌then◌else◌,
}
use wireguard_dns_program_sp.Dns.Wire.{make_servfail}
use wireguard_dns_program_sp.Dns.Hints.{Hints, direct_answer_unsafe, decided_generation}
use wireguard_dns_program_sp.Dispatcher.Names.{Question, parse_question}
use wireguard_dns_program_sp.Dispatcher.Resolvers.{DirectResolvers, Exchange}
use wireguard_dns_program_sp.Dispatcher.Routes.{
  Routes, Answer, exchange_udp_route, exchange_tcp_route,
}
use wireguard_dns_program_sp.Dispatcher.Routes.Tunnel.{Agree, exchange_route-tunnel_only}
use wireguard_dns_program_sp.Dispatcher.Queries.{
  Circumstances, take, is_some, or_servfail, reply_with, routed, handle_udp_query,
  handle_tcp_request,
}

withheld_reply :
    (packet : List ℕ) (response : Option (List ℕ))
    → or_servfail packet (if is_some response && true && true then none else response)
      ≡ make_servfail packet
withheld_reply packet none = refl
withheld_reply packet (some response) = refl

module _ {ℓ} {World : Type ℓ} where
  reply_with-unsafe :
      (c : Circumstances) (goes_on : Bool) (packet key : List ℕ) (generation : ℕ) (h : Hints)
      (answer : Answer World)
      → direct_answer_unsafe (c.while_exchanging h) key c.checked c.check_passed ≡ true
      → (reply_with c goes_on packet key false generation h answer).reply ≡ make_servfail packet
  unfolding reply_with
  reply_with-unsafe c goes_on packet key generation h answer e =
      rw e (withheld_reply packet answer.response)

  -- With the same answer by the tunnel, the reply is the same where a direct answer would be unsafe.
  replies_agree :
      (clock : World → ℕ) (udp tcp udp2 tcp2 : Exchange World) (c : Circumstances) (goes_on : Bool)
      (packet key : List ℕ) (state : DirectResolvers) (w : World)
      (first second : Bool → Answer World) (h : Hints) (route : Option Bool) (reused : Bool)
      → direct_answer_unsafe (c.while_exchanging h) key c.checked c.check_passed ≡ true
      → first true ≡ second true
      → (routed clock udp tcp c goes_on packet key state w first
          (h, record { route = route; reused = reused })).reply
        ≡ (routed clock udp2 tcp2 c goes_on packet key state w second
            (h, record { route = route; reused = reused })).reply
  replies_agree clock udp tcp udp2 tcp2 c goes_on packet key state w first second h none reused e
        same =
      refl
  replies_agree clock udp tcp udp2 tcp2 c goes_on packet key state w first second h (some true)
        reused e same =
      ap
        (λ (answer : Answer World).
          (reply_with c goes_on packet key true (decided_generation h key) h answer).reply)
        same
  replies_agree clock udp tcp udp2 tcp2 c goes_on packet key state w first second h (some false)
        reused e same =
      reply_with-unsafe c goes_on packet key (decided_generation h key) h (first false) e
      ∙ sym (reply_with-unsafe c goes_on packet key (decided_generation h key) h (second false) e)

  -- A query of a question for which a direct answer would be unsafe, when the hints are checked behind
  -- the exchange, has the same reply, over UDP and over TCP, whatever any exchange other than the
  -- tunnel's would give.
  pub handle_query-unsafe :
      (clock : World → ℕ) (udp tcp udp2 tcp2 : Exchange World) (to_lower : ℕ → ℕ)
      (c : Circumstances) (routes : Routes) (packet : List ℕ) (h : Hints) (state : DirectResolvers)
      (w : World) (question : Question)
      → parse_question to_lower packet ≡ some question
      → let key = c.key question.name question.type in
        direct_answer_unsafe (c.while_exchanging (take c h key).0) key c.checked c.check_passed
          ≡ true
        → Agree routes.tunnel_source routes.tunnel_dns udp udp2
        → Agree routes.tunnel_source routes.tunnel_dns tcp tcp2
        → ((handle_udp_query clock udp tcp to_lower c routes packet h state w).reply
            ≡ (handle_udp_query clock udp2 tcp2 to_lower c routes packet h state w).reply)
          × ((handle_tcp_request clock udp tcp to_lower c routes packet h state w).reply
              ≡ (handle_tcp_request clock udp2 tcp2 to_lower c routes packet h state w).reply)
  unfolding handle_udp_query handle_tcp_request
  handle_query-unsafe clock udp tcp udp2 tcp2 to_lower c routes packet h state w question asked e
        over_udp over_tcp =
      let key = c.key question.name question.type in
      let taken = take c h key in
      let same =
        exchange_route-tunnel_only clock udp tcp udp2 tcp2 packet c.granted routes state w over_udp
          over_tcp in
      rw (handle_udp_query, handle_tcp_request, asked)
        (
          replies_agree clock udp tcp udp2 tcp2 c true packet key state w
              (λ tunnel. exchange_udp_route clock udp tcp packet tunnel c.granted routes state w)
              (λ tunnel. exchange_udp_route clock udp2 tcp2 packet tunnel c.granted routes state w)
              taken.0 taken.1.route taken.1.reused e same.0,
          replies_agree clock udp tcp udp2 tcp2 c c.sent packet key state w
              (λ tunnel. exchange_tcp_route clock udp tcp packet tunnel c.granted routes state w)
              (λ tunnel. exchange_tcp_route clock udp2 tcp2 packet tunnel c.granted routes state w)
              taken.0 taken.1.route taken.1.reused e same.1,
        )
