-- ===== src/Dispatcher/Routes/Tunnel.antt =====
-- A query of the tunnel meets the tunnel's source and resolver only.
use wireguard_dns_program_sp.Base.{ℕ, ◌≡◌, refl, ap, ◌∙◌, Bool, true, false, Option, List}
use wireguard_dns_program_sp.Dispatcher.Resolvers.{
  DirectResolvers, Exchange, remaining_milliseconds, upstream_deadline,
}
use wireguard_dns_program_sp.Dispatcher.Routes.{
  Routes, Answer, udp_answer, plain_answer, completed_by, completed_answer, exchange_udp_route,
  exchange_tcp_route,
}

module _ {ℓ} {World : Type ℓ} where
  -- The two exchanges do the same from a source with a resolver.
  abbrev pub Agree : ℕ → ℕ → Exchange World → Exchange World → Type ℓ
  Agree source resolver first second =
      (w : World) (packet : List ℕ) (timeout : ℕ)
      → first w packet source resolver timeout ≡ second w packet source resolver timeout

  pub completed_answer-Agree :
      (clock : World → ℕ) (udp tcp udp2 tcp2 : Exchange World) (packet : List ℕ)
      (source resolver deadline : ℕ) (answer : Answer World)
      → Agree source resolver tcp tcp2
      → completed_answer clock udp tcp packet source resolver deadline answer
        ≡ completed_answer clock udp2 tcp2 packet source resolver deadline answer
  unfolding completed_answer
  completed_answer-Agree clock udp tcp udp2 tcp2 packet source resolver deadline answer agree =
      let remaining = remaining_milliseconds deadline (clock answer.world) in
      ap (λ (result : World × Option (List ℕ)). completed_by packet remaining answer result)
        (agree answer.world packet remaining)

  -- What the exchange of a tunnelled query does, over UDP and over TCP, is a matter of the exchanges
  -- from the tunnel's source with the tunnel's resolver alone: whatever any other would do, the
  -- answer, the world and the state of the direct resolvers are the same.
  pub exchange_route-tunnel_only :
      (clock : World → ℕ) (udp tcp udp2 tcp2 : Exchange World) (packet : List ℕ) (granted : Bool)
      (routes : Routes) (state : DirectResolvers) (w : World)
      → Agree routes.tunnel_source routes.tunnel_dns udp udp2
      → Agree routes.tunnel_source routes.tunnel_dns tcp tcp2
      → (exchange_udp_route clock udp tcp packet true granted routes state w
          ≡ exchange_udp_route clock udp2 tcp2 packet true granted routes state w)
        × (exchange_tcp_route clock udp tcp packet true granted routes state w
            ≡ exchange_tcp_route clock udp2 tcp2 packet true granted routes state w)
  unfolding exchange_udp_route exchange_tcp_route udp_answer
  exchange_route-tunnel_only clock udp tcp udp2 tcp2 packet false routes state w over_udp over_tcp =
      (refl, refl)
  exchange_route-tunnel_only clock udp tcp udp2 tcp2 packet true routes state w over_udp over_tcp =
      let deadline = upstream_deadline (clock w) in
      let timeout = remaining_milliseconds deadline (clock w) in
      (
        ap
              (λ (result : World × Option (List ℕ)).
                completed_answer clock udp tcp packet routes.tunnel_source routes.tunnel_dns
                  deadline (plain_answer state result))
              (over_udp w packet timeout)
            ∙ completed_answer-Agree clock udp tcp udp2 tcp2 packet routes.tunnel_source
                routes.tunnel_dns deadline
                (plain_answer state (udp2 w packet routes.tunnel_source routes.tunnel_dns timeout))
                over_tcp,
        ap (λ (result : World × Option (List ℕ)). plain_answer state result)
            (over_tcp w packet timeout),
      )
