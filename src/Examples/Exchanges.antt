-- ===== src/Examples/Exchanges.antt =====
-- Instances for the resolvers, routes and queries of src/native/dns-dispatcher.cpp. The world is the
-- time in nanoseconds.
use wireguard_dns_program_sp.Base.{
  ℕ, ◌+◌, ◌*◌, ◌≡◌, refl, true, false, ◌&&◌, none, some, List, [], ◌∷◌, ◌++◌, arith, codes, get_or,
  ◌==◌, if◌then◌else◌,
}
use wireguard_dns_program_sp.Base.Lists.{bytes_eq}
use wireguard_dns_program_sp.Dns.Table.{lookup, put, erase_if}
use wireguard_dns_program_sp.Dns.Wire.{read16}
use wireguard_dns_program_sp.Dns.Hints.{
  Hints, add_resolved, decide, expire, entry_for_event, add_evidence, take_begin, take_end,
  direct_answer_unsafe, entry_unsafe, decide_found, decide_entry, decide_open, decide_expired,
  decide_answered, retire,
}
use wireguard_dns_program_sp.Dispatcher.Names.{
  parse_question, parse_labels, normalize_name, trim, drop_first, drop_last,
}
use wireguard_dns_program_sp.Dispatcher.Names.Labels.{encoded}
use wireguard_dns_program_sp.Dispatcher.Resolvers.{
  DirectResolvers, Exchange, order, others, first_asked, answered, attempts, attempt_timeout,
  remaining_milliseconds, direct_exchange, millisecond,
}
use wireguard_dns_program_sp.Dispatcher.Resolvers.Primary.{
  answers-start, answers-answered, new_resolvers, order-primary,
}
use wireguard_dns_program_sp.Dispatcher.Resolvers.Deadline.{IsTimely}
use wireguard_dns_program_sp.Dispatcher.Resolvers.Complete.{Tried, direct_exchange-tries_all}
use wireguard_dns_program_sp.Dispatcher.Routes.{
  Routes, Answer, exchange_udp_route, exchange_tcp_route, udp_answer,
}
use wireguard_dns_program_sp.Dispatcher.Routes.Tunnel.{exchange_route-tunnel_only}
use wireguard_dns_program_sp.Dispatcher.Routes.Direct.{AgreeAll}
use wireguard_dns_program_sp.Dispatcher.Routes.Truncated.{}
use wireguard_dns_program_sp.Dispatcher.Queries.{
  Circumstances, take, handle_udp_query, handle_tcp_request,
}
use wireguard_dns_program_sp.Dispatcher.Queries.Withheld.{handle_query-unsafe}

abbrev clock : ℕ → ℕ
clock w = w

-- No resolver answers.
abbrev silent : Exchange ℕ
silent w packet source resolver timeout = (w + timeout * millisecond, none)

-- Every resolver answers at once, with this.
abbrev always : List ℕ → Exchange ℕ
always reply w packet source resolver timeout = (w + 1, some reply)

-- The resolver 20 answers from the source 1, and another reply comes from any other.
abbrev from_tunnel : List ℕ → Exchange ℕ
from_tunnel other w packet source resolver timeout =
    if source == 1 && resolver == 20 then (w + 1, some (1 ∷ [])) else (w + 2, some other)

abbrev routes : Routes
routes = record { direct_source = 5; direct_dns = 10 ∷ 11 ∷ []; tunnel_source = 1; tunnel_dns = 20 }

abbrev resolvers : DirectResolvers
resolvers = new_resolvers 60000000000

abbrev query : List ℕ
query =
    9
    ∷ 9
    ∷ 1
    ∷ 0
    ∷ 0
    ∷ 1
    ∷ 0
    ∷ 0
    ∷ 0
    ∷ 0
    ∷ 0
    ∷ 0
    ∷ (encoded (codes "a" ∷ codes "example" ∷ []) ++ (0 ∷ 1 ∷ 0 ∷ 1 ∷ []))

order-primary_example : get_or (order (answered resolvers 100 1 true) 60000000100 2) 0 2 ≡ 0
order-primary_example =
    order-primary (answers-answered {time = 0} {failed = 0} answers-start 100 1 true (omega arith))
      60000000100 2 (omega arith)

silent-IsTimely : (slack : ℕ) → IsTimely clock silent slack
silent-IsTimely slack w packet source resolver timeout = omega arith

direct_exchange-tries_all_example :
    Tried clock silent 4000000000 query 5 (10 ∷ 11 ∷ []) resolvers (order resolvers 0 2) 0 1
unfolding direct_exchange attempts order others first_asked attempt_timeout remaining_milliseconds
    answered
direct_exchange-tries_all_example =
    direct_exchange-tries_all clock silent query 5 (10 ∷ 11 ∷ []) resolvers 4000000000
      (799 * millisecond) 0 (silent-IsTimely (799 * millisecond)) (omega arith) refl 1 (omega arith)

exchange_route-tunnel_only_example :
    (exchange_udp_route clock
        (from_tunnel (2 ∷ []))
        (from_tunnel (2 ∷ []))
        query
        true
        true
        routes
        resolvers
        0
      ≡ exchange_udp_route clock
          (from_tunnel (3 ∷ []))
          (from_tunnel (3 ∷ []))
          query
          true
          true
          routes
          resolvers
          0)
    × (exchange_tcp_route clock
          (from_tunnel (2 ∷ []))
          (from_tunnel (2 ∷ []))
          query
          true
          true
          routes
          resolvers
          0
        ≡ exchange_tcp_route clock
            (from_tunnel (3 ∷ []))
            (from_tunnel (3 ∷ []))
            query
            true
            true
            routes
            resolvers
            0)
exchange_route-tunnel_only_example =
    exchange_route-tunnel_only clock (from_tunnel (2 ∷ [])) (from_tunnel (2 ∷ []))
      (from_tunnel (3 ∷ [])) (from_tunnel (3 ∷ [])) query true routes resolvers 0
      (λ w packet timeout. refl) (λ w packet timeout. refl)

-- The direct resolvers answer alike, the tunnel's does not.
abbrev from_direct : List ℕ → Exchange ℕ
from_direct other w packet source resolver timeout =
    if source == 5 then (w + 1, some (1 ∷ [])) else (w + 2, some other)

from_direct-AgreeAll : AgreeAll 5 (10 ∷ 11 ∷ []) (from_direct (2 ∷ [])) (from_direct (3 ∷ []))
from_direct-AgreeAll i lt w packet timeout = refl

-- A truncated answer of twelve bytes, and a whole one.
abbrev cut : List ℕ
cut = 9 ∷ 9 ∷ 0x83 ∷ 0 ∷ 0 ∷ 1 ∷ 0 ∷ 0 ∷ 0 ∷ 0 ∷ 0 ∷ 0 ∷ []

abbrev whole : List ℕ
whole = 9 ∷ 9 ∷ 0x81 ∷ 0 ∷ 0 ∷ 1 ∷ 0 ∷ 1 ∷ 0 ∷ 0 ∷ 0 ∷ 0 ∷ 4 ∷ []

abbrev first_answer : Answer ℕ
first_answer =
    (udp_answer clock (always cut) (always whole) query true routes resolvers 4000000000 0).0

abbrev last_answer : Answer ℕ
last_answer =
    exchange_udp_route clock (always cut) (always whole) query true true routes resolvers 0

-- While the query of an application that is not selected is out, a selected one asks for the name.
abbrev circumstances : Circumstances
circumstances = record {
  key = λ name type. name;
  asked = 150;
  asked_again = 155;
  decided = 150;
  decided_again = 160;
  barrier_passed = true;
  while_waiting = λ h. h;
  granted = true;
  while_exchanging = λ h. (add_resolved h (codes "a.example") 9 true true 170).0;
  checked = 180;
  check_passed = true;
  completed = 190;
  sent = true;
}

abbrev asked_direct : Hints
asked_direct =
    (add_resolved
      (record {
        next_expiry = 0;
        overloaded_until = 0;
        direct_blocked_until = 0;
        reuse_window = 5000;
        sequence = 0;
        processed = 0;
        checked = 0;
        generations = 0;
        hints = [];
      })
      (codes "a.example") 9 true false 100).0

abbrev same_case : ℕ → ℕ
same_case c = c

handle_query-unsafe_example :
    ((handle_udp_query clock
        (from_tunnel (2 ∷ []))
        (from_tunnel (2 ∷ []))
        same_case
        circumstances
        routes
        query
        asked_direct
        resolvers
        0).reply
      ≡ (handle_udp_query clock
          (from_tunnel (3 ∷ []))
          (from_tunnel (3 ∷ []))
          same_case
          circumstances
          routes
          query
          asked_direct
          resolvers
          0).reply)
    × ((handle_tcp_request clock
          (from_tunnel (2 ∷ []))
          (from_tunnel (2 ∷ []))
          same_case
          circumstances
          routes
          query
          asked_direct
          resolvers
          0).reply
        ≡ (handle_tcp_request clock
            (from_tunnel (3 ∷ []))
            (from_tunnel (3 ∷ []))
            same_case
            circumstances
            routes
            query
            asked_direct
            resolvers
            0).reply)
unfolding parse_question parse_labels normalize_name trim drop_first drop_last read16 take
    take_begin take_end add_resolved entry_for_event add_evidence expire lookup put erase_if
    bytes_eq decide direct_answer_unsafe entry_unsafe decide_found decide_entry decide_open
    decide_expired decide_answered retire
handle_query-unsafe_example =
    handle_query-unsafe clock (from_tunnel (2 ∷ [])) (from_tunnel (2 ∷ [])) (from_tunnel (3 ∷ []))
      (from_tunnel (3 ∷ [])) same_case circumstances routes query asked_direct resolvers 0
      (record { name = codes "a.example"; type = 1 }) refl refl (λ w packet timeout. refl)
      (λ w packet timeout. refl)
