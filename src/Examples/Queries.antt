-- ===== src/Examples/Queries.antt =====
-- Instances for src/native/dns-attribution.h, dns-capacity.h, async-log.h and parse-number.h.
use wireguard_dns_program_sp.Base.{
  ℕ, ◌≡◌, ◌≢◌, ◌≤◌, ◌↔◌, refl, Bool, true, false, some, List, [], ◌∷◌, ◌++◌, codes, arith,
  if◌then◌else◌,
}
use wireguard_dns_program_sp.Base.Lists.{bytes_eq}
use wireguard_dns_program_sp.Dns.Table.{lookup, put, erase_if}
use wireguard_dns_program_sp.Dns.Hints.{
  Hints, add_resolved, decide, expire, entry_for_event, add_evidence, take_end, complete,
  direct_answer_unsafe,
}
use wireguard_dns_program_sp.Dns.Hints.Routes.{DirectEntry, take_end-direct}
use wireguard_dns_program_sp.Dns.Hints.Steps.{steps-none, steps-more, step-earlier, step-event}
use wireguard_dns_program_sp.Dns.Hints.Unanswered.{add_resolved-tunnel}
use wireguard_dns_program_sp.Dns.Capacity.{run_schedule, idle}
use wireguard_dns_program_sp.Dns.Capacity.Bound.{holders, exchanges_bounded}
use wireguard_dns_program_sp.Number.{parse_decimal}
use wireguard_dns_program_sp.Number.Decimal.{AllDigits, denotes, parse_decimal_iff}
use wireguard_dns_program_sp.Log.Queue.{Queue, new_queue, write, run_round}
use wireguard_dns_program_sp.Log.Fifo.{IsQueue, contents, total, queued}
use wireguard_dns_program_sp.Log.Fifo.Writer.{messages}
use wireguard_dns_program_sp.Log.Fifo.Runs.{runs-end, runs-write, runs-round, log_order}

-- No event yet, with a reuse window of five seconds.
abbrev no_hints : Hints
no_hints = record {
  next_expiry = 0;
  overloaded_until = 0;
  direct_blocked_until = 0;
  reuse_window = 5000;
  sequence = 0;
  processed = 0;
  checked = 0;
  generations = 0;
  hints = [];
}

abbrev a_name : List ℕ
a_name = codes "a.example#1"

-- A direct application asked at 100, a selected one at 200, one that is gone at 300.
abbrev asked_direct : Hints
asked_direct = (add_resolved no_hints a_name 9 true false 100).0

take_end-direct_example :
    (true ≡ true)
    × (asked_direct.overloaded_until ≤ 150)
    × (asked_direct.direct_blocked_until ≤ 160)
    × DirectEntry (expire asked_direct 160) (lookup a_name (expire asked_direct 160).hints) 160 true
unfolding lookup put erase_if bytes_eq add_resolved entry_for_event add_evidence expire take_end
    decide
take_end-direct_example = take_end-direct asked_direct a_name 150 160 true refl

abbrev asked_both : Hints
asked_both = (add_resolved asked_direct a_name 9 true true 200).0

-- The query of the direct application is answered, and that application asks again.
abbrev answered_late : Hints
answered_late = complete asked_both a_name 250 (some 1)

abbrev asked_again : Hints
asked_again = (add_resolved answered_late a_name 9 true false 260).0

add_resolved-tunnel_example :
    ((decide asked_again a_name 300 true).1.route ≡ some true)
    × (direct_answer_unsafe asked_again a_name 300 true ≡ true)
unfolding lookup put erase_if bytes_eq add_resolved entry_for_event add_evidence expire
add_resolved-tunnel_example =
    add_resolved-tunnel asked_direct a_name 9 200 300 true true refl
      (steps-more (steps-more steps-none (step-earlier asked_both 250 1 (omega arith)))
        (step-event answered_late a_name 9 true false 260 (omega arith)))
      (omega arith)

-- A name of 254 characters.
abbrev overloaded : Hints
overloaded = (add_resolved asked_direct (codes "long#1") 254 true false 700).0

-- Two threads for one lease; the second exchange fails once for no reason.
abbrev two_threads : List (ℕ × Bool)
two_threads = (0, false) ∷ (1, false) ∷ (0, false) ∷ (1, true) ∷ (1, false) ∷ (1, false) ∷ []

exchanges_bounded_example :
    ((run_schedule 1 two_threads (idle 2)).active
      ≡ holders (run_schedule 1 two_threads (idle 2)).leases)
    × ((run_schedule 1 two_threads (idle 2)).active ≤ 1)
exchanges_bounded_example = exchanges_bounded 1 2 two_threads (omega arith)

parse_decimal_iff_example :
    (parse_decimal (codes "407") 500 ≡ some 407)
    ↔ ((codes "407" ≢ []) × AllDigits (codes "407") × (denotes 0 (codes "407") ≡ 407) × (407 ≤ 500))
parse_decimal_iff_example = parse_decimal_iff (codes "407") 500 407 (omega arith)

new_queue-IsQueue : IsQueue (new_queue true)
unfolding new_queue contents queued total
new_queue-IsQueue = record {
  size = refl;
  head_in = omega arith;
  few = omega arith;
  tail_at = omega arith;
  sum = refl;
  bounded = omega arith;
}

abbrev one_written : Queue
one_written = (write (new_queue true) true (codes "a")).0

-- A message is written, and the writer runs a round.
abbrev after_round : Queue
after_round = (run_round false one_written 0).0.0

log_order_example :
    ((if (write (new_queue true) true (codes "a")).1 then codes "a" ∷ [] else [])
      ≡ messages ((run_round false one_written 0).1.0 ++ []) ++ contents after_round)
    × (after_round.count ≤ 256)
    × (total (contents after_round) ≤ 262144)
log_order_example = log_order true (runs-write true (codes "a") (runs-round false runs-end))
