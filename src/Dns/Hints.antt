-- ===== src/Dns/Hints.antt =====
-- `Hints` of src/native/dns-attribution.h: which applications asked for a name, and the route that
-- this gives a query. Times are milliseconds of the steady clock; each reading is an argument.
pub mod Ops
pub mod Routes
pub mod Evidence
pub mod Steps
pub mod Claims
pub mod Decided
pub mod Unanswered
use wireguard_dns_program_sp.Base.{
  ℕ, zero, suc, ◌+◌, ◌-◌, ◌^◌, Bool, true, false, not, ◌&&◌, ◌||◌, Option, none, some, List, [],
  ◌∷◌, ◌++◌, ltb, leb, ◌==◌, ◌!=◌, if◌then◌else◌, max, length,
}
use wireguard_dns_program_sp.Dns.Table.{Table, lookup, put, erase, erase_if}

abbrev pub max_hints : ℕ
max_hints = 4096

-- The attribution lifetime, ten seconds.
abbrev pub lifetime : ℕ
lifetime = 10000

pub data Decision : Type 0 where
  pending direct tunnel : Decision

pub record Pending : Type 0 where
  pub tunnel : Bool
  pub selected : Bool
  pub selected_answered : Bool
  pub generation : ℕ
  pub direct : Bool
  pub unknown_until : ℕ
  pub answered : Bool
  pub decision : Decision
  pub expires : ℕ
  pub answered_at : ℕ
  pub selected_answered_at : ℕ

-- `Pending{}`.
abbrev pub fresh : Pending
fresh = record {
  tunnel = false;
  selected = false;
  selected_answered = false;
  generation = 0;
  direct = false;
  unknown_until = 0;
  answered = false;
  decision = Decision.pending;
  expires = 0;
  answered_at = 0;
  selected_answered_at = 0;
}

pub record Hints : Type 0 where
  pub next_expiry : ℕ
  pub overloaded_until : ℕ
  pub direct_blocked_until : ℕ
  pub reuse_window : ℕ
  pub sequence : ℕ
  pub processed : ℕ
  pub checked : ℕ
  pub generations : ℕ
  pub hints : Table Pending

abbrev pub is_tunnel : Decision → Bool
is_tunnel Decision.tunnel = true
is_tunnel _ = false

abbrev pub is_pending : Decision → Bool
is_pending Decision.pending = true
is_pending _ = false

abbrev pub is_direct : Decision → Bool
is_direct Decision.direct = true
is_direct _ = false

-- `now - t < window` on time points; `now` is not before `t`.
abbrev pub within : ℕ → ℕ → ℕ → Bool
within now t window = ltb now (t + window)

-- `retire`.
unfoldable pub retire : ℕ → Pending → ℕ → Pending
retire reuse_window p now =
    let unclaimed_tunnel = p.tunnel && not (is_tunnel p.decision) in
    let recent_selected = p.selected_answered && within now p.selected_answered_at reuse_window in
    record fresh {
      tunnel = unclaimed_tunnel || recent_selected;
      selected = unclaimed_tunnel && p.selected;
      selected_answered = recent_selected;
      selected_answered_at = p.selected_answered_at;
      unknown_until = p.unknown_until;
      generation = p.generation;
      expires = p.expires;
    }

-- `expire`: at most one scan per second.
unfoldable pub expire : Hints → ℕ → Hints
expire h now =
    if ltb now h.next_expiry
    then h
    else record h { next_expiry = now + 1000; hints = erase_if (λ p. leb p.expires now) h.hints }

-- The entry that an event is added to: a fresh one where there is none or it expired, and a
-- retired one where it was answered.
unfoldable pub entry_for_event : ℕ → Option Pending → ℕ → Pending
unfolding retire
entry_for_event reuse_window none now = fresh
entry_for_event reuse_window (some p) now =
    if leb p.expires now then fresh else if p.answered then retire reuse_window p now else p

-- The evidence of one event; the path of a process that is gone is unknown.
unfoldable pub add_evidence : Pending → ℕ → ℕ → Bool → Bool → Pending
add_evidence p now generation known selected = record p {
  generation = generation;
  selected = p.selected || selected;
  tunnel = p.tunnel || selected;
  direct = p.direct || known && not selected;
  unknown_until = if known then p.unknown_until else now + lifetime;
  expires = max p.expires (now + lifetime);
}

abbrev pub is_none : Option Pending → Bool
is_none none = true
is_none (some _) = false

-- `addResolved` at the key of the name and type. `known` is `!path.empty()` and `selected` says
-- besides that the path is in the included set; the result is whether the event was kept.
unfoldable pub add_resolved : Hints → List ℕ → ℕ → Bool → Bool → ℕ → Hints × Bool
add_resolved h key name_size known selected now =
    let swept = expire h now in
    let found = lookup key swept.hints in
    if ltb 253 name_size || leb max_hints (length swept.hints) && is_none found
    then (record swept { overloaded_until = now + lifetime }, false)
    else (let generation = swept.generations + 1 in
        let p = entry_for_event swept.reuse_window found now in
        (
          record swept {
            generations = generation;
            hints = put key (add_evidence p now generation known (known && selected)) swept.hints;
          },
          true,
        ))

-- `lostEvents`.
unfoldable pub lost_events : Hints → ℕ → Hints
lost_events h now = record h {
  hints = erase_if (λ p. not p.tunnel && leb p.unknown_until now) h.hints;
  direct_blocked_until = now + lifetime;
}

unfoldable pub sentinel_processed : Hints → ℕ → Hints
sentinel_processed h sequence = record h { processed = max h.processed sequence }

unfoldable pub flush_checked : Hints → ℕ → Hints
flush_checked h sequence = record h { checked = max h.checked sequence }

-- The start of `barrier`: a sequence number is assigned and its sentinel written.
unfoldable pub barrier_start : Hints → Hints × ℕ
barrier_start h = (record h { sequence = h.sequence + 1 }, h.sequence + 1)

-- The predicate that `barrier` waits for.
unfoldable pub barrier_done : Hints → ℕ → Bool
barrier_done h sequence = leb sequence h.processed && leb sequence h.checked

-- The route of `decide`: none, or whether it is the tunnel; and whether an answer is reused.
pub record Route : Type 0 where
  pub route : Option Bool
  pub reused : Bool

abbrev pub no_route : Route
no_route = record { route = none; reused = false }

abbrev pub to_tunnel : Route
to_tunnel = record { route = some true; reused = false }

abbrev pub decided_tunnel : Pending → Pending
decided_tunnel p = record p { decision = Decision.tunnel }

-- What becomes of the entry: kept as it is or changed, or erased.
abbrev pub Outcome : Type 0
Outcome = Option Pending × Route

-- An answered entry whose route can no longer be reused.
unfoldable pub decide_expired : ℕ → Pending → ℕ → Outcome
unfolding retire
decide_expired reuse_window p now =
    let r = retire reuse_window p now in
    if not r.tunnel && leb r.unknown_until now
    then (none, no_route)
    else if r.tunnel
    then (some (decided_tunnel r), to_tunnel)
    else (some r, no_route)

unfoldable pub decide_answered : ℕ → Pending → ℕ → Bool → Outcome
unfolding decide_expired
decide_answered reuse_window p now direct_allowed =
    if p.tunnel && not (is_tunnel p.decision)
    then (some (record p { answered = false; decision = Decision.tunnel }), to_tunnel)
    else if is_pending p.decision || not (within now p.answered_at reuse_window)
    then decide_expired reuse_window p now
    else if is_tunnel p.decision || direct_allowed
    then (some p, record { route = some (is_tunnel p.decision); reused = true })
    else (some p, no_route)

unfoldable pub decide_open : Pending → Bool → Outcome
decide_open p direct_allowed =
    if p.tunnel || is_tunnel p.decision
    then (some (decided_tunnel p), to_tunnel)
    else if direct_allowed && (p.direct || is_direct p.decision)
    then (
      some (record p { decision = Decision.direct }),
      record { route = some false; reused = false },
    )
    else (some p, no_route)

-- `decide` on the entry that was found.
unfoldable pub decide_entry : Hints → Pending → ℕ → Bool → Outcome
unfolding decide_answered decide_open
decide_entry h p now allow_direct =
    let direct_allowed =
      allow_direct && leb h.direct_blocked_until now && leb p.unknown_until now in
    if leb p.expires now
    then (none, no_route)
    else if p.answered
    then decide_answered h.reuse_window p now direct_allowed
    else decide_open p direct_allowed

abbrev pub settle_entry : Hints → List ℕ → Outcome → Hints × Route
settle_entry h key (none, r) = (record h { hints = erase key h.hints }, r)
settle_entry h key (some p, r) = (record h { hints = put key p h.hints }, r)

unfoldable pub decide_found : Hints → List ℕ → ℕ → Bool → Option Pending → Hints × Route
unfolding decide_entry
decide_found h key now allow_direct none = (h, no_route)
decide_found h key now allow_direct (some p) =
    settle_entry h key (decide_entry h p now allow_direct)

unfoldable pub decide : Hints → List ℕ → ℕ → Bool → Hints × Route
unfolding decide_found expire
decide h key now allow_direct =
    let swept = expire h now in decide_found swept key now allow_direct (lookup key swept.hints)

abbrev generation_of : Option Pending → ℕ
generation_of none = 0
generation_of (some p) = p.generation

-- The generation that `take` reports with a decision, in the state that the decision left.
unfoldable pub decided_generation : Hints → List ℕ → ℕ
decided_generation h key = generation_of (lookup key h.hints)

-- `take` up to the barrier: refused, decided at once, or waiting. The clock is read for the test
-- and again by `decide`.
pub data Begun : Type 0 where
  refused : Begun
  decided : Route → Begun
  waiting : Begun

abbrev pub is_some_true : Option Bool → Bool
is_some_true (some true) = true
is_some_true _ = false

unfoldable pub take_begin : Hints → List ℕ → ℕ → ℕ → Hints × Begun
unfolding decide
take_begin h key asked now =
    let (h', r) = decide h key now false in
    if ltb asked h.overloaded_until
    then (h, Begun.refused)
    else if is_some_true r.route
    then (h', Begun.decided r)
    else (h', Begun.waiting)

-- `take` after the barrier, in the state that the waiting left; `passed` is the barrier's result.
unfoldable pub take_end : Hints → List ℕ → ℕ → ℕ → Bool → Hints × Route
unfolding decide
take_end h key asked now passed =
    if not passed || ltb asked h.overloaded_until then (h, no_route) else decide h key now true

unfoldable pub entry_unsafe : Option Pending → ℕ → Bool
entry_unsafe none now = false
entry_unsafe (some p) now = p.tunnel || ltb now p.unknown_until

-- `directAnswerUnsafe` after the barrier.
unfoldable pub direct_answer_unsafe : Hints → List ℕ → ℕ → Bool → Bool
unfolding entry_unsafe
direct_answer_unsafe h key now passed =
    if not passed
    then true
    else if ltb now h.direct_blocked_until || ltb now h.overloaded_until
    then true
    else entry_unsafe (lookup key h.hints) now

-- `complete`; the generation is `none` for kLatestGeneration.
abbrev pub is_newer : Option ℕ → ℕ → Bool
is_newer none g = false
is_newer (some asked) g = asked != g

unfoldable pub complete_entry : ℕ → Pending → ℕ → Option ℕ → Pending
complete_entry reuse_window p now generation =
    let claimed =
      if is_tunnel p.decision && p.selected
      then record p {
        selected_answered = true;
        selected_answered_at = now;
        expires = max p.expires (now + reuse_window);
      }
      else p in
    if is_newer generation p.generation
    then claimed
    else record claimed { answered = true; answered_at = now }

unfoldable pub complete_found : Hints → List ℕ → ℕ → Option ℕ → Option Pending → Hints
unfolding complete_entry
complete_found h key now generation none = h
complete_found h key now generation (some p) = record h {
  hints = put key (complete_entry h.reuse_window p now generation) h.hints;
}

unfoldable pub complete : Hints → List ℕ → ℕ → Option ℕ → Hints
unfolding complete_found
complete h key now generation = complete_found h key now generation (lookup key h.hints)
