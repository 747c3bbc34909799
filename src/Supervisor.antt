-- ===== src/Supervisor.antt =====
-- src/native/dispatcher-supervisor.h: the loop that keeps the dispatcher running and the name
-- resolution rule in step with it. A pass is a function of the loop's variables and of what the
-- Windows calls of the pass returned.
pub mod Runs
pub mod Suspends
pub mod Outage
pub mod Recounts
pub mod Failures
pub mod Replaces
use wireguard_dns_program_sp.Base.{
  ℕ, zero, suc, ◌+◌, ◌-◌, ◌%◌, ◌^◌, min, Bool, true, false, not, ◌&&◌, ◌||◌, Option, none, some,
  List, [], ◌∷◌, leb, ◌==◌, ◌!=◌, if◌then◌else◌, codes, take, drop, length, bytes_eq,
}
use wireguard_dns_program_sp.Number.{parse_decimal}

abbrev pub k_suspend_after : ℕ
k_suspend_after = 15000

abbrev pub k_restart_spacing : ℕ
k_restart_spacing = 1000

abbrev pub k_helper_retry : ℕ
k_helper_retry = 2000

abbrev pub k_helper_timeout : ℕ
k_helper_timeout = 60000

abbrev pub k_liveness_interval : ℕ
k_liveness_interval = 1000

abbrev pub k_liveness_failures : ℕ
k_liveness_failures = 3

abbrev pub k_liveness_failure_grace : ℕ
k_liveness_failure_grace = 10000

abbrev pub k_startup_deadline : ℕ
k_startup_deadline = 10000

-- The difference of two ULONGLONG readings.
abbrev pub elapsed : ℕ → ℕ → ℕ
elapsed now before = (now + 2 ^ 64 - before) % 2 ^ 64

unfoldable pub dispatcher_failure_persistent : ℕ → ℕ → ℕ → Bool
dispatcher_failure_persistent failures first_failure now =
    leb k_liveness_failures failures
    && leb first_failure now
    && leb k_liveness_failure_grace (elapsed now first_failure)

-- `find_first_of("\r\n")`, or the size.
unfoldable pub line_end : List ℕ → ℕ
line_end [] = 0
line_end (c ∷ text) = let rest = line_end text in if c == 13 || c == 10 then 0 else rest + 1

abbrev or_zero : Option ℕ → ℕ
or_zero none = 0
or_zero (some n) = n

unfoldable pub status_process_id : List ℕ → ℕ
unfolding line_end
status_process_id status =
    if bytes_eq (take 4 status) (codes "pid=")
    then or_zero (parse_decimal (drop 4 (take (line_end status) status)) 0xffffffff)
    else 0

-- The variables of the loop. The child is its process id while its handle is held.
pub record Loop : Type 0 where
  pub child : Option ℕ
  pub last_start : ℕ
  pub unready_since : ℕ
  pub helper : Bool
  pub helper_started : ℕ
  pub helper_ended : ℕ
  pub last_probe : ℕ
  pub child_since : ℕ
  pub failures : ℕ
  pub first_failure : ℕ
  pub answered : Bool

unfoldable pub initial : Loop
initial = record {
  child = none;
  last_start = 0;
  unready_since = 0;
  helper = false;
  helper_started = 0;
  helper_ended = 0;
  last_probe = 0;
  child_since = 0;
  failures = 0;
  first_failure = 0;
  answered = false;
}

-- What the calls of one pass return: the clock, whether the helper still runs and has ended, the
-- supervised file (before and under the lock), the three looks at the child, the lock, the
-- processes that were adopted and started, the status text, the probe, the suspended file, the
-- rule, and whether a helper could be started.
pub record Pass : Type 0 where
  pub now : ℕ
  pub helper_runs : Bool
  pub helper_exited : Bool
  pub supervised : Bool
  pub child_runs : Bool
  pub locked : Bool
  pub supervised_locked : Bool
  pub child_runs_locked : Bool
  pub adopted : Option ℕ
  pub started : Option ℕ
  pub child_runs_after : Bool
  pub status : List ℕ
  pub answers : Bool
  pub suspended : Bool
  pub rule_present : Bool
  pub helper_starts : Bool

abbrev pub reset_liveness : Loop → Loop
reset_liveness l = record l { failures = 0; first_failure = 0; answered = false; last_probe = 0 }

abbrev pub holds : Option ℕ → Bool
holds none = false
holds (some id) = true

-- The helper is terminated when it is overdue.
unfoldable pub terminates_helper : Loop → Pass → Bool
terminates_helper l p =
    l.helper && p.helper_runs && leb k_helper_timeout (elapsed p.now l.helper_started)

unfoldable pub reap_helper : Loop → Pass → Loop
reap_helper l p =
    if l.helper && p.helper_exited then record l { helper = false; helper_ended = p.now } else l

unfoldable pub disabled : Loop → Loop
disabled l = reset_liveness (record l { child = none; unready_since = 0 })

unfoldable pub drop_ended : Loop → Pass → Loop
drop_ended l p =
    if holds l.child && not p.child_runs_locked
    then reset_liveness (record l { child = none })
    else l

abbrev adopt_as : Loop → ℕ → Option ℕ → Loop
adopt_as l now none = l
adopt_as l now (some id) = reset_liveness (record l { child = some id; child_since = now })

unfoldable pub adopt : Loop → Pass → Loop
adopt l p = if holds l.child then l else adopt_as l p.now p.adopted

unfoldable pub starts : Loop → Pass → Bool
starts l p = not (holds l.child) && leb k_restart_spacing (elapsed p.now l.last_start)

unfoldable pub start : Loop → Pass → Loop
unfolding starts
start l p =
    if starts l p
    then reset_liveness (record l { last_start = p.now; child_since = p.now; child = p.started })
    else l

-- Adoption and start, under the component's lock.
unfoldable pub ensure_child : Loop → Pass → Loop
unfolding drop_ended adopt start
ensure_child l p =
    if (not (holds l.child) || not p.child_runs) && p.locked && p.supervised_locked
    then start (adopt (drop_ended l p) p) p
    else l

unfoldable pub alive : Loop → Pass → Bool
alive l p = holds l.child && p.child_runs_after

abbrev is_id : Option ℕ → ℕ → Bool
is_id none id = false
is_id (some child) id = id == child

unfoldable pub published : Loop → Pass → Bool
unfolding alive
published l p = alive l p && is_id l.child (status_process_id p.status)

unfoldable pub probes : Loop → Pass → Bool
unfolding alive published
probes l p =
    alive l p
    && (published l p || leb k_startup_deadline (elapsed p.now l.child_since))
    && leb k_liveness_interval (elapsed p.now l.last_probe)

abbrev pub failed_at : Loop → ℕ → ℕ
failed_at l now = if l.failures == 0 then now else l.first_failure

-- Whether this pass replaces the child; `failures` is an unsigned int.
unfoldable pub replaces : Loop → Pass → Bool
unfolding probes
replaces l p =
    probes l p
    && not p.answers
    && dispatcher_failure_persistent ((l.failures + 1) % 2 ^ 32) (failed_at l p.now) p.now

unfoldable pub probe : Loop → Pass → Loop
unfolding probes replaces
probe l p =
    if not (probes l p)
    then l
    else if p.answers
    then record l { last_probe = p.now; failures = 0; first_failure = 0; answered = true }
    else record l {
      last_probe = p.now;
      first_failure = failed_at l p.now;
      failures = (l.failures + 1) % 2 ^ 32;
      answered = if replaces l p then false else l.answered;
    }

unfoldable pub is_ready : Loop → Pass → Bool
unfolding published
is_ready l p = published l p && l.answered && l.failures == 0

unfoldable pub note_ready : Loop → Pass → Loop
unfolding is_ready
note_ready l p = record l {
  unready_since =
      if is_ready l p then 0 else if l.unready_since == 0 then p.now else l.unready_since;
}

pub data Action : Type 0 where
  resume suspend : Action

unfoldable pub wanted : Loop → Pass → Option Action
unfolding is_ready
wanted l p =
    if is_ready l p && p.suspended
    then some Action.resume
    else if not (is_ready l p)
        && leb k_suspend_after (elapsed p.now l.unready_since)
        && p.rule_present
    then some Action.suspend
    else none

-- A helper is started where an action is wanted and none runs.
unfoldable pub may_start_helper : Loop → Pass → Bool
may_start_helper l p = not l.helper && leb k_helper_retry (elapsed p.now l.helper_ended)

abbrev launched : Loop → Pass → Loop
launched l p = record l {
  helper_started = p.now;
  helper = p.helper_starts;
  helper_ended = if p.helper_starts then l.helper_ended else p.now;
}

abbrev act_on : Loop → Pass → Option Action → Loop × Option Action
act_on l p none = (l, none)
act_on l p (some action) = if may_start_helper l p then (launched l p, some action) else (l, none)

unfoldable pub act : Loop → Pass → Loop × Option Action
unfolding wanted may_start_helper
act l p = act_on l p (wanted l p)

-- The child as the rest of a pass sees it.
unfoldable pub observed : Loop → Pass → Loop
unfolding reap_helper ensure_child
observed l p = ensure_child (reap_helper l p) p

-- One pass: the variables after it, and the action for which a helper was to be started.
unfoldable pub pass : Loop → Pass → Loop × Option Action
unfolding observed disabled probe note_ready act
pass l p =
    if not p.supervised
    then (disabled (reap_helper l p), none)
    else act (note_ready (probe (observed l p) p) p) p
