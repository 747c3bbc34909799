-- ===== src/Examples/Passes.antt =====
-- Instances for src/native/dispatcher-supervisor.h: a host on which no dispatcher starts, and one whose
-- dispatcher stops answering.
use wireguard_dns_program_sp.Base.{
  ℕ, ◌+◌, ◌≤◌, ◌≡◌, refl, Bool, true, false, none, some, [], ◌∷◌, get_elem?, arith, codes,
}
use wireguard_dns_program_sp.Supervisor.{
  Loop, Pass, initial, pass, observed, probe, note_ready, act, is_ready, disabled, reap_helper,
  ensure_child, drop_ended, adopt, start, starts, alive, published, probes, replaces,
  dispatcher_failure_persistent, wanted, may_start_helper, status_process_id, line_end,
  k_suspend_after, k_liveness_failure_grace, k_liveness_failures,
}
use wireguard_dns_program_sp.Base.Lists.{bytes_eq}
use wireguard_dns_program_sp.Number.{parse_decimal, parse_digits}
use wireguard_dns_program_sp.Supervisor.Runs.{runs-start, runs-pass, is_ready_pass}
use wireguard_dns_program_sp.Supervisor.Suspends.{suspend_late}
use wireguard_dns_program_sp.Supervisor.Outage.{
  outage-over, outage-pass, suspends, last_time, Outage-suspends,
}
use wireguard_dns_program_sp.Supervisor.Replaces.{heard-start, heard-pass, replaces_late}

-- No dispatcher starts.
abbrev dead : ℕ → Pass
dead now = record {
  now = now;
  helper_runs = false;
  helper_exited = true;
  supervised = true;
  child_runs = false;
  locked = true;
  supervised_locked = true;
  child_runs_locked = false;
  adopted = none;
  started = none;
  child_runs_after = false;
  status = [];
  answers = false;
  suspended = false;
  rule_present = true;
  helper_starts = true;
}

abbrev unready : Loop
unready = (pass initial (dead 5000)).0

suspend_late_example :
    (0 + k_suspend_after ≤ 20000) × (true ≡ true) × (is_ready_pass unready (dead 20000) ≡ false)
unfolding initial pass observed probe note_ready act is_ready disabled reap_helper ensure_child
    drop_ended adopt start starts alive published probes replaces wanted may_start_helper
suspend_late_example =
    suspend_late (dead 20000) (runs-pass runs-start (dead 5000) (omega arith) (omega arith))
      (omega arith) (omega arith) refl

Outage-suspends_example : suspends initial (dead 5000 ∷ dead 20000 ∷ []) ≡ true
unfolding initial pass observed probe note_ready act is_ready disabled reap_helper ensure_child
    drop_ended adopt start starts alive published probes replaces wanted may_start_helper last_time
Outage-suspends_example =
    Outage-suspends initial 0 (dead 5000) (dead 20000 ∷ [])
      (outage-pass (dead 5000) (omega arith)
        (record {
          on = refl;
          unready = refl;
          rule = refl;
          idle = refl;
          startable = refl;
          small = omega arith;
        })
        (outage-pass (dead 20000) (omega arith)
          (record {
            on = refl;
            unready = refl;
            rule = refl;
            idle = refl;
            startable = refl;
            small = omega arith;
          })
          outage-over))
      (omega arith) (omega arith) (omega arith) (omega arith)

-- A dispatcher with id 7 that runs, and answers or not.
abbrev running : ℕ → Bool → Pass
running now answers = record (dead now) {
  child_runs = true;
  child_runs_locked = true;
  adopted = some 7;
  child_runs_after = true;
  status = codes "pid=7";
  answers = answers;
}

abbrev heard_first : Loop
heard_first = (pass initial (running 5000 true)).0

abbrev failed_once : Loop
failed_once = (pass heard_first (running 6000 false)).0

abbrev failed_twice : Loop
failed_twice = (pass failed_once (running 8000 false)).0

replaces_late_example :
    (n : ℕ) × (first : ℕ) × ((get_elem? (8000 ∷ 6000 ∷ []) n ≡ some first)
      × (k_liveness_failures ≤ n + 2)
      × (first + k_liveness_failure_grace ≤ 16000)
      × ((observed failed_twice (running 16000 false)).child_since ≤ first)
      × (5000 ≤ first)
      × (false ≡ false))
unfolding initial pass observed probe note_ready act is_ready disabled reap_helper ensure_child
    drop_ended adopt start starts alive published probes replaces wanted may_start_helper
    dispatcher_failure_persistent status_process_id line_end bytes_eq parse_decimal parse_digits
replaces_late_example =
    replaces_late (running 16000 false)
      (heard-pass
        (heard-pass (heard-pass heard-start (running 5000 true) (omega arith) (omega arith))
          (running 6000 false) (omega arith) (omega arith))
        (running 8000 false) (omega arith) (omega arith))
      (omega arith) (omega arith) refl
