-- ===== src/Supervisor/Outage.antt =====
-- An outage of the dispatcher of 15 seconds suspends the rule (src/native/dispatcher-supervisor.h).
use wireguard_dns_program_sp.Base.{
  ℕ, ◌+◌, ◌^◌, ◌≤◌, ◌<◌, ◌≡◌, ◌≢◌, inl, inr, refl, sym, ap, ◌∙◌, Bool, true, false, ◌&&◌, ◌||◌,
  Option, none, some, List, [], ◌∷◌, if◌then◌else◌, leb, ◌==◌, arith, Bool-cases,
}
use wireguard_dns_program_sp.Supervisor.{
  Loop, Pass, Action, pass, observed, probe, note_ready, act, is_ready, reap_helper, wanted,
  may_start_helper, k_suspend_after, k_helper_retry, elapsed,
}
use wireguard_dns_program_sp.Supervisor.Runs.{seen, seen-Same}
use wireguard_dns_program_sp.Supervisor.Suspends.{note_ready-is_ready, seen-since}
use mathlib.Core.Path.{subst}

-- A pass of an outage: supervision is on, no dispatcher is ready, the rule is there, the helper of an
-- earlier pass has ended, and one can be started.
pub record IsOutage (l : Loop) (p : Pass) : Type 0 where
  pub on : p.supervised ≡ true
  pub unready : is_ready (probe (observed l p) p) p ≡ false
  pub rule : p.rule_present ≡ true
  pub idle : p.helper_exited ≡ true
  pub startable : p.helper_starts ≡ true
  pub small : p.now < 2 ^ 64

-- Passes of an outage from a time on.
pub data Outage : Loop → ℕ → List Pass → Type 0 where
  outage-over : {l : Loop} {time : ℕ} → Outage l time []
  outage-pass :
      {l : Loop} {time : ℕ} (p : Pass) {passes : List Pass}
      → time ≤ p.now
      → IsOutage l p
      → Outage (pass l p).0 p.now passes
      → Outage l time (p ∷ passes)

abbrev pub is_suspend : Option Action → Bool
is_suspend (some Action.suspend) = true
is_suspend _ = false

-- Whether a pass starts a helper that suspends the rule: the action is that, and the helper runs after the pass.
unfoldable pub suspends : Loop → List Pass → Bool
suspends l [] = false
suspends l (p ∷ passes) =
    is_suspend (pass l p).1 && (pass l p).0.helper || suspends (pass l p).0 passes

-- The time of the last pass.
unfoldable pub last_time : ℕ → List Pass → ℕ
last_time time [] = time
last_time time (p ∷ passes) = last_time p.now passes

-- Whether a pass of an outage is late enough, by what it sees.
abbrev due : Loop → Pass → Bool
due s p =
    leb k_suspend_after (elapsed p.now s.unready_since)
    && leb k_helper_retry (elapsed p.now s.helper_ended)

act-due :
    (s : Loop) (p : Pass)
    → is_ready s p ≡ false
    → p.rule_present ≡ true
    → s.helper ≡ false
    → act s p ≡ (if due s p then ((act s p).0, some Action.suspend) else (s, none))
unfolding act wanted may_start_helper
act-due s p unready rule idle = ground (arith, unready, rule, idle)

act-helper :
    (s : Loop) (p : Pass)
    → is_ready s p ≡ false
    → p.rule_present ≡ true
    → s.helper ≡ false
    → due s p ≡ true
    → p.helper_starts ≡ true
    → (act s p).0.helper ≡ true
unfolding act wanted may_start_helper
act-helper s p unready rule idle now startable = ground (arith, unready, rule, idle, now, startable)

reaped : (l : Loop) (p : Pass) → p.helper_exited ≡ true → (reap_helper l p).helper ≡ false
unfolding reap_helper
reaped l p h = ground arith

reaped-ended :
    (l : Loop) (p : Pass)
    → (reap_helper l p).helper_ended
      ≡ (if l.helper && p.helper_exited then p.now else l.helper_ended)
unfolding reap_helper
reaped-ended l p = ground arith

note_ready-helper :
    (m : Loop) (p : Pass)
    → ((note_ready m p).helper ≡ m.helper) × ((note_ready m p).helper_ended ≡ m.helper_ended)
unfolding note_ready
note_ready-helper m p = (refl, refl)

-- What a pass of an outage sees.
record Seen (l : Loop) (p : Pass) (s : Loop) : Type 0 where
  pub not_ready : is_ready s p ≡ false
  pub since : s.unready_since ≡ (if l.unready_since == 0 then p.now else l.unready_since)
  pub no_helper : s.helper ≡ false
  pub ended : s.helper_ended ≡ (if l.helper && p.helper_exited then p.now else l.helper_ended)

seen-Seen : (l : Loop) (p : Pass) → IsOutage l p → Seen l p (seen l p)
seen-Seen l p o =
    let m = probe (observed l p) p in
    let same = seen-Same l p in
    let (helper, ended) = note_ready-helper m p in
    record {
      not_ready = note_ready-is_ready m p ∙ o.unready;
      since =
          seen-since l p
          ∙ ap
              (λ (b : Bool).
                if b then 0 else if l.unready_since == 0 then p.now else l.unready_since)
              o.unready;
      no_helper = helper ∙ same.helper ∙ reaped l p o.idle;
      ended = ended ∙ same.helper_ended ∙ reaped-ended l p;
    }

pass-outage :
    (l : Loop) (p : Pass)
    → IsOutage l p
    → pass l p
      ≡ (if due (seen l p) p then ((act (seen l p) p).0, some Action.suspend) else (seen l p, none))
unfolding pass
pass-outage l p o =
    let s = seen-Seen l p o in rw o.on (act-due (seen l p) p s.not_ready o.rule s.no_helper)

-- The rest of an outage that began at a time, with no helper at work since.
rest-suspends :
    (l : Loop) (begun time : ℕ) (passes : List Pass)
    → Outage l time passes
    → l.helper ≡ false
    → l.helper_ended ≤ begun
    → l.unready_since ≢ 0
    → l.unready_since ≤ begun
    → begun ≤ time
    → time < begun + k_suspend_after
    → begun + k_suspend_after ≤ last_time time passes
    → suspends l passes ≡ true
unfolding suspends last_time
rest-suspends l begun time [] o idle ended unset since past early late = absurd (omega arith)
rest-suspends l begun time (p ∷ passes) (outage-pass _ later is more) idle ended unset since past
      early late =
    let s = seen-Seen l p is in
    elim (Bool-cases (due (seen l p) p)) [
      | inl now ↦
          rw (pass-outage l p is, now)
            (ground
              (arith, act-helper (seen l p) p s.not_ready is.rule s.no_helper now is.startable))
      | inr not_yet ↦
          let stays : pass l p ≡ (seen l p, none) = rw not_yet at (pass-outage l p is) in
          let kept : (seen l p).unready_since ≡ l.unready_since = ground (arith, s.since, unset) in
          let old : (seen l p).helper_ended ≡ l.helper_ended = ground (arith, s.ended, idle) in
          let before : p.now < begun + k_suspend_after =
            ground (arith, not_yet, kept, old, is.small) in
          let tail : suspends (seen l p) passes ≡ true =
            rest-suspends (seen l p) begun p.now passes
              (subst (λ (r : Loop × Option Action). Outage r.0 p.now passes) stays more) s.no_helper
              (omega (arith, old)) (λ e. unset (sym kept ∙ e)) (omega (arith, kept)) (omega arith)
              before late in
          rw stays tail
    ]

-- An outage of 15 seconds is answered: if from a pass on supervision is on, no pass finds a ready
-- dispatcher, the owned rule stays, every helper has ended and a helper can be started, then by the pass
-- 15 seconds later a helper that suspends the rule was started and runs. Conditions: the times in the loop's variables are
-- past, and the 64-bit clock neither is at zero nor wraps.
pub Outage-suspends :
    (l : Loop) (time : ℕ) (p : Pass) (passes : List Pass)
    → Outage l time (p ∷ passes)
    → l.helper_ended ≤ time
    → l.unready_since ≤ time
    → 0 < p.now
    → p.now + k_suspend_after ≤ last_time p.now passes
    → suspends l (p ∷ passes) ≡ true
unfolding suspends
Outage-suspends l time p passes (outage-pass _ later is more) ended since set late =
    let s = seen-Seen l p is in
    elim (Bool-cases (due (seen l p) p)) [
      | inl now ↦
          rw (pass-outage l p is, now)
            (ground
              (arith, act-helper (seen l p) p s.not_ready is.rule s.no_helper now is.startable))
      | inr not_yet ↦
          let stays : pass l p ≡ (seen l p, none) = rw not_yet at (pass-outage l p is) in
          let some_time : (seen l p).unready_since ≢ 0 = ground (arith, s.since, set) in
          let past : (seen l p).unready_since ≤ p.now = ground (arith, s.since) in
          let old : (seen l p).helper_ended ≤ p.now = ground (arith, s.ended) in
          rw stays (
            rest-suspends (seen l p) p.now p.now passes
              (subst (λ (r : Loop × Option Action). Outage r.0 p.now passes) stays more) s.no_helper
              old some_time past (omega arith) (omega arith) late)
    ]
