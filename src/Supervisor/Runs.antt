-- ===== src/Supervisor/Runs.antt =====
-- Passes of the supervisor in their order, with the time of the last readiness: the latest pass that
-- found the dispatcher ready or supervision off.
use wireguard_dns_program_sp.Base.{
  ℕ, ◌^◌, ◌≤◌, ◌<◌, ◌≡◌, inl, inr, refl, ◌∙◌, Bool, true, false, not, ◌&&◌, ◌||◌, none, some,
  if◌then◌else◌, arith, Option-cases,
}
use wireguard_dns_program_sp.Supervisor.{
  Loop, Pass, initial, pass, observed, probe, note_ready, is_ready, reap_helper, ensure_child,
  drop_ended, adopt, start, starts, holds, reset_liveness,
}

-- What a pass sees before it acts.
abbrev pub seen : Loop → Pass → Loop
seen l p = note_ready (probe (observed l p) p) p

abbrev pub is_ready_pass : Loop → Pass → Bool
is_ready_pass l p = not p.supervised || is_ready (probe (observed l p) p) p

-- The loop's variables after some passes, with the time of the latest one and that of readiness.
pub data Runs : Loop → ℕ → ℕ → Type 0 where
  runs-start : Runs initial 0 0
  runs-pass :
      {l : Loop} {time ready : ℕ}
      → Runs l time ready
      → (p : Pass) → time ≤ p.now
      → p.now < 2 ^ 64
      → Runs (pass l p).0 p.now (if is_ready_pass l p then p.now else ready)

-- The parts of the state that the look at the child leaves alone.
pub record Same (l m : Loop) : Type 0 where
  pub unready_since : m.unready_since ≡ l.unready_since
  pub helper : m.helper ≡ l.helper
  pub helper_ended : m.helper_ended ≡ l.helper_ended

Same-refl : (l : Loop) → Same l l
Same-refl l = record { unready_since = refl; helper = refl; helper_ended = refl }

Same-trans : {l m n : Loop} → Same l m → Same m n → Same l n
Same-trans a b = record {
  unready_since = b.unready_since ∙ a.unready_since;
  helper = b.helper ∙ a.helper;
  helper_ended = b.helper_ended ∙ a.helper_ended;
}

if-Same : (l : Loop) (b : Bool) (m n : Loop) → Same l m → Same l n → Same l (if b then m else n)
if-Same l true m n p q = p
if-Same l false m n p q = q

drop_ended-Same : (l : Loop) (p : Pass) → Same l (drop_ended l p)
unfolding drop_ended
drop_ended-Same l p =
    if-Same l (holds l.child && not p.child_runs_locked)
      (reset_liveness (record l { child = none })) l
      (record { unready_since = refl; helper = refl; helper_ended = refl }) (Same-refl l)

adopt-Same : (l : Loop) (p : Pass) → Same l (adopt l p)
unfolding adopt
adopt-Same l p = elim (Option-cases p.adopted) [
  | inl e ↦ rw e (if-Same l (holds l.child) l l (Same-refl l) (Same-refl l))
  | inr (id, e) ↦ rw e (
      if-Same l (holds l.child) l
        (reset_liveness (record l { child = some id; child_since = p.now })) (Same-refl l)
        (record { unready_since = refl; helper = refl; helper_ended = refl }))
]

start-Same : (l : Loop) (p : Pass) → Same l (start l p)
unfolding start
start-Same l p =
    if-Same l (starts l p)
      (reset_liveness (record l { last_start = p.now; child_since = p.now; child = p.started })) l
      (record { unready_since = refl; helper = refl; helper_ended = refl }) (Same-refl l)

ensure_child-Same : (l : Loop) (p : Pass) → Same l (ensure_child l p)
unfolding ensure_child
ensure_child-Same l p =
    let dropped = drop_ended l p in
    let all =
      Same-trans (drop_ended-Same l p)
        (Same-trans (adopt-Same dropped p) (start-Same (adopt dropped p) p)) in
    if-Same l ((not (holds l.child) || not p.child_runs) && p.locked && p.supervised_locked)
      (start (adopt dropped p) p) l all (Same-refl l)

pub probe-Same : (l : Loop) (p : Pass) → Same l (probe l p)
unfolding probe
probe-Same l p = record {
  unready_since = ground arith;
  helper = ground arith;
  helper_ended = ground arith;
}

pub seen-Same : (l : Loop) (p : Pass) → Same (reap_helper l p) (probe (observed l p) p)
unfolding observed
seen-Same l p =
    Same-trans (ensure_child-Same (reap_helper l p) p)
      (probe-Same (ensure_child (reap_helper l p) p) p)
