-- ===== src/Supervisor/Replaces.antt =====
-- When the supervisor of dispatcher-supervisor.h replaces a dispatcher that runs.
use wireguard_dns_program_sp.Base.{
  List, [], ◌∷◌, get_elem?, ◌-◌, ◌==◌, ℕ, ◌+◌, ◌%◌, ◌^◌, ◌≤◌, ◌<◌, ◌≡◌, inl, inr, refl, Bool, true,
  false, not, ◌&&◌, ◌||◌, some, if◌then◌else◌, arith, Bool-cases,
}
use wireguard_dns_program_sp.Supervisor.{
  Loop, Pass, initial, pass, observed, probe, probes, disabled, reap_helper, replaces,
  dispatcher_failure_persistent, k_liveness_failure_grace, k_liveness_failures,
}
use wireguard_dns_program_sp.Supervisor.Failures.{
  Counted, Counted-observed, acted-Counted, failed-First,
}

-- Whether a probe was answered in a pass.
abbrev pub is_answered : Loop → Pass → Bool
is_answered l p = p.supervised && (probes (observed l p) p && p.answers)

-- The times of the probes that failed since the last one that was answered, the latest first. A pass without
-- supervision forgets them; another dispatcher does not.
abbrev pub failed_after : Loop → Pass → List ℕ → List ℕ
failed_after l p failed =
    if not p.supervised || is_answered l p
    then []
    else if probes (observed l p) p
    then p.now ∷ failed
    else failed

-- The loop's variables after some passes, with the time of the latest one, that of the latest answer, and those of the
-- probes that failed.
pub data Heard : Loop → ℕ → ℕ → List ℕ → Type 0 where
  heard-start : Heard initial 0 0 []
  heard-pass :
      {l : Loop} {time answer : ℕ} {failed : List ℕ}
      → Heard l time answer failed
      → (p : Pass) → time ≤ p.now
      → p.now < 2 ^ 64
      → Heard
          (pass l p).0
          p.now
          (if is_answered l p then p.now else answer)
          (failed_after l p failed)

-- What a probe does to the count.
probe-Counted :
    (o : Loop) (p : Pass) {answer : ℕ} (failed : List ℕ)
    → Counted o p.now answer failed
    → Counted
        (probe o p)
        p.now
        (if probes o p && p.answers then p.now else answer)
        (if probes o p && p.answers then [] else if probes o p then p.now ∷ failed else failed)
unfolding probe
probe-Counted o p {answer} failed c = elim (Bool-cases (probes o p)) [
  | inr idle ↦ rw idle c
  | inl due ↦ elim (Bool-cases p.answers) [
    | inl good ↦
        rw (due, good)
          (record {
            answer_past = omega arith;
            child_past = c.child_past;
            small = omega arith;
            failing = inl refl;
          })
    | inr bad ↦
        rw (due, bad)
          (record {
            answer_past = c.answer_past;
            child_past = c.child_past;
            small = omega arith;
            failing = failed-First o _ p.now failed c refl refl refl;
          })
  ]
]

off-Counted :
    (l : Loop) (p : Pass) {time answer : ℕ} {failed : List ℕ}
    → time ≤ p.now
    → Counted l time answer failed
    → Counted (disabled (reap_helper l p)) p.now answer []
unfolding disabled reap_helper
off-Counted l p later c = record {
  answer_past = ground (arith, c.answer_past);
  child_past = ground (arith, c.child_past);
  small = omega arith;
  failing = inl refl;
}

Heard-Counted :
    {l : Loop} {time answer : ℕ} {failed : List ℕ}
    → Heard l time answer failed
    → Counted l time answer failed
unfolding initial pass
Heard-Counted heard-start = record {
  answer_past = omega arith;
  child_past = omega arith;
  small = omega arith;
  failing = inl refl;
}
Heard-Counted (heard-pass {l} {time} {answer} {failed} steps p later small) =
    let c = Heard-Counted steps in
    elim (Bool-cases p.supervised) [
      | inl on ↦ rw on (
          acted-Counted (probe (observed l p) p) p
            (probe-Counted (observed l p) p failed (Counted-observed l p later c)))
      | inr off ↦ rw off (off-Counted l p later c)
    ]

-- A dispatcher that runs is terminated only when the probe of this pass and two or more before it, one after the other,
-- have failed, the first of them at least ten seconds ago, not before the latest answer and not before this dispatcher
-- was taken.
-- Conditions: the passes follow one another from the start of the loop on, and the clock of 64 bits does not wrap.
pub replaces_late :
    {l : Loop} {time answer : ℕ} {failed : List ℕ} (p : Pass)
    → Heard l time answer failed
    → time ≤ p.now
    → p.now < 2 ^ 64
    → replaces (observed l p) p ≡ true
    → (n : ℕ) × (first : ℕ) × ((get_elem? failed n ≡ some first)
        × (k_liveness_failures ≤ n + 2)
        × (first + k_liveness_failure_grace ≤ p.now)
        × ((observed l p).child_since ≤ first)
        × (answer ≤ first)
        × (p.answers ≡ false))
unfolding replaces dispatcher_failure_persistent
replaces_late {l} {failed = failed} p steps later small e =
    let o = observed l p in
    let c = Counted-observed l p later (Heard-Counted steps) in
    let many : k_liveness_failures ≤ (o.failures + 1) % 2 ^ 32 = ground (arith, e) in
    elim c.failing [
      | inl z ↦ absurd (ground (arith, z, many))
      | inr first ↦
          let some_failed : (o.failures == 0) ≡ false = ground (arith, many) in
          (
            o.failures - 1,
            o.first_failure,
            (
              first.is_failed,
              ground (arith, many),
              ground (arith, e, some_failed, first.past, small),
              first.of_child,
              first.since_answer,
              ground (arith, e),
            ),
          )
    ]
