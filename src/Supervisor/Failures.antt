-- ===== src/Supervisor/Failures.antt =====
-- The failed probes that superviseLoop of src/native/dispatcher-supervisor.h counts.
use wireguard_dns_program_sp.Base.{
  suc, List, ◌∷◌, get_elem?, ◌-◌, ◌==◌, sym, ap, ℕ, ◌+◌, ◌%◌, ◌^◌, ◌≤◌, ◌<◌, ◌≡◌, ◌⊎◌, inl, inr,
  ◌∙◌, some, arith, Bool-cases,
}
use wireguard_dns_program_sp.Supervisor.{Loop, Pass, observed, failed_at, note_ready, act}
use wireguard_dns_program_sp.Supervisor.Recounts.{observed-Recount}

-- The first of the failures that are counted: as many probes back, since the latest answer and since the dispatcher
-- was taken.
pub record First (l : Loop) (time answer : ℕ) (failed : List ℕ) : Type 0 where
  pub since_answer : answer ≤ l.first_failure
  pub past : l.first_failure ≤ time
  pub of_child : l.child_since ≤ l.first_failure
  pub is_failed : get_elem? failed (l.failures - 1) ≡ some l.first_failure

pub record Counted (l : Loop) (time answer : ℕ) (failed : List ℕ) : Type 0 where
  pub answer_past : answer ≤ time
  pub child_past : l.child_since ≤ time
  pub small : l.failures < 2 ^ 32
  pub failing : (l.failures ≡ 0) ⊎ First l time answer failed

First-same :
    (l m : Loop) {time later answer : ℕ} {failed : List ℕ}
    → time ≤ later
    → m.failures ≡ l.failures
    → m.first_failure ≡ l.first_failure
    → m.child_since ≡ l.child_since
    → First l time answer failed
    → First m later answer failed
First-same l m {failed = failed} ordered f g k c = record {
  since_answer = omega (arith, g, c.since_answer);
  past = omega (arith, g, c.past, ordered);
  of_child = omega (arith, g, k, c.of_child);
  is_failed =
      ap (λ (n : ℕ). get_elem? failed (n - 1)) f ∙ c.is_failed ∙ ap (λ (n : ℕ). some n) (sym g);
}

pub Counted-observed :
    (l : Loop) (p : Pass) {time answer : ℕ} {failed : List ℕ}
    → time ≤ p.now
    → Counted l time answer failed
    → Counted (observed l p) p.now answer failed
Counted-observed l p {time} later c =
    let again = observed-Recount l p in
    record {
      answer_past = omega (arith, c.answer_past, later);
      child_past = ground (arith, again.0, c.child_past, later);
      small = ground (arith, again.1, c.small);
      failing = elim (again.1) [
        | inl z ↦ inl z
        | inr (f, g, k) ↦ elim c.failing [
          | inl z ↦ inl (f ∙ z)
          | inr first ↦ inr (First-same l (observed l p) later f g k first)
        ]
      ];
    }

-- Neither the look at the rule nor an action changes the count.
pub acted-Counted :
    (m : Loop) (p : Pass) {time answer : ℕ} {failed : List ℕ}
    → Counted m time answer failed
    → Counted (act (note_ready m p) p).0 time answer failed
unfolding act note_ready
acted-Counted m p c =
    let f : (act (note_ready m p) p).0.failures ≡ m.failures = ground arith in
    let g : (act (note_ready m p) p).0.first_failure ≡ m.first_failure = ground arith in
    let k : (act (note_ready m p) p).0.child_since ≡ m.child_since = ground arith in
    record {
      answer_past = c.answer_past;
      child_past = omega (arith, k, c.child_past);
      small = omega (arith, f, c.small);
      failing = elim c.failing [
        | inl z ↦ inl (f ∙ z)
        | inr first ↦ inr (First-same m (act (note_ready m p) p).0 (omega arith) f g k first)
      ];
    }

-- The count after one more failure, where it has not wrapped.
pub failed-First :
    (o m : Loop) (now : ℕ) {answer : ℕ} (failed : List ℕ)
    → Counted o now answer failed
    → m.failures ≡ (o.failures + 1) % 2 ^ 32
    → m.first_failure ≡ failed_at o now
    → m.child_since ≡ o.child_since
    → (m.failures ≡ 0) ⊎ First m now answer (now ∷ failed)
failed-First o m now failed c f g k = elim (Bool-cases (o.failures == 0)) [
  | inl e ↦
      let one : m.failures ≡ 1 = ground (arith, e, f) in
      let at : m.first_failure ≡ now = ground (arith, e, g) in
      inr (record {
        since_answer = omega (arith, at, c.answer_past);
        past = omega (arith, at);
        of_child = omega (arith, at, k, c.child_past);
        is_failed =
            ap (λ (n : ℕ). get_elem? (now ∷ failed) (n - 1)) one ∙ ap (λ (n : ℕ). some n) (sym at);
      })
  | inr e ↦ elim c.failing [
    | inl z ↦ absurd (ground (arith, z, e))
    | inr first ↦ elim (Bool-cases (m.failures == 0)) [
      | inl w ↦ inl (ground (arith, w))
      | inr w ↦
          let more : m.failures - 1 ≡ suc (o.failures - 1) = ground (arith, e, f, w, c.small) in
          let at : m.first_failure ≡ o.first_failure = ground (arith, e, g) in
          inr (record {
            since_answer = omega (arith, at, first.since_answer);
            past = omega (arith, at, first.past);
            of_child = omega (arith, at, k, first.of_child);
            is_failed =
                ap (λ (n : ℕ). get_elem? (now ∷ failed) n) more
                ∙ first.is_failed
                ∙ ap (λ (n : ℕ). some n) (sym at);
          })
    ]
  ]
]
