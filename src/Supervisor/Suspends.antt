-- ===== src/Supervisor/Suspends.antt =====
-- When the supervisor suspends the rule: not before 15 seconds without a ready dispatcher, and then
-- for certain.
use wireguard_dns_program_sp.Base.{
  ℕ, ◌+◌, ◌^◌, ◌≤◌, ◌<◌, ◌≡◌, ◌⊎◌, inl, inr, refl, sym, ap, ◌∙◌, true, false, some, if◌then◌else◌,
  ◌==◌, arith, Bool-cases,
}
use wireguard_dns_program_sp.Supervisor.{
  Loop, Pass, Action, initial, pass, observed, probe, note_ready, act, is_ready, disabled,
  reap_helper, wanted, k_suspend_after, elapsed, published,
}
use wireguard_dns_program_sp.Supervisor.Runs.{
  Runs, runs-start, runs-pass, seen, seen-Same, is_ready_pass,
}

-- The loop's variables at a time, with the time of readiness.
record Timed (l : Loop) (time ready : ℕ) : Type 0 where
  pub ready_past : ready ≤ time
  pub since_past : l.unready_since ≤ time
  pub since_ready : (l.unready_since ≡ 0) ⊎ (ready ≤ l.unready_since)

-- Acting touches the helper only.
act-since : (l : Loop) (p : Pass) → (act l p).0.unready_since ≡ l.unready_since
unfolding act
act-since l p = ground arith

reap_helper-since : (l : Loop) (p : Pass) → (reap_helper l p).unready_since ≡ l.unready_since
unfolding reap_helper
reap_helper-since l p = ground arith

note_ready-since :
    (m : Loop) (p : Pass)
    → (note_ready m p).unready_since
      ≡ (if is_ready m p then 0 else if m.unready_since == 0 then p.now else m.unready_since)
unfolding note_ready
note_ready-since m p = refl

pub note_ready-is_ready : (m : Loop) (p : Pass) → is_ready (note_ready m p) p ≡ is_ready m p
unfolding note_ready is_ready published
note_ready-is_ready m p = refl

probe-since : (l : Loop) (p : Pass) → (probe (observed l p) p).unready_since ≡ l.unready_since
probe-since l p = (seen-Same l p).unready_since ∙ reap_helper-since l p

-- What a pass makes of the time since which no dispatcher is ready.
pub seen-since :
    (l : Loop) (p : Pass)
    → (seen l p).unready_since ≡ (
        if is_ready (probe (observed l p) p) p
        then 0
        else if l.unready_since == 0
        then p.now
        else l.unready_since)
seen-since l p =
    note_ready-since (probe (observed l p) p) p
    ∙ ap (λ (u : ℕ). if is_ready (probe (observed l p) p) p then 0 else if u == 0 then p.now else u)
        (probe-since l p)

pass-since :
    (l : Loop) (p : Pass)
    → (pass l p).0.unready_since
      ≡ (if is_ready_pass l p then 0 else if l.unready_since == 0 then p.now else l.unready_since)
unfolding pass disabled
pass-since l p = elim (Bool-cases p.supervised) [
  | inl on ↦ rw on (act-since (seen l p) p ∙ seen-since l p)
  | inr off ↦ rw off refl
]

Timed-pass :
    {l : Loop} {time ready : ℕ} (p : Pass)
    → Timed l time ready
    → time ≤ p.now
    → Timed (pass l p).0 p.now (if is_ready_pass l p then p.now else ready)
Timed-pass {l} {time} {ready} p t later =
    let since = pass-since l p in
    record {
      ready_past = ground (arith, t.ready_past);
      since_past = ground (arith, since, t.since_past);
      since_ready = ground (arith, since, t.since_ready, t.ready_past);
    }

Runs-Timed : {l : Loop} {time ready : ℕ} → Runs l time ready → Timed l time ready
unfolding initial
Runs-Timed runs-start = record {
  ready_past = omega arith;
  since_past = omega arith;
  since_ready = inl refl;
}
Runs-Timed (runs-pass steps p later small) = Timed-pass p (Runs-Timed steps) later

act-suspend :
    (s : Loop) (p : Pass)
    → (act s p).1 ≡ some Action.suspend
    → (is_ready s p ≡ false)
      × (k_suspend_after ≤ elapsed p.now s.unready_since)
      × (p.rule_present ≡ true)
unfolding act wanted
act-suspend s p e = ground arith

pass-suspend :
    (l : Loop) (p : Pass)
    → (pass l p).1 ≡ some Action.suspend
    → (p.supervised ≡ true) × ((act (seen l p) p).1 ≡ some Action.suspend)
unfolding pass
pass-suspend l p e = elim (Bool-cases p.supervised) [
  | inl on ↦ (on, rw on at e)
  | inr off ↦ let no = rw off at e in absurd (cc)
]

-- The rule is suspended only after 15 seconds in which no pass found a ready dispatcher or supervision
-- off, and only while the owned rule is there. Conditions: the passes follow one another from the
-- start of the loop on, and the clock of 64 bits does not wrap.
pub suspend_late :
    {l : Loop} {time ready : ℕ} (p : Pass)
    → Runs l time ready
    → time ≤ p.now
    → p.now < 2 ^ 64
    → (pass l p).1 ≡ some Action.suspend
    → (ready + k_suspend_after ≤ p.now) × (p.rule_present ≡ true) × (is_ready_pass l p ≡ false)
suspend_late {l} {time} {ready} p steps later small e =
    let (on, acts) = pass-suspend l p e in
    let (unready, late, rule) = act-suspend (seen l p) p acts in
    let t = Runs-Timed steps in
    let not_ready : is_ready (probe (observed l p) p) p ≡ false =
      sym (note_ready-is_ready (probe (observed l p) p) p) ∙ unready in
    let since = seen-since l p in
    let waited : k_suspend_after
        ≤ elapsed p.now (if l.unready_since == 0 then p.now else l.unready_since) =
      (let open_since = rw not_ready at since in rw (sym open_since) late) in
    (ground (arith, t.since_ready, t.since_past, waited), rule, ground (arith, on, not_ready))
