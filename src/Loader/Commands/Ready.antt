-- ===== src/Loader/Commands/Ready.antt =====
-- A guard whose update was cut off is never ready again: bpf-loader.cpp, guard-slot and state.
use wireguard_dns_program_sp.Base.{
  ◌≡◌, ◌+◌, ◌-◌, ◌^◌, ◌%◌, ◌/◌, ◌==◌, refl, sym, ap, ◌∙◌, Bool, true, false, not, ◌&&◌, ◌||◌, none,
  some, Bool-cases, Option-cases, inl, inr, arith, some_same, if_some, ltb,
}
use mathlib.Core.Path.{subst}
use wireguard_dns_program_sp.Loader.Commands.{
  Guarded, is_odd, begin_update, finish_update, guard_slot, guard_slot_killed, set_state,
  set_settled,
}

module _ {Roles : Type 0} where
  -- What commands, each of which may also be killed or refused, and drains make of a guard: the states after it.
  pub data After (s : Guarded Roles) : Guarded Roles → Type 0 where
    after-nothing : After s s
    after-slot :
        {t t' : Guarded Roles} (add : Roles → Roles)
        → After s t
        → guard_slot add t ≡ some t'
        → After s t'
    after-killed :
        {t t' : Guarded Roles} (add : Roles → Roles)
        → After s t
        → guard_slot_killed add t ≡ some t'
        → After s t'
    after-state :
        {t t' : Guarded Roles} (ready preflight : Bool)
        → After s t
        → set_state ready preflight t ≡ some t'
        → After s t'
    after-settled : {t : Guarded Roles} → After s t → After s (set_settled t)

  -- A guard that an update has left: blocked, with an odd word and what was enrolled so far.
  abbrev IsCutOff : Roles → Guarded Roles → Type 0
  IsCutOff roles s = (s.ready ≡ false) × (is_odd s.epoch ≡ true) × (s.roles ≡ roles)

  begin_update-odd : (s : Guarded Roles) → is_odd s.epoch ≡ true → begin_update s ≡ none
  unfolding begin_update
  begin_update-odd s odd =
      let refused : (s.ready || is_odd s.epoch || ltb (2 ^ 64 - 1 - 2) s.epoch) ≡ true =
        ground (arith, odd) in
      rw refused refl

  begin_update-IsCutOff :
      (s : Guarded Roles) {s' : Guarded Roles} → begin_update s ≡ some s' → IsCutOff s.roles s'
  unfolding begin_update
  begin_update-IsCutOff s h =
      elim (if_some (s.ready || is_odd s.epoch || ltb (2 ^ 64 - 1 - 2) s.epoch) h) [
        | inl (c, e) ↦ absurd (cc)
        | inr (c, e) ↦
            let odd : is_odd ((s.epoch + 1) % 2 ^ 64) ≡ true = ground (arith, c) in
            subst (λ (x : Guarded Roles). IsCutOff s.roles x) (some_same e)
              (ground (arith, c), odd, refl)
      ]

  guard_slot_killed-IsCutOff :
      (add : Roles → Roles) (s : Guarded Roles) {s' : Guarded Roles}
      → guard_slot_killed add s ≡ some s'
      → IsCutOff s'.roles s'
  unfolding guard_slot_killed
  guard_slot_killed-IsCutOff add s {s'} h = elim (Option-cases (begin_update s)) [
    | inl e ↦ absurd (let no = rw e at h in cc)
    | inr (b, e) ↦
        let (off, odd, same) = begin_update-IsCutOff s e in
        subst (λ (x : Guarded Roles). IsCutOff x.roles x) (some_same (rw e at h)) (off, odd, refl)
  ]

  set_state-IsCutOff :
      (roles : Roles) (ready preflight : Bool) (t : Guarded Roles) {t' : Guarded Roles}
      → IsCutOff roles t
      → set_state ready preflight t ≡ some t'
      → IsCutOff roles t'
  unfolding set_state
  set_state-IsCutOff roles ready preflight t (off, odd, same) h =
      elim (if_some (ready && (is_odd t.epoch || not preflight)) h) [
        | inl (c, e) ↦ absurd (cc)
        | inr (c, e) ↦
            subst (λ (x : Guarded Roles). IsCutOff roles x) (some_same e)
              (ground (arith, c, odd), odd, same)
      ]

  set_settled-is_odd : (s : Guarded Roles) → is_odd (set_settled s).epoch ≡ is_odd s.epoch
  unfolding set_settled
  set_settled-is_odd s = elim (Bool-cases (s.epoch / 2 ^ 62 % 2 == 1)) [
    | inl e ↦ rw e refl
    | inr e ↦ rw e (ground arith)
  ]

  After-IsCutOff :
      (roles : Roles) {s t : Guarded Roles} → IsCutOff roles s → After s t → IsCutOff roles t
  unfolding guard_slot guard_slot_killed set_settled
  After-IsCutOff roles c after-nothing = c
  After-IsCutOff roles c (after-slot {t} add r h) =
      let (off, odd, same) = After-IsCutOff roles c r in
      absurd (let no = rw (begin_update-odd t odd) at h in cc)
  After-IsCutOff roles c (after-killed {t} add r h) =
      let (off, odd, same) = After-IsCutOff roles c r in
      absurd (let no = rw (begin_update-odd t odd) at h in cc)
  After-IsCutOff roles c (after-state {t} ready preflight r h) =
      set_state-IsCutOff roles ready preflight t (After-IsCutOff roles c r) h
  After-IsCutOff roles c (after-settled {t} r) =
      let (off, odd, same) = After-IsCutOff roles c r in (off, set_settled-is_odd t ∙ odd, same)

  -- Once guard-slot was killed between its two changes of the word, in every state that any commands
  -- guard-slot and state, also killed ones, and drains lead to: the guard is blocked, what is enrolled is what the killed
  -- command left, no update is taken, and the guard is not made ready.
  pub guard_slot_killed-blocked :
      (s : Guarded Roles) {s' t : Guarded Roles} (add add' : Roles → Roles) (preflight : Bool)
      → guard_slot_killed add s ≡ some s'
      → After s' t
      → ((t.ready ≡ false) × (t.roles ≡ s'.roles))
        × (guard_slot add' t ≡ none)
        × (set_state true preflight t ≡ none)
  unfolding guard_slot set_state
  guard_slot_killed-blocked s {s'} {t} add add' preflight h r =
      let (off, odd, same) = After-IsCutOff s'.roles (guard_slot_killed-IsCutOff add s h) r in
      let unready : (true && (is_odd t.epoch || not preflight)) ≡ true = ground (arith, odd) in
      ((off, same), rw (begin_update-odd t odd) refl, rw unready refl)

  -- An update that ends leaves a word that is larger by two, so that no label of before is current.
  guard_slot-advances :
      (add : Roles → Roles) (s : Guarded Roles) {s' : Guarded Roles}
      → guard_slot add s ≡ some s'
      → (s'.epoch ≡ s.epoch + 2) × (is_odd s'.epoch ≡ false)
  unfolding guard_slot begin_update finish_update
  guard_slot-advances add s {s'} h =
      elim (Bool-cases (s.ready || is_odd s.epoch || ltb (2 ^ 64 - 1 - 2) s.epoch)) [
        | inl c ↦ absurd (cc)
        | inr c ↦
            let word : ((s.epoch + 1) % 2 ^ 64 + 1) % 2 ^ 64 ≡ s'.epoch =
              ap (λ (x : Guarded Roles). x.epoch) (some_same (rw c at h)) in
            let plain : ((s.epoch + 1) % 2 ^ 64 + 1) % 2 ^ 64 ≡ s.epoch + 2 = ground (arith, c) in
            (sym word ∙ plain, ground (arith, c, word, plain))
      ]
