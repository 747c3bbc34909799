-- ===== src/Supervisor/Recounts.antt =====
-- The count of failed probes while a helper is reaped and a dispatcher taken (reapHelper and ensureChild of
-- src/native/dispatcher-supervisor.h).
use wireguard_dns_program_sp.Base.{
  ℕ, ◌≡◌, ◌⊎◌, inl, inr, refl, Bool, true, false, not, ◌&&◌, ◌||◌, none, some, if◌then◌else◌, arith,
  Option-cases,
}
use wireguard_dns_program_sp.Supervisor.{
  Loop, Pass, observed, reap_helper, ensure_child, drop_ended, adopt, start, starts, holds,
  reset_liveness,
}

-- Taking another child, or none, keeps the count or starts it again.
abbrev pub Recount : ℕ → Loop → Loop → Type 0
Recount now l m =
    ((m.child_since ≡ l.child_since) ⊎ (m.child_since ≡ now))
    × ((m.failures ≡ 0)
        ⊎ ((m.failures ≡ l.failures)
            × (m.first_failure ≡ l.first_failure)
            × (m.child_since ≡ l.child_since)))

Recount-refl : (now : ℕ) (l : Loop) → Recount now l l
Recount-refl now l = (inl refl, inr (refl, refl, refl))

Recount-trans : (now : ℕ) (l m n : Loop) → Recount now l m → Recount now m n → Recount now l n
Recount-trans now l m n a b = (ground (arith, a.0, b.0), ground (arith, a.1, b.1))

if-Recount :
    (now : ℕ) (l : Loop) (b : Bool) (m n : Loop)
    → Recount now l m
    → Recount now l n
    → Recount now l (if b then m else n)
if-Recount now l true m n p q = p
if-Recount now l false m n p q = q

adopt-Recount : (l : Loop) (p : Pass) → Recount p.now l (adopt l p)
unfolding adopt
adopt-Recount l p = elim (Option-cases p.adopted) [
  | inl e ↦
      rw e (if-Recount p.now l (holds l.child) l l (Recount-refl p.now l) (Recount-refl p.now l))
  | inr (id, e) ↦ rw e (
      if-Recount p.now l (holds l.child) l
        (reset_liveness (record l { child = some id; child_since = p.now })) (Recount-refl p.now l)
        (inr refl, inl refl))
]

ensure_child-Recount : (l : Loop) (p : Pass) → Recount p.now l (ensure_child l p)
unfolding ensure_child drop_ended start
ensure_child-Recount l p =
    let dropped = drop_ended l p in
    let adopted = adopt dropped p in
    let first : Recount p.now l dropped =
      if-Recount p.now l (holds l.child && not p.child_runs_locked)
        (reset_liveness (record l { child = none })) l (inl refl, inl refl)
        (Recount-refl p.now l) in
    let last : Recount p.now adopted (start adopted p) =
      if-Recount p.now adopted (starts adopted p)
        (reset_liveness
          (record adopted { last_start = p.now; child_since = p.now; child = p.started }))
        adopted (inr refl, inl refl) (Recount-refl p.now adopted) in
    if-Recount p.now l
      ((not (holds l.child) || not p.child_runs) && p.locked && p.supervised_locked)
      (start adopted p) l
      (Recount-trans p.now l dropped (start adopted p) first
        (Recount-trans p.now dropped adopted (start adopted p) (adopt-Recount dropped p) last))
      (Recount-refl p.now l)

reap_helper-Recount : (l : Loop) (p : Pass) → Recount p.now l (reap_helper l p)
unfolding reap_helper
reap_helper-Recount l p = (inl (ground arith), inr (ground arith, ground arith, ground arith))

pub observed-Recount : (l : Loop) (p : Pass) → Recount p.now l (observed l p)
unfolding observed
observed-Recount l p =
    Recount-trans p.now l (reap_helper l p) (observed l p) (reap_helper-Recount l p)
      (ensure_child-Recount (reap_helper l p) p)
