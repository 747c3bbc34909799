-- ===== src/Dispatcher/Resolvers/Primary.antt =====
-- The first-listed resolver is asked first again when its re-probe time has come, however often the
-- stand-in answered since.
use wireguard_dns_program_sp.Base.{ℕ, ◌+◌, ◌≤◌, ◌≡◌, refl, Bool, get_or, if◌then◌else◌, arith}
use wireguard_dns_program_sp.Dispatcher.Resolvers.{
  DirectResolvers, order, first_asked, answered, reset,
}

abbrev pub new_resolvers : ℕ → DirectResolvers
new_resolvers prefer_for = record { prefer_for = prefer_for; preferred = 0; probe_primary_at = 0 }

-- What the queries of all threads make of the state, in the order of its lock: after which an answer
-- came last in a query in which the first-listed resolver had been asked in vain, or never (0).
pub data Answers : ℕ → DirectResolvers → ℕ → ℕ → Type 0 where
  answers-start : {prefer_for : ℕ} → Answers prefer_for (new_resolvers prefer_for) 0 0
  answers-answered :
      {prefer_for : ℕ} {state : DirectResolvers} {time failed : ℕ}
      → Answers prefer_for state time failed
      → (now index : ℕ) (primary_failed : Bool) → time ≤ now
      → Answers prefer_for
          (answered state now index primary_failed)
          now
          (if primary_failed then now else failed)
  answers-reset :
      {prefer_for : ℕ} {state : DirectResolvers} {time failed : ℕ}
      → Answers prefer_for state time failed
      → Answers prefer_for (reset state) time failed

abbrev ProbeBound : ℕ → DirectResolvers → ℕ → Type 0
ProbeBound prefer_for state failed =
    (state.prefer_for ≡ prefer_for) × (state.probe_primary_at ≤ failed + prefer_for)

Answers-failed : {p : ℕ} {s : DirectResolvers} {t f : ℕ} → Answers p s t f → f ≤ t
Answers-failed answers-start = omega arith
Answers-failed (answers-answered before now index primary_failed h) =
    ground (arith, Answers-failed before)
Answers-failed (answers-reset before) = Answers-failed before

answered-ProbeBound :
    (prefer_for : ℕ) (state : DirectResolvers) (failed now index : ℕ) (primary_failed : Bool)
    → failed ≤ now
    → ProbeBound prefer_for state failed
    → ProbeBound prefer_for
        (answered state now index primary_failed)
        (if primary_failed then now else failed)
unfolding answered
answered-ProbeBound prefer_for state failed now index primary_failed h b = ground arith

Answers-ProbeBound : {p : ℕ} {s : DirectResolvers} {t f : ℕ} → Answers p s t f → ProbeBound p s f
Answers-ProbeBound answers-start = (refl, omega arith)
Answers-ProbeBound
      (answers-answered {prefer_for} {state} {time} {failed} before now index primary_failed h) =
    answered-ProbeBound prefer_for state failed now index primary_failed
      (omega (arith, Answers-failed before)) (Answers-ProbeBound before)
Answers-ProbeBound (answers-reset before) = ((Answers-ProbeBound before).0, omega arith)

-- After any answers and resets, a query asks the first-listed resolver first once the preference time
-- has passed since an answer that came last in a query in which that resolver had failed.
pub order-primary :
    {prefer_for : ℕ} {state : DirectResolvers} {time failed : ℕ}
    → Answers prefer_for state time failed
    → (now count : ℕ) → failed + prefer_for ≤ now
    → get_or (order state now count) 0 count ≡ 0
unfolding order first_asked
order-primary a now count h = ground (arith, (Answers-ProbeBound a).1)
