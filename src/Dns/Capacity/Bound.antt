-- ===== src/Dns/Capacity/Bound.antt =====
-- The counter of src/native/dns-capacity.h is the number of leases held, and never above the maximum.
use wireguard_dns_program_sp.Base.{
  ℕ, zero, suc, ◌+◌, ◌^◌, ◌≤◌, ◌<◌, ◌≡◌, inl, inr, refl, Bool, List, [], ◌∷◌, ltb, get_or, set,
  replicate, arith, length, ap, Bool-cases, ◌∙◌, sym,
}
use wireguard_dns_program_sp.Dns.Capacity.{
  Lease, Exchanges, outside, reading, lease_step, idle, step_at, run_schedule,
}

unfoldable pub held : Lease → ℕ
held Lease.outside = 0
held (Lease.reading seen) = 0
held Lease.allowed = 1
held Lease.refused = 0

unfoldable pub holders : List Lease → ℕ
unfolding held
holders [] = 0
holders (x ∷ xs) = held x + holders xs

-- Replacing one lease.
holders-set :
    (xs : List Lease) (i : ℕ) (v : Lease)
    → i < length xs
    → holders (set xs i v) + held (get_or xs i outside) ≡ holders xs + held v
unfolding holders
holders-set [] i v h = absurd (omega arith)
holders-set (x ∷ xs) zero v h = omega arith
holders-set (x ∷ xs) (suc i) v h = omega (arith, holders-set xs i v (omega arith))

-- A thread that is not there.
nobody : (xs : List Lease) (i : ℕ) → length xs ≤ i → get_or xs i outside ≡ outside
nobody [] i h = refl
nobody (x ∷ xs) zero h = absurd (omega arith)
nobody (x ∷ xs) (suc i) h = nobody xs i (omega arith)

set-nobody : (xs : List Lease) (i : ℕ) (v : Lease) → length xs ≤ i → set xs i v ≡ xs
set-nobody [] i v h = refl
set-nobody (x ∷ xs) zero v h = absurd (omega arith)
set-nobody (x ∷ xs) (suc i) v h = ap (λ r. x ∷ r) (set-nobody xs i v (omega arith))

pub record Counts (maximum : ℕ) (s : Exchanges) : Type 0 where
  pub exact : s.active ≡ holders s.leases
  pub bound : s.active ≤ maximum

-- One step of a lease moves the counter by what the lease holds.
lease_step-held :
    (maximum : ℕ) (spurious : Bool) (active : ℕ) (lease : Lease)
    → maximum < 2 ^ 32
    → active ≤ maximum
    → held lease ≤ active
    → let after = lease_step maximum spurious active lease in
      (after.0 + held lease ≡ active + held after.1) × (after.0 ≤ maximum)
unfolding lease_step held
lease_step-held maximum spurious active Lease.outside m a h = (refl, a)
lease_step-held maximum spurious active (Lease.reading seen) m a h = ground arith
lease_step-held maximum spurious active Lease.allowed m a h = (omega arith, omega arith)
lease_step-held maximum spurious active Lease.refused m a h = (refl, a)

held-holders : (xs : List Lease) (i : ℕ) → i < length xs → held (get_or xs i outside) ≤ holders xs
unfolding held
held-holders xs i h = omega (arith, holders-set xs i outside h)

step_at-Counts :
    (maximum thread : ℕ) (spurious : Bool) (s : Exchanges)
    → maximum < 2 ^ 32
    → Counts maximum s
    → Counts maximum (step_at maximum thread spurious s)
unfolding step_at
step_at-Counts maximum thread spurious s m w =
    let old = get_or s.leases thread outside in
    let after = lease_step maximum spurious s.active old in
    elim (Bool-cases (ltb thread (length s.leases))) [
      | inl there ↦
          let inside : thread < length s.leases = ground arith in
          let some_held = held-holders s.leases thread inside in
          let (moved, bound) =
            lease_step-held maximum spurious s.active old m w.bound (omega (arith, w.exact)) in
          let count = holders-set s.leases thread after.1 inside in
          record { exact = omega (arith, w.exact); bound = bound }
      | inr gone ↦
          let none_e = nobody s.leases thread (ground arith) in
          let same = set-nobody s.leases thread (reading s.active) (ground arith) in
          rw none_e (record { exact = w.exact ∙ ap holders (sym same); bound = w.bound })
    ]

run_schedule-Counts :
    (maximum : ℕ) (schedule : List (ℕ × Bool)) (s : Exchanges)
    → maximum < 2 ^ 32
    → Counts maximum s
    → Counts maximum (run_schedule maximum schedule s)
unfolding run_schedule
run_schedule-Counts maximum [] s m w = w
run_schedule-Counts maximum ((thread, spurious) ∷ rest) s m w =
    run_schedule-Counts maximum rest (step_at maximum thread spurious s) m
      (step_at-Counts maximum thread spurious s m w)

idle-holders : (threads : ℕ) → holders (replicate threads outside) ≡ 0
unfolding holders held
idle-holders zero = refl
idle-holders (suc n) = omega (arith, idle-holders n)

-- After any interleaving of any number of threads, with exchanges that fail for no reason at any
-- point: the counter is the number of the leases that are held, and at most the maximum.
-- Condition: the maximum is an unsigned int.
pub exchanges_bounded :
    (maximum threads : ℕ) (schedule : List (ℕ × Bool))
    → maximum < 2 ^ 32
    → let s = run_schedule maximum schedule (idle threads) in
      (s.active ≡ holders s.leases) × (s.active ≤ maximum)
unfolding idle
exchanges_bounded maximum threads schedule m =
    let w =
      run_schedule-Counts maximum schedule (idle threads) m
        (record { exact = sym (idle-holders threads); bound = omega arith }) in
    (w.exact, w.bound)
