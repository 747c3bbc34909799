-- ===== src/Dns/Capacity.antt =====
-- `ExchangeLimit` of src/native/dns-capacity.h: leases of concurrent threads over one atomic counter,
-- an unsigned int. Each step is one atomic access or the destructor. A lease without a limit, which is
-- allowed at once, is not modelled.
pub mod Bound
use wireguard_dns_program_sp.Base.{
  ℕ, zero, suc, ◌+◌, ◌-◌, ◌%◌, ◌^◌, Bool, true, false, not, ◌&&◌, List, [], ◌∷◌, ltb, ◌==◌,
  if◌then◌else◌, get_or, set, replicate,
}

-- A thread outside the scope of its lease, in the loop with the value it read, or with the answer.
pub data Lease : Type 0 where
  outside : Lease
  reading : ℕ → Lease
  allowed : Lease
  refused : Lease

-- A step of a thread at the counter: the first load, a round of the loop (the weak exchange may fail
-- for no reason; a failed one reads the counter again), and the destructor.
unfoldable pub lease_step : ℕ → Bool → ℕ → Lease → ℕ × Lease
lease_step maximum spurious active Lease.outside = (active, reading active)
lease_step maximum spurious active (Lease.reading seen) =
    if ltb seen maximum
    then (if seen == active && not spurious
        then ((seen + 1) % 2 ^ 32, allowed)
        else (active, reading active))
    else (active, refused)
lease_step maximum spurious active Lease.allowed = ((active + 2 ^ 32 - 1) % 2 ^ 32, outside)
lease_step maximum spurious active Lease.refused = (active, outside)

pub record Exchanges : Type 0 where
  pub active : ℕ
  pub leases : List Lease

unfoldable pub idle : ℕ → Exchanges
idle threads = record { active = 0; leases = replicate threads outside }

unfoldable pub step_at : ℕ → ℕ → Bool → Exchanges → Exchanges
unfolding lease_step
step_at maximum thread spurious s =
    let (active, lease) = lease_step maximum spurious s.active (get_or s.leases thread outside) in
    record { active = active; leases = set s.leases thread lease }

-- An interleaving: which thread steps, and whether its exchange fails for no reason.
unfoldable pub run_schedule : ℕ → List (ℕ × Bool) → Exchanges → Exchanges
run_schedule maximum [] s = s
run_schedule maximum ((thread, spurious) ∷ rest) s =
    run_schedule maximum rest (step_at maximum thread spurious s)
