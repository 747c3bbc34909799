-- ===== src/Dns/Hints/Steps.antt =====
-- The operations that threads carry out on `Hints` of dns-attribution.h, one after the other under its lock.
use wireguard_dns_program_sp.Base.{ℕ, ◌<◌, ◌≡◌, Bool, false, Option, some, List, bytes_eq}
use wireguard_dns_program_sp.Dns.Table.{}
use wireguard_dns_program_sp.Dns.Hints.{
  Hints, take_begin, take_end, lost_events, add_resolved, sentinel_processed, flush_checked,
  barrier_start, complete,
}
use wireguard_dns_program_sp.Dns.Hints.Evidence.{}

module _ (key : List ℕ) (generation limit : ℕ) where
  -- One operation of any thread before a time. Nothing that was taken from the generation on is completed for the name.
  pub data Step : Hints → Hints → Type 0 where
    step-event :
        (h : Hints) (other : List ℕ) (size : ℕ) (known selected : Bool) (now : ℕ)
        → now < limit
        → Step h (add_resolved h other size known selected now).0
    step-lost : (h : Hints) (now : ℕ) → now < limit → Step h (lost_events h now)
    step-sentinel : (h : Hints) (sequence : ℕ) → Step h (sentinel_processed h sequence)
    step-flush : (h : Hints) (sequence : ℕ) → Step h (flush_checked h sequence)
    step-barrier : (h : Hints) → Step h (barrier_start h).0
    step-begin :
        (h : Hints) (other : List ℕ) (asked now : ℕ)
        → now < limit
        → Step h (take_begin h other asked now).0
    step-end :
        (h : Hints) (other : List ℕ) (asked now : ℕ) (passed : Bool)
        → now < limit
        → Step h (take_end h other asked now passed).0
    step-other :
        (h : Hints) (other : List ℕ) (now : ℕ) (latest : Option ℕ)
        → bytes_eq other key ≡ false
        → Step h (complete h other now latest)
    step-earlier :
        (h : Hints) (now earlier : ℕ)
        → earlier < generation
        → Step h (complete h key now (some earlier))

  pub data Steps : Hints → Hints → Type 0 where
    steps-none : {h : Hints} → Steps h h
    steps-more : {h m t : Hints} → Steps h m → Step m t → Steps h t
