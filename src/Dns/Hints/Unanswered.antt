-- ===== src/Dns/Hints/Unanswered.antt =====
-- What an event of a selected application means while other threads go on (`addResolved`, `take`,
-- `directAnswerUnsafe` and `complete` of dns-attribution.h).
use wireguard_dns_program_sp.Base.{
  ℕ, ◌+◌, ◌<◌, ◌≡◌, refl, Bool, true, ◌&&◌, ◌||◌, some, List, ltb, leb, arith, Bool-cases, inl, inr,
  length,
}
use wireguard_dns_program_sp.Dns.Table.{lookup, lookup-put_self}
use wireguard_dns_program_sp.Dns.Hints.{
  Hints, expire, decide, decide_found, lifetime, add_resolved, add_evidence, is_none, max_hints,
  sentinel_processed, flush_checked, barrier_start, direct_answer_unsafe, entry_unsafe, complete,
}
use wireguard_dns_program_sp.Dns.Hints.Evidence.{event_entry, entry_for_event-open}
use wireguard_dns_program_sp.Dns.Hints.Steps.{
  Step, Steps, step-event, step-lost, step-sentinel, step-flush, step-barrier, step-begin, step-end,
  step-other, step-earlier, steps-none, steps-more,
}
use wireguard_dns_program_sp.Dns.Hints.Claims.{
  Kept, expire-Kept, same-Kept, add_resolved-Kept, lost_events-Kept,
}
use wireguard_dns_program_sp.Dns.Hints.Decided.{
  decide_entry-Claim, take-Kept, complete-other, complete-earlier,
}

module _ (key : List ℕ) (generation limit : ℕ) where
  Step-Kept :
      {h t : Hints}
      → Step key generation limit h t
      → Kept key generation limit h
      → Kept key generation limit t
  unfolding sentinel_processed flush_checked barrier_start complete
  Step-Kept (step-event h other size known selected now early) c =
      add_resolved-Kept key generation limit h other size known selected now early c
  Step-Kept (step-lost h now early) c = lost_events-Kept key generation limit h now c
  Step-Kept (step-sentinel h sequence) c =
      same-Kept key generation limit h (sentinel_processed h sequence) c refl refl
  Step-Kept (step-flush h sequence) c =
      same-Kept key generation limit h (flush_checked h sequence) c refl refl
  Step-Kept (step-barrier h) c = same-Kept key generation limit h (barrier_start h).0 c refl refl
  Step-Kept (step-begin h other asked now early) c =
      (take-Kept key generation limit h other asked now true early c).0
  Step-Kept (step-end h other asked now passed early) c =
      (take-Kept key generation limit h other asked now passed early c).1
  Step-Kept (step-other h other now latest apart) c =
      complete-other key generation limit h other now latest (lookup other h.hints) apart c
  Step-Kept (step-earlier h now earlier before) c =
      complete-earlier key generation limit h now earlier before c

  Steps-Kept :
      {h t : Hints}
      → Steps key generation limit h t
      → Kept key generation limit h
      → Kept key generation limit t
  Steps-Kept steps-none c = c
  Steps-Kept (steps-more steps step) c = Step-Kept step (Steps-Kept steps c)

  -- What the claim means for a query and for the answer to one that went direct before.
  Kept-tunnel :
      (h : Hints) (now : ℕ) (allow passed : Bool)
      → now < limit
      → Kept key generation limit h
      → ((decide h key now allow).1.route ≡ some true)
        × (direct_answer_unsafe h key now passed ≡ true)
  unfolding decide decide_found direct_answer_unsafe entry_unsafe
  Kept-tunnel h now allow passed early c =
      let swept = expire-Kept key generation limit h now early c in
      (
        rw
            (
              swept.found,
              decide_entry-Claim key generation limit (expire h now) swept.entry now allow early
                  swept.claim,
            )
            refl,
        rw (c.found, c.claim.tunnel) (ground arith),
      )

event-Kept :
    (h : Hints) (key : List ℕ) (size at : ℕ)
    → (add_resolved h key size true true at).1 ≡ true
    → let after = (add_resolved h key size true true at).0 in
      Kept key after.generations (at + lifetime) after
unfolding add_resolved
event-Kept h key size at kept =
    let swept = expire h at in
    let p = event_entry h key true true at in
    elim (Bool-cases
      (ltb 253 size || leb max_hints (length swept.hints) && is_none (lookup key swept.hints))) [
        | inl refused ↦ absurd (let no = rw refused at kept in cc)
        | inr room ↦ rw room (record {
          entry = p;
          found = lookup-put_self key p swept.hints;
          claim = record {
            tunnel = unfold add_evidence in ground arith;
            unanswered =
                unfold add_evidence in
                entry_for_event-open swept.reuse_window (lookup key swept.hints) at;
            lasts = unfold add_evidence in omega arith;
            late = unfold add_evidence in omega arith;
          };
          counted = omega arith;
        })
      ]

-- After a kept event of a selected application, for the attribution lifetime, every decision for its name is the tunnel
-- and an answer to a query for it that went direct is withheld, whatever events, losses, barriers, decisions for any
-- name, and completions come between. Condition: the completions are of other names, or of queries for this one that
-- were decided on a generation before the event's.
pub add_resolved-tunnel :
    {t : Hints} (h : Hints) (key : List ℕ) (size at now : ℕ) (allow passed : Bool)
    → (add_resolved h key size true true at).1 ≡ true
    → let after = (add_resolved h key size true true at).0 in
      Steps key after.generations (at + lifetime) after t
      → now < at + lifetime
      → ((decide t key now allow).1.route ≡ some true)
        × (direct_answer_unsafe t key now passed ≡ true)
add_resolved-tunnel {t} h key size at now allow passed kept steps early =
    let after = (add_resolved h key size true true at).0 in
    Kept-tunnel key after.generations (at + lifetime) t now allow passed early
      (Steps-Kept key after.generations (at + lifetime) steps (event-Kept h key size at kept))
