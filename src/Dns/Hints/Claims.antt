-- ===== src/Dns/Hints/Claims.antt =====
-- Evidence for the tunnel that waits for its query, under `addResolved` and `lostEvents` of
-- dns-attribution.h.
use wireguard_dns_program_sp.Base.{
  ℕ, ◌<◌, ◌≤◌, ◌≡◌, refl, ◌∙◌, ap, Bool, true, false, not, ◌&&◌, ◌||◌, some, List, ltb, leb, arith,
  Bool-cases, inl, inr, length, bytes_eq, bytes_eq_sound,
}
use wireguard_dns_program_sp.Dns.Table.{
  lookup, put, lookup-put_self, lookup-put_other, lookup-erase_if,
}
use wireguard_dns_program_sp.Dns.Hints.{
  Hints, Pending, expire, lost_events, add_resolved, add_evidence, entry_for_event, is_none,
  max_hints,
}
use wireguard_dns_program_sp.Dns.Hints.Evidence.{event_entry, lookup-expire}

module _ (key : List ℕ) (generation limit : ℕ) where
  -- The evidence that is to be decided on.
  pub record Claim (p : Pending) : Type 0 where
    pub tunnel : p.tunnel ≡ true
    pub unanswered : p.answered ≡ false
    pub lasts : limit ≤ p.expires
    pub late : generation ≤ p.generation

  -- The name has such an entry, and each later event has a later generation.
  pub record Kept (h : Hints) : Type 0 where
    pub entry : Pending
    pub found : lookup key h.hints ≡ some entry
    pub claim : Claim entry
    pub counted : generation ≤ h.generations

  expire-generations : (h : Hints) (now : ℕ) → (expire h now).generations ≡ h.generations
  unfolding expire
  expire-generations h now = ground arith

  pub expire-Kept : (h : Hints) (now : ℕ) → now < limit → Kept h → Kept (expire h now)
  expire-Kept h now early c = record {
    entry = c.entry;
    found = lookup-expire h key now c.found (omega (arith, early, c.claim.lasts));
    claim = c.claim;
    counted = omega (arith, expire-generations h now, c.counted);
  }

  -- A table with another entry for some name, which still claims the tunnel where that name is this one.
  pub put-found :
      (h : Hints) (other : List ℕ) (p : Pending)
      → Kept h
      → (bytes_eq other key ≡ true → Claim p)
      → (q : Pending) × (lookup key (put other p h.hints) ≡ some q) × Claim q
  put-found h other p c same = elim (Bool-cases (bytes_eq other key)) [
    | inl e ↦ (
      p,
      ap (λ (k : List ℕ). lookup key (put k p h.hints)) (bytes_eq_sound other key e)
          ∙ lookup-put_self key p h.hints,
      same e,
    )
    | inr e ↦ (c.entry, lookup-put_other key other p h.hints e ∙ c.found, c.claim)
  ]

  -- The table changed and nothing else that counts here.
  pub lookup-Kept :
      (h t : Hints)
      → Kept h
      → t.generations ≡ h.generations
      → ((q : Pending) × (lookup key t.hints ≡ some q) × Claim q)
      → Kept t
  lookup-Kept h t c same (q, found, claim) = record {
    entry = q;
    found = found;
    claim = claim;
    counted = omega (arith, same, c.counted);
  }

  pub same-Kept :
      (h t : Hints) → Kept h → t.generations ≡ h.generations → t.hints ≡ h.hints → Kept t
  same-Kept h t c same table =
      lookup-Kept h t c same (c.entry, ap (lookup key) table ∙ c.found, c.claim)

  event-Claim :
      (h : Hints) (known selected : Bool) (now : ℕ)
      → now < limit
      → (c : Kept h) → Claim (event_entry h key known selected now)
  unfolding add_evidence entry_for_event
  event-Claim h known selected now early c =
      let swept = expire-Kept h now early c in
      let p = swept.entry in
      rw swept.found (record {
        tunnel =
            ground (arith, swept.claim.tunnel, swept.claim.unanswered, swept.claim.lasts, early);
        unanswered =
            ground (arith, swept.claim.tunnel, swept.claim.unanswered, swept.claim.lasts, early);
        lasts = ground (arith, swept.claim.unanswered, swept.claim.lasts, early);
        late = ground (arith, swept.counted);
      })

  pub add_resolved-Kept :
      (h : Hints) (other : List ℕ) (size : ℕ) (known selected : Bool) (now : ℕ)
      → now < limit
      → Kept h
      → Kept (add_resolved h other size known selected now).0
  unfolding add_resolved
  add_resolved-Kept h other size known selected now early c =
      let swept = expire h now in
      let kept = expire-Kept h now early c in
      let p = event_entry h other known selected now in
      let table =
        put-found swept other p kept
          (λ same. rw (bytes_eq_sound other key same) (event-Claim h known selected now early c)) in
      elim (Bool-cases (
        ltb 253 size || leb max_hints (length swept.hints) && is_none (lookup other swept.hints))) [
          | inl refused ↦ rw refused (record {
            entry = kept.entry;
            found = kept.found;
            claim = kept.claim;
            counted = kept.counted;
          })
          | inr room ↦ rw room (record {
            entry = table.0;
            found = table.1;
            claim = table.2;
            counted = omega (arith, kept.counted);
          })
        ]

  pub lost_events-Kept : (h : Hints) (now : ℕ) → Kept h → Kept (lost_events h now)
  unfolding lost_events
  lost_events-Kept h now c = lookup-Kept h (lost_events h now) c refl (
    c.entry,
    lookup-erase_if (λ q. not q.tunnel && leb q.unknown_until now) key h.hints c.found
        (ground (arith, c.claim.tunnel)),
    c.claim,
  )
