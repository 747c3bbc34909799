-- ===== src/Dns/Hints/Decided.antt =====
-- Evidence for the tunnel that waits for its query, under `take` and `complete` of
-- dns-attribution.h.
use wireguard_dns_program_sp.Base.{
  ℕ, ◌<◌, ◌≡◌, refl, sym, ◌∙◌, ap, Bool, true, false, not, ◌&&◌, ◌||◌, Option, none, some, List,
  ltb, leb, ◌!=◌, arith, Bool-cases, inl, inr, bytes_eq, bytes_eq_sound,
}
use wireguard_dns_program_sp.Dns.Table.{
  lookup, put, erase, lookup-put_self, lookup-put_other, lookup-erase_other,
}
use wireguard_dns_program_sp.Dns.Hints.{
  Hints, Pending, Route, Outcome, expire, decide, decide_found, decide_entry, settle_entry,
  decided_tunnel, to_tunnel, is_some_true, is_tunnel, take_begin, take_end, complete,
  complete_found, complete_entry,
}
use wireguard_dns_program_sp.Dns.Hints.Evidence.{}
use wireguard_dns_program_sp.Dns.Hints.Claims.{Claim, Kept, lookup-Kept, put-found, expire-Kept}

module _ (key : List ℕ) (generation limit : ℕ) where
  -- The decision for the name keeps the claim, and is the tunnel.
  pub decide_entry-Claim :
      (h : Hints) (p : Pending) (now : ℕ) (allow : Bool)
      → now < limit
      → Claim key generation limit p
      → decide_entry h p now allow ≡ (some (decided_tunnel p), to_tunnel)
  unfolding decide_entry
  decide_entry-Claim h p now allow early c =
      let alive : leb p.expires now ≡ false = ground (arith, c.lasts, early) in
      rw (alive, c.unanswered, c.tunnel) refl

  settle_entry-other :
      (h : Hints) (other : List ℕ) (o : Outcome)
      → bytes_eq other key ≡ false
      → Kept key generation limit h
      → Kept key generation limit (settle_entry h other o).0
  settle_entry-other h other (none, r) apart c =
      lookup-Kept key generation limit h (record h { hints = erase other h.hints }) c refl
        (c.entry, lookup-erase_other key other h.hints apart ∙ c.found, c.claim)
  settle_entry-other h other (some p, r) apart c =
      lookup-Kept key generation limit h (record h { hints = put other p h.hints }) c refl
        (c.entry, lookup-put_other key other p h.hints apart ∙ c.found, c.claim)

  settle_entry-claimed :
      (h : Hints) (other : List ℕ) (p : Pending) (r : Route)
      → Claim key generation limit p
      → Kept key generation limit h
      → Kept key generation limit (settle_entry h other (some (decided_tunnel p), r)).0
  settle_entry-claimed h other p r claim c =
      lookup-Kept key generation limit h (record h { hints = put other (decided_tunnel p) h.hints })
        c refl
        (put-found key generation limit h other (decided_tunnel p) c (λ same. record {
          tunnel = claim.tunnel;
          unanswered = claim.unanswered;
          lasts = claim.lasts;
          late = claim.late;
        }))

  decide_found-Kept :
      (h : Hints) (other : List ℕ) (now : ℕ) (allow : Bool) (o : Option Pending)
      → lookup other h.hints ≡ o
      → now < limit
      → Kept key generation limit h
      → Kept key generation limit (decide_found h other now allow o).0
  unfolding decide_found
  decide_found-Kept h other now allow none e early c = c
  decide_found-Kept h other now allow (some p) e early c = elim (Bool-cases (bytes_eq other key)) [
    | inl same ↦
        let found : lookup key h.hints ≡ some p =
          ap (λ (k : List ℕ). lookup k h.hints) (sym (bytes_eq_sound other key same)) ∙ e in
        let here : c.entry ≡ p = (let both = sym c.found ∙ found in cc) in
        let claim : Claim key generation limit p = rw here at c.claim in
        rw (decide_entry-Claim h p now allow early claim)
          (settle_entry-claimed h other p to_tunnel claim c)
    | inr apart ↦ settle_entry-other h other (decide_entry h p now allow) apart c
  ]

  decide-Kept :
      (h : Hints) (other : List ℕ) (now : ℕ) (allow : Bool)
      → now < limit
      → Kept key generation limit h
      → Kept key generation limit (decide h other now allow).0
  unfolding decide
  decide-Kept h other now allow early c =
      decide_found-Kept (expire h now) other now allow (lookup other (expire h now).hints) refl
        early (expire-Kept key generation limit h now early c)

  pub take-Kept :
      (h : Hints) (other : List ℕ) (asked now : ℕ) (passed : Bool)
      → now < limit
      → Kept key generation limit h
      → Kept key generation limit (take_begin h other asked now).0
        × Kept key generation limit (take_end h other asked now passed).0
  unfolding take_begin take_end
  take-Kept h other asked now passed early c = (
    elim (Bool-cases (ltb asked h.overloaded_until)) [
      | inl refused ↦ rw refused c
      | inr open_now ↦ elim (Bool-cases (is_some_true (decide h other now false).1.route)) [
        | inl at_once ↦ rw (open_now, at_once) (decide-Kept h other now false early c)
        | inr waits ↦ rw (open_now, waits) (decide-Kept h other now false early c)
      ]
    ],
    elim (Bool-cases (not passed || ltb asked h.overloaded_until)) [
      | inl refused ↦ rw refused c
      | inr open_now ↦ rw open_now (decide-Kept h other now true early c)
    ],
  )

  pub complete-other :
      (h : Hints) (other : List ℕ) (now : ℕ) (latest : Option ℕ) (o : Option Pending)
      → bytes_eq other key ≡ false
      → Kept key generation limit h
      → Kept key generation limit (complete_found h other now latest o)
  unfolding complete_found
  complete-other h other now latest none apart c = c
  complete-other h other now latest (some p) apart c =
      let p' = complete_entry h.reuse_window p now latest in
      settle_entry-other h other (some p', to_tunnel) apart c

  -- An answer to what was decided before leaves the claim.
  complete_entry-Claim :
      (reuse_window : ℕ) (p : Pending) (now earlier : ℕ)
      → earlier < generation
      → Claim key generation limit p
      → Claim key generation limit (complete_entry reuse_window p now (some earlier))
  unfolding complete_entry
  complete_entry-Claim reuse_window p now earlier before c =
      let stale : (earlier != p.generation) ≡ true = ground (arith, before, c.late) in
      elim (Bool-cases (is_tunnel p.decision && p.selected)) [
        | inl selected ↦
            rw (stale, selected)
              (record {
                tunnel = c.tunnel;
                unanswered = c.unanswered;
                lasts = omega (arith, c.lasts);
                late = c.late;
              })
        | inr other ↦ rw (stale, other) c
      ]

  pub complete-earlier :
      (h : Hints) (now earlier : ℕ)
      → earlier < generation
      → Kept key generation limit h
      → Kept key generation limit (complete h key now (some earlier))
  unfolding complete complete_found
  complete-earlier h now earlier before c =
      let p' = complete_entry h.reuse_window c.entry now (some earlier) in
      rw c.found (
        lookup-Kept key generation limit h (record h { hints = put key p' h.hints }) c refl
          (
            p',
            lookup-put_self key p' h.hints,
            complete_entry-Claim h.reuse_window c.entry now earlier before c.claim,
          ))
