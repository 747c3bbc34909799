-- ===== src/Dns/Hints/Ops.antt =====
-- Every operation of dns-attribution.h keeps the table within kMaxHints entries.
use wireguard_dns_program_sp.Base.{
  ℕ, ◌+◌, ◌≤◌, ◌≡◌, refl, Bool, false, not, ◌&&◌, ◌||◌, Option, none, some, List, ltb, leb, arith,
  Bool-cases, inl, inr, length,
}
use wireguard_dns_program_sp.Dns.Table.{
  Table, lookup, put, length-erase_if, length-erase, length-put, length-put_found,
}
use wireguard_dns_program_sp.Dns.Hints.{
  Hints, Pending, Outcome, expire, decide, decide_found, decide_entry, settle_entry, lost_events,
  add_resolved, add_evidence, entry_for_event, is_none, max_hints, complete, complete_found,
  complete_entry,
}

abbrev pub Bounded : Hints → Type 0
Bounded h = length h.hints ≤ max_hints

expire-Bounded : (h : Hints) (now : ℕ) → Bounded h → Bounded (expire h now)
unfolding expire
expire-Bounded h now b =
    ground (arith, length-erase_if (λ (p : Pending). leb p.expires now) h.hints)

put-Bounded :
    (m : Table Pending) (key : List ℕ) (o : Option Pending) (p : Pending)
    → lookup key m ≡ o
    → length m ≤ max_hints
    → (leb max_hints (length m) && is_none o) ≡ false
    → length (put key p m) ≤ max_hints
put-Bounded m key none p e b room = ground (arith, length-put key p m)
put-Bounded m key (some q) p e b room = omega (arith, length-put_found key p m e)

add_resolved-Bounded :
    (h : Hints) (key : List ℕ) (size : ℕ) (known selected : Bool) (now : ℕ)
    → Bounded h
    → Bounded (add_resolved h key size known selected now).0
unfolding add_resolved
add_resolved-Bounded h key size known selected now b =
    let swept = expire h now in
    let found = lookup key swept.hints in
    let fits = expire-Bounded h now b in
    let p = entry_for_event swept.reuse_window found now in
    let entry = add_evidence p now (swept.generations + 1) known (known && selected) in
    elim (Bool-cases (ltb 253 size || leb max_hints (length swept.hints) && is_none found)) [
      | inl refused ↦ rw refused fits
      | inr room ↦
          rw room (put-Bounded swept.hints key found entry refl fits (ground (arith, room)))
    ]

settle_entry-Bounded :
    (h : Hints) (key : List ℕ) (o : Outcome) {q : Pending}
    → lookup key h.hints ≡ some q
    → Bounded h
    → Bounded (settle_entry h key o).0
settle_entry-Bounded h key (none, r) found b = omega (arith, length-erase key h.hints)
settle_entry-Bounded h key (some p, r) found b = omega (arith, length-put_found key p h.hints found)

decide_found-Bounded :
    (h : Hints) (key : List ℕ) (now : ℕ) (allow : Bool) (o : Option Pending)
    → lookup key h.hints ≡ o
    → Bounded h
    → Bounded (decide_found h key now allow o).0
unfolding decide_found
decide_found-Bounded h key now allow none found b = b
decide_found-Bounded h key now allow (some p) found b =
    settle_entry-Bounded h key (decide_entry h p now allow) found b

complete_found-Bounded :
    (h : Hints) (key : List ℕ) (now : ℕ) (generation : Option ℕ) (o : Option Pending)
    → lookup key h.hints ≡ o
    → Bounded h
    → Bounded (complete_found h key now generation o)
unfolding complete_found
complete_found-Bounded h key now generation none found b = b
complete_found-Bounded h key now generation (some p) found b =
    omega
      (arith, length-put_found key (complete_entry h.reuse_window p now generation) h.hints found)

-- The memory that events and queries can take is bounded: from a table of at most kMaxHints
-- entries, an event, a query's decision, an answer and a loss of events each leave one.
pub hints-Bounded :
    (h : Hints) (key : List ℕ) (size now : ℕ) (known selected allow : Bool) (generation : Option ℕ)
    → Bounded h
    → Bounded (add_resolved h key size known selected now).0
      × Bounded (decide h key now allow).0
      × Bounded (complete h key now generation)
      × Bounded (lost_events h now)
unfolding decide complete lost_events
hints-Bounded h key size now known selected allow generation b = (
  add_resolved-Bounded h key size known selected now b,
  decide_found-Bounded (expire h now) key now allow (lookup key (expire h now).hints) refl
      (expire-Bounded h now b),
  complete_found-Bounded h key now generation (lookup key h.hints) refl b,
  omega (arith, length-erase_if (λ (p : Pending). not p.tunnel && leb p.unknown_until now) h.hints),
)
