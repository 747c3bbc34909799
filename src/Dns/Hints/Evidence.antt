-- ===== src/Dns/Hints/Evidence.antt =====
-- What an event or a loss of events means for the queries that follow (`addResolved`,
-- `lostEvents` and `complete` of dns-attribution.h).
use wireguard_dns_program_sp.Base.{
  ℕ, ◌+◌, ◌<◌, ◌≡◌, ◌≢◌, refl, sym, ◌∙◌, Bool, true, false, ◌&&◌, ◌||◌, Option, none, some, List,
  ltb, leb, arith, Bool-cases, inl, inr, length,
}
use wireguard_dns_program_sp.Dns.Table.{lookup, lookup-put_self, lookup-erase_if}
use wireguard_dns_program_sp.Dns.Hints.{
  Hints, Pending, expire, decide, decide_entry, take_begin, take_end, Begun, lifetime, lost_events,
  add_resolved, add_evidence, entry_for_event, is_none, max_hints,
}
use wireguard_dns_program_sp.Dns.Hints.Routes.{decide-direct, expire-blocked}

pub entry_for_event-open :
    (reuse_window : ℕ) (o : Option Pending) (now : ℕ)
    → (entry_for_event reuse_window o now).answered ≡ false
unfolding entry_for_event
entry_for_event-open reuse_window none now = refl
entry_for_event-open reuse_window (some p) now = ground arith

-- The entry that an event leaves for its name.
abbrev pub event_entry : Hints → List ℕ → Bool → Bool → ℕ → Pending
event_entry h key known selected now =
    let swept = expire h now in
    add_evidence (entry_for_event swept.reuse_window (lookup key swept.hints) now) now
      (swept.generations + 1) known (known && selected)

pub add_resolved-entry :
    (h : Hints) (key : List ℕ) (size : ℕ) (known selected : Bool) (now : ℕ)
    → (add_resolved h key size known selected now).1 ≡ true
    → lookup key (add_resolved h key size known selected now).0.hints
      ≡ some (event_entry h key known selected now)
unfolding add_resolved
add_resolved-entry h key size known selected now kept =
    let swept = expire h now in
    elim (Bool-cases
      (ltb 253 size || leb max_hints (length swept.hints) && is_none (lookup key swept.hints))) [
        | inl refused ↦ absurd (let no = rw refused at kept in cc)
        | inr room ↦
            rw room (lookup-put_self key (event_entry h key known selected now) swept.hints)
      ]

-- A live entry survives the scan for expired ones.
pub lookup-expire :
    (h : Hints) (key : List ℕ) (now : ℕ) {p : Pending}
    → lookup key h.hints ≡ some p
    → now < p.expires
    → lookup key (expire h now).hints ≡ some p
unfolding expire
lookup-expire h key now {p} found alive = elim (Bool-cases (ltb now h.next_expiry)) [
  | inl early ↦ rw early found
  | inr due ↦ rw due (lookup-erase_if (λ q. leb q.expires now) key h.hints found (ground arith))
]

pub decide_open-tunnel :
    (h : Hints) (p : Pending) (now : ℕ) (allow : Bool)
    → p.tunnel ≡ true
    → p.answered ≡ false
    → now < p.expires
    → (decide_entry h p now allow).1.route ≡ some true
unfolding decide_entry
decide_open-tunnel h p now allow t a alive = ground arith

-- An event of a process that is gone blocks direct routes for its name for the attribution
-- lifetime. Condition: the event was kept.
pub add_resolved-unknown :
    (h : Hints) (key : List ℕ) (size at now : ℕ) (allow selected : Bool)
    → (add_resolved h key size false selected at).1 ≡ true
    → now < at + lifetime
    → (decide (add_resolved h key size false selected at).0 key now allow).1.route ≢ some false
add_resolved-unknown h key size at now allow selected kept alive direct =
    let after = (add_resolved h key size false selected at).0 in
    let p = event_entry h key false selected at in
    let found : lookup key (expire after now).hints ≡ some p =
      lookup-expire after key now (add_resolved-entry h key size false selected at kept)
        (unfold add_evidence in omega arith) in
    let (q, other, d) = decide-direct after key now allow direct in
    let same : some p ≡ some q = sym found ∙ other in
    let equal : p.unknown_until ≡ q.unknown_until = cc in
    unfold add_evidence in omega (arith, equal, d.known)

-- After a loss of events no query goes direct for the attribution lifetime.
pub lost_events-blocks :
    (h : Hints) (key : List ℕ) (at now : ℕ) (allow : Bool)
    → now < at + lifetime
    → (decide (lost_events h at) key now allow).1.route ≢ some false
lost_events-blocks h key at now allow alive direct =
    let (p, found, d) = decide-direct (lost_events h at) key now allow direct in
    unfold lost_events in omega (arith, d.open_route, expire-blocked (lost_events h at) now)

overload-time :
    (h : Hints) (key : List ℕ) (size at : ℕ) (known selected : Bool)
    → (add_resolved h key size known selected at).1 ≡ false
    → (add_resolved h key size known selected at).0.overloaded_until ≡ at + lifetime
unfolding add_resolved
overload-time h key size at known selected lost =
    elim (Bool-cases (
      ltb 253 size
      || leb max_hints (length (expire h at).hints) && is_none (lookup key (expire h at).hints))) [
        | inl refused ↦ rw refused
        | inr room ↦ absurd (let no = rw room at lost in cc)
      ]

-- An event that could not be kept refuses every query for the attribution lifetime, before and
-- after the barrier.
pub add_resolved-overload :
    (h : Hints) (key other : List ℕ) (size at asked now : ℕ) (known selected passed : Bool)
    → (add_resolved h key size known selected at).1 ≡ false
    → asked < at + lifetime
    → let after = (add_resolved h key size known selected at).0 in
      ((take_begin after other asked now).1 ≡ Begun.refused)
      × ((take_end after other asked now passed).1.route ≡ none)
unfolding take_begin take_end
add_resolved-overload h key other size at asked now known selected passed lost early =
    let after = (add_resolved h key size known selected at).0 in
    let still : ltb asked after.overloaded_until ≡ true =
      ground (arith, overload-time h key size at known selected lost) in
    (rw still, rw still (ground arith))
