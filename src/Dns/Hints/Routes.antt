-- ===== src/Dns/Hints/Routes.antt =====
-- When a query goes direct: the conditions that `decide`, `take` and `directAnswerUnsafe` of
-- dns-attribution.h guarantee.
use wireguard_dns_program_sp.Base.{
  ℕ, ◌<◌, ◌≤◌, ◌≡◌, refl, Bool, true, false, not, ◌||◌, Option, none, some, List, ltb, arith,
  Bool-cases, inl, inr, ap, sym, ◌∙◌,
}
use wireguard_dns_program_sp.Dns.Table.{lookup}
use wireguard_dns_program_sp.Dns.Hints.{
  Hints, Pending, Route, Outcome, expire, decide, decide_found, decide_entry, take_begin, take_end,
  Begun, settle_entry, is_direct,
}

-- What a direct route rests on.
pub record DirectFor (h : Hints) (p : Pending) (now : ℕ) (allow : Bool) : Type 0 where
  pub asked : allow ≡ true
  pub open_route : h.direct_blocked_until ≤ now
  pub known : p.unknown_until ≤ now
  pub fresh : now < p.expires
  pub no_tunnel : p.tunnel ≡ false
  pub evidence : (p.direct || is_direct p.decision) ≡ true

decide_entry-direct :
    (h : Hints) (p : Pending) (now : ℕ) (allow : Bool)
    → (decide_entry h p now allow).1.route ≡ some false
    → DirectFor h p now allow
unfolding decide_entry
decide_entry-direct h p now allow e = ground arith

pub settle_entry-route : (h : Hints) (key : List ℕ) (o : Outcome) → (settle_entry h key o).1 ≡ o.1
settle_entry-route h key (none, r) = refl
settle_entry-route h key (some p, r) = refl

-- An entry that a direct route was decided on.
abbrev pub DirectEntry : Hints → Option Pending → ℕ → Bool → Type 0
DirectEntry h o now allow = (p : Pending) × (o ≡ some p) × DirectFor h p now allow

decide_found-direct :
    (h : Hints) (key : List ℕ) (now : ℕ) (allow : Bool) (o : Option Pending)
    → (decide_found h key now allow o).1.route ≡ some false
    → DirectEntry h o now allow
unfolding decide_found
decide_found-direct h key now allow none e = absurd (cc)
decide_found-direct h key now allow (some p) e = (
  p,
  refl,
  decide_entry-direct h p now allow (
      ap (λ (r : Route). r.route) (sym (settle_entry-route h key (decide_entry h p now allow)))
      ∙ e),
)

pub decide-direct :
    (h : Hints) (key : List ℕ) (now : ℕ) (allow : Bool)
    → (decide h key now allow).1.route ≡ some false
    → DirectEntry (expire h now) (lookup key (expire h now).hints) now allow
unfolding decide
decide-direct h key now allow e =
    decide_found-direct (expire h now) key now allow (lookup key (expire h now).hints) e

pub expire-blocked :
    (h : Hints) (now : ℕ) → (expire h now).direct_blocked_until ≡ h.direct_blocked_until
unfolding expire
expire-blocked h now = ground arith

-- A query goes direct only when the ordering barrier passed, no event was refused for lack of
-- room, no event was lost and no unknown process asked within their lifetimes, and the entry
-- found for the name is alive, has direct evidence or was decided direct before, and has no
-- tunnel evidence.
pub take_end-direct :
    (h : Hints) (key : List ℕ) (asked now : ℕ) (passed : Bool)
    → (take_end h key asked now passed).1.route ≡ some false
    → (passed ≡ true)
      × (h.overloaded_until ≤ asked)
      × (h.direct_blocked_until ≤ now)
      × DirectEntry (expire h now) (lookup key (expire h now).hints) now true
unfolding take_end
take_end-direct h key asked now passed e =
    elim (Bool-cases (not passed || ltb asked h.overloaded_until)) [
      | inl refused ↦ absurd (let no = rw refused at e in cc)
      | inr open_now ↦
          let (p, found, d) = decide-direct h key now true (rw open_now at e) in
          (
            ground arith,
            ground arith,
            omega (arith, d.open_route, expire-blocked h now),
            (p, found, d),
          )
    ]

-- Before the barrier a query is never sent direct: it is refused, sent to the tunnel, or waits.
pub take_begin-never_direct :
    (h : Hints) (key : List ℕ) (asked now : ℕ) {r : Route}
    → (take_begin h key asked now).1 ≡ Begun.decided r
    → r.route ≡ some true
unfolding take_begin
take_begin-never_direct h key asked now e = ground arith
