-- ===== src/Loader/Paths/Replace.antt =====
-- One of the two maps of paths of bpf-loader.cpp is replaced by one with another key.
use wireguard_dns_program_sp.Base.{
  ℕ, ◌≡◌, ◌⊎◌, ◌<◌, ◌≤◌, ◌+◌, refl, sym, ap, ◌∙◌, Bool, true, false, not, ◌&&◌, ◌||◌, some, List,
  if◌then◌else◌, leb, length, Bool-cases, Option-cases, inl, inr, arith, bytes_eq_sound,
}
use mathlib.Core.Path.{subst}
use wireguard_dns_program_sp.Base.Lists.{bytes_eq}
use wireguard_dns_program_sp.Dns.Table.{Table, lookup, put, length-put, length-put_found}
use wireguard_dns_program_sp.Loader.Pins.{exists, is_found}
use wireguard_dns_program_sp.Loader.Paths.{policy_keys}
use wireguard_dns_program_sp.Loader.Paths.Tiers.{
  PathMaps, is_short, map_of, with_map, is_stored, update_elem, updated, in_tier,
}
use wireguard_dns_program_sp.Loader.Paths.Stored.{tier_ok, IsTiered, exists-put, tier_ok-put}

abbrev pub total : PathMaps → ℕ
total p = length p.long + length p.short

pub map_of-tier_ok :
    (key : List ℕ) (p : PathMaps) → IsTiered p → tier_ok (is_short key) (map_of key p) ≡ true
map_of-tier_ok key p t = elim (Bool-cases (is_short key)) [
  | inl e ↦ rw e t.shorts
  | inr e ↦ rw e t.longs
]

own_tier : (key : List ℕ) → in_tier (is_short key) key ≡ true
own_tier key = ground arith

-- A map in order of no more keys in the place of the old one.
pub with_map-IsTiered :
    (key : List ℕ) (m : Table ℕ) (p : PathMaps)
    → IsTiered p
    → tier_ok (is_short key) m ≡ true
    → total p + length m ≤ policy_keys + length (map_of key p)
    → IsTiered (with_map key m p)
with_map-IsTiered key m p t ok bound = elim (Bool-cases (is_short key)) [
  | inl e ↦
      let here : tier_ok true m ≡ true = rw e at ok in
      let fits : total p + length m ≤ policy_keys + length p.short = rw e at bound in
      rw e (record { longs = t.longs; shorts = here; room = omega (arith, fits) })
  | inr e ↦
      let here : tier_ok false m ≡ true = rw e at ok in
      let fits : total p + length m ≤ policy_keys + length p.long = rw e at bound in
      rw e (record { longs = here; shorts = t.shorts; room = omega (arith, fits) })
]

total-with_map :
    (key : List ℕ) (m : Table ℕ) (p : PathMaps)
    → total (with_map key m p) + length (map_of key p) ≡ total p + length m
total-with_map key m p = elim (Bool-cases (is_short key)) [
  | inl e ↦ rw e (omega arith)
  | inr e ↦ rw e (omega arith)
]

-- What is stored then: by the new map where the key is of its length, else as before.
pub is_stored-with_map :
    (k key : List ℕ) (m : Table ℕ) (p : PathMaps)
    → is_stored k (with_map key m p)
      ≡ (if in_tier (is_short key) k then exists k m else is_stored k p)
is_stored-with_map k key m p = elim (Bool-cases (is_short key)) [
  | inl e ↦ elim (Bool-cases (is_short k)) [ inl f ↦ rw (e, f) refl | inr f ↦ rw (e, f) refl ]
  | inr e ↦ elim (Bool-cases (is_short k)) [ inl f ↦ rw (e, f) refl | inr f ↦ rw (e, f) refl ]
]

-- Keys of the same length class have the same map.
pub map_of-in_tier :
    (k key : List ℕ) (p : PathMaps)
    → in_tier (is_short key) k ≡ true
    → is_stored k p ≡ exists k (map_of key p)
map_of-in_tier k key p h = elim (Bool-cases (is_short key)) [
  | inl e ↦ elim (Bool-cases (is_short k)) [
    | inl f ↦ rw (e, f) refl
    | inr f ↦ absurd (ground (arith, h, e, f))
  ]
  | inr e ↦ elim (Bool-cases (is_short k)) [
    | inl f ↦ absurd (ground (arith, h, e, f))
    | inr f ↦ rw (e, f) refl
  ]
]

pub equal-in_tier : (k key : List ℕ) → bytes_eq key k ≡ true → in_tier (is_short key) k ≡ true
equal-in_tier k key h =
    subst (λ (x : List ℕ). in_tier (is_short key) x ≡ true) (bytes_eq_sound key k h) (own_tier key)

length-map_of : (key : List ℕ) (p : PathMaps) → length (map_of key p) ≤ total p
length-map_of key p = elim (Bool-cases (is_short key)) [
  | inl e ↦ rw e (omega arith)
  | inr e ↦ rw e (omega arith)
]

length-put_exists :
    (k : List ℕ) (v : ℕ) (m : Table ℕ) → exists k m ≡ true → length (put k v m) ≡ length m
length-put_exists k v m h = elim (Option-cases (lookup k m)) [
  | inl e ↦ absurd (ground (arith, h, (ap is_found e)))
  | inr (w, e) ↦ length-put_found k v m e
]

-- A key that is there, or for which there is room, can be added.
abbrev pub Added : List ℕ → PathMaps → PathMaps → Type 0
Added key p q =
    IsTiered q
    × (total q ≤ total p + 1)
    × ((k : List ℕ) → is_stored k q ≡ (is_stored k p || bytes_eq key k))

pub update_elem-Added :
    (key : List ℕ) (p : PathMaps)
    → IsTiered p
    → (is_stored key p ≡ true) ⊎ (total p < policy_keys)
    → (q : PathMaps) × ((updated key p (update_elem key (map_of key p)) ≡ some q) × Added key p q)
unfolding update_elem
update_elem-Added key p t room =
    let m = map_of key p in
    let bound = length-map_of key p in
    let open_yet : (not (exists key m) && leb policy_keys (length m)) ≡ false = elim room [
      | inl h ↦ ground (arith, h)
      | inr h ↦ ground (arith, h, bound)
    ] in
    let grown : total p + length (put key 1 m) ≤ policy_keys + length m = elim room [
      | inl h ↦ omega (arith, length-put_exists key 1 m h, t.room)
      | inr h ↦ omega (arith, length-put key 1 m, h)
    ] in
    (
      with_map key (put key 1 m) p,
      (
        rw open_yet refl,
        (
          with_map-IsTiered key (put key 1 m) p t
              (tier_ok-put (is_short key) key 1 m (map_of-tier_ok key p t) (own_tier key)) grown,
          omega (arith, total-with_map key (put key 1 m) p, length-put key 1 m),
          λ k.
              is_stored-with_map k key (put key 1 m) p
              ∙ (elim (Bool-cases (in_tier (is_short key) k)) [
                | inl e ↦ rw e (
                    exists-put k key 1 m
                    ∙ ap (λ (b : Bool). b || bytes_eq key k) (sym (map_of-in_tier k key p e)))
                | inr e ↦ elim (Bool-cases (bytes_eq key k)) [
                  | inl f ↦ absurd (ground (arith, e, equal-in_tier k key f))
                  | inr f ↦ rw (e, f) (ground arith)
                ]
              ]),
        ),
      ),
    )
