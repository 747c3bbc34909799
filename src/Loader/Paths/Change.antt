-- ===== src/Loader/Paths/Change.antt =====
-- How `initialize_paths` and `change_path` of bpf-loader.cpp change the two maps of paths.
use wireguard_dns_program_sp.Base.{
  ℕ, ◌≡◌, ◌⊎◌, ◌<◌, ◌≤◌, ◌+◌, refl, sym, ap, ◌∙◌, Bool, true, false, not, ◌&&◌, ◌||◌, Option, none,
  some, List, [], ◌∷◌, ◌++◌, if◌then◌else◌, ltb, length, Bool-cases, inl, inr, arith, bytes_eq_refl,
  bytes_eq_sound, length-append,
}
use wireguard_dns_program_sp.Base.Lists.{bytes_eq}
use wireguard_dns_program_sp.Dns.Table.{lookup, erase, length-erase}
use wireguard_dns_program_sp.Loader.Pins.Prefix.{among, exists-erase, all_distinct}
use wireguard_dns_program_sp.Loader.Paths.{policy_keys}
use wireguard_dns_program_sp.Loader.Paths.Encode.{bytes_eq_sym, among-append, IsPolicy}
use wireguard_dns_program_sp.Loader.Paths.Tiers.{
  PathMaps, empty_maps, is_short, map_of, with_map, is_stored, update_elem, updated, add_new,
  add_all, initialize_paths, in_tier, policy_entries, has_room, change_path,
}
use wireguard_dns_program_sp.Loader.Paths.Stored.{
  tier_ok, names, IsTiered, among-names, length-names, tier_ok-erase, stored_cases,
  policy_entries_whole,
}
use wireguard_dns_program_sp.Loader.Paths.Replace.{
  total, map_of-tier_ok, with_map-IsTiered, is_stored-with_map, map_of-in_tier, equal-in_tier,
  update_elem-Added,
}

add_new_made :
    (key : List ℕ) (p : PathMaps) {q : PathMaps}
    → is_stored key p ≡ false
    → updated key p (update_elem key (map_of key p)) ≡ some q
    → add_new key p ≡ some q
add_new_made key p new made = rw new made

add_all_stored :
    (keys : List (List ℕ)) (p : PathMaps)
    → IsTiered p
    → all_distinct keys ≡ true
    → ((k : List ℕ) → (among k keys && is_stored k p) ≡ false)
    → total p + length keys ≤ policy_keys
    → (q : PathMaps) × ((add_all keys (some p) ≡ some q)
        × (IsTiered q × ((k : List ℕ) → is_stored k q ≡ (is_stored k p || among k keys))))
unfolding add_all all_distinct among
add_all_stored [] p t apart fresh room = (p, (refl, (t, λ k. ground arith)))
add_all_stored (key ∷ keys) p t apart fresh room =
    let new : is_stored key p ≡ false = ground (arith, fresh key, bytes_eq_refl key) in
    let (q, (made, (tiered, count, stored))) =
      update_elem-Added key p t (inr (omega (arith, room))) in
    let later : (k : List ℕ) → (among k keys && is_stored k q) ≡ false = λ k.
      elim (Bool-cases (bytes_eq key k)) [
        | inl e ↦
            let same : among key keys ≡ among k keys =
              ap (λ (x : List ℕ). among x keys) (bytes_eq_sound key k e) in
            ground (arith, same, apart)
        | inr e ↦ ground (arith, stored k, e, fresh k)
      ] in
    let (r, (all, (kept, found))) =
      add_all_stored keys q tiered (ground (arith, apart)) later (omega (arith, count, room)) in
    (
      r,
      (
        ap (λ (o : Option PathMaps). add_all keys o) (add_new_made key p new made) ∙ all,
        (kept, λ k. ground (arith, found k, stored k, bytes_eq_sym k key)),
      ),
    )

empty_stored : (k : List ℕ) → is_stored k empty_maps ≡ false
unfolding lookup
empty_stored k = elim (Bool-cases (is_short k)) [ inl e ↦ rw e refl | inr e ↦ rw e refl ]

empty-IsTiered : IsTiered empty_maps
unfolding tier_ok
empty-IsTiered = record { longs = refl; shorts = refl; room = omega arith }

-- Keys that differ, at most 1024, can be loaded, whatever their lengths. The maps are then in order, and they read
-- back as these keys.
pub policy_entries-initialize_paths :
    (keys : List (List ℕ)) (k : List ℕ)
    → IsPolicy keys
    → (p : PathMaps) × (entries : List (List ℕ)) × (((initialize_paths keys empty_maps ≡ some p)
          × (policy_entries p ≡ some entries))
        × (IsTiered p × (among k entries ≡ among k keys)))
unfolding initialize_paths
policy_entries-initialize_paths keys k (good, apart, room) =
    let fresh : (n : List ℕ) → (among n keys && is_stored n empty_maps) ≡ false =
      λ n. ground (arith, empty_stored n) in
    let fits : ltb policy_keys (length keys) ≡ false = ground (arith, room) in
    let (p, (made, (tiered, stored))) =
      add_all_stored keys empty_maps empty-IsTiered apart fresh (omega (arith, room)) in
    (
      p,
      names p.long ++ names p.short,
      (
        (rw fits made, policy_entries_whole p tiered),
        (
          tiered,
          among-append k (names p.long) (names p.short)
              ∙ ground (
                arith,
                among-names k p.long,
                among-names k p.short,
                stored_cases k p tiered,
                stored k,
                empty_stored k,
              ),
        ),
      ),
    )

-- The check before an addition tells whether there is room.
policy_entries-has_room :
    (p : PathMaps) → IsTiered p → has_room (policy_entries p) ≡ ltb (total p) policy_keys
policy_entries-has_room p t =
    let count : length (names p.long ++ names p.short) ≡ total p =
      length-append (names p.long) (names p.short)
      ∙ omega (arith, length-names p.long, length-names p.short) in
    ap has_room (policy_entries_whole p t) ∙ ap (λ (n : ℕ). ltb n policy_keys) count

erased_stored :
    (k key : List ℕ) (p : PathMaps)
    → is_stored k (with_map key (erase key (map_of key p)) p)
      ≡ (is_stored k p && not (bytes_eq key k))
erased_stored k key p =
    is_stored-with_map k key (erase key (map_of key p)) p
    ∙ (elim (Bool-cases (in_tier (is_short key) k)) [
      | inl e ↦ rw e (
          exists-erase k key (map_of key p)
          ∙ ap (λ (b : Bool). b && not (bytes_eq key k)) (sym (map_of-in_tier k key p e)))
      | inr e ↦ elim (Bool-cases (bytes_eq key k)) [
        | inl f ↦ absurd (ground (arith, e, equal-in_tier k key f))
        | inr f ↦ rw (e, f) (ground arith)
      ]
    ])

erased-IsTiered :
    (key : List ℕ) (p : PathMaps)
    → IsTiered p
    → IsTiered (with_map key (erase key (map_of key p)) p)
erased-IsTiered key p t =
    with_map-IsTiered key (erase key (map_of key p)) p t
      (tier_ok-erase (is_short key) key (map_of key p) (map_of-tier_ok key p t))
      (omega (arith, length-erase key (map_of key p), t.room))

-- The addition goes through.
change_path_added :
    (key : List ℕ) (p : PathMaps) {q : PathMaps}
    → IsTiered p
    → (is_stored key p || ltb (total p) policy_keys) ≡ true
    → updated key p (update_elem key (map_of key p)) ≡ some q
    → change_path key true p ≡ some q
unfolding change_path
change_path_added key p t room made =
    let free : (not (is_stored key p) && not (has_room (policy_entries p))) ≡ false =
      ground (arith, room, policy_entries-has_room p t) in
    rw free made

change_path_full :
    (key : List ℕ) (p : PathMaps)
    → IsTiered p
    → (is_stored key p || ltb (total p) policy_keys) ≡ false
    → change_path key true p ≡ none
unfolding change_path
change_path_full key p t full =
    let free : (not (is_stored key p) && not (has_room (policy_entries p))) ≡ true =
      ground (arith, full, policy_entries-has_room p t) in
    rw free refl

-- Where the maps are in order, a key can be removed where it is stored, and added where it is stored or fewer than
-- 1024 are: every other command fails. The maps are then in order again, and of the stored keys only this one has
-- changed.
pub is_stored-change_path :
    (key k : List ℕ) (adding : Bool) (p : PathMaps)
    → IsTiered p
    → ((is_stored key p || adding && ltb (total p) policy_keys) ≡ true)
        × ((q : PathMaps) × ((change_path key adding p ≡ some q)
              × (IsTiered q
                  × (is_stored k q ≡ (if bytes_eq key k then adding else is_stored k p)))))
      ⊎ ((is_stored key p || adding && ltb (total p) policy_keys) ≡ false)
        × (change_path key adding p ≡ none)
unfolding change_path
is_stored-change_path key k true p t =
    elim (Bool-cases (is_stored key p || ltb (total p) policy_keys)) [
      | inl room ↦
          let fits : (is_stored key p ≡ true) ⊎ (total p < policy_keys) =
            elim (Bool-cases (is_stored key p)) [
              | inl e ↦ inl e
              | inr e ↦ inr (ground (arith, room, e))
            ] in
          let (q, (made, (tiered, bound, stored))) = update_elem-Added key p t fits in
          inl (room, (q, (change_path_added key p t room made, (tiered, stored k ∙ ground arith))))
      | inr full ↦ inr (full, change_path_full key p t full)
    ]
is_stored-change_path key k false p t = elim (Bool-cases (is_stored key p)) [
  | inl e ↦
      let q = with_map key (erase key (map_of key p)) p in
      inl (
        ground (arith, e),
        (q, (rw e refl, (erased-IsTiered key p t, erased_stored k key p ∙ ground arith))),
      )
  | inr e ↦ inr (ground (arith, e), rw e refl)
]
