-- ===== src/Loader/Inspect/Complete.antt =====
-- What `inspect_generation` accepts as a whole load.
use wireguard_dns_program_sp.Base.{
  ℕ, ◌≡◌, ◌⊎◌, ◌≤◌, refl, ap, ◌+◌, Bool, true, false, Option, some, List, [], ◌∷◌, ◌==◌,
  if◌then◌else◌, Bool-cases, inl, inr, arith, length,
}
use mathlib.Core.Path.{subst}
use wireguard_dns_program_sp.Dns.Table.{Table}
use wireguard_dns_program_sp.Loader.Pins.{
  MapSpec, LinkSpec, map_specs, link_specs, map_names, link_names,
}
use wireguard_dns_program_sp.Loader.Pins.Prefix.{AllPresent, AllAbsent}
use wireguard_dns_program_sp.Loader.Entries.{Bpf, Entry}
use wireguard_dns_program_sp.Loader.Inspect.{
  MapScan, LinkScan, Generation, one_if, counted, scan_maps, scan_links, first_map, none_yet,
  no_added_links, inspect_generation, is_legacy,
}
use wireguard_dns_program_sp.Loader.Inspect.Scan.{
  scan_maps-step, scan_links-step, inspect_generation-scans,
}

abbrev pub required_maps : List MapSpec → List (List ℕ)
required_maps [] = []
required_maps (spec ∷ specs) =
    if spec.added then required_maps specs else spec.name ∷ required_maps specs

abbrev pub required_links : List LinkSpec → List (List ℕ)
required_links [] = []
required_links (spec ∷ specs) =
    if spec.added then required_links specs else spec.pin ∷ required_links specs

abbrev pub added_links : List LinkSpec → List (List ℕ)
added_links [] = []
added_links (spec ∷ specs) = if spec.added then spec.pin ∷ added_links specs else added_links specs

-- A whole load is missed none of the maps that earlier builds have.
scan_maps_required :
    (b : Bpf) (dir : Table Entry) (specs : List MapSpec) (s : MapScan) {m : MapScan}
    → scan_maps b dir false specs s ≡ some m
    → AllPresent (required_maps specs) dir
scan_maps_required b dir [] s h = tt
scan_maps_required b dir (spec ∷ specs) s h = elim (Bool-cases spec.added) [
  | inl a ↦ rw a (elim (scan_maps-step b dir false spec specs s h) [
    | inl (c, e) ↦ scan_maps_required b dir specs _ e
    | inr (info, (here, e)) ↦ scan_maps_required b dir specs _ e
  ])
  | inr a ↦ rw a (elim (scan_maps-step b dir false spec specs s h) [
    | inl (c, e) ↦ absurd (ground (arith, a, c))
    | inr (info, (here, e)) ↦ (here, scan_maps_required b dir specs _ e)
  ])
]

-- All are there where none that was added is counted as missing.
scan_maps_whole :
    (b : Bpf) (dir : Table Entry) (specs : List MapSpec) (s : MapScan) {m : MapScan}
    → scan_maps b dir false specs s ≡ some m
    → (s.missing_added ≤ m.missing_added)
      × (m.missing_added ≡ s.missing_added → AllPresent (map_names specs) dir)
unfolding scan_maps
scan_maps_whole b dir [] s {m} h =
    let same : s ≡ m = cc in
    let counted : s.missing_added ≡ m.missing_added = ap (λ (x : MapScan). x.missing_added) same in
    (omega (arith, counted), λ e. tt)
scan_maps_whole b dir (spec ∷ specs) s {m} h = elim (scan_maps-step b dir false spec specs s h) [
  | inl (c, e) ↦
      let (bound, all) = scan_maps_whole b dir specs _ e in
      let added : spec.added ≡ true = ground (arith, c) in
      let one : one_if spec.added ≡ 1 = rw added refl in
      (omega (arith, bound), λ full. absurd (omega (arith, bound, one, full)))
  | inr (info, (here, e)) ↦
      let (bound, all) = scan_maps_whole b dir specs (counted spec s info) e in
      (bound, λ full. (here, all full))
]

scan_links_whole :
    (b : Bpf) (dir : Table Entry) (cgroup_id : ℕ) (maps : Bool) (owned : List ℕ) (i : ℕ)
    (specs : List LinkSpec) (s : LinkScan) {r : LinkScan}
    → scan_links b dir false cgroup_id false maps owned i specs s ≡ some r
    → AllPresent (link_names specs) dir
scan_links_whole b dir cgroup_id maps owned i [] s h = tt
scan_links_whole b dir cgroup_id maps owned i (spec ∷ specs) s h =
    elim (scan_links-step b dir false cgroup_id false maps owned i spec specs s h) [
      | inl (c, e) ↦ absurd (cc)
      | inr (got, ((d, here), e)) ↦
          (here, scan_links_whole b dir cgroup_id maps owned (i + 1) specs _ e)
    ]

scan_links_required :
    (b : Bpf) (dir : Table Entry) (cgroup_id : ℕ) (legacy maps : Bool) (owned : List ℕ) (i : ℕ)
    (specs : List LinkSpec) (s : LinkScan) {r : LinkScan}
    → scan_links b dir false cgroup_id legacy maps owned i specs s ≡ some r
    → AllPresent (required_links specs) dir
scan_links_required b dir cgroup_id legacy maps owned i [] s h = tt
scan_links_required b dir cgroup_id legacy maps owned i (spec ∷ specs) s h =
    elim (Bool-cases spec.added) [
      | inl a ↦
          rw a (elim (scan_links-step b dir false cgroup_id legacy maps owned i spec specs s h) [
            | inl (c, e) ↦ scan_links_required b dir cgroup_id legacy maps owned (i + 1) specs _ e
            | inr (got, ((d, here), e)) ↦
                scan_links_required b dir cgroup_id legacy maps owned (i + 1) specs _ e
          ])
      | inr a ↦
          rw a (elim (scan_links-step b dir false cgroup_id legacy maps owned i spec specs s h) [
            | inl (c, e) ↦ absurd (ground (arith, a, c))
            | inr (got, ((d, here), e)) ↦
                (here, scan_links_required b dir cgroup_id legacy maps owned (i + 1) specs _ e)
          ])
    ]

no_added_links-AllAbsent :
    (dir : Table Entry) (specs : List LinkSpec)
    → no_added_links dir specs ≡ true
    → AllAbsent (added_links specs) dir
unfolding no_added_links
no_added_links-AllAbsent dir [] h = tt
no_added_links-AllAbsent dir (spec ∷ specs) h = elim (Bool-cases spec.added) [
  | inl a ↦ rw a (ground (arith, h, a), no_added_links-AllAbsent dir specs (ground (arith, h)))
  | inr a ↦ rw a (no_added_links-AllAbsent dir specs (ground (arith, h)))
]

-- A directory that is accepted as a whole load has every map and every link, or, as those of an earlier build,
-- every one that was not added since, and none of the links that were.
pub inspect_generation-AllPresent :
    (b : Bpf) (dir : Table Entry) (version : Option ℕ) (cgroup_id : ℕ) {g : Generation}
    → inspect_generation b dir version false cgroup_id ≡ some g
    → (AllPresent (map_names map_specs) dir × AllPresent (link_names link_specs) dir)
      ⊎ ((AllPresent (required_maps map_specs) dir × AllPresent (required_links link_specs) dir)
          × AllAbsent (added_links link_specs) dir)
inspect_generation-AllPresent b dir version cgroup_id h =
    let (m, r, ((maps, links), (agree, made))) =
      inspect_generation-scans b dir version false cgroup_id h in
    let whole = m.pinned == length map_specs in
    elim (Bool-cases (is_legacy dir false m)) [
      | inl e ↦ inr (
        (
          scan_maps_required b dir map_specs first_map maps,
          scan_links_required b dir cgroup_id (is_legacy dir false m) whole m.owned 0 link_specs
              none_yet links,
        ),
        no_added_links-AllAbsent dir link_specs (ground (arith, e)),
      )
      | inr e ↦ inl (
        (scan_maps_whole b dir map_specs first_map maps).1 (ground (arith, e, agree)),
        scan_links_whole b dir cgroup_id whole m.owned 0 link_specs none_yet (
            subst
              (λ (l : Bool).
                scan_links b dir false cgroup_id l whole m.owned 0 link_specs none_yet ≡ some r)
              e links),
      )
    ]
