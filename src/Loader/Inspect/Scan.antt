-- ===== src/Loader/Inspect/Scan.antt =====
-- One pass of each loop of `inspect_generation`.
use wireguard_dns_program_sp.Base.{
  if_some, elim_some, ℕ, ◌≡◌, ◌⊎◌, ◌≤◌, refl, ap, ◌+◌, Bool, true, false, not, ◌&&◌, ◌||◌, Option,
  none, some, List, [], ◌∷◌, ◌==◌, ◌!=◌, inl, inr, arith, length,
}
use wireguard_dns_program_sp.Dns.Table.{Table, lookup}
use wireguard_dns_program_sp.Loader.Pins.{
  MapSpec, LinkSpec, map_specs, link_specs, map_names, exists, is_found, pin_order,
}
use wireguard_dns_program_sp.Loader.Pins.Prefix.{AllPresent}
use wireguard_dns_program_sp.Loader.Entries.{
  Bpf, Entry, MapInfo, LinkInfo, ProgramInfo, map_of, matched, open_map, link_of, link_found,
  open_link,
}
use wireguard_dns_program_sp.Loader.Inspect.{
  MapScan, LinkScan, Generation, one_if, counted, scan_maps, collected, scan_links, first_map,
  none_yet, all_known, hooks_available, is_current, inspect_generation, inspect_links,
  generation_of, maps_agree, is_legacy,
}

matched-Exists :
    (b : Bpf) (spec : MapSpec) (found : Option Entry) {info : MapInfo}
    → matched b spec (map_of found) ≡ some info
    → is_found found ≡ true
matched-Exists b spec none h = absurd (cc)
matched-Exists b spec (some entry) h = refl

pub open_map-exists :
    (b : Bpf) (dir : Table Entry) (spec : MapSpec) {info : MapInfo}
    → open_map b dir spec ≡ some info
    → exists spec.name dir ≡ true
unfolding open_map
open_map-exists b dir spec h = matched-Exists b spec (lookup spec.name dir) h

link_found-Exists :
    (b : Bpf) (partial : Bool) (cgroup_id : ℕ) (owned : List ℕ) (spec : LinkSpec)
    (found : Option Entry) {got : LinkInfo × ProgramInfo}
    → link_found b partial cgroup_id owned spec (link_of found) ≡ some got
    → is_found found ≡ true
link_found-Exists b partial cgroup_id owned spec none h = absurd (cc)
link_found-Exists b partial cgroup_id owned spec (some entry) h = refl

pub open_link-exists :
    (b : Bpf) (dir : Table Entry) (partial : Bool) (cgroup_id : ℕ) (owned : List ℕ)
    (spec : LinkSpec) {got : LinkInfo × ProgramInfo}
    → open_link b dir partial cgroup_id owned spec ≡ some got
    → exists spec.pin dir ≡ true
unfolding open_link
open_link-exists b dir partial cgroup_id owned spec h =
    link_found-Exists b partial cgroup_id owned spec (lookup spec.pin dir) h

-- A map is passed over where it is not there, and counted where it is.
pub scan_maps-step :
    (b : Bpf) (dir : Table Entry) (partial : Bool) (spec : MapSpec) (specs : List MapSpec)
    (s : MapScan) {m : MapScan}
    → scan_maps b dir partial (spec ∷ specs) s ≡ some m
    → (((partial || spec.added) && not (exists spec.name dir) ≡ true)
        × (scan_maps b dir partial specs
              (record s { missing_added = s.missing_added + one_if spec.added })
            ≡ some m))
      ⊎ ((info : MapInfo) × ((exists spec.name dir ≡ true)
            × (scan_maps b dir partial specs (counted spec s info) ≡ some m)))
unfolding scan_maps
scan_maps-step b dir partial spec specs s h =
    elim (if_some ((partial || spec.added) && not (exists spec.name dir)) h) [
      | inl (c, e) ↦ inl (c, e)
      | inr (c, e) ↦
          let (info, (opened, rest)) = elim_some (open_map b dir spec) e in
          inr (info, (open_map-exists b dir spec opened, rest))
    ]

-- The same of a link; of an interrupted load all maps and all links before it must have been found.
pub scan_links-step :
    (b : Bpf) (dir : Table Entry) (partial : Bool) (cgroup_id : ℕ) (legacy maps : Bool)
    (owned : List ℕ) (i : ℕ) (spec : LinkSpec) (specs : List LinkSpec) (s : LinkScan) {r : LinkScan}
    → scan_links b dir partial cgroup_id legacy maps owned i (spec ∷ specs) s ≡ some r
    → (((partial || legacy && spec.added) && not (exists spec.pin dir) ≡ true)
        × (scan_links b dir partial cgroup_id legacy maps owned (i + 1) specs s ≡ some r))
      ⊎ ((got : LinkInfo × ProgramInfo) × (((partial && (s.links != i || not maps) ≡ false)
              × (exists spec.pin dir ≡ true))
            × (scan_links b dir partial cgroup_id legacy maps owned
                  (i + 1)
                  specs
                  (collected spec s got)
                ≡ some r)))
unfolding scan_links
scan_links-step b dir partial cgroup_id legacy maps owned i spec specs s h =
    elim (if_some ((partial || legacy && spec.added) && not (exists spec.pin dir)) h) [
      | inl (c, e) ↦ inl (c, e)
      | inr (c, e) ↦ elim (if_some (partial && (s.links != i || not maps)) e) [
        | inl (d, f) ↦ absurd (cc)
        | inr (d, f) ↦
            let (got, (opened, rest)) =
              elim_some (open_link b dir partial cgroup_id owned spec) f in
            inr (got, ((d, open_link-exists b dir partial cgroup_id owned spec opened), rest))
      ]
    ]

-- All are found where as many are counted as there are.
pub scan_maps-AllPresent :
    (b : Bpf) (dir : Table Entry) (partial : Bool) (specs : List MapSpec) (s : MapScan)
    {m : MapScan}
    → scan_maps b dir partial specs s ≡ some m
    → (m.pinned ≤ s.pinned + length specs)
      × (m.pinned ≡ s.pinned + length specs → AllPresent (map_names specs) dir)
unfolding scan_maps
scan_maps-AllPresent b dir partial [] s {m} h =
    let same : s ≡ m = cc in
    let pinned : s.pinned ≡ m.pinned = ap (λ (x : MapScan). x.pinned) same in
    (omega (arith, pinned), λ e. tt)
scan_maps-AllPresent b dir partial (spec ∷ specs) s {m} h =
    elim (scan_maps-step b dir partial spec specs s h) [
      | inl (c, e) ↦
          let (bound, all) = scan_maps-AllPresent b dir partial specs _ e in
          (omega (arith, bound), λ full. absurd (omega (arith, bound, full)))
      | inr (info, (here, e)) ↦
          let (bound, all) = scan_maps-AllPresent b dir partial specs (counted spec s info) e in
          (omega (arith, bound), λ full. (here, all (omega (arith, full))))
    ]

generation_of-some :
    (partial : Bool) (m : MapScan) (found : Option LinkScan) {g : Generation}
    → generation_of partial m found ≡ some g
    → (r : LinkScan) × ((found ≡ some r) × (generation_of partial m (some r) ≡ some g))
generation_of-some partial m none h = absurd (cc)
generation_of-some partial m (some r) h = (r, (refl, h))

inspect_links-scans :
    (b : Bpf) (dir : Table Entry) (partial : Bool) (cgroup_id : ℕ) (found : Option MapScan)
    {g : Generation}
    → inspect_links b dir partial cgroup_id found ≡ some g
    → (m : MapScan) × (r : LinkScan) × (((found ≡ some m)
          × (scan_links b dir partial cgroup_id
                (is_legacy dir partial m)
                (m.pinned == length map_specs)
                m.owned
                0
                link_specs
                none_yet
              ≡ some r))
        × ((maps_agree dir partial m ≡ true) × (generation_of partial m (some r) ≡ some g)))
inspect_links-scans b dir partial cgroup_id none h = absurd (cc)
inspect_links-scans b dir partial cgroup_id (some m) {g} h =
    elim (if_some (maps_agree dir partial m) h) [
      | inr (c, e) ↦ absurd (cc)
      | inl (c, e) ↦
          let (r, (links, made)) =
            generation_of-some partial m
              (scan_links b dir partial cgroup_id (is_legacy dir partial m)
                (m.pinned == length map_specs) m.owned 0 link_specs none_yet)
              e in
          (m, r, ((refl, links), (c, made)))
    ]

-- Both loops of an inspection that accepts the directory come to their ends.
pub inspect_generation-scans :
    (b : Bpf) (dir : Table Entry) (version : Option ℕ) (partial : Bool) (cgroup_id : ℕ)
    {g : Generation}
    → inspect_generation b dir version partial cgroup_id ≡ some g
    → (m : MapScan) × (r : LinkScan) × (((scan_maps b dir partial map_specs first_map ≡ some m)
          × (scan_links b dir partial cgroup_id
                (is_legacy dir partial m)
                (m.pinned == length map_specs)
                m.owned
                0
                link_specs
                none_yet
              ≡ some r))
        × ((maps_agree dir partial m ≡ true) × (generation_of partial m (some r) ≡ some g)))
unfolding inspect_generation
inspect_generation-scans b dir version partial cgroup_id h =
    elim (if_some
      (all_known pin_order dir && (partial || is_current version) && hooks_available b link_specs)
      h) [
        | inl (c, e) ↦
            inspect_links-scans b dir partial cgroup_id
              (scan_maps b dir partial map_specs first_map) e
        | inr (c, e) ↦ absurd (cc)
      ]
