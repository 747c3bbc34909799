-- ===== src/Loader/Inspect/Partial.antt =====
-- What `inspect_generation` accepts as an interrupted load.
use wireguard_dns_program_sp.Base.{
  ℕ, ◌≡◌, ◌⊎◌, ◌<◌, refl, ap, ◌+◌, Bool, true, false, Option, some, List, [], ◌∷◌, ◌==◌, Bool-cases,
  inl, inr, arith, length,
}
use wireguard_dns_program_sp.Dns.Table.{Table}
use wireguard_dns_program_sp.Loader.Pins.{LinkSpec, map_specs, link_specs, map_names, link_names}
use wireguard_dns_program_sp.Loader.Pins.Prefix.{
  AllPresent, AllAbsent, IsPrefix, prefix-end, prefix-pinned,
}
use wireguard_dns_program_sp.Loader.Entries.{Bpf, Entry}
use wireguard_dns_program_sp.Loader.Inspect.{
  LinkScan, Generation, collected, scan_links, first_map, none_yet, inspect_generation, is_legacy,
}
use wireguard_dns_program_sp.Loader.Inspect.Scan.{
  scan_maps-AllPresent, scan_links-step, inspect_generation-scans,
}

-- Once a link of an interrupted load was missed, or where not all maps are there, no link that follows is.
scan_links-AllAbsent :
    (b : Bpf) (dir : Table Entry) (cgroup_id : ℕ) (legacy maps : Bool) (owned : List ℕ) (i : ℕ)
    (specs : List LinkSpec) (s : LinkScan) {r : LinkScan}
    → scan_links b dir true cgroup_id legacy maps owned i specs s ≡ some r
    → (s.links < i) ⊎ (maps ≡ false)
    → AllAbsent (link_names specs) dir
scan_links-AllAbsent b dir cgroup_id legacy maps owned i [] s h missed = tt
scan_links-AllAbsent b dir cgroup_id legacy maps owned i (spec ∷ specs) s h missed =
    elim (scan_links-step b dir true cgroup_id legacy maps owned i spec specs s h) [
      | inl (c, e) ↦
          let later : (s.links < i + 1) ⊎ (maps ≡ false) = elim missed [
            | inl l ↦ inl (omega (arith, l))
            | inr n ↦ inr n
          ] in
          (
            ground (arith, c),
            scan_links-AllAbsent b dir cgroup_id legacy maps owned (i + 1) specs s e later,
          )
      | inr (got, ((d, here), e)) ↦ elim missed [
        | inl l ↦ absurd (ground (arith, d, l))
        | inr n ↦ absurd (ground (arith, d, n))
      ]
    ]

-- The links of an interrupted load are the first of the pin order.
scan_links-IsPrefix :
    (b : Bpf) (dir : Table Entry) (cgroup_id : ℕ) (legacy maps : Bool) (owned : List ℕ) (i : ℕ)
    (specs : List LinkSpec) (s : LinkScan) {r : LinkScan}
    → scan_links b dir true cgroup_id legacy maps owned i specs s ≡ some r
    → s.links ≡ i
    → IsPrefix dir (link_names specs)
scan_links-IsPrefix b dir cgroup_id legacy maps owned i [] s h at = prefix-end tt
scan_links-IsPrefix b dir cgroup_id legacy maps owned i (spec ∷ specs) s h at =
    elim (scan_links-step b dir true cgroup_id legacy maps owned i spec specs s h) [
      | inl (c, e) ↦
          let missed : (s.links < i + 1) ⊎ (maps ≡ false) = inl (omega (arith, at)) in
          prefix-end (
            ground (arith, c),
            scan_links-AllAbsent b dir cgroup_id legacy maps owned (i + 1) specs s e missed,
          )
      | inr (got, ((d, here), e)) ↦ prefix-pinned here (
          scan_links-IsPrefix b dir cgroup_id legacy maps owned (i + 1) specs (collected spec s got)
            e (ap (λ (k : ℕ). k + 1) at))
    ]

-- Of an interrupted load that is accepted, the links are the first ones of the pin order, and where there is any
-- link, all maps are there.
pub inspect_generation-IsPrefix :
    (b : Bpf) (dir : Table Entry) (version : Option ℕ) (cgroup_id : ℕ) {g : Generation}
    → inspect_generation b dir version true cgroup_id ≡ some g
    → IsPrefix dir (link_names link_specs)
      × (AllPresent (map_names map_specs) dir ⊎ AllAbsent (link_names link_specs) dir)
inspect_generation-IsPrefix b dir version cgroup_id {g} h =
    let (m, r, ((maps, links), kept)) = inspect_generation-scans b dir version true cgroup_id h in
    let legacy = is_legacy dir true m in
    let whole = m.pinned == length map_specs in
    (
      scan_links-IsPrefix b dir cgroup_id legacy whole m.owned 0 link_specs none_yet links refl,
      elim (Bool-cases whole) [
        | inl e ↦
            inl ((scan_maps-AllPresent b dir true map_specs first_map maps).1 (ground (arith, e)))
        | inr e ↦ inr (
            scan_links-AllAbsent b dir cgroup_id legacy whole m.owned 0 link_specs none_yet links
              (inr e))
      ],
    )
