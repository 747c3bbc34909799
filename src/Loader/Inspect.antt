-- ===== src/Loader/Inspect.antt =====
-- `inspect_generation` of src/linux/native/bpf-loader.cpp: whether a pin directory is this loader's, and
-- how far an interrupted load had come.
pub mod Scan
pub mod Partial
pub mod Complete
use wireguard_dns_program_sp.Base.{
  ℕ, zero, suc, ◌+◌, Bool, true, false, not, ◌&&◌, ◌||◌, Option, none, some, List, [], ◌∷◌, ◌++◌,
  ◌==◌, ◌!=◌, if◌then◌else◌, codes, length,
}
use wireguard_dns_program_sp.Policy.{policy_abi}
use wireguard_dns_program_sp.Base.Lists.{bytes_eq}
use wireguard_dns_program_sp.Dns.Table.{Table, lookup}
use wireguard_dns_program_sp.Loader.Pins.{
  MapType, MapSpec, LinkKind, LinkSpec, map_specs, link_specs, map_names, link_names, exists,
  pin_order,
}
use wireguard_dns_program_sp.Loader.Pins.Prefix.{among}
use wireguard_dns_program_sp.Loader.Entries.{
  MapInfo, LinkInfo, ProgramInfo, Entry, Bpf, legacy_capacity, matches_map, map_of, matched,
  open_map, link_of, attaches, program_type, hooks, member, all_members, linked, link_found,
  open_link,
}

pub record Generation : Type 0 where
  pub classifiers : List ℕ
  pub links : ℕ
  pub maps : Bool

-- What the loop over the maps counts.
pub record MapScan : Type 0 where
  pub owned : List ℕ
  pub pinned : ℕ
  pub legacy_maps : ℕ
  pub missing_added : ℕ

abbrev pub one_if : Bool → ℕ
one_if true = 1
one_if false = 0

abbrev pub counted : MapSpec → MapScan → MapInfo → MapScan
counted spec s info = record s {
  owned = info.id ∷ s.owned;
  pinned = s.pinned + 1;
  legacy_maps = s.legacy_maps + one_if (info.max_entries != spec.entries);
}

unfoldable pub scan_maps : Bpf → Table Entry → Bool → List MapSpec → MapScan → Option MapScan
unfolding open_map
scan_maps b dir partial [] s = some s
scan_maps b dir partial (spec ∷ specs) s =
    let skipped =
      scan_maps b dir partial specs
        (record s { missing_added = s.missing_added + one_if spec.added }) in
    let opened = elim (open_map b dir spec) as (λ info. Option MapScan) [
      | none ↦ none
      | some info ↦ scan_maps b dir partial specs (counted spec s info)
    ] in
    if (partial || spec.added) && not (exists spec.name dir) then skipped else opened

unfoldable pub no_added_links : Table Entry → List LinkSpec → Bool
no_added_links dir [] = true
no_added_links dir (spec ∷ specs) =
    let rest = no_added_links dir specs in not (spec.added && exists spec.pin dir) && rest

-- What the loop over the links collects.
pub record LinkScan : Type 0 where
  pub classifiers : List ℕ
  pub links : ℕ
  pub used : List ℕ

abbrev pub collects : LinkKind → Bool
collects LinkKind.cgroup = true
collects _ = false

abbrev pub collected : LinkSpec → LinkScan → LinkInfo × ProgramInfo → LinkScan
collected spec s (info, program) = record {
  classifiers = if collects spec.kind then info.prog_id ∷ s.classifiers else s.classifiers;
  links = s.links + 1;
  used = program.map_ids ++ s.used;
}

unfoldable pub scan_links :
    Bpf
    → Table Entry
    → Bool
    → ℕ
    → Bool
    → Bool
    → List ℕ
    → ℕ
    → List LinkSpec
    → LinkScan
    → Option LinkScan
unfolding open_link
scan_links b dir partial cgroup_id legacy maps owned i [] s = some s
scan_links b dir partial cgroup_id legacy maps owned i (spec ∷ specs) s =
    let skipped = scan_links b dir partial cgroup_id legacy maps owned (i + 1) specs s in
    let opened = elim (open_link b dir partial cgroup_id owned spec) as (λ found. Option LinkScan) [
      | none ↦ none
      | some found ↦
          scan_links b dir partial cgroup_id legacy maps owned (i + 1) specs
            (collected spec s found)
    ] in
    if (partial || legacy && spec.added) && not (exists spec.pin dir)
    then skipped
    else if partial && (s.links != i || not maps)
    then none
    else opened

unfoldable pub all_known : List (List ℕ) → Table Entry → Bool
unfolding among
all_known names [] = true
all_known names ((name, entry) ∷ dir) = let rest = all_known names dir in among name names && rest

unfoldable pub hooks_available : Bpf → List LinkSpec → Bool
hooks_available b [] = true
hooks_available b (spec ∷ specs) =
    let rest = hooks_available b specs in b.hook_type spec != 0 && rest

abbrev pub is_legacy : Table Entry → Bool → MapScan → Bool
is_legacy dir partial m =
    not partial && m.legacy_maps == 2 && m.missing_added != 0 && no_added_links dir link_specs

abbrev pub generation_of : Bool → MapScan → Option LinkScan → Option Generation
generation_of partial m none = none
generation_of partial m (some s) =
    if not partial && not (all_members m.owned s.used)
    then none
    else some (record {
      classifiers = s.classifiers;
      links = s.links;
      maps = m.pinned == length map_specs;
    })

abbrev pub maps_agree : Table Entry → Bool → MapScan → Bool
maps_agree dir partial m =
    (m.legacy_maps == 0 || m.legacy_maps == 2)
    && not (not partial && m.missing_added != 0 && not (is_legacy dir partial m))

abbrev pub first_map : MapScan
first_map = record { owned = []; pinned = 0; legacy_maps = 0; missing_added = 0 }

abbrev pub none_yet : LinkScan
none_yet = record { classifiers = []; links = 0; used = [] }

-- From the maps on.
abbrev pub inspect_links : Bpf → Table Entry → Bool → ℕ → Option MapScan → Option Generation
inspect_links b dir partial cgroup_id none = none
inspect_links b dir partial cgroup_id (some m) =
    if maps_agree dir partial m
    then generation_of partial m (
        scan_links b dir partial cgroup_id (is_legacy dir partial m) (m.pinned == length map_specs)
          m.owned 0 link_specs none_yet)
    else none

abbrev pub is_current : Option ℕ → Bool
is_current none = false
is_current (some v) = v == policy_abi

-- `version` is that of the configuration in the directory's policy_cfg.
unfoldable pub inspect_generation : Bpf → Table Entry → Option ℕ → Bool → ℕ → Option Generation
unfolding scan_maps scan_links all_known hooks_available no_added_links
inspect_generation b dir version partial cgroup_id =
    if all_known pin_order dir && (partial || is_current version) && hooks_available b link_specs
    then inspect_links b dir partial cgroup_id (scan_maps b dir partial map_specs first_map)
    else none
