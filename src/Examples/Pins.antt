-- ===== src/Examples/Pins.antt =====
-- Instances for src/linux/native/pin-set.h, pin-removal.h and bpf-loader.cpp: a removal that is stopped, a load that
-- was interrupted behind its first link, and one that is whole.
use wireguard_dns_program_sp.Base.{
  ℕ, ◌+◌, ◌≡◌, refl, Bool, true, false, not, ◌⊎◌, Option, none, some, List, [], ◌∷◌, ◌++◌, codes,
  get_elem?,
}
use wireguard_dns_program_sp.Base.Lists.{bytes_eq}
use wireguard_dns_program_sp.Dns.Table.{Table, lookup, erase}
use wireguard_dns_program_sp.Loader.Pins.{
  MapType, MapSpec, LinkKind, LinkSpec, map_specs, link_specs, map_names, link_names, pin_all,
  unpin_all, pin_order, removal_order,
}
use wireguard_dns_program_sp.Loader.Pins.Prefix.{AllPresent, AllAbsent, IsPrefix, among}
use wireguard_dns_program_sp.Loader.Pins.Invalidators.{
  pinned-load, pinned-removal, select, caches, Pinned-guarded,
}
use wireguard_dns_program_sp.Loader.Entries.{
  Entry, ProgramInfo, Bpf, legacy_capacity, matches_map, open_map, attaches, hooks, member,
  all_members, open_link,
}
use wireguard_dns_program_sp.Loader.Inspect.{
  inspect_generation, scan_maps, scan_links, all_known, hooks_available, no_added_links,
}
use wireguard_dns_program_sp.Loader.Inspect.Partial.{inspect_generation-IsPrefix}
use wireguard_dns_program_sp.Loader.Inspect.Complete.{
  required_maps, required_links, added_links, inspect_generation-AllPresent,
}

abbrev object : List ℕ → ℕ
object name = 1

-- A whole load whose removal stopped behind three names.
abbrev stopped : Table ℕ
stopped = unpin_all 3 removal_order (pin_all 30 object pin_order [])

Pinned-guarded_example :
    AllPresent (map_names map_specs) stopped
    × AllPresent (link_names (select (λ spec. not (caches spec)) link_specs)) stopped
unfolding pin_all unpin_all erase lookup bytes_eq among
Pinned-guarded_example =
    Pinned-guarded (codes "link_rename") (pinned-removal (pinned-load 30 object) 3) refl refl

abbrev number_of : MapType → ℕ
number_of MapType.hash = 1
number_of MapType.array = 2
number_of MapType.percpu_array = 6
number_of MapType.lru_hash = 9
number_of MapType.inode_storage = 28
number_of MapType.sk_storage = 24

abbrev pinned_maps : ℕ → List MapSpec → Table Entry
pinned_maps id [] = []
pinned_maps id (spec ∷ specs) =
    (
      spec.name,
      record {
        map_info = some (record {
          id = id;
          key_size = spec.key;
          value_size = spec.value;
          type = number_of spec.type;
          max_entries = spec.entries;
          name = spec.name;
        });
        link_info = none;
      },
    )
    ∷ pinned_maps (id + 1) specs

abbrev type_of : LinkKind → ℕ
type_of LinkKind.cgroup = 3
type_of _ = 2

abbrev attach_of : LinkKind → ℕ
attach_of LinkKind.cgroup = 43
attach_of LinkKind.lsm = 27
attach_of LinkKind.fexit = 25

abbrev pinned_links : ℕ → List LinkSpec → Table Entry
pinned_links id [] = []
pinned_links id (spec ∷ specs) =
    (
      spec.pin,
      record {
        map_info = none;
        link_info = some (record {
          id = id;
          prog_id = id;
          type = type_of spec.kind;
          attach_type = attach_of spec.kind;
          target = 7;
          cgroup_id = 5;
        });
      },
    )
    ∷ pinned_links (id + 1) specs

abbrev ids : List ℕ
ids = 1 ∷ 2 ∷ 3 ∷ 4 ∷ 5 ∷ 6 ∷ 7 ∷ 8 ∷ 9 ∷ 10 ∷ 11 ∷ 12 ∷ 13 ∷ 14 ∷ 15 ∷ []

abbrev kind_of : LinkKind → ℕ
kind_of LinkKind.fexit = 26
kind_of _ = 29

abbrev program_of : Option LinkSpec → Option ProgramInfo
program_of none = none
program_of (some spec) =
    some
      (record { type = kind_of spec.kind; name = spec.program; attach_btf_id = 7; map_ids = ids })

abbrev kernel : Bpf
kernel = record {
  program = λ id. program_of (get_elem? link_specs id);
  hook_type = λ spec. 7;
  map_type = number_of;
  link_cgroup = 3;
  link_tracing = 2;
  attach_lsm_cgroup = 43;
  attach_lsm_mac = 27;
  attach_fexit = 25;
  program_tracing = 26;
  program_lsm = 29;
}

abbrev a_first : List LinkSpec → List LinkSpec
a_first [] = []
a_first (spec ∷ specs) = spec ∷ []

-- The map `scratch` alone.
abbrev one_map : List MapSpec → List MapSpec
one_map (a ∷ b ∷ c ∷ spec ∷ specs) = spec ∷ []
one_map _ = []

abbrev is_accepted : {A : Type 0} → Option A → Bool
is_accepted none = false
is_accepted (some g) = true

abbrev interrupted : Table Entry
interrupted = pinned_maps 1 map_specs ++ pinned_links 0 (a_first link_specs)

abbrev whole : Table Entry
whole = pinned_maps 1 map_specs ++ pinned_links 0 link_specs

inspect_generation-IsPrefix_example :
    IsPrefix interrupted (link_names link_specs)
    × (AllPresent (map_names map_specs) interrupted ⊎ AllAbsent (link_names link_specs) interrupted)
unfolding inspect_generation scan_maps scan_links all_known hooks_available no_added_links open_map
    open_link matches_map legacy_capacity attaches hooks member all_members lookup bytes_eq among
inspect_generation-IsPrefix_example = inspect_generation-IsPrefix kernel interrupted none 5 refl

inspect_generation-AllPresent_example :
    (AllPresent (map_names map_specs) whole × AllPresent (link_names link_specs) whole)
    ⊎ ((AllPresent (required_maps map_specs) whole × AllPresent (required_links link_specs) whole)
        × AllAbsent (added_links link_specs) whole)
unfolding inspect_generation scan_maps scan_links all_known hooks_available no_added_links open_map
    open_link matches_map legacy_capacity attaches hooks member all_members lookup bytes_eq among
inspect_generation-AllPresent_example = inspect_generation-AllPresent kernel whole (some 4) 5 refl

-- Of the maps of an interrupted load any may be missing, as long as no link is pinned.
gap_accepted :
    is_accepted (inspect_generation kernel (pinned_maps 4 (one_map map_specs)) none true 5) ≡ true
unfolding inspect_generation scan_maps scan_links all_known hooks_available no_added_links open_map
    open_link matches_map legacy_capacity attaches hooks member all_members lookup bytes_eq among
gap_accepted = refl
