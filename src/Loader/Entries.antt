-- ===== src/Loader/Entries.antt =====
-- What is asked of each pinned object in `map_fd` and `inspect_generation` of bpf-loader.cpp.
use wireguard_dns_program_sp.Base.{
  ℕ, Bool, true, false, not, ◌&&◌, ◌||◌, Option, none, some, List, [], ◌∷◌, ◌==◌, ◌!=◌,
  if◌then◌else◌, codes,
}
use wireguard_dns_program_sp.Base.Lists.{bytes_eq}
use wireguard_dns_program_sp.Dns.Table.{Table, lookup}
use wireguard_dns_program_sp.Loader.Pins.{MapType, MapSpec, LinkKind, LinkSpec}

-- What the kernel tells of a map, a link and a program. The numbers of the types are the kernel's.
pub record MapInfo : Type 0 where
  pub id : ℕ
  pub key_size : ℕ
  pub value_size : ℕ
  pub type : ℕ
  pub max_entries : ℕ
  pub name : List ℕ

pub record LinkInfo : Type 0 where
  pub id : ℕ
  pub prog_id : ℕ
  pub type : ℕ
  pub attach_type : ℕ
  pub target : ℕ
  pub cgroup_id : ℕ

pub record ProgramInfo : Type 0 where
  pub type : ℕ
  pub name : List ℕ
  pub attach_btf_id : ℕ
  pub map_ids : List ℕ

-- A pinned object: what it gives when it is asked as a map and as a link.
pub record Entry : Type 0 where
  pub map_info : Option MapInfo
  pub link_info : Option LinkInfo

-- The programs by their ids, the id of the function that a program hooks (0 where the kernel has none),
-- and the numbers of the types.
pub record Bpf : Type 0 where
  pub program : ℕ → Option ProgramInfo
  pub hook_type : LinkSpec → ℕ
  pub map_type : MapType → ℕ
  pub link_cgroup : ℕ
  pub link_tracing : ℕ
  pub attach_lsm_cgroup : ℕ
  pub attach_lsm_mac : ℕ
  pub attach_fexit : ℕ
  pub program_tracing : ℕ
  pub program_lsm : ℕ

unfoldable pub legacy_capacity : List ℕ → ℕ → Bool
legacy_capacity name entries =
    entries == 128
    && (bytes_eq name (codes "guard_slots") || bytes_eq name (codes "endpoint_names"))

-- `map_fd`, on what the name is found to be.
unfoldable pub matches_map : Bpf → MapSpec → MapInfo → Bool
unfolding legacy_capacity
matches_map b spec info =
    info.key_size == spec.key
    && info.value_size == spec.value
    && info.type == b.map_type spec.type
    && (info.max_entries == spec.entries || legacy_capacity spec.name info.max_entries)
    && bytes_eq info.name spec.name

abbrev pub map_of : Option Entry → Option MapInfo
map_of none = none
map_of (some entry) = entry.map_info

abbrev pub matched : Bpf → MapSpec → Option MapInfo → Option MapInfo
matched b spec none = none
matched b spec (some info) = if matches_map b spec info then some info else none

unfoldable pub open_map : Bpf → Table Entry → MapSpec → Option MapInfo
unfolding matches_map
open_map b dir spec = matched b spec (map_of (lookup spec.name dir))

abbrev pub link_of : Option Entry → Option LinkInfo
link_of none = none
link_of (some entry) = entry.link_info

unfoldable pub attaches : Bpf → Bool → ℕ → LinkSpec → LinkInfo → Bool
attaches b partial cgroup_id spec info = elim spec.kind [
  | LinkKind.cgroup ↦
      info.type == b.link_cgroup
      && info.attach_type == b.attach_lsm_cgroup
      && not (partial && info.cgroup_id != cgroup_id)
  | LinkKind.lsm ↦
      info.type == b.link_tracing
      && info.attach_type == b.attach_lsm_mac
      && info.target == b.hook_type spec
  | LinkKind.fexit ↦
      info.type == b.link_tracing
      && info.attach_type == b.attach_fexit
      && info.target == b.hook_type spec
]

abbrev pub program_type : Bpf → LinkKind → ℕ
program_type b LinkKind.fexit = b.program_tracing
program_type b _ = b.program_lsm

unfoldable pub hooks : Bpf → LinkSpec → ProgramInfo → Bool
hooks b spec program =
    program.type == program_type b spec.kind
    && bytes_eq program.name spec.program
    && program.attach_btf_id == b.hook_type spec

unfoldable pub member : ℕ → List ℕ → Bool
member id [] = false
member id (i ∷ ids) = let rest = member id ids in id == i || rest

unfoldable pub all_members : List ℕ → List ℕ → Bool
unfolding member
all_members [] owned = true
all_members (id ∷ ids) owned = let rest = all_members ids owned in member id owned && rest

-- The link and the program of a pin, where they are what they should be.
abbrev pub linked :
    Bpf
    → Bool
    → ℕ
    → List ℕ
    → LinkSpec
    → LinkInfo
    → Option ProgramInfo
    → Option (LinkInfo × ProgramInfo)
linked b partial cgroup_id owned spec info none = none
linked b partial cgroup_id owned spec info (some program) =
    if attaches b partial cgroup_id spec info
      && hooks b spec program
      && all_members program.map_ids owned
    then some (info, program)
    else none

abbrev pub link_found :
    Bpf → Bool → ℕ → List ℕ → LinkSpec → Option LinkInfo → Option (LinkInfo × ProgramInfo)
link_found b partial cgroup_id owned spec none = none
link_found b partial cgroup_id owned spec (some info) =
    linked b partial cgroup_id owned spec info (b.program info.prog_id)

unfoldable pub open_link :
    Bpf → Table Entry → Bool → ℕ → List ℕ → LinkSpec → Option (LinkInfo × ProgramInfo)
unfolding attaches hooks all_members
open_link b dir partial cgroup_id owned spec =
    link_found b partial cgroup_id owned spec (link_of (lookup spec.pin dir))
