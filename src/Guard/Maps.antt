-- ===== src/Guard/Maps.antt =====
-- The maps of src/linux/bpf/resolver_guard.bpf.c, the keys of policy.bpf.h, and what is counted.
use wireguard_dns_program_sp.Base.{
  ℕ, ◌^◌, Bool, ◌&&◌, List, Option, none, some, ◌==◌, ◌!=◌, if◌then◌else◌, bit_and,
}
use wireguard_dns_program_sp.Kernel.{Kernel}
use wireguard_dns_program_sp.Policy.{PolicyMaps, policy_select, passes, count_at}

pub record ObjectId : Type 0 where
  pub dev : ℕ
  pub ino : ℕ

-- Identity of an inode in negative_roles and held_roles.
pub record NegativeKey : Type 0 where
  pub inode : ℕ
  pub ino : ℕ
  pub dev : ℕ
  pub generation : ℕ

-- The name is its bytes up to the zero filling.
pub record GuardSlot : Type 0 where
  pub parent : ObjectId
  pub name : List ℕ

pub record EndpointName : Type 0 where
  pub netns : ℕ
  pub length : ℕ
  pub name : List ℕ

-- `enum object_role`.
abbrev pub role_socket : ℕ
role_socket = 1

abbrev pub role_cache : ℕ
role_cache = 2

abbrev pub role_cache_dir : ℕ
role_cache_dir = 4

abbrev pub role_nscd_parent : ℕ
role_nscd_parent = 8

abbrev pub role_user_root : ℕ
role_user_root = 16

abbrev pub role_runtime : ℕ
role_runtime = 32

abbrev pub role_systemd : ℕ
role_systemd = 64

-- `GUARD_SETTLED`.
abbrev pub guard_settled : ℕ
guard_settled = 2 ^ 62

-- `x & mask` as a condition.
abbrev pub has : ℕ → ℕ → Bool
has x mask = bit_and x mask != 0

-- The maps of the guard and of the policy. Storage of an inode or a socket goes by its address,
-- and of a stream label its word is kept; the other members are never read.
pub record GuardMaps : Type 0 where
  pub policy : PolicyMaps
  pub guard_slots : GuardSlot → Option ℕ
  pub guard_dirs : ObjectId → Option ℕ
  pub endpoint_names : EndpointName → Option ℕ
  pub object_roles : ℕ → Option ℕ
  pub negative_roles : NegativeKey → Option ℕ
  pub held_roles : NegativeKey → Option ℕ
  pub stream_roles : ℕ → Option ℕ
  pub role_generation : Option ℕ
  pub guard_config : Option ℕ
  pub guard_stats : ℕ → Option ℕ

abbrev pub key_eq : NegativeKey → NegativeKey → Bool
key_eq a b = a.inode == b.inode && a.ino == b.ino && a.dev == b.dev && a.generation == b.generation

-- `bpf_map_update_elem(&map, &key, &value, BPF_ANY)` where it succeeds.
abbrev pub put {ℓ} :
    {V : Type ℓ} → (NegativeKey → Option V) → NegativeKey → V → NegativeKey → Option V
put m key v j = if key_eq key j then some v else m j

-- `bpf_map_delete_elem`.
abbrev pub delete {ℓ} :
    {V : Type ℓ} → (NegativeKey → Option V) → NegativeKey → NegativeKey → Option V
delete m key j = if key_eq key j then none else m j

abbrev pub store {ℓ} : {V : Type ℓ} → (ℕ → Option V) → ℕ → V → ℕ → Option V
store m key v j = if key == j then some v else m j

abbrev pub guard_lookups : ℕ
guard_lookups = 0

abbrev pub guard_denies : ℕ
guard_denies = 1

abbrev pub guard_objects : ℕ
guard_objects = 2

abbrev pub guard_unknown : ℕ
guard_unknown = 3

abbrev pub guard_count : GuardMaps → ℕ → GuardMaps
guard_count s reason = record s { guard_stats = count_at s.guard_stats reason }

-- What an LSM program returns: 0, -EACCES, or the nonzero result of an earlier program.
pub data Answer : Type 0 where
  okay : Answer
  eacces : Answer
  earlier : ℕ → Answer

unfoldable pub guard_selected : Kernel → GuardMaps → GuardMaps × Answer
guard_selected k s =
    let looked = guard_count s guard_lookups in
    if passes (policy_select k looked.policy)
    then (looked, Answer.okay)
    else (guard_count looked guard_denies, Answer.eacces)

abbrev pub inode_id : Kernel → ℕ → ObjectId
inode_id k i = record { dev = (k.inode i).dev; ino = (k.inode i).ino }

abbrev pub inode_key : Kernel → ℕ → NegativeKey
inode_key k i = record {
  inode = i;
  ino = (k.inode i).ino;
  dev = (k.inode i).dev;
  generation = (k.inode i).generation;
}

abbrev pub or_zero : Option ℕ → ℕ
or_zero none = 0
or_zero (some v) = v

abbrev pub inode_role : Kernel → GuardMaps → ℕ → ℕ
inode_role k s i = or_zero (s.guard_dirs (inode_id k i))

abbrev pub directory_role : Kernel → GuardMaps → ℕ → ℕ
directory_role k s d = inode_role k s (k.dentry d).inode
