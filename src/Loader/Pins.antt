-- ===== src/Loader/Pins.antt =====
-- src/linux/native/pin-set.h and pin-removal.h, and the pinning of bpf-loader.cpp: which objects are
-- pinned, in which order, and what a load or a removal that stops midway leaves in the directory.
pub mod Prefix
pub mod Invalidators
use wireguard_dns_program_sp.Base.{
  ℕ, zero, suc, ◌-◌, Bool, true, false, not, Option, none, some, List, [], ◌∷◌, ◌++◌, if◌then◌else◌,
  codes,
}
use wireguard_dns_program_sp.Dns.Table.{Table, lookup, erase}

pub data MapType : Type 0 where
  hash array percpu_array inode_storage sk_storage lru_hash : MapType

pub record MapSpec : Type 0 where
  pub name : List ℕ
  pub key : ℕ
  pub value : ℕ
  pub type : MapType
  pub entries : ℕ
  pub added : Bool

pub data LinkKind : Type 0 where
  cgroup lsm fexit : LinkKind

pub record LinkSpec : Type 0 where
  pub pin : List ℕ
  pub program : List ℕ
  pub hook : List ℕ
  pub kind : LinkKind
  pub added : Bool

abbrev a_map : List ℕ → ℕ → ℕ → MapType → ℕ → MapSpec
a_map name key value type entries = record {
  name = name;
  key = key;
  value = value;
  type = type;
  entries = entries;
  added = false;
}

abbrev a_link : List ℕ → List ℕ → List ℕ → LinkKind → Bool → LinkSpec
a_link pin program hook kind added = record {
  pin = pin;
  program = program;
  hook = hook;
  kind = kind;
  added = added;
}

-- The sizes are those of the structures of policy.bpf.h.
abbrev pub map_specs : List MapSpec
map_specs =
    a_map (codes "paths") 4096 4 hash 1024
    ∷ a_map (codes "paths_short") 256 4 hash 1024
    ∷ a_map (codes "policy_cfg") 4 40 array 1
    ∷ a_map (codes "scratch") 4 8192 percpu_array 1
    ∷ a_map (codes "stats") 4 8 percpu_array 9
    ∷ a_map (codes "guard_slots") 80 4 hash 1024
    ∷ a_map (codes "guard_dirs") 16 4 hash 32
    ∷ a_map (codes "endpoint_names") 116 4 hash 1024
    ∷ a_map (codes "object_roles") 4 4 inode_storage 0
    ∷ a_map (codes "stream_roles") 4 24 sk_storage 0
    ∷ a_map (codes "role_generation") 4 8 array 1
    ∷ a_map (codes "guard_config") 4 8 array 1
    ∷ a_map (codes "guard_stats") 4 8 percpu_array 4
    ∷ a_map (codes "negative_roles") 24 8 lru_hash 65536
    ∷ record (a_map (codes "held_roles") 24 4 hash 4096) { added = true }
    ∷ []

abbrev pub link_specs : List LinkSpec
link_specs =
    a_link (codes "link") (codes "classify") (codes "socket_post_create") cgroup false
    ∷ a_link (codes "link_bound") (codes "guard_bound") (codes "unix_bind") fexit true
    ∷ a_link (codes "link_renamed") (codes "guard_renamed") (codes "vfs_rename") fexit true
    ∷ a_link (codes "link_attr") (codes "guard_attr") (codes "inode_post_setattr") lsm true
    ∷ a_link (codes "link_rename") (codes "guard_rename") (codes "inode_rename") lsm false
    ∷ a_link (codes "link_connect") (codes "guard_connect") (codes "unix_stream_connect") lsm false
    ∷ a_link (codes "link_pair") (codes "guard_pair") (codes "socket_socketpair") lsm false
    ∷ a_link (codes "link_send") (codes "guard_send") (codes "socket_sendmsg") lsm false
    ∷ a_link (codes "link_recv") (codes "guard_recv") (codes "socket_recvmsg") lsm false
    ∷ a_link (codes "link_read") (codes "guard_read") (codes "file_permission") lsm false
    ∷ a_link (codes "link_receive") (codes "guard_receive") (codes "file_receive") lsm false
    ∷ a_link (codes "link_open") (codes "guard_open") (codes "file_open") lsm false
    ∷ a_link (codes "link_mmap") (codes "guard_mmap") (codes "mmap_file") lsm false
    ∷ a_link (codes "link_datagram") (codes "guard_datagram") (codes "unix_may_send") lsm false
    ∷ a_link (codes "link_bind") (codes "guard_bind") (codes "socket_bind") lsm false
    ∷ []

abbrev pub map_names : List MapSpec → List (List ℕ)
map_names [] = []
map_names (spec ∷ specs) = spec.name ∷ map_names specs

abbrev pub link_names : List LinkSpec → List (List ℕ)
link_names [] = []
link_names (spec ∷ specs) = spec.pin ∷ link_names specs

-- The names of a load in the order in which it pins them.
abbrev pub pin_order : List (List ℕ)
pin_order = map_names map_specs ++ link_names link_specs

module _ {ℓ} {A : Type ℓ} where
  abbrev pub reverse_onto : List A → List A → List A
  reverse_onto [] done = done
  reverse_onto (x ∷ xs) done = reverse_onto xs (x ∷ done)

-- Both loops run backwards, the links first.
abbrev pub removal_order : List (List ℕ)
removal_order = reverse_onto pin_order []

-- A pin directory: what is pinned under each name.
module _ {Entry : Type 0} where
  abbrev pub is_found : Option Entry → Bool
  is_found none = false
  is_found (some entry) = true

  abbrev pub exists : List ℕ → Table Entry → Bool
  exists name dir = is_found (lookup name dir)

  -- The loops of `load` that pin, with so many calls done before one fails or the load is killed.
  unfoldable pub pin_all : ℕ → (List ℕ → Entry) → List (List ℕ) → Table Entry → Table Entry
  pin_all done object [] dir = dir
  pin_all zero object (name ∷ names) dir = dir
  pin_all (suc done) object (name ∷ names) dir =
      pin_all done object names (dir ++ ((name, object name) ∷ []))

  -- The loops of `remove_pins`, and of `discard_staging` where no call fails, which pass over a name that is not there,
  -- with so many calls done before one fails or the removal is killed.
  unfoldable pub unpin_all : ℕ → List (List ℕ) → Table Entry → Table Entry
  unfolding erase
  unpin_all done [] dir = dir
  unpin_all zero (name ∷ names) dir = dir
  unpin_all (suc done) (name ∷ names) dir =
      let passed = unpin_all (suc done) names dir in
      let removed = unpin_all done names (erase name dir) in
      if exists name dir then removed else passed
