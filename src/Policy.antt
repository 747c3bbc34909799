-- ===== src/Policy.antt =====
-- src/linux/bpf/policy.bpf.h: the maps, and which policy the executable of the current task has.
pub mod Tier
pub mod Paths
use wireguard_dns_program_sp.Base.{
  ℕ, zero, suc, ◌+◌, ◌-◌, ◌%◌, ◌^◌, Bool, true, false, not, ◌&&◌, ◌||◌, List, [], ◌∷◌, Option, none,
  some, ltb, leb, ◌==◌, ◌!=◌, if◌then◌else◌, get_or, set, codes,
}
use wireguard_dns_program_sp.Kernel.{Kernel, Filled}

abbrev pub policy_abi : ℕ
policy_abi = 4

abbrev pub path_bytes : ℕ
path_bytes = 4096

abbrev pub short_path_bytes : ℕ
short_path_bytes = 256

-- `struct policy_config` as the programs use it; `userns` is diagnostic only.
pub record PolicyConfig : Type 0 where
  pub version : ℕ
  pub ready : ℕ
  pub mask : ℕ
  pub mark : ℕ
  pub root_dev : ℕ
  pub root_ino : ℕ
  pub netns : ℕ

-- `enum reason`.
pub data Reason : Type 0 where
  direct included blocked unsupported_context exe_error : Reason
  path_error unlinked_image unsupported_socket sockopt_error : Reason

abbrev pub index : Reason → ℕ
index Reason.direct = 0
index Reason.included = 1
index Reason.blocked = 2
index Reason.unsupported_context = 3
index Reason.exe_error = 4
index Reason.path_error = 5
index Reason.unlinked_image = 6
index Reason.unsupported_socket = 7
index Reason.sockopt_error = 8

-- `selection == DIRECT || selection == UNSUPPORTED_CONTEXT`.
abbrev pub passes : Reason → Bool
passes Reason.direct = true
passes Reason.unsupported_context = true
passes _ = false

-- The maps. A key of the two path maps is its bytes up to the zero filling.
pub record PolicyMaps : Type 0 where
  pub paths : List ℕ → Option ℕ
  pub paths_short : List ℕ → Option ℕ
  pub policy_cfg : Option PolicyConfig
  pub stats : ℕ → Option ℕ

-- `__sync_fetch_and_add(count, 1)` on a 64-bit counter of a map, where the entry is found.
abbrev pub add_one : Option ℕ → Option ℕ
add_one none = none
add_one (some n) = some ((n + 1) % 2 ^ 64)

abbrev pub count_at : (ℕ → Option ℕ) → ℕ → ℕ → Option ℕ
count_at m i j = if i == j then add_one (m j) else m j

-- `result`: the reason is counted, and the verdict handed on.
unfoldable pub result : PolicyMaps → Reason → Bool → PolicyMaps × Bool
result s r allow = (record s { stats = count_at s.stats (index r) }, allow)

unfoldable pub synthetic_file : Kernel → ℕ → Bool
synthetic_file k f = (k.dentry (k.file f).dentry).dname

unfoldable pub linked_file : Kernel → ℕ → Bool
linked_file k f =
    let d = k.dentry (k.file f).dentry in
    let i = (k.file f).inode in i != 0 && (k.inode i).nlink != 0 && d.hashed && not d.dname

-- The comparison of `tail` with " (deleted)" and its NUL.
unfoldable pub tail_is : List ℕ → ℕ → List ℕ → Bool
tail_is buf at [] = get_or buf at 0 == 0
tail_is buf at (c ∷ cs) = get_or buf at 0 == c && tail_is buf (at + 1) cs

abbrev pub deleted_suffix : List ℕ
deleted_suffix = codes " (deleted)"

-- The buffer and length from which the key is made; `none` is a return of PATH_ERROR or
-- UNLINKED_IMAGE before the lookup.
pub data Resolved : Type 0 where
  stop : Reason → Resolved
  path : List ℕ → ℕ → Resolved

unfoldable pub strip_deleted : List ℕ → ℕ → Resolved
unfolding tail_is
strip_deleted buf len =
    let cut = len - 11 in
    if ltb len 12
    then Resolved.stop Reason.path_error
    else if ltb (path_bytes - 11) cut
    then Resolved.stop Reason.path_error
    else if tail_is buf cut deleted_suffix
    then Resolved.path (set buf cut 0) (cut + 1)
    else Resolved.stop Reason.path_error

unfoldable pub resolve_path : Kernel → ℕ → Resolved
unfolding strip_deleted
resolve_path k exe =
    let r = k.d_path exe in
    if leb r.length 1 || ltb path_bytes r.length || get_or r.bytes 0 0 != b'/'
    then Resolved.stop Reason.path_error
    else if linked_file k exe
    then Resolved.path r.bytes r.length
    else if synthetic_file k exe
    then Resolved.stop Reason.unlinked_image
    else strip_deleted r.bytes r.length

-- The outcome of the lookup of the selected tier.
abbrev pub verdict : Option ℕ → Bool → Reason
verdict none linked = Reason.direct
verdict (some _) linked = if linked then Reason.included else Reason.unlinked_image

unfoldable pub lookup_path : Kernel → PolicyMaps → Bool → List ℕ → ℕ → Reason
lookup_path k s linked buf len =
    if leb len short_path_bytes
    then (let key = k.copy_str short_path_bytes buf in
        if key.length != len then Reason.path_error else verdict (s.paths_short key.bytes) linked)
    else (let key = k.copy_str path_bytes buf in
        if key.length != len then Reason.path_error else verdict (s.paths key.bytes) linked)

unfoldable pub resolve_policy : Kernel → PolicyMaps → ℕ → Reason
unfolding resolve_path lookup_path linked_file
resolve_policy k s exe = if not k.scratch then Reason.path_error else elim (resolve_path k exe) [
  | Resolved.stop r ↦ r
  | Resolved.path buf len ↦ lookup_path k s (linked_file k exe) buf len
]

abbrev in_context : Kernel → PolicyConfig → Bool
in_context k cfg =
    k.task.root_ino == cfg.root_ino && k.task.root_dev == cfg.root_dev && k.task.netns == cfg.netns

unfoldable pub select_in : Kernel → PolicyMaps → Option PolicyConfig → Reason
select_in k s none = Reason.blocked
select_in k s (some cfg) =
    if cfg.version != policy_abi
    then Reason.blocked
    else if not (in_context k cfg)
    then Reason.unsupported_context
    else if k.task.exe_file == 0
    then Reason.exe_error
    else resolve_policy k s k.task.exe_file

unfoldable pub policy_select : Kernel → PolicyMaps → Reason
unfolding select_in
policy_select k s = select_in k s s.policy_cfg
