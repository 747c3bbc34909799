-- ===== src/Guard/Roles.antt =====
-- The roles of inodes and sockets: what resolver_guard.bpf.c commits, holds and caches. An `int`
-- role is `none` where it is negative.
pub mod Frame
pub mod Exact
pub mod Kept
use wireguard_dns_program_sp.Base.{
  ℕ, ◌+◌, ◌-◌, ◌%◌, ◌^◌, Bool, true, false, not, ◌&&◌, ◌||◌, Option, none, some, ltb, ◌==◌, ◌!=◌,
  if◌then◌else◌, get_or, bit_or,
}
use wireguard_dns_program_sp.Kernel.{Kernel, Creation}
use wireguard_dns_program_sp.Guard.Maps.{
  GuardMaps, NegativeKey, EndpointName, has, or_zero, inode_key, store, put, guard_settled,
}
use wireguard_dns_program_sp.Guard.Names.{DentryRole, dentry_role}

abbrev pub Role : Type 0
Role = Option ℕ

abbrev pub held_role : Kernel → GuardMaps → ℕ → ℕ
held_role k s inode = or_zero (s.held_roles (inode_key k inode))

-- `*label |= role` on the storage of an inode.
abbrev pub commit : GuardMaps → ℕ → ℕ → ℕ → GuardMaps × Role
commit s inode old role =
    (record s { object_roles = store s.object_roles inode (bit_or old role) }, some role)

unfoldable pub label_created : GuardMaps → ℕ → ℕ → Creation → GuardMaps × Role
label_created s inode role Creation.created = commit s inode role role
label_created s inode role (Creation.raced other) = commit s inode other role
label_created s inode role Creation.failed = (s, none)

unfoldable pub label_stored : Kernel → GuardMaps → ℕ → ℕ → Option ℕ → GuardMaps × Role
unfolding label_created
label_stored k s inode role none = label_created s inode role (k.create_role inode)
label_stored k s inode role (some old) = commit s inode old role

unfoldable pub label_inode : Kernel → GuardMaps → ℕ → ℕ → GuardMaps × Role
unfolding label_stored
label_inode k s inode role =
    if inode != 0 && role != 0
    then label_stored k s inode role (s.object_roles inode)
    else (s, some role)

unfoldable pub object_role_uncached : Kernel → GuardMaps → ℕ → ℕ → GuardMaps × Role
object_role_uncached k s dentry inode =
    let known = or_zero (s.object_roles inode) in
    if inode == 0 || dentry == 0
    then (s, some 0)
    else if known != 0
    then (s, some known)
    else label_inode k s inode (dentry_role k s dentry).role

abbrev pub epoch_of : ℕ → ℕ → ℕ
epoch_of config generation = (config + generation) % 2 ^ 64

-- Neither an enrollment in progress nor an unsettled guard nor a second link.
abbrev pub is_stable : Kernel → ℕ → ℕ → Bool
is_stable k config inode =
    not (has config 1) && has config guard_settled && (k.inode inode).nlink == 1

abbrev pub matches : Option ℕ → ℕ → Bool
matches none v = false
matches (some c) v = c == v

-- `bpf_map_update_elem(&negative_roles, ...)`.
abbrev pub remember : Kernel → GuardMaps → ℕ → ℕ → GuardMaps
remember k s inode epoch = record s {
  negative_roles = put s.negative_roles (inode_key k inode) epoch;
}

-- The end of `object_role`: the role is resolved, and "no role" is cached where that is exact.
unfoldable pub resolve_role : Kernel → GuardMaps → ℕ → ℕ → ℕ → Bool → GuardMaps × Role
resolve_role k s dentry inode epoch stable =
    let found = dentry_role k s dentry in
    let labelled = label_inode k s inode found.role in
    if matches labelled.1 0 && found.cacheable && stable
    then (remember k labelled.0 inode epoch, labelled.1)
    else labelled

unfoldable pub object_role_cached :
    Kernel → GuardMaps → ℕ → ℕ → Option ℕ → Option ℕ → GuardMaps × Role
unfolding resolve_role
object_role_cached k s dentry inode (some config) (some generation) =
    let epoch = epoch_of config generation in
    let stable = is_stable k config inode in
    if stable && matches (s.negative_roles (inode_key k inode)) epoch
    then (s, some 0)
    else resolve_role k s dentry inode epoch stable
object_role_cached k s dentry inode _ _ = (s, none)

unfoldable pub object_role : Kernel → GuardMaps → ℕ → ℕ → GuardMaps × Role
unfolding object_role_cached
object_role k s dentry inode =
    let known = or_zero (s.object_roles inode) in
    let held = held_role k s inode in
    if inode == 0 || dentry == 0
    then (s, some 0)
    else if known != 0
    then (s, some known)
    else if held != 0
    then (s, some held)
    else object_role_cached k s dentry inode s.guard_config s.role_generation

-- The key of `address_role`; `none` where it returns 0 without a lookup.
unfoldable pub address_key : Kernel → ℕ → ℕ → Option EndpointName
address_key k unix address =
    let a = k.address address in
    let length = a.len - 2 in
    let netns = (k.unix unix).netns in
    let first = get_or (k.read 1 a.path).bytes 0 0 in
    let text = k.read_str 108 a.path in
    let raw = k.read length a.path in
    if ltb length 1 || ltb 108 length
    then none
    else if first != 0
    then (if ltb text.length 1 || ltb 108 text.length
        then none
        else some (record { netns = netns; length = text.length; name = text.bytes }))
    else if raw.length == 0
    then none
    else some (record { netns = netns; length = length; name = raw.bytes })

abbrev pub endpoint_role : GuardMaps → Option EndpointName → ℕ
endpoint_role s none = 0
endpoint_role s (some key) = or_zero (s.endpoint_names key)

unfoldable pub address_role : Kernel → GuardMaps → ℕ → ℕ → ℕ
unfolding address_key
address_role k s unix address =
    if address == 0 then 0 else endpoint_role s (address_key k unix address)

unfoldable pub unix_role : Kernel → GuardMaps → ℕ → GuardMaps × Role
unix_role k s unix =
    let dentry = (k.unix unix).dentry in
    let (s', role) =
      if dentry != 0 then object_role k s dentry (k.dentry dentry).inode else (s, some 0) in
    if matches role 0 then (s', some (address_role k s' unix (k.unix unix).addr)) else (s', role)

unfoldable pub peer_role : Kernel → GuardMaps → ℕ → GuardMaps × Role
peer_role k s peer =
    let unix = (k.sock peer).unix in
    if peer == 0 then (s, some 0) else if unix == 0 then (s, some 0) else unix_role k s unix
