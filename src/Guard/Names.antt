-- ===== src/Guard/Names.antt =====
-- The rules on names of resolver_guard.bpf.c: which role a directory entry has by its own name,
-- its parent and the slot map.
use wireguard_dns_program_sp.Base.{
  ℕ, zero, suc, ◌+◌, ◌-◌, ◌*◌, ◌%◌, ◌^◌, Bool, true, false, not, ◌&&◌, ◌||◌, List, [], ◌∷◌, ltb,
  leb, ◌==◌, ◌!=◌, if◌then◌else◌, get_or, codes, bit_or,
}
use wireguard_dns_program_sp.Kernel.{Kernel}
use wireguard_dns_program_sp.Guard.Maps.{
  GuardMaps, GuardSlot, has, or_zero, inode_id, directory_role, role_socket, role_cache,
  role_cache_dir, role_nscd_parent, role_user_root, role_runtime, role_systemd,
}

-- `NAME_IS`: the literal and its NUL.
unfoldable pub name_is : List ℕ → List ℕ → Bool
name_is buf [] = get_or buf 0 0 == 0
name_is [] (c ∷ cs) = c == 0 && name_is [] cs
name_is (b ∷ bs) (c ∷ cs) = b == c && name_is bs cs

-- `enum parent_label`.
abbrev pub parent_socket : ℕ
parent_socket = 2 ^ 8

abbrev pub parent_bus_socket : ℕ
parent_bus_socket = 2 ^ 9

abbrev pub parent_resolve : ℕ
parent_resolve = 2 ^ 10

abbrev pub parent_user_bus : ℕ
parent_user_bus = 2 ^ 11

-- The unrolled loop over the ten digits that a user id can have, from digit i on. `name[i]` is a
-- signed char there; where that matters the name is invalid, and the number is not used.
unfoldable pub uid_digits : ℕ → ℕ → ℕ → List ℕ → Bool → ℕ → Bool × ℕ
uid_digits zero i length name valid number = (valid, number)
uid_digits (suc left) i length name valid number =
    let c = get_or name i 0 in
    let taken = ltb i (length - 1) in
    uid_digits left (i + 1) length name (if taken then valid && leb b'0' c && leb c b'9' else valid)
      (if taken then (number * 10 + (c + 2 ^ 64 - b'0')) % 2 ^ 64 else number)

abbrev pub when : Bool → ℕ → ℕ → ℕ
when c x bits = if c then bit_or bits x else bits

-- Whether the numeric name of a runtime directory is the uid of its owner.
unfoldable pub names_owner : List ℕ → ℕ → ℕ → Bool
unfolding uid_digits
names_owner name length uid =
    let (valid, number) = uid_digits 10 0 length name (ltb 1 length && ltb length 12) 0 in
    valid && leb number 0xffffffff && number == uid

unfoldable pub parent_names : Kernel → ℕ → ℕ → ℕ → ℕ
unfolding name_is names_owner
parent_names k name_ptr ancestor directory =
    let r = k.read_str 20 name_ptr in
    let runtime = has ancestor role_runtime in
    let sockets =
      runtime && (name_is r.bytes (codes "nscd") || name_is r.bytes (codes "avahi-daemon")) in
    let bus = runtime && name_is r.bytes (codes "dbus") in
    let resolve = has ancestor role_systemd && name_is r.bytes (codes "resolve") in
    let user =
      has ancestor role_user_root && names_owner r.bytes r.length (k.inode directory).uid in
    when user parent_user_bus
      (when resolve parent_resolve (when bus parent_bus_socket (when sockets parent_socket 0)))

unfoldable pub socket_child : List ℕ → ℕ → Bool
unfolding name_is
socket_child name bits =
    name_is name (codes "socket") && has bits parent_socket
    || name_is name (codes "system_bus_socket") && has bits parent_bus_socket
    || name_is name (codes "io.systemd.Resolve") && has bits parent_resolve
    || name_is name (codes "bus") && has bits parent_user_bus

-- The return of `dentry_role` and its `*cacheable`.
pub record DentryRole : Type 0 where
  pub role : ℕ
  pub cacheable : Bool

abbrev pub is_cache_name : List ℕ → Bool
is_cache_name name =
    get_or name 0 0 == b'h'
      && get_or name 1 0 == b'o'
      && get_or name 2 0 == b's'
      && get_or name 3 0 == b't'
      && get_or name 4 0 == b's'
      && get_or name 5 0 == 0
    || get_or name 0 0 == b'd'
      && get_or name 1 0 == b'b'
      && get_or name 2 0 != 0
      && get_or name 7 0 != 0
      && get_or name 8 0 == 0

-- The rules for the caches of nscd: by the role of the directory, or by its name.
unfoldable pub cache_rules : Kernel → GuardMaps → ℕ → List ℕ → ℕ → ℕ
cache_rules k s parent name slot =
    let role =
      when (is_cache_name name && has (directory_role k s parent) role_cache_dir) role_cache slot in
    let p = k.dentry parent in
    let r = k.read_str 6 p.name in
    let below_nscd =
      r.length == 5
      && get_or r.bytes 0 0 == b'n'
      && get_or r.bytes 1 0 == b's'
      && get_or r.bytes 2 0 == b'c'
      && get_or r.bytes 3 0 == b'd'
      && has (directory_role k s p.parent) role_nscd_parent in
    when (is_cache_name name && not (has role role_cache) && below_nscd) role_cache role

abbrev pub is_socket_name : List ℕ → Bool
unfolding name_is
is_socket_name name =
    name_is name (codes "socket")
    || name_is name (codes "system_bus_socket")
    || name_is name (codes "io.systemd.Resolve")

abbrev pub is_bus_name : List ℕ → Bool
unfolding name_is
is_bus_name name = name_is name (codes "bus")

abbrev pub tmpfs_magic : ℕ
tmpfs_magic = 0x01021994

-- The rules for sockets in a standard directory, and for the bus at the root of a tmpfs.
unfoldable pub socket_rules : Kernel → GuardMaps → ℕ → List ℕ → ℕ → ℕ
socket_rules k s parent name cached =
    let p = k.dentry parent in
    let child =
      (is_socket_name name || is_bus_name name)
      && socket_child name (parent_names k p.name (directory_role k s p.parent) p.inode) in
    let tmpfs_root =
      is_bus_name name && parent == p.parent && (k.inode p.inode).magic == tmpfs_magic in
    when tmpfs_root role_socket (when child role_socket cached)

unfoldable pub role_by_name : Kernel → GuardMaps → ℕ → List ℕ → DentryRole
unfolding cache_rules socket_rules
role_by_name k s parent name =
    let key : GuardSlot = record { parent = inode_id k (k.dentry parent).inode; name = name } in
    let slot = or_zero (s.guard_slots key) in
    record {
      role = socket_rules k s parent name (cache_rules k s parent name slot);
      cacheable = not (is_cache_name name) && not (is_socket_name name) && not (is_bus_name name);
    }

unfoldable pub dentry_role : Kernel → GuardMaps → ℕ → DentryRole
unfolding role_by_name
dentry_role k s dentry =
    let d = k.dentry dentry in
    let copied = k.read_str 64 d.name in
    let extra = k.read 1 (d.name + 63) in
    let nothing : DentryRole = record { role = 0; cacheable = false } in
    let too_long : DentryRole = record { role = 0; cacheable = true } in
    if dentry == 0
    then nothing
    else if ltb copied.length 1
    then nothing
    else if copied.length == 64 && extra.length == 0
    then nothing
    else if copied.length == 64 && get_or extra.bytes 0 0 != 0
    then too_long
    else role_by_name k s d.parent copied.bytes
