-- ===== src/Guard/Hooks.antt =====
-- The programs of resolver_guard.bpf.c, one for each hook. `ret` is the result of the programs
-- that ran before on the same hook.
use wireguard_dns_program_sp.Base.{
  ℕ, Bool, true, false, not, ◌&&◌, ◌||◌, Option, none, some, ◌==◌, ◌!=◌, if◌then◌else◌, bit_and,
  bit_or, get_or,
}
use wireguard_dns_program_sp.Kernel.{Kernel}
use wireguard_dns_program_sp.Policy.{add_one}
use wireguard_dns_program_sp.Guard.Maps.{
  GuardMaps, Answer, has, put, delete, inode_key, inode_role, directory_role, guard_settled,
  role_socket, role_cache, role_user_root, role_runtime, role_systemd,
}
use wireguard_dns_program_sp.Guard.Names.{dentry_role}
use wireguard_dns_program_sp.Guard.Roles.{Role, object_role_uncached, peer_role, address_role}
use wireguard_dns_program_sp.Guard.Streams.{
  Version, StreamRole, role_version, set_stream_role, tag_of, refuse_selected, stream_guard,
  file_guard, is_stream, file_kind, socket_file, directory,
}

-- `if (ret) return ret;`
abbrev pub unless_refused : GuardMaps → Answer → GuardMaps × Answer → GuardMaps × Answer
unless_refused s Answer.okay run = run
unless_refused s ret run = (s, ret)

-- The hold of `guard_rename`: the generation advances before the entry is added.
unfoldable pub hold_target : Kernel → GuardMaps → ℕ → ℕ → Option ℕ → Option ℕ → GuardMaps × Answer
hold_target k s inode target (some generation) (some config) =
    let advanced = record s { role_generation = add_one (some generation) } in
    if not (has config guard_settled)
    then (s, Answer.okay)
    else if k.hold_fails
    then (advanced, Answer.eacces)
    else (record advanced { held_roles = put s.held_roles (inode_key k inode) target }, Answer.okay)
hold_target k s inode target _ _ = (s, Answer.eacces)

unfoldable pub rename_target : Kernel → GuardMaps → ℕ → ℕ → Role → GuardMaps × Answer
unfolding hold_target
rename_target k s inode new_dentry none = (s, Answer.eacces)
rename_target k s inode new_dentry (some _) =
    let target = bit_and (dentry_role k s new_dentry).role (bit_or role_socket role_cache) in
    if target == 0 || inode == 0
    then (s, Answer.okay)
    else hold_target k s inode target s.role_generation s.guard_config

unfoldable pub guard_rename : Kernel → GuardMaps → ℕ → ℕ → Answer → GuardMaps × Answer
unfolding rename_target
guard_rename k s old_dentry new_dentry ret =
    let inode = (k.dentry old_dentry).inode in
    let (s', role) = object_role_uncached k s old_dentry inode in
    unless_refused s ret (rename_target k s' inode new_dentry role)

-- `set_stream_role(a) || set_stream_role(b)`, the second only if the first succeeded.
unfoldable pub set_both : Kernel → GuardMaps → ℕ → ℕ → StreamRole → Version → GuardMaps × Bool
set_both k s a b role v =
    let (s', first) = set_stream_role k s a role v in
    if first then set_stream_role k s' b role v else (s', false)

abbrev pub decide_tag : Kernel → GuardMaps → StreamRole → GuardMaps × Answer
decide_tag k s StreamRole.safe = (s, Answer.okay)
decide_tag k s StreamRole.protected = refuse_selected k s

unfoldable pub connect_role : Kernel → GuardMaps → ℕ → ℕ → Version → Role → GuardMaps × Answer
unfolding set_both
connect_role k s sock newsk v none = (s, Answer.eacces)
connect_role k s sock newsk v (some role) =
    let tag = tag_of role v in
    let (s', stored) = set_both k s sock newsk tag v in
    if stored then decide_tag k s' tag else (s', Answer.eacces)

-- The version is read before the peer is resolved.
unfoldable pub connect_version :
    Kernel → GuardMaps → ℕ → ℕ → ℕ → Option Version → GuardMaps × Answer
unfolding connect_role
connect_version k s sock other newsk none = (s, Answer.eacces)
connect_version k s sock other newsk (some v) =
    let (s', role) = peer_role k s other in connect_role k s' sock newsk v role

unfoldable pub guard_connect : Kernel → GuardMaps → ℕ → ℕ → ℕ → Answer → GuardMaps × Answer
unfolding connect_version
guard_connect k s sock other newsk ret =
    unless_refused s ret (connect_version k s sock other newsk (role_version s))

unfoldable pub datagram_role : Kernel → GuardMaps → Role → GuardMaps × Answer
datagram_role k s none = (s, Answer.eacces)
datagram_role k s (some role) =
    if has role role_socket then refuse_selected k s else (s, Answer.okay)

unfoldable pub guard_datagram : Kernel → GuardMaps → ℕ → Answer → GuardMaps × Answer
unfolding datagram_role
guard_datagram k s other ret =
    let (s', role) = peer_role k s (k.socket_sk other) in
    unless_refused s ret (datagram_role k s' role)

unfoldable pub pair_version : Kernel → GuardMaps → ℕ → ℕ → Option Version → GuardMaps × Answer
unfolding set_both
pair_version k s one two none = (s, Answer.eacces)
pair_version k s one two (some v) =
    let (s', stored) = set_both k s (k.socket_sk one) (k.socket_sk two) StreamRole.safe v in
    (s', if stored then Answer.okay else Answer.eacces)

unfoldable pub guard_pair : Kernel → GuardMaps → ℕ → ℕ → Answer → GuardMaps × Answer
unfolding pair_version
guard_pair k s one two ret = unless_refused s ret (pair_version k s one two (role_version s))

unfoldable pub guard_bind : GuardMaps → Answer → GuardMaps × Answer
guard_bind s ret = (s, ret)

unfoldable pub guard_open : Kernel → GuardMaps → ℕ → Answer → GuardMaps × Answer
guard_open k s file ret = unless_refused s ret (file_guard k s file false)

unfoldable pub guard_mmap : Kernel → GuardMaps → ℕ → Answer → GuardMaps × Answer
guard_mmap k s file ret = unless_refused s ret (file_guard k s file false)

abbrev pub may_read : ℕ
may_read = 4

unfoldable pub guard_read : Kernel → GuardMaps → ℕ → ℕ → Answer → GuardMaps × Answer
guard_read k s file mask ret =
    if not (has mask may_read) then (s, ret) else unless_refused s ret (file_guard k s file true)

unfoldable pub guard_receive : Kernel → GuardMaps → ℕ → Answer → GuardMaps × Answer
guard_receive k s file ret = unless_refused s ret (file_guard k s file true)

unfoldable pub guard_send : Kernel → GuardMaps → ℕ → Answer → GuardMaps × Answer
guard_send k s socket ret = unless_refused s ret (stream_guard k s socket)

unfoldable pub guard_recv : Kernel → GuardMaps → ℕ → Answer → GuardMaps × Answer
guard_recv k s socket ret = unless_refused s ret (stream_guard k s socket)

unfoldable pub invalidate_streams : GuardMaps → GuardMaps
invalidate_streams s = record s { role_generation = add_one s.role_generation }

-- The result of the system call whose end an fexit program sees: 0 or not.
unfoldable pub guard_bound : Kernel → GuardMaps → ℕ → Bool → GuardMaps
unfolding invalidate_streams
guard_bound k s socket failed =
    let sk = k.socket_sk socket in
    let unix = (k.sock sk).unix in
    let bound = (k.unix unix).addr in
    let first = get_or (k.read 1 (k.address bound).path).bytes 0 0 in
    if failed || socket == 0 || sk == 0
    then s
    else if not (is_stream (k.sock sk).kind)
    then s
    else if unix == 0 || bound == 0
    then s
    else if first != 0 || address_role k s unix bound != 0
    then invalidate_streams s
    else s

abbrev pub is_some : Option ℕ → Bool
is_some none = false
is_some (some _) = true

-- True if a role was held: `bpf_map_delete_elem` found the entry.
unfoldable pub release_held : Kernel → GuardMaps → ℕ → GuardMaps × Bool
release_held k s inode =
    let key = inode_key k inode in
    if inode == 0
    then (s, false)
    else (record s { held_roles = delete s.held_roles key }, is_some (s.held_roles key))

-- What follows in `guard_renamed` when the rename succeeded and held no role.
unfoldable pub moved_kinds : Kernel → GuardMaps → ℕ → ℕ → ℕ → ℕ → GuardMaps
unfolding invalidate_streams
moved_kinds k s first second from to =
    let kind = if first != 0 then file_kind (k.inode first).mode else 0 in
    let exchanged = if second != 0 then file_kind (k.inode second).mode else 0 in
    let source = (k.dentry from).inode in
    let target = (k.dentry to).inode in
    let roles = bit_or (inode_role k s source) (inode_role k s target) in
    if kind == socket_file || exchanged == socket_file
    then invalidate_streams s
    else if kind != directory && exchanged != directory
    then s
    else if from == 0 || to == 0 || source == 0 || target == 0
    then s
    else if has roles (bit_or role_runtime (bit_or role_systemd role_user_root))
    then invalidate_streams s
    else s

-- What follows the release of both participants.
unfoldable pub after_release : Kernel → GuardMaps → Bool → Bool → ℕ → ℕ → ℕ → ℕ → GuardMaps
unfolding invalidate_streams
after_release k s held failed first second from to =
    if held
    then invalidate_streams s
    else if failed
    then s
    else moved_kinds k s first second from to

unfoldable pub guard_renamed : Kernel → GuardMaps → ℕ → ℕ → ℕ → ℕ → Bool → GuardMaps
guard_renamed k s moved other from to failed =
    let first = (k.dentry moved).inode in
    let second = (k.dentry other).inode in
    let (s', held_first) = release_held k s first in
    let (s'', held_second) = release_held k s' second in
    if moved == 0 || other == 0
    then s
    else after_release k s'' (held_first || held_second) failed first second from to

-- ATTR_UID.
abbrev pub attr_uid : ℕ
attr_uid = 2

unfoldable pub guard_attr : Kernel → GuardMaps → ℕ → ℕ → GuardMaps
unfolding invalidate_streams
guard_attr k s dentry valid =
    let d = k.dentry dentry in
    if not (has valid attr_uid) || dentry == 0
    then s
    else if d.inode == 0 || file_kind (k.inode d.inode).mode != directory
    then s
    else if has (directory_role k s d.parent) role_user_root
    then invalidate_streams s
    else s
