-- ===== src/Guard/Streams.antt =====
-- Stream labels of resolver_guard.bpf.c: a decision and the stamp it was made under, in one word,
-- and the checks that programs make on a socket or a file.
pub mod Stamp
use wireguard_dns_program_sp.Base.{
  ℕ, ◌+◌, ◌-◌, ◌*◌, ◌%◌, ◌^◌, Bool, true, false, not, ◌&&◌, ◌||◌, Option, none, some, ltb, ◌==◌,
  ◌!=◌, if◌then◌else◌, bit_and, bit_or,
}
use wireguard_dns_program_sp.Kernel.{Kernel, Creation}
use wireguard_dns_program_sp.Guard.Maps.{
  GuardMaps, Answer, has, store, guard_settled, guard_count, guard_selected, guard_objects,
  guard_unknown, role_socket, role_cache,
}
use wireguard_dns_program_sp.Guard.Roles.{Role, object_role, unix_role, peer_role, matches}

-- `struct role_version`.
pub record Version : Type 0 where
  pub topology : ℕ
  pub configuration : ℕ

-- `enum stream_role`.
pub data StreamRole : Type 0 where
  safe protected : StreamRole

abbrev pub make_version : Option ℕ → Option ℕ → Option Version
make_version (some g) (some c) = some (record { topology = g; configuration = c })
make_version _ _ = none

abbrev pub role_version : GuardMaps → Option Version
role_version s = make_version s.role_generation s.guard_config

unfoldable pub stream_stamp : Version → ℕ
stream_stamp v = (v.topology + v.configuration) % 2 ^ 64 * 2 % 2 ^ 64

-- `STREAM_STALE`, which is `~1ULL`.
abbrev pub stream_stale : ℕ
stream_stale = 2 ^ 64 - 2

abbrev pub is_safe : StreamRole → ℕ
is_safe StreamRole.safe = 1
is_safe StreamRole.protected = 0

-- The word that `set_stream_role` publishes.
unfoldable pub label_word : Version → StreamRole → ℕ
unfolding stream_stamp
label_word v role = bit_or (stream_stamp v) (is_safe role)

-- `stream_storage`: the storage there is, or one that holds STREAM_STALE; `none` if none is had.
abbrev pub storage_created : Creation → Option ℕ
storage_created Creation.created = some stream_stale
storage_created (Creation.raced other) = some other
storage_created Creation.failed = none

unfoldable pub stream_storage : Kernel → GuardMaps → ℕ → Option ℕ
stream_storage k s sock = elim (s.stream_roles sock) [
  | some word ↦ some word
  | none ↦ storage_created (k.create_stream sock)
]

-- True where `set_stream_role` returns 0, false for -EACCES.
unfoldable pub set_stream_role : Kernel → GuardMaps → ℕ → StreamRole → Version → GuardMaps × Bool
unfolding stream_storage
set_stream_role k s sock role v =
    if sock == 0
    then (s, false)
    else if not (has v.configuration guard_settled)
    then (s, true)
    else elim (stream_storage k s sock) [
      | none ↦ (s, false)
      | some _ ↦ (record s { stream_roles = store s.stream_roles sock (label_word v role) }, true)
    ]

-- The tag of a resolved role: an odd configuration is an update in progress.
unfoldable pub tag_of : ℕ → Version → StreamRole
tag_of role v =
    if has role role_socket || has v.configuration 1 then StreamRole.protected else StreamRole.safe

-- A protected object was met: it is counted, and the current process decides.
abbrev pub refuse_selected : Kernel → GuardMaps → GuardMaps × Answer
refuse_selected k s = guard_selected k (guard_count s guard_objects)

abbrev pub word_is_current : Option ℕ → Version → Bool
word_is_current none v = false
word_is_current (some word) v = bit_and word (2 ^ 64 - 2) == stream_stamp v

abbrev pub word_is_safe : Option ℕ → Bool
word_is_safe none = false
word_is_safe (some word) = has word 1

-- The end of a relabel, from the role of the socket's own address or of its peer.
unfoldable pub publish : Kernel → GuardMaps → ℕ → ℕ → Version → StreamRole → GuardMaps × Answer
publish k s sk peer v StreamRole.safe =
    if peer == 0
    then (s, Answer.okay)
    else (let (s', stored) = set_stream_role k s sk StreamRole.safe v in
        if stored then (s', Answer.okay) else (s', Answer.eacces))
publish k s sk peer v StreamRole.protected =
    let (s', stored) = set_stream_role k s sk StreamRole.protected v in
    if stored then refuse_selected k s' else (s', Answer.eacces)

unfoldable pub publish_role : Kernel → GuardMaps → ℕ → ℕ → Version → Role → GuardMaps × Answer
publish_role k s sk peer v none = (s, Answer.eacces)
publish_role k s sk peer v (some role) = publish k s sk peer v (tag_of role v)

unfoldable pub relabel : Kernel → GuardMaps → ℕ → Version → GuardMaps × Answer
unfolding publish_role publish tag_of
relabel k s sk v =
    let counted = guard_count s guard_unknown in
    let self = (k.sock sk).unix in
    let peer = (k.unix self).peer in
    let (s', own) = unix_role k counted self in
    let (s'', found) = if matches own 0 then peer_role k s' peer else (s', own) in
    if self == 0 then guard_selected k counted else publish_role k s'' sk peer v found

-- From the version on.
unfoldable pub check_stream : Kernel → GuardMaps → ℕ → Option Version → GuardMaps × Answer
check_stream k s sk none = guard_selected k s
check_stream k s sk (some v) =
    let word = s.stream_roles sk in
    if not (word_is_current word v)
    then relabel k s sk v
    else if not (has v.configuration 1) && word_is_safe word
    then (s, Answer.okay)
    else guard_selected k s

abbrev pub af_unix : ℕ
af_unix = 1

-- SOCK_STREAM or SOCK_SEQPACKET.
abbrev pub is_stream : ℕ → Bool
is_stream kind = kind == 1 || kind == 5

unfoldable pub stream_guard : Kernel → GuardMaps → ℕ → GuardMaps × Answer
unfolding check_stream
stream_guard k s socket =
    let sk = k.socket_sk socket in
    if socket == 0 || sk == 0
    then (s, Answer.okay)
    else if (k.sock sk).family != af_unix
    then (s, Answer.okay)
    else if not (is_stream (k.sock sk).kind)
    then (s, Answer.okay)
    else check_stream k s sk (role_version s)

-- `i_mode & 0170000`, and the kinds of file.
abbrev pub file_kind : ℕ → ℕ
file_kind mode = bit_and mode 0o170000

abbrev pub regular : ℕ
regular = 0o100000

abbrev pub socket_file : ℕ
socket_file = 0o140000

abbrev pub directory : ℕ
directory = 0o040000

unfoldable pub by_cache_role : Kernel → GuardMaps → Role → GuardMaps × Answer
by_cache_role k s none = (s, Answer.eacces)
by_cache_role k s (some role) =
    if has role role_cache then refuse_selected k s else (s, Answer.okay)

unfoldable pub file_guard : Kernel → GuardMaps → ℕ → Bool → GuardMaps × Answer
unfolding by_cache_role
file_guard k s file check_socket =
    let f = k.file file in
    let kind = file_kind (k.inode f.inode).mode in
    let (s', role) = object_role k s f.dentry f.inode in
    if file == 0 || f.inode == 0
    then (s, Answer.okay)
    else if kind != regular
    then (if check_socket && kind == socket_file then stream_guard k s f.sock else (s, Answer.okay))
    else by_cache_role k s' role
