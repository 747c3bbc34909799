-- ===== src/Guard/Verdicts.antt =====
-- What the programs of resolver_guard.bpf.c answer, in terms of the role of the object and the
-- policy of the current executable.
use wireguard_dns_program_sp.Base.{
  ℕ, ◌≡◌, ◌≢◌, refl, Bool, true, false, none, some, ◌==◌, ◌!=◌, ◌||◌, if◌then◌else◌, arith,
}
use wireguard_dns_program_sp.Kernel.{Kernel}
use wireguard_dns_program_sp.Policy.{policy_select, passes}
use wireguard_dns_program_sp.Guard.Maps.{
  GuardMaps, Answer, has, guard_selected, role_cache, role_socket,
}
use wireguard_dns_program_sp.Guard.Roles.{Role, object_role, peer_role}
use wireguard_dns_program_sp.Guard.Roles.Frame.{object_role-Frame, peer_role-Frame}
use wireguard_dns_program_sp.Guard.Streams.{
  file_guard, by_cache_role, refuse_selected, file_kind, regular,
}
use wireguard_dns_program_sp.Guard.Hooks.{
  guard_open, guard_mmap, guard_read, guard_receive, guard_datagram, datagram_role, may_read,
}

-- The answer for a protected object: denied to a process that the policy selects or cannot judge.
abbrev pub judged : Kernel → GuardMaps → Answer
judged k s = if passes (policy_select k s.policy) then Answer.okay else Answer.eacces

-- The answer for an object by its role, of which `flag` is the protected one.
abbrev pub answer_for : Kernel → GuardMaps → ℕ → Role → Answer
answer_for k s flag none = Answer.eacces
answer_for k s flag (some role) = if has role flag then judged k s else Answer.okay

pub refuse_selected-answer :
    (k : Kernel) (s t : GuardMaps) → t.policy ≡ s.policy → (refuse_selected k t).1 ≡ judged k s
unfolding guard_selected
refuse_selected-answer k s t e = rw e (ground arith)

by_cache_role-answer :
    (k : Kernel) (s t : GuardMaps) (role : Role)
    → t.policy ≡ s.policy
    → (by_cache_role k t role).1 ≡ answer_for k s role_cache role
unfolding by_cache_role
by_cache_role-answer k s t none e = refl
by_cache_role-answer k s t (some role) e = ground (arith, refuse_selected-answer k s t e)

module _ (k : Kernel) (s : GuardMaps) (file : ℕ) where
  abbrev file_role : Role
  file_role = (object_role k s (k.file file).dentry (k.file file).inode).1

  -- The file is a regular one.
  abbrev IsRegular : Type 0
  IsRegular =
      (file ≢ 0)
      × ((k.file file).inode ≢ 0)
      × ((file_kind (k.inode (k.file file).inode).mode == regular) ≡ true)

  file_guard-answer :
      (check_socket : Bool)
      → IsRegular
      → (file_guard k s file check_socket).1 ≡ answer_for k s role_cache file_role
  unfolding file_guard
  file_guard-answer check_socket (pf, pi, reg) =
      let found = object_role k s (k.file file).dentry (k.file file).inode in
      let there : (file == 0 || (k.file file).inode == 0) ≡ false = ground arith in
      let is_regular : (file_kind (k.inode (k.file file).inode).mode != regular) ≡ false =
        ground arith in
      rw (there, is_regular)
        (by_cache_role-answer k s found.0 found.1
          (object_role-Frame k s (k.file file).dentry (k.file file).inode).policy)

  -- Every way to the bytes of a regular file gives the same answer: opening, mapping, receiving
  -- its descriptor and reading it are denied exactly when its role cannot be told, or when it is
  -- a resolver cache and the policy selects the process or cannot judge it.
  pub file_programs-answer :
      (mask : ℕ)
      → IsRegular
      → has mask may_read ≡ true
      → ((guard_open k s file Answer.okay).1 ≡ answer_for k s role_cache file_role)
        × ((guard_mmap k s file Answer.okay).1 ≡ answer_for k s role_cache file_role)
        × ((guard_receive k s file Answer.okay).1 ≡ answer_for k s role_cache file_role)
        × ((guard_read k s file mask Answer.okay).1 ≡ answer_for k s role_cache file_role)
  unfolding guard_open guard_mmap guard_receive guard_read
  file_programs-answer mask reg reads = (
    file_guard-answer false reg,
    file_guard-answer false reg,
    file_guard-answer true reg,
    rw reads (file_guard-answer true reg),
  )

datagram_role-answer :
    (k : Kernel) (s t : GuardMaps) (role : Role)
    → t.policy ≡ s.policy
    → (datagram_role k t role).1 ≡ answer_for k s role_socket role
unfolding datagram_role
datagram_role-answer k s t none e = refl
datagram_role-answer k s t (some role) e = ground (arith, refuse_selected-answer k s t e)

-- A datagram is refused exactly when its peer's role cannot be told, or when the peer is a
-- resolver's socket and the policy selects the sender or cannot judge it.
pub guard_datagram-answer :
    (k : Kernel) (s : GuardMaps) (other : ℕ)
    → (guard_datagram k s other Answer.okay).1
      ≡ answer_for k s role_socket (peer_role k s (k.socket_sk other)).1
unfolding guard_datagram
guard_datagram-answer k s other =
    let found = peer_role k s (k.socket_sk other) in
    datagram_role-answer k s found.0 found.1 (peer_role-Frame k s (k.socket_sk other)).policy
