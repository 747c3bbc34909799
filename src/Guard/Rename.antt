-- ===== src/Guard/Rename.antt =====
-- Roles held while a rename runs (guard_rename and guard_renamed of resolver_guard.bpf.c).
use wireguard_dns_program_sp.Base.{
  ℕ, ◌≡◌, ◌≢◌, refl, ◌∙◌, ap, Bool, true, false, Option, none, ◌==◌, ◌!=◌, ◌||◌, ◌&&◌,
  if◌then◌else◌, arith, bit_or,
}
use wireguard_dns_program_sp.Kernel.{Kernel}
use wireguard_dns_program_sp.Policy.{add_one}
use wireguard_dns_program_sp.Guard.Maps.{
  GuardMaps, NegativeKey, inode_key, delete, key_eq, has, inode_role, role_runtime, role_systemd,
  role_user_root,
}
use wireguard_dns_program_sp.Guard.Streams.{file_kind, directory, socket_file}
use wireguard_dns_program_sp.Guard.Hooks.{
  guard_renamed, after_release, release_held, moved_kinds, invalidate_streams, is_some,
}

-- Beside the generation nothing changes where a rename held no role.
if-held :
    (s : GuardMaps) (b : Bool) (x y : GuardMaps)
    → x.held_roles ≡ s.held_roles
    → y.held_roles ≡ s.held_roles
    → (if b then x else y).held_roles ≡ s.held_roles
if-held s true x y p q = p
if-held s false x y p q = q

moved_kinds-held :
    (k : Kernel) (s : GuardMaps) (first second from to : ℕ)
    → (moved_kinds k s first second from to).held_roles ≡ s.held_roles
unfolding moved_kinds invalidate_streams
moved_kinds-held k s first second from to =
    let bumped = invalidate_streams s in
    let kind : ℕ = if first != 0 then file_kind (k.inode first).mode else 0 in
    let exchanged : ℕ = if second != 0 then file_kind (k.inode second).mode else 0 in
    let source = (k.dentry from).inode in
    let target = (k.dentry to).inode in
    let roles = bit_or (inode_role k s source) (inode_role k s target) in
    let ruled = has roles (bit_or role_runtime (bit_or role_systemd role_user_root)) in
    let by_roles : GuardMaps = if ruled then bumped else s in
    let missing = from == 0 || to == 0 || source == 0 || target == 0 in
    let by_parents : GuardMaps = if missing then s else by_roles in
    let other_kind = kind != directory && exchanged != directory in
    if-held s (kind == socket_file || exchanged == socket_file) bumped
      (if other_kind then s else by_parents) refl
      (if-held s other_kind s by_parents refl
        (if-held s missing s by_roles refl (if-held s ruled bumped s refl refl)))

abbrev first_of_pair : Kernel → ℕ → NegativeKey
first_of_pair k moved = inode_key k (k.dentry moved).inode

-- What both participants leave in held_roles.
abbrev pub released : (NegativeKey → Option ℕ) → NegativeKey → NegativeKey → NegativeKey → Option ℕ
released held a b key = if key_eq b key then none else if key_eq a key then none else held key

abbrev released_one : Kernel → GuardMaps → ℕ → GuardMaps
released_one k s i = record s { held_roles = delete s.held_roles (inode_key k i) }

release_held-eq :
    (k : Kernel) (s : GuardMaps) (i : ℕ)
    → i ≢ 0
    → release_held k s i ≡ (released_one k s i, is_some (s.held_roles (inode_key k i)))
unfolding release_held
release_held-eq k s i h = let there : (i == 0) ≡ false = ground arith in rw there

after_release-held :
    (k : Kernel) (s : GuardMaps) (held failed : Bool) (first second from to : ℕ)
    → (after_release k s held failed first second from to).held_roles ≡ s.held_roles
unfolding after_release
after_release-held k s true failed first second from to = refl
after_release-held k s false true first second from to = refl
after_release-held k s false false first second from to = moved_kinds-held k s first second from to

after_release-advances :
    (k : Kernel) (s : GuardMaps) (held failed : Bool) (first second from to : ℕ)
    → held ≡ true
    → (after_release k s held failed first second from to).role_generation
      ≡ add_one s.role_generation
unfolding after_release
after_release-advances k s true failed first second from to h = refl
after_release-advances k s false failed first second from to h = absurd (cc)

-- Conditions of a completed rename: both directory entries and inodes are there.
module _ (k : Kernel) (moved other : ℕ) (pm : moved ≢ 0) (po : other ≢ 0)
    (pi : (k.dentry moved).inode ≢ 0) (pj : (k.dentry other).inode ≢ 0) where
  abbrev key_a : NegativeKey
  key_a = inode_key k (k.dentry moved).inode

  abbrev key_b : NegativeKey
  key_b = inode_key k (k.dentry other).inode

  abbrev both_released : GuardMaps → GuardMaps
  both_released s = released_one k (released_one k s (k.dentry moved).inode) (k.dentry other).inode

  abbrev any_held : GuardMaps → Bool
  any_held s =
      is_some (s.held_roles key_a)
      || is_some ((released_one k s (k.dentry moved).inode).held_roles key_b)

  guard_renamed-eq :
      (s : GuardMaps) (from to : ℕ) (failed : Bool)
      → guard_renamed k s moved other from to failed
        ≡ after_release k
            (both_released s)
            (any_held s)
            failed
            (k.dentry moved).inode
            (k.dentry other).inode
            from
            to
  unfolding guard_renamed
  guard_renamed-eq s from to failed =
      let there : (moved == 0 || other == 0) ≡ false = ground arith in
      let t = released_one k s (k.dentry moved).inode in
      rw
        (
          there,
          release_held-eq k s (k.dentry moved).inode pi,
          release_held-eq k t (k.dentry other).inode pj,
        )
        refl

  -- The completion of a rename, successful or not, leaves no role held for either participant and
  -- every other hold as it was.
  pub guard_renamed-released :
      (s : GuardMaps) (from to : ℕ) (failed : Bool) (key : NegativeKey)
      → (guard_renamed k s moved other from to failed).held_roles key
        ≡ released s.held_roles key_a key_b key
  guard_renamed-released s from to failed key =
      ap (λ (t : GuardMaps). t.held_roles key) (guard_renamed-eq s from to failed)
      ∙ ap (λ (h : NegativeKey → Option ℕ). h key)
          (after_release-held k (both_released s) (any_held s) failed (k.dentry moved).inode
            (k.dentry other).inode from to)

  -- The completion of a rename, successful or not, advances the generation if a role was held for
  -- a participant.
  pub guard_renamed-advances :
      (s : GuardMaps) (from to : ℕ) (failed : Bool)
      → (is_some (s.held_roles key_a) || is_some (s.held_roles key_b)) ≡ true
      → (guard_renamed k s moved other from to failed).role_generation ≡ add_one s.role_generation
  guard_renamed-advances s from to failed any =
      ap (λ (t : GuardMaps). t.role_generation) (guard_renamed-eq s from to failed)
      ∙ after_release-advances k (both_released s) (any_held s) failed (k.dentry moved).inode
          (k.dentry other).inode from to (ground (arith, any))
