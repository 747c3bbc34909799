-- ===== src/Guard/Roles/Exact.antt =====
-- The cache of "no role" answers of resolver_guard.bpf.c is exact: a hit gives what the names say,
-- and an advance of the generation voids every entry, whatever a rename did.
use wireguard_dns_program_sp.Base.{
  ℕ, ◌≡◌, refl, sym, ◌∙◌, ap, Bool, true, Option, none, some, ◌==◌, ◌!=◌, ◌||◌, ◌&&◌, if◌then◌else◌,
  arith, Bool-cases, inl, inr, and_true,
}
use wireguard_dns_program_sp.Kernel.{Kernel}
use wireguard_dns_program_sp.Guard.Maps.{GuardMaps, or_zero, inode_key}
use wireguard_dns_program_sp.Guard.Names.{dentry_role}
use wireguard_dns_program_sp.Guard.Roles.{
  Role, label_inode, resolve_role, object_role_cached, object_role, matches, epoch_of, is_stable,
  held_role,
}
use wireguard_dns_program_sp.Guard.Roles.Frame.{}

-- A file with one link has one name: `entry` gives the directory entry of such an inode.
abbrev pub OneName : Kernel → (ℕ → ℕ) → Type 0
OneName k entry =
    (d : ℕ) → ((k.inode (k.dentry d).inode).nlink == 1) ≡ true → d ≡ entry (k.dentry d).inode

-- Every entry of the cache that a program would use stands for an inode with no role.
pub record Exact (k : Kernel) (entry : ℕ → ℕ) (s : GuardMaps) : Type 0 where
  pub hit :
      (i c g : ℕ)
      → s.guard_config ≡ some c
      → s.role_generation ≡ some g
      → is_stable k c i ≡ true
      → matches (s.negative_roles (inode_key k i)) (epoch_of c g) ≡ true
      → (dentry_role k s (entry i)).role ≡ 0

-- The role as the maps and the names give it, with no cache in between.
abbrev named_role : Kernel → GuardMaps → ℕ → ℕ → Option ℕ → Option ℕ → Role
named_role k s dentry inode (some c) (some g) =
    (label_inode k s inode (dentry_role k s dentry).role).1
named_role k s dentry inode _ _ = none

pub resolved_role : Kernel → GuardMaps → ℕ → ℕ → Role
resolved_role k s dentry inode =
    if inode == 0 || dentry == 0
    then some 0
    else if or_zero (s.object_roles inode) != 0
    then some (or_zero (s.object_roles inode))
    else if held_role k s inode != 0
    then some (held_role k s inode)
    else named_role k s dentry inode s.guard_config s.role_generation

no_role :
    (k : Kernel) (s : GuardMaps) (inode role : ℕ)
    → role ≡ 0
    → (label_inode k s inode role).1 ≡ some 0
unfolding label_inode
no_role k s inode role h = ground arith

resolve_role-role :
    (k : Kernel) (s : GuardMaps) (dentry inode epoch : ℕ) (stable : Bool)
    → (resolve_role k s dentry inode epoch stable).1
      ≡ (label_inode k s inode (dentry_role k s dentry).role).1
unfolding resolve_role
resolve_role-role k s dentry inode epoch stable = ground arith

pub stable-one_link :
    (k : Kernel) (c i : ℕ) → is_stable k c i ≡ true → ((k.inode i).nlink == 1) ≡ true
stable-one_link k c i h = ground arith

hit-role :
    (k : Kernel) (entry : ℕ → ℕ) (s : GuardMaps) (dentry c g : ℕ)
    → OneName k entry
    → Exact k entry s
    → s.guard_config ≡ some c
    → s.role_generation ≡ some g
    → let inode = (k.dentry dentry).inode in
      is_stable k c inode ≡ true
      → matches (s.negative_roles (inode_key k inode)) (epoch_of c g) ≡ true
      → (dentry_role k s dentry).role ≡ 0
hit-role k entry s dentry c g one exact ec eg stable found =
    let inode = (k.dentry dentry).inode in
    let name : dentry ≡ entry inode = one dentry (stable-one_link k c inode stable) in
    ap (λ (d : ℕ). (dentry_role k s d).role) name ∙ exact.hit inode c g ec eg stable found

cached-role :
    (k : Kernel) (entry : ℕ → ℕ) (s : GuardMaps) (dentry : ℕ) (c g : Option ℕ)
    → OneName k entry
    → Exact k entry s
    → s.guard_config ≡ c
    → s.role_generation ≡ g
    → let inode = (k.dentry dentry).inode in
      (object_role_cached k s dentry inode c g).1 ≡ named_role k s dentry inode c g
unfolding object_role_cached
cached-role k entry s dentry none g one exact ec eg = refl
cached-role k entry s dentry (some c) none one exact ec eg = refl
cached-role k entry s dentry (some c) (some g) one exact ec eg =
    let inode = (k.dentry dentry).inode in
    let stable = is_stable k c inode in
    let found = matches (s.negative_roles (inode_key k inode)) (epoch_of c g) in
    elim (Bool-cases (stable && found)) [
      | inl hit ↦
          let (a, b) = and_true stable found hit in
          rw hit (sym (no_role k s inode _ (hit-role k entry s dentry c g one exact ec eg a b)))
      | inr miss ↦ rw miss (resolve_role-role k s dentry inode (epoch_of c g) stable)
    ]

-- The cached lookup of a role gives what the committed and held roles, the slot map and the names
-- give with no cache. Conditions: the cache is exact, and an inode with one link has one name.
pub object_role-resolved_role :
    (k : Kernel) (entry : ℕ → ℕ) (s : GuardMaps) (dentry : ℕ)
    → OneName k entry
    → Exact k entry s
    → (object_role k s dentry (k.dentry dentry).inode).1
      ≡ resolved_role k s dentry (k.dentry dentry).inode
unfolding object_role resolved_role
object_role-resolved_role k entry s dentry one exact =
    let inode = (k.dentry dentry).inode in
    ground
      (arith, cached-role k entry s dentry s.guard_config s.role_generation one exact refl refl)
