-- ===== src/Guard/Roles/Kept.antt =====
-- The operations keep the cache of resolver_guard.bpf.c exact: `object_role` adds only true
-- entries, and `invalidate_streams` voids the entries made before a rename.
use wireguard_dns_program_sp.Base.{
  ℕ, ◌+◌, ◌^◌, ◌<◌, ◌≤◌, ◌≡◌, refl, sym, ◌∙◌, ap, Bool, true, false, Option, none, some, ◌==◌, ◌!=◌,
  ◌||◌, ◌&&◌, if◌then◌else◌, arith, Bool-cases, inl, inr, and_true,
}
use mathlib.Core.Path.{subst}
use wireguard_dns_program_sp.Kernel.{Kernel, Creation}
use wireguard_dns_program_sp.Guard.Maps.{GuardMaps, NegativeKey, or_zero, inode_key, key_eq}
use wireguard_dns_program_sp.Guard.Names.{DentryRole, dentry_role}
use wireguard_dns_program_sp.Guard.Roles.{
  Role, label_created, label_stored, label_inode, resolve_role, object_role_cached, object_role,
  matches, remember, epoch_of, is_stable, held_role,
}
use wireguard_dns_program_sp.Guard.Roles.Frame.{Frame, label_inode-Frame, dentry_role-Frame}
use wireguard_dns_program_sp.Guard.Hooks.{invalidate_streams}
use wireguard_dns_program_sp.Guard.Roles.Exact.{OneName, Exact, stable-one_link}

created-negative :
    (s : GuardMaps) (i role : ℕ) (c : Creation)
    → (label_created s i role c).0.negative_roles ≡ s.negative_roles
unfolding label_created
created-negative s i role Creation.created = refl
created-negative s i role (Creation.raced o) = refl
created-negative s i role Creation.failed = refl

stored-negative :
    (k : Kernel) (s : GuardMaps) (i role : ℕ) (o : Option ℕ)
    → (label_stored k s i role o).0.negative_roles ≡ s.negative_roles
unfolding label_stored
stored-negative k s i role none = created-negative s i role (k.create_role i)
stored-negative k s i role (some old) = refl

label_inode-negative :
    (k : Kernel) (s : GuardMaps) (i role : ℕ)
    → (label_inode k s i role).0.negative_roles ≡ s.negative_roles
unfolding label_inode
label_inode-negative k s i role = ground (arith, stored-negative k s i role (s.object_roles i))

created-role :
    (s : GuardMaps) (i role : ℕ) (c : Creation)
    → matches (label_created s i role c).1 0 ≡ true
    → role ≡ 0
unfolding label_created
created-role s i role Creation.created h = ground arith
created-role s i role (Creation.raced o) h = ground arith
created-role s i role Creation.failed h = cc

stored-role :
    (k : Kernel) (s : GuardMaps) (i role : ℕ) (o : Option ℕ)
    → matches (label_stored k s i role o).1 0 ≡ true
    → role ≡ 0
unfolding label_stored
stored-role k s i role none h = created-role s i role (k.create_role i) h
stored-role k s i role (some old) h = ground arith

-- Only the role 0 is answered by 0.
label_inode-role :
    (k : Kernel) (s : GuardMaps) (i role : ℕ)
    → matches (label_inode k s i role).1 0 ≡ true
    → role ≡ 0
unfolding label_inode
label_inode-role k s i role h = ground (arith, stored-role k s i role (s.object_roles i))

-- An exact cache stays so where neither the slot maps, the stamp nor the cache changed.
Exact-Frame :
    (k : Kernel) (entry : ℕ → ℕ) {s t : GuardMaps}
    → Frame s t
    → t.negative_roles ≡ s.negative_roles
    → Exact k entry s
    → Exact k entry t
Exact-Frame k entry f n e = record {
  hit = λ i c g ec eg st found.
      ap (λ (r : DentryRole). r.role) (dentry_role-Frame k f (entry i))
      ∙ e.hit i c g (sym f.config ∙ ec) (sym f.generation ∙ eg) st (
          sym (ap (λ (m : NegativeKey → Option ℕ). matches (m (inode_key k i)) (epoch_of c g)) n)
          ∙ found);
}

-- A new entry for an inode whose name gives no role.
remember-Exact :
    (k : Kernel) (entry : ℕ → ℕ) (s : GuardMaps) (inode epoch : ℕ)
    → (dentry_role k s (entry inode)).role ≡ 0
    → Exact k entry s
    → Exact k entry (remember k s inode epoch)
unfolding dentry_role
remember-Exact k entry s inode epoch zero e = record {
  hit = λ i c g ec eg st found. elim (Bool-cases (key_eq (inode_key k inode) (inode_key k i))) [
    | inl same ↦ subst (λ (j : ℕ). (dentry_role k s (entry j)).role ≡ 0) (ground arith) zero
    | inr other ↦ e.hit i c g ec eg st (rw other at found)
  ];
}

-- Conditions of a step: what is looked at is the entry of the inode.
module _ (k : Kernel) (entry : ℕ → ℕ) (s : GuardMaps) (dentry : ℕ) (one : OneName k entry)
    (e : Exact k entry s) where
  abbrev inode_of : ℕ
  inode_of = (k.dentry dentry).inode

  labelled-Exact : (role : ℕ) → Exact k entry (label_inode k s inode_of role).0
  labelled-Exact role =
      Exact-Frame k entry (label_inode-Frame k s inode_of role)
        (label_inode-negative k s inode_of role) e

  resolve_role-Exact :
      (epoch c : ℕ)
      → Exact k entry (resolve_role k s dentry inode_of epoch (is_stable k c inode_of)).0
  unfolding resolve_role
  resolve_role-Exact epoch c =
      let found = dentry_role k s dentry in
      let labelled = label_inode k s inode_of found.role in
      let stable = is_stable k c inode_of in
      elim (Bool-cases (matches labelled.1 0 && found.cacheable && stable)) [
        | inl cached ↦
            let (fresh, still) = and_true (matches labelled.1 0 && found.cacheable) stable cached in
            let (none_found, _) = and_true (matches labelled.1 0) found.cacheable fresh in
            let zero : found.role ≡ 0 = label_inode-role k s inode_of found.role none_found in
            let name : dentry ≡ entry inode_of = one dentry (stable-one_link k c inode_of still) in
            let same : dentry_role k labelled.0 (entry inode_of) ≡ found =
              dentry_role-Frame k (label_inode-Frame k s inode_of found.role) (entry inode_of)
              ∙ ap (dentry_role k s) (sym name) in
            rw cached (
              remember-Exact k entry labelled.0 inode_of epoch
                (ap (λ (r : DentryRole). r.role) same ∙ zero) (labelled-Exact found.role))
        | inr plain ↦ rw plain (labelled-Exact found.role)
      ]

  if-Exact :
      (b : Bool) (x y : GuardMaps × Role)
      → Exact k entry x.0
      → Exact k entry y.0
      → Exact k entry (if b then x else y).0
  if-Exact true x y p q = p
  if-Exact false x y p q = q

  cached-Exact : (c g : Option ℕ) → Exact k entry (object_role_cached k s dentry inode_of c g).0
  unfolding object_role_cached
  cached-Exact (some c) (some g) =
      let stable = is_stable k c inode_of in
      if-Exact (stable && matches (s.negative_roles (inode_key k inode_of)) (epoch_of c g))
        (s, some 0) (resolve_role k s dentry inode_of (epoch_of c g) stable) e
        (resolve_role-Exact (epoch_of c g) c)
  cached-Exact none g = e
  cached-Exact (some c) none = e

  -- Looking a role up keeps the cache exact. Conditions: an inode with one link has one name,
  -- and the cache was exact.
  pub object_role-Exact : Exact k entry (object_role k s dentry inode_of).0
  unfolding object_role
  object_role-Exact =
      let known = or_zero (s.object_roles inode_of) in
      let held = held_role k s inode_of in
      let cached = object_role_cached k s dentry inode_of s.guard_config s.role_generation in
      let by_held : GuardMaps × Role = if held != 0 then (s, some held) else cached in
      let by_known : GuardMaps × Role = if known != 0 then (s, some known) else by_held in
      if-Exact (inode_of == 0 || dentry == 0) (s, some 0) by_known e
        (if-Exact (known != 0) (s, some known) by_held e
          (if-Exact (held != 0) (s, some held) cached e
            (cached-Exact s.guard_config s.role_generation)))

-- Every entry was made at a stamp up to the current one.
abbrev pub Past : GuardMaps → ℕ → Type 0
Past s stamp = (key : NegativeKey) (e : ℕ) → s.negative_roles key ≡ some e → e ≤ stamp

matches-some : (o : Option ℕ) (v : ℕ) → matches o v ≡ true → o ≡ some v
matches-some none v h = cc
matches-some (some c) v h = ground arith

-- An advance of the generation voids the whole cache: it is exact for any state of the file
-- system that a rename may have left. Conditions: the entries were made at stamps up to the
-- current one, and the sum of the two counters does not wrap.
pub invalidate_streams-Exact :
    (k : Kernel) (entry : ℕ → ℕ) (s : GuardMaps) (c g : ℕ)
    → s.guard_config ≡ some c
    → s.role_generation ≡ some g
    → c + g + 1 < 2 ^ 64
    → Past s (c + g)
    → Exact k entry (invalidate_streams s)
unfolding invalidate_streams
invalidate_streams-Exact k entry s c g ec eg room past = record {
  hit = λ i c' g' ec' eg' st found.
      let made : s.negative_roles (inode_key k i) ≡ some (epoch_of c' g') =
        matches-some _ _ found in
      absurd (ground (arith, past (inode_key k i) (epoch_of c' g') made));
}
