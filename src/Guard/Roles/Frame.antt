-- ===== src/Guard/Roles/Frame.antt =====
-- What resolving a role in resolver_guard.bpf.c leaves alone.
use wireguard_dns_program_sp.Base.{
  ℕ, ◌≡◌, refl, Bool, true, false, Option, none, some, ◌==◌, ◌!=◌, ◌||◌, ◌&&◌, if◌then◌else◌,
}
use wireguard_dns_program_sp.Kernel.{Kernel, Creation}
use wireguard_dns_program_sp.Guard.Maps.{GuardMaps, or_zero, inode_key}
use wireguard_dns_program_sp.Guard.Names.{dentry_role}
use wireguard_dns_program_sp.Guard.Roles.{
  Role, commit, label_created, label_stored, label_inode, resolve_role, object_role_cached,
  object_role, unix_role, peer_role, matches, remember, epoch_of, is_stable, held_role,
  address_role,
}

-- Everything but the committed roles and the cache is as it was.
pub record Frame (s s' : GuardMaps) : Type 0 where
  pub policy : s'.policy ≡ s.policy
  pub slots : s'.guard_slots ≡ s.guard_slots
  pub dirs : s'.guard_dirs ≡ s.guard_dirs
  pub endpoints : s'.endpoint_names ≡ s.endpoint_names
  pub held : s'.held_roles ≡ s.held_roles
  pub streams : s'.stream_roles ≡ s.stream_roles
  pub generation : s'.role_generation ≡ s.role_generation
  pub config : s'.guard_config ≡ s.guard_config

pub Frame-refl : (s : GuardMaps) → Frame s s
Frame-refl s = record {
  policy = refl;
  slots = refl;
  dirs = refl;
  endpoints = refl;
  held = refl;
  streams = refl;
  generation = refl;
  config = refl;
}

pub Frame-trans : {s t u : GuardMaps} → Frame s t → Frame t u → Frame s u
Frame-trans a b = record {
  policy = cc;
  slots = cc;
  dirs = cc;
  endpoints = cc;
  held = cc;
  streams = cc;
  generation = cc;
  config = cc;
}

commit-Frame : (s : GuardMaps) (inode old role : ℕ) → Frame s (commit s inode old role).0
commit-Frame s inode old role = record {
  policy = refl;
  slots = refl;
  dirs = refl;
  endpoints = refl;
  held = refl;
  streams = refl;
  generation = refl;
  config = refl;
}

label_created-Frame :
    (s : GuardMaps) (inode role : ℕ) (c : Creation) → Frame s (label_created s inode role c).0
unfolding label_created
label_created-Frame s inode role Creation.created = commit-Frame s inode role role
label_created-Frame s inode role (Creation.raced other) = commit-Frame s inode other role
label_created-Frame s inode role Creation.failed = Frame-refl s

label_stored-Frame :
    (k : Kernel) (s : GuardMaps) (inode role : ℕ) (o : Option ℕ)
    → Frame s (label_stored k s inode role o).0
unfolding label_stored
label_stored-Frame k s inode role none = label_created-Frame s inode role (k.create_role inode)
label_stored-Frame k s inode role (some old) = commit-Frame s inode old role

pub if-Frame :
    (s : GuardMaps) {A : Type 0} (b : Bool) (x y : GuardMaps × A)
    → Frame s x.0
    → Frame s y.0
    → Frame s (if b then x else y).0
if-Frame s true x y p q = p
if-Frame s false x y p q = q

pub label_inode-Frame :
    (k : Kernel) (s : GuardMaps) (inode role : ℕ) → Frame s (label_inode k s inode role).0
unfolding label_inode
label_inode-Frame k s inode role =
    if-Frame s (inode != 0 && role != 0) (label_stored k s inode role (s.object_roles inode))
      (s, some role) (label_stored-Frame k s inode role (s.object_roles inode)) (Frame-refl s)

-- A directory entry's role reads the slot maps only.
pub dentry_role-Frame :
    (k : Kernel) {s s' : GuardMaps} → Frame s s' → (d : ℕ) → dentry_role k s' d ≡ dentry_role k s d
unfolding dentry_role
dentry_role-Frame k f d = rw (f.slots, f.dirs)

remember-Frame :
    (k : Kernel) {s t : GuardMaps} (inode epoch : ℕ)
    → Frame s t
    → Frame s (remember k t inode epoch)
remember-Frame k inode epoch f = record {
  policy = f.policy;
  slots = f.slots;
  dirs = f.dirs;
  endpoints = f.endpoints;
  held = f.held;
  streams = f.streams;
  generation = f.generation;
  config = f.config;
}

pub resolve_role-Frame :
    (k : Kernel) (s : GuardMaps) (dentry inode epoch : ℕ) (stable : Bool)
    → Frame s (resolve_role k s dentry inode epoch stable).0
unfolding resolve_role
resolve_role-Frame k s dentry inode epoch stable =
    let found = dentry_role k s dentry in
    let labelled = label_inode k s inode found.role in
    let frame = label_inode-Frame k s inode found.role in
    if-Frame s (matches labelled.1 0 && found.cacheable && stable)
      (remember k labelled.0 inode epoch, labelled.1) labelled (remember-Frame k inode epoch frame)
      frame

object_role_cached-Frame :
    (k : Kernel) (s : GuardMaps) (dentry inode : ℕ) (c g : Option ℕ)
    → Frame s (object_role_cached k s dentry inode c g).0
unfolding object_role_cached
object_role_cached-Frame k s dentry inode (some c) (some g) =
    let epoch = epoch_of c g in
    let stable = is_stable k c inode in
    if-Frame s (stable && matches (s.negative_roles (inode_key k inode)) epoch) (s, some 0)
      (resolve_role k s dentry inode epoch stable) (Frame-refl s)
      (resolve_role-Frame k s dentry inode epoch stable)
object_role_cached-Frame k s dentry inode none g = Frame-refl s
object_role_cached-Frame k s dentry inode (some c) none = Frame-refl s

pub object_role-Frame :
    (k : Kernel) (s : GuardMaps) (dentry inode : ℕ) → Frame s (object_role k s dentry inode).0
unfolding object_role
object_role-Frame k s dentry inode =
    let known = or_zero (s.object_roles inode) in
    let held = held_role k s inode in
    let cached = object_role_cached k s dentry inode s.guard_config s.role_generation in
    let by_held : GuardMaps × Role = if held != 0 then (s, some held) else cached in
    let by_known : GuardMaps × Role = if known != 0 then (s, some known) else by_held in
    if-Frame s (inode == 0 || dentry == 0) (s, some 0) by_known (Frame-refl s)
      (if-Frame s (known != 0) (s, some known) by_held (Frame-refl s)
        (if-Frame s (held != 0) (s, some held) cached (Frame-refl s)
          (object_role_cached-Frame k s dentry inode s.guard_config s.role_generation)))

pub unix_role-Frame : (k : Kernel) (s : GuardMaps) (unix : ℕ) → Frame s (unix_role k s unix).0
unfolding unix_role
unix_role-Frame k s unix =
    let dentry = (k.unix unix).dentry in
    let own = object_role k s dentry (k.dentry dentry).inode in
    let first : GuardMaps × Role = if dentry != 0 then own else (s, some 0) in
    let frame : Frame s first.0 =
      if-Frame s (dentry != 0) own (s, some 0)
        (object_role-Frame k s dentry (k.dentry dentry).inode) (Frame-refl s) in
    if-Frame s (matches first.1 0) (first.0, some (address_role k first.0 unix (k.unix unix).addr))
      first frame frame

pub peer_role-Frame : (k : Kernel) (s : GuardMaps) (peer : ℕ) → Frame s (peer_role k s peer).0
unfolding peer_role
peer_role-Frame k s peer =
    let unix = (k.sock peer).unix in
    let by_unix : GuardMaps × Role = if unix == 0 then (s, some 0) else unix_role k s unix in
    if-Frame s (peer == 0) (s, some 0) by_unix (Frame-refl s)
      (if-Frame s (unix == 0) (s, some 0) (unix_role k s unix) (Frame-refl s)
        (unix_role-Frame k s unix))
