-- ===== src/Examples/Fixture.antt =====
-- A kernel and maps for the programs of src/linux/bpf: the running executable is file 7, a live
-- image enrolled under /bin/a. Each file, entry and inode has the same number.
use wireguard_dns_program_sp.Base.{
  ℕ, zero, suc, ◌+◌, ◌-◌, ◌^◌, ◌≤◌, ◌≡◌, refl, ap, true, false, not, none, some, List, [], ◌∷◌,
  ◌++◌, codes, ◌==◌, ◌||◌, if◌then◌else◌, length, arith,
}
use wireguard_dns_program_sp.Base.Lists.{bytes_eq}
use wireguard_dns_program_sp.Kernel.{Kernel, Filled, Creation, Inode, Task}
use wireguard_dns_program_sp.Policy.{PolicyConfig, PolicyMaps}
use wireguard_dns_program_sp.Policy.Tier.{NoNul, CopiesText}
use wireguard_dns_program_sp.Classifier.{SocketState}
use wireguard_dns_program_sp.Guard.Maps.{GuardMaps}

-- The text before the NUL, at most so many bytes.
unfoldable pub copied : ℕ → List ℕ → List ℕ
copied zero text = []
copied (suc n) [] = []
copied (suc n) (c ∷ text) = if c == 0 then [] else c ∷ copied n text

copied-text :
    (n : ℕ) (text rest : List ℕ) → NoNul text → length text ≤ n → copied n (text ++ 0 ∷ rest) ≡ text
unfolding copied
copied-text zero [] rest clean fits = refl
copied-text zero (c ∷ text) rest clean fits = absurd (omega arith)
copied-text (suc n) [] rest clean fits = refl
copied-text (suc n) (c ∷ text) rest (ne, clean) fits =
    let test : (c == 0) ≡ false = ground arith in
    rw test (ap (λ (t : List ℕ). c ∷ t) (copied-text n text rest clean (omega arith)))

abbrev pub copy : ℕ → List ℕ → Filled
copy size text = record {
  length = length (copied (size - 1) text) + 1;
  bytes = copied (size - 1) text;
}

-- Inode 8 is an image that an upgrade replaced.
abbrev pub an_inode : ℕ → Inode
an_inode i = record {
  dev = 1;
  magic = 0;
  ino = i;
  generation = 0;
  nlink = if i == 8 then 0 else 1;
  mode = 0o100644;
  uid = 0;
}

abbrev pub a_task : Task
a_task = record { root_ino = 2; root_dev = 1; netns = 3; exe_file = 7 }

abbrev pub a_kernel : Kernel
a_kernel = record {
  inode = an_inode;
  dentry = λ d. record { inode = d; parent = 1; name = 0; hashed = not (d == 8); dname = false };
  file = λ f. record { inode = f; dentry = f; sock = f };
  socket_sk = λ s. s;
  sock = λ s. record { family = 1; kind = 1; unix = s };
  unix = λ u. record { dentry = u; addr = 0; peer = 0; netns = 3 };
  address = λ a. record { len = 0; path = 0 };
  task = a_task;
  read_str = λ size a. record { length = 4; bytes = codes "abc" };
  read = λ size a. record { length = 0; bytes = [] };
  copy_str = copy;
  d_path = λ f.
      if f == 8
      then record { length = 17; bytes = codes "/bin/a" ++ (codes " (deleted)" ++ 0 ∷ []) }
      else record { length = 7; bytes = codes "/bin/a" ++ 0 ∷ [] };
  scratch = true;
  getsockopt_fails = false;
  setsockopt_fails = false;
  create_role = λ i. Creation.created;
  create_stream = λ s. Creation.created;
  hold_fails = false;
}

pub a_kernel-CopiesText : CopiesText a_kernel
a_kernel-CopiesText size text rest clean fits =
    ap (λ (t : List ℕ). record { length = length t + 1; bytes = t })
      (copied-text (size - 1) text rest clean (omega arith))

abbrev pub a_config : PolicyConfig
a_config = record {
  version = 4;
  ready = 1;
  mask = 0xff00;
  mark = 0x1200;
  root_dev = 1;
  root_ino = 2;
  netns = 3;
}

abbrev pub a_policy : PolicyMaps
a_policy = record {
  paths = λ text. none;
  paths_short = λ text. if bytes_eq text (codes "/bin/a") then some 1 else none;
  policy_cfg = some a_config;
  stats = λ i. some 0;
}

abbrev pub some_sockets : SocketState
some_sockets = record { maps = a_policy; so_mark = λ s. 0x34 }

-- Inode 30 is a resolver's socket, 31 and 9 are caches; a role is held for inode 10, and "no role"
-- is cached for inode 12.
abbrev pub some_maps : GuardMaps
some_maps = record {
  policy = a_policy;
  guard_slots = λ slot. none;
  guard_dirs = λ id. none;
  endpoint_names = λ name. none;
  object_roles = λ i. if i == 30 then some 1 else if i == 31 || i == 9 then some 2 else none;
  negative_roles = λ key. if key.inode == 12 then some (2 ^ 62 + 5) else none;
  held_roles = λ key. if key.inode == 10 then some 2 else none;
  stream_roles = λ s. none;
  role_generation = some 5;
  guard_config = some (2 ^ 62);
  guard_stats = λ i. some 0;
}
