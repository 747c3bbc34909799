-- ===== src/Kernel.antt =====
-- What the programs of src/linux/bpf read of the kernel. An address is a number and NULL is 0.
-- A field below is a member that the code reads, or the outcome of a helper that the kernel
-- implements. Nothing of it is code of the repository, so it is a parameter of every definition.
use wireguard_dns_program_sp.Base.{ℕ, Bool, List}

-- `struct inode`, with the two fields of its superblock that are read.
pub record Inode : Type 0 where
  pub dev : ℕ
  pub magic : ℕ
  pub ino : ℕ
  pub generation : ℕ
  pub nlink : ℕ
  pub mode : ℕ
  pub uid : ℕ

-- `struct dentry`. `hashed` is `d_hash.pprev`, and `dname` says that `d_op->d_dname` is set.
pub record Dentry : Type 0 where
  pub inode : ℕ
  pub parent : ℕ
  pub name : ℕ
  pub hashed : Bool
  pub dname : Bool

-- `struct file`. `sock` is what `bpf_sock_from_file` gives.
pub record File : Type 0 where
  pub inode : ℕ
  pub dentry : ℕ
  pub sock : ℕ

-- `struct sock`. `unix` is what `bpf_skc_to_unix_sock` gives.
pub record Sock : Type 0 where
  pub family : ℕ
  pub kind : ℕ
  pub unix : ℕ

-- `struct unix_sock`, with the network namespace of its `sk`.
pub record UnixSock : Type 0 where
  pub dentry : ℕ
  pub addr : ℕ
  pub peer : ℕ
  pub netns : ℕ

-- `struct unix_address`. `path` is the address of `name[0].sun_path`.
pub record UnixAddress : Type 0 where
  pub len : ℕ
  pub path : ℕ

-- The current task.
pub record Task : Type 0 where
  pub root_ino : ℕ
  pub root_dev : ℕ
  pub netns : ℕ
  pub exe_file : ℕ

-- What a helper that fills a buffer returned and wrote. The buffer was zero before, so past
-- `bytes` it reads zero. A negative return is kept as the length 0: the code tells no two
-- returns below 1 apart.
pub record Filled : Type 0 where
  pub length : ℕ
  pub bytes : List ℕ

-- Local storage asked for with the CREATE flag where there was none: created, or a concurrent
-- creation with that value won, or none could be had.
pub data Creation : Type 0 where
  created : Creation
  raced : ℕ → Creation
  failed : Creation

pub record Kernel : Type 0 where
  pub inode : ℕ → Inode
  pub dentry : ℕ → Dentry
  pub file : ℕ → File
  pub socket_sk : ℕ → ℕ
  pub sock : ℕ → Sock
  pub unix : ℕ → UnixSock
  pub address : ℕ → UnixAddress
  pub task : Task
  -- bpf_probe_read_kernel_str(buffer, size, address)
  pub read_str : ℕ → ℕ → Filled
  -- bpf_probe_read_kernel(buffer, size, address); the length is 0 where it failed
  pub read : ℕ → ℕ → Filled
  -- bpf_probe_read_kernel_str(key, size, work->resolved)
  pub copy_str : ℕ → List ℕ → Filled
  -- bpf_path_d_path(&file->f_path, work->resolved, PATH_BYTES)
  pub d_path : ℕ → Filled
  pub scratch : Bool
  pub getsockopt_fails : Bool
  pub setsockopt_fails : Bool
  pub create_role : ℕ → Creation
  pub create_stream : ℕ → Creation
  -- bpf_map_update_elem on held_roles returned an error
  pub hold_fails : Bool
