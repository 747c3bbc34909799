-- ===== src/Loader.antt =====
-- src/linux/native: the loader of the BPF programs. Files, BPF objects and the kernel's answers are
-- arguments; a thrown error is none.
pub mod Pins
pub mod Entries
pub mod Inspect
pub mod Paths
pub mod Staging
pub mod Commands
pub mod Competitors
