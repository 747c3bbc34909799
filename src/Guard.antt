-- ===== src/Guard.antt =====
-- src/linux/bpf/resolver_guard.bpf.c: which objects belong to a system resolver, and the programs
-- that refuse them to the processes that the policy selects.
pub mod Maps
pub mod Names
pub mod Roles
pub mod Streams
pub mod Hooks
pub mod Race
pub mod Rename
pub mod Verdicts
pub mod Connect
