-- ===== src/Dns.antt =====
-- The DNS dispatcher (src/native): attribution of queries and the wire format.
pub mod Table
pub mod Hints
pub mod Wire
pub mod Capacity
