-- ===== src/Log.antt =====
-- src/native/async-log.h: the bounded queue between the log's callers and its one writer. The
-- queue's lock makes each operation one step. Messages are byte strings. Bounded is the file they go to,
-- of src/native/bounded-log.h.
pub mod Queue
pub mod Fifo
pub mod Bounded
