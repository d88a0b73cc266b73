-- ===== src/Ipc.antt =====
-- fuse_ipc.h and fuse_ipc.c: requests to the daemon and their answers.
pub mod State
pub mod Monad
pub mod Ensures
pub mod WellFormed
pub mod Tickets
pub mod Audit
pub mod Dispatcher
pub mod Answer
pub mod Callbacks
pub mod Wait
