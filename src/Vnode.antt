-- ===== src/Vnode.antt =====
-- fuse_vnops.c, fuse_file.c, fuse_internal.h, fuse_node.h: the operations on one vnode. A request to
-- the daemon is one step here, with the contract that the modules of Ipc have for it.
pub mod State
pub mod Monad
pub mod Session
pub mod Time
pub mod Round
pub mod Attr
pub mod Files
pub mod Returns
pub mod Open
pub mod Readdir
pub mod Directory
pub mod Transfer
pub mod Access
pub mod Blocks
pub mod Setattr
pub mod Getattr
