-- ===== src/Node.antt =====
-- fuse_node.c, fuse_node.h: the vnode of a node that the daemon names.
pub mod State
pub mod Create
pub mod Get
pub mod Laws
pub mod Found
pub mod Made
pub mod Identity
pub mod Filing
