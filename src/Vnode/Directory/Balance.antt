-- ===== src/Vnode/Directory/Balance.antt =====
-- fuse_vnops.c: what fuse_vnop_readdir does to the account of file handles.
use kext.Vnode.Returns.{Returns}
use kext.Vnode.Open.Quiet.{Quiet}
