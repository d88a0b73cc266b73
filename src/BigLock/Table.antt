-- ===== src/BigLock/Table.antt =====
-- fuse_biglock_vnops.c: what the kernel's calls of the operations guarantee about locks.
use kext.Prelude.{ℕ, false, ◌≡◌, refl, List, [], ◌∷◌}
use kext.Locking.Four.Order.{IsTree}
use kext.BigLock.{Thread, M}
use kext.BigLock.Entries.{
  Vnop, Nodes, vnop_access, vnop_blktooff, vnop_blockmap, vnop_close, vnop_create, vnop_exchange,
  vnop_fsync, vnop_getattr, vnop_getxattr, vnop_inactive, vnop_link, vnop_listxattr, vnop_lookup,
  vnop_mkdir, vnop_mknod, vnop_mmap, vnop_mnomap, vnop_offtoblk, vnop_open, vnop_pagein,
  vnop_pageout, vnop_pathconf, vnop_read, vnop_readdir, vnop_readlink, vnop_reclaim, vnop_remove,
  vnop_removexattr, vnop_rename, vnop_rmdir, vnop_select, vnop_setattr, vnop_setxattr,
  vnop_strategy, vnop_symlink, vnop_write, vnop_ioctl, fuse_biglock_vnode_operation_entries,
  fuse_biglock_vnop_access, fuse_biglock_vnop_blktooff, fuse_biglock_vnop_blockmap,
  fuse_biglock_vnop_close, fuse_biglock_vnop_create, fuse_biglock_vnop_exchange,
  fuse_biglock_vnop_fsync, fuse_biglock_vnop_getattr, fuse_biglock_vnop_getxattr,
  fuse_biglock_vnop_inactive, fuse_biglock_vnop_link, fuse_biglock_vnop_listxattr,
  fuse_biglock_vnop_lookup, fuse_biglock_vnop_mkdir, fuse_biglock_vnop_mknod,
  fuse_biglock_vnop_mmap, fuse_biglock_vnop_mnomap, fuse_biglock_vnop_offtoblk,
  fuse_biglock_vnop_open, fuse_biglock_vnop_pagein, fuse_biglock_vnop_pageout,
  fuse_biglock_vnop_pathconf, fuse_biglock_vnop_read, fuse_biglock_vnop_readdir,
  fuse_biglock_vnop_readlink, fuse_biglock_vnop_reclaim, fuse_biglock_vnop_remove,
  fuse_biglock_vnop_removexattr, fuse_biglock_vnop_rename, fuse_biglock_vnop_rmdir,
  fuse_biglock_vnop_select, fuse_biglock_vnop_setattr, fuse_biglock_vnop_setxattr,
  fuse_biglock_vnop_strategy, fuse_biglock_vnop_symlink, fuse_biglock_vnop_write,
  fuse_biglock_vnop_ioctl,
}
use kext.BigLock.Bracket.{Unheld, IsBalanced, IsBracketed, locked_vnop-IsBracketed}
use kext.BigLock.Balance.{
  nodelocked_vnop-IsBracketed, nodelocked_pair_vnop-IsBracketed, nodelocked_quad_vnop-IsBracketed,
}

-- The nodes that are to be locked for an operation: none for those on blocks, pages and buffers and
-- for `reclaim`; the directory for `lookup` and what makes new nodes there; the two files for
-- `exchange`, the directories and the files for `rename`; else the file.
unfoldable pub nodes_of : Vnop → Nodes → List ℕ
nodes_of vnop_access ap = ap.a_vp ∷ []
nodes_of vnop_blktooff ap = []
nodes_of vnop_blockmap ap = []
nodes_of vnop_close ap = ap.a_vp ∷ []
nodes_of vnop_create ap = ap.a_dvp ∷ []
nodes_of vnop_exchange ap = ap.a_fvp ∷ ap.a_tvp ∷ []
nodes_of vnop_fsync ap = ap.a_vp ∷ []
nodes_of vnop_getattr ap = ap.a_vp ∷ []
nodes_of vnop_getxattr ap = ap.a_vp ∷ []
nodes_of vnop_inactive ap = ap.a_vp ∷ []
nodes_of vnop_link ap = ap.a_vp ∷ []
nodes_of vnop_listxattr ap = ap.a_vp ∷ []
nodes_of vnop_lookup ap = ap.a_dvp ∷ []
nodes_of vnop_mkdir ap = ap.a_dvp ∷ []
nodes_of vnop_mknod ap = ap.a_dvp ∷ []
nodes_of vnop_mmap ap = ap.a_vp ∷ []
nodes_of vnop_mnomap ap = ap.a_vp ∷ []
nodes_of vnop_offtoblk ap = []
nodes_of vnop_open ap = ap.a_vp ∷ []
nodes_of vnop_pagein ap = []
nodes_of vnop_pageout ap = []
nodes_of vnop_pathconf ap = ap.a_vp ∷ []
nodes_of vnop_read ap = ap.a_vp ∷ []
nodes_of vnop_readdir ap = ap.a_vp ∷ []
nodes_of vnop_readlink ap = ap.a_vp ∷ []
nodes_of vnop_reclaim ap = []
nodes_of vnop_remove ap = ap.a_vp ∷ []
nodes_of vnop_removexattr ap = ap.a_vp ∷ []
nodes_of vnop_rename ap = ap.a_tdvp ∷ ap.a_fdvp ∷ ap.a_fvp ∷ ap.a_tvp ∷ []
nodes_of vnop_rmdir ap = ap.a_vp ∷ []
nodes_of vnop_select ap = ap.a_vp ∷ []
nodes_of vnop_setattr ap = ap.a_vp ∷ []
nodes_of vnop_setxattr ap = ap.a_vp ∷ []
nodes_of vnop_strategy ap = []
nodes_of vnop_symlink ap = ap.a_dvp ∷ []
nodes_of vnop_write ap = ap.a_vp ∷ []
nodes_of vnop_ioctl ap = ap.a_vp ∷ []

-- Every operation in fuse_biglock_vnode_operation_entries keeps the discipline of the locks. Let
-- the thread hold neither the big lock nor the lock of a node that is to be locked, and let the
-- operation, wherever it is called under the big lock and the locks of its nodes, return with
-- exactly the locks that it found; for rename, let no two of the four nodes be each other's
-- parent and none be the sentinel address. Then the wrapper returns: the thread does not wait for
-- a lock of its own. Either a node to be locked was deleted, the operation did not run, and the
-- errno is ENOENT; or the operation ran on the state of before, under the big lock and the lock
-- of each node that is not NULL, its state is kept and its result returned. Both times the big
-- lock is free and each node is locked as often as before.
pub entry-IsBracketed :
    {A : Type 0} (op : M A ℕ) (vnop : Vnop) (ap : Nodes) (s : Thread A)
    → s.biglock ≡ false
    → s.locks.deadlocked ≡ false
    → Unheld (nodes_of vnop ap) s.locks
    → (vnop ≡ vnop_rename → IsTree s.locks.node ap.a_tdvp ap.a_fdvp ap.a_fvp ap.a_tvp)
    → IsBalanced op (nodes_of vnop ap)
    → IsBracketed op (nodes_of vnop ap) s (fuse_biglock_vnode_operation_entries op vnop ap s)
unfolding nodes_of fuse_biglock_vnode_operation_entries fuse_biglock_vnop_access
    fuse_biglock_vnop_blktooff fuse_biglock_vnop_blockmap fuse_biglock_vnop_close
    fuse_biglock_vnop_create fuse_biglock_vnop_exchange fuse_biglock_vnop_fsync
    fuse_biglock_vnop_getattr fuse_biglock_vnop_getxattr fuse_biglock_vnop_inactive
    fuse_biglock_vnop_link fuse_biglock_vnop_listxattr fuse_biglock_vnop_lookup
    fuse_biglock_vnop_mkdir fuse_biglock_vnop_mknod fuse_biglock_vnop_mmap fuse_biglock_vnop_mnomap
    fuse_biglock_vnop_offtoblk fuse_biglock_vnop_open fuse_biglock_vnop_pagein
    fuse_biglock_vnop_pageout fuse_biglock_vnop_pathconf fuse_biglock_vnop_read
    fuse_biglock_vnop_readdir fuse_biglock_vnop_readlink fuse_biglock_vnop_reclaim
    fuse_biglock_vnop_remove fuse_biglock_vnop_removexattr fuse_biglock_vnop_rename
    fuse_biglock_vnop_rmdir fuse_biglock_vnop_select fuse_biglock_vnop_setattr
    fuse_biglock_vnop_setxattr fuse_biglock_vnop_strategy fuse_biglock_vnop_symlink
    fuse_biglock_vnop_write fuse_biglock_vnop_ioctl
entry-IsBracketed op vnop_access ap s free runs unheld tree bal =
    nodelocked_vnop-IsBracketed op s free runs ap.a_vp unheld bal
entry-IsBracketed op vnop_blktooff ap s free runs unheld tree bal =
    locked_vnop-IsBracketed op s bal free runs
entry-IsBracketed op vnop_blockmap ap s free runs unheld tree bal =
    locked_vnop-IsBracketed op s bal free runs
entry-IsBracketed op vnop_close ap s free runs unheld tree bal =
    nodelocked_vnop-IsBracketed op s free runs ap.a_vp unheld bal
entry-IsBracketed op vnop_create ap s free runs unheld tree bal =
    nodelocked_vnop-IsBracketed op s free runs ap.a_dvp unheld bal
entry-IsBracketed op vnop_exchange ap s free runs unheld tree bal =
    nodelocked_pair_vnop-IsBracketed op s free runs ap.a_fvp ap.a_tvp unheld bal
entry-IsBracketed op vnop_fsync ap s free runs unheld tree bal =
    nodelocked_vnop-IsBracketed op s free runs ap.a_vp unheld bal
entry-IsBracketed op vnop_getattr ap s free runs unheld tree bal =
    nodelocked_vnop-IsBracketed op s free runs ap.a_vp unheld bal
entry-IsBracketed op vnop_getxattr ap s free runs unheld tree bal =
    nodelocked_vnop-IsBracketed op s free runs ap.a_vp unheld bal
entry-IsBracketed op vnop_inactive ap s free runs unheld tree bal =
    nodelocked_vnop-IsBracketed op s free runs ap.a_vp unheld bal
entry-IsBracketed op vnop_link ap s free runs unheld tree bal =
    nodelocked_vnop-IsBracketed op s free runs ap.a_vp unheld bal
entry-IsBracketed op vnop_listxattr ap s free runs unheld tree bal =
    nodelocked_vnop-IsBracketed op s free runs ap.a_vp unheld bal
entry-IsBracketed op vnop_lookup ap s free runs unheld tree bal =
    nodelocked_vnop-IsBracketed op s free runs ap.a_dvp unheld bal
entry-IsBracketed op vnop_mkdir ap s free runs unheld tree bal =
    nodelocked_vnop-IsBracketed op s free runs ap.a_dvp unheld bal
entry-IsBracketed op vnop_mknod ap s free runs unheld tree bal =
    nodelocked_vnop-IsBracketed op s free runs ap.a_dvp unheld bal
entry-IsBracketed op vnop_mmap ap s free runs unheld tree bal =
    nodelocked_vnop-IsBracketed op s free runs ap.a_vp unheld bal
entry-IsBracketed op vnop_mnomap ap s free runs unheld tree bal =
    nodelocked_vnop-IsBracketed op s free runs ap.a_vp unheld bal
entry-IsBracketed op vnop_offtoblk ap s free runs unheld tree bal =
    locked_vnop-IsBracketed op s bal free runs
entry-IsBracketed op vnop_open ap s free runs unheld tree bal =
    nodelocked_vnop-IsBracketed op s free runs ap.a_vp unheld bal
entry-IsBracketed op vnop_pagein ap s free runs unheld tree bal =
    locked_vnop-IsBracketed op s bal free runs
entry-IsBracketed op vnop_pageout ap s free runs unheld tree bal =
    locked_vnop-IsBracketed op s bal free runs
entry-IsBracketed op vnop_pathconf ap s free runs unheld tree bal =
    nodelocked_vnop-IsBracketed op s free runs ap.a_vp unheld bal
entry-IsBracketed op vnop_read ap s free runs unheld tree bal =
    nodelocked_vnop-IsBracketed op s free runs ap.a_vp unheld bal
entry-IsBracketed op vnop_readdir ap s free runs unheld tree bal =
    nodelocked_vnop-IsBracketed op s free runs ap.a_vp unheld bal
entry-IsBracketed op vnop_readlink ap s free runs unheld tree bal =
    nodelocked_vnop-IsBracketed op s free runs ap.a_vp unheld bal
entry-IsBracketed op vnop_reclaim ap s free runs unheld tree bal =
    locked_vnop-IsBracketed op s bal free runs
entry-IsBracketed op vnop_remove ap s free runs unheld tree bal =
    nodelocked_vnop-IsBracketed op s free runs ap.a_vp unheld bal
entry-IsBracketed op vnop_removexattr ap s free runs unheld tree bal =
    nodelocked_vnop-IsBracketed op s free runs ap.a_vp unheld bal
entry-IsBracketed op vnop_rename ap s free runs unheld tree bal =
    nodelocked_quad_vnop-IsBracketed op s free runs ap.a_tdvp ap.a_fdvp ap.a_fvp ap.a_tvp
      (tree refl) unheld bal
entry-IsBracketed op vnop_rmdir ap s free runs unheld tree bal =
    nodelocked_vnop-IsBracketed op s free runs ap.a_vp unheld bal
entry-IsBracketed op vnop_select ap s free runs unheld tree bal =
    nodelocked_vnop-IsBracketed op s free runs ap.a_vp unheld bal
entry-IsBracketed op vnop_setattr ap s free runs unheld tree bal =
    nodelocked_vnop-IsBracketed op s free runs ap.a_vp unheld bal
entry-IsBracketed op vnop_setxattr ap s free runs unheld tree bal =
    nodelocked_vnop-IsBracketed op s free runs ap.a_vp unheld bal
entry-IsBracketed op vnop_strategy ap s free runs unheld tree bal =
    locked_vnop-IsBracketed op s bal free runs
entry-IsBracketed op vnop_symlink ap s free runs unheld tree bal =
    nodelocked_vnop-IsBracketed op s free runs ap.a_dvp unheld bal
entry-IsBracketed op vnop_write ap s free runs unheld tree bal =
    nodelocked_vnop-IsBracketed op s free runs ap.a_vp unheld bal
entry-IsBracketed op vnop_ioctl ap s free runs unheld tree bal =
    nodelocked_vnop-IsBracketed op s free runs ap.a_vp unheld bal
