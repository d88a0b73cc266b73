-- ===== src/BigLock/Entries.antt =====
-- fuse_biglock_vnops.c, the end of fuse_vfsops.c: the operations as the kernel calls them.
use kext.Prelude.{ℕ}
use kext.BigLock.{
  locked_vfsop, M, locked_vnop, nodelocked_vnop, nodelocked_pair_vnop, nodelocked_quad_vnop,
}

-- The operations of fuse_vnops.c.
pub data Vnop : Type 0 where
  vnop_access vnop_blktooff vnop_blockmap vnop_close vnop_create vnop_exchange vnop_fsync
        vnop_getattr vnop_getxattr vnop_inactive vnop_link vnop_listxattr vnop_lookup vnop_mkdir
        vnop_mknod vnop_mmap vnop_mnomap vnop_offtoblk vnop_open vnop_pagein vnop_pageout
        vnop_pathconf vnop_read vnop_readdir vnop_readlink vnop_reclaim vnop_remove vnop_removexattr
        vnop_rename vnop_rmdir vnop_select vnop_setattr vnop_setxattr vnop_strategy vnop_symlink
        vnop_write vnop_ioctl :
      Vnop

-- The nodes of an operation's arguments, 0 for NULL.
pub record Nodes : Type 0 where
  pub a_vp : ℕ
  pub a_dvp : ℕ
  pub a_fvp : ℕ
  pub a_tvp : ℕ
  pub a_fdvp : ℕ
  pub a_tdvp : ℕ

-- `fuse_vnop` is the operation with its arguments.
module _ {A : Type 0} (fuse_vnop : M A ℕ) where
  unfoldable pub fuse_biglock_vnop_access : Nodes → M A ℕ
  fuse_biglock_vnop_access ap = nodelocked_vnop ap.a_vp fuse_vnop

  unfoldable pub fuse_biglock_vnop_blktooff : M A ℕ
  fuse_biglock_vnop_blktooff = locked_vnop fuse_vnop

  unfoldable pub fuse_biglock_vnop_blockmap : M A ℕ
  fuse_biglock_vnop_blockmap = locked_vnop fuse_vnop

  unfoldable pub fuse_biglock_vnop_close : Nodes → M A ℕ
  fuse_biglock_vnop_close ap = nodelocked_vnop ap.a_vp fuse_vnop

  unfoldable pub fuse_biglock_vnop_create : Nodes → M A ℕ
  fuse_biglock_vnop_create ap = nodelocked_vnop ap.a_dvp fuse_vnop

  unfoldable pub fuse_biglock_vnop_exchange : Nodes → M A ℕ
  fuse_biglock_vnop_exchange ap = nodelocked_pair_vnop ap.a_fvp ap.a_tvp fuse_vnop

  unfoldable pub fuse_biglock_vnop_fsync : Nodes → M A ℕ
  fuse_biglock_vnop_fsync ap = nodelocked_vnop ap.a_vp fuse_vnop

  unfoldable pub fuse_biglock_vnop_getattr : Nodes → M A ℕ
  fuse_biglock_vnop_getattr ap = nodelocked_vnop ap.a_vp fuse_vnop

  unfoldable pub fuse_biglock_vnop_getxattr : Nodes → M A ℕ
  fuse_biglock_vnop_getxattr ap = nodelocked_vnop ap.a_vp fuse_vnop

  unfoldable pub fuse_biglock_vnop_inactive : Nodes → M A ℕ
  fuse_biglock_vnop_inactive ap = nodelocked_vnop ap.a_vp fuse_vnop

  unfoldable pub fuse_biglock_vnop_link : Nodes → M A ℕ
  fuse_biglock_vnop_link ap = nodelocked_vnop ap.a_vp fuse_vnop

  unfoldable pub fuse_biglock_vnop_listxattr : Nodes → M A ℕ
  fuse_biglock_vnop_listxattr ap = nodelocked_vnop ap.a_vp fuse_vnop

  unfoldable pub fuse_biglock_vnop_lookup : Nodes → M A ℕ
  fuse_biglock_vnop_lookup ap = nodelocked_vnop ap.a_dvp fuse_vnop

  unfoldable pub fuse_biglock_vnop_mkdir : Nodes → M A ℕ
  fuse_biglock_vnop_mkdir ap = nodelocked_vnop ap.a_dvp fuse_vnop

  unfoldable pub fuse_biglock_vnop_mknod : Nodes → M A ℕ
  fuse_biglock_vnop_mknod ap = nodelocked_vnop ap.a_dvp fuse_vnop

  unfoldable pub fuse_biglock_vnop_mmap : Nodes → M A ℕ
  fuse_biglock_vnop_mmap ap = nodelocked_vnop ap.a_vp fuse_vnop

  unfoldable pub fuse_biglock_vnop_mnomap : Nodes → M A ℕ
  fuse_biglock_vnop_mnomap ap = nodelocked_vnop ap.a_vp fuse_vnop

  unfoldable pub fuse_biglock_vnop_offtoblk : M A ℕ
  fuse_biglock_vnop_offtoblk = locked_vnop fuse_vnop

  unfoldable pub fuse_biglock_vnop_open : Nodes → M A ℕ
  fuse_biglock_vnop_open ap = nodelocked_vnop ap.a_vp fuse_vnop

  unfoldable pub fuse_biglock_vnop_pagein : M A ℕ
  fuse_biglock_vnop_pagein = locked_vnop fuse_vnop

  unfoldable pub fuse_biglock_vnop_pageout : M A ℕ
  fuse_biglock_vnop_pageout = locked_vnop fuse_vnop

  unfoldable pub fuse_biglock_vnop_pathconf : Nodes → M A ℕ
  fuse_biglock_vnop_pathconf ap = nodelocked_vnop ap.a_vp fuse_vnop

  unfoldable pub fuse_biglock_vnop_read : Nodes → M A ℕ
  fuse_biglock_vnop_read ap = nodelocked_vnop ap.a_vp fuse_vnop

  unfoldable pub fuse_biglock_vnop_readdir : Nodes → M A ℕ
  fuse_biglock_vnop_readdir ap = nodelocked_vnop ap.a_vp fuse_vnop

  unfoldable pub fuse_biglock_vnop_readlink : Nodes → M A ℕ
  fuse_biglock_vnop_readlink ap = nodelocked_vnop ap.a_vp fuse_vnop

  unfoldable pub fuse_biglock_vnop_reclaim : M A ℕ
  fuse_biglock_vnop_reclaim = locked_vnop fuse_vnop

  unfoldable pub fuse_biglock_vnop_remove : Nodes → M A ℕ
  fuse_biglock_vnop_remove ap = nodelocked_vnop ap.a_vp fuse_vnop

  unfoldable pub fuse_biglock_vnop_removexattr : Nodes → M A ℕ
  fuse_biglock_vnop_removexattr ap = nodelocked_vnop ap.a_vp fuse_vnop

  unfoldable pub fuse_biglock_vnop_rename : Nodes → M A ℕ
  fuse_biglock_vnop_rename ap = nodelocked_quad_vnop ap.a_tdvp ap.a_fdvp ap.a_fvp ap.a_tvp fuse_vnop

  unfoldable pub fuse_biglock_vnop_rmdir : Nodes → M A ℕ
  fuse_biglock_vnop_rmdir ap = nodelocked_vnop ap.a_vp fuse_vnop

  unfoldable pub fuse_biglock_vnop_select : Nodes → M A ℕ
  fuse_biglock_vnop_select ap = nodelocked_vnop ap.a_vp fuse_vnop

  unfoldable pub fuse_biglock_vnop_setattr : Nodes → M A ℕ
  fuse_biglock_vnop_setattr ap = nodelocked_vnop ap.a_vp fuse_vnop

  unfoldable pub fuse_biglock_vnop_setxattr : Nodes → M A ℕ
  fuse_biglock_vnop_setxattr ap = nodelocked_vnop ap.a_vp fuse_vnop

  unfoldable pub fuse_biglock_vnop_strategy : M A ℕ
  fuse_biglock_vnop_strategy = locked_vnop fuse_vnop

  unfoldable pub fuse_biglock_vnop_symlink : Nodes → M A ℕ
  fuse_biglock_vnop_symlink ap = nodelocked_vnop ap.a_dvp fuse_vnop

  unfoldable pub fuse_biglock_vnop_write : Nodes → M A ℕ
  fuse_biglock_vnop_write ap = nodelocked_vnop ap.a_vp fuse_vnop

  unfoldable pub fuse_biglock_vnop_ioctl : Nodes → M A ℕ
  fuse_biglock_vnop_ioctl ap = nodelocked_vnop ap.a_vp fuse_vnop

  -- The wrapper of each operation, as `fuse_biglock_vnode_operation_entries` lists them.
  unfoldable pub fuse_biglock_vnode_operation_entries : Vnop → Nodes → M A ℕ
  fuse_biglock_vnode_operation_entries vnop_access ap = fuse_biglock_vnop_access ap
  fuse_biglock_vnode_operation_entries vnop_blktooff ap = fuse_biglock_vnop_blktooff
  fuse_biglock_vnode_operation_entries vnop_blockmap ap = fuse_biglock_vnop_blockmap
  fuse_biglock_vnode_operation_entries vnop_close ap = fuse_biglock_vnop_close ap
  fuse_biglock_vnode_operation_entries vnop_create ap = fuse_biglock_vnop_create ap
  fuse_biglock_vnode_operation_entries vnop_exchange ap = fuse_biglock_vnop_exchange ap
  fuse_biglock_vnode_operation_entries vnop_fsync ap = fuse_biglock_vnop_fsync ap
  fuse_biglock_vnode_operation_entries vnop_getattr ap = fuse_biglock_vnop_getattr ap
  fuse_biglock_vnode_operation_entries vnop_getxattr ap = fuse_biglock_vnop_getxattr ap
  fuse_biglock_vnode_operation_entries vnop_inactive ap = fuse_biglock_vnop_inactive ap
  fuse_biglock_vnode_operation_entries vnop_link ap = fuse_biglock_vnop_link ap
  fuse_biglock_vnode_operation_entries vnop_listxattr ap = fuse_biglock_vnop_listxattr ap
  fuse_biglock_vnode_operation_entries vnop_lookup ap = fuse_biglock_vnop_lookup ap
  fuse_biglock_vnode_operation_entries vnop_mkdir ap = fuse_biglock_vnop_mkdir ap
  fuse_biglock_vnode_operation_entries vnop_mknod ap = fuse_biglock_vnop_mknod ap
  fuse_biglock_vnode_operation_entries vnop_mmap ap = fuse_biglock_vnop_mmap ap
  fuse_biglock_vnode_operation_entries vnop_mnomap ap = fuse_biglock_vnop_mnomap ap
  fuse_biglock_vnode_operation_entries vnop_offtoblk ap = fuse_biglock_vnop_offtoblk
  fuse_biglock_vnode_operation_entries vnop_open ap = fuse_biglock_vnop_open ap
  fuse_biglock_vnode_operation_entries vnop_pagein ap = fuse_biglock_vnop_pagein
  fuse_biglock_vnode_operation_entries vnop_pageout ap = fuse_biglock_vnop_pageout
  fuse_biglock_vnode_operation_entries vnop_pathconf ap = fuse_biglock_vnop_pathconf ap
  fuse_biglock_vnode_operation_entries vnop_read ap = fuse_biglock_vnop_read ap
  fuse_biglock_vnode_operation_entries vnop_readdir ap = fuse_biglock_vnop_readdir ap
  fuse_biglock_vnode_operation_entries vnop_readlink ap = fuse_biglock_vnop_readlink ap
  fuse_biglock_vnode_operation_entries vnop_reclaim ap = fuse_biglock_vnop_reclaim
  fuse_biglock_vnode_operation_entries vnop_remove ap = fuse_biglock_vnop_remove ap
  fuse_biglock_vnode_operation_entries vnop_removexattr ap = fuse_biglock_vnop_removexattr ap
  fuse_biglock_vnode_operation_entries vnop_rename ap = fuse_biglock_vnop_rename ap
  fuse_biglock_vnode_operation_entries vnop_rmdir ap = fuse_biglock_vnop_rmdir ap
  fuse_biglock_vnode_operation_entries vnop_select ap = fuse_biglock_vnop_select ap
  fuse_biglock_vnode_operation_entries vnop_setattr ap = fuse_biglock_vnop_setattr ap
  fuse_biglock_vnode_operation_entries vnop_setxattr ap = fuse_biglock_vnop_setxattr ap
  fuse_biglock_vnode_operation_entries vnop_strategy ap = fuse_biglock_vnop_strategy
  fuse_biglock_vnode_operation_entries vnop_symlink ap = fuse_biglock_vnop_symlink ap
  fuse_biglock_vnode_operation_entries vnop_write ap = fuse_biglock_vnop_write ap
  fuse_biglock_vnode_operation_entries vnop_ioctl ap = fuse_biglock_vnop_ioctl ap

-- `fuse_vfsop` is the operation on the mount with its arguments.
module _ {A : Type 0} (fuse_vfsop : M A ℕ) where
  unfoldable pub fuse_vfsop_biglock_root : M A ℕ
  fuse_vfsop_biglock_root = locked_vfsop fuse_vfsop

  unfoldable pub fuse_vfsop_biglock_getattr : M A ℕ
  fuse_vfsop_biglock_getattr = locked_vfsop fuse_vfsop

  unfoldable pub fuse_vfsop_biglock_sync : M A ℕ
  fuse_vfsop_biglock_sync = locked_vfsop fuse_vfsop

  unfoldable pub fuse_vfsop_biglock_setattr : M A ℕ
  fuse_vfsop_biglock_setattr = locked_vfsop fuse_vfsop
