-- ===== src/Node/Get.antt =====
-- fuse_node.c: FSNodeGetOrCreateFileVNodeByID and fuse_vget_i. Each thread runs under the big lock of
-- its mount, so that the others run only where it is dropped; `Point` also lets them run between the
-- search of the tree and the call of the kernel, where the code counts with them.
use kext.Prelude.{ℕ, Bool, false, Option, none, some, ◌==◌, ◌+◌, ◌∷◌, ◌%◌, ◌^◌, if◌then◌else◌, not}
use kext.Errno.{einval, eio, estale}
use kext.BigLock.{M, pure, ◌>>=◌, ◌>>◌, fuse_biglock_lock, fuse_biglock_unlock}
use kext.Node.State.{
  EntryOut, Host, Cache, get, modify, on_shared, post, with_data, while_purging, fuse_vncache_purge,
  vnode_settag, fuse_vncache_enter,
}
use kext.Node.Create.{bad_vtype, drop_reference, find_node, get_vnode, create_vnode}

module _ {K Tree : Type 0} (host : Host K Tree) where
  -- A vnode that does not fit: forget its names, give it back, and fail.
  unfoldable pub reject : (vn errno : ℕ) → M (Cache K Tree) (ℕ × Option ℕ)
  unfolding fuse_biglock_lock fuse_biglock_unlock
  reject vn errno = do
    fuse_biglock_unlock
    post (fuse_vncache_purge vn)
    on_shared (host.others while_purging)
    fuse_biglock_lock
    on_shared λ h. record h { kernel = host.kpi.vnode_put h.kernel vn }
    drop_reference vn
    pure (errno, none)

  -- The checks on the vnode, found or new.
  unfoldable pub check_vnode : (vtyp generation vn : ℕ) → M (Cache K Tree) (ℕ × Option ℕ)
  unfolding reject
  check_vnode vtyp generation vn = do
    s ← get
    if not (host.kpi.vnode_vtype s.shared.kernel vn == vtyp)
        then reject vn eio
        else (if not
              ((s.shared.fvdat (host.kpi.vnode_fsnode s.shared.kernel vn)).generation == generation)
            then reject vn estale
            else (do post (vnode_settag vn); pure (0, some vn)))

  unfoldable pub checked : (vtyp generation : ℕ) → ℕ × ℕ → M (Cache K Tree) (ℕ × Option ℕ)
  unfolding check_vnode
  checked vtyp generation (err, vn) =
      if err == 0 then check_vnode vtyp generation vn else pure (err, none)

  -- A new vnode, unless there is one.
  unfoldable pub create_missing :
      (is_root : Bool) → EntryOut → (dvp vn : ℕ) → M (Cache K Tree) (ℕ × ℕ)
  unfolding create_vnode
  create_missing is_root feo dvp vn = do
    s ← get
    if vn == 0
        then create_vnode host is_root feo dvp (host.kpi.iftovt feo.attr.mode)
            (host.fuse_os_malloc s.shared)
        else pure (0, vn)

  -- The reference, unless there is no vnode.
  unfoldable pub get_found : ℕ × ℕ → M (Cache K Tree) ℕ
  unfolding get_vnode
  get_found (vn, vid) = if vn == 0 then pure 0 else get_vnode host vn vid

  -- The errno, and `*vnPtr` where the function sets it.
  unfoldable pub fs_node_get_or_create_file_vnode_by_id :
      (is_root : Bool) → EntryOut → (dvp : ℕ) → M (Cache K Tree) (ℕ × Option ℕ)
  unfolding find_node get_found create_missing checked
  fs_node_get_or_create_file_vnode_by_id is_root feo dvp =
      if bad_vtype (host.kpi.iftovt feo.attr.mode) then pure (einval, none) else (do
        found ← find_node host feo.nodeid
        vn ← get_found found
        r ← create_missing is_root feo dvp vn
        checked (host.kpi.iftovt feo.attr.mode) feo.generation r)

  -- Note the name where MAKEENTRY is set, and count the lookup.
  unfoldable pub looked_up :
      (makeentry : Bool) (dvp : ℕ) → ℕ × Option ℕ → M (Cache K Tree) (ℕ × Option ℕ)
  looked_up makeentry dvp (err, none) = pure (err, none)
  looked_up makeentry dvp (err, some vn) = do
    modify λ s. if makeentry then record s { calls = fuse_vncache_enter dvp vn ∷ s.calls } else s
    on_shared λ h.
        let p = host.kpi.vnode_fsnode h.kernel vn in
        with_data p (record (h.fvdat p) { nlookup = ((h.fvdat p).nlookup + 1) % 2 ^ 64 }) h
    pure (0, some vn)

  -- `feo` is `none` where it is NULL.
  unfoldable pub fuse_vget_i :
      (makeentry : Bool) → Option EntryOut → (dvp : ℕ) → M (Cache K Tree) (ℕ × Option ℕ)
  unfolding fs_node_get_or_create_file_vnode_by_id looked_up
  fuse_vget_i makeentry none dvp = pure (einval, none)
  fuse_vget_i makeentry (some feo) dvp = do
    r ← fs_node_get_or_create_file_vnode_by_id false feo dvp
    looked_up makeentry dvp r
