-- ===== src/Node/Create.antt =====
-- fuse_node.c: finding a node's vnode in the tree, and creating one.
use kext.Prelude.{
  ℕ, Bool, true, false, none, some, ◌==◌, ◌+◌, ◌-◌, ◌%◌, ◌^◌, leb, if◌then◌else◌, ◌||◌, ℤ, pos,
  negsuc, ltb,
}
use mathlib.Core.Option
use kext.Errno.{enoent}
use kext.BigLock.{M, pure, ◌>>=◌, ◌>>◌, fuse_biglock_lock, fuse_biglock_unlock}
use kext.Vnode.State.{Timespec, FuseFilehandle}
use kext.Node.State.{
  EntryOut, NodeData, Host, Shared, after_find, after_create, Cache, get, modify, on_shared, post,
  at, with_data, vnode_addfsref,
}

-- The order of the tree.
unfoldable pub fuse_vnode_compare : (nodeid1 nodeid2 : ℕ) → ℤ
fuse_vnode_compare nodeid1 nodeid2 =
    if ltb nodeid2 nodeid1 then pos 1 else (if nodeid1 == nodeid2 then pos 0 else negsuc 0)

-- `vtyp >= VBAD || vtyp == VNON`.
abbrev pub bad_vtype : ℕ → Bool
bad_vtype vtyp = leb 8 vtyp || vtyp == 0

-- `bzero`.
abbrev pub zero_time : Timespec
zero_time = record { tv_sec = 0; tv_nsec = 0 }

abbrev pub zero_handle : FuseFilehandle
zero_handle = record { fh_id = 0; open_count = 0; open_flags = 0; fuse_open_flags = 0 }

-- The data of a new node, before its vnode is there.
unfoldable pub new_data : (vtyp dvp parent_nodeid size : ℕ) → EntryOut → NodeData
new_data vtyp dvp parent_nodeid size feo = record {
  vp = 0;
  nodeid = feo.nodeid;
  vid = 0;
  generation = feo.generation;
  parentvp = dvp;
  parent_nodeid = parent_nodeid;
  fufh = λ t. zero_handle;
  flag = 0;
  c_flag = 0;
  modify_time = feo.attr.mtime;
  entry_valid = feo.entry_valid;
  attr_valid = feo.attr_valid;
  filesize = size;
  nlookup = 0;
  vtype = vtyp;
}

-- `fuse_vnode_data_destroy`.
abbrev pub zero_data : NodeData
zero_data = record {
  vp = 0;
  nodeid = 0;
  vid = 0;
  generation = 0;
  parentvp = 0;
  parent_nodeid = 0;
  fufh = λ t. zero_handle;
  flag = 0;
  c_flag = 0;
  modify_time = zero_time;
  entry_valid = zero_time;
  attr_valid = zero_time;
  filesize = 0;
  nlookup = 0;
  vtype = 0;
}

module _ {K Tree : Type 0} where
  unfoldable pub lock_nodes : M (Cache K Tree) (Unit {0})
  lock_nodes t =
      if t.rest.node_mtx
      then none
      else some (tt, record t { rest = record t.rest { node_mtx = true } })

  unfoldable pub unlock_nodes : M (Cache K Tree) (Unit {0})
  unlock_nodes t =
      if t.rest.node_mtx
      then some (tt, record t { rest = record t.rest { node_mtx = false } })
      else none

  -- This thread got a reference to a vnode, or gave one back.
  abbrev pub give_reference : ℕ → M (Cache K Tree) (Unit {0})
  give_reference vn = modify λ s. record s { references = at s.references vn (s.references vn + 1) }

  abbrev pub drop_reference : ℕ → M (Cache K Tree) (Unit {0})
  drop_reference vn = modify λ s. record s { references = at s.references vn (s.references vn - 1) }

module _ {K Tree : Type 0} (host : Host K Tree) where
  -- The vnode in the tree and its id, or NULL.
  unfoldable pub find_node : (nodeid : ℕ) → M (Cache K Tree) (ℕ × ℕ)
  unfolding lock_nodes unlock_nodes
  find_node nodeid = do
    lock_nodes
    s ← get
    unlock_nodes
    pure (elim (host.rb.rb_find s.shared.nodes_head nodeid) [
      | none ↦ (0, 0)
      | some p ↦ ((s.shared.fvdat p).vp, host.kpi.vnode_vid s.shared.kernel (s.shared.fvdat p).vp)
    ])

  unfoldable pub got_reference : (vn : ℕ) → ℕ × K → M (Cache K Tree) ℕ
  got_reference vn (geterr, kernel) = do
    on_shared (λ h. record h { kernel = kernel })
    if geterr == 0
        then (do give_reference vn; pure vn)
        else pure (if geterr == enoent then 0 else vn)

  -- The vnode, once there is a reference to it, or NULL where it is another by now.
  unfoldable pub get_vnode : (vn vid : ℕ) → M (Cache K Tree) ℕ
  unfolding got_reference
  get_vnode vn vid = do
    on_shared (host.others after_find)
    s ← get
    got_reference vn (host.kpi.vnode_getwithvid s.shared.kernel vn vid)

  -- The new vnode with its data, put into the tree.
  unfoldable pub attach : (is_root : Bool) (dvp p vn : ℕ) → M (Cache K Tree) (Unit {0})
  unfolding lock_nodes unlock_nodes
  attach is_root dvp p vn = do
    modify λ s. record s {
      shared =
          with_data p
            (record (s.shared.fvdat p) {
              parentvp = if is_root then vn else dvp;
              vp = vn;
              vid = host.kpi.vnode_vid s.shared.kernel vn;
            })
            s.shared;
      oflags = Option.map (λ flags. true) s.oflags;
    }
    lock_nodes
    on_shared λ h. record h { nodes_head = host.rb.rb_insert h.nodes_head (h.fvdat p).nodeid p }
    unlock_nodes
    post (vnode_addfsref vn)
    on_shared λ h. record h { fuse_vnodes_current = (h.fuse_vnodes_current + 1) % 2 ^ 32 }

  unfoldable pub size_of : (is_root : Bool) → EntryOut → ℕ
  size_of is_root feo = if is_root then 0 else feo.attr.size

  -- `VTOI(dvp)`, or 0.
  unfoldable pub parent_nodeid_of : (dvp : ℕ) → Shared K Tree → ℕ
  parent_nodeid_of dvp h =
      if dvp == 0 then 0 else (h.fvdat (host.kpi.vnode_fsnode h.kernel dvp)).nodeid

  -- What follows on the kernel's answer.
  unfoldable pub created : (is_root : Bool) (dvp p : ℕ) → ℕ × ℕ × K → M (Cache K Tree) (ℕ × ℕ)
  unfolding attach fuse_biglock_lock
  created is_root dvp p (err, vn, kernel) = do
    on_shared (λ h. record h { kernel = kernel })
    on_shared (host.others after_create)
    fuse_biglock_lock
    if err == 0
        then (do give_reference vn; attach is_root dvp p vn; pure (0, vn))
        else (do on_shared (with_data p zero_data); pure (err, 0))

  -- The errno and the new vnode, with the reference that the kernel gives to its creator.
  unfoldable pub create_vnode :
      (is_root : Bool) → EntryOut → (dvp vtyp p : ℕ) → M (Cache K Tree) (ℕ × ℕ)
  unfolding new_data size_of parent_nodeid_of created fuse_biglock_unlock
  create_vnode is_root feo dvp vtyp p = do
    on_shared
        (λ h. with_data p (new_data vtyp dvp (parent_nodeid_of dvp h) (size_of is_root feo) feo) h)
    fuse_biglock_unlock
    s ← get
    created is_root dvp p (
        host.kpi.vnode_create s.shared.kernel (record {
          vnfs_vtype = vtyp;
          vnfs_dvp = dvp;
          vnfs_fsnode = p;
          vnfs_filesize = size_of is_root feo;
          vnfs_markroot = is_root;
        }))
