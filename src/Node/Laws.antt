-- ===== src/Node/Laws.antt =====
-- What the code of fuse_node.c relies on: documented behaviour of the kernel's calls, of the tree, and
-- of the threads that run in between.
use kext.Prelude.{ℕ, Option, none, some, ◌≡◌, ◌⊎◌, is_zero, if◌then◌else◌}
use kext.Errno.{enoent}
use kext.Node.Create.{fuse_vnode_compare}
use kext.Node.State.{RbTree, FsParam, NodeData, Shared, Host, after_find, after_create}

abbrev pub or_else : Option ℕ → ℕ → Option ℕ
or_else none p = some p
or_else (some q) p = some q

module _ {K Tree : Type 0} (host : Host K Tree) where
  -- The data of a vnode's node.
  abbrev pub data_of : Shared K Tree → ℕ → NodeData
  data_of h vn = h.fvdat (host.kpi.vnode_fsnode h.kernel vn)

  -- A vnode stands for the same node as before.
  pub record SameNode (vn : ℕ) (h g : Shared K Tree) : Type 0 where
    pub fsnode : host.kpi.vnode_fsnode g.kernel vn ≡ host.kpi.vnode_fsnode h.kernel vn
    pub nodeid : (data_of g vn).nodeid ≡ (data_of h vn).nodeid
    pub generation : (data_of g vn).generation ≡ (data_of h vn).generation

  -- `Held` is the kernel's knowledge that somebody has a reference to a vnode.
  pub record IsDocumented (Held : K → ℕ → Type 0) : Type 0 where
    -- vnode_getwithvid fails with ENOENT only, and touches no vnode but for its references.
    pub getwithvid_errno :
        (k : K) (vn vid : ℕ)
        → ((host.kpi.vnode_getwithvid k vn vid).0 ≡ 0)
          ⊎ ((host.kpi.vnode_getwithvid k vn vid).0 ≡ enoent)
    pub getwithvid_fsnode :
        (k : K) (vn vid u : ℕ)
        → host.kpi.vnode_fsnode (host.kpi.vnode_getwithvid k vn vid).1 u ≡ host.kpi.vnode_fsnode k u
    -- Where it succeeds for the id that the vnode had, the vnode was not reused meanwhile.
    pub vid_identity :
        (h : Shared K Tree) (vn : ℕ)
        → (host.kpi.vnode_getwithvid
            (host.others after_find h).kernel
            vn
            (host.kpi.vnode_vid h.kernel vn)).0
          ≡ 0
        → SameNode vn h (host.others after_find h)
    -- A vnode that vnode_create makes has the data it was given, and a reference.
    pub create_fsnode :
        (k : K) (params : FsParam)
        → (host.kpi.vnode_create k params).0 ≡ 0
        → host.kpi.vnode_fsnode
            (host.kpi.vnode_create k params).2
            (host.kpi.vnode_create k params).1
          ≡ params.vnfs_fsnode
    pub create_held :
        (k : K) (params : FsParam)
        → (host.kpi.vnode_create k params).0 ≡ 0
        → Held (host.kpi.vnode_create k params).2 (host.kpi.vnode_create k params).1
    -- While somebody has a reference to a vnode, it is not reused.
    pub held_identity :
        (h : Shared K Tree) (vn : ℕ) → Held h.kernel vn → SameNode vn h (host.others after_create h)

  -- The tree links a node's data under its nodeid, and the vnode of the data has that data.
  pub record IsFiled (h : Shared K Tree) : Type 0 where
    pub filed :
        (nodeid p : ℕ)
        → host.rb.rb_find h.nodes_head nodeid ≡ some p
        → ((h.fvdat p).nodeid ≡ nodeid) × (host.kpi.vnode_fsnode h.kernel (h.fvdat p).vp ≡ p)

-- RB_FIND and RB_INSERT on a tree in the order of `fuse_vnode_compare`: an element that compares equal
-- to one in the tree is not inserted.
pub record IsSearchTree {Tree : Type 0} (rb : RbTree Tree) : Type 0 where
  pub find_inserted :
      (tree : Tree) (nodeid inserted p : ℕ)
      → rb.rb_find (rb.rb_insert tree inserted p) nodeid ≡ (
          if is_zero (fuse_vnode_compare nodeid inserted)
          then or_else (rb.rb_find tree nodeid) p
          else rb.rb_find tree nodeid)
