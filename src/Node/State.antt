-- ===== src/Node/State.antt =====
-- fuse_node.h, compat/tree.h, and the kernel's interface to vnodes: the state that the table of nodes
-- is part of. A vnode and a node's data are addresses, 0 for NULL.
use kext.Prelude.{ℕ, Bool, Option, List, ◌∷◌, some, ◌==◌, if◌then◌else◌}
use kext.BigLock.{M}
use kext.Vnode.State.{Timespec, FufhType, FuseFilehandle}
use kext.Vnode.Attr.{FuseAttr}

-- `struct fuse_entry_out`.
pub record EntryOut : Type 0 where
  pub nodeid : ℕ
  pub generation : ℕ
  pub entry_valid : Timespec
  pub attr_valid : Timespec
  pub attr : FuseAttr

-- `struct fuse_vnode_data`, without the locks and the cached attributes.
pub record NodeData : Type 0 where
  pub vp : ℕ
  pub nodeid : ℕ
  pub vid : ℕ
  pub generation : ℕ
  pub parentvp : ℕ
  pub parent_nodeid : ℕ
  pub fufh : FufhType → FuseFilehandle
  pub flag : ℕ
  pub c_flag : ℕ
  pub modify_time : Timespec
  pub entry_valid : Timespec
  pub attr_valid : Timespec
  pub filesize : ℕ
  pub nlookup : ℕ
  pub vtype : ℕ

-- `struct vnode_fsparam`, without the operations and what is always 0.
pub record FsParam : Type 0 where
  pub vnfs_vtype : ℕ
  pub vnfs_dvp : ℕ
  pub vnfs_fsnode : ℕ
  pub vnfs_filesize : ℕ
  pub vnfs_markroot : Bool

-- The kernel's calls on vnodes. `K` is what the kernel keeps.
pub record Kpi (K : Type 0) : Type 0 where
  pub vnode_vid : K → ℕ → ℕ
  pub vnode_vtype : K → ℕ → ℕ
  pub vnode_fsnode : K → ℕ → ℕ
  -- The errno.
  pub vnode_getwithvid : K → (vp vid : ℕ) → ℕ × K
  -- The errno and the new vnode.
  pub vnode_create : K → FsParam → ℕ × ℕ × K
  pub vnode_put : K → ℕ → K
  pub iftovt : (mode : ℕ) → ℕ

-- RB_FIND and RB_INSERT on a tree that is ordered by `fuse_vnode_compare`: a node's data under its
-- `nodeid`.
pub record RbTree (Tree : Type 0) : Type 0 where
  pub rb_find : Tree → (nodeid : ℕ) → Option ℕ
  pub rb_insert : Tree → (nodeid fvdat : ℕ) → Tree

-- What all threads of the mount share.
pub record Shared (K Tree : Type 0) : Type 0 where
  pub nodes_head : Tree
  pub fvdat : ℕ → NodeData
  pub kernel : K
  pub fuse_vnodes_current : ℕ

-- Where other threads may run in between.
pub data Point : Type 0 where
  after_find after_create while_purging : Point

pub data NodeCall : Type 0 where
  fuse_vncache_purge vnode_addfsref vnode_settag : ℕ → NodeCall
  fuse_vncache_enter : (dvp vp : ℕ) → NodeCall

-- With the state of this thread: whether it holds `node_mtx`, how many references it has to each
-- vnode, the MAKEENTRY bit of `*oflags`, `none` where `oflags` is NULL, and its calls, newest first.
pub record Cache (K Tree : Type 0) : Type 0 where
  pub shared : Shared K Tree
  pub node_mtx : Bool
  pub references : ℕ → ℕ
  pub oflags : Option Bool
  pub calls : List NodeCall

-- What the code relies on: the kernel, the tree, the allocator (the address of new memory), and what
-- other threads do to the shared state.
pub record Host (K Tree : Type 0) : Type 0 where
  pub kpi : Kpi K
  pub rb : RbTree Tree
  pub fuse_os_malloc : Shared K Tree → ℕ
  pub others : Point → Shared K Tree → Shared K Tree

module _ {K Tree : Type 0} where
  abbrev pub get : M (Cache K Tree) (Cache K Tree)
  get t = some (t.rest, t)

  abbrev pub modify : (Cache K Tree → Cache K Tree) → M (Cache K Tree) (Unit {0})
  modify f t = some (tt, record t { rest = f t.rest })

  abbrev pub on_shared : (Shared K Tree → Shared K Tree) → M (Cache K Tree) (Unit {0})
  on_shared f = modify λ s. record s { shared = f s.shared }

  abbrev pub post : NodeCall → M (Cache K Tree) (Unit {0})
  post c = modify λ s. record s { calls = c ∷ s.calls }

-- A store with one node's data changed; a count with one vnode's changed.
abbrev pub at {ℓ} : {A : Type ℓ} → (ℕ → A) → ℕ → A → ℕ → A
at f p a q = if p == q then a else f q

abbrev pub with_data : {K Tree : Type 0} → ℕ → NodeData → Shared K Tree → Shared K Tree
with_data p d s = record s { fvdat = at s.fvdat p d }
