-- ===== src/Locking.antt =====
-- fuse_locking.c: locks of nodes, of pairs and of four nodes at once. A node is its address, 0
-- for NULL. The model follows one thread: `held` are the node locks that it has, the last first,
-- and `posted` the calls it makes on vnodes after it drops a lock. When the kernel grants a lock
-- that others hold is left open; the thread sees no write of another to the nodes. `deadlocked`
-- says that the thread has asked for a lock that it holds itself, and waits for ever: what the
-- state says of later steps does not happen.
pub mod Pair
pub mod Four
use kext.Prelude.{
  ℕ, zero, suc, Bool, true, false, not, ◌&&◌, ◌||◌, List, [], ◌∷◌, ◌++◌, ltb, ◌==◌, if◌then◌else◌,
  remove, count,
}
use kext.Errno.{enoent}

-- `nodelockowner`.
pub data LockOwner : Type 0 where
  nobody fusefs_shared_owner this_thread : LockOwner

-- `enum fusefslocktype`.
pub data LockType : Type 0 where
  fusefs_shared_lock fusefs_exclusive_lock fusefs_force_lock : LockType

-- What the locks read and write of a `fusenode_t`: the flags C_NOEXISTS, C_NEED_DATA_SETSIZE and
-- C_NEED_DVNODE_PUT of `c_flag`, and whether `vp` is set.
pub record FuseNode : Type 0 where
  pub is_dir : Bool
  pub nodeid : ℕ
  pub parent_nodeid : ℕ
  pub noexists : Bool
  pub need_data_setsize : Bool
  pub need_dvnode_put : Bool
  pub has_vnode : Bool
  pub nodelockowner : LockOwner

-- A call on the vnode of a node.
pub data VnodeCall : Type 0 where
  ubc_setsize vnode_put : ℕ → VnodeCall

pub record Locks : Type 0 where
  pub node : ℕ → FuseNode
  pub held : List ℕ
  pub posted : List VnodeCall
  pub deadlocked : Bool

abbrev pub with_node : (ℕ → FuseNode) → ℕ → FuseNode → ℕ → FuseNode
with_node node p n q = if p == q then n else node q

abbrev pub owner_of : LockType → LockOwner
owner_of fusefs_shared_lock = fusefs_shared_owner
owner_of fusefs_exclusive_lock = this_thread
owner_of fusefs_force_lock = this_thread

abbrev pub is_force : LockType → Bool
is_force fusefs_shared_lock = false
is_force fusefs_exclusive_lock = false
is_force fusefs_force_lock = true

abbrev pub unlocked_node : FuseNode → FuseNode
unlocked_node n = record n {
  need_data_setsize = false;
  need_dvnode_put = false;
  nodelockowner = nobody;
}

abbrev pub calls_of : ℕ → FuseNode → List VnodeCall
calls_of p n =
    if n.has_vnode
    then (if n.need_data_setsize then ubc_setsize p ∷ [] else [])
      ++ (if n.need_dvnode_put then vnode_put p ∷ [] else [])
    else []

unfoldable pub fusefs_unlock : ℕ → Locks → Locks
fusefs_unlock p s = record {
  node = with_node s.node p (unlocked_node (s.node p));
  held = remove p s.held;
  posted = s.posted ++ calls_of p (s.node p);
  deadlocked = s.deadlocked;
}

-- A lock that the thread holds already is not granted again, but a shared one that is shared.
abbrev pub blocks : LockType → LockOwner → Bool
blocks fusefs_shared_lock fusefs_shared_owner = false
blocks fusefs_shared_lock nobody = true
blocks fusefs_shared_lock this_thread = true
blocks fusefs_exclusive_lock owner = true
blocks fusefs_force_lock owner = true

abbrev pub waits_for_itself : LockType → ℕ → Locks → Bool
waits_for_itself locktype p s =
    not (count p s.held == 0) && blocks locktype (s.node p).nodelockowner

-- The state that holds the lock of a node.
abbrev pub taken : LockType → ℕ → Locks → Locks
taken locktype p s = record s {
  node = with_node s.node p (record (s.node p) { nodelockowner = owner_of locktype });
  held = p ∷ s.held;
  deadlocked = s.deadlocked || waits_for_itself locktype p s;
}

-- The state, and 0 or ENOENT.
unfoldable pub fusefs_lock : LockType → ℕ → Locks → Locks × ℕ
unfolding fusefs_unlock
fusefs_lock locktype p s =
    if not (is_force locktype) && (s.node p).noexists
    then (fusefs_unlock p (taken locktype p s), enoent)
    else (taken locktype p s, 0)

-- The second lock of a pair; where it fails, the first is dropped.
abbrev pub lock_last : ℕ → Locks × ℕ → Locks × ℕ
lock_last first (s, zero) = (s, zero)
lock_last first (s, suc e) = (fusefs_unlock first s, suc e)

abbrev pub lock_both : LockType → (last first : ℕ) → Locks × ℕ → Locks × ℕ
lock_both locktype last first (s, zero) = lock_last first (fusefs_lock locktype last s)
lock_both locktype last first (s, suc e) = (s, suc e)

-- Which of two nodes `fusefs_lockpair` locks first.
unfoldable pub pair_first : Locks → ℕ → ℕ → Bool
pair_first s p q = (s.node p).is_dir && (s.node p).nodeid == (s.node q).parent_nodeid || ltb p q

unfoldable pub fusefs_lockpair : LockType → ℕ → ℕ → Locks → Locks × ℕ
unfolding fusefs_lock fusefs_unlock pair_first
fusefs_lockpair locktype p q s =
    if p == q
    then fusefs_lock locktype p s
    else (if pair_first s p q
        then lock_both locktype q p (fusefs_lock locktype p s)
        else lock_both locktype p q (fusefs_lock locktype q s))

unfoldable pub fusefs_unlockpair : ℕ → ℕ → Locks → Locks
unfolding fusefs_unlock
fusefs_unlockpair p q s = if q == p then fusefs_unlock p s else fusefs_unlock q (fusefs_unlock p s)
