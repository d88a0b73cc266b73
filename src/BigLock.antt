-- ===== src/BigLock.antt =====
-- fuse_biglock_vnops.h: the macros that run an operation under the big lock of its mount, and under
-- the locks of its nodes. The model follows one thread. `rest` is the state of the operations.
pub mod Entries
pub mod Bracket
pub mod Taking
pub mod Balance
pub mod Table
use kext.Prelude.{ℕ, Bool, true, false, Option, none, some, ◌==◌, if◌then◌else◌}
use kext.Locking.{
  Locks, fusefs_exclusive_lock, fusefs_lock, fusefs_unlock, fusefs_lockpair, fusefs_unlockpair,
}
use kext.Locking.Four.{fusefs_lockfour, fusefs_unlockfour}

-- `biglock` says whether the thread holds the lock.
pub record Thread (A : Type 0) : Type 0 where
  pub locks : Locks
  pub biglock : Bool
  pub rest : A

-- `none` where the thread waits for itself, or drops a lock that it does not hold.
abbrev pub M : Type 0 → Type 0 → Type 0
M A B = Thread A → Option (B × Thread A)

module _ {A : Type 0} where
  abbrev pub pure : {B : Type 0} → B → M A B
  pure b s = some (b, s)

  abbrev pub bind_option :
      {B C : Type 0} → Option (B × Thread A) → (B → M A C) → Option (C × Thread A)
  bind_option none f = none
  bind_option (some (b, s)) f = f b s

  infixl 5 ◌>>=◌ ◌>>◌
  abbrev pub ◌>>=◌ : {B C : Type 0} → M A B → (B → M A C) → M A C
  ◌>>=◌ m f s = bind_option (m s) f

  abbrev pub ◌>>◌ : {C : Type 0} → M A (Unit {0}) → M A C → M A C
  m >> k = m >>= λ _. k

  -- `lck_mtx_lock` and `lck_mtx_unlock`: the mutex is not recursive.
  unfoldable pub fuse_biglock_lock : M A (Unit {0})
  fuse_biglock_lock s = if s.biglock then none else some (tt, record s { biglock = true })

  unfoldable pub fuse_biglock_unlock : M A (Unit {0})
  fuse_biglock_unlock s = if s.biglock then some (tt, record s { biglock = false }) else none

  -- Take locks of nodes and go on; where that fails, return its error. A thread that waits for a
  -- lock of its own gets nowhere.
  unfoldable pub or_return : (Locks → Locks × ℕ) → M A ℕ → M A ℕ
  or_return take k s =
      let (locks, err) = take s.locks in
      let after = record s { locks = locks } in
      if locks.deadlocked then none else if err == 0 then k after else pure err after

  -- Drop locks of nodes.
  abbrev pub drop_locks : (Locks → Locks) → M A (Unit {0})
  drop_locks drop s = some (tt, record s { locks = drop s.locks })

  unfoldable pub fuse_nodelock_lock : ℕ → M A ℕ → M A ℕ
  fuse_nodelock_lock node = or_return (fusefs_lock fusefs_exclusive_lock node)

  unfoldable pub fuse_nodelock_unlock : ℕ → M A (Unit {0})
  fuse_nodelock_unlock node = drop_locks (fusefs_unlock node)

  unfoldable pub fuse_nodelock_lock_pair : ℕ → ℕ → M A ℕ → M A ℕ
  fuse_nodelock_lock_pair node1 node2 =
      or_return (fusefs_lockpair fusefs_exclusive_lock node1 node2)

  unfoldable pub fuse_nodelock_unlock_pair : ℕ → ℕ → M A (Unit {0})
  fuse_nodelock_unlock_pair node1 node2 = drop_locks (fusefs_unlockpair node1 node2)

  unfoldable pub fuse_nodelock_lock_four : ℕ → ℕ → ℕ → ℕ → M A ℕ → M A ℕ
  fuse_nodelock_lock_four node1 node2 node3 node4 =
      or_return (fusefs_lockfour fusefs_exclusive_lock node1 node2 node3 node4)

  unfoldable pub fuse_nodelock_unlock_four : ℕ → ℕ → ℕ → ℕ → M A (Unit {0})
  fuse_nodelock_unlock_four node1 node2 node3 node4 =
      drop_locks (fusefs_unlockfour node1 node2 node3 node4)

  unfoldable pub locked_vnop : M A ℕ → M A ℕ
  locked_vnop vnop = do fuse_biglock_lock; res ← vnop; fuse_biglock_unlock; pure res

  unfoldable pub locked_vfsop : M A ℕ → M A ℕ
  locked_vfsop vfsop = do fuse_biglock_lock; res ← vfsop; fuse_biglock_unlock; pure res

  unfoldable pub nodelocked_vnop : ℕ → M A ℕ → M A ℕ
  nodelocked_vnop node vnop =
      fuse_nodelock_lock node
        (do fuse_biglock_lock; res ← vnop; fuse_biglock_unlock; fuse_nodelock_unlock node; pure res)

  unfoldable pub nodelocked_pair_vnop : ℕ → ℕ → M A ℕ → M A ℕ
  nodelocked_pair_vnop node1 node2 vnop = fuse_nodelock_lock_pair node1 node2 (do
    fuse_biglock_lock
    res ← vnop
    fuse_biglock_unlock
    fuse_nodelock_unlock_pair node1 node2
    pure res)

  unfoldable pub nodelocked_quad_vnop : ℕ → ℕ → ℕ → ℕ → M A ℕ → M A ℕ
  nodelocked_quad_vnop node1 node2 node3 node4 vnop =
      fuse_nodelock_lock_four node1 node2 node3 node4 (do
        fuse_biglock_lock
        res ← vnop
        fuse_biglock_unlock
        fuse_nodelock_unlock_four node1 node2 node3 node4
        pure res)
