-- ===== src/BigLock/Balance.antt =====
-- The wrappers of fuse_biglock_vnops.h, each with its way to lock nodes.
use kext.Prelude.{ℕ, false, ◌≡◌, [], ◌∷◌}
use kext.Locking.{
  fusefs_exclusive_lock, fusefs_lock, fusefs_unlock, fusefs_lockpair, fusefs_unlockpair,
}
use kext.Locking.Four.{fusefs_lockfour, fusefs_unlockfour}
use kext.Locking.Four.Order.{IsTree}
use kext.BigLock.{
  Thread, M, locked_vnop, locked_vfsop, nodelocked_vnop, nodelocked_pair_vnop, nodelocked_quad_vnop,
  fuse_nodelock_lock, fuse_nodelock_unlock, fuse_nodelock_lock_pair, fuse_nodelock_unlock_pair,
  fuse_nodelock_lock_four, fuse_nodelock_unlock_four,
}
use kext.BigLock.Bracket.{
  Unheld, IsBalanced, IsBracketed, or_return-IsBracketed, locked_vnop-IsBracketed,
}
use kext.BigLock.Taking.{one-Brackets, two-Brackets, four-Brackets}

module _ {A : Type 0} (op : M A ℕ) (s : Thread A) (free : s.biglock ≡ false)
    (runs : s.locks.deadlocked ≡ false) where
  pub nodelocked_vnop-IsBracketed :
      (p : ℕ)
      → Unheld (p ∷ []) s.locks
      → IsBalanced op (p ∷ [])
      → IsBracketed op (p ∷ []) s (nodelocked_vnop p op s)
  unfolding nodelocked_vnop fuse_nodelock_lock fuse_nodelock_unlock
  nodelocked_vnop-IsBracketed p unheld bal =
      or_return-IsBracketed (fusefs_lock fusefs_exclusive_lock p) (fusefs_unlock p) op (p ∷ []) s
        (one-Brackets p s.locks runs unheld) bal free

  pub nodelocked_pair_vnop-IsBracketed :
      (p q : ℕ)
      → Unheld (p ∷ q ∷ []) s.locks
      → IsBalanced op (p ∷ q ∷ [])
      → IsBracketed op (p ∷ q ∷ []) s (nodelocked_pair_vnop p q op s)
  unfolding nodelocked_pair_vnop fuse_nodelock_lock_pair fuse_nodelock_unlock_pair
  nodelocked_pair_vnop-IsBracketed p q unheld bal =
      or_return-IsBracketed (fusefs_lockpair fusefs_exclusive_lock p q) (fusefs_unlockpair p q) op
        (p ∷ q ∷ []) s (two-Brackets p q s.locks runs unheld) bal free

  pub nodelocked_quad_vnop-IsBracketed :
      (p q r t : ℕ)
      → IsTree s.locks.node p q r t
      → Unheld (p ∷ q ∷ r ∷ t ∷ []) s.locks
      → IsBalanced op (p ∷ q ∷ r ∷ t ∷ [])
      → IsBracketed op (p ∷ q ∷ r ∷ t ∷ []) s (nodelocked_quad_vnop p q r t op s)
  unfolding nodelocked_quad_vnop fuse_nodelock_lock_four fuse_nodelock_unlock_four
  nodelocked_quad_vnop-IsBracketed p q r t tree unheld bal =
      or_return-IsBracketed (fusefs_lockfour fusefs_exclusive_lock p q r t)
        (fusefs_unlockfour p q r t) op (p ∷ q ∷ r ∷ t ∷ []) s
        (four-Brackets p q r t s.locks tree runs unheld) bal free

-- The operations on the mount.
pub locked_vfsop-IsBracketed :
    {A : Type 0} (op : M A ℕ) (s : Thread A)
    → IsBalanced op []
    → s.biglock ≡ false
    → s.locks.deadlocked ≡ false
    → IsBracketed op [] s (locked_vfsop op s)
unfolding locked_vfsop locked_vnop
locked_vfsop-IsBracketed op s bal free runs = locked_vnop-IsBracketed op s bal free runs
