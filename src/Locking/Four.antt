-- ===== src/Locking/Four.antt =====
-- fuse_locking.c: the order of nodes, and four locks at once.
pub mod Order
pub mod Taking
pub mod Held
pub mod Release
use kext.Prelude.{
  ℕ, zero, suc, Bool, true, false, not, ◌&&◌, ◌||◌, List, [], ◌∷◌, ◌++◌, ltb, ◌==◌, if◌then◌else◌,
  count,
}
use kext.Locking.{FuseNode, LockType, Locks, fusefs_lock, fusefs_unlock}

-- `(fusenode_t)0xffffffff`.
abbrev pub sentinel : ℕ
sentinel = 4294967295

unfoldable pub fusefs_isordered : (ℕ → FuseNode) → ℕ → ℕ → Bool
fusefs_isordered node p q =
    if p == q
    then false
    else (if p == 0 || q == sentinel
        then true
        else (if q == 0 || p == sentinel
            then false
            else (if (node p).nodeid == (node q).parent_nodeid
                then true
                else (if (node q).nodeid == (node p).parent_nodeid then false else ltb p q))))

-- The element at an index, behind the elements before it; the sentinel behind the last.
abbrev pub current : List ℕ → ℕ
current [] = sentinel
current (p ∷ ps) = p

abbrev pub next : List ℕ → List ℕ
next [] = []
next (p ∷ ps) = ps

-- `k != 0 && tmp == list[k-1]`, on the list with its last element first.
abbrev pub is_last : ℕ → List ℕ → Bool
is_last p [] = false
is_last p (q ∷ list) = p == q

abbrev pub add_lock : ℕ → List ℕ → List ℕ
add_lock p list = if is_last p list then list else p ∷ list

-- Whether `i < 2 || j < 2`.
abbrev pub more : List ℕ → List ℕ → Bool
more [] [] = false
more (p ∷ ps) b = true
more [] (q ∷ qs) = true

module _ (ordered : ℕ → ℕ → Bool) where
  -- The loop that builds the list of locks, on what is left of `a` and `b`.
  unfoldable pub merge_locks : (fuel : ℕ) (a b list : List ℕ) → List ℕ
  merge_locks zero a b list = list
  merge_locks (suc fuel) a b list =
      let from_a = merge_locks fuel (next a) b (add_lock (current a) list) in
      let from_b = merge_locks fuel a (next b) (add_lock (current b) list) in
      if more a b then (if ordered (current a) (current b) then from_a else from_b) else list

  -- Two nodes in order.
  unfoldable pub in_order : ℕ → ℕ → List ℕ
  in_order p q = if ordered p q then p ∷ q ∷ [] else q ∷ p ∷ []

  -- The list of locks for four nodes, the last first.
  unfoldable pub lock_list : ℕ → ℕ → ℕ → ℕ → List ℕ
  unfolding merge_locks in_order
  lock_list p q r t = merge_locks 4 (in_order p q) (in_order r t) []

unfoldable pub reversed : List ℕ → List ℕ → List ℕ
reversed [] acc = acc
reversed (p ∷ ps) acc = reversed ps (p ∷ acc)

-- `while (--i >= 0)`: drop the locks that were taken, the last first.
unfoldable pub drop_locks : List ℕ → Locks → Locks
unfolding fusefs_unlock
drop_locks [] s = s
drop_locks (p ∷ ps) s = let after = if p == 0 then s else fusefs_unlock p s in drop_locks ps after

-- The locking loop: the nodes still to lock, and those before them, the last first. NULL is skipped.
unfoldable pub take_locks : LockType → (todo before : List ℕ) → Locks → Locks × ℕ
unfolding fusefs_lock drop_locks
take_locks locktype [] before s = (s, 0)
take_locks locktype (p ∷ todo) before s =
    if p == 0
    then take_locks locktype todo (p ∷ before) s
    else (let (t, error) = fusefs_lock locktype p s in
        if error == 0
        then take_locks locktype todo (p ∷ before) t
        else (drop_locks before t, error))

unfoldable pub fusefs_lockfour : LockType → ℕ → ℕ → ℕ → ℕ → Locks → Locks × ℕ
unfolding fusefs_isordered lock_list reversed take_locks
fusefs_lockfour locktype p q r t s =
    take_locks locktype (reversed (lock_list (fusefs_isordered s.node) p q r t) []) [] s

-- Unlock a node unless it is NULL or was unlocked before; the state and the nodes unlocked so far.
unfoldable pub unlock_new : ℕ → List ℕ × Locks → List ℕ × Locks
unfolding fusefs_unlock
unlock_new p (done, s) =
    if p == 0 || not (count p done == 0) then (done, s) else (done ++ p ∷ [], fusefs_unlock p s)

unfoldable pub fusefs_unlockfour : ℕ → ℕ → ℕ → ℕ → Locks → Locks
unfolding unlock_new
fusefs_unlockfour p q r t s = (unlock_new t (unlock_new r (unlock_new q (unlock_new p ([], s))))).1
