-- ===== src/Locking/Pair.antt =====
-- What `fusefs_lockpair` leaves locked, and in which order it locks.
use kext.Prelude.{
  ℕ, ◌<◌, true, ◌≡◌, ◌⊎◌, inl, inr, ap, ◌∙◌, ◌∷◌, ◌==◌, count, count-cons, false, remove,
  remove_self, remove_other, arith, Bool-cases,
}
use kext.Errno.{enoent}
use kext.Locking.{
  LockType, fusefs_exclusive_lock, Locks, taken, fusefs_lock, fusefs_unlock, lock_both, pair_first,
  fusefs_lockpair, fusefs_unlockpair,
}

-- The lock of a node was taken, or refused and not held.
fusefs_lock-held :
    (locktype : LockType) (p : ℕ) (s : Locks)
    → (fusefs_lock locktype p s ≡ (taken locktype p s, 0))
      ⊎ (((fusefs_lock locktype p s).1 ≡ enoent) × ((fusefs_lock locktype p s).0.held ≡ s.held))
unfolding fusefs_lock fusefs_unlock
fusefs_lock-held locktype p s = ground (arith, remove_self p s.held)

-- Two nodes in the order of their locks, the first one last.
lock_both-held :
    (locktype : LockType) (p q : ℕ) (s : Locks)
    → (((lock_both locktype q p (fusefs_lock locktype p s)).1 ≡ 0)
        × ((lock_both locktype q p (fusefs_lock locktype p s)).0.held ≡ q ∷ p ∷ s.held))
      ⊎ (((lock_both locktype q p (fusefs_lock locktype p s)).1 ≡ enoent)
          × ((lock_both locktype q p (fusefs_lock locktype p s)).0.held ≡ s.held))
unfolding fusefs_lock fusefs_unlock
lock_both-held locktype p q s = ground (arith, remove_self p s.held, remove_self q (p ∷ s.held))

unlock_same :
    (p q : ℕ) (u : Locks) → (p == q) ≡ true → (fusefs_unlockpair p q u).held ≡ remove p u.held
unfolding fusefs_unlockpair fusefs_unlock
unlock_same p q u e = ground (arith, e)

unlock_both :
    (p q : ℕ) (u : Locks)
    → (p == q) ≡ false
    → (fusefs_unlockpair p q u).held ≡ remove q (remove p u.held)
unfolding fusefs_unlockpair fusefs_unlock
unlock_both p q u e = ground (arith, e)

PairOutcome : ℕ → ℕ → Locks → Locks × ℕ → Type 0
PairOutcome p q s r =
    ((r.1 ≡ 0) × ((fusefs_unlockpair p q r.0).held ≡ s.held))
    ⊎ ((r.1 ≡ enoent) × (r.0.held ≡ s.held))

same-PairOutcome :
    (locktype : LockType) (p q : ℕ) (s : Locks)
    → (p == q) ≡ true
    → PairOutcome p q s (fusefs_lock locktype p s)
unfolding PairOutcome
same-PairOutcome locktype p q s e = elim (fusefs_lock-held locktype p s) [
  | inl x ↦ inl (
    ap (λ r. r.1) x,
    ap (λ r. (fusefs_unlockpair p q r.0).held) x
        ∙ unlock_same p q (taken locktype p s) e
        ∙ remove_self p s.held,
  )
  | inr x ↦ inr x
]

both-PairOutcome :
    (p q : ℕ) (s : Locks) (r : Locks × ℕ)
    → (p == q) ≡ false
    → ((r.1 ≡ 0) × (r.0.held ≡ q ∷ p ∷ s.held)) ⊎ ((r.1 ≡ enoent) × (r.0.held ≡ s.held))
    → PairOutcome p q s r
unfolding PairOutcome
both-PairOutcome p q s r e (inr x) = inr x
both-PairOutcome p q s r e (inl x) = inl (
  x.0,
  unlock_both p q r.0 e
      ∙ ap (λ l. remove q (remove p l)) x.1
      ∙ ap (remove q) (remove_other p q (p ∷ s.held) e)
      ∙ remove_self q (remove p (p ∷ s.held))
      ∙ remove_self p s.held,
)

swapped-PairOutcome :
    (p q : ℕ) (s : Locks) (r : Locks × ℕ)
    → (p == q) ≡ false
    → ((r.1 ≡ 0) × (r.0.held ≡ p ∷ q ∷ s.held)) ⊎ ((r.1 ≡ enoent) × (r.0.held ≡ s.held))
    → PairOutcome p q s r
unfolding PairOutcome
swapped-PairOutcome p q s r e (inr x) = inr x
swapped-PairOutcome p q s r e (inl x) = inl (
  x.0,
  unlock_both p q r.0 e
      ∙ ap (λ l. remove q (remove p l)) x.1
      ∙ ap (remove q) (remove_self p (q ∷ s.held))
      ∙ remove_self q s.held,
)

-- For two nodes, equal or not, `fusefs_lockpair` takes all locks or none, and then
-- `fusefs_unlockpair` gives the locks of before back: it returns 0, and unlocking the pair leaves
-- exactly the locks held before; or it returns ENOENT and holds exactly the locks held before.
pub fusefs_lockpair_all_or_none :
    (locktype : LockType) (p q : ℕ) (s : Locks)
    → (((fusefs_lockpair locktype p q s).1 ≡ 0)
        × ((fusefs_unlockpair p q (fusefs_lockpair locktype p q s).0).held ≡ s.held))
      ⊎ (((fusefs_lockpair locktype p q s).1 ≡ enoent)
          × ((fusefs_lockpair locktype p q s).0.held ≡ s.held))
unfolding fusefs_lockpair PairOutcome
fusefs_lockpair_all_or_none locktype p q s = elim (Bool-cases (p == q)) [
  | inl e ↦ rw (fusefs_lockpair, e) (same-PairOutcome locktype p q s e)
  | inr e ↦ elim (Bool-cases (pair_first s p q)) [
    | inl f ↦
        rw (fusefs_lockpair, e, f) (both-PairOutcome p q s _ e (lock_both-held locktype p q s))
    | inr f ↦
        rw (fusefs_lockpair, e, f) (swapped-PairOutcome p q s _ e (lock_both-held locktype q p s))
  ]
]

-- The order of a child and its parent depends on the order of the arguments. Take a child whose
-- address is lower than that of its parent, a directory. If neither was deleted, then
-- `fusefs_lockpair` of the child and the parent locks the child first, and `fusefs_lockpair` of the
-- parent and the child locks the parent first.
pub fusefs_lockpair_disagrees :
    (locktype : LockType) (child parent : ℕ) (s : Locks)
    → child < parent
    → (s.node parent).is_dir ≡ true
    → (s.node parent).nodeid ≡ (s.node child).parent_nodeid
    → (s.node child).noexists ≡ false
    → (s.node parent).noexists ≡ false
    → ((fusefs_lockpair locktype child parent s).0.held ≡ parent ∷ child ∷ s.held)
      × ((fusefs_lockpair locktype parent child s).0.held ≡ child ∷ parent ∷ s.held)
unfolding fusefs_lockpair pair_first fusefs_lock
fusefs_lockpair_disagrees locktype child parent s lt dir up c p = ground arith

-- A thread that does not hold the nodes does not wait for itself.
pub fusefs_lock-deadlocked :
    (p : ℕ) (s : Locks)
    → s.deadlocked ≡ false
    → count p s.held ≡ 0
    → (fusefs_lock fusefs_exclusive_lock p s).0.deadlocked ≡ false
unfolding fusefs_lock fusefs_unlock
fusefs_lock-deadlocked p s runs free = ground (arith, runs, free)

lock_both-deadlocked :
    (p q : ℕ) (s : Locks)
    → (p == q) ≡ false
    → s.deadlocked ≡ false
    → count p s.held ≡ 0
    → count q s.held ≡ 0
    → (lock_both fusefs_exclusive_lock q p (fusefs_lock fusefs_exclusive_lock p s)).0.deadlocked
      ≡ false
unfolding fusefs_lock fusefs_unlock
lock_both-deadlocked p q s e runs free_p free_q = elim (Bool-cases (s.node p).noexists) [
  | inl f ↦ ground (arith, f, runs, free_p)
  | inr f ↦ elim (Bool-cases (s.node q).noexists) [
    | inl g ↦ ground (arith, e, f, g, runs, free_p, free_q, count-cons q p s.held)
    | inr g ↦ ground (arith, e, f, g, runs, free_p, free_q, count-cons q p s.held)
  ]
]

pub fusefs_lockpair-deadlocked :
    (p q : ℕ) (s : Locks)
    → s.deadlocked ≡ false
    → count p s.held ≡ 0
    → count q s.held ≡ 0
    → (fusefs_lockpair fusefs_exclusive_lock p q s).0.deadlocked ≡ false
unfolding fusefs_lockpair
fusefs_lockpair-deadlocked p q s runs free_p free_q = elim (Bool-cases (p == q)) [
  | inl e ↦ rw e (fusefs_lock-deadlocked p s runs free_p)
  | inr e ↦ elim (Bool-cases (pair_first s p q)) [
    | inl f ↦ rw (fusefs_lockpair, e, f) (lock_both-deadlocked p q s e runs free_p free_q)
    | inr f ↦
        rw (fusefs_lockpair, e, f)
          (lock_both-deadlocked q p s (ground (arith, e)) runs free_q free_p)
  ]
]
