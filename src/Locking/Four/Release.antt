-- ===== src/Locking/Four/Release.antt =====
-- What `fusefs_unlockfour` leaves locked.
use kext.Prelude.{
  ℕ, ◌+◌, ◌||◌, ◌-◌, not, ◌&&◌, ◌≡◌, inl, inr, ap, ◌∙◌, List, [], ◌∷◌, ◌==◌, if◌then◌else◌, count,
  count-cons, count-nil, arith, Bool-cases, count-append, count-remove,
}
use kext.Locking.{LockType, Locks, fusefs_unlock}
use kext.Locking.Four.{fusefs_lockfour, unlock_new, fusefs_unlockfour}
use kext.Locking.Four.Order.{IsTree}
use kext.Locking.Four.Held.{wanted, lockfour_outcome}

-- The effect of one step of `fusefs_unlockfour` on the locks.
count-unlock_new :
    (a p : ℕ) (done : List ℕ) (s : Locks)
    → count a (unlock_new p (done, s)).1.held
      ≡ (if a == p && not (p == 0) && count p done == 0 then count a s.held - 1 else count a s.held)
unfolding unlock_new fusefs_unlock
count-unlock_new a p done s = ground (arith, count-remove a p s.held)

count-unlock_new-done :
    (a p : ℕ) (done : List ℕ) (s : Locks)
    → count a (unlock_new p (done, s)).0
      ≡ (if a == p && not (p == 0) && count p done == 0 then count a done + 1 else count a done)
unfolding unlock_new
count-unlock_new-done a p done s =
    ground (arith, count-append a done (p ∷ []), count-cons a p [], count-nil a)

-- 1 for a node of a list that is not NULL, else 0.
abbrev hit : ℕ → List ℕ → ℕ
hit a ps = if a == 0 || count a ps == 0 then 0 else 1

-- `fusefs_unlockfour` after some of its nodes.
record Unlocked (s : Locks) (ps : List ℕ) (y : List ℕ × Locks) : Type 0 where
  marked : (a : ℕ) → count a y.0 ≡ hit a ps
  held : (a : ℕ) → count a y.1.held ≡ count a s.held - hit a ps

unlock_new-Unlocked :
    (s : Locks) (p : ℕ) (ps : List ℕ) (y : List ℕ × Locks)
    → Unlocked s ps y
    → Unlocked s (p ∷ ps) (unlock_new p y)
unlock_new-Unlocked s p ps (done, u) h = record {
  marked = λ a. elim (Bool-cases (a == p)) [
    | inl e ↦
        ground
          (arith, e, count-unlock_new-done a p done u, h.marked a, h.marked p, count-cons a p ps)
    | inr e ↦ ground (arith, e, count-unlock_new-done a p done u, h.marked a, count-cons a p ps)
  ];
  held = λ a. elim (Bool-cases (a == p)) [
    | inl e ↦
        ground (arith, e, count-unlock_new a p done u, h.held a, h.marked p, count-cons a p ps)
    | inr e ↦ ground (arith, e, count-unlock_new a p done u, h.held a, count-cons a p ps)
  ];
}

nothing-Unlocked : (s : Locks) → Unlocked s [] ([], s)
nothing-Unlocked s = record {
  marked = λ a. ground (arith, count-nil a);
  held = λ a. ground (arith, count-nil a);
}

hit_lem : (a p q r t : ℕ) → hit a (t ∷ r ∷ q ∷ p ∷ []) ≡ wanted a p q r t
hit_lem a p q r t = ground (
  arith,
  count-nil a,
  count-cons a p [],
  count-cons a q (p ∷ []),
  count-cons a r (q ∷ p ∷ []),
  count-cons a t (r ∷ q ∷ p ∷ []),
)

pub fusefs_unlockfour_lem :
    (a p q r t : ℕ) (s : Locks)
    → count a (fusefs_unlockfour p q r t s).held ≡ count a s.held - wanted a p q r t
unfolding fusefs_unlockfour
fusefs_unlockfour_lem a p q r t s = all.held a ∙ ap (λ n. count a s.held - n) (hit_lem a p q r t)
  where
    all :
        Unlocked s
          (t ∷ r ∷ q ∷ p ∷ [])
          (unlock_new t (unlock_new r (unlock_new q (unlock_new p ([], s)))))
    all = unlock_new-Unlocked s t (r ∷ q ∷ p ∷ []) _ (
        unlock_new-Unlocked s r (q ∷ p ∷ []) _
          (unlock_new-Unlocked s q (p ∷ []) _ (unlock_new-Unlocked s p [] _ (nothing-Unlocked s))))

-- Where `fusefs_lockfour` of four nodes, of which no two are each other's parent and none is the
-- sentinel address, returns 0, `fusefs_unlockfour` of the same nodes leaves each lock held as often
-- as before.
pub fusefs_unlockfour-fusefs_lockfour :
    (locktype : LockType) (p q r t : ℕ) (s : Locks)
    → IsTree s.node p q r t
    → (fusefs_lockfour locktype p q r t s).1 ≡ 0
    → (a : ℕ)
    → count a (fusefs_unlockfour p q r t (fusefs_lockfour locktype p q r t s).0).held
      ≡ count a s.held
fusefs_unlockfour-fusefs_lockfour locktype p q r t s tree e a =
    elim (lockfour_outcome locktype p q r t s tree) [
      | inl x ↦ ground (
        arith,
        x.1.held a,
        fusefs_unlockfour_lem a p q r t (fusefs_lockfour locktype p q r t s).0,
      )
      | inr x ↦ absurd (omega (arith, x.0))
    ]
