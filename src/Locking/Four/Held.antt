-- ===== src/Locking/Four/Held.antt =====
-- What `fusefs_lockfour` leaves locked.
use kext.Prelude.{
  ℕ, ◌+◌, ◌<◌, ◌≤◌, true, false, ◌≡◌, ◌≢◌, ◌⊎◌, refl, inl, inr, ap, ◌∙◌, List, [], ◌==◌,
  if◌then◌else◌, count, count-nil, arith, Bool-cases,
}
use kext.Errno.{enoent}
use kext.Locking.{LockType, Locks}
use kext.Locking.Four.{reversed, lock_list, fusefs_isordered, fusefs_lockfour}
use kext.Locking.Four.Order.{among, IsTree, fusefs_isordered-IsOrder, count-lock_list}
use kext.Locking.Four.Taking.{
  is_refused, locked, Outcome, take_locks-held, take_locks-deadlocked, count-reversed, count-locked,
}

-- 1 for a node that is given and not NULL, else 0.
abbrev pub wanted : ℕ → ℕ → ℕ → ℕ → ℕ → ℕ
wanted a p q r t = if a == 0 then 0 else among a p q r t

-- Each node that is given is locked once more than before, and none was deleted.
pub record LockedAll (locktype : LockType) (p q r t : ℕ) (s u : Locks) : Type 0 where
  pub held : (a : ℕ) → count a u.held ≡ wanted a p q r t + count a s.held
  pub exist : (a : ℕ) → wanted a p q r t ≡ 1 → is_refused locktype (s.node a) ≡ false

-- The same locks are held as before, and some node that is given was deleted.
pub record LockedNone (locktype : LockType) (p q r t : ℕ) (s u : Locks) : Type 0 where
  pub held : u.held ≡ s.held
  pub culprit : ℕ
  pub given : wanted culprit p q r t ≡ 1
  pub refused : is_refused locktype (s.node culprit) ≡ true

module _ (locktype : LockType) (p q r t : ℕ) (s : Locks) (tree : IsTree s.node p q r t) where
  order : List ℕ
  order = reversed (lock_list (fusefs_isordered s.node) p q r t) []

  count-order : (a : ℕ) → count a order ≡ among a p q r t
  unfolding order
  count-order a = omega (
    arith,
    count-reversed a (lock_list (fusefs_isordered s.node) p q r t) [],
    count-nil a,
    count-lock_list (fusefs_isordered s.node) p q r t (fusefs_isordered-IsOrder s.node p q r t tree)
        a,
  )

  count_all :
      (a : ℕ) → count a (locked (reversed order []) s.held) ≡ wanted a p q r t + count a s.held
  count_all a = ground (
    arith,
    count-locked a (reversed order []) s.held,
    count-reversed a order [],
    count-nil a,
    count-order a,
  )

  not_null : (a : ℕ) → wanted a p q r t ≡ 1 → a ≢ 0
  not_null a w = ground arith

  listed : (a : ℕ) → wanted a p q r t ≡ 1 → 0 < count a order
  listed a w = ground (arith, count-order a)

  given : (a : ℕ) → a ≢ 0 → 0 < count a order → wanted a p q r t ≡ 1
  given a n c = ground (arith, count-order a)

  at_most_once : (a : ℕ) → count a order ≤ 1
  at_most_once a = ground (arith, count-order a)

  -- A thread that holds none of the four nodes does not wait for itself.
  pub fusefs_lockfour-deadlocked :
      s.deadlocked ≡ false
      → ((a : ℕ) → wanted a p q r t ≡ 1 → count a s.held ≡ 0)
      → (fusefs_lockfour locktype p q r t s).0.deadlocked ≡ false
  unfolding fusefs_lockfour order
  fusefs_lockfour-deadlocked runs free =
      take_locks-deadlocked locktype order [] s runs (λ a n c. free a (given a n c)) at_most_once

  -- A node that is given and not NULL is held already.
  abbrev GivenHeld : ℕ → Type 0
  GivenHeld a = (wanted a p q r t ≡ 1) × (0 < count a s.held)

  held_one : (x : ℕ) → among x p q r t ≡ 1 → GivenHeld x ⊎ ((x ≡ 0) ⊎ (count x s.held ≡ 0))
  held_one x i = elim (Bool-cases (x == 0)) [
    | inl e ↦ inr (inl (ground (arith, e)))
    | inr e ↦ elim (Bool-cases (count x s.held == 0)) [
      | inl f ↦ inr (inr (ground (arith, f)))
      | inr f ↦ inl (ground (arith, e, i), ground (arith, f))
    ]
  ]

  held_any : ((a : ℕ) × GivenHeld a) ⊎ ((a : ℕ) → wanted a p q r t ≡ 1 → count a s.held ≡ 0)
  held_any = elim (held_one p (ground arith)) [
    | inl h ↦ inl (p, h)
    | inr hp ↦ elim (held_one q (ground arith)) [
      | inl h ↦ inl (q, h)
      | inr hq ↦ elim (held_one r (ground arith)) [
        | inl h ↦ inl (r, h)
        | inr hr ↦ elim (held_one t (ground arith)) [
          | inl h ↦ inl (t, h)
          | inr ht ↦ inr (λ a w. ground (arith, w, hp, hq, hr, ht))
        ]
      ]
    ]
  ]

  -- What becomes of the thread: it goes on, or it waited for itself before, or it held a node.
  going_on :
      ((fusefs_lockfour locktype p q r t s).0.deadlocked ≡ false)
      ⊎ (s.deadlocked ≡ true)
      ⊎ ((a : ℕ) × (wanted a p q r t ≡ 1) × (0 < count a s.held))
  going_on = elim (Bool-cases s.deadlocked) [
    | inl e ↦ inr (inl e)
    | inr e ↦ elim held_any [
      | inl (a, h) ↦ inr (inr (a, h.0, h.1))
      | inr h ↦ inl (fusefs_lockfour-deadlocked e h)
    ]
  ]

  -- All locks are taken, or none.
  pub lockfour_outcome :
      (((fusefs_lockfour locktype p q r t s).1 ≡ 0)
        × LockedAll locktype p q r t s (fusefs_lockfour locktype p q r t s).0)
      ⊎ (((fusefs_lockfour locktype p q r t s).1 ≡ enoent)
          × LockedNone locktype p q r t s (fusefs_lockfour locktype p q r t s).0)
  unfolding fusefs_lockfour Outcome locked order
  lockfour_outcome = elim (take_locks-held locktype order [] s.held s refl) [
    | inl x ↦ inl (
      x.success,
      record {
        held = λ a. ap (λ l. count a l) x.held ∙ count_all a;
        exist = λ a w. x.exist a (not_null a w) (listed a w);
      },
    )
    | inr x ↦ inr (
      x.error,
      record {
        held = x.held;
        culprit = x.culprit;
        given = given x.culprit x.not_null x.wanted;
        refused = x.refused;
      },
    )
  ]

  -- For four nodes of which no two are each other's parent and none is the sentinel address,
  -- `fusefs_lockfour` takes all locks or none. It returns 0, then no node was deleted unless the lock
  -- is forced, and each node that is given and not NULL is locked exactly once more than before, also
  -- if it is given several times; or it returns ENOENT, then one of the nodes was deleted and the
  -- lock is not forced, and the locks held are those of before. In either case the
  -- thread did not wait for a lock of its own, unless it did so before or held the lock of a node
  -- that is given and not NULL.
  pub fusefs_lockfour_all_or_none :
      ((((fusefs_lockfour locktype p q r t s).1 ≡ 0)
          × LockedAll locktype p q r t s (fusefs_lockfour locktype p q r t s).0)
        ⊎ (((fusefs_lockfour locktype p q r t s).1 ≡ enoent)
            × LockedNone locktype p q r t s (fusefs_lockfour locktype p q r t s).0))
      × (((fusefs_lockfour locktype p q r t s).0.deadlocked ≡ false)
          ⊎ (s.deadlocked ≡ true)
          ⊎ ((a : ℕ) × (wanted a p q r t ≡ 1) × (0 < count a s.held)))
  fusefs_lockfour_all_or_none = (lockfour_outcome, going_on)
