-- ===== src/BigLock/Taking.antt =====
-- fuse_locking.c, as the wrappers use it: one node, a pair, four nodes.
use kext.Prelude.{
  ℕ, ◌<◌, false, ◌+◌, ◌-◌, ◌≡◌, ◌||◌, ap, ◌⊎◌, inl, inr, List, [], ◌∷◌, count, count-nil,
  count-cons, count-remove, remove, remove_self, arith, Bool-cases, ◌==◌, if◌then◌else◌, ◌∙◌,
}
use kext.Errno.{enoent}
use kext.Locking.{
  Locks, fusefs_exclusive_lock, fusefs_lock, fusefs_unlock, fusefs_lockpair, fusefs_unlockpair,
  lock_both, pair_first,
}
use kext.Locking.Pair.{fusefs_lock-deadlocked, fusefs_lockpair-deadlocked}
use kext.Locking.Four.{fusefs_lockfour, fusefs_unlockfour}
use kext.Locking.Four.Order.{IsTree, among}
use kext.Locking.Four.Held.{lockfour_outcome, fusefs_lockfour-deadlocked}
use kext.Locking.Four.Release.{fusefs_unlockfour_lem}
use kext.BigLock.Bracket.{LeftAlone, Unheld, Brackets}

count_one : (a p : ℕ) → 0 < count a (p ∷ []) → a ≡ p
count_one a p c = ground (arith, count-cons a p [], count-nil a)

count_it : (p : ℕ) (ps : List ℕ) → 0 < count p (p ∷ ps)
count_it p ps = ground (arith, count-cons p p ps)

-- The lock of a node was taken, or the node was deleted.
fusefs_lock-cases :
    (p : ℕ) (s : Locks)
    → (((fusefs_lock fusefs_exclusive_lock p s).1 ≡ 0)
        × ((fusefs_lock fusefs_exclusive_lock p s).0.held ≡ p ∷ s.held))
      ⊎ (((fusefs_lock fusefs_exclusive_lock p s).1 ≡ enoent)
          × LeftAlone (p ∷ []) s (fusefs_lock fusefs_exclusive_lock p s).0)
unfolding fusefs_lock fusefs_unlock
fusefs_lock-cases p s = elim (Bool-cases (s.node p).noexists) [
  | inl e ↦ inr (
    ground (arith, e),
    record {
      same = ground (arith, e, remove_self p s.held);
      culprit = p;
      given = count_it p [];
      deleted = e;
    },
  )
  | inr e ↦ inl (ground (arith, e), ground (arith, e))
]

count_last : (p q : ℕ) → 0 < count q (p ∷ q ∷ [])
count_last p q = ground (arith, count-cons q p (q ∷ []), count_it q [])

pub one-Brackets :
    (p : ℕ) (s : Locks)
    → s.deadlocked ≡ false
    → Unheld (p ∷ []) s
    → Brackets (p ∷ []) (fusefs_lock fusefs_exclusive_lock p) (fusefs_unlock p) s
unfolding fusefs_unlock
one-Brackets p s runs free = elim (fusefs_lock-cases p s) [
  | inl (e, l) ↦ record {
    runs = fusefs_lock-deadlocked p s runs (free p (count_it p []));
    taken = inl (e, λ a n c. ground (arith, l, count_one a p c, count_it p s.held));
    dropped =
        λ z u h a. ap (λ k. count a (remove p k)) (h ∙ l) ∙ ap (count a) (remove_self p s.held);
  }
  | inr (e, l) ↦ record {
    runs = fusefs_lock-deadlocked p s runs (free p (count_it p []));
    taken = inr (e, l);
    dropped = λ z u h a. absurd (omega (arith, e));
  }
]

-- Two nodes in the order of their locks.
lock_both-cases :
    (p q : ℕ) (s : Locks)
    → (((lock_both fusefs_exclusive_lock q p (fusefs_lock fusefs_exclusive_lock p s)).1 ≡ 0)
        × ((lock_both fusefs_exclusive_lock q p (fusefs_lock fusefs_exclusive_lock p s)).0.held
            ≡ q ∷ p ∷ s.held))
      ⊎ (((lock_both fusefs_exclusive_lock q p (fusefs_lock fusefs_exclusive_lock p s)).1 ≡ enoent)
          × LeftAlone
              (p ∷ q ∷ [])
              s
              (lock_both fusefs_exclusive_lock q p (fusefs_lock fusefs_exclusive_lock p s)).0)
unfolding fusefs_lock fusefs_unlock
lock_both-cases p q s = elim (Bool-cases (s.node p).noexists) [
  | inl e ↦ inr (
    ground (arith, e),
    record {
      same = ground (arith, e, remove_self p s.held);
      culprit = p;
      given = count_it p (q ∷ []);
      deleted = e;
    },
  )
  | inr e ↦ elim (Bool-cases (s.node q).noexists) [
    | inl f ↦ inr (
      ground (arith, e, f),
      record {
        same = ground (arith, e, f, remove_self p s.held, remove_self q (p ∷ s.held));
        culprit = q;
        given = ground (arith, count-cons q p (q ∷ []), count_it q []);
        deleted = f;
      },
    )
    | inr f ↦ inl (ground (arith, e, f), ground (arith, e, f))
  ]
]

-- For two nodes that are not the same, in either order.
swap-LeftAlone : (p q : ℕ) (s u : Locks) → LeftAlone (p ∷ q ∷ []) s u → LeftAlone (q ∷ p ∷ []) s u
swap-LeftAlone p q s u l = record {
  same = l.same;
  culprit = l.culprit;
  given = ground (
    arith,
    l.given,
    count-cons l.culprit p (q ∷ []),
    count-cons l.culprit q [],
    count-cons l.culprit q (p ∷ []),
    count-cons l.culprit p [],
  );
  deleted = l.deleted;
}

-- What the outcomes of a pair of locks have in common.
PairCases : ℕ → ℕ → Locks → Locks × ℕ → Type 0
PairCases p q s r =
    ((r.1 ≡ 0)
      × ((a : ℕ)
          → count a r.0.held ≡ (if a == p || a == q then 1 + count a s.held else count a s.held)))
    ⊎ ((r.1 ≡ enoent) × LeftAlone (p ∷ q ∷ []) s r.0)

fusefs_lockpair-cases :
    (p q : ℕ) (s : Locks) → PairCases p q s (fusefs_lockpair fusefs_exclusive_lock p q s)
unfolding fusefs_lockpair PairCases
fusefs_lockpair-cases p q s = elim (Bool-cases (p == q)) [
  | inl e ↦
      rw (fusefs_lockpair, e)
        elim (fusefs_lock-cases p s) [
          | inl (z, l) ↦ inl (z, λ a. ground (arith, e, l, count-cons a p s.held))
          | inr (z, l) ↦ inr (
            z,
            record {
              same = l.same;
              culprit = l.culprit;
              given =
                  ground (
                    arith,
                    l.given,
                    count-cons l.culprit p (q ∷ []),
                    count_one l.culprit p l.given,
                  );
              deleted = l.deleted;
            },
          )
        ]
  | inr e ↦ elim (Bool-cases (pair_first s p q)) [
    | inl f ↦
        rw (fusefs_lockpair, e, f)
          elim (lock_both-cases p q s) [
            | inl (z, l) ↦
                inl
                  (z, λ a. ground (arith, e, l, count-cons a q (p ∷ s.held), count-cons a p s.held))
            | inr x ↦ inr x
          ]
    | inr f ↦
        rw (fusefs_lockpair, e, f)
          elim (lock_both-cases q p s) [
            | inl (z, l) ↦
                inl
                  (z, λ a. ground (arith, e, l, count-cons a p (q ∷ s.held), count-cons a q s.held))
            | inr (z, l) ↦ inr (z, swap-LeftAlone q p s _ l)
          ]
  ]
]

count-unlockpair :
    (a p q : ℕ) (u : Locks)
    → count a (fusefs_unlockpair p q u).held
      ≡ (if a == p || a == q then count a u.held - 1 else count a u.held)
unfolding fusefs_unlockpair fusefs_unlock
count-unlockpair a p q u =
    ground (arith, count-remove a p u.held, count-remove a q (remove p u.held))

pub two-Brackets :
    (p q : ℕ) (s : Locks)
    → s.deadlocked ≡ false
    → Unheld (p ∷ q ∷ []) s
    → Brackets (p ∷ q ∷ []) (fusefs_lockpair fusefs_exclusive_lock p q) (fusefs_unlockpair p q) s
unfolding PairCases
two-Brackets p q s runs free = elim (fusefs_lockpair-cases p q s) [
  | inl (e, l) ↦ record {
    runs =
        fusefs_lockpair-deadlocked p q s runs (free p (count_it p (q ∷ [])))
          (free q (count_last p q));
    taken =
        inl (
          e,
          λ a n c. ground (arith, l a, count-cons a p (q ∷ []), count-cons a q [], count-nil a),
        );
    dropped = λ z u h a. ground (arith, l a, ap (count a) h, count-unlockpair a p q u);
  }
  | inr (e, l) ↦ record {
    runs =
        fusefs_lockpair-deadlocked p q s runs (free p (count_it p (q ∷ [])))
          (free q (count_last p q));
    taken = inr (e, l);
    dropped = λ z u h a. absurd (omega (arith, e));
  }
]

-- A node among four is counted in their list.
four_counts :
    (a p q r t : ℕ)
    → ((among a p q r t ≡ 1) × (0 < count a (p ∷ q ∷ r ∷ t ∷ [])))
      ⊎ ((among a p q r t ≡ 0) × (count a (p ∷ q ∷ r ∷ t ∷ []) ≡ 0))
four_counts a p q r t = ground (
  arith,
  count-cons a p (q ∷ r ∷ t ∷ []),
  count-cons a q (r ∷ t ∷ []),
  count-cons a r (t ∷ []),
  count-cons a t [],
  count-nil a,
)

pub four-Brackets :
    (p q r t : ℕ) (s : Locks)
    → IsTree s.node p q r t
    → s.deadlocked ≡ false
    → Unheld (p ∷ q ∷ r ∷ t ∷ []) s
    → Brackets
        (p ∷ q ∷ r ∷ t ∷ [])
        (fusefs_lockfour fusefs_exclusive_lock p q r t)
        (fusefs_unlockfour p q r t)
        s
four-Brackets p q r t s tree runs free =
    elim (lockfour_outcome fusefs_exclusive_lock p q r t s tree) [
      | inl (e, l) ↦ record {
        runs =
            fusefs_lockfour-deadlocked fusefs_exclusive_lock p q r t s tree runs
              (λ a c. free a (ground (arith, c, four_counts a p q r t)));
        taken = inl (e, λ a n c. ground (arith, l.held a, four_counts a p q r t));
        dropped =
            λ z u h a. ground (arith, l.held a, ap (count a) h, fusefs_unlockfour_lem a p q r t u);
      }
      | inr (e, l) ↦ record {
        runs =
            fusefs_lockfour-deadlocked fusefs_exclusive_lock p q r t s tree runs
              (λ a c. free a (ground (arith, c, four_counts a p q r t)));
        taken = inr (
          e,
          record {
            same = l.held;
            culprit = l.culprit;
            given = ground (arith, l.given, four_counts l.culprit p q r t);
            deleted = ground (arith, l.refused);
          },
        );
        dropped = λ z u h a. absurd (omega (arith, e));
      }
    ]
