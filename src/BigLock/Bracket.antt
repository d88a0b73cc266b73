-- ===== src/BigLock/Bracket.antt =====
-- fuse_biglock_vnops.h: what one wrapper does around its operation, for any way to take the locks of
-- the nodes and to drop them.
use kext.Prelude.{
  ℕ, ◌<◌, true, false, ◌≡◌, refl, ap, ◌⊎◌, inl, inr, List, [], ◌∙◌, some, Option, count, count-nil,
  arith,
}
use mathlib.Core.Path.{subst}
use kext.Errno.{enoent}
use kext.Locking.{Locks}
use kext.BigLock.{
  Thread, M, pure, ◌>>=◌, ◌>>◌, or_return, drop_locks, fuse_biglock_lock, fuse_biglock_unlock,
  locked_vnop,
}

-- The lock of each node that is not NULL is held.
abbrev pub Holds : List ℕ → Locks → Type 0
Holds nodes u = (a : ℕ) → 0 < a → 0 < count a nodes → 0 < count a u.held

-- The same locks are held, each as often.
abbrev pub SameHeld : Locks → Locks → Type 0
SameHeld u s = (a : ℕ) → count a u.held ≡ count a s.held

-- No lock was taken, since one of the nodes was deleted.
pub record LeftAlone (nodes : List ℕ) (s u : Locks) : Type 0 where
  pub same : u.held ≡ s.held
  pub culprit : ℕ
  pub given : 0 < count culprit nodes
  pub deleted : (s.node culprit).noexists ≡ true

-- The thread holds none of the nodes.
abbrev pub Unheld : List ℕ → Locks → Type 0
Unheld nodes s = (a : ℕ) → 0 < count a nodes → count a s.held ≡ 0

-- `take` takes all locks or none without waiting for the thread's own locks, and `drop` gives
-- back what it took.
pub record Brackets (nodes : List ℕ) (take : Locks → Locks × ℕ) (drop : Locks → Locks) (s : Locks)
    : Type 0 where
  pub runs : (take s).0.deadlocked ≡ false
  pub taken :
      (((take s).1 ≡ 0) × Holds nodes (take s).0)
      ⊎ (((take s).1 ≡ enoent) × LeftAlone nodes s (take s).0)
  pub dropped : (take s).1 ≡ 0 → (u : Locks) → u.held ≡ (take s).0.held → SameHeld (drop u) s

nothing-Brackets : (u : Locks) → u.deadlocked ≡ false → Brackets [] (λ v. (v, 0)) (λ v. v) u
nothing-Brackets u runs = record {
  runs = runs;
  taken = inl (refl, λ a p c. absurd (omega (arith, count-nil a)));
  dropped = λ e v h a. ap (count a) h;
}

module _ {A : Type 0} where
  -- Under the big lock and the locks of its nodes, the operation returns and keeps these locks.
  pub record IsBalanced (op : M A ℕ) (nodes : List ℕ) : Type 0 where
    pub returns :
        (s : Thread A)
        → s.biglock ≡ true
        → Holds nodes s.locks
        → (r : ℕ × Thread A) × (op s ≡ some r)
          × (r.1.biglock ≡ true)
          × (r.1.locks.held ≡ s.locks.held)

  -- The operation did not run.
  pub record Refused (nodes : List ℕ) (s : Thread A) (r : ℕ × Thread A) : Type 0 where
    pub error : r.0 ≡ enoent
    pub biglock : r.1.biglock ≡ false
    pub alone : LeftAlone nodes s.locks r.1.locks
    pub untouched : r.1.rest ≡ s.rest

  -- The operation ran once, under its locks, and its result is returned.
  pub record Performed (op : M A ℕ) (nodes : List ℕ) (s : Thread A) (r : ℕ × Thread A)
      : Type 0 where
    pub before : Thread A
    pub after : Thread A
    pub guarded : before.biglock ≡ true
    pub holds : Holds nodes before.locks
    pub starts : before.rest ≡ s.rest
    pub runs : op before ≡ some (r.0, after)
    pub ends : r.1.rest ≡ after.rest
    pub biglock : r.1.biglock ≡ false
    pub held : SameHeld r.1.locks s.locks

  pub IsBracketed : M A ℕ → List ℕ → Thread A → Option (ℕ × Thread A) → Type 0
  IsBracketed op nodes s o =
      (r : ℕ × Thread A) × (o ≡ some r) × (Refused nodes s r ⊎ Performed op nodes s r)

  -- What the wrappers do once they have the locks of the nodes.
  abbrev pub under_biglock : (Locks → Locks) → M A ℕ → M A ℕ
  under_biglock drop vnop = do
    fuse_biglock_lock
    res ← vnop
    fuse_biglock_unlock
    drop_locks drop
    pure res

  -- The thread with the big lock, and with the locks of the nodes.
  abbrev inside : (Locks → Locks × ℕ) → Thread A → Thread A
  inside take s = record s { locks = (take s.locks).0; biglock = true }

  abbrev outside : (Locks → Locks) → Thread A → Thread A
  outside drop u = record u { locks = drop u.locks; biglock = false }

  refused_lem :
      (take : Locks → Locks × ℕ) (s : Thread A) (k : M A ℕ)
      → (take s.locks).0.deadlocked ≡ false
      → (take s.locks).1 ≡ enoent
      → or_return take k s ≡ some (enoent, record s { locks = (take s.locks).0 })
  unfolding or_return
  refused_lem take s k runs e = ground arith

  granted_lem :
      (take : Locks → Locks × ℕ) (s : Thread A) (k : M A ℕ)
      → (take s.locks).0.deadlocked ≡ false
      → (take s.locks).1 ≡ 0
      → or_return take k s ≡ k (record s { locks = (take s.locks).0 })
  unfolding or_return
  granted_lem take s k runs e = ground (arith, runs, e)

  performed_lem :
      (take : Locks → Locks × ℕ) (drop : Locks → Locks) (op : M A ℕ) (s : Thread A)
      (r : ℕ × Thread A)
      → s.biglock ≡ false
      → (take s.locks).0.deadlocked ≡ false
      → (take s.locks).1 ≡ 0
      → op (inside take s) ≡ some r
      → r.1.biglock ≡ true
      → or_return take (under_biglock drop op) s ≡ some (r.0, outside drop r.1)
  unfolding fuse_biglock_lock fuse_biglock_unlock
  performed_lem take drop op s r b runs e o h =
      granted_lem take s (under_biglock drop op) runs e
      ∙ rw (fuse_biglock_lock, b, o, fuse_biglock_unlock, h) refl

  pub or_return-IsBracketed :
      (take : Locks → Locks × ℕ) (drop : Locks → Locks) (op : M A ℕ) (nodes : List ℕ) (s : Thread A)
      → Brackets nodes take drop s.locks
      → IsBalanced op nodes
      → s.biglock ≡ false
      → IsBracketed op nodes s (or_return take (under_biglock drop op) s)
  unfolding IsBracketed
  or_return-IsBracketed take drop op nodes s locks bal b = elim locks.taken [
    | inl (e, holds) ↦
        let (r, o, h, held) = bal.returns (inside take s) refl holds in
        (
          (r.0, outside drop r.1),
          performed_lem take drop op s r b locks.runs e o h,
          inr record {
            before = inside take s;
            after = r.1;
            guarded = refl;
            holds = holds;
            starts = refl;
            runs = o;
            ends = refl;
            biglock = refl;
            held = locks.dropped e r.1.locks held;
          },
        )
    | inr (e, alone) ↦ (
      (enoent, record s { locks = (take s.locks).0 }),
      refused_lem take s (under_biglock drop op) locks.runs e,
      inl record { error = refl; biglock = b; alone = alone; untouched = refl },
    )
  ]

  -- No locks of nodes.
  pub locked_vnop-IsBracketed :
      (op : M A ℕ) (s : Thread A)
      → IsBalanced op []
      → s.biglock ≡ false
      → s.locks.deadlocked ≡ false
      → IsBracketed op [] s (locked_vnop op s)
  unfolding locked_vnop
  locked_vnop-IsBracketed op s bal b runs =
      subst (IsBracketed op [] s)
        (granted_lem (λ u. (u, 0)) s (under_biglock (λ u. u) op) runs refl)
        (or_return-IsBracketed (λ u. (u, 0)) (λ u. u) op [] s (nothing-Brackets s.locks runs) bal b)
