-- ===== src/Locking/Four/Taking.antt =====
-- The locking loop of `fusefs_lockfour`, and its way back.
use kext.Prelude.{
  ℕ, ◌+◌, ◌≤◌, ◌<◌, Bool, true, false, not, ◌&&◌, ◌≡◌, ◌≢◌, ◌⊎◌, refl, inl, inr, ap, sym, ◌∙◌, List,
  [], ◌∷◌, ◌==◌, if◌then◌else◌, count, count-cons, count-nil, remove_self, arith, Bool-cases,
}
use kext.Errno.{enoent}
use kext.Locking.{FuseNode, LockType, Locks, is_force, taken, fusefs_lock, fusefs_unlock}
use kext.Locking.Four.{drop_locks, take_locks, reversed}

-- Whether a node can not be locked: it was deleted, and the lock is not forced.
abbrev pub is_refused : LockType → FuseNode → Bool
is_refused locktype n = not (is_force locktype) && n.noexists

-- The locks of the nodes of a list, on top of others; NULL has none.
unfoldable pub locked : List ℕ → List ℕ → List ℕ
locked [] base = base
locked (p ∷ ps) base = if p == 0 then locked ps base else p ∷ locked ps base

drop_locks-held :
    (before base : List ℕ) (s : Locks)
    → s.held ≡ locked before base
    → (drop_locks before s).held ≡ base
unfolding drop_locks locked
drop_locks-held [] base s h = h
drop_locks-held (p ∷ ps) base s h = elim (Bool-cases (p == 0)) [
  | inl e ↦ ground (arith, e, drop_locks-held ps base s)
  | inr e ↦
      ground (arith, e, drop_locks-held ps base (fusefs_unlock p s), remove_self p (locked ps base))
]

-- Locking the nodes of a list has succeeded, or has failed at one of them.
pub record AllTaken (locktype : LockType) (todo : List ℕ) (s : Locks) (r : Locks × ℕ)
    (result : List ℕ) : Type 0 where
  pub success : r.1 ≡ 0
  pub held : r.0.held ≡ result
  pub exist : (a : ℕ) → a ≢ 0 → 0 < count a todo → is_refused locktype (s.node a) ≡ false

pub record NoneTaken (locktype : LockType) (todo : List ℕ) (s : Locks) (r : Locks × ℕ)
    (base : List ℕ) : Type 0 where
  pub error : r.1 ≡ enoent
  pub held : r.0.held ≡ base
  pub culprit : ℕ
  pub not_null : culprit ≢ 0
  pub wanted : 0 < count culprit todo
  pub refused : is_refused locktype (s.node culprit) ≡ true

module _ (locktype : LockType) (p : ℕ) (todo before : List ℕ) (s : Locks) where
  take_locks-null :
      (p == 0) ≡ true
      → take_locks locktype (p ∷ todo) before s ≡ take_locks locktype todo (p ∷ before) s
  unfolding take_locks
  take_locks-null e = ground (arith, e)

  take_locks-taken :
      (p == 0) ≡ false
      → is_refused locktype (s.node p) ≡ false
      → take_locks locktype (p ∷ todo) before s
        ≡ take_locks locktype todo (p ∷ before) (taken locktype p s)
  unfolding take_locks fusefs_lock
  take_locks-taken e f = rw (take_locks, fusefs_lock, e, f) refl

  take_locks-refused :
      (p == 0) ≡ false
      → is_refused locktype (s.node p) ≡ true
      → take_locks locktype (p ∷ todo) before s
        ≡ (drop_locks before (fusefs_unlock p (taken locktype p s)), enoent)
  unfolding take_locks fusefs_lock
  take_locks-refused e f = rw (take_locks, fusefs_lock, e, f) refl

  -- The outcome for the rest is the outcome for the whole list.
  extend_taken :
      (u : Locks) (r r' : Locks × ℕ) (result : List ℕ)
      → r ≡ r'
      → ((a : ℕ) → is_refused locktype (u.node a) ≡ is_refused locktype (s.node a))
      → (p ≢ 0 → is_refused locktype (s.node p) ≡ false)
      → AllTaken locktype todo u r' result
      → AllTaken locktype (p ∷ todo) s r result
  extend_taken u r r' result e same free x = record {
    success = ap (λ v. v.1) e ∙ x.success;
    held = ap (λ v. v.0.held) e ∙ x.held;
    exist = λ a n c. elim (Bool-cases (a == p)) [
      | inl f ↦ ground (arith, f, free)
      | inr f ↦ sym (same a) ∙ x.exist a n (ground (arith, f, c, count-cons a p todo))
    ];
  }

  extend_none :
      (u : Locks) (r r' : Locks × ℕ) (base : List ℕ)
      → r ≡ r'
      → ((a : ℕ) → is_refused locktype (u.node a) ≡ is_refused locktype (s.node a))
      → NoneTaken locktype todo u r' base
      → NoneTaken locktype (p ∷ todo) s r base
  extend_none u r r' base e same x = record {
    error = ap (λ v. v.1) e ∙ x.error;
    held = ap (λ v. v.0.held) e ∙ x.held;
    culprit = x.culprit;
    not_null = x.not_null;
    wanted = omega (arith, x.wanted, count-cons x.culprit p todo);
    refused = sym (same x.culprit) ∙ x.refused;
  }

unfoldable pub Outcome : LockType → List ℕ → List ℕ → List ℕ → Locks → Type 0
Outcome locktype todo before base s =
    AllTaken locktype todo s (take_locks locktype todo before s)
      (locked (reversed todo before) base)
    ⊎ NoneTaken locktype todo s (take_locks locktype todo before s) base

pub take_locks-held :
    (locktype : LockType) (todo before base : List ℕ) (s : Locks)
    → s.held ≡ locked before base
    → Outcome locktype todo before base s
unfolding take_locks locked reversed Outcome fusefs_unlock
take_locks-held locktype [] before base s h =
    inl (record { success = refl; held = h; exist = λ a n c. absurd (omega (arith, count-nil a)) })
take_locks-held locktype (p ∷ todo) before base s h = elim (Bool-cases (p == 0)) [
  | inl e ↦ elim (take_locks-held locktype todo (p ∷ before) base s (ground (arith, e))) [
    | inl x ↦ inl (
        extend_taken locktype p todo before s s _ _ _ (take_locks-null locktype p todo before s e)
          (λ a. refl) (λ n. ground (arith, e)) x)
    | inr x ↦ inr (
        extend_none locktype p todo before s s _ _ _ (take_locks-null locktype p todo before s e)
          (λ a. refl) x)
  ]
  | inr e ↦ elim (Bool-cases (is_refused locktype (s.node p))) [
    | inl f ↦ inr (record {
      error = ap (λ v. v.1) (take_locks-refused locktype p todo before s e f);
      held =
          ap (λ v. v.0.held) (take_locks-refused locktype p todo before s e f)
          ∙ drop_locks-held before base (fusefs_unlock p (taken locktype p s)) (unlocked ∙ h);
      culprit = p;
      not_null = λ z. ground (arith, e);
      wanted = ground (arith, count-cons p p todo);
      refused = f;
    })
    | inr f ↦
        elim (take_locks-held locktype todo (p ∷ before) base (taken locktype p s)
          (ground (arith, e))) [
            | inl x ↦ inl (
                extend_taken locktype p todo before s (taken locktype p s) _ _ _
                  (take_locks-taken locktype p todo before s e f) same (λ n. f) x)
            | inr x ↦ inr (
                extend_none locktype p todo before s (taken locktype p s) _ _ _
                  (take_locks-taken locktype p todo before s e f) same x)
          ]
  ]
]
  where
    unlocked : (fusefs_unlock p (taken locktype p s)).held ≡ s.held
    unlocked = remove_self p s.held

    same :
        (a : ℕ) → is_refused locktype ((taken locktype p s).node a) ≡ is_refused locktype (s.node a)
    same a = ground arith

drop_locks-deadlocked :
    (before : List ℕ) (s : Locks) → (drop_locks before s).deadlocked ≡ s.deadlocked
unfolding drop_locks fusefs_unlock
drop_locks-deadlocked [] s = refl
drop_locks-deadlocked (p ∷ ps) s = elim (Bool-cases (p == 0)) [
  | inl e ↦ ground (arith, e, drop_locks-deadlocked ps s)
  | inr e ↦ ground (arith, e, drop_locks-deadlocked ps (fusefs_unlock p s))
]

-- A lock that the thread does not hold.
taken-deadlocked :
    (locktype : LockType) (p : ℕ) (s : Locks)
    → s.deadlocked ≡ false
    → count p s.held ≡ 0
    → (taken locktype p s).deadlocked ≡ false
taken-deadlocked locktype p s runs free = ground (arith, runs, free)

-- A thread that holds none of the nodes of a list does not wait for itself when it locks them, if no
-- node but NULL is listed twice.
pub take_locks-deadlocked :
    (locktype : LockType) (todo before : List ℕ) (s : Locks)
    → s.deadlocked ≡ false
    → ((a : ℕ) → a ≢ 0 → 0 < count a todo → count a s.held ≡ 0)
    → ((a : ℕ) → count a todo ≤ 1)
    → (take_locks locktype todo before s).0.deadlocked ≡ false
unfolding take_locks fusefs_unlock
take_locks-deadlocked locktype [] before s runs free once = runs
take_locks-deadlocked locktype (p ∷ todo) before s runs free once = elim (Bool-cases (p == 0)) [
  | inl e ↦
      ap (λ r. r.0.deadlocked) (take_locks-null locktype p todo before s e)
      ∙ take_locks-deadlocked locktype todo (p ∷ before) s runs
          (λ a n c. free a n (omega (arith, c, count-cons a p todo)))
          (λ a. omega (arith, once a, count-cons a p todo))
  | inr e ↦ elim (Bool-cases (is_refused locktype (s.node p))) [
    | inl f ↦
        ap (λ r. r.0.deadlocked) (take_locks-refused locktype p todo before s e f)
        ∙ drop_locks-deadlocked before (fusefs_unlock p (taken locktype p s))
        ∙ taken-deadlocked locktype p s runs (unheld e)
    | inr f ↦
        ap (λ r. r.0.deadlocked) (take_locks-taken locktype p todo before s e f)
        ∙ take_locks-deadlocked locktype todo (p ∷ before) (taken locktype p s)
            (taken-deadlocked locktype p s runs (unheld e))
            (λ a c. ground (
              arith,
              c,
              free a (omega (arith, c, count-cons a p todo)),
              once a,
              count-cons a p todo,
              count-cons a p s.held,
            ))
            (λ a. omega (arith, once a, count-cons a p todo))
  ]
]
  where
    unheld : (p == 0) ≡ false → count p s.held ≡ 0
    unheld e = free p (λ z. ground (arith, e, z)) (ground (arith, count-cons p p todo))

pub count-reversed :
    (a : ℕ) (xs acc : List ℕ) → count a (reversed xs acc) ≡ count a xs + count a acc
unfolding reversed
count-reversed a [] acc = ground (arith, count-nil a)
count-reversed a (x ∷ xs) acc =
    ground (arith, count-reversed a xs (x ∷ acc), count-cons a x xs, count-cons a x acc)

pub count-locked :
    (a : ℕ) (xs base : List ℕ)
    → count a (locked xs base) ≡ (if a == 0 then 0 else count a xs) + count a base
unfolding locked
count-locked a [] base = ground (arith, count-nil a)
count-locked a (x ∷ xs) base =
    ground (arith, count-locked a xs base, count-cons a x xs, count-cons a x (locked xs base))
