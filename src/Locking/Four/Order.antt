-- ===== src/Locking/Four/Order.antt =====
-- How often a node stands in the list of locks of `fusefs_lockfour`.
use kext.Prelude.{
  ℕ, Bool, true, false, ◌≡◌, ◌≢◌, inl, inr, List, [], ◌∷◌, ◌==◌, ◌||◌, if◌then◌else◌, count,
  count-cons, count-nil, arith, Bool-cases, not, ◌+◌, ◌∙◌, sym,
}
use kext.Locking.Four.{
  sentinel, merge_locks, in_order, lock_list, add_lock, FuseNode, fusefs_isordered,
}

-- 1 if a node is among four others, else 0.
abbrev pub among : ℕ → ℕ → ℕ → ℕ → ℕ → ℕ
among a p q r t = if a == p || a == q || a == r || a == t then 1 else 0

-- An order that is strict and total on four nodes, all of them before the sentinel. It need not be
-- transitive.
pub record IsOrder (ordered : ℕ → ℕ → Bool) (p q r t : ℕ) : Type 0 where
  pub strict : (a : ℕ) → ordered a a ≡ false
  pub total :
      (a b : ℕ)
      → among a p q r t ≡ 1
      → among b p q r t ≡ 1
      → ordered a b ≡ false
      → ordered b a ≡ false
      → a ≡ b
  pub antisymmetric :
      (a b : ℕ)
      → among a p q r t ≡ 1
      → among b p q r t ≡ 1
      → ordered a b ≡ true
      → ordered b a ≡ false
  pub last : (a : ℕ) → among a p q r t ≡ 1 → ordered a sentinel ≡ true
  pub not_first : (a : ℕ) → among a p q r t ≡ 1 → ordered sentinel a ≡ false

-- What adding a node behind another adds to a count.
abbrev gain : ℕ → ℕ → ℕ → ℕ
gain a p q = if p == q || not (a == p) then 0 else 1

count-add_lock :
    (a p q : ℕ) (list : List ℕ)
    → count a (add_lock p (add_lock q list)) ≡ gain a p q + count a (add_lock q list)
count-add_lock a p q [] = ground (arith, count-nil a, count-cons a q [], count-cons a p (q ∷ []))
count-add_lock a p q (r ∷ list) = elim (Bool-cases (q == r)) [
  | inl e ↦ ground (arith, e, count-cons a p (r ∷ list))
  | inr e ↦ ground (arith, e, count-cons a p (q ∷ r ∷ list))
]

-- Four nodes that are added one after another, of which equal ones stand together.
added :
    (a p q r t : ℕ)
    → (p ≡ r → p ≡ q)
    → (q ≡ t → q ≡ r)
    → (p ≡ t → (p ≡ q) × (p ≡ r))
    → count a (add_lock t (add_lock r (add_lock q (add_lock p [])))) ≡ among a p q r t
added a p q r t pr qt pt =
    let one = count-add_lock a q p [] in
    let two = count-add_lock a r q (add_lock p []) in
    let three = count-add_lock a t r (add_lock q (add_lock p [])) in
    ground (arith, one, two, three, count-cons a p [], count-nil a)

among_swap : (a p q r t : ℕ) → (among a p q r t ≡ among a p r q t)
among_swap a p q r t = ground arith

module _ (ordered : ℕ → ℕ → Bool) where
  module _ (x y z w : ℕ) (strict : (a : ℕ) → ordered a a ≡ false)
      (xz : ordered x z ≡ true → ordered z x ≡ false)
      (xw : ordered x w ≡ true → ordered w x ≡ false)
      (yz : ordered y z ≡ true → ordered z y ≡ false)
      (yw : ordered y w ≡ true → ordered w y ≡ false) (yx : ordered y x ≡ false)
      (wz : ordered w z ≡ false) (zw : ordered z w ≡ false → z ≡ w)
      (xy : ordered x y ≡ false → x ≡ y) (x_last : ordered x sentinel ≡ true)
      (y_last : ordered y sentinel ≡ true) (z_first : ordered sentinel z ≡ false)
      (w_first : ordered sentinel w ≡ false) where
    merge_lem :
        (a : ℕ) → count a (merge_locks ordered 4 (x ∷ y ∷ []) (z ∷ w ∷ []) []) ≡ among a x y z w
    unfolding merge_locks
    merge_lem a = elim (Bool-cases (ordered x z)) [
      | inl e ↦ elim (Bool-cases (ordered y z)) [
        | inl f ↦
            rw (merge_locks, e, f, z_first, w_first) (added a x y z w (λ h. cc) (λ h. cc) (λ h. cc))
        | inr f ↦ elim (Bool-cases (ordered y w)) [
          | inl g ↦
              rw (merge_locks, e, f, g, w_first)
                (added a x z y w (λ h. cc) (λ h. cc) (λ h. cc) ∙ ground arith)
          | inr g ↦
              rw (merge_locks, e, f, g, y_last)
                (added a x z w y (λ h. cc) (λ h. zw cc) (λ h. cc) ∙ ground arith)
        ]
      ]
      | inr e ↦ elim (Bool-cases (ordered x w)) [
        | inl f ↦ elim (Bool-cases (ordered y w)) [
          | inl g ↦
              rw (merge_locks, e, f, g, w_first)
                (added a z x y w (λ h. h ∙ sym (xy cc)) (λ h. cc) (λ h. cc) ∙ ground arith)
          | inr g ↦
              rw (merge_locks, e, f, g, y_last)
                (added a z x w y (λ h. cc) (λ h. cc) (λ h. let m = xy cc in cc) ∙ ground arith)
        ]
        | inr f ↦
            rw (merge_locks, e, f, x_last, y_last)
              (added a z w x y (λ h. zw cc) (λ h. h ∙ sym (xy cc))
                  (λ h. let m = xy cc in (zw cc, h ∙ sym m))
                ∙ ground arith)
      ]
    ]

among_first : (a b c d : ℕ) → among a a b c d ≡ 1
among_first a b c d = ground arith

among_second : (a b c d : ℕ) → among b a b c d ≡ 1
among_second a b c d = ground arith

among_third : (a b c d : ℕ) → among c a b c d ≡ 1
among_third a b c d = ground arith

among_fourth : (a b c d : ℕ) → among d a b c d ≡ 1
among_fourth a b c d = ground arith

module _ (ordered : ℕ → ℕ → Bool) (p q r t : ℕ) (o : IsOrder ordered p q r t) where
  -- Two of the nodes in the order in which `in_order` puts them.
  record Sorted (x y : ℕ) : Type 0 where
    first : among x p q r t ≡ 1
    second : among y p q r t ≡ 1
    behind : ordered y x ≡ false
    same : ordered x y ≡ false → x ≡ y

  sort : (x y : ℕ) → among x p q r t ≡ 1 → among y p q r t ≡ 1 → ordered x y ≡ true → Sorted x y
  sort x y i j e = record {
    first = i;
    second = j;
    behind = o.antisymmetric x y i j e;
    same = λ f. ground arith;
  }

  sort_swapped :
      (x y : ℕ) → among x p q r t ≡ 1 → among y p q r t ≡ 1 → ordered x y ≡ false → Sorted y x
  sort_swapped x y i j e = record {
    first = j;
    second = i;
    behind = e;
    same = λ f. o.total y x j i f e;
  }

  merged :
      (a x y z w : ℕ)
      → Sorted x y
      → Sorted z w
      → count a (merge_locks ordered 4 (x ∷ y ∷ []) (z ∷ w ∷ []) []) ≡ among a x y z w
  merged a x y z w s u =
      merge_lem ordered x y z w o.strict (o.antisymmetric x z s.first u.first)
        (o.antisymmetric x w s.first u.second) (o.antisymmetric y z s.second u.first)
        (o.antisymmetric y w s.second u.second) s.behind u.behind u.same s.same (o.last x s.first)
        (o.last y s.second) (o.not_first z u.first) (o.not_first w u.second) a

  pub count-lock_list : (a : ℕ) → count a (lock_list ordered p q r t) ≡ among a p q r t
  unfolding lock_list in_order
  count-lock_list a = elim (Bool-cases (ordered p q)) [
    | inl e ↦ elim (Bool-cases (ordered r t)) [
      | inl f ↦
          rw (lock_list, in_order, e, f) (merged a p q r t (sort p q i1 i2 e) (sort r t i3 i4 f))
      | inr f ↦
          rw (lock_list, in_order, e, f)
            (merged a p q t r (sort p q i1 i2 e) (sort_swapped r t i3 i4 f) ∙ ground arith)
    ]
    | inr e ↦ elim (Bool-cases (ordered r t)) [
      | inl f ↦
          rw (lock_list, in_order, e, f)
            (merged a q p r t (sort_swapped p q i1 i2 e) (sort r t i3 i4 f) ∙ ground arith)
      | inr f ↦
          rw (lock_list, in_order, e, f)
            (merged a q p t r (sort_swapped p q i1 i2 e) (sort_swapped r t i3 i4 f) ∙ ground arith)
    ]
  ]
    where
      i1 : among p p q r t ≡ 1
      i1 = among_first p q r t

      i2 : among q p q r t ≡ 1
      i2 = among_second p q r t

      i3 : among r p q r t ≡ 1
      i3 = among_third p q r t

      i4 : among t p q r t ≡ 1
      i4 = among_fourth p q r t

-- No two of four nodes are each other's parent, and none is the sentinel.
pub record IsTree (node : ℕ → FuseNode) (p q r t : ℕ) : Type 0 where
  pub acyclic :
      (a b : ℕ)
      → among a p q r t ≡ 1
      → among b p q r t ≡ 1
      → (node a).nodeid ≡ (node b).parent_nodeid
      → (node b).nodeid ≡ (node a).parent_nodeid
      → a ≡ b
  pub real : (a : ℕ) → among a p q r t ≡ 1 → a ≢ sentinel

pub fusefs_isordered-IsOrder :
    (node : ℕ → FuseNode) (p q r t : ℕ)
    → IsTree node p q r t
    → IsOrder (fusefs_isordered node) p q r t
unfolding fusefs_isordered
fusefs_isordered-IsOrder node p q r t h = record {
  strict = λ a. ground arith;
  total = λ a b i j e f. ground (arith, h.real a i, h.real b j);
  antisymmetric = λ a b i j e. ground (arith, h.acyclic a b i j, h.real a i, h.real b j);
  last = λ a i. ground (arith, h.real a i);
  not_first = λ a i. ground (arith, h.real a i);
}
