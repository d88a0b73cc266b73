-- ===== src/Prelude/Lists.antt =====
-- Lists measured by native numbers, and the queues of <sys/queue.h> as lists of addresses.
use mathlib.Core.Bool.{false}
use Prim.Native.Nat.{ℕ, zero, suc, ◌+◌, ◌-◌, ◌≤◌, ◌<◌}
use mathlib.Core.Path.{◌≡◌, refl}
use mathlib.Core.List.{List, [], ◌∷◌, ◌++◌}
use native.Mathlib.Omega.{arith}
use kext.Prelude.Tests.{◌==◌, if◌then◌else◌}

module _ {ℓ} {A : Type ℓ} where
  abbrev pub length : List A → ℕ
  length [] = 0
  length (x ∷ xs) = suc (length xs)

  abbrev pub take : ℕ → List A → List A
  take zero xs = []
  take (suc n) [] = []
  take (suc n) (x ∷ xs) = x ∷ take n xs

  abbrev pub drop : ℕ → List A → List A
  drop zero xs = xs
  drop (suc n) [] = []
  drop (suc n) (x ∷ xs) = drop n xs

  pub length-append : (xs ys : List A) → length (xs ++ ys) ≡ length xs + length ys
  length-append [] ys = omega arith
  length-append (x ∷ xs) ys = omega (arith, length-append xs ys)

-- How often an address is linked in a queue.
pub count : ℕ → List ℕ → ℕ
count a [] = 0
count a (x ∷ xs) = (if a == x then 1 else 0) + count a xs

-- TAILQ_REMOVE: unlink the element.
unfoldable pub remove : ℕ → List ℕ → List ℕ
remove a [] = []
remove a (x ∷ xs) = if a == x then xs else x ∷ remove a xs

pub count-nil : (a : ℕ) → count a [] ≡ 0
unfolding count
count-nil a = refl

pub count-cons : (a x : ℕ) (xs : List ℕ) → count a (x ∷ xs) ≡ (if a == x then 1 else 0) + count a xs
unfolding count
count-cons a x xs = refl

pub count-append : (a : ℕ) (xs ys : List ℕ) → count a (xs ++ ys) ≡ count a xs + count a ys
unfolding count
count-append a [] ys = omega arith
count-append a (x ∷ xs) ys = omega (arith, count-append a xs ys)

pub count-remove :
    (a b : ℕ) (xs : List ℕ)
    → count a (remove b xs) ≡ (if a == b then count a xs - 1 else count a xs)
unfolding count remove
count-remove a b [] = ground arith
count-remove a b (x ∷ xs) = ground (arith, count-remove a b xs)

pub length-remove : (b : ℕ) (xs : List ℕ) → 0 < count b xs → length (remove b xs) + 1 ≡ length xs
unfolding count remove
length-remove b [] h = absurd (omega arith)
length-remove b (x ∷ xs) h = ground (arith, length-remove b xs)

pub count_self : (a : ℕ) (xs : List ℕ) → count a (a ∷ xs) ≡ suc (count a xs)
unfolding count
count_self a xs = ground arith

-- A queue that links each address at most as often as another is no longer than that.
pub length-le-of_count :
    (xs ys : List ℕ) → ((a : ℕ) → count a xs ≤ count a ys) → length xs ≤ length ys
length-le-of_count [] ys h = omega arith
length-le-of_count (x ∷ xs) ys h =
    omega (arith, length-le-of_count xs (remove x ys) below, length-remove x ys linked)
  where
    linked : 0 < count x ys
    linked = omega (arith, h x, count_self x xs)

    below : (a : ℕ) → count a xs ≤ count a (remove x ys)
    below a = ground (arith, h a, count-remove a x ys, count-cons a x xs)

pub remove_self : (a : ℕ) (xs : List ℕ) → remove a (a ∷ xs) ≡ xs
unfolding remove
remove_self a xs = ground arith

pub remove_other : (p q : ℕ) (xs : List ℕ) → (p == q) ≡ false → remove p (q ∷ xs) ≡ q ∷ remove p xs
unfolding remove
remove_other p q xs e = ground (arith, e)
