-- ===== src/Vnode/Round.antt =====
-- fuse_internal.h: `fuse_round_powerof2` and `fuse_round_size`, on 32-bit words. The loop has fuel;
-- from 512, 22 doublings reach 2^31, which no clipped size exceeds.
use kext.Prelude.{
  ◌≤◌, ◌<◌, ◌≡◌, inl, inr, refl, sym, ap, ◌∙◌, arith, ◌+◌, ◌*◌, ◌^◌, ◌%◌, ℕ, zero, suc, none, some,
  Option, if◌then◌else◌, ltb, <_or_≤,
}
use mathlib.Core.Option
use native.Mathlib.Nat.{two-pow-succ, pow-le-pow_right}

-- `while (result < size) result <<= 1`; none is out of fuel.
unfoldable pub doubled : (fuel : ℕ) → ℕ → ℕ → Option ℕ
doubled zero size result = if ltb result size then none else some result
doubled (suc fuel) size result =
    let more = doubled fuel size ((result * 2) % 2 ^ 32) in
    if ltb result size then more else some result

unfoldable pub fuse_round_powerof2 : ℕ → Option ℕ
unfolding doubled
fuse_round_powerof2 size = doubled 22 (size % 2 ^ 31) 512

unfoldable pub clamped : ℕ → ℕ → ℕ → ℕ
clamped b_min b_max candidate =
    let raised = if ltb candidate b_min then b_min else candidate in
    if ltb b_max raised then b_max else raised

unfoldable pub fuse_round_size : ℕ → ℕ → ℕ → Option ℕ
fuse_round_size size b_min b_max = Option.map (clamped b_min b_max) (fuse_round_powerof2 size)

-- What the loop promises, from a power of two on: the least power of two from 512 on that is not
-- below the size.
pub IsLeast : ℕ → ℕ → Type 0
IsLeast size r =
    (k : ℕ) × (r ≡ 512 * 2 ^ k) × (size ≤ r) × ((j : ℕ) → size ≤ 512 * 2 ^ j → r ≤ 512 * 2 ^ j)

double : (k : ℕ) → 512 * 2 ^ suc k ≡ 512 * 2 ^ k * 2
double k = omega (arith, two-pow-succ k)

module _ (size k : ℕ) (low : (j : ℕ) → j < k → 512 * 2 ^ j < size) where
  least_above : (j : ℕ) → size ≤ 512 * 2 ^ j → 512 * 2 ^ k ≤ 512 * 2 ^ j
  least_above j h = elim (<_or_≤ j k) [
    | inl lt ↦ absurd (omega (arith, low j lt))
    | inr ge ↦ omega (arith, pow-le-pow_right {n = 2} (omega arith) ge)
  ]

  low_next : 512 * 2 ^ k < size → (j : ℕ) → j < suc k → 512 * 2 ^ j < size
  low_next h j lt = elim (<_or_≤ j k) [ inl less ↦ low j less | inr ge ↦ rewritten (omega arith) h ]
    where
      rewritten : j ≡ k → 512 * 2 ^ k < size → 512 * 2 ^ j < size
      rewritten e h' = rw e h'

-- One round of the loop, on a result below a size of at most 2^31.
doubled-suc :
    (fuel k size : ℕ)
    → size ≤ 2 ^ 31
    → 512 * 2 ^ k < size
    → doubled (suc fuel) size (512 * 2 ^ k) ≡ doubled fuel size (512 * 2 ^ suc k)
unfolding doubled
doubled-suc fuel k size h lt = ground (arith, double k)

doubled-IsLeast :
    (fuel k size : ℕ)
    → size ≤ 2 ^ 31
    → 22 ≤ k + fuel
    → ((j : ℕ) → j < k → 512 * 2 ^ j < size)
    → (r : ℕ) × (doubled fuel size (512 * 2 ^ k) ≡ some r) × IsLeast size r
unfolding doubled IsLeast
doubled-IsLeast zero k size h far low =
    (512 * 2 ^ k, ground (arith, enough), (k, refl, enough, least_above size k low))
  where
    enough : size ≤ 512 * 2 ^ k
    enough = omega (arith, pow-le-pow_right {n = 2} (omega arith) {i = 22} {j = k} (omega arith))
doubled-IsLeast (suc fuel) k size h far low = elim (<_or_≤ (512 * 2 ^ k) size) [
  | inl lt ↦
      rw (doubled-suc fuel k size h lt)
        (doubled-IsLeast fuel (suc k) size h (omega arith) (low_next size k low lt))
  | inr ge ↦ (512 * 2 ^ k, ground arith, (k, refl, ge, least_above size k low))
]

-- For every size, the loop of fuse_round_powerof2 ends within the 22 rounds of its fuel, and its
-- result is the least power of two, among those from 512 on, that is not below the size clipped to
-- 31 bits.
pub fuse_round_powerof2-IsLeast :
    (size : ℕ) → (r : ℕ) × (fuse_round_powerof2 size ≡ some r) × IsLeast (size % 2 ^ 31) r
unfolding fuse_round_powerof2
fuse_round_powerof2-IsLeast size =
    doubled-IsLeast 22 0 (size % 2 ^ 31) (omega arith) (omega arith) (λ j lt. absurd (omega arith))

-- A power of two that is clamped between two others is one of the three.
clamped_bounds :
    (m n j size : ℕ)
    → 2 ^ m ≤ 2 ^ n
    → size ≤ 2 ^ j
    → (k : ℕ) × (clamped (2 ^ m) (2 ^ n) (2 ^ j) ≡ 2 ^ k)
      × (2 ^ m ≤ 2 ^ k)
      × (2 ^ k ≤ 2 ^ n)
      × (size ≤ 2 ^ n → size ≤ 2 ^ k)
unfolding clamped
clamped_bounds m n j size h fits = elim (<_or_≤ (2 ^ j) (2 ^ m)) [
  | inl lt ↦ (m, ground arith, omega arith, h, λ _. omega arith)
  | inr ge ↦ elim (<_or_≤ (2 ^ n) (2 ^ j)) [
    | inl lt ↦ (n, ground arith, h, omega arith, λ b. b)
    | inr le ↦ (j, ground arith, ge, le, λ _. fits)
  ]
]

nine : (j : ℕ) → 2 ^ (9 + j) ≡ 512 * 2 ^ j
nine zero = refl
nine (suc j) = omega (arith, one_more, two-pow-succ j, nine j)
  where
    shifted : 9 + suc j ≡ suc (9 + j)
    shifted = omega arith

    one_more : 2 ^ (9 + suc j) ≡ 2 ^ (9 + j) + 2 ^ (9 + j)
    one_more = ap (λ i. 2 ^ i) shifted ∙ two-pow-succ (9 + j)

fuse_round_size_lem :
    (size b_min b_max r : ℕ)
    → fuse_round_powerof2 size ≡ some r
    → fuse_round_size size b_min b_max ≡ some (clamped b_min b_max r)
unfolding fuse_round_size
fuse_round_size_lem size b_min b_max r e = ap (Option.map (clamped b_min b_max)) e

rounded :
    (size : ℕ)
    → (j : ℕ) × (fuse_round_powerof2 size ≡ some (2 ^ (9 + j))) × (size % 2 ^ 31 ≤ 2 ^ (9 + j))
unfolding IsLeast
rounded size =
    let (r, e, least) = fuse_round_powerof2-IsLeast size in
    let (j, power, fits, minimal) = least in
    (j, e ∙ ap some (power ∙ sym (nine j)), omega (arith, power, fits, nine j))

-- For powers of two b_min ≤ b_max, fuse_round_size returns, for every size, a power of two from
-- b_min to b_max; where the size is below 2^31 and not above b_max, it is not below the size.
pub fuse_round_size_bounds :
    (size m n : ℕ)
    → 2 ^ m ≤ 2 ^ n
    → (k : ℕ) × (fuse_round_size size (2 ^ m) (2 ^ n) ≡ some (2 ^ k))
      × (2 ^ m ≤ 2 ^ k)
      × (2 ^ k ≤ 2 ^ n)
      × (size < 2 ^ 31 → size ≤ 2 ^ n → size ≤ 2 ^ k)
fuse_round_size_bounds size m n h =
    let (j, e, fits) = rounded size in
    let (k, is_k, above, below, covers) = clamped_bounds m n (9 + j) (size % 2 ^ 31) h fits in
    (
      k,
      fuse_round_size_lem size (2 ^ m) (2 ^ n) (2 ^ (9 + j)) e ∙ ap some is_k,
      above,
      below,
      λ small h'. omega (arith, covers (omega arith)),
    )
