-- ===== src/Iov/Bounds.antt =====
-- The sizes of a buffer in `fiov_adjust` and its variants.
use kext.Prelude.{
  ℕ, ◌%◌, ◌^◌, ◌≤◌, ◌<◌, ◌≡◌, refl, Bool, true, false, Option, none, some, arith, inl, inr, ℤ,
  Bool-cases,
}
use kext.Errno.{enomem}
use kext.Iov.{
  Tunables, Iov, fu_at_least, must_realloc, fiov_init, fiov_adjust, fiov_adjust_canfail,
  adjust_step, canfail_step,
}

-- The bytes in use lie in the block, and the block is as long as the buffer believes.
pub record Fits (fiov : Iov) : Type 0 where
  pub used : fiov.len ≤ fiov.allocated_size
  pub backed : fiov.allocated_size ≤ fiov.capacity

-- A buffer whose block and contents are those of another; the credit may differ.
pub record SameBlock (f g : Iov) : Type 0 where
  pub len : g.len ≡ f.len
  pub allocated_size : g.allocated_size ≡ f.allocated_size
  pub capacity : g.capacity ≡ f.capacity

-- How the result of `fiov_adjust_canfail` on a buffer answers to that of `fiov_adjust`.
abbrev pub Agrees : Iov → Option Iov → Iov × ℕ → Type 0
Agrees fiov (some f) r = r ≡ (f, 0)
Agrees fiov none r = (r.1 ≡ enomem) × SameBlock fiov r.0

module _ (tun : Tunables) (malloc : ℕ → Bool) where
  step-Agrees :
      (fiov : Iov) (size : ℕ) (r : Bool × ℤ)
      → Agrees fiov (adjust_step tun malloc fiov size r) (canfail_step tun malloc fiov size r)
  unfolding adjust_step canfail_step
  step-Agrees fiov size (false, c) = refl
  step-Agrees fiov size (true, c) = elim (Bool-cases (malloc (fu_at_least size % 2 ^ 32))) [
    | inl e ↦ rw (Agrees, adjust_step, canfail_step, e) refl
    | inr e ↦
        rw (Agrees, adjust_step, canfail_step, e)
          (refl, record { len = refl; allocated_size = refl; capacity = refl })
  ]

  -- Where `fiov_adjust` succeeds, `fiov_adjust_canfail` returns 0 and the same buffer; where
  -- `fiov_adjust` panics for want of memory, it returns ENOMEM and leaves the length, the recorded
  -- size and the block as they were.
  pub fiov_adjust_canfail-Agrees :
      (fiov : Iov) (size : ℕ)
      → Agrees fiov (fiov_adjust tun malloc fiov size) (fiov_adjust_canfail tun malloc fiov size)
  unfolding fiov_adjust fiov_adjust_canfail
  fiov_adjust_canfail-Agrees fiov size = step-Agrees fiov size (must_realloc tun fiov size)

  -- A buffer that fits still fits after `fiov_adjust` to a size below 2^32 that does not panic, and
  -- then has exactly that many bytes in use.
  pub fiov_adjust-Fits :
      (fiov : Iov) (size : ℕ) {f : Iov}
      → Fits fiov
      → size < 2 ^ 32
      → fiov_adjust tun malloc fiov size ≡ some f
      → Fits f × (f.len ≡ size)
  unfolding fiov_adjust
  fiov_adjust-Fits fiov size h lt e = ground arith

  pub fiov_init-Fits :
      (size : ℕ) {f : Iov}
      → size < 2 ^ 32
      → fiov_init tun malloc size ≡ some f
      → Fits f × (f.len ≡ 0)
  unfolding fiov_init
  fiov_init-Fits size lt e = ground arith

  -- At a size of 2^32 or more FU_AT_LEAST cuts the request to 32 bits: whenever `fiov_adjust`
  -- has to replace the buffer and does not panic, the new block is as long as recorded, but the
  -- buffer has the whole size in use, which is more bytes than the block has.
  pub fiov_adjust-overflow :
      (fiov : Iov) (size : ℕ) {f : Iov}
      → 2 ^ 32 ≤ size
      → fiov.allocated_size < size
      → fiov_adjust tun malloc fiov size ≡ some f
      → (f.allocated_size ≡ f.capacity) × (f.len ≡ size) × (f.capacity < f.len)
  unfolding fiov_adjust
  fiov_adjust-overflow fiov size big lt e = ground arith
