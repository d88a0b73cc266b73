-- ===== src/Iov/Credit.antt =====
-- The credit of an oversized buffer: how long it is kept.
use kext.Prelude.{
  ℕ, zero, suc, ◌+◌, ◌%◌, ◌^◌, ◌<◌, ◌≡◌, refl, Bool, true, Option, none, some, arith, pos,
}
use kext.Iov.{Tunables, Iov, fresh, fu_at_least, fiov_adjust}

-- `n` calls of `fiov_adjust` with one size, as a ticket of small requests sees them.
pub adjust_times : Tunables → (ℕ → Bool) → ℕ → ℕ → Iov → Option Iov
adjust_times tun malloc size zero fiov = some fiov
adjust_times tun malloc size (suc n) fiov = elim (fiov_adjust tun malloc fiov size) [
  | none ↦ none
  | some f ↦ adjust_times tun malloc size n f
]

module _ (tun : Tunables) (malloc : ℕ → Bool) (plenty : (n : ℕ) → malloc n ≡ true) where
  spend :
      (fiov : Iov) (size c : ℕ)
      → fiov.credit ≡ pos (suc c)
      → size + tun.iov_permanent_bufsize < fiov.allocated_size
      → fiov_adjust tun malloc fiov size ≡ some (record fiov { len = size; credit = pos c })
  unfolding fiov_adjust
  spend fiov size c e big = ground arith

  expire :
      (fiov : Iov) (size : ℕ)
      → fiov.credit ≡ pos 0
      → size + tun.iov_permanent_bufsize < fiov.allocated_size
      → fiov_adjust tun malloc fiov size ≡ some (fresh tun size (fu_at_least size % 2 ^ 32))
  unfolding fiov_adjust
  expire fiov size e big = ground (arith, plenty (fu_at_least size % 2 ^ 32))

  -- While memory lasts, a buffer that is larger than needed by more than the permanent size, with
  -- a credit of c, keeps its block through c calls of `fiov_adjust` and is cut down to size by the
  -- call after them, which also renews the credit.
  pub fiov_adjust_expires :
      (c : ℕ) (fiov : Iov) (size : ℕ)
      → fiov.credit ≡ pos c
      → size + tun.iov_permanent_bufsize < fiov.allocated_size
      → ((g : Iov) × (adjust_times tun malloc size c fiov ≡ some g)
          × (g.allocated_size ≡ fiov.allocated_size))
        × ((f : Iov) × (adjust_times tun malloc size (suc c) fiov ≡ some f)
            × (f.allocated_size ≡ fu_at_least size)
            × (f.credit ≡ tun.iov_credit))
  unfolding adjust_times
  fiov_adjust_expires zero fiov size e big = (
    (fiov, refl, refl),
    (
      fresh tun size (fu_at_least size % 2 ^ 32),
      rw (adjust_times, expire fiov size e big) refl,
      refl,
      refl,
    ),
  )
  fiov_adjust_expires (suc c) fiov size e big =
      let next : Iov = record fiov { len = size; credit = pos c } in
      rw (adjust_times, spend fiov size c e big) (fiov_adjust_expires c next size refl big)
