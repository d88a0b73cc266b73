-- ===== src/Iov.antt =====
-- fuse_ipc.h and fuse_ipc.c: the message buffers `struct fuse_iov`.
-- A buffer's bytes are kept apart from its sizes; `capacity` is what OSMalloc was asked for, which
-- FUSE_OSMalloc (fuse.h) cuts to 32 bits. Whether the allocator has memory is the parameter `malloc`.
pub mod Bounds
pub mod Credit
use kext.Prelude.{
  ℕ, ◌-◌, ◌%◌, ◌^◌, max, Bool, true, false, Option, none, some, ltb, if◌then◌else◌, ℤ, pred_ℤ,
  is_neg,
}
use kext.Errno.{enomem}

-- The sysctl variables that the IPC layer reads (fuse_sysctl.c).
pub record Tunables : Type 0 where
  pub iov_credit : ℤ
  pub iov_permanent_bufsize : ℕ
  pub max_freetickets : ℕ
  pub max_tickets : ℕ

-- `struct fuse_iov`.
pub record Iov : Type 0 where
  pub capacity : ℕ
  pub len : ℕ
  pub allocated_size : ℕ
  pub credit : ℤ

-- FU_AT_LEAST, by libkern's `max` of two 32-bit numbers.
unfoldable pub fu_at_least : ℕ → ℕ
fu_at_least siz = max (siz % 2 ^ 32) 160

-- The block that FUSE_OSMalloc(size) returns, by its size, or null.
unfoldable pub os_malloc : (ℕ → Bool) → ℕ → Option ℕ
os_malloc malloc size = if malloc (size % 2 ^ 32) then some (size % 2 ^ 32) else none

-- The condition of `fiov_adjust` under which the buffer is replaced, with the credit after its
-- `--fiov->credit`, which is only evaluated for a buffer that is much too large.
unfoldable pub must_realloc : Tunables → Iov → ℕ → Bool × ℤ
must_realloc tun fiov size =
    if ltb fiov.allocated_size size
    then (true, fiov.credit)
    else (if ltb tun.iov_permanent_bufsize (fiov.allocated_size - size)
        then (is_neg (pred_ℤ fiov.credit), pred_ℤ fiov.credit)
        else (false, fiov.credit))

-- A buffer of a fresh block.
abbrev fresh : Tunables → ℕ → ℕ → Iov
fresh tun size block = record {
  capacity = block;
  len = size;
  allocated_size = fu_at_least size;
  credit = tun.iov_credit;
}

module _ (tun : Tunables) (malloc : ℕ → Bool) where
  -- `none` is the panic on a failed allocation.
  unfoldable pub fiov_init : ℕ → Option Iov
  unfolding fu_at_least os_malloc
  fiov_init size = elim (os_malloc malloc (fu_at_least size)) [
    | none ↦ none
    | some block ↦ some (record {
      capacity = block;
      len = 0;
      allocated_size = fu_at_least size;
      credit = tun.iov_credit;
    })
  ]

  -- The second half of `fiov_adjust`, given the condition and the credit that is left.
  adjust_step : Iov → ℕ → Bool × ℤ → Option Iov
  unfolding fu_at_least os_malloc
  adjust_step fiov size (true, credit) = elim (os_malloc malloc (fu_at_least size)) [
    | none ↦ none
    | some block ↦ some (fresh tun size block)
  ]
  adjust_step fiov size (false, credit) = some (record fiov { len = size; credit = credit })

  -- `none` is the panic on a failed allocation.
  unfoldable pub fiov_adjust : Iov → ℕ → Option Iov
  unfolding must_realloc adjust_step
  fiov_adjust fiov size = adjust_step fiov size (must_realloc tun fiov size)

  canfail_step : Iov → ℕ → Bool × ℤ → Iov × ℕ
  unfolding fu_at_least os_malloc
  canfail_step fiov size (true, credit) = elim (os_malloc malloc (fu_at_least size)) [
    | none ↦ (record fiov { credit = credit }, enomem)
    | some block ↦ (fresh tun size block, 0)
  ]
  canfail_step fiov size (false, credit) = (record fiov { len = size; credit = credit }, 0)

  -- The buffer, and 0 or ENOMEM.
  unfoldable pub fiov_adjust_canfail : Iov → ℕ → Iov × ℕ
  unfolding must_realloc canfail_step
  fiov_adjust_canfail fiov size = canfail_step fiov size (must_realloc tun fiov size)

  -- `bzero` and `fiov_adjust(fiov, 0)`.
  unfoldable pub fiov_refresh : Iov → Option Iov
  unfolding fiov_adjust
  fiov_refresh fiov = fiov_adjust fiov 0
