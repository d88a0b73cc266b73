-- ===== src/Vnode/Readdir/Whole.antt =====
-- fuse_internal.c: reading a directory to its end, or until the reader's buffer is full.
use kext.Prelude.{ℕ, Option, some, ◌<◌, ◌≡◌}
use kext.Vnode.State.{VnodeState}
use kext.Vnode.Monad.{V}
use kext.Vnode.Returns.{Returns}
use kext.Vnode.Readdir.{Uio, Reader}
use kext.Vnode.Readdir.Loops.{Filled}

module _ (reader : Reader) where
  -- A result, and the reader's buffer filled up so far.
  abbrev pub Reads : Uio → Option (ℕ × Uio) → Type 0
  Reads uio o = (r : ℕ × Uio) × (o ≡ some r) × Filled reader uio r.1

  -- How the loop goes on, on a buffer with less room.
  Goes : ℕ → (Uio → V (Option (ℕ × Uio))) → Type 0
  Goes fuel again =
      (u : Uio) (s : VnodeState) → u.resid < fuel → Returns (λ o _. Reads u o) (again u s)
