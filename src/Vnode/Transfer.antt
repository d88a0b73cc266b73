-- ===== src/Vnode/Transfer.antt =====
-- fuse_internal.c: the loops of fuse_internal_strategy, which read and write a file in chunks of
-- at most the session's `iosize`; libkern's `min` is of 32-bit numbers. The first number of a
-- result is the errno; none is out of fuel.
pub mod Filled
pub mod Ends
use kext.Prelude.{
  ℕ, zero, suc, List, [], ◌∷◌, ◌++◌, Option, none, some, true, false, ◌≡◌, ◌≢◌, ◌≤◌, ◌<◌, refl, ◌+◌,
  ◌-◌, ◌%◌, ◌^◌, ◌&&◌, ◌==◌, ltb, arith, if◌then◌else◌, length, length-append, Bool,
}
use Prim.Native.Nat.{min}
use kext.Errno.{einval}
use kext.Ipc.Answer.{le, u32_at}
use kext.Vnode.State.{VnodeState, Env, Reply, Request, Exchange, ask_read, ask_write}
use kext.Vnode.Monad.{V, Outcome, done, pure, ◌>>=◌, get, ask}
use kext.Vnode.Returns.{Returns, Returns-bind, Returns-if, Returns-ask, dead_reply}

unfoldable pub zeros : ℕ → List ℕ
zeros zero = []
zeros (suc n) = 0 ∷ zeros n

module _ (env : Env) (fh : ℕ) where
  -- The daemon's reply to a write of a chunk: how much it took. `again` goes on with what is left
  -- and the offset behind, which are 64-bit words. The difference of the chunk and what was taken
  -- is made in `size_t`: it can be negative as an `off_t` only where that has 64 bits, as `lp64`
  -- says.
  unfoldable pub after_write :
      (lp64 : Bool) (again : ℕ → ℕ → V (Option (ℕ × ℕ)))
      → (left offset chunk : ℕ) → Reply
      → V (Option (ℕ × ℕ))
  after_write lp64 again left offset chunk reply =
      let size = u32_at 0 reply.body in
      if reply.errno == 0
      then (if lp64 && ltb chunk size
          then pure (some (einval, left))
          else again ((left + 2 ^ 64 - size) % 2 ^ 64) ((offset + size) % 2 ^ 64))
      else pure (some (reply.errno, left))

  -- The result is the errno and what is left to write.
  unfoldable pub write_chunks : (lp64 : Bool) (fuel left offset : ℕ) → V (Option (ℕ × ℕ))
  write_chunks lp64 zero left offset = pure none
  write_chunks lp64 (suc fuel) left offset = if left == 0 then pure (some (0, left)) else (do
    s ← get
    let chunk = min (left % 2 ^ 32) s.mpdata.iosize
    reply ← ask env (ask_write fh offset chunk)
    after_write lp64 (write_chunks lp64 fuel) left offset chunk reply)

  -- The daemon's reply to a read: an empty one is the end of the file, and zeros fill the rest.
  unfoldable pub after_read :
      (again : List ℕ → ℕ → ℕ → V (Option (ℕ × List ℕ)))
      → List ℕ
      → (resid offset : ℕ) → Reply
      → V (Option (ℕ × List ℕ))
  after_read again got resid offset reply =
      let size = length reply.body in
      if reply.errno == 0
      then (if size == 0
          then pure (some (0, got ++ zeros resid))
          else again (got ++ reply.body) (resid - size) (offset + size))
      else pure (some (reply.errno, got))

  -- The result is the errno and the bytes of the buffer.
  unfoldable pub read_chunks :
      (isdir : Bool) → (fuel : ℕ) → List ℕ → (resid offset : ℕ) → V (Option (ℕ × List ℕ))
  read_chunks isdir zero got resid offset = pure none
  read_chunks isdir (suc fuel) got resid offset = if resid == 0 then pure (some (0, got)) else (do
    s ← get
    reply ← ask env (ask_read isdir fh offset (min resid s.mpdata.iosize))
    after_read (read_chunks isdir fuel) got resid offset reply)
