-- ===== src/Device/Reading.antt =====
-- fuse_device.c, `fuse_device_read`: the daemon fetches the next request.
pub mod Order
use kext.Prelude.{
  ℕ, zero, suc, ◌-◌, Bool, true, Option, none, some, List, [], ◌∷◌, ltb, ◌==◌, if◌then◌else◌,
}
use kext.Errno.{eintr, enodev, eagain}
use kext.Iov.{Tunables}
use kext.Ipc.State.{InHeader, MsType, ft_m_fiov, ft_m_buf, Ticket, Kernel, fu_msg}
use kext.Ipc.Monad.{M, pure, ◌>>=◌, ◌>>◌, get, modify, load, sleep}
use kext.Ipc.Tickets.{fuse_ticket_drop_invalid}

-- A buffer that is copied to the daemon: a message with its header, or data of some address.
pub data Chunk : Type 0 where
  message : InHeader → (len : ℕ) → Chunk
  payload : (addr len : ℕ) → Chunk

abbrev pub chunk_len : Chunk → ℕ
chunk_len (message h len) = len
chunk_len (payload addr len) = len

-- `buf` and `buflen`, up to the first null.
unfoldable pub chunks_of : MsType → Option ℕ → Ticket → List Chunk
chunks_of ft_m_fiov bufdata t = message t.ms_header t.ms_fiov.len ∷ []
chunks_of ft_m_buf none t = message t.ms_header t.ms_fiov.len ∷ []
chunks_of ft_m_buf (some addr) t =
    message t.ms_header t.ms_fiov.len ∷ payload addr t.ms_bufsize ∷ []

-- The head of the queue of messages, unlinked.
unfoldable pub take_message : List ℕ → M (Option ℕ)
take_message [] = pure none
take_message (p ∷ rest) = do modify λ d. record d { ms_head = rest }; pure (some p)

-- How the loop at `again` ends: with a ticket, with an error, or not yet.
pub data Next : Type 0 where
  got : ℕ → Next
  stopped : ℕ → Next
  asleep : Next

module _ (tun : Tunables) (k : Kernel) (ndelay : Bool) where
  -- The loop at `again`, for as many sleeps as there is fuel.
  unfoldable pub next_message : ℕ → M Next
  unfolding take_message
  next_message zero = pure asleep
  next_message (suc fuel) =
      let again = next_message fuel in
      do
        d ← get
        if d.dead then pure (stopped enodev) else (do
          o ← take_message d.ms_head
          elim o [
            | some p ↦ pure (got p)
            | none ↦ if ndelay then pure (stopped eagain) else (do
              err ← sleep (k.msleep fu_msg)
              e ← get
              if err == 0 then again else pure (stopped (if e.dead then enodev else err)))
          ])

  -- The copying loop: the error, and what reached the daemon. A user buffer that is too short for
  -- the rest kills the device.
  unfoldable pub copy_out : (resid : ℕ) → List Chunk → M (ℕ × List Chunk)
  copy_out resid [] = pure (0, [])
  copy_out resid (c ∷ cs) =
      let rest = copy_out (resid - chunk_len c) cs in
      if ltb resid (chunk_len c)
      then (do modify λ d. record d { dead = true }; pure (enodev, []))
      else (if k.uiomove (chunk_len c) == 0
          then (do r ← rest; pure (r.0, c ∷ r.1))
          else pure (k.uiomove (chunk_len c), []))

  -- What is done with a ticket that was taken off the queue.
  unfoldable pub deliver : (resid : ℕ) → ℕ → M (ℕ × List Chunk)
  unfolding copy_out chunks_of fuse_ticket_drop_invalid
  deliver resid p = do
    d ← get
    if d.dead then (do fuse_ticket_drop_invalid tun k p; pure (enodev, [])) else (do
      t ← load p
      r ← copy_out resid (chunks_of t.ms_type t.ms_bufdata t)
      u ← load p
      fuse_ticket_drop_invalid tun k p
      pure ((if u.answered then eintr else r.0), r.1))

  unfoldable pub finish : (resid : ℕ) → Next → M (Option (ℕ × List Chunk))
  unfolding deliver
  finish resid (got p) = do r ← deliver resid p; pure (some r)
  finish resid (stopped err) = pure (some (err, []))
  finish resid asleep = pure none

  -- The error and what was copied; `none` while the daemon still sleeps after `fuel` rounds.
  unfoldable pub fuse_device_read : (fuel resid : ℕ) → M (Option (ℕ × List Chunk))
  unfolding next_message finish
  fuse_device_read fuel resid = do n ← next_message fuel; finish resid n
