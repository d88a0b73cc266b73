-- ===== src/Ipc/Answer.antt =====
-- fuse_ipc.c and fuse_internal.c: what happens to an answer of the daemon, from the callback to the
-- thread that waits. A message from user space (`uio`) is the list of its bytes.
pub mod Pull
use kext.Prelude.{ℕ, ◌+◌, ◌*◌, true, List, [], ◌∷◌, ◌==◌, if◌then◌else◌, length, take, drop}
use kext.Errno.{enosys}
use kext.Opcode.{Opcode, code}
use kext.Iov.{Tunables, fiov_adjust_canfail}
use kext.Ipc.State.{Ticket, ft_a_fiov, ft_a_buf, AwType, Kernel, set_flag}
use kext.Ipc.Monad.{M, pure, ◌>>=◌, ◌>>◌, get, modify, when, load, store, or_panic}
use kext.Ipc.Tickets.{fuse_ticket_drop}
use kext.Ipc.Audit.{fuse_body_audit}

-- A little-endian number.
unfoldable pub le : List ℕ → ℕ
le [] = 0
le (b ∷ bs) = b + 256 * le bs

-- The `__u32` at an offset.
abbrev pub u32_at : ℕ → List ℕ → ℕ
u32_at offset bytes = le (take 4 (drop offset bytes))

-- `fuse_clear_implemented`: note that the daemon lacks an operation.
unfoldable pub fuse_clear_implemented : Opcode → M (Unit {0})
fuse_clear_implemented op = modify λ d. record d { noimplflags = set_flag (code op) d.noimplflags }

-- The bytes where `uiomove` succeeds.
abbrev pub moved : ℕ → List ℕ → List ℕ → List ℕ
moved err bytes old = if err == 0 then bytes else old

module _ (tun : Tunables) (k : Kernel) where
  unfoldable pub pull_into : AwType → ℕ → Ticket → List ℕ → M ℕ
  unfolding fiov_adjust_canfail
  pull_into ft_a_fiov p t bytes =
      let (aw, err) = fiov_adjust_canfail tun k.malloc t.aw_fiov (length bytes) in
      if err == 0
      then (do
        let moved_err = k.uiomove (length bytes)
        store p (record t { aw_fiov = aw; aw_body = moved moved_err bytes t.aw_body })
        pure moved_err)
      else (do store p (record t { aw_fiov = aw; killed = true }); pure err)
  pull_into ft_a_buf p t bytes = do
    let err = k.uiomove (length bytes)
    store p (record t { aw_bufsize = length bytes; aw_bufdata = moved err bytes t.aw_bufdata })
    pure err

  unfoldable pub fuse_ticket_aw_pull_uio : ℕ → List ℕ → M ℕ
  unfolding pull_into
  fuse_ticket_aw_pull_uio p bytes = do
    t ← load p
    if length bytes == 0 then pure 0 else pull_into t.aw_type p t bytes

  unfoldable pub fuse_ticket_pull : ℕ → List ℕ → M ℕ
  unfolding fuse_body_audit fuse_ticket_aw_pull_uio
  fuse_ticket_pull p bytes = do
    d ← get
    t ← load p
    if t.aw_ohead.error == 0
        then (do
          err ←
              or_panic (
                fuse_body_audit d.dead k.page_size t.ms_read_size (length bytes) t.ms_header.opcode)
          if err == 0 then fuse_ticket_aw_pull_uio p bytes else pure err)
        else pure 0

  -- The answer belongs to a thread that waits, unless that has given up: then the ticket is dropped.
  unfoldable pub standard_callback : ℕ → List ℕ → M ℕ
  unfolding fuse_ticket_pull
  standard_callback p bytes = do
    err ← fuse_ticket_pull p bytes
    t ← load p
    if t.answered
        then (do fuse_ticket_drop tun k p; pure err)
        else (do store p (record t { answered = true; aw_errno = err }); pure err)

  unfoldable pub fsync_callback : ℕ → M ℕ
  unfolding fuse_clear_implemented
  fsync_callback p = do
    t ← load p
    when (t.aw_ohead.error == enosys) (
        if code t.ms_header.opcode == code Opcode.fsync
        then fuse_clear_implemented Opcode.fsync
        else when (code t.ms_header.opcode == code Opcode.fsyncdir)
            (fuse_clear_implemented Opcode.fsyncdir))
    fuse_ticket_drop tun k p
    pure 0
