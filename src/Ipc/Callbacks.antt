-- ===== src/Ipc/Callbacks.antt =====
-- fuse_internal.c: the handshake with the daemon, and the choice of a ticket's callback.
use kext.Prelude.{
  ℕ, ◌/◌, ◌%◌, ◌^◌, true, not, ◌||◌, Option, none, some, List, [], ltb, ◌==◌, if◌then◌else◌,
}
use kext.Errno.{einval, eprotonosupport}
use kext.Opcode.{Opcode}
use kext.Iov.{Tunables}
use kext.Ipc.State.{
  Callback, fuse_standard_callback, fuse_internal_fsync_callback, fuse_internal_init_callback,
  fuse_internal_forget_callback, Flags, Kernel, Cred, set_flag,
}
use kext.Ipc.Monad.{M, pure, ◌>>=◌, ◌>>◌, modify, when, load, or_panic}
use kext.Ipc.Tickets.{fuse_ticket_drop, fuse_data_kill}
use kext.Ipc.Audit.{sizeof_init_out}
use kext.Ipc.Dispatcher.{
  fuse_dispatcher_init, fuse_dispatcher_make, fuse_insert_callback, fuse_insert_message,
  fuse_internal_forget_send,
}
use kext.Ipc.Answer.{u32_at, fuse_ticket_pull, standard_callback, fsync_callback}

abbrev pub fuse_kernel_version : ℕ
fuse_kernel_version = 7

abbrev pub fuse_kernel_minor_version : ℕ
fuse_kernel_minor_version = 12

-- The bits of FSESS_CASE_INSENSITIVE, FSESS_VOL_RENAME, FSESS_XTIMES and FSESS_ATOMIC_O_TRUNC.
abbrev pub fsess_case_insensitive : ℕ
fsess_case_insensitive = 17

abbrev pub fsess_vol_rename : ℕ
fsess_vol_rename = 18

abbrev pub fsess_xtimes : ℕ
fsess_xtimes = 19

abbrev pub fsess_atomic_o_trunc : ℕ
fsess_atomic_o_trunc = 23

-- `if (flags & (1 << bit)) dataflags |= flag`.
abbrev pub take_flag : ℕ → ℕ → ℕ → Flags → Flags
take_flag flags bit flag fs = if flags / 2 ^ bit % 2 == 1 then set_flag flag fs else fs

abbrev pub take_flags : ℕ → Flags → Flags
take_flags flags fs = take_flag flags 3 fsess_atomic_o_trunc (
    take_flag flags 31 fsess_xtimes
      (take_flag flags 30 fsess_vol_rename (take_flag flags 29 fsess_case_insensitive fs)))

-- What the body of the answer to FUSE_INIT does to the device; the result is `err`. A body of
-- 8 bytes has no `flags` and `max_write`: they read as 0.
unfoldable pub accept_init : List ℕ → ℕ → M ℕ
accept_init body len =
    if ltb (u32_at 0 body) fuse_kernel_version || ltb (u32_at 4 body) fuse_kernel_minor_version
    then pure eprotonosupport
    else (do
      when (len == sizeof_init_out) (modify λ d. record d { max_write = u32_at 20 body })
      modify λ d. record d { dataflags = take_flags (u32_at 12 body) d.dataflags }
      pure (if len == sizeof_init_out then 0 else einval))

module _ (tun : Tunables) (k : Kernel) where
  -- Everything of `fuse_internal_init_callback` before the label `out`; the result is `err`.
  unfoldable pub init_outcome : ℕ → List ℕ → M ℕ
  unfolding fuse_ticket_pull accept_init
  init_outcome p bytes = do
    t ← load p
    if t.aw_ohead.error == 0
        then (do
          err ← fuse_ticket_pull tun k p bytes
          u ← load p
          if err == 0 then accept_init u.aw_body u.aw_fiov.len else pure err)
        else pure t.aw_ohead.error

  unfoldable pub init_callback : ℕ → List ℕ → M ℕ
  unfolding init_outcome fuse_ticket_drop fuse_data_kill
  init_callback p bytes = do
    err ← init_outcome p bytes
    fuse_ticket_drop tun k p
    when (not (err == 0)) (do _ ← fuse_data_kill; pure tt)
    modify λ d. record d { inited = true }
    pure 0

  -- Sends a FUSE_FORGET in another ticket, and does not drop its own.
  unfoldable pub forget_callback : ℕ → M ℕ
  unfolding fuse_internal_forget_send
  forget_callback p = do
    t ← load p
    fuse_internal_forget_send tun k none t.ms_header.nodeid 1
        (record { ticket = some p; iosize = 0; answer_errno = 0; answer = [] })
    pure 0

  -- `ticket->aw_callback(ticket, uio)`.
  unfoldable pub run_callback : Callback → ℕ → List ℕ → M ℕ
  unfolding standard_callback fsync_callback init_callback forget_callback
  run_callback fuse_standard_callback p bytes = standard_callback tun k p bytes
  run_callback fuse_internal_fsync_callback p bytes = fsync_callback tun k p
  run_callback fuse_internal_init_callback p bytes = init_callback p bytes
  run_callback fuse_internal_forget_callback p bytes = forget_callback p

  unfoldable pub fuse_send_init : Option Cred → M (Unit {0})
  unfolding fuse_dispatcher_init fuse_dispatcher_make fuse_insert_callback fuse_insert_message
  fuse_send_init context = do
    made ←
        fuse_dispatcher_make tun k
          (fuse_dispatcher_init
            (record { ticket = none; iosize = 0; answer_errno = 0; answer = [] }) 16)
          Opcode.init 0 context
    p ← or_panic made.ticket
    fuse_insert_callback p fuse_internal_init_callback
    fuse_insert_message p
