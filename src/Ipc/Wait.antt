-- ===== src/Ipc/Wait.antt =====
-- fuse_ipc.c: the thread that sends a request and waits for its answer.
pub mod Failures
use kext.Prelude.{ℕ, true, not, ◌||◌, ◌==◌, if◌then◌else◌}
use kext.Errno.{eintr, eio, enxio, eagain, enotconn}
use kext.Iov.{Tunables}
use kext.Ipc.State.{fuse_standard_callback, Kernel, fu_ans}
use kext.Ipc.Monad.{M, pure, ◌>>=◌, ◌>>◌, get, when, load, store, or_panic, sleep}
use kext.Ipc.Tickets.{fuse_ticket_drop, fuse_data_kill}
use kext.Ipc.Dispatcher.{
  Dispatcher, fuse_insert_callback, fuse_insert_message, fuse_internal_interrupt_send,
}

-- `ticket->answered = true`.
unfoldable pub mark_answered : ℕ → M (Unit {0})
mark_answered p = do t ← load p; store p (record t { answered = true })

module _ (tun : Tunables) (k : Kernel) where
  -- The end of `fuse_ticket_wait_answer`: woken with no error and no answer is ENXIO.
  unfoldable pub check_answered : ℕ → ℕ → M ℕ
  check_answered p err = do t ← load p; pure (if not (err == 0) || t.answered then err else enxio)

  -- After the sleep. A timeout kills the device.
  unfoldable pub after_sleep : ℕ → ℕ → M ℕ
  unfolding fuse_data_kill fuse_internal_interrupt_send mark_answered check_answered
  after_sleep p err =
      if err == eagain
      then (do _ ← fuse_data_kill; mark_answered p; check_answered p enotconn)
      else (do when (err == eintr) (fuse_internal_interrupt_send tun k p); check_answered p err)

  -- 0 if the ticket is answered, else an errno.
  unfoldable pub fuse_ticket_wait_answer : ℕ → M ℕ
  unfolding after_sleep mark_answered check_answered
  fuse_ticket_wait_answer p = do
    d ← get
    t ← load p
    if t.answered
        then check_answered p 0
        else (if d.dead
            then (do mark_answered p; check_answered p enotconn)
            else (do err ← sleep (k.msleep fu_ans); after_sleep p err))

  -- The label `out`: drop the ticket and return `err`.
  unfoldable pub give_up : Dispatcher → ℕ → ℕ → M (Dispatcher × ℕ)
  unfolding fuse_ticket_drop
  give_up dispatcher p err = do fuse_ticket_drop tun k p; pure (dispatcher, err)

  -- The wait ended with an error. A ticket that is not answered yet is left to the callback.
  unfoldable pub interrupted : Dispatcher → ℕ → ℕ → M (Dispatcher × ℕ)
  unfolding give_up mark_answered
  interrupted dispatcher p err = do
    t ← load p
    if t.answered then give_up dispatcher p err else (do mark_answered p; pure (dispatcher, err))

  -- The ticket is answered: by an error of the transport, an error of the daemon, or a body.
  unfoldable pub collect : Dispatcher → ℕ → M (Dispatcher × ℕ)
  unfolding give_up
  collect dispatcher p = do
    t ← load p
    if not (t.aw_errno == 0)
        then give_up dispatcher p eio
        else (if not (t.aw_ohead.error == 0)
            then give_up (record dispatcher { answer_errno = t.aw_ohead.error }) p t.aw_ohead.error
            else pure (record dispatcher { answer = t.aw_body; iosize = t.aw_fiov.len }, 0))

  -- After `fuse_ticket_wait_answer`.
  unfoldable pub settle : Dispatcher → ℕ → ℕ → M (Dispatcher × ℕ)
  unfolding interrupted collect
  settle dispatcher p err = if err == 0 then collect dispatcher p else interrupted dispatcher p err

  -- Send the request and wait; the dispatcher with the answer, and 0 or an errno.
  unfoldable pub fuse_dispatcher_wait_answer : Dispatcher → M (Dispatcher × ℕ)
  unfolding fuse_insert_callback fuse_insert_message fuse_ticket_wait_answer settle
  fuse_dispatcher_wait_answer dispatcher = do
    p ← or_panic dispatcher.ticket
    fuse_insert_callback p fuse_standard_callback
    fuse_insert_message p
    err ← fuse_ticket_wait_answer p
    settle (record dispatcher { answer_errno = 0 }) p err
