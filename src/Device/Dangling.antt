-- ===== src/Device/Dangling.antt =====
-- What a request that times out leaves in the queue of answers.
use kext.Prelude.{
  ℕ, ◌+◌, ◌<◌, ◌≤◌, ◌^◌, ◌≡◌, true, false, some, none, List, [], ◌∷◌, ◌++◌, arith, count,
  count-append, count_self, count-cons, count-nil, Option-cases, inl, inr, ◌%◌, remove,
}
use kext.Errno.{eagain, enotconn}
use kext.Iov.{Tunables}
use kext.Ipc.State.{FuseData, Ticket, Kernel, fu_ans}
use kext.Ipc.Monad.{done, fault, update}
use kext.Ipc.Tickets.{fuse_ticket_drop, fuse_data_kill, fuse_remove_allticks, fuse_ticket_destroy}
use kext.Ipc.Dispatcher.{Dispatcher}
use kext.Ipc.Wait.{
  mark_answered, check_answered, after_sleep, fuse_ticket_wait_answer, give_up, interrupted, settle,
  fuse_dispatcher_wait_answer,
}
use kext.Device.Lifecycle.{reject_each, fuse_reject_answers}
use kext.RoundTrip.{IsFresh, asked, sent, insert_callback_lem, insert_message_lem}

-- A queue that links a ticket that is gone.
record Dangles (p : ℕ) (e : FuseData) : Type 0 where
  gone : e.heap p ≡ none
  linked : 0 < count p e.aw_head

reject_each-fault :
    (p : ℕ) (d : FuseData) (xs : List ℕ)
    → d.heap p ≡ none
    → 0 < count p xs
    → reject_each xs d ≡ fault
unfolding reject_each
reject_each-fault p d [] gone c = absurd (omega (arith, count-nil p))
reject_each-fault p d (x ∷ xs) gone c = elim (Option-cases (d.heap x)) [
  | inl e ↦ ground (arith, e)
  | inr (t, e) ↦ ground (
    arith,
    e,
    reject_each-fault p
        (record d {
          heap = update d.heap x (some (record t { answered = true; aw_errno = enotconn }));
        })
        xs,
    count-cons p x xs,
  )
]

fuse_reject_answers-fault : (p : ℕ) (d : FuseData) → Dangles p d → fuse_reject_answers d ≡ fault
unfolding fuse_reject_answers
fuse_reject_answers-fault p d h = ground (arith, reject_each-fault p d d.aw_head h.gone h.linked)

-- The state after a request has timed out and its ticket was freed.
abbrev timed_out : FuseData → ℕ → Ticket → FuseData
timed_out d p t = record (asked d p t) {
  dead = true;
  heap = update (update (asked d p t).heap p (some (record (sent t) { answered = true }))) p none;
  deadticket_counter = (d.deadticket_counter + 1) % 2 ^ 32;
  alltickets_head = remove p d.alltickets_head;
}

module _ (tun : Tunables) (k : Kernel) (d : FuseData) (p : ℕ) (t : Ticket) (disp : Dispatcher)
    (here : d.heap p ≡ some t) (fresh : IsFresh t) (alive : d.dead ≡ false)
    (named : disp.ticket ≡ some p) (full : tun.max_freetickets ≤ d.freeticket_counter)
    (timeout : k.msleep fu_ans (asked d p t) ≡ (eagain, asked d p t)) where
  timed_out_wait :
      fuse_ticket_wait_answer tun k p (asked d p t)
      ≡ done enotconn (record (asked d p t) {
        dead = true;
        heap = update (asked d p t).heap p (some (record (sent t) { answered = true }));
      })
  unfolding fuse_ticket_wait_answer after_sleep fuse_data_kill mark_answered check_answered
  timed_out_wait = ground (arith, fresh.answered)

  timed_out_lem :
      fuse_dispatcher_wait_answer tun k disp d
      ≡ done (record disp { answer_errno = 0 }, enotconn) (timed_out d p t)
  unfolding fuse_dispatcher_wait_answer settle interrupted give_up fuse_ticket_drop
      fuse_remove_allticks fuse_ticket_destroy
  timed_out_lem = ground (
    arith,
    insert_callback_lem tun k d p t here fresh alive,
    insert_message_lem tun k d p t here fresh alive,
    timed_out_wait,
  )

  -- A request of a fresh ticket on a device that lives, which times out with nothing done about it,
  -- while the list of free tickets is full: the call returns ENOTCONN, the ticket is freed, and the
  -- queue of answers still links it; so `fuse_reject_answers`, which closing or killing the device
  -- runs over that queue, touches the freed ticket.
  pub timeout_dangles :
      (e : FuseData) × (fuse_dispatcher_wait_answer tun k disp d
        ≡ done (record disp { answer_errno = 0 }, enotconn) e)
      × (e.heap p ≡ none)
      × (0 < count p e.aw_head)
      × (fuse_reject_answers e ≡ fault)
  timeout_dangles = (
    timed_out d p t,
    timed_out_lem,
    gone,
    linked,
    fuse_reject_answers-fault p (timed_out d p t) (record { gone = gone; linked = linked }),
  )
    where
      gone : (timed_out d p t).heap p ≡ none
      gone = ground arith

      linked : 0 < count p (d.aw_head ++ p ∷ [])
      linked = omega (arith, count-append p d.aw_head (p ∷ []), count_self p [])
