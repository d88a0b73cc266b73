-- ===== src/RoundTrip.antt =====
-- A request and its answer: fuse_ipc.c on the side of the thread that asks, fuse_device.c on the
-- side of the daemon.
use kext.Prelude.{
  ℕ, ◌+◌, ◌<◌, ◌≡◌, refl, true, false, some, List, [], ◌∷◌, ◌++◌, arith, ◌==◌, ltb, length, take,
  drop, count, sym, ◌∙◌, ap,
}
use kext.Iov.{Tunables, Iov, fiov_adjust_canfail}
use kext.Ipc.State.{
  FuseData, Ticket, OutHeader, Kernel, ft_a_fiov, fu_ans, fuse_standard_callback, sizeof_out_header,
}
use kext.Ipc.Monad.{Run, done, panic, fault}
use kext.Ipc.Dispatcher.{Dispatcher, fuse_insert_callback, fuse_insert_message}
use kext.Ipc.Wait.{
  fuse_ticket_wait_answer, after_sleep, check_answered, settle, collect,
  fuse_dispatcher_wait_answer,
}
use kext.Ipc.Answer.Pull.{Ready, with_ticket, with_body}
use kext.Device.Writing.{out_header_of, negated, audited, answer, fuse_device_write}
use kext.Device.Writing.Delivery.{Linked, delivered, answer_lem}

-- A ticket as the dispatcher fills it: without marks, and with an empty buffer for the answer.
pub record IsFresh (t : Ticket) : Type 0 where
  pub dirty : t.dirty ≡ false
  pub answered : t.answered ≡ false
  pub into_fiov : t.aw_type ≡ ft_a_fiov
  pub no_body : t.aw_body ≡ []
  pub no_len : t.aw_fiov.len ≡ 0

-- The ticket of a request that was sent.
abbrev pub sent : Ticket → Ticket
sent t = record t { aw_callback = some fuse_standard_callback; dirty = true }

-- The state after the request is queued for the daemon.
abbrev pub asked : FuseData → ℕ → Ticket → FuseData
asked d p t =
    record (with_ticket
      (record (with_ticket d p (record t { aw_callback = some fuse_standard_callback })) {
        aw_head = d.aw_head ++ p ∷ [];
      })
      p (sent t)) { ms_head = d.ms_head ++ p ∷ [] }

-- A message of the daemon that is a successful answer to the ticket: a header of its own length, of
-- the ticket's identifier and without an error, and a body.
pub record IsReply (t : Ticket) (bytes : List ℕ) : Type 0 where
  pub long : ltb (length bytes) sizeof_out_header ≡ false
  pub len :
      length (drop sizeof_out_header bytes) + sizeof_out_header
      ≡ (out_header_of (take sizeof_out_header bytes)).len
  pub error : (out_header_of (take sizeof_out_header bytes)).error ≡ 0
  pub unique : (out_header_of (take sizeof_out_header bytes)).unique ≡ t.unique

module _ (tun : Tunables) (k : Kernel) (d : FuseData) (p : ℕ) (t : Ticket)
    (here : d.heap p ≡ some t) (fresh : IsFresh t) (alive : d.dead ≡ false) where
  pub insert_callback_lem :
      fuse_insert_callback p fuse_standard_callback d
      ≡ done tt (record (with_ticket d p (record t { aw_callback = some fuse_standard_callback })) {
        aw_head = d.aw_head ++ p ∷ [];
      })
  unfolding fuse_insert_callback
  insert_callback_lem = ground arith

  pub insert_message_lem :
      fuse_insert_message p
        (record (with_ticket d p (record t { aw_callback = some fuse_standard_callback })) {
          aw_head = d.aw_head ++ p ∷ [];
        })
      ≡ done tt (asked d p t)
  unfolding fuse_insert_message
  insert_message_lem = ground (arith, fresh.dirty)

  module _ (u : Ticket) (after : FuseData) (woken : k.msleep fu_ans (asked d p t) ≡ (0, after))
      (there : after.heap p ≡ some u) (answered : u.answered ≡ true) where
    wait_lem : fuse_ticket_wait_answer tun k p (asked d p t) ≡ done 0 after
    unfolding fuse_ticket_wait_answer after_sleep check_answered
    wait_lem = ground (arith, fresh.answered)

    collect_lem :
        (disp : Dispatcher)
        → u.aw_errno ≡ 0
        → u.aw_ohead.error ≡ 0
        → collect tun k disp p after
          ≡ done (record disp { answer = u.aw_body; iosize = u.aw_fiov.len }, 0) after
    unfolding collect
    collect_lem disp e f = ground arith

    answered_lem :
        (disp : Dispatcher)
        → disp.ticket ≡ some p
        → u.aw_errno ≡ 0
        → u.aw_ohead.error ≡ 0
        → fuse_dispatcher_wait_answer tun k disp d
          ≡ done
              (record disp { answer_errno = 0; answer = u.aw_body; iosize = u.aw_fiov.len }, 0)
              after
    unfolding fuse_dispatcher_wait_answer settle
    answered_lem disp q e f = ground (
      arith,
      insert_callback_lem,
      insert_message_lem,
      wait_lem,
      collect_lem (record disp { answer_errno = 0 }) e f,
    )

adjusted-len :
    (tun : Tunables) (k : Kernel) (f : Iov) (size : ℕ) {g : Iov}
    → fiov_adjust_canfail tun k.malloc f size ≡ (g, 0)
    → g.len ≡ size
unfolding fiov_adjust_canfail
adjusted-len tun k f size e = ground arith

nil_of_length : (xs : List ℕ) → (length xs == 0) ≡ true → xs ≡ []
nil_of_length [] e = refl
nil_of_length (x ∷ xs) e = ground arith

-- The header that `fuse_device_write` hands over, and the body.
abbrev pub header : List ℕ → OutHeader
header bytes = negated (out_header_of (take sizeof_out_header bytes))

abbrev pub body_of : List ℕ → List ℕ
body_of bytes = drop sizeof_out_header bytes

pub write_lem :
    (tun : Tunables) (k : Kernel) (s : FuseData) (t : Ticket) (bytes : List ℕ)
    → IsReply t bytes
    → k.uiomove sizeof_out_header ≡ 0
    → fuse_device_write tun k bytes s ≡ answer tun k (header bytes) (body_of bytes) s
unfolding fuse_device_write audited
write_lem tun k s t bytes r moves = ground (arith, r.long, r.len, r.error)

-- The state that a call leaves, if it returns.
abbrev pub state_of : {A : Type 0} → FuseData → Run A → FuseData
state_of d (done a e) = e
state_of d panic = d
state_of d fault = d

-- The round trip. A thread sends a request in a fresh ticket of a device that lives. Whatever the
-- other threads do, let the daemon at some point write a successful answer to that ticket, in a
-- state where the ticket waits as it was sent, the queue of answers links only tickets that are
-- there, and the audit, the buffer and the copying let the body in. Then that write returns 0, and
-- if the thread wakes in the state that it leaves, the thread's call returns 0 too, and the
-- dispatcher holds the body that the daemon wrote and its length.
pub fuse_dispatcher_wait_answer-fuse_device_write :
    (tun : Tunables) (k daemon : Kernel) (d before after : FuseData) (disp : Dispatcher) (p : ℕ)
    (t : Ticket) (bytes : List ℕ) (aw : Iov)
    → d.heap p ≡ some t
    → IsFresh t
    → d.dead ≡ false
    → disp.ticket ≡ some p
    → before.heap p ≡ some (sent t)
    → Linked before before.aw_head
    → 0 < count p before.aw_head
    → IsReply t bytes
    → daemon.uiomove sizeof_out_header ≡ 0
    → Ready tun daemon before (record (sent t) { aw_ohead = header bytes }) (body_of bytes) aw
    → state_of before (fuse_device_write tun daemon bytes before) ≡ after
    → k.msleep fu_ans (asked d p t) ≡ (0, after)
    → (fuse_device_write tun daemon bytes before ≡ done 0 after)
      × (fuse_dispatcher_wait_answer tun k disp d
          ≡ done
              (
                record disp {
                  answer_errno = 0;
                  answer = body_of bytes;
                  iosize = length (body_of bytes);
                },
                0,
              )
              after)
fuse_dispatcher_wait_answer-fuse_device_write tun k daemon d before after disp p t bytes aw here
      fresh alive named waits linked queued reply moves ready wrote woken =
    (
      state ∙ ap (done 0) (sym same),
      ground (
        arith,
        body,
        len,
        answered_lem tun k d p t here fresh alive given after woken there refl disp named refl
            error,
      ),
    )
  where
    given : Ticket
    given = record (with_body (record (sent t) { aw_ohead = header bytes }) (body_of bytes) aw) {
      answered = true;
      aw_errno = 0;
    }

    state :
        fuse_device_write tun daemon bytes before
        ≡ done 0 (delivered before p (sent t) (header bytes) (body_of bytes) aw)
    state =
        write_lem tun daemon before t bytes reply moves
        ∙ answer_lem tun daemon before p (sent t) (header bytes) (body_of bytes) aw linked queued
            waits (sym reply.unique) refl fresh.answered ready

    same : after ≡ delivered before p (sent t) (header bytes) (body_of bytes) aw
    same = sym wrote ∙ ap (state_of before) state

    there : after.heap p ≡ some given
    there = rw same (ground arith)

    error : given.aw_ohead.error ≡ 0
    error = ground (arith, ready.success)

    body : given.aw_body ≡ body_of bytes
    body = ground (arith, fresh.no_body, nil_of_length (body_of bytes))

    len : given.aw_fiov.len ≡ length (body_of bytes)
    len =
        ground (
          arith,
          fresh.no_len,
          adjusted-len tun daemon t.aw_fiov (length (body_of bytes)) ready.room,
        )
