-- ===== src/Ipc/Wait/Failures.antt =====
-- Requests on a dead device.
use kext.Prelude.{ℕ, ◌<◌, ◌^◌, ◌≡◌, refl, true, false, some, arith}
use kext.Errno.{enotconn}
use kext.Iov.{Tunables}
use kext.Ipc.State.{FuseData, Ticket, Kernel}
use kext.Ipc.Monad.{update}
use kext.Ipc.Ensures.{Ensures, Ensures-bind}
use kext.Ipc.WellFormed.{InUse, WellFormed}
use kext.Ipc.WellFormed.Store.{Keeps, stored-WellFormed, stored-InUse}
use kext.Ipc.WellFormed.Drop.{Dropped, fuse_ticket_drop-Dropped}
use kext.Ipc.Dispatcher.{Dispatcher, fuse_insert_callback, fuse_insert_message}
use kext.Ipc.Wait.{
  mark_answered, check_answered, fuse_ticket_wait_answer, give_up, interrupted, settle,
  fuse_dispatcher_wait_answer,
}

-- A ticket in which a dead device has refused a request.
abbrev refused : Ticket → Ticket
refused t = record t { dirty = true; answered = true }

abbrev refused_state : FuseData → ℕ → Ticket → FuseData
refused_state d p t = record d {
  heap = update (update d.heap p (some (record t { dirty = true }))) p (some (refused t));
}

module _ (tun : Tunables) (k : Kernel) (d : FuseData) (p : ℕ) (t : Ticket) (disp : Dispatcher)
    (here : d.heap p ≡ some t) (clean : t.dirty ≡ false) (waiting : t.answered ≡ false)
    (dead : d.dead ≡ true) (named : disp.ticket ≡ some p) where
  refused_lem :
      fuse_dispatcher_wait_answer tun k disp d
      ≡ give_up tun k (record disp { answer_errno = 0 }) p enotconn (refused_state d p t)
  unfolding fuse_dispatcher_wait_answer fuse_insert_callback fuse_insert_message
      fuse_ticket_wait_answer mark_answered check_answered settle interrupted
  refused_lem = ground arith

  module _ (w : WellFormed d) (few : d.ticketer < 2 ^ 32) (used : InUse d p) where
    dirtied : FuseData
    dirtied = record d { heap = update d.heap p (some (record t { dirty = true })) }

    fits : Keeps t t
    fits = record {
      unique = refl;
      ms_fits = (w.fitting p t here).0;
      aw_fits = (w.fitting p t here).1;
    }

    refused-WellFormed : WellFormed (refused_state d p t) × InUse (refused_state d p t) p
    unfolding dirtied fits
    refused-WellFormed =
        let a = stored-WellFormed d p t (record t { dirty = true }) w used here dirt_keeps in
        let b = stored-InUse d p t (record t { dirty = true }) w used here dirt_keeps in
        (
          stored-WellFormed dirtied p (record t { dirty = true }) (refused t) a b (ground arith)
              answer_keeps,
          stored-InUse dirtied p (record t { dirty = true }) (refused t) a b (ground arith)
              answer_keeps,
        )
      where
        dirt_keeps : Keeps t (record t { dirty = true })
        dirt_keeps = record { unique = refl; ms_fits = fits.ms_fits; aw_fits = fits.aw_fits }

        answer_keeps : Keeps (record t { dirty = true }) (refused t)
        answer_keeps = record { unique = refl; ms_fits = fits.ms_fits; aw_fits = fits.aw_fits }

    Dropped-refused : (e : FuseData) → Dropped (refused_state d p t) p e → Dropped d p e
    Dropped-refused e r = record {
      well = r.well;
      others = λ a h. ground (arith, r.others a h);
      free = r.free;
      messages = r.messages;
      answers = r.answers;
      dead = r.dead;
    }

    -- A request on a dead device, in a ticket without marks that is in use in a state that meets the
    -- invariant and has numbered fewer than 2^32 tickets: the call touches no freed ticket and
    -- panics only where an allocation fails; it returns ENOTCONN without sleeping, no message and no
    -- callback is queued, the ticket is freed or free again, and the invariant holds.
    pub fuse_dispatcher_wait_answer-dead :
        Ensures k
          (λ r e. (r.1 ≡ enotconn) × Dropped d p e)
          (fuse_dispatcher_wait_answer tun k disp d)
    unfolding give_up
    fuse_dispatcher_wait_answer-dead = rw refused_lem (
        Ensures-bind k (λ _ e. Dropped (refused_state d p t) p e) _ _ _
          (fuse_ticket_drop-Dropped tun k (refused_state d p t) refused-WellFormed.0 few p
            refused-WellFormed.1)
          λ _ e r. (refl, Dropped-refused e r))
