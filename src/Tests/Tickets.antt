-- ===== src/Tests/Tickets.antt =====
-- The theorems on tickets, on a device with one ticket in use.
use kext.Prelude.{◌≡◌, refl, true, some, none, arith, [], count-cons, count-nil}
use kext.Ipc.State.{FuseData}
use kext.Ipc.Ensures.{Ensures}
use kext.Ipc.WellFormed.{WellFormed, InUse, kill-WellFormed}
use kext.Ipc.WellFormed.Drop.{Dropped, fuse_ticket_drop-Dropped}
use kext.Ipc.Tickets.{fuse_ticket_drop}
use kext.Ipc.Dispatcher.{Dispatcher}
use kext.Ipc.Wait.{fuse_dispatcher_wait_answer}
use kext.Ipc.Wait.Failures.{fuse_dispatcher_wait_answer-dead}
use kext.Errno.{enotconn}
use kext.Tests.{tun, kernel, busy, ticket}

pub busy-WellFormed : WellFormed busy
busy-WellFormed = record {
  owned = λ a. ground (arith, count-cons a 3 [], count-nil a);
  free_owned = λ a. ground (arith, count-nil a);
  counted = refl;
  fresh = λ a h. ground arith;
  balance = refl;
  numbered = λ a t e. ground arith;
  distinct = λ a b t u e f g. ground arith;
  clean = λ a t c e. ground (arith, count-nil a);
  fitting = λ a t e. (
    record { used = ground arith; backed = ground arith },
    record { used = ground arith; backed = ground arith },
  );
}

pub used : InUse busy 3
used = record { here = refl; apart = count-nil 3 }

fuse_ticket_drop-Dropped_example :
    Ensures kernel (λ _ e. Dropped busy 3 e) (fuse_ticket_drop tun kernel 3 busy)
fuse_ticket_drop-Dropped_example =
    fuse_ticket_drop-Dropped tun kernel busy busy-WellFormed (omega arith) 3 used

abbrev pub request : Dispatcher
request = record { ticket = none; iosize = 24; answer_errno = 0; answer = [] }

abbrev dead : FuseData
dead = record busy { dead = true }

dead-WellFormed : WellFormed dead
dead-WellFormed = kill-WellFormed busy busy-WellFormed

abbrev pub asking : Dispatcher
asking = record request { ticket = some 3 }

fuse_dispatcher_wait_answer-dead_example :
    Ensures kernel
      (λ r e. (r.1 ≡ enotconn) × Dropped dead 3 e)
      (fuse_dispatcher_wait_answer tun kernel asking dead)
fuse_dispatcher_wait_answer-dead_example =
    fuse_dispatcher_wait_answer-dead tun kernel dead 3 ticket asking refl refl refl refl refl
      dead-WellFormed (omega arith) (record { here = refl; apart = count-nil 3 })
