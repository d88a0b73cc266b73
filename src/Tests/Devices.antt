-- ===== src/Tests/Devices.antt =====
-- The theorems on devices, their queues and their data.
use kext.Prelude.{
  ◌<◌, ◌≡◌, refl, true, some, none, arith, count, [], ◌∷◌, pos, inl, count-cons, count-nil, false,
  ◌⊎◌,
}
use kext.Errno.{eagain, enotconn}
use kext.Ipc.State.{Kernel, FuseData}
use kext.Ipc.Ensures.{Ensures}
use kext.Ipc.Monad.{done, fault, update}
use kext.Device.Lifecycle.{
  FuseDevice, fuse_data_destroy, fuse_reject_answers, Process, fuse_device_kill,
}
use kext.Device.Lifecycle.Tickets.{
  Tidy, Rejected, fuse_reject_answers-Rejected, fuse_data_destroy-frees, Emptied,
}
use kext.Device.Lifecycle.Closing.{Returns}
use kext.Device.Lifecycle.Ownership.{Consistent, call, closes, call-Consistent}
use kext.Device.Table.{DeviceTable, fresh_device, fuse_devices_stop}
use kext.Device.Table.Stop.{AllIdle, fuse_devices_stop-AllIdle}
use kext.Device.Lifecycle.Kill.{KillResult, fuse_device_kill-Returns}
use kext.Device.Dangling.{timeout_dangles}
use kext.Ipc.Wait.{fuse_dispatcher_wait_answer}
use kext.RoundTrip.{IsFresh}
use kext.Tests.{no_freetickets, kernel, idle, busy, ticket}
use kext.Tests.Tickets.{busy-WellFormed, asking}

-- The ticket waits for its answer.
abbrev waiting : FuseData
waiting = record busy { aw_head = 3 ∷ [] }

waiting-Tidy : Tidy waiting
waiting-Tidy = record {
  well = record {
    owned = busy-WellFormed.owned;
    free_owned = busy-WellFormed.free_owned;
    counted = refl;
    fresh = busy-WellFormed.fresh;
    balance = refl;
    numbered = busy-WellFormed.numbered;
    distinct = busy-WellFormed.distinct;
    clean = busy-WellFormed.clean;
    fitting = busy-WellFormed.fitting;
  };
  queued =
      λ a c. record { here = ground (arith, count-cons a 3 [], count-nil a); apart = count-nil a };
}

fuse_reject_answers-Rejected_example :
    Ensures kernel
      (λ _ e. Rejected waiting (3 ∷ []) e × (e.aw_head ≡ []))
      (fuse_reject_answers waiting)
fuse_reject_answers-Rejected_example = fuse_reject_answers-Rejected kernel waiting waiting-Tidy

fuse_data_destroy-frees_example : Ensures kernel (Emptied kernel) (fuse_data_destroy busy)
fuse_data_destroy-frees_example = fuse_data_destroy-frees kernel busy busy-WellFormed

abbrev device : FuseDevice
device = record { usecount = pos 1; pid = pos 9; content = some waiting }

call-Consistent_example : Returns Consistent (call (closes 0) device)
call-Consistent_example = call-Consistent (closes 0) device (inl (refl, refl)) waiting-Tidy refl

-- Two requests are queued.
abbrev queued : FuseData
queued = record idle {
  ms_head = 3 ∷ 4 ∷ [];
  heap = update (update (λ a. none) 3 (some ticket)) 4 (some (record ticket { unique = 2 }));
}

-- The thread wakes by the timeout, and nothing has happened.
abbrev slow : Kernel
slow = record kernel { msleep = λ c d. (eagain, d) }

pub fresh : IsFresh ticket
fresh = record { dirty = refl; answered = refl; into_fiov = refl; no_body = refl; no_len = refl }

timeout_dangles_example :
    (e : FuseData) × (fuse_dispatcher_wait_answer no_freetickets slow asking busy
      ≡ done (record asking { answer_errno = 0 }, enotconn) e)
    × (e.heap 3 ≡ none)
    × (0 < count 3 e.aw_head)
    × (fuse_reject_answers e ≡ fault)
timeout_dangles_example =
    timeout_dangles no_freetickets slow busy 3 ticket asking refl fresh refl refl (omega arith) refl

abbrev table : DeviceTable
table = record { available = true; started = true; devices = fresh_device ∷ device ∷ [] }

fuse_devices_stop-AllIdle_example :
    (((fuse_devices_stop table).1 ≡ true)
      × AllIdle table.devices
      × ((fuse_devices_stop table).0.available ≡ false)
      × ((fuse_devices_stop table).0.started ≡ false))
    ⊎ (((fuse_devices_stop table).1 ≡ false)
        × (¬ AllIdle table.devices)
        × ((fuse_devices_stop table).0 ≡ table))
fuse_devices_stop-AllIdle_example = fuse_devices_stop-AllIdle table refl

-- A process of the daemon's user and group.
abbrev killer : Process
killer = record { pid = 11; uid = 501; gid = 20 }

fuse_device_kill-Returns_example :
    Returns (KillResult device waiting killer) (fuse_device_kill (pos 0) device (some killer))
fuse_device_kill-Returns_example =
    fuse_device_kill-Returns 0 device waiting killer (omega arith) refl waiting-Tidy
