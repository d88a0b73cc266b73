-- ===== src/Tests/Handshake.antt =====
-- The theorems on new requests, on a device whose handshake is not over: while the thread sleeps, the
-- answer to the first request arrives, and its callback drops the ticket of that request.
use kext.Prelude.{
  ℕ, ◌≡◌, refl, ap, none, arith, true, false, [], ◌∷◌, ◌^◌, ◌<◌, count, count-cons, count-nil,
}
use mathlib.Core.Path.{subst}
use kext.Opcode.{Opcode}
use kext.Iov.{fiov_init, fiov_refresh}
use kext.Ipc.State.{FuseData, Kernel}
use kext.Ipc.Monad.{Run, done, panic, fault}
use kext.Ipc.Ensures.{live, Ensures, HasMemory}
use kext.Ipc.WellFormed.{WellFormed, InUse}
use kext.Ipc.WellFormed.Fetch.{IsPolite, Fetched, fuse_ticket_fetch-Fetched}
use kext.Ipc.WellFormed.Drop.{Dropped, fuse_ticket_drop-Dropped}
use kext.Ipc.Tickets.{obtain, fuse_ticket_fetch, fuse_ticket_drop}
use kext.Ipc.Dispatcher.{fuse_dispatcher_make}
use kext.Ipc.Dispatcher.Make.{Made, fuse_dispatcher_make-Made}
use kext.Tests.{tun, kernel, busy}
use kext.Tests.Tickets.{busy-WellFormed, request}

-- The state that a run leaves.
abbrev left_by : {A : Type 0} → FuseData → Run A → FuseData
left_by d (done _ e) = e
left_by d panic = d
left_by d fault = d

-- The ticket at address 3 is that of the handshake.
abbrev starting : FuseData
starting = record busy { inited = false }

-- What the thread with the answer does.
abbrev shaken : FuseData → Run (Unit {0}) → FuseData
shaken e r = record (left_by e r) { inited = true }

abbrev handshaking : Kernel
handshaking = record kernel { msleep = λ c e. (0, shaken e (fuse_ticket_drop tun kernel 3 e)) }

inited-WellFormed : (b : FuseData) → WellFormed b → WellFormed (record b { inited = true })
inited-WellFormed d w = record {
  owned = w.owned;
  free_owned = w.free_owned;
  counted = w.counted;
  fresh = w.fresh;
  balance = w.balance;
  numbered = w.numbered;
  distinct = w.distinct;
  clean = w.clean;
  fitting = w.fitting;
}

starting-WellFormed : WellFormed starting
starting-WellFormed = record {
  owned = busy-WellFormed.owned;
  free_owned = busy-WellFormed.free_owned;
  counted = refl;
  fresh = busy-WellFormed.fresh;
  balance = refl;
  numbered = busy-WellFormed.numbered;
  distinct = busy-WellFormed.distinct;
  clean = busy-WellFormed.clean;
  fitting = busy-WellFormed.fitting;
}

memory : HasMemory kernel
memory = record { buffers = λ n. refl; tickets = refl }

shaken-WellFormed :
    (e : FuseData) (r : Run (Unit {0}))
    → Ensures kernel (λ _ f. Dropped e 3 f) r
    → WellFormed (shaken e r)
shaken-WellFormed e (done _ f) h = inited-WellFormed f h.well
shaken-WellFormed e panic h = absurd (h memory)
shaken-WellFormed e fault h = absurd h

-- The state in which the thread sleeps.
abbrev asleep : FuseData
asleep = left_by starting (obtain tun handshaking starting)

asleep-InUse : InUse asleep 3
unfolding obtain fiov_init
asleep-InUse = record { here = refl; apart = count-nil 3 }

few : asleep.ticketer < 2 ^ 32
unfolding obtain fiov_init
few = omega arith

abbrev after : FuseData → FuseData
after e = shaken e (fuse_ticket_drop tun kernel 3 e)

after-WellFormed : WellFormed asleep → WellFormed (after asleep)
after-WellFormed w =
    shaken-WellFormed asleep (fuse_ticket_drop tun kernel 3 asleep)
      (fuse_ticket_drop-Dropped tun kernel asleep w few 3 asleep-InUse)

abbrev address : Run ℕ → ℕ
address (done p e) = p
address panic = 0
address fault = 0

polite : IsPolite tun handshaking starting
unfolding obtain fiov_init fuse_ticket_drop fiov_refresh
polite = record {
  keeps = λ p e got.
      subst (λ x. WellFormed x → WellFormed (after x)) (ap (left_by starting) got) after-WellFormed;
  spares = λ p e got u. record {
    here = subst (λ r. live ((after (left_by starting r)).heap (address r)) ≡ 1) got refl;
    apart =
        subst (λ r. count (address r) (after (left_by starting r)).freetickets_head ≡ 0) got apart;
  };
  ticket = λ p e got u.
      subst
        (λ r. (after (left_by starting r)).heap (address r) ≡ (left_by starting r).heap (address r))
        got refl;
}
  where
    apart : count 4 (3 ∷ []) ≡ 0
    apart = ground (arith, count-cons 4 3 [], count-nil 4)

-- The ticket of the handshake is dropped meanwhile: in the end it is free.
dropped_meanwhile :
    (left_by starting (fuse_ticket_fetch tun handshaking starting)).freetickets_head ≡ 3 ∷ []
unfolding fuse_ticket_fetch obtain fiov_init fuse_ticket_drop fiov_refresh
dropped_meanwhile = refl

fuse_ticket_fetch-Fetched_example :
    Ensures handshaking Fetched (fuse_ticket_fetch tun handshaking starting)
fuse_ticket_fetch-Fetched_example =
    fuse_ticket_fetch-Fetched tun handshaking starting polite starting-WellFormed (omega arith)

fuse_dispatcher_make-Made_example :
    Ensures handshaking
      (Made Opcode.read 5 24)
      (fuse_dispatcher_make tun handshaking request Opcode.read 5 none starting)
fuse_dispatcher_make-Made_example =
    fuse_dispatcher_make-Made tun handshaking starting polite Opcode.read 5 none request refl
      starting-WellFormed (omega arith) (omega arith)
