-- ===== src/Ipc/Dispatcher/Make.antt =====
-- The request that `fuse_dispatcher_make` builds.
use kext.Prelude.{ℕ, ◌+◌, ◌%◌, ◌^◌, ◌<◌, ◌≡◌, refl, Option, none, some, arith}
use kext.Opcode.{Opcode}
use kext.Iov.{Tunables, Iov, fu_at_least, fiov_adjust}
use kext.Iov.Bounds.{Fits, fiov_adjust-Fits}
use kext.Ipc.State.{FuseData, Ticket, Kernel, Cred, sizeof_in_header}
use kext.Ipc.Monad.{update}
use kext.Ipc.Ensures.{Ensures, HasMemory, Ensures-bind, Ensures-load, Ensures-or_panic}
use kext.Ipc.WellFormed.{InUse, IsClean, WellFormed}
use kext.Ipc.WellFormed.Fetch.{IsPolite, Fetched, fuse_ticket_fetch-Fetched}
use kext.Ipc.WellFormed.Store.{Keeps, stored-WellFormed, stored-InUse}
use kext.Ipc.Dispatcher.{Dispatcher, dispatcher_ticket, fuse_dispatcher_make, fuse_setup_ihead}

-- A request: in use, without marks, its message as long as the header says, the header naming the
-- ticket, the operation, the node and the sender.
pub record Request (op : Opcode) (nid size : ℕ) (t : Ticket) : Type 0 where
  pub clean : IsClean t
  pub unique : t.ms_header.unique ≡ t.unique
  pub opcode : t.ms_header.opcode ≡ op
  pub nodeid : t.ms_header.nodeid ≡ nid
  pub len : t.ms_header.len ≡ sizeof_in_header + size
  pub ms_len : t.ms_fiov.len ≡ t.ms_header.len

pub record Made (op : Opcode) (nid size : ℕ) (made : Dispatcher) (e : FuseData) : Type 0 where
  pub p : ℕ
  pub t : Ticket
  pub names : made.ticket ≡ some p
  pub well : WellFormed e
  pub used : InUse e p
  pub here : e.heap p ≡ some t
  pub request : Request op nid size t

adjust_fails :
    (tun : Tunables) (k : Kernel) (f : Iov) (size : ℕ)
    → fiov_adjust tun k.malloc f size ≡ none
    → ¬ HasMemory k
unfolding fiov_adjust
adjust_fails tun k f size e m = ground (arith, m.buffers (fu_at_least size % 2 ^ 32))

module _ (tun : Tunables) (k : Kernel) (d : FuseData) (polite : IsPolite tun k d) (op : Opcode)
    (nid : ℕ) (context : Option Cred) where
  -- For a dispatcher without a ticket, on a state that meets the invariant and has numbered fewer
  -- than 2^32 - 1 tickets, with a request body below 2^32 - 40 bytes, and if the threads that run
  -- during the wait for the handshake keep the invariant and leave the ticket alone that this thread
  -- has obtained for its request: `fuse_dispatcher_make` touches no freed ticket and
  -- panics only where an allocation fails; the invariant holds, and the ticket is in use and holds
  -- the request, with a header that names it and gives the length of the message.
  pub fuse_dispatcher_make-Made :
      (disp : Dispatcher)
      → disp.ticket ≡ none
      → WellFormed d
      → d.ticketer + 1 < 2 ^ 32
      → disp.iosize + sizeof_in_header < 2 ^ 32
      → Ensures k (Made op nid disp.iosize) (fuse_dispatcher_make tun k disp op nid context d)
  unfolding fuse_dispatcher_make dispatcher_ticket
  fuse_dispatcher_make-Made disp new w few small = rw new (
      Ensures-bind k Fetched Q _ _ (fuse_ticket_fetch-Fetched tun k d polite w few) λ p e f.
        Ensures-load k Q e p _ f.used.here λ t here.
          Ensures-or_panic k Q e
            (fiov_adjust tun k.malloc t.ms_fiov (sizeof_in_header + disp.iosize)) _
            (adjust_fails tun k t.ms_fiov _)
            λ ms g. finish e p t ms f here (
              fiov_adjust-Fits tun k.malloc t.ms_fiov (sizeof_in_header + disp.iosize)
                (f.well.fitting p t here).0 (omega arith) g))
    where
      Q : Dispatcher → FuseData → Type 0
      Q = Made op nid disp.iosize

      filled : Ticket → Iov → Ticket
      filled t ms = record t {
        ms_fiov = ms;
        ms_header = fuse_setup_ihead k.self t nid op disp.iosize context;
      }

      finish :
          (e : FuseData) (p : ℕ) (t : Ticket) (ms : Iov)
          → Fetched p e
          → e.heap p ≡ some t
          → Fits ms × (ms.len ≡ sizeof_in_header + disp.iosize)
          → Q
              (record disp { ticket = some p })
              (record e { heap = update e.heap p (some (filled t ms)) })
      finish e p t ms f here fits = record {
        p = p;
        t = filled t ms;
        names = refl;
        well = stored-WellFormed e p t (filled t ms) f.well f.used here keeps;
        used = stored-InUse e p t (filled t ms) f.well f.used here keeps;
        here = ground arith;
        request = record {
          clean = record {
            answered = c.answered;
            invalid = c.invalid;
            dirty = c.dirty;
            killed = c.killed;
          };
          unique = refl;
          opcode = refl;
          nodeid = refl;
          len = omega arith;
          ms_len = omega (arith, fits.1);
        };
      }
        where
          c : IsClean t
          c = f.clean t here

          keeps : Keeps t (filled t ms)
          keeps = record { unique = refl; ms_fits = fits.0; aw_fits = (f.well.fitting p t here).1 }
