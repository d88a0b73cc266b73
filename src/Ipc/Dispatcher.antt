-- ===== src/Ipc/Dispatcher.antt =====
-- fuse_ipc.c: building a request in a ticket and queueing it; `struct fuse_dispatcher`.
pub mod Make
use kext.Prelude.{
  ℕ, ◌+◌, ◌%◌, ◌^◌, true, Option, none, some, List, [], ◌∷◌, ◌++◌, ◌==◌, if◌then◌else◌,
}
use kext.Opcode.{Opcode}
use kext.Iov.{Tunables, fiov_adjust, fiov_adjust_canfail}
use kext.Ipc.State.{InHeader, Ticket, Callback, Cred, Kernel, sizeof_in_header}
use kext.Ipc.Monad.{M, pure, fail, ◌>>=◌, ◌>>◌, get, modify, load, store, or_panic}
use kext.Ipc.Tickets.{fuse_ticket_refresh, fuse_ticket_fetch, fuse_ticket_kill}

-- `struct fuse_dispatcher`. The pointers `finh` and `indata` point into the ticket's buffer.
pub record Dispatcher : Type 0 where
  pub ticket : Option ℕ
  pub iosize : ℕ
  pub answer_errno : ℕ
  pub answer : List ℕ

unfoldable pub fuse_dispatcher_init : Dispatcher → ℕ → Dispatcher
fuse_dispatcher_init dispatcher iosize = record dispatcher { iosize = iosize; ticket = none }

-- A null context stands for the current process.
abbrev pub cred_of : Cred → Option Cred → Cred
cred_of self none = self
cred_of self (some context) = context

unfoldable pub fuse_setup_ihead : Cred → Ticket → ℕ → Opcode → ℕ → Option Cred → InHeader
fuse_setup_ihead self ticket nid op blen context = record {
  len = (sizeof_in_header + blen) % 2 ^ 32;
  opcode = op;
  unique = ticket.unique;
  nodeid = nid;
  uid = (cred_of self context).uid;
  gid = (cred_of self context).gid;
  pid = (cred_of self context).pid;
}

-- A dead device takes no callback.
unfoldable pub fuse_insert_callback : ℕ → Callback → M (Unit {0})
fuse_insert_callback p callback = do
  d ← get
  t ← load p
  if d.dead then pure tt else (do
    store p (record t { aw_callback = some callback })
    modify λ e. record e { aw_head = e.aw_head ++ p ∷ [] })

-- Panics on a ticket that was used and not refreshed. A dead device takes no message.
unfoldable pub fuse_insert_message : ℕ → M (Unit {0})
fuse_insert_message p = do
  d ← get
  t ← load p
  if t.dirty then fail else (do
    store p (record t { dirty = true })
    if d.dead then pure tt else modify λ e. record e { ms_head = e.ms_head ++ p ∷ [] })

module _ (tun : Tunables) (k : Kernel) where
  -- The dispatcher's own ticket, cleared, or one from the free list.
  unfoldable pub dispatcher_ticket : Option ℕ → M ℕ
  unfolding fuse_ticket_refresh fuse_ticket_fetch
  dispatcher_ticket none = fuse_ticket_fetch tun k
  dispatcher_ticket (some p) = do fuse_ticket_refresh tun k p; pure p

  unfoldable pub fuse_dispatcher_make :
      Dispatcher → Opcode → (nid : ℕ) → (context : Option Cred) → M Dispatcher
  unfolding dispatcher_ticket fiov_adjust fuse_setup_ihead
  fuse_dispatcher_make dispatcher op nid context = do
    p ← dispatcher_ticket dispatcher.ticket
    t ← load p
    ms ← or_panic (fiov_adjust tun k.malloc t.ms_fiov (sizeof_in_header + dispatcher.iosize))
    store p (record t {
      ms_fiov = ms;
      ms_header = fuse_setup_ihead k.self t nid op dispatcher.iosize context;
    })
    pure (record dispatcher { ticket = some p })

  -- The dispatcher, and 0 or ENOMEM: then the ticket is gone, and the dispatcher still names it.
  unfoldable pub fuse_dispatcher_make_canfail :
      Dispatcher → Opcode → (nid : ℕ) → (context : Option Cred) → M (Dispatcher × ℕ)
  unfolding dispatcher_ticket fiov_adjust_canfail fuse_setup_ihead fuse_ticket_kill
  fuse_dispatcher_make_canfail dispatcher op nid context = do
    p ← dispatcher_ticket dispatcher.ticket
    t ← load p
    let (ms, failed) =
        fiov_adjust_canfail tun k.malloc t.ms_fiov (sizeof_in_header + dispatcher.iosize)
    store p (record t { ms_fiov = ms })
    if failed == 0
        then (do
          store p (record t {
            ms_fiov = ms;
            ms_header = fuse_setup_ihead k.self t nid op dispatcher.iosize context;
          })
          pure (record dispatcher { ticket = some p }, 0))
        else (do fuse_ticket_kill p; pure (record dispatcher { ticket = some p }, failed))

  unfoldable pub fuse_internal_forget_send :
      (context : Option Cred) (nodeid nlookup : ℕ) → Dispatcher → M (Unit {0})
  unfolding fuse_dispatcher_init fuse_dispatcher_make fuse_insert_message
  fuse_internal_forget_send context nodeid nlookup dispatcher = do
    made ← fuse_dispatcher_make (fuse_dispatcher_init dispatcher 8) Opcode.forget nodeid context
    p ← or_panic made.ticket
    t ← load p
    store p (record t { invalid = true })
    fuse_insert_message p

  unfoldable pub fuse_internal_interrupt_send : ℕ → M (Unit {0})
  unfolding fuse_dispatcher_init fuse_dispatcher_make fuse_insert_message
  fuse_internal_interrupt_send p = do
    t ← load p
    made ←
        fuse_dispatcher_make
          (fuse_dispatcher_init
            (record { ticket = some p; iosize = 0; answer_errno = 0; answer = [] }) 8)
          Opcode.interrupt 0 none
    q ← or_panic made.ticket
    u ← load q
    store q (record u { invalid = true })
    fuse_insert_message q
