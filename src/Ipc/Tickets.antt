-- ===== src/Ipc/Tickets.antt =====
-- fuse_ipc.c: the life of a ticket, and the queues of the free and of all tickets.
-- The counters of fuse_sysctl.c that only report (fuse_tickets_current and the like) are left out.
use kext.Prelude.{
  ℕ, suc, ◌+◌, ◌-◌, ◌%◌, ◌^◌, Bool, true, false, ◌&&◌, ◌||◌, not, Option, none, some, List, [], ◌∷◌,
  ◌++◌, ltb, leb, ◌==◌, if◌then◌else◌, remove,
}
use kext.Iov.{Tunables, Iov, fiov_init, fiov_refresh}
use kext.Ipc.State.{
  InHeader, zero_in_header, zero_out_header, sizeof_in_header, ft_m_fiov, ft_a_fiov, Ticket, Kernel,
  fu_ini,
}
use kext.Ipc.Monad.{
  M, pure, fail, ◌>>=◌, ◌>>◌, get, modify, load, store, release_memory, or_panic, sleep,
}

-- A ticket as `fuse_ticket_alloc` leaves it, with its two buffers.
abbrev pub new_ticket : ℕ → Iov → Iov → Ticket
new_ticket unique ms aw = record {
  unique = unique;
  answered = false;
  invalid = false;
  dirty = false;
  killed = false;
  ms_fiov = ms;
  ms_header = zero_in_header;
  ms_read_size = 0;
  ms_bufdata = none;
  ms_bufsize = 0;
  ms_type = ft_m_fiov;
  aw_fiov = aw;
  aw_body = [];
  aw_bufdata = [];
  aw_bufsize = 0;
  aw_type = ft_a_fiov;
  aw_ohead = zero_out_header;
  aw_errno = 0;
  aw_callback = none;
}

-- The message after `bzero` of the first `len` bytes: the header, and the `size` of a request to
-- read, which stands at bytes 56 to 59.
abbrev pub cleared_header : ℕ → InHeader → InHeader
cleared_header len h = if leb sizeof_in_header len then zero_in_header else h

abbrev pub cleared_size : ℕ → ℕ → ℕ
cleared_size len size = if leb 60 len then 0 else size

abbrev pub refreshed : Ticket → Iov → Iov → Ticket
refreshed t ms aw = record t {
  ms_fiov = ms;
  ms_header = cleared_header t.ms_fiov.len t.ms_header;
  ms_read_size = cleared_size t.ms_fiov.len t.ms_read_size;
  ms_bufdata = none;
  ms_bufsize = 0;
  ms_type = ft_m_fiov;
  aw_ohead = zero_out_header;
  aw_fiov = aw;
  aw_body = [];
  aw_errno = 0;
  aw_bufdata = [];
  aw_bufsize = 0;
  aw_type = ft_a_fiov;
  answered = false;
  invalid = false;
  dirty = false;
  killed = false;
}

unfoldable pub fuse_push_freeticks : ℕ → M (Unit {0})
fuse_push_freeticks p = modify λ d. record d {
  freetickets_head = d.freetickets_head ++ p ∷ [];
  freeticket_counter = (d.freeticket_counter + 1) % 2 ^ 32;
}

-- Unlink the first free ticket, if there is one, then check the counter of an empty list.
unfoldable pub pop_first : List ℕ → M (Option ℕ)
pop_first [] = do d ← get; if d.freeticket_counter == 0 then pure none else fail
pop_first (p ∷ rest) = do
  d ← get
  let counter = (d.freeticket_counter + 2 ^ 32 - 1) % 2 ^ 32
  modify λ e. record e { freetickets_head = rest; freeticket_counter = counter }
  elim rest [ [] ↦ (if counter == 0 then pure (some p) else fail) | _ ∷ _ ↦ pure (some p) ]

unfoldable pub fuse_pop_freeticks : M (Option ℕ)
unfolding pop_first
fuse_pop_freeticks d = pop_first d.freetickets_head d

unfoldable pub fuse_push_allticks : ℕ → M (Unit {0})
fuse_push_allticks p = modify λ d. record d { alltickets_head = d.alltickets_head ++ p ∷ [] }

unfoldable pub fuse_remove_allticks : ℕ → M (Unit {0})
fuse_remove_allticks p = modify λ d. record d {
  deadticket_counter = (d.deadticket_counter + 1) % 2 ^ 32;
  alltickets_head = remove p d.alltickets_head;
}

-- The first of all tickets, unlinked.
unfoldable pub pop_all : List ℕ → M (Option ℕ)
unfolding fuse_remove_allticks
pop_all [] = pure none
pop_all (p ∷ rest) = do fuse_remove_allticks p; pure (some p)

unfoldable pub fuse_pop_allticks : M (Option ℕ)
unfolding pop_all
fuse_pop_allticks d = pop_all d.alltickets_head d

-- Wakeups change no state of the model.
unfoldable pub fuse_data_kill : M Bool
fuse_data_kill = do
  d ← get
  if d.dead then pure false else (do modify λ e. record e { dead = true }; pure true)

unfoldable pub fuse_ticket_destroy : ℕ → M (Unit {0})
fuse_ticket_destroy p = do t ← load p; release_memory p

unfoldable pub fuse_ticket_kill : ℕ → M (Unit {0})
unfolding fuse_remove_allticks fuse_ticket_destroy
fuse_ticket_kill p = do t ← load p; fuse_remove_allticks p; fuse_ticket_destroy p

module _ (tun : Tunables) (k : Kernel) where
  unfoldable pub fuse_ticket_alloc : M ℕ
  fuse_ticket_alloc = do
    d ← get
    if k.ticket_memory
        then (do
          ms ← or_panic (fiov_init tun k.malloc sizeof_in_header)
          aw ← or_panic (fiov_init tun k.malloc 0)
          modify λ e. record e {
            ticketer = (e.ticketer + 1) % 2 ^ 64;
            heap = (λ q. if e.brk == q then some (new_ticket e.ticketer ms aw) else e.heap q);
            brk = suc e.brk;
          }
          pure d.brk)
        else fail

  unfoldable pub fuse_ticket_refresh : ℕ → M (Unit {0})
  fuse_ticket_refresh p = do
    t ← load p
    ms ← or_panic (fiov_refresh tun k.malloc t.ms_fiov)
    aw ← or_panic (fiov_refresh tun k.malloc t.aw_fiov)
    store p (refreshed t ms aw)

  -- The ticket that `fuse_ticket_fetch` returns: a new one, or the oldest free one.
  unfoldable pub obtain : M ℕ
  unfolding fuse_ticket_alloc fuse_push_allticks fuse_pop_freeticks
  obtain = do
    d ← get
    if d.freeticket_counter == 0
        then (do p ← fuse_ticket_alloc; fuse_push_allticks p; pure p)
        else (do o ← fuse_pop_freeticks; or_panic o)

  -- The wait for the handshake, or the limit on tickets; the result is `err`.
  unfoldable pub await_turn : M ℕ
  await_turn = do
    d ← get
    if not d.inited && ltb 1 d.ticketer
        then sleep (k.msleep fu_ini)
        else pure (
            if not (tun.max_tickets == 0)
              && ltb tun.max_tickets ((d.ticketer + 2 ^ 64 - d.deadticket_counter) % 2 ^ 64)
            then 1
            else 0)

  unfoldable pub fuse_ticket_fetch : M ℕ
  unfolding obtain await_turn fuse_data_kill
  fuse_ticket_fetch = do
    p ← obtain
    err ← await_turn
    if err == 0 then pure p else (do _ ← fuse_data_kill; pure p)

  unfoldable pub fuse_ticket_drop : ℕ → M (Unit {0})
  unfolding fuse_remove_allticks fuse_ticket_destroy fuse_ticket_refresh fuse_push_freeticks
  fuse_ticket_drop p = do
    d ← get
    t ← load p
    if leb tun.max_freetickets d.freeticket_counter || t.killed
        then (do fuse_remove_allticks p; fuse_ticket_destroy p)
        else (do fuse_ticket_refresh p; fuse_push_freeticks p)

  unfoldable pub fuse_ticket_drop_invalid : ℕ → M (Unit {0})
  unfolding fuse_ticket_drop
  fuse_ticket_drop_invalid p = do t ← load p; if t.invalid then fuse_ticket_drop p else pure tt
