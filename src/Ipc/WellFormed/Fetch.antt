-- ===== src/Ipc/WellFormed/Fetch.antt =====
-- `fuse_ticket_fetch`, and the invariant.
use kext.Prelude.{
  ℕ, suc, ◌+◌, ◌-◌, ◌%◌, ◌^◌, ◌≤◌, ◌<◌, ◌≡◌, refl, ap, sym, ◌∙◌, true, false, ◌&&◌, not, none, some,
  List, [], ◌∷◌, ◌++◌, arith, ltb, ◌==◌, if◌then◌else◌, length, length-le-of_count, count,
  count_self, count-append, count-cons, count-nil, length-append,
}
use kext.Iov.{Tunables, Iov, fu_at_least, fiov_init}
use kext.Iov.Bounds.{Fits, fiov_init-Fits}
use kext.Ipc.State.{FuseData, Ticket, Kernel, fu_ini, sizeof_in_header}
use kext.Ipc.Monad.{done, ◌>>=◌, or_panic}
use kext.Ipc.Ensures.{
  Ensures, HasMemory, Ensures-bind, Ensures-if, Ensures-or_panic, Ensures-remember,
}
use kext.Ipc.Tickets.{
  new_ticket, obtain, fuse_ticket_alloc, pop_first, await_turn, fuse_ticket_fetch, fuse_data_kill,
}
use kext.Ipc.WellFormed.{IsClean, InUse, WellFormed, kill-WellFormed}

-- The state after `fuse_ticket_alloc`.
abbrev with_ticket : FuseData → Iov → Iov → FuseData
with_ticket d ms aw = record d {
  ticketer = (d.ticketer + 1) % 2 ^ 64;
  heap = (λ q. if d.brk == q then some (new_ticket d.ticketer ms aw) else d.heap q);
  brk = suc d.brk;
}

-- The state after `fuse_ticket_alloc` and `fuse_push_allticks`.
abbrev allocated : FuseData → Iov → Iov → FuseData
allocated d ms aw = record (with_ticket d ms aw) {
  alltickets_head = d.alltickets_head ++ d.brk ∷ [];
}

record Allocated (d : FuseData) (p : ℕ) (e : FuseData) : Type 0 where
  ms : Iov
  aw : Iov
  ms_fits : Fits ms
  aw_fits : Fits aw
  address : p ≡ d.brk
  state : e ≡ with_ticket d ms aw

init_fails :
    (tun : Tunables) (k : Kernel) (size : ℕ) → fiov_init tun k.malloc size ≡ none → ¬ HasMemory k
unfolding fiov_init
init_fails tun k size e m = ground (arith, m.buffers (fu_at_least size % 2 ^ 32))

-- The state after `fuse_pop_freeticks`.
abbrev popped : FuseData → List ℕ → FuseData
popped d rest = record d {
  freetickets_head = rest;
  freeticket_counter = (d.freeticket_counter + 2 ^ 32 - 1) % 2 ^ 32;
}

-- A ticket that `obtain` has taken: it is in use and clean, and the queues of messages and answers
-- are as before.
pub record Obtained (d : FuseData) (p : ℕ) (e : FuseData) : Type 0 where
  pub well : WellFormed e
  pub used : InUse e p
  pub clean : (t : Ticket) → e.heap p ≡ some t → IsClean t
  pub messages : e.ms_head ≡ d.ms_head
  pub answers : e.aw_head ≡ d.aw_head
  pub dead : e.dead ≡ d.dead

module _ (d : FuseData) (w : WellFormed d) (few : d.ticketer + 1 < 2 ^ 32) where
  open w use {owned, free_owned, counted, fresh, balance, numbered, distinct, clean, fitting}

  allocated-WellFormed : (ms aw : Iov) → Fits ms → Fits aw → WellFormed (allocated d ms aw)
  allocated-WellFormed ms aw fm fa = record {
    owned = λ a. ground (
      arith,
      owned a,
      fresh a,
      count-append a d.alltickets_head (d.brk ∷ []),
      count-cons a d.brk [],
      count-nil a,
    );
    free_owned = λ a. ground (arith, free_owned a, fresh a);
    counted = counted;
    fresh = λ a h. ground (arith, fresh a);
    balance = omega (arith, balance, length-append d.alltickets_head (d.brk ∷ []));
    numbered = λ a t e. ground (arith, numbered a t);
    distinct = λ a b t u e f g. ground (arith, distinct a b t u, numbered a t, numbered b u);
    clean = λ a t c e. ground (arith, clean a t, free_owned d.brk, fresh d.brk);
    fitting = λ a t e. ground (arith, fitting a t);
  }

  allocated-Obtained : (ms aw : Iov) → Fits ms → Fits aw → Obtained d d.brk (allocated d ms aw)
  allocated-Obtained ms aw fm fa = record {
    well = allocated-WellFormed ms aw fm fa;
    used = record { here = ground arith; apart = ground (arith, free_owned d.brk, fresh d.brk) };
    clean = λ t e. ground arith;
    messages = refl;
    answers = refl;
    dead = refl;
  }

  free_few : length d.freetickets_head < 2 ^ 32
  free_few = omega (
    arith,
    balance,
    length-le-of_count d.freetickets_head d.alltickets_head
        (λ a. omega (arith, owned a, free_owned a)),
  )

  module _ (p : ℕ) (rest : List ℕ) (e : d.freetickets_head ≡ p ∷ rest) where
    rest-le : (a : ℕ) → count a rest ≤ count a d.freetickets_head
    rest-le a = rw e (omega (arith, count-cons a p rest))

    popped-WellFormed : WellFormed (popped d rest)
    popped-WellFormed = record {
      owned = owned;
      free_owned = λ a. omega (arith, free_owned a, rest-le a);
      counted = omega (arith, counted, free_few, ap length e);
      fresh = fresh;
      balance = balance;
      numbered = numbered;
      distinct = distinct;
      clean = λ a t c h. clean a t (omega (arith, rest-le a)) h;
      fitting = fitting;
    }

    linked : count p d.freetickets_head ≡ suc (count p rest)
    linked = rw e (count_self p rest)

    popped-Obtained : Obtained d p (popped d rest)
    popped-Obtained = record {
      well = popped-WellFormed;
      used = record {
        here = ground (arith, free_owned p, linked);
        apart = ground (arith, free_owned p, linked);
      };
      clean = λ t h. clean p t (omega (arith, linked)) h;
      messages = refl;
      answers = refl;
      dead = refl;
    }

    -- The counter's check in `fuse_pop_freeticks` passes.
    pop_first_lem : pop_first (p ∷ rest) d ≡ done (some p) (popped d rest)
    unfolding pop_first
    pop_first_lem = ground (arith, counted, free_few, ap length e)

  module _ (tun : Tunables) (k : Kernel) where
    fuse_ticket_alloc-Ensures : Ensures k (Allocated d) (fuse_ticket_alloc tun k d)
    unfolding fuse_ticket_alloc
    fuse_ticket_alloc-Ensures =
        Ensures-if k (Allocated d) d k.ticket_memory _ _
          (λ room.
            Ensures-or_panic k (Allocated d) d (fiov_init tun k.malloc sizeof_in_header) _
              (init_fails tun k _)
              λ ms e.
                Ensures-or_panic k (Allocated d) d (fiov_init tun k.malloc 0) _ (init_fails tun k _)
                  λ aw f. record {
                    ms = ms;
                    aw = aw;
                    ms_fits = (fiov_init-Fits tun k.malloc sizeof_in_header (omega arith) e).0;
                    aw_fits = (fiov_init-Fits tun k.malloc 0 (omega arith) f).0;
                    address = refl;
                    state = refl;
                  })
          (λ full m. ground (arith, m.tickets))

    obtain-Ensures : Ensures k (Obtained d) (obtain tun k d)
    unfolding obtain
    obtain-Ensures =
        Ensures-if k (Obtained d) d (d.freeticket_counter == 0) _ _
          (λ none_free.
            Ensures-bind k (Allocated d) (Obtained d) (fuse_ticket_alloc tun k d) _
              fuse_ticket_alloc-Ensures
              λ p e h. rw (h.address, h.state) (allocated-Obtained h.ms h.aw h.ms_fits h.aw_fits))
          (λ some_free. reuse some_free d.freetickets_head refl)
      where
        reuse :
            (d.freeticket_counter == 0) ≡ false
            → (xs : List ℕ) → d.freetickets_head ≡ xs
            → Ensures k (Obtained d) ((pop_first xs >>= or_panic) d)
        reuse some_free [] e = absurd (ground (arith, counted, ap length e))
        reuse some_free (p ∷ rest) e = rw (pop_first_lem p rest e) (popped-Obtained p rest e)

-- The threads that run while this one waits for the handshake keep the invariant, and leave the one
-- ticket alone that this thread has just obtained and that no queue links yet. They may do what they
-- like with all others, such as drop the ticket of the handshake.
pub record IsPolite (tun : Tunables) (k : Kernel) (d : FuseData) : Type 0 where
  pub keeps :
      (p : ℕ) (e : FuseData)
      → obtain tun k d ≡ done p e
      → WellFormed e
      → WellFormed (k.msleep fu_ini e).1
  pub spares :
      (p : ℕ) (e : FuseData) → obtain tun k d ≡ done p e → InUse e p → InUse (k.msleep fu_ini e).1 p
  pub ticket :
      (p : ℕ) (e : FuseData)
      → obtain tun k d ≡ done p e
      → InUse e p
      → (k.msleep fu_ini e).1.heap p ≡ e.heap p

-- A ticket that `fuse_ticket_fetch` has returned.
pub record Fetched (p : ℕ) (e : FuseData) : Type 0 where
  pub well : WellFormed e
  pub used : InUse e p
  pub clean : (t : Ticket) → e.heap p ≡ some t → IsClean t

pub kill-Fetched : (p : ℕ) (e : FuseData) → Fetched p e → Fetched p (record e { dead = true })
kill-Fetched p e f = record {
  well = kill-WellFormed e f.well;
  used = record { here = f.used.here; apart = f.used.apart };
  clean = f.clean;
}

kill-Ensures :
    (k : Kernel) (p : ℕ) (e : FuseData)
    → Fetched p e
    → Ensures k (λ _ f. Fetched p f) (fuse_data_kill e)
unfolding fuse_data_kill
kill-Ensures k p e f =
    Ensures-if k (λ _ g. Fetched p g) e e.dead _ _ (λ _. f) (λ _. kill-Fetched p e f)

module _ (tun : Tunables) (k : Kernel) (d : FuseData) (polite : IsPolite tun k d) where
  await_turn-Ensures :
      (p : ℕ) (e : FuseData)
      → obtain tun k d ≡ done p e
      → Fetched p e
      → Ensures k (λ _ f. Fetched p f) (await_turn tun k e)
  unfolding await_turn
  await_turn-Ensures p e got f =
      Ensures-if k (λ _ g. Fetched p g) e (not e.inited && ltb 1 e.ticketer) _ _
        (λ waits. record {
          well = polite.keeps p e got f.well;
          used = polite.spares p e got f.used;
          clean = λ t h. f.clean t (sym (polite.ticket p e got f.used) ∙ h);
        })
        (λ goes. f)

  -- From a state that meets the invariant, with fewer than 2^32 - 1 tickets numbered so far, and
  -- if the threads that run during the wait for the handshake are polite, which is that they keep
  -- the invariant and leave the ticket alone that this thread has obtained for its request:
  -- `fuse_ticket_fetch` touches no freed ticket and panics only where an allocation fails; the
  -- ticket that it returns is there, not free and without marks, and the invariant holds again.
  pub fuse_ticket_fetch-Fetched :
      WellFormed d → d.ticketer + 1 < 2 ^ 32 → Ensures k Fetched (fuse_ticket_fetch tun k d)
  unfolding fuse_ticket_fetch
  fuse_ticket_fetch-Fetched w few =
      Ensures-bind k (λ p e. Obtained d p e × (obtain tun k d ≡ done p e)) Fetched (obtain tun k d)
        _ (Ensures-remember k (Obtained d) (obtain tun k d) (obtain-Ensures d w few tun k))
        λ p e (o, got).
          Ensures-bind k (λ _ f. Fetched p f) Fetched (await_turn tun k e) _
            (await_turn-Ensures p e got (record { well = o.well; used = o.used; clean = o.clean }))
            λ err f g.
              Ensures-if k Fetched f (err == 0) _ _ (λ _. g)
                (λ _.
                  Ensures-bind k (λ _ h. Fetched p h) Fetched (fuse_data_kill f) _
                    (kill-Ensures k p f g) λ _ _ h. h)
