-- ===== src/Ipc/WellFormed/Drop.antt =====
-- `fuse_ticket_drop` and `fuse_ticket_kill`, and the invariant.
use kext.Prelude.{
  ℕ, ◌+◌, ◌%◌, ◌^◌, ◌<◌, ◌≡◌, ◌≢◌, refl, ◌||◌, none, some, [], ◌∷◌, ◌++◌, arith, leb, length,
  length-le-of_count, count, count-append, count-cons, count-nil, count-remove, length-append,
  length-remove, remove,
}
use kext.Iov.{Tunables, Iov, fu_at_least, fiov_refresh}
use kext.Iov.Bounds.{Fits, fiov_adjust-Fits}
use kext.Ipc.State.{FuseData, Ticket, Kernel}
use kext.Ipc.Monad.{◌>>◌, update, release_memory}
use kext.Ipc.Ensures.{
  live, Ensures, HasMemory, Ensures-bind, Ensures-if, Ensures-load, Ensures-or_panic,
}
use kext.Ipc.Tickets.{
  refreshed, fuse_push_freeticks, fuse_remove_allticks, fuse_ticket_destroy, fuse_ticket_refresh,
  fuse_ticket_drop, fuse_ticket_kill,
}
use kext.Ipc.WellFormed.{IsClean, InUse, WellFormed}

-- The state after a ticket is taken out of the queue of all tickets.
abbrev unlinked : FuseData → ℕ → FuseData
unlinked d p = record d {
  deadticket_counter = (d.deadticket_counter + 1) % 2 ^ 32;
  alltickets_head = remove p d.alltickets_head;
}

-- The state after that ticket is freed, too.
abbrev destroyed : FuseData → ℕ → FuseData
destroyed d p = record (unlinked d p) { heap = update d.heap p none }

-- The state after a ticket is refreshed and pushed to the free ones.
abbrev recycled : FuseData → ℕ → Ticket → FuseData
recycled d p t = record d {
  heap = update d.heap p (some t);
  freetickets_head = d.freetickets_head ++ p ∷ [];
  freeticket_counter = (d.freeticket_counter + 1) % 2 ^ 32;
}

-- The state after `fuse_ticket_refresh`, with the ticket before and after.
pub record Refreshed (d : FuseData) (p : ℕ) (e : FuseData) : Type 0 where
  pub before : Ticket
  pub after : Ticket
  pub was : d.heap p ≡ some before
  pub same : after.unique ≡ before.unique
  pub clean : IsClean after
  pub ms_fits : Fits after.ms_fiov
  pub aw_fits : Fits after.aw_fiov
  pub state : e ≡ record d { heap = update d.heap p (some after) }

-- What a dropped ticket leaves: the invariant, the other tickets, the queues of messages and of
-- answers as they were; and the ticket is gone, or linked once among the free ones.
pub record Dropped (d : FuseData) (p : ℕ) (e : FuseData) : Type 0 where
  pub well : WellFormed e
  pub others : (a : ℕ) → a ≢ p → e.heap a ≡ d.heap a
  pub free : count p e.freetickets_head ≡ live (e.heap p)
  pub messages : e.ms_head ≡ d.ms_head
  pub answers : e.aw_head ≡ d.aw_head
  pub dead : e.dead ≡ d.dead

module _ (d : FuseData) (w : WellFormed d) (p : ℕ) (used : InUse d p)
    (few : d.ticketer < 2 ^ 32) where
  open w use {owned, free_owned, counted, fresh, balance, numbered, distinct, clean, fitting}

  linked : count p d.alltickets_head ≡ 1
  linked = omega (arith, owned p, used.here)

  destroyed-WellFormed : WellFormed (destroyed d p)
  destroyed-WellFormed = record {
    owned = λ a. ground (arith, owned a, count-remove a p d.alltickets_head, linked);
    free_owned = λ a. ground (arith, free_owned a, used.apart);
    counted = counted;
    fresh = λ a h. ground (arith, fresh a h);
    balance = omega (arith, balance, length-remove p d.alltickets_head, linked);
    numbered = λ a t e. ground (arith, numbered a t);
    distinct = λ a b t u e f g. ground (arith, distinct a b t u);
    clean = λ a t c e. ground (arith, clean a t);
    fitting = λ a t e. ground (arith, fitting a t);
  }

  destroyed-Dropped : Dropped d p (destroyed d p)
  destroyed-Dropped = record {
    well = destroyed-WellFormed;
    others = λ a h. ground (arith);
    free = ground (arith, used.apart);
    messages = refl;
    answers = refl;
    dead = refl;
  }

  free_few : length d.freetickets_head + 1 < 2 ^ 32
  free_few = omega (
    arith,
    balance,
    length-append d.freetickets_head (p ∷ []),
    length-le-of_count (d.freetickets_head ++ p ∷ []) d.alltickets_head (λ a. ground (
      arith,
      owned a,
      free_owned a,
      linked,
      used.apart,
      count-append a d.freetickets_head (p ∷ []),
      count-cons a p [],
      count-nil a,
    )),
  )

  module _ (t u : Ticket) (e : d.heap p ≡ some t) (same : u.unique ≡ t.unique) (cleaned : IsClean u)
      (ms_fits : Fits u.ms_fiov) (aw_fits : Fits u.aw_fiov) where
    recycled-WellFormed : WellFormed (recycled d p u)
    recycled-WellFormed = record {
      owned = λ a. ground (arith, owned a);
      free_owned = λ a. ground (
        arith,
        free_owned a,
        used.apart,
        count-append a d.freetickets_head (p ∷ []),
        count-cons a p [],
        count-nil a,
      );
      counted = omega (arith, counted, free_few, length-append d.freetickets_head (p ∷ []));
      fresh = λ a h. ground (arith, fresh a h);
      balance = balance;
      numbered = λ a v f. ground (arith, numbered a v, numbered p t e);
      distinct =
          λ a b v x f g h. ground (arith, distinct a b v x, distinct p b t x, distinct a p v t);
      clean = λ a v c f. ground (
        arith,
        clean a v,
        count-append a d.freetickets_head (p ∷ []),
        count-cons a p [],
        count-nil a,
      );
      fitting = λ a v f. ground (arith, fitting a v);
    }

    recycled-Dropped : Dropped d p (recycled d p u)
    recycled-Dropped = record {
      well = recycled-WellFormed;
      others = λ a h. ground arith;
      free = ground (
        arith,
        used.apart,
        count-append p d.freetickets_head (p ∷ []),
        count-cons p p [],
        count-nil p,
      );
      messages = refl;
      answers = refl;
      dead = refl;
    }

refresh_fails :
    (tun : Tunables) (k : Kernel) (f : Iov) → fiov_refresh tun k.malloc f ≡ none → ¬ HasMemory k
unfolding fiov_refresh
refresh_fails tun k f e m = ground (arith, m.buffers (fu_at_least 0 % 2 ^ 32))

refresh-Fits :
    (tun : Tunables) (k : Kernel) (f : Iov) {g : Iov}
    → Fits f
    → fiov_refresh tun k.malloc f ≡ some g
    → Fits g
unfolding fiov_refresh
refresh-Fits tun k f h e = (fiov_adjust-Fits tun k.malloc f 0 h (omega arith) e).0

module _ (tun : Tunables) (k : Kernel) (d : FuseData) (w : WellFormed d) (few : d.ticketer < 2 ^ 32)
    (p : ℕ) (used : InUse d p) where
  Q : Unit {0} → FuseData → Type 0
  Q u e = Dropped d p e

  destroy-Ensures : Ensures k Q ((fuse_remove_allticks p >> fuse_ticket_destroy p) d)
  unfolding fuse_remove_allticks fuse_ticket_destroy Q
  destroy-Ensures =
      Ensures-load k Q (unlinked d p) p (λ t. release_memory p) used.here
        λ t e. destroyed-Dropped d w p used few

  -- In a state that meets the invariant, `fuse_ticket_kill` of a ticket in use touches no freed
  -- ticket and does not panic; the ticket is gone and the rest is as before.
  fuse_ticket_kill-Dropped : Ensures k (λ _ e. Dropped d p e) (fuse_ticket_kill p d)
  unfolding fuse_ticket_kill Q
  fuse_ticket_kill-Dropped = Ensures-load k Q d p _ used.here λ t e. destroy-Ensures

  pub fuse_ticket_refresh-Refreshed :
      Ensures k (λ _ e. Refreshed d p e) (fuse_ticket_refresh tun k p d)
  unfolding fuse_ticket_refresh
  fuse_ticket_refresh-Refreshed =
      let R : Unit {0} → FuseData → Type 0 = λ _ e. Refreshed d p e in
      Ensures-load k R d p _ used.here λ u f.
        Ensures-or_panic k R d (fiov_refresh tun k.malloc u.ms_fiov) _ (refresh_fails tun k _)
          λ ms g.
            Ensures-or_panic k R d (fiov_refresh tun k.malloc u.aw_fiov) _ (refresh_fails tun k _)
              λ aw h. record {
                before = u;
                after = refreshed u ms aw;
                was = f;
                same = refl;
                clean = record { answered = refl; invalid = refl; dirty = refl; killed = refl };
                ms_fits = refresh-Fits tun k u.ms_fiov (w.fitting p u f).0 g;
                aw_fits = refresh-Fits tun k u.aw_fiov (w.fitting p u f).1 h;
                state = refl;
              }

  -- In a state that meets the invariant and has numbered fewer than 2^32 tickets, the drop of a
  -- ticket that is in use touches no freed ticket and panics only where an allocation fails;
  -- afterwards the invariant holds, the ticket is gone or linked once among the free ones, the other
  -- tickets and the queues of messages and of answers are as they were.
  pub fuse_ticket_drop-Dropped : Ensures k (λ _ e. Dropped d p e) (fuse_ticket_drop tun k p d)
  unfolding fuse_ticket_drop fuse_push_freeticks Q
  fuse_ticket_drop-Dropped = Ensures-load k Q d p _ used.here λ t e.
      Ensures-if k Q d (leb tun.max_freetickets d.freeticket_counter || t.killed) _ _
        (λ gone. destroy-Ensures)
        (λ kept.
          Ensures-bind k (λ _ f. Refreshed d p f) Q (fuse_ticket_refresh tun k p d) _
            fuse_ticket_refresh-Refreshed
            λ _ f r. rw r.state (
              recycled-Dropped d w p used few r.before r.after r.was r.same r.clean r.ms_fits
                r.aw_fits))
