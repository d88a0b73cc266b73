-- ===== src/Device/Lifecycle/Tickets.antt =====
-- What becomes of the tickets when a device is closed.
use kext.Prelude.{
  ℕ, zero, suc, Bool, ◌+◌, ◌<◌, ◌≡◌, refl, true, some, none, List, [], ◌∷◌, arith, count,
  count_self, count-cons, count-nil, length, remove, count-remove, ◌%◌, remove_self, ◌^◌,
}
use kext.Errno.{enotconn}
use kext.Ipc.State.{FuseData, Ticket, Kernel}
use kext.Ipc.Monad.{done, update, release_memory}
use kext.Ipc.Ensures.{live, Ensures, Ensures-bind, Ensures-load, Ensures-mono}
use kext.Ipc.Tickets.{fuse_pop_allticks, fuse_remove_allticks, fuse_ticket_destroy}
use kext.Ipc.WellFormed.{InUse, WellFormed, emptied-WellFormed}
use kext.Ipc.WellFormed.Store.{Keeps, stored-WellFormed}
use kext.Device.Lifecycle.{destroy_tickets, fuse_data_destroy, reject_each, fuse_reject_answers}

-- The queue of answers links only tickets in use.
pub record Tidy (d : FuseData) : Type 0 where
  pub well : WellFormed d
  pub queued : (a : ℕ) → 0 < count a d.aw_head → InUse d a

-- The effect of rejecting the tickets of a list.
pub record Rejected (d : FuseData) (xs : List ℕ) (e : FuseData) : Type 0 where
  pub well : WellFormed e
  pub told :
      (a : ℕ) (t : Ticket)
      → 0 < count a xs
      → e.heap a ≡ some t
      → (t.answered ≡ true) × (t.aw_errno ≡ enotconn)
  pub others : (a : ℕ) → count a xs ≡ 0 → e.heap a ≡ d.heap a
  pub opened : e.opened ≡ d.opened
  pub mounted : e.mounted ≡ d.mounted
  pub dead : e.dead ≡ d.dead

rejected : Ticket → Ticket
rejected t = record t { answered = true; aw_errno = enotconn }

still :
    (d : FuseData) (x a : ℕ) (t : Ticket)
    → InUse d a
    → InUse (record d { heap = update d.heap x (some (rejected t)) }) a
still d x a t u = record { here = ground (arith, u.here); apart = u.apart }

extend :
    (d : FuseData) (x : ℕ) (xs : List ℕ) (t : Ticket) (e : FuseData)
    → Rejected (record d { heap = update d.heap x (some (rejected t)) }) xs e
    → Rejected d (x ∷ xs) e
unfolding rejected
extend d x xs t e r = record {
  well = r.well;
  told = λ a u c f. ground (arith, r.told a u, r.others a, count-cons a x xs);
  others = λ a c. ground (arith, r.others a, count-cons a x xs);
  opened = r.opened;
  mounted = r.mounted;
  dead = r.dead;
}

module _ (k : Kernel) where
  reject_each-Rejected :
      (xs : List ℕ) (d : FuseData)
      → WellFormed d
      → ((a : ℕ) → 0 < count a xs → InUse d a)
      → Ensures k (λ _ e. Rejected d xs e) (reject_each xs d)
  unfolding reject_each rejected
  reject_each-Rejected [] d w h = record {
    well = w;
    told = λ a t c e. absurd (omega (arith, count-nil a));
    others = λ a c. refl;
    opened = refl;
    mounted = refl;
    dead = refl;
  }
  reject_each-Rejected (x ∷ xs) d w h =
      Ensures-load k (λ _ e. Rejected d (x ∷ xs) e) d x _ (h x linked).here
        λ t at_x.
          let next : FuseData = record d { heap = update d.heap x (some (rejected t)) } in
          let keeps : Keeps t (rejected t) = record {
            unique = refl;
            ms_fits = (w.fitting x t at_x).0;
            aw_fits = (w.fitting x t at_x).1;
          } in
          Ensures-mono k (λ _ e. Rejected next xs e) (λ _ e. Rejected d (x ∷ xs) e)
            (reject_each xs next)
            (reject_each-Rejected xs next
              (stored-WellFormed d x t (rejected t) w (h x linked) at_x keeps)
              (λ a c. still d x a t (h a (omega (arith, count-cons a x xs)))))
            (λ _ e r. extend d x xs t e r)
    where
      linked : 0 < count x (x ∷ xs)
      linked = omega (arith, count_self x xs)

  -- On a state whose queue of answers links only tickets in use, `fuse_reject_answers` touches no
  -- freed ticket and does not panic: every ticket of the queue is answered with ENOTCONN, the others
  -- are as they were, the queue is empty, and the invariant holds.
  pub fuse_reject_answers-Rejected :
      (d : FuseData)
      → Tidy d
      → Ensures k (λ _ e. Rejected d d.aw_head e × (e.aw_head ≡ [])) (fuse_reject_answers d)
  unfolding fuse_reject_answers
  fuse_reject_answers-Rejected d t =
      Ensures-bind k (λ _ e. Rejected d d.aw_head e) _ (reject_each d.aw_head d) _
        (reject_each-Rejected d.aw_head d t.well t.queued) λ _ e r. (emptied d e r, refl)
    where
      emptied :
          (d e : FuseData)
          → Rejected d d.aw_head e
          → Rejected d d.aw_head (record e { aw_head = [] })
      emptied d e r = record {
        well = emptied-WellFormed e r.well;
        told = r.told;
        others = r.others;
        opened = r.opened;
        mounted = r.mounted;
        dead = r.dead;
      }

  -- The state after the first of all tickets is taken and freed.
  abbrev popped : FuseData → ℕ → FuseData
  popped d x = record d {
    deadticket_counter = (d.deadticket_counter + 1) % 2 ^ 32;
    alltickets_head = remove x d.alltickets_head;
  }

  pop_lem :
      (d : FuseData) (x : ℕ) (rest : List ℕ)
      → d.alltickets_head ≡ x ∷ rest
      → fuse_pop_allticks d ≡ done (some x) (popped d x)
  unfolding fuse_pop_allticks fuse_remove_allticks
  pop_lem d x rest e = ground arith

  pop_lem-nil : (d : FuseData) → d.alltickets_head ≡ [] → fuse_pop_allticks d ≡ done none d
  unfolding fuse_pop_allticks
  pop_lem-nil d e = ground arith

  -- The loop has ended, no ticket is linked and none allocated.
  abbrev pub Emptied : Bool → FuseData → Type 0
  Emptied ended e = (ended ≡ true) × (e.alltickets_head ≡ []) × ((a : ℕ) → e.heap a ≡ none)

  destroy_tickets-Ensures :
      (fuel : ℕ) (xs : List ℕ) (d : FuseData)
      → d.alltickets_head ≡ xs
      → length xs < fuel
      → ((a : ℕ) → count a d.alltickets_head ≡ live (d.heap a))
      → Ensures k Emptied (destroy_tickets fuel d)
  unfolding destroy_tickets fuse_ticket_destroy
  destroy_tickets-Ensures zero xs d e n owned = absurd (omega (arith, n))
  destroy_tickets-Ensures (suc fuel) [] d e n owned =
      rw (pop_lem-nil d e) (refl, e, λ a. ground (arith, owned a, e, count-nil a))
  destroy_tickets-Ensures (suc fuel) (x ∷ rest) d e n owned = rw (pop_lem d x rest e) (
      Ensures-bind k Freed Emptied (fuse_ticket_destroy x (popped d x)) (λ _. destroy_tickets fuel)
        (Ensures-load k Freed (popped d x) x (λ t. release_memory x) here λ _ _. refl)
        λ _ f same. rw same (
          destroy_tickets-Ensures fuel rest freed (rw e (remove_self x rest)) (omega (arith, n))
            left))
    where
      freed : FuseData
      freed = record (popped d x) { heap = update d.heap x none }

      Freed : Unit {0} → FuseData → Type 0
      Freed _ e = e ≡ freed

      here : live (d.heap x) ≡ 1
      here = ground (arith, owned x, e, count_self x rest)

      left : (a : ℕ) → count a (remove x d.alltickets_head) ≡ live (update d.heap x none a)
      left a = ground (arith, owned a, count-remove a x d.alltickets_head, here, owned x)

  -- In a state that meets the invariant, the loop of `fuse_data_destroy` ends within one round more
  -- than there are tickets, since none is left to pop; it touches no freed ticket and does not
  -- panic, and leaves no ticket linked among all tickets and none allocated.
  pub fuse_data_destroy-frees :
      (d : FuseData) → WellFormed d → Ensures k Emptied (fuse_data_destroy d)
  unfolding fuse_data_destroy
  fuse_data_destroy-frees d w =
      destroy_tickets-Ensures (suc (length d.alltickets_head)) d.alltickets_head d refl
        (omega arith) w.owned
