-- ===== src/Device/Writing/Delivery.antt =====
-- How an answer finds the ticket that asked.
use kext.Prelude.{
  ℕ, ◌<◌, ◌≡◌, false, some, List, [], ◌∷◌, arith, count, count-cons, remove, count-nil,
  Option-cases, inl, count_self, inr,
}
use kext.Iov.{Tunables, Iov}
use kext.Ipc.State.{FuseData, Ticket, OutHeader, Kernel, fuse_standard_callback}
use kext.Ipc.Monad.{done}
use kext.Ipc.Ensures.{live}
use kext.Ipc.Answer.Pull.{Ready, with_ticket, answered_state, standard_callback_lem}
use kext.Ipc.Callbacks.{run_callback}
use kext.Device.Writing.{find_unique, unlink_answer, hand_over, call_back, answer}

-- Every ticket of a queue is there, and no two tickets have the same identifier.
pub record Linked (d : FuseData) (xs : List ℕ) : Type 0 where
  pub there : (a : ℕ) → 0 < count a xs → live (d.heap a) ≡ 1
  pub distinct :
      (a b : ℕ) (t u : Ticket) → d.heap a ≡ some t → d.heap b ≡ some u → t.unique ≡ u.unique → a ≡ b

Linked-tail : (d : FuseData) (x : ℕ) (xs : List ℕ) → Linked d (x ∷ xs) → Linked d xs
Linked-tail d x xs l = record {
  there = λ a h. l.there a (omega (arith, count-cons a x xs));
  distinct = l.distinct;
}

pub find_unique_lem :
    (d : FuseData) (p : ℕ) (t : Ticket) (xs : List ℕ)
    → Linked d xs
    → d.heap p ≡ some t
    → 0 < count p xs
    → find_unique t.unique xs d ≡ done (some p) d
unfolding find_unique
find_unique_lem d p t [] l h c = absurd (ground (arith, count-nil p))
find_unique_lem d p t (x ∷ xs) l h c = elim (Option-cases (d.heap x)) [
  | inl e ↦ absurd (ground (arith, l.there x, count_self x xs))
  | inr (u, e) ↦ ground (
    arith,
    e,
    l.distinct x p u t,
    count-cons p x xs,
    find_unique_lem d p t xs (Linked-tail d x xs l) h,
  )
]

-- The queue of answers without a ticket.
abbrev pub unlinked : FuseData → ℕ → FuseData
unlinked d p = record d { aw_head = remove p d.aw_head }

-- The state in which the waiting thread finds the answer that the daemon wrote.
abbrev pub delivered : FuseData → ℕ → Ticket → OutHeader → List ℕ → Iov → FuseData
delivered d p t ohead body aw =
    answered_state (with_ticket (unlinked d p) p (record t { aw_ohead = ohead })) p
      (record t { aw_ohead = ohead }) body aw

module _ (tun : Tunables) (k : Kernel) (d : FuseData) (p : ℕ) (t : Ticket) (ohead : OutHeader)
    (body : List ℕ) (aw : Iov) where
  pub answer_lem :
      Linked d d.aw_head
      → 0 < count p d.aw_head
      → d.heap p ≡ some t
      → t.unique ≡ ohead.unique
      → t.aw_callback ≡ some fuse_standard_callback
      → t.answered ≡ false
      → Ready tun k d (record t { aw_ohead = ohead }) body aw
      → answer tun k ohead body d ≡ done 0 (delivered d p t ohead body aw)
  unfolding answer unlink_answer hand_over call_back run_callback
  answer_lem l c here same callback waiting r =
      ground (arith, found, standard_callback_lem tun k handed p t' body aw at_p r')
    where
      t' : Ticket
      t' = record t { aw_ohead = ohead }

      handed : FuseData
      handed = with_ticket (unlinked d p) p t'

      at_p : handed.heap p ≡ some t'
      at_p = ground arith

      found : find_unique ohead.unique d.aw_head d ≡ done (some p) d
      found = rw (← same) (find_unique_lem d p t d.aw_head l here c)

      r' : Ready tun k handed t' body aw
      r' = record {
        alive = r.alive;
        success = r.success;
        audited = r.audited;
        into_fiov = r.into_fiov;
        room = r.room;
        moves = r.moves;
      }
