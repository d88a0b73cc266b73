-- ===== src/Ipc/WellFormed.antt =====
-- The invariant of the tickets and their queues.
pub mod Fetch
pub mod Store
pub mod Drop
use kext.Prelude.{ℕ, suc, ◌+◌, ◌≤◌, ◌<◌, ◌≡◌, true, false, Option, none, some, length, count, []}
use kext.Iov.Bounds.{Fits}
use kext.Ipc.State.{FuseData, Ticket}
use kext.Ipc.Ensures.{live}

-- A ticket without any of its marks.
pub record IsClean (t : Ticket) : Type 0 where
  pub answered : t.answered ≡ false
  pub invalid : t.invalid ≡ false
  pub dirty : t.dirty ≡ false
  pub killed : t.killed ≡ false

-- A ticket that is there and not free: some request uses it.
pub record InUse (d : FuseData) (p : ℕ) : Type 0 where
  pub here : live (d.heap p) ≡ 1
  pub apart : count p d.freetickets_head ≡ 0

pub record WellFormed (d : FuseData) : Type 0 where
  -- The queue of all tickets links each ticket that is there once, and nothing else.
  pub owned : (a : ℕ) → count a d.alltickets_head ≡ live (d.heap a)
  -- A free ticket is there, and linked once.
  pub free_owned : (a : ℕ) → count a d.freetickets_head ≤ live (d.heap a)
  pub counted : d.freeticket_counter ≡ length d.freetickets_head
  pub fresh : (a : ℕ) → d.brk ≤ a → d.heap a ≡ none
  pub balance : d.ticketer ≡ d.deadticket_counter + length d.alltickets_head
  pub numbered : (a : ℕ) (t : Ticket) → d.heap a ≡ some t → t.unique < d.ticketer
  pub distinct :
      (a b : ℕ) (t u : Ticket) → d.heap a ≡ some t → d.heap b ≡ some u → t.unique ≡ u.unique → a ≡ b
  -- A free ticket was refreshed.
  pub clean : (a : ℕ) (t : Ticket) → 0 < count a d.freetickets_head → d.heap a ≡ some t → IsClean t
  pub fitting : (a : ℕ) (t : Ticket) → d.heap a ≡ some t → Fits t.ms_fiov × Fits t.aw_fiov

pub kill-WellFormed : (d : FuseData) → WellFormed d → WellFormed (record d { dead = true })
kill-WellFormed d w = record {
  owned = w.owned;
  free_owned = w.free_owned;
  counted = w.counted;
  fresh = w.fresh;
  balance = w.balance;
  numbered = w.numbered;
  distinct = w.distinct;
  clean = w.clean;
  fitting = w.fitting;
}

pub emptied-WellFormed : (d : FuseData) → WellFormed d → WellFormed (record d { aw_head = [] })
emptied-WellFormed d w = record {
  owned = w.owned;
  free_owned = w.free_owned;
  counted = w.counted;
  fresh = w.fresh;
  balance = w.balance;
  numbered = w.numbered;
  distinct = w.distinct;
  clean = w.clean;
  fitting = w.fitting;
}

pub closed-WellFormed : (d : FuseData) → WellFormed d → WellFormed (record d { opened = false })
closed-WellFormed d w = record {
  owned = w.owned;
  free_owned = w.free_owned;
  counted = w.counted;
  fresh = w.fresh;
  balance = w.balance;
  numbered = w.numbered;
  distinct = w.distinct;
  clean = w.clean;
  fitting = w.fitting;
}

pub unmounted-WellFormed : (d : FuseData) → WellFormed d → WellFormed (record d { mounted = false })
unmounted-WellFormed d w = record {
  owned = w.owned;
  free_owned = w.free_owned;
  counted = w.counted;
  fresh = w.fresh;
  balance = w.balance;
  numbered = w.numbered;
  distinct = w.distinct;
  clean = w.clean;
  fitting = w.fitting;
}
