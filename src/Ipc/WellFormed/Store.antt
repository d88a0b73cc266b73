-- ===== src/Ipc/WellFormed/Store.antt =====
-- Writes to a ticket that is in use, and the invariant.
use kext.Prelude.{ℕ, ◌≡◌, some, arith}
use kext.Iov.Bounds.{Fits}
use kext.Ipc.State.{FuseData, Ticket}
use kext.Ipc.Monad.{update}
use kext.Ipc.WellFormed.{InUse, WellFormed}

-- What such a write must leave alone or keep.
pub record Keeps (t u : Ticket) : Type 0 where
  pub unique : u.unique ≡ t.unique
  pub ms_fits : Fits u.ms_fiov
  pub aw_fits : Fits u.aw_fiov

module _ (d : FuseData) (p : ℕ) (t u : Ticket) (w : WellFormed d) (used : InUse d p)
    (e : d.heap p ≡ some t) (keeps : Keeps t u) where
  open w use {owned, free_owned, counted, fresh, balance, numbered, distinct, clean, fitting}

  pub stored-WellFormed : WellFormed (record d { heap = update d.heap p (some u) })
  stored-WellFormed = record {
    owned = λ a. ground (arith, owned a);
    free_owned = λ a. ground (arith, free_owned a);
    counted = counted;
    fresh = λ a h. ground (arith, fresh a h);
    balance = balance;
    numbered = λ a v f. ground (arith, numbered a v, numbered p t e);
    distinct =
        λ a b v x f g h. ground (arith, distinct a b v x, distinct p b t x, distinct a p v t);
    clean = λ a v c f. ground (arith, clean a v, used.apart);
    fitting = λ a v f. ground (arith, fitting a v);
  }

  pub stored-InUse : InUse (record d { heap = update d.heap p (some u) }) p
  stored-InUse = record { here = ground arith; apart = used.apart }
