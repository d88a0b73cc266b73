-- ===== src/Device/Writing.antt =====
-- fuse_device.c, `fuse_device_write`: the daemon answers a request.
pub mod Delivery
use kext.Prelude.{
  ℕ, ◌+◌, ◌-◌, ◌%◌, ◌^◌, not, ◌&&◌, Option, none, some, List, [], ◌∷◌, ltb, ◌==◌, if◌then◌else◌,
  length, take, drop, remove,
}
use kext.Errno.{einval}
use kext.Iov.{Tunables}
use kext.Ipc.State.{OutHeader, Kernel, Callback, sizeof_out_header}
use kext.Ipc.Monad.{M, pure, ◌>>=◌, ◌>>◌, get, modify, load, store}
use kext.Ipc.Tickets.{fuse_ticket_drop}
use kext.Ipc.Answer.{le, u32_at}
use kext.Ipc.Callbacks.{run_callback}

-- The first bytes of a message as a `struct fuse_out_header`.
unfoldable pub out_header_of : List ℕ → OutHeader
unfolding le
out_header_of bytes = record {
  len = u32_at 0 bytes;
  error = u32_at 4 bytes;
  unique = le (take 8 (drop 8 bytes));
}

-- `-(error)` on int32_t.
abbrev pub negated : OutHeader → OutHeader
negated h = record h { error = (2 ^ 32 - h.error) % 2 ^ 32 }

-- The first ticket of a queue that has the identifier. A queue with a ticket that is gone faults.
unfoldable pub find_unique : ℕ → List ℕ → M (Option ℕ)
find_unique u [] = pure none
find_unique u (p ∷ rest) =
    let later = find_unique u rest in do t ← load p; if t.unique == u then pure (some p) else later

-- TAILQ_REMOVE of the ticket that was found.
unfoldable pub unlink_answer : Option ℕ → M (Unit {0})
unlink_answer none = pure tt
unlink_answer (some p) = modify λ d. record d { aw_head = remove p d.aw_head }

module _ (tun : Tunables) (k : Kernel) where
  unfoldable pub call_back : Option Callback → ℕ → List ℕ → M ℕ
  unfolding run_callback fuse_ticket_drop
  call_back none p body = do fuse_ticket_drop tun k p; pure 0
  call_back (some callback) p body = run_callback tun k callback p body

  -- The ticket that was found gets the header and its callback.
  unfoldable pub hand_over : OutHeader → List ℕ → Option ℕ → M ℕ
  unfolding call_back
  hand_over ohead body none = pure 0
  hand_over ohead body (some p) = do
    t ← load p
    elim t.aw_callback [
      | none ↦ call_back none p body
      | some callback ↦ (do
        store p (record t { aw_ohead = ohead })
        call_back (some callback) p body)
    ]

  -- After the audit: find the ticket, unlink it, hand the answer over.
  unfoldable pub answer : OutHeader → List ℕ → M ℕ
  unfolding find_unique unlink_answer hand_over
  answer ohead body = do
    d ← get
    found ← find_unique ohead.unique d.aw_head
    unlink_answer found
    hand_over ohead body found

  -- The header of a message that is long enough, and the body behind it.
  unfoldable pub audited : OutHeader → List ℕ → M ℕ
  unfolding answer
  audited ohead body =
      if not (length body + sizeof_out_header == ohead.len)
      then pure einval
      else (if not (length body == 0) && not (ohead.error == 0)
          then pure einval
          else answer (negated ohead) body)

  unfoldable pub fuse_device_write : List ℕ → M ℕ
  unfolding out_header_of audited
  fuse_device_write bytes =
      if ltb (length bytes) sizeof_out_header
      then pure einval
      else (if k.uiomove sizeof_out_header == 0
          then audited (out_header_of (take sizeof_out_header bytes)) (drop sizeof_out_header bytes)
          else pure (k.uiomove sizeof_out_header))
