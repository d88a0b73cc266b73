-- ===== src/Device/Reading/Order.antt =====
-- The order in which the daemon reads the requests.
use kext.Prelude.{ℕ, zero, suc, ◌≤◌, ◌≡◌, Bool, false, Option, some, List, [], ◌∷◌}
use kext.Iov.{Tunables}
use kext.Ipc.State.{FuseData, Ticket, Kernel, ft_m_fiov}
use kext.Ipc.Monad.{M, pure, ◌>>=◌}
use kext.Device.Reading.{Chunk, message, fuse_device_read}

-- A queued request that expects a reply, whose message fits a buffer of `resid` bytes.
pub record IsPending (d : FuseData) (resid p : ℕ) (t : Ticket) : Type 0 where
  pub here : d.heap p ≡ some t
  pub answered : t.answered ≡ false
  pub invalid : t.invalid ≡ false
  pub in_fiov : t.ms_type ≡ ft_m_fiov
  pub small : t.ms_fiov.len ≤ resid

-- The queue holds just these requests, in this order.
abbrev pub Pending : FuseData → ℕ → List ℕ → List Ticket → Type 0
Pending d resid [] [] = Unit {0}
Pending d resid [] (t ∷ ts) = ⊥
Pending d resid (p ∷ ps) [] = ⊥
Pending d resid (p ∷ ps) (t ∷ ts) = IsPending d resid p t × Pending d resid ps ts

abbrev pub request_of : Ticket → Chunk
request_of t = message t.ms_header t.ms_fiov.len

-- The results of one read after another, each with a buffer of `resid` bytes.
pub read_times : Tunables → Kernel → Bool → (resid : ℕ) → ℕ → M (List (Option (ℕ × List Chunk)))
read_times tun k ndelay resid zero = pure []
read_times tun k ndelay resid (suc n) = fuse_device_read tun k ndelay 1 resid >>= λ r.
    read_times tun k ndelay resid n >>= λ rs. pure (r ∷ rs)

-- The result of each read, if all goes well.
abbrev pub replies : List Ticket → List (Option (ℕ × List Chunk))
replies [] = []
replies (t ∷ ts) = some (0, request_of t ∷ []) ∷ replies ts
