-- ===== src/Ipc/Monad.antt =====
-- State with panics. `fault` is an access to a ticket that was freed or never allocated.
use kext.Prelude.{ℕ, Bool, Option, none, some, ◌==◌, if◌then◌else◌}
use kext.Ipc.State.{FuseData, Ticket}

pub data Run (A : Type 0) : Type 0 where
  done : A → FuseData → Run A
  panic : Run A
  fault : Run A

abbrev pub M : Type 0 → Type 0
M A = FuseData → Run A

abbrev pub pure : {A : Type 0} → A → M A
pure a d = done a d

abbrev pub fail : {A : Type 0} → M A
fail d = panic

abbrev pub bind_run : {A B : Type 0} → Run A → (A → M B) → Run B
bind_run (done a d) f = f a d
bind_run panic f = panic
bind_run fault f = fault

infixl 5 ◌>>=◌ ◌>>◌
abbrev pub ◌>>=◌ : {A B : Type 0} → M A → (A → M B) → M B
◌>>=◌ m f d = bind_run (m d) f

abbrev pub ◌>>◌ : {B : Type 0} → M (Unit {0}) → M B → M B
m >> k = m >>= λ _. k

abbrev pub get : M FuseData
get d = done d d

abbrev pub modify : (FuseData → FuseData) → M (Unit {0})
modify f d = done tt (f d)

abbrev pub when : Bool → M (Unit {0}) → M (Unit {0})
when b m d = if b then m d else done tt d

abbrev pub update : (ℕ → Option Ticket) → ℕ → Option Ticket → ℕ → Option Ticket
update h p v q = if p == q then v else h q

abbrev pub or_fault : Option Ticket → M Ticket
or_fault none d = fault
or_fault (some t) d = done t d

-- Read through a pointer.
abbrev pub load : ℕ → M Ticket
load p d = or_fault (d.heap p) d

-- Write through a pointer to a ticket that is there.
abbrev pub store : ℕ → Ticket → M (Unit {0})
store p t d = done tt (record d { heap = update d.heap p (some t) })

-- OSFree of a ticket.
abbrev pub release_memory : ℕ → M (Unit {0})
release_memory p d = done tt (record d { heap = update d.heap p none })

-- The panic of an operation on a buffer.
abbrev pub or_panic : {A : Type 0} → Option A → M A
or_panic none d = panic
or_panic (some a) d = done a d

-- Sleep: other threads run.
abbrev pub sleep : (FuseData → ℕ × FuseData) → M ℕ
sleep msleep d = done (msleep d).0 (msleep d).1
