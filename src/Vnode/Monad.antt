-- ===== src/Vnode/Monad.antt =====
-- State with panics, for the operations on a vnode, and the request to the daemon as one step.
use kext.Prelude.{ℕ, Bool, [], ◌∷◌, ◌||◌, if◌then◌else◌, true, ◌+◌, not, ◌%◌, ◌^◌, false, ◌-◌}
use kext.Errno.{enotconn}
use kext.Ipc.State.{FuseData}
use kext.Vnode.State.{
  VnodeState, FuseVnodeData, Request, Reply, Env, KernelCall, FufhType, FuseFilehandle, same_type,
}

pub data Outcome (A : Type 0) : Type 0 where
  done : A → VnodeState → Outcome A
  panic : Outcome A

abbrev pub V : Type 0 → Type 0
V A = VnodeState → Outcome A

abbrev pub pure : {A : Type 0} → A → V A
pure a s = done a s

abbrev pub fail : {A : Type 0} → V A
fail s = panic

abbrev pub bind_outcome : {A B : Type 0} → Outcome A → (A → V B) → Outcome B
bind_outcome (done a s) f = f a s
bind_outcome panic f = panic

infixl 5 ◌>>=◌ ◌>>◌
abbrev pub ◌>>=◌ : {A B : Type 0} → V A → (A → V B) → V B
◌>>=◌ m f s = bind_outcome (m s) f

abbrev pub ◌>>◌ : {B : Type 0} → V (Unit {0}) → V B → V B
m >> k = m >>= λ _. k

abbrev pub get : V VnodeState
get s = done s s

abbrev pub modify : (VnodeState → VnodeState) → V (Unit {0})
modify f s = done tt (f s)

abbrev pub when : Bool → V (Unit {0}) → V (Unit {0})
when b m s = if b then m s else done tt s

-- A change of the session, of the node's data, of one file handle; a call of the kernel.
abbrev pub on_mpdata : (FuseData → FuseData) → V (Unit {0})
on_mpdata f = modify λ s. record s { mpdata = f s.mpdata }

abbrev pub on_fvdat : (FuseVnodeData → FuseVnodeData) → V (Unit {0})
on_fvdat f = modify λ s. record s { fvdat = f s.fvdat }

abbrev pub update :
    (FufhType → FuseFilehandle) → FufhType → FuseFilehandle → FufhType → FuseFilehandle
update fufh t h u = if same_type t u then h else fufh u

abbrev pub set_fufh : FufhType → FuseFilehandle → V (Unit {0})
set_fufh t h = on_fvdat λ v. record v { fufh = update v.fufh t h }

abbrev pub call : KernelCall → V (Unit {0})
call c = modify λ s. record s { calls = c ∷ s.calls }

-- The request was made: note it, and whether the device died meanwhile.
abbrev pub noted : Request → Reply → V Reply
noted request r = do
  modify λ s. record s {
    mpdata = record s.mpdata { dead = s.mpdata.dead || r.dies };
    exchanges = record { request = request; errno = r.errno; answer = r.body } ∷ s.exchanges;
  }
  pure r

-- `fuse_dispatcher_wait_answer`: on a dead device nothing is sent.
unfoldable pub ask : Env → Request → V Reply
ask env request = do
  s ← get
  if s.mpdata.dead
      then pure (record { errno = enotconn; body = []; dies = true })
      else noted request (env.reply s.exchanges request)

-- OSIncrementAtomic and OSDecrementAtomic on a 32-bit counter.
abbrev pub increment : ℕ → ℕ
increment n = (n + 1) % 2 ^ 32

abbrev pub decrement : ℕ → ℕ
decrement n = (n + (2 ^ 32 - 1)) % 2 ^ 32

-- A message that has no answer.
unfoldable pub tell : Request → V (Unit {0})
tell request = do
  s ← get
  when (not s.mpdata.dead)
      (do _ ← noted request (record { errno = 0; body = []; dies = false }); pure tt)
