-- ===== src/Vnode/Open/Quiet.antt =====
-- The steps that leave the file handles and the account of their ids alone.
use kext.Prelude.{
  ℕ, Bool, true, false, ◌≡◌, refl, sym, ap, ◌∙◌, List, [], ◌∷◌, ◌+◌, ◌==◌, ◌&&◌, arith,
  if◌then◌else◌, ltb,
}
use kext.Vnode.State.{
  VnodeState, FufhType, fufh_rdonly, fufh_wronly, fufh_rdwr, FuseFilehandle, Exchange, Request, Env,
  ask_open, ask_release, KernelCall,
}
use kext.Vnode.Monad.{V, pure, ask, when, call, ◌>>=◌, get}
use kext.Vnode.Attr.{u64_at}
use kext.Vnode.Returns.{Returns, Returns-bind, Returns-mono, Returns-when, Returns-ask}

-- Has this exchange opened the id, has it released it?
abbrev pub opens : ℕ → Request → ℕ → List ℕ → ℕ
opens fh (ask_open isdir flags) errno answer =
    if errno == 0 && (u64_at 0 answer == fh) then 1 else 0
opens fh request errno answer = 0

abbrev pub releases : ℕ → Request → ℕ
releases fh (ask_release isdir id flags) = if id == fh then 1 else 0
releases fh request = 0

unfoldable pub opened_times : ℕ → List Exchange → ℕ
opened_times fh [] = 0
opened_times fh (e ∷ es) = opens fh e.request e.errno e.answer + opened_times fh es

unfoldable pub released_times : ℕ → List Exchange → ℕ
released_times fh [] = 0
released_times fh (e ∷ es) = releases fh e.request + released_times fh es

-- Is the handle valid, with this id?
abbrev pub holds : ℕ → ℕ → ℕ → ℕ
holds fh open_count id = if ltb 0 open_count && (id == fh) then 1 else 0

abbrev pub uses : VnodeState → FufhType → ℕ
uses s t = (s.fvdat.fufh t).open_count

abbrev pub id_of : VnodeState → FufhType → ℕ
id_of s t = (s.fvdat.fufh t).fh_id

unfoldable pub held_in : ℕ → (FufhType → FuseFilehandle) → ℕ
held_in fh fufh =
    holds fh (fufh fufh_rdonly).open_count (fufh fufh_rdonly).fh_id
    + holds fh (fufh fufh_wronly).open_count (fufh fufh_wronly).fh_id
    + holds fh (fufh fufh_rdwr).open_count (fufh fufh_rdwr).fh_id

abbrev pub held_times : ℕ → VnodeState → ℕ
held_times fh s = held_in fh s.fvdat.fufh

-- Nothing was opened or released, and every handle has its id and its uses.
pub record Quiet (s u : VnodeState) : Type 0 where
  pub same_uses : (t : FufhType) → uses u t ≡ uses s t
  pub same_ids : (t : FufhType) → id_of u t ≡ id_of s t
  pub same_opened : (fh : ℕ) → opened_times fh u.exchanges ≡ opened_times fh s.exchanges
  pub same_released : (fh : ℕ) → released_times fh u.exchanges ≡ released_times fh s.exchanges
  pub lives : u.mpdata.dead ≡ false → s.mpdata.dead ≡ false
  pub same_vtype : u.vtype ≡ s.vtype

pub Quiet-refl : (s : VnodeState) → Quiet s s
Quiet-refl s = record {
  same_uses = λ t. refl;
  same_ids = λ t. refl;
  same_opened = λ fh. refl;
  same_released = λ fh. refl;
  lives = λ h. h;
  same_vtype = refl;
}

pub Quiet-frame :
    (s u : VnodeState)
    → u.fvdat.fufh ≡ s.fvdat.fufh
    → u.exchanges ≡ s.exchanges
    → u.mpdata.dead ≡ s.mpdata.dead
    → u.vtype ≡ s.vtype
    → Quiet s u
Quiet-frame s u f e d v = record {
  same_uses = λ t. ap (λ g. (g t).open_count) f;
  same_ids = λ t. ap (λ g. (g t).fh_id) f;
  same_opened = λ fh. ap (opened_times fh) e;
  same_released = λ fh. ap (released_times fh) e;
  lives = λ h. sym d ∙ h;
  same_vtype = v;
}

pub Quiet-trans : (s u v : VnodeState) → Quiet s u → Quiet u v → Quiet s v
Quiet-trans s u v p q = record {
  same_uses = λ t. q.same_uses t ∙ p.same_uses t;
  same_ids = λ t. q.same_ids t ∙ p.same_ids t;
  same_opened = λ fh. q.same_opened fh ∙ p.same_opened fh;
  same_released = λ fh. q.same_released fh ∙ p.same_released fh;
  lives = λ h. p.lives (q.lives h);
  same_vtype = q.same_vtype ∙ p.same_vtype;
}

unfoldable pub IsCalm : {A : Type 0} → V A → Type 0
IsCalm m = (s : VnodeState) → Returns (λ a u. Quiet s u) (m s)

pub IsCalm-bind :
    {A B : Type 0} (m : V A) (f : A → V B) → IsCalm m → ((a : A) → IsCalm (f a)) → IsCalm (m >>= f)
unfolding IsCalm
IsCalm-bind m f h g s =
    Returns-bind (λ a u. Quiet s u) (λ b v. Quiet s v) (m s) f (h s)
      (λ a u q.
        Returns-mono (λ b v. Quiet u v) (λ b v. Quiet s v) (f a u) (g a u)
          (λ b v. Quiet-trans s u v q))

pub IsCalm-pure : {A : Type 0} (a : A) → IsCalm (pure a)
unfolding IsCalm
IsCalm-pure a s = Quiet-refl s

pub IsCalm-get : IsCalm get
unfolding IsCalm
IsCalm-get s = Quiet-refl s

pub IsCalm-when : (b : Bool) (m : V (Unit {0})) → IsCalm m → IsCalm (when b m)
unfolding IsCalm
IsCalm-when b m h s = Returns-when (λ a u. Quiet s u) s b m (λ _. h s) (λ _. Quiet-refl s)

pub IsCalm-if :
    {A : Type 0} (b : Bool) (m n : V A) → IsCalm m → IsCalm n → IsCalm (if b then m else n)
IsCalm-if true m n h g = h
IsCalm-if false m n h g = g

pub IsCalm-call : (c : KernelCall) → IsCalm (call c)
unfolding IsCalm
IsCalm-call c s = Quiet-frame s _ refl refl refl refl

-- A request that opens and releases nothing.
pub IsCalm-ask :
    (env : Env) (request : Request)
    → ((fh errno : ℕ) (answer : List ℕ) → opens fh request errno answer ≡ 0)
    → ((fh : ℕ) → releases fh request ≡ 0)
    → IsCalm (ask env request)
unfolding IsCalm opened_times released_times
IsCalm-ask env request o r s =
    Returns-ask env request s (λ a u. Quiet s u) (λ _. Quiet-refl s)
      (λ live. record {
        same_uses = λ t. refl;
        same_ids = λ t. refl;
        same_opened = λ fh. omega (arith, o fh);
        same_released = λ fh. omega (arith, r fh);
        lives = λ h. live;
        same_vtype = refl;
      })
