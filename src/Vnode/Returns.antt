-- ===== src/Vnode/Returns.antt =====
-- Total correctness of an operation on a vnode: it does not panic, and its result and the state that
-- it leaves satisfy a postcondition.
use kext.Errno.{enotconn}
use kext.Prelude.{Bool, true, false, ◌≡◌, refl, if◌then◌else◌, ◌||◌, ◌∷◌, []}
use kext.Vnode.State.{VnodeState, Reply, Request, Env}
use kext.Vnode.Monad.{Outcome, done, panic, V, bind_outcome, when, ask, pure, noted}

abbrev pub Returns : {A : Type 0} → (A → VnodeState → Type 0) → Outcome A → Type 0
Returns P (done a s) = P a s
Returns P panic = ⊥

pub Returns-bind :
    {A B : Type 0} (P : A → VnodeState → Type 0) (Q : B → VnodeState → Type 0) (o : Outcome A)
    (f : A → V B)
    → Returns P o
    → ((a : A) (s : VnodeState) → P a s → Returns Q (f a s))
    → Returns Q (bind_outcome o f)
Returns-bind P Q (done a s) f h g = g a s h
Returns-bind P Q panic f h g = absurd h

pub Returns-mono :
    {A : Type 0} (P Q : A → VnodeState → Type 0) (o : Outcome A)
    → Returns P o
    → ((a : A) (s : VnodeState) → P a s → Q a s)
    → Returns Q o
Returns-mono P Q (done a s) h g = g a s h
Returns-mono P Q panic h g = absurd h

module _ {A : Type 0} (Q : A → VnodeState → Type 0) (s : VnodeState) where
  pub Returns-if :
      (b : Bool) (m n : V A)
      → (b ≡ true → Returns Q (m s))
      → (b ≡ false → Returns Q (n s))
      → Returns Q ((if b then m else n) s)
  Returns-if true m n on_true on_false = on_true refl
  Returns-if false m n on_true on_false = on_false refl

pub Returns-when :
    (Q : Unit {0} → VnodeState → Type 0) (s : VnodeState) (b : Bool) (m : V (Unit {0}))
    → (b ≡ true → Returns Q (m s))
    → (b ≡ false → Q tt s)
    → Returns Q (when b m s)
Returns-when Q s true m on_true on_false = on_true refl
Returns-when Q s false m on_true on_false = on_false refl

abbrev pub dead_reply : Reply
dead_reply = record { errno = enotconn; body = []; dies = true }

-- The state after a request on a live device.
abbrev pub asked : Request → Reply → VnodeState → VnodeState
asked request r s = record s {
  mpdata = record s.mpdata { dead = s.mpdata.dead || r.dies };
  exchanges = record { request = request; errno = r.errno; answer = r.body } ∷ s.exchanges;
}

pub Returns-ask :
    (env : Env) (request : Request) (s : VnodeState) (Q : Reply → VnodeState → Type 0)
    → (s.mpdata.dead ≡ true → Q dead_reply s)
    → (s.mpdata.dead ≡ false
        → Q (env.reply s.exchanges request) (asked request (env.reply s.exchanges request) s))
    → Returns Q (ask env request s)
unfolding ask
Returns-ask env request s Q on_true on_false =
    Returns-if Q s s.mpdata.dead (pure dead_reply) (noted request (env.reply s.exchanges request))
      on_true on_false
