-- ===== src/Vnode/Open/Ending.antt =====
-- fuse_vnops.c: fuse_vnop_inactive and fuse_vnop_reclaim end the uses of all file handles.
use kext.Prelude.{ℕ, [], ◌≡◌, refl, ◌∙◌, true, false, not, ◌==◌, arith, inl, inr, Bool-cases}
use kext.Vnode.State.{
  VnodeState, FufhType, fufh_rdonly, fufh_wronly, fufh_rdwr, Env, same_type, ask_forget,
}
use kext.Vnode.Monad.{V, ◌>>=◌, pure, when, tell, noted}
use kext.Vnode.Returns.{Returns, Returns-bind, Returns-mono, Returns-when}
use kext.Vnode.Open.{
  give_back, give_back_all, reclaim_handle, reclaim_handles, forget_node, fuse_vnop_inactive,
  fuse_vnop_reclaim,
}
use kext.Vnode.Open.Quiet.{
  Quiet, Quiet-frame, Quiet-refl, Quiet-trans, opened_times, released_times, uses,
}
use kext.Vnode.Open.Balance.{IsBalanced, Became, Quiet-BalancedBy, same_self}
use kext.Vnode.Open.Closing.{Reached, give_back-Reached, reclaim_handle-Reached}

-- One handle is given back, and those that had no uses have none.
still_none : (s u : VnodeState) (t t' : FufhType) → Became t 0 s u → uses s t' ≡ 0 → uses u t' ≡ 0
still_none s u t t' h e = elim (Bool-cases (same_type t t')) [
  | inl same ↦ h t' ∙ rw same refl
  | inr other ↦ h t' ∙ rw other e
]

now_none : (s u : VnodeState) (t : FufhType) → Became t 0 s u → uses u t ≡ 0
now_none s u t h = h t ∙ rw (same_self t) refl

-- Balanced, and no handle has uses.
abbrev pub Ended : VnodeState → Type 0
Ended u = IsBalanced u × ((t : FufhType) → uses u t ≡ 0)

ended :
    (u : VnodeState)
    → IsBalanced u
    → uses u fufh_rdonly ≡ 0
    → uses u fufh_wronly ≡ 0
    → uses u fufh_rdwr ≡ 0
    → Ended u
ended u b r w rw' = (b, none)
  where
    none : (t : FufhType) → uses u t ≡ 0
    none fufh_rdonly = r
    none fufh_wronly = w
    none fufh_rdwr = rw'

-- Three steps, of which each ends the uses of one handle.
three_steps :
    (step : FufhType → V (Unit {0}))
    → ((t : FufhType) (s : VnodeState) → IsBalanced s → Returns (λ _ u. Reached t 0 s u) (step t s))
    → (s : VnodeState) → IsBalanced s
    → Returns
        (λ _ u. Ended u)
        ((step fufh_rdonly >>= λ _. step fufh_wronly >>= λ _. step fufh_rdwr) s)
three_steps step h s b =
    Returns-bind (λ _ u. Reached fufh_rdonly 0 s u) (λ _ w. Ended w) (step fufh_rdonly s) _
      (h fufh_rdonly s b)
      (λ _ u p.
        Returns-bind (λ _ v. Reached fufh_wronly 0 u v) (λ _ w. Ended w) (step fufh_wronly u) _
          (h fufh_wronly u p.0)
          (λ _ v q.
            Returns-mono (λ _ w. Reached fufh_rdwr 0 v w) (λ _ w. Ended w) (step fufh_rdwr v)
              (h fufh_rdwr v q.0)
              (λ _ w r.
                ended w r.0
                  (still_none v w fufh_rdwr fufh_rdonly r.1
                    (still_none u v fufh_wronly fufh_rdonly q.1 (now_none s u fufh_rdonly p.1)))
                  (still_none v w fufh_rdwr fufh_wronly r.1 (now_none u v fufh_wronly q.1))
                  (now_none v w fufh_rdwr r.1))))

pub fuse_vnop_inactive-Ended :
    (env : Env) (s : VnodeState)
    → IsBalanced s
    → Returns (λ _ u. Ended u) (fuse_vnop_inactive env s)
unfolding fuse_vnop_inactive give_back_all
fuse_vnop_inactive-Ended env s b =
    Returns-bind (λ _ u. Ended u) (λ _ u. Ended u) (give_back_all env s) (λ _. pure 0)
      (three_steps (give_back env) (λ t u. give_back-Reached env t u) s b) (λ _ u h. h)

-- The message to forget the node opens and releases nothing.
tell-Quiet : (n : ℕ) (s : VnodeState) → Returns (λ _ u. Quiet s u) (tell (ask_forget n) s)
unfolding tell opened_times released_times
tell-Quiet n s =
    Returns-when (λ _ u. Quiet s u) s (not s.mpdata.dead)
      (noted (ask_forget n) (record { errno = 0; body = []; dies = false }) >>= λ _. pure tt)
      (λ e. record {
        same_uses = λ t. refl;
        same_ids = λ t. refl;
        same_opened = λ fh. omega arith;
        same_released = λ fh. omega arith;
        lives = λ _. ground (arith, e);
        same_vtype = refl;
      })
      (λ _. Quiet-refl s)

forget_node-Quiet : (s : VnodeState) → Returns (λ _ u. Quiet s u) (forget_node s)
unfolding forget_node
forget_node-Quiet s =
    Returns-when (λ _ u. Quiet s u) s (not (s.fvdat.nlookup == 0))
      (tell (ask_forget s.fvdat.nlookup)) (λ _. tell-Quiet s.fvdat.nlookup s) (λ _. Quiet-refl s)

Quiet-Ended : (s u : VnodeState) → Quiet s u → Ended s → Ended u
Quiet-Ended s u q h = (Quiet-BalancedBy (λ fh. 0) s u q h.0, λ t. q.same_uses t ∙ h.1 t)

-- The handles and the node are given up.
given_up :
    (env : Env) (s : VnodeState)
    → IsBalanced s
    → Returns (λ _ u. Ended u) ((reclaim_handles env >>= λ _. forget_node) s)
unfolding reclaim_handles
given_up env s b =
    Returns-bind (λ _ u. Ended u) (λ _ u. Ended u) (reclaim_handles env s) (λ _. forget_node)
      (three_steps (reclaim_handle env) (λ t u. reclaim_handle-Reached env t u) s b)
      (λ _ u h.
        Returns-mono (λ _ v. Quiet u v) (λ _ v. Ended v) (forget_node u) (forget_node-Quiet u)
          (λ _ v q. Quiet-Ended u v q h))

-- What fuse_vnop_reclaim does on a live device.
pub fuse_vnop_reclaim-Ended :
    (env : Env) (s : VnodeState)
    → IsBalanced s
    → s.mpdata.dead ≡ false
    → Returns (λ _ u. Ended u) (fuse_vnop_reclaim env s)
unfolding fuse_vnop_reclaim
fuse_vnop_reclaim-Ended env s b live =
    Returns-bind (λ _ u. Ended u) (λ _ u. Ended u)
      (when (not s.mpdata.dead) (reclaim_handles env >>= λ _. forget_node) s) _
      (Returns-when (λ _ u. Ended u) s (not s.mpdata.dead)
        (reclaim_handles env >>= λ _. forget_node) (λ _. given_up env s b)
        (λ e. absurd (ground (arith, e, live))))
      (λ _ u h. Quiet-Ended u _ (Quiet-frame u _ refl refl refl refl) h)

-- On a dead device the node is only taken apart.
pub fuse_vnop_reclaim-Quiet :
    (env : Env) (s : VnodeState)
    → s.mpdata.dead ≡ true
    → Returns (λ _ u. Quiet s u) (fuse_vnop_reclaim env s)
unfolding fuse_vnop_reclaim
fuse_vnop_reclaim-Quiet env s dead =
    Returns-bind (λ _ u. Quiet s u) (λ _ u. Quiet s u)
      (when (not s.mpdata.dead) (reclaim_handles env >>= λ _. forget_node) s) _
      (Returns-when (λ _ u. Quiet s u) s (not s.mpdata.dead)
        (reclaim_handles env >>= λ _. forget_node) (λ e. absurd (ground (arith, e, dead)))
        (λ _. Quiet-refl s))
      (λ _ u q. Quiet-trans s u _ q (Quiet-frame u _ refl refl refl refl))
