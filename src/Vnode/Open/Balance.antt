-- ===== src/Vnode/Open/Balance.antt =====
-- The account of file handles: what was opened, what was released, what is held.
use kext.Prelude.{
  ℕ, ◌≤◌, ◌≡◌, refl, ap, ◌∙◌, true, false, ◌+◌, ◌==◌, if◌then◌else◌, arith, Bool, not,
}
use kext.Vnode.State.{
  VnodeState, FufhType, fufh_rdonly, fufh_wronly, fufh_rdwr, Env, same_type, ask_release, is_dir,
  Reply, Request, FuseFilehandle,
}
use kext.Vnode.Monad.{V, ask, ◌>>=◌, pure, decrement, fail, update}
use kext.Vnode.Attr.{fuse_invalidate_attr}
use kext.Vnode.Files.{fufh_is_valid, fuse_filehandle_put, send_release, finish_release}
use kext.Vnode.Returns.{Returns, Returns-bind, Returns-if, Returns-when, Returns-ask, asked}
use kext.Vnode.Open.Quiet.{
  Quiet, opened_times, released_times, holds, held_times, uses, id_of, Quiet-frame, held_in,
}

-- Every id was opened at least as often as it was released or is held; on a live device exactly so.
-- `owed` is what has still to be released.
pub record BalancedBy (owed : ℕ → ℕ) (s : VnodeState) : Type 0 where
  pub covered :
      (fh : ℕ)
      → released_times fh s.exchanges + held_times fh s + owed fh ≤ opened_times fh s.exchanges
  pub exact :
      s.mpdata.dead ≡ false
      → (fh : ℕ)
      → released_times fh s.exchanges + held_times fh s + owed fh ≡ opened_times fh s.exchanges

abbrev pub IsBalanced : VnodeState → Type 0
IsBalanced = BalancedBy (λ fh. 0)

pub Quiet-held : (s u : VnodeState) → Quiet s u → (fh : ℕ) → held_times fh u ≡ held_times fh s
unfolding held_in
Quiet-held s u q fh =
    rw
      (
        q.same_uses fufh_rdonly,
        q.same_uses fufh_wronly,
        q.same_uses fufh_rdwr,
        q.same_ids fufh_rdonly,
        q.same_ids fufh_wronly,
        q.same_ids fufh_rdwr,
      )
      refl

pub Quiet-BalancedBy :
    (owed : ℕ → ℕ) (s u : VnodeState) → Quiet s u → BalancedBy owed s → BalancedBy owed u
Quiet-BalancedBy owed s u q b = record {
  covered =
      λ fh. omega (arith, b.covered fh, q.same_opened fh, q.same_released fh, Quiet-held s u q fh);
  exact = λ live fh.
      omega (
        arith,
        b.exact (q.lives live) fh,
        q.same_opened fh,
        q.same_released fh,
        Quiet-held s u q fh,
      );
}

-- The uses of one handle are changed to a number, the others' are not.
abbrev pub Became : FufhType → ℕ → VnodeState → VnodeState → Type 0
Became t n s u = (t' : FufhType) → uses u t' ≡ (if same_type t t' then n else uses s t')

-- What a handle contributes before and after it is replaced.
held_update :
    (t : FufhType) (fh : ℕ) (s u : VnodeState)
    → ((t' : FufhType)
        → same_type t t' ≡ false
        → (uses u t' ≡ uses s t') × (id_of u t' ≡ id_of s t'))
    → held_times fh u + holds fh (uses s t) (id_of s t)
      ≡ held_times fh s + holds fh (uses u t) (id_of u t)
unfolding same_type held_in
held_update fufh_rdonly fh s u other =
    let (a, b) = other fufh_wronly refl in
    let (c, d) = other fufh_rdwr refl in rw (a, b, c, d) (omega arith)
held_update fufh_wronly fh s u other =
    let (a, b) = other fufh_rdonly refl in
    let (c, d) = other fufh_rdwr refl in rw (a, b, c, d) (omega arith)
held_update fufh_rdwr fh s u other =
    let (a, b) = other fufh_rdonly refl in
    let (c, d) = other fufh_wronly refl in rw (a, b, c, d) (omega arith)

pub same_self : (t : FufhType) → same_type t t ≡ true
unfolding same_type
same_self fufh_rdonly = refl
same_self fufh_wronly = refl
same_self fufh_rdwr = refl

pub update_self :
    (fufh : FufhType → FuseFilehandle) (t : FufhType) (h : FuseFilehandle) → update fufh t h t ≡ h
update_self fufh t h = rw (same_self t) refl

pub update_other :
    (fufh : FufhType → FuseFilehandle) (t u : FufhType) (h : FuseFilehandle)
    → same_type t u ≡ false
    → update fufh t h u ≡ fufh u
update_other fufh t u h e = rw e refl

pub update_uses :
    (fufh : FufhType → FuseFilehandle) (t : FufhType) (h : FuseFilehandle) (u : FufhType)
    → (update fufh t h u).open_count ≡ (if same_type t u then h.open_count else (fufh u).open_count)
update_uses fufh t h u = ap-if (same_type t u)
  where
    ap-if :
        (b : Bool)
        → (if b then h else fufh u).open_count ≡ (if b then h.open_count else (fufh u).open_count)
    ap-if true = refl
    ap-if false = refl

-- The state with another handle.
abbrev pub with_fufh : VnodeState → FufhType → FuseFilehandle → VnodeState
with_fufh s t h = record s { fvdat = record s.fvdat { fufh = update s.fvdat.fufh t h } }

pub held_with_fufh :
    (s : VnodeState) (t : FufhType) (h : FuseFilehandle) (fh : ℕ)
    → held_times fh (with_fufh s t h) + holds fh (uses s t) (id_of s t)
      ≡ held_times fh s + holds fh h.open_count h.fh_id
held_with_fufh s t h fh =
    held_update t fh s (with_fufh s t h) (λ t' e. (
      ap (λ g. g.open_count) (update_other s.fvdat.fufh t t' h e),
      ap (λ g. g.fh_id) (update_other s.fvdat.fufh t t' h e),
    ))
    ∙ ap (λ g. held_times fh s + holds fh g.open_count g.fh_id) (update_self s.fvdat.fufh t h)

-- Balanced, and the uses of every handle as before.
abbrev pub Settled : VnodeState → VnodeState → Type 0
Settled s u = IsBalanced u × ((t : FufhType) → uses u t ≡ uses s t)

closing :
    (u : VnodeState)
    → Quiet u (fuse_invalidate_attr (record u { fh_current = decrement u.fh_current }))
unfolding fuse_invalidate_attr
closing u = Quiet-frame u _ refl refl refl refl

module _ (env : Env) (t : FufhType) (s : VnodeState)
    (b : BalancedBy (λ fh. if id_of s t == fh then 1 else 0) s) where
  -- The release of the handle's id is noted.
  paid :
      (isdir : Bool) (flags : ℕ) (r : Reply)
      → s.mpdata.dead ≡ false
      → Settled s (asked (ask_release isdir (id_of s t) flags) r s)
  unfolding opened_times released_times
  paid isdir flags r live = (
    record {
      covered = λ fh. omega (arith, b.covered fh);
      exact = λ live' fh. omega (arith, b.exact live fh);
    },
    λ t'. refl,
  )

  forgiven : s.mpdata.dead ≡ true → Settled s s
  forgiven dead = (
    record {
      covered = λ fh. omega (arith, b.covered fh);
      exact = λ live fh. ground (arith, dead, live);
    },
    λ t'. refl,
  )

  send_release-Settled : Returns (λ _ u. Settled s u) (send_release env t s)
  unfolding send_release
  send_release-Settled =
      Returns-when (λ _ u. Settled s u) s (not s.mpdata.dead) (releasing >>= λ _. pure tt)
        (λ live.
          Returns-bind (λ _ u. Settled s u) (λ _ u. Settled s u) (releasing s) (λ _. pure tt)
            (Returns-ask env request s (λ _ u. Settled s u) forgiven
              (paid (is_dir s.vtype) (s.fvdat.fufh t).open_flags (env.reply s.exchanges request)))
            (λ _ u h. h))
        (λ dead. forgiven (ground (arith, dead)))
    where
      request : Request
      request = ask_release (is_dir s.vtype) (id_of s t) (s.fvdat.fufh t).open_flags

      releasing : V Reply
      releasing = ask env request

  -- A handle that has no uses is released: what was owed for it is paid, or the device is dead.
  pub fuse_filehandle_put-Settled :
      uses s t ≡ 0 → Returns (λ _ u. Settled s u) (fuse_filehandle_put env t s)
  unfolding fuse_filehandle_put finish_release
  fuse_filehandle_put-Settled none =
      Returns-if (λ _ u. Settled s u) s (fufh_is_valid (s.fvdat.fufh t)) fail (finish_release env t)
        (λ e. absurd (ground (arith, e, none)))
        (λ _.
          Returns-bind (λ _ u. Settled s u) (λ _ u. Settled s u) (send_release env t s) _
            send_release-Settled
            (λ _ u h. (
              Quiet-BalancedBy (λ _. 0) u _ (closing u) h.0,
              λ t'. (closing u).same_uses t' ∙ h.1 t',
            )))
