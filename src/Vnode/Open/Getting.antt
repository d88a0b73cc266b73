-- ===== src/Vnode/Open/Getting.antt =====
-- The account when a file handle is asked for.
use kext.Prelude.{
  ℕ, ◌≡◌, ◌≢◌, refl, sym, ◌∙◌, false, ◌+◌, ◌==◌, if◌then◌else◌, arith, ◌⊎◌, inl, inr, Bool,
}
use kext.Errno.{enotconn}
use kext.Vnode.State.{VnodeState, FufhType, FuseFilehandle, Env, Reply, ask_open, is_dir}
use kext.Vnode.Monad.{V, ask, update, fail, increment, ◌>>=◌}
use kext.Vnode.Files.{
  fufh_is_valid, fuse_filehandle_get, request_open, accept, open_failed, oflags_of, effective_type,
  handle_of,
}
use kext.Vnode.Returns.{Returns, Returns-bind, Returns-mono, Returns-if, Returns-ask, asked}
use kext.Vnode.Open.Quiet.{
  Quiet, Quiet-frame, Quiet-trans, opened_times, released_times, holds, held_in, uses, Quiet-refl,
}
use kext.Vnode.Open.Calm.{open_failed-Quiet, open_failed-Quiet}
use kext.Vnode.Open.Balance.{IsBalanced, Became, Quiet-BalancedBy, held_with_fufh, update_uses}

-- Balanced; on success the handle has so many uses, otherwise all uses are as before.
abbrev pub Took : FufhType → ℕ → VnodeState → ℕ → VnodeState → Type 0
Took t n s err u =
    IsBalanced u
    × (((err ≡ 0) × Became t n s u) ⊎ ((err ≢ 0) × ((t' : FufhType) → uses u t' ≡ uses s t')))

module _ (t : FufhType) (isdir : Bool) (oflags : ℕ) (s : VnodeState) (b : IsBalanced s)
    (none : uses s t ≡ 0) (r : Reply) (live : s.mpdata.dead ≡ false) where
  failed-Quiet : r.errno ≢ 0 → Quiet s (asked (ask_open isdir oflags) r s)
  unfolding opened_times released_times
  failed-Quiet h = record {
    same_uses = λ t'. refl;
    same_ids = λ t'. refl;
    same_opened = λ fh. ground (arith, h);
    same_released = λ fh. omega arith;
    lives = λ _. live;
    same_vtype = refl;
  }

  -- What the new handle adds to what is held.
  gained :
      (h : FuseFilehandle) (fh : ℕ)
      → held_in fh (update s.fvdat.fufh t h)
        ≡ held_in fh s.fvdat.fufh + holds fh h.open_count h.fh_id
  gained h fh = ground (arith, held_with_fufh s t h fh, none)

  accepted :
      r.errno ≡ 0
      → Returns (Took t 1 s) (accept t oflags r.body (asked (ask_open isdir oflags) r s))
  unfolding accept opened_times released_times
  accepted e = (
    record {
      covered = λ fh. ground (arith, gained (handle_of oflags r.body) fh, b.covered fh, e);
      exact = λ live' fh. ground (arith, gained (handle_of oflags r.body) fh, b.exact live fh, e);
    },
    inl (refl, update_uses s.fvdat.fufh t (handle_of oflags r.body)),
  )

module _ (t : FufhType) (oflags : ℕ) (s : VnodeState) (b : IsBalanced s) (none : uses s t ≡ 0) where
  unchanged : (err : ℕ) (u : VnodeState) → err ≢ 0 → Quiet s u → Took t 1 s err u
  unchanged err u h q = (Quiet-BalancedBy (λ fh. 0) s u q b, inr (h, q.same_uses))

  refused :
      (err : ℕ) (u : VnodeState) → err ≢ 0 → Quiet s u → Returns (Took t 1 s) (open_failed err u)
  refused err u h q =
      Returns-mono (λ e v. (e ≡ err) × Quiet u v) (Took t 1 s) (open_failed err u)
        (open_failed-Quiet err u)
        (λ e v p. unchanged e v (λ zero. h (sym p.0 ∙ zero)) (Quiet-trans s u v q p.1))

  -- What comes after the daemon's answer.
  abbrev answered : Reply → V ℕ
  answered r = if r.errno == 0 then accept t oflags r.body else open_failed r.errno

  answered-Took :
      (isdir : Bool) (r : Reply)
      → s.mpdata.dead ≡ false
      → Returns (Took t 1 s) (answered r (asked (ask_open isdir oflags) r s))
  answered-Took isdir r live =
      Returns-if (Took t 1 s) (asked (ask_open isdir oflags) r s) (r.errno == 0)
        (accept t oflags r.body) (open_failed r.errno)
        (λ e. accepted t isdir oflags s b none r live (ground (arith, e)))
        (λ e.
          refused r.errno _ (ground (arith, e))
            (failed-Quiet t isdir oflags s b none r live (ground (arith, e))))

  asked_open-Took :
      (env : Env) (isdir : Bool)
      → Returns (Took t 1 s) ((ask env (ask_open isdir oflags) >>= answered) s)
  asked_open-Took env isdir =
      Returns-bind (λ r u. Returns (Took t 1 s) (answered r u)) (Took t 1 s)
        (ask env (ask_open isdir oflags) s) answered
        (Returns-ask env (ask_open isdir oflags) s (λ r u. Returns (Took t 1 s) (answered r u))
          (λ _. refused enotconn s (omega arith) (Quiet-refl s))
          (λ live. answered-Took isdir (env.reply s.exchanges (ask_open isdir oflags)) live))
        (λ r u h. h)

module _ (env : Env) (t : FufhType) (s : VnodeState) (b : IsBalanced s) (none : uses s t ≡ 0)
    (mode : ℕ) where
  request_open-Took : Returns (Took t 1 s) (request_open env t mode s)
  unfolding request_open
  request_open-Took =
      asked_open-Took t (oflags_of s (effective_type s t) mode) bumped
        (Quiet-BalancedBy (λ fh. 0) s bumped (Quiet-frame s bumped refl refl refl refl) b) none env
        (is_dir s.vtype)
    where
      bumped : VnodeState
      bumped = record s { fh_upcall_count = increment s.fh_upcall_count }

  pub fuse_filehandle_get-Took : Returns (Took t 1 s) (fuse_filehandle_get env t mode s)
  unfolding fuse_filehandle_get
  fuse_filehandle_get-Took =
      Returns-if (Took t 1 s) s (fufh_is_valid (s.fvdat.fufh t)) fail (request_open env t mode)
        (λ e. absurd (ground (arith, e, none))) (λ _. request_open-Took)
