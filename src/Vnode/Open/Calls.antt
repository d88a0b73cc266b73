-- ===== src/Vnode/Open/Calls.antt =====
-- fuse_vnops.c: what each call on a vnode does to the account of its file handles.
use kext.Prelude.{
  ℕ, ◌<◌, ◌≡◌, ◌≢◌, refl, ap, ◌∙◌, true, false, ◌+◌, ◌-◌, ◌==◌, ◌||◌, if◌then◌else◌, arith, ◌⊎◌,
  inl, inr,
}
use mathlib.Core.Path.{subst}
use kext.Errno.{enoent, enxio, eperm}
use kext.Device.Lifecycle.{Process}
use kext.Vnode.State.{
  VnodeState, FufhType, fufh_rdonly, fufh_wronly, fufh_rdwr, Env, is_dir, is_fifo, bit,
}
use kext.Vnode.Monad.{V, ◌>>=◌, pure, done, when, call}
use kext.Vnode.Session.{fuse_blanket_deny}
use kext.Vnode.Files.{fufh_is_valid, fuse_filehandle_get, fuse_filehandle_xlate_from_fflags}
use kext.Vnode.Returns.{Returns, Returns-bind, Returns-mono, Returns-if, Returns-when}
use kext.Vnode.Open.{
  reuse, opened, got, open_as, drop_use, close_valid, close_as, sync_and_flush, fuse_vnop_open,
  fuse_vnop_close, cache_purge,
}
use kext.Vnode.Open.Quiet.{Quiet, Quiet-frame, Quiet-refl, IsCalm, uses}
use kext.Vnode.Open.Calm.{opened-IsCalm, sync_and_flush-IsCalm}
use kext.Vnode.Open.Balance.{IsBalanced, Quiet-BalancedBy}
use kext.Vnode.Open.Getting.{Took, fuse_filehandle_get-Took}
use kext.Vnode.Open.Closing.{Reached, Became-idle, Became-after, reuse-Reached, drop_use-Reached}

-- The type of handle that the flags of an open or a close name.
pub handle_type : ℕ → FufhType
handle_type fflags =
    if bit 1 fflags then (if bit 0 fflags then fufh_rdwr else fufh_wronly) else fufh_rdonly

-- Flags for which the sources do not panic: FREAD, FWRITE, or none at all.
abbrev pub IsSensible : ℕ → Type 0
IsSensible fflags = (bit 0 fflags || bit 1 fflags || (fflags == 0)) ≡ true

xlate_lem :
    (fflags : ℕ) (s : VnodeState)
    → IsSensible fflags
    → fuse_filehandle_xlate_from_fflags fflags s ≡ done (handle_type fflags) s
unfolding fuse_filehandle_xlate_from_fflags handle_type
xlate_lem fflags s h = ground (arith, h)

-- For a directory always the handle for reading.
abbrev pub chosen : VnodeState → ℕ → FufhType
chosen s fflags = if is_dir s.vtype then fufh_rdonly else handle_type fflags

abbrev typed : VnodeState → ℕ → V FufhType
typed s fflags =
    if is_dir s.vtype then pure fufh_rdonly else fuse_filehandle_xlate_from_fflags fflags

typed_lem :
    (fflags : ℕ) (s : VnodeState) → IsSensible fflags → typed s fflags s ≡ done (chosen s fflags) s
typed_lem fflags s h = ground (arith, xlate_lem fflags s h)

-- Quiet steps after one that changed the uses.
after_Reached :
    (t : FufhType) (n : ℕ) (s u v : VnodeState) → Reached t n s u → Quiet u v → Reached t n s v
after_Reached t n s u v h q = (Quiet-BalancedBy (λ fh. 0) u v q h.0, λ t'. q.same_uses t' ∙ h.1 t')

module _ (env : Env) (t : FufhType) (s : VnodeState) (b : IsBalanced s) (mode : ℕ) where
  opened_then :
      (n : ℕ) (u : VnodeState)
      → Reached t n s u
      → Returns (Took t n s) ((opened env t >>= λ _. pure 0) u)
  unfolding IsCalm
  opened_then n u h =
      Returns-bind (λ _ v. Quiet u v) (Took t n s) (opened env t u) (λ _. pure 0)
        (opened-IsCalm env t u)
        (λ _ v q. let r = after_Reached t n s u v h q in (r.0, inl (refl, r.1)))

  given_up :
      (n err : ℕ) (u : VnodeState)
      → IsBalanced u
      → err ≢ 0
      → ((t' : FufhType) → uses u t' ≡ uses s t')
      → Returns (Took t n s) ((when (err == enoent) (call cache_purge) >>= λ _. pure err) u)
  given_up n err u bal fails same =
      Returns-bind (λ _ v. Quiet u v) (Took t n s) (when (err == enoent) (call cache_purge) u)
        (λ _. pure err)
        (Returns-when (λ _ v. Quiet u v) u (err == enoent) (call cache_purge)
          (λ _. Quiet-frame u _ refl refl refl refl) (λ _. Quiet-refl u))
        (λ _ v q.
          (Quiet-BalancedBy (λ fh. 0) u v q bal, inr (fails, λ t'. q.same_uses t' ∙ same t')))

  got-Took :
      (n err : ℕ) (u : VnodeState) → Took t n s err u → Returns (Took t n s) (got env t err u)
  unfolding got
  got-Took n err u (bal, inl (zero, became)) =
      Returns-if (Took t n s) u (err == 0) (opened env t >>= λ _. pure 0)
        (when (err == enoent) (call cache_purge) >>= λ _. pure err)
        (λ _. opened_then n u (bal, became)) (λ e. absurd (ground (arith, e, zero)))
  got-Took n err u (bal, inr (fails, same)) =
      Returns-if (Took t n s) u (err == 0) (opened env t >>= λ _. pure 0)
        (when (err == enoent) (call cache_purge) >>= λ _. pure err)
        (λ e. absurd (ground (arith, e, fails))) (λ _. given_up n err u bal fails same)

  one_more : uses s t ≡ 0 → 1 ≡ uses s t + 1
  one_more none = omega (arith, none)

  got_new :
      uses s t ≡ 0
      → Returns (Took t (uses s t + 1) s) ((fuse_filehandle_get env t mode >>= got env t) s)
  got_new none =
      Returns-bind (Took t 1 s) (Took t (uses s t + 1) s) (fuse_filehandle_get env t mode s)
        (got env t) (fuse_filehandle_get-Took env t s b none mode)
        (λ err u h.
          subst (λ n. Returns (Took t n s) (got env t err u)) (one_more none) (got-Took 1 err u h))

  pub open_as-Took : Returns (Took t (uses s t + 1) s) (open_as env t mode s)
  unfolding open_as
  open_as-Took =
      Returns-if (Took t (uses s t + 1) s) s (fufh_is_valid (s.fvdat.fufh t))
        (reuse t >>= λ _. opened env t >>= λ _. pure 0)
        (fuse_filehandle_get env t mode >>= got env t)
        (λ e.
          Returns-bind (λ _ u. Reached t (uses s t + 1) s u) (Took t (uses s t + 1) s) (reuse t s) _
            (reuse-Reached t s b (ground (arith, e))) (λ _ u h. opened_then (uses s t + 1) u h))
        (λ e. got_new (ground (arith, e)))

-- No panic: the call's result and state are these.
refined :
    {A B : Type 0} (Q : B → VnodeState → Type 0) (m : V A) (f : A → V B) (a : A) (s : VnodeState)
    → m s ≡ done a s
    → Returns Q (f a s)
    → Returns Q ((m >>= f) s)
refined Q m f a s e h = rw e h

-- From a state whose account of file handles is balanced (each id opened as often as released or
-- held, or at least as often if the device is dead), and for flags that have FREAD or FWRITE or
-- are 0, fuse_vnop_open does not panic and leaves the account balanced. It returns 0 and the
-- handle that the flags name, for a directory the one for reading, has exactly one use more and
-- the others as many as before; or it returns an error and no handle's uses have changed.
pub fuse_vnop_open-Took :
    (env : Env) (mode : ℕ) (context : Process) (s : VnodeState)
    → IsBalanced s
    → IsSensible mode
    → Returns
        (Took (chosen s mode) (uses s (chosen s mode) + 1) s)
        (fuse_vnop_open env mode context s)
unfolding fuse_vnop_open
fuse_vnop_open-Took env mode context s b h =
    Returns-if Q s s.mpdata.dead (pure enxio) _ (λ _. failing enxio (omega arith))
      (λ _.
        Returns-if Q s (is_fifo s.vtype) (pure eperm) _ (λ _. failing eperm (omega arith))
          (λ _.
            Returns-if Q s (fuse_blanket_deny s context) (pure enoent) _
              (λ _. failing enoent (omega arith))
              (λ _.
                refined Q (typed s mode) (λ t. open_as env t mode) (chosen s mode) s
                  (typed_lem mode s h) (open_as-Took env (chosen s mode) s b mode))))
  where
    Q : ℕ → VnodeState → Type 0
    Q = Took (chosen s mode) (uses s (chosen s mode) + 1) s

    failing : (err : ℕ) → err ≢ 0 → Q err s
    failing err e = (b, inr (e, λ t. refl))

-- One use less of the handle that the flags name, unless the device is dead or the kernel is only
-- cleaning up.
abbrev pub Closed : ℕ → VnodeState → VnodeState → Type 0
Closed fflag s u =
    Reached (chosen s fflag)
      (if s.mpdata.dead || (fflag == 16)
        then uses s (chosen s fflag)
        else uses s (chosen s fflag) - 1)
      s u

module _ (env : Env) (t : FufhType) (s : VnodeState) (b : IsBalanced s) where
  after_flush :
      0 < uses s t
      → (u : VnodeState) → Quiet s u
      → Returns (λ _ v. Reached t (uses s t - 1) s v) (drop_use env t u)
  after_flush valid u q =
      Returns-mono (λ _ v. Reached t (uses u t - 1) u v) (λ _ v. Reached t (uses s t - 1) s v)
        (drop_use env t u)
        (drop_use-Reached env t u (Quiet-BalancedBy (λ fh. 0) s u q b) (rw (q.same_uses t) valid))
        (λ _ v h. (
          h.0,
          Became-after s u v t (uses u t - 1) (uses s t - 1) q (ap (λ x. x - 1) (q.same_uses t))
              h.1,
        ))

  flushed : Returns (λ _ u. Quiet s u) ((if is_dir s.vtype then pure 0 else sync_and_flush env t) s)
  unfolding IsCalm
  flushed =
      Returns-if (λ _ u. Quiet s u) s (is_dir s.vtype) (pure 0) (sync_and_flush env t)
        (λ _. Quiet-refl s) (λ _. sync_and_flush-IsCalm env t s)

  pub close_as-Reached : Returns (λ _ u. Reached t (uses s t - 1) s u) (close_as env t s)
  unfolding close_as close_valid
  close_as-Reached =
      Returns-if (λ _ u. Reached t (uses s t - 1) s u) s (fufh_is_valid (s.fvdat.fufh t))
        (close_valid env t) (pure 0)
        (λ e.
          Returns-bind (λ _ u. Quiet s u) (λ _ u. Reached t (uses s t - 1) s u)
            ((if is_dir s.vtype then pure 0 else sync_and_flush env t) s) _ flushed
            (λ err u q.
              Returns-bind (λ _ v. Reached t (uses s t - 1) s v)
                (λ _ v. Reached t (uses s t - 1) s v) (drop_use env t u) (λ _. pure err)
                (after_flush (ground (arith, e)) u q) (λ _ v h. h)))
        (λ e. (b, Became-idle s t (uses s t - 1) (ground (arith, e))))

-- From a state whose account of file handles is balanced, and for flags that are IO_NDELAY, have
-- FREAD or FWRITE, or are 0, fuse_vnop_close does not panic and leaves the account balanced. On a
-- dead device, or for IO_NDELAY, no uses change; otherwise the handle that the flags name, for a
-- directory the one for reading, has one use less, or still none, and the others as many as
-- before.
pub fuse_vnop_close-Closed :
    (env : Env) (fflag : ℕ) (s : VnodeState)
    → IsBalanced s
    → (fflag ≡ 16) ⊎ IsSensible fflag
    → Returns (λ _ u. Closed fflag s u) (fuse_vnop_close env fflag s)
unfolding fuse_vnop_close
fuse_vnop_close-Closed env fflag s b h =
    Returns-if Q s (s.mpdata.dead || (fflag == 16)) (pure 0) _
      (λ e. (b, Became-idle s (chosen s fflag) _ (rw e refl)))
      (λ e.
        refined Q (typed s fflag) (close_as env) (chosen s fflag) s (typed_lem fflag s (sensible e))
          (Returns-mono (λ _ u. Reached (chosen s fflag) (uses s (chosen s fflag) - 1) s u) Q
            (close_as env (chosen s fflag) s) (close_as-Reached env (chosen s fflag) s b)
            (λ err u r. rw e r)))
  where
    Q : ℕ → VnodeState → Type 0
    Q = λ _ u. Closed fflag s u

    sure : (fflag ≡ 16) ⊎ IsSensible fflag → fflag ≢ 16 → IsSensible fflag
    sure (inl x) y = absurd (y x)
    sure (inr x) y = x

    sensible : (s.mpdata.dead || (fflag == 16)) ≡ false → IsSensible fflag
    sensible e = sure h (ground (arith, e))
