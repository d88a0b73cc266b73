-- ===== src/Vnode/Open/Calm.antt =====
-- Which operations on an open vnode leave the account of file handles alone.
use kext.Prelude.{ℕ, ◌≡◌, refl, List, not, ◌==◌, ◌&&◌, ◌/◌, ◌%◌, if◌then◌else◌, Bool, false, true}
use kext.Errno.{enoent}
use kext.Ipc.Answer.{u32_at}
use kext.Vnode.State.{
  VnodeState, FufhType, fufh_rdonly, fufh_wronly, fufh_rdwr, FuseFilehandle, Env, bit, same_type,
  ask_getattr, ask_flush, cluster_push, ubc_msync, vnode_setnoreadahead, cache_purge, vncache_purge,
}
use kext.Vnode.Monad.{◌>>◌, pure, get, modify, when, call, ask, update}
use kext.Vnode.Session.{fuse_isnosynconclose, fuse_clearnosyncwrites_mp, fsess_no_syncwrites}
use kext.Vnode.Returns.{Returns, Returns-bind, Returns-when}
use kext.Vnode.Attr.{cache_attrs, fuse_invalidate_attr}
use kext.Vnode.Files.{open_failed}
use kext.Vnode.Open.{
  clear_open_flag, go_direct, take_attrs, refresh_attrs, purge, opened, flush_handle,
  sync_and_flush, without_flush,
}
use kext.Vnode.Open.Quiet.{
  IsCalm, IsCalm-bind, IsCalm-get, IsCalm-pure, IsCalm-when, IsCalm-if, IsCalm-call, IsCalm-ask,
  Quiet, Quiet-frame, Quiet-refl, Quiet-trans,
}

-- A handle is replaced by one that agrees with it in a field.
update_same :
    {X : Type 0} (field : FuseFilehandle → X) (fufh : FufhType → FuseFilehandle) (t : FufhType)
    (h : FuseFilehandle)
    → field h ≡ field (fufh t)
    → (u : FufhType) → field (update fufh t h u) ≡ field (fufh u)
unfolding same_type
update_same field fufh fufh_rdonly h e fufh_rdonly = e
update_same field fufh fufh_rdonly h e fufh_wronly = refl
update_same field fufh fufh_rdonly h e fufh_rdwr = refl
update_same field fufh fufh_wronly h e fufh_rdonly = refl
update_same field fufh fufh_wronly h e fufh_wronly = e
update_same field fufh fufh_wronly h e fufh_rdwr = refl
update_same field fufh fufh_rdwr h e fufh_rdonly = refl
update_same field fufh fufh_rdwr h e fufh_wronly = refl
update_same field fufh fufh_rdwr h e fufh_rdwr = e

clear_open_flag-IsCalm : (t : FufhType) (i : ℕ) → IsCalm (clear_open_flag t i)
unfolding IsCalm clear_open_flag
clear_open_flag-IsCalm t i s = record {
  same_uses = update_same (λ h. h.open_count) s.fvdat.fufh t _ refl;
  same_ids = update_same (λ h. h.fh_id) s.fvdat.fufh t _ refl;
  same_opened = λ fh. refl;
  same_released = λ fh. refl;
  lives = λ h. h;
  same_vtype = refl;
}

-- A change of the node, the mount or the session that keeps the handles and the device's state.
modify-IsCalm :
    (f : VnodeState → VnodeState) → ((s : VnodeState) → Quiet s (f s)) → IsCalm (modify f)
unfolding IsCalm
modify-IsCalm f h = h

invalidate-Quiet : (s : VnodeState) → Quiet s (fuse_invalidate_attr s)
unfolding fuse_invalidate_attr
invalidate-Quiet s = Quiet-frame s _ refl refl refl refl

synchronous_again-Quiet : (s : VnodeState) → Quiet s (fuse_clearnosyncwrites_mp s)
unfolding fuse_clearnosyncwrites_mp
synchronous_again-Quiet s = either s.synchronous
  where
    either :
        (b : Bool)
        → Quiet s (
            if b then s else record s {
              async = false;
              synchronous = true;
              mpdata = record s.mpdata {
                dataflags = λ i. not (fsess_no_syncwrites == i) && s.mpdata.dataflags i;
              };
            })
    either true = Quiet-refl s
    either false = Quiet-frame s _ refl refl refl refl

go_direct-IsCalm : IsCalm go_direct
unfolding go_direct IsCalm
go_direct-IsCalm s =
    Quiet-trans s _ _ (Quiet-frame s _ refl refl refl refl)
      (Quiet-trans _ _ _ (synchronous_again-Quiet _) (Quiet-frame _ _ refl refl refl refl))

-- `open_failed` hands the errno on.
pub open_failed-Quiet :
    (err : ℕ) (s : VnodeState) → Returns (λ e u. (e ≡ err) × Quiet s u) (open_failed err s)
unfolding open_failed IsCalm
open_failed-Quiet err s =
    Returns-bind (λ _ u. Quiet s u) (λ e u. (e ≡ err) × Quiet s u)
      (when (err == enoent) (call cache_purge >> call vncache_purge) s) (λ _. pure err)
      (Returns-when (λ _ u. Quiet s u) s (err == enoent) (call cache_purge >> call vncache_purge)
        (λ _. Quiet-frame s _ refl refl refl refl) (λ _. Quiet-refl s))
      (λ _ u q. (refl, q))

take_attrs-IsCalm : (env : Env) (bytes : List ℕ) → IsCalm (take_attrs env bytes)
unfolding take_attrs cache_attrs IsCalm
take_attrs-IsCalm env bytes s = Quiet-frame s _ refl refl refl refl

without_flush-IsCalm : IsCalm without_flush
unfolding without_flush IsCalm
without_flush-IsCalm s = Quiet-frame s _ refl refl refl refl

module _ (env : Env) where
  refresh_attrs-IsCalm : (t : FufhType) → IsCalm (refresh_attrs env t)
  unfolding refresh_attrs
  refresh_attrs-IsCalm t =
      IsCalm-bind (modify fuse_invalidate_attr) _
        (modify-IsCalm fuse_invalidate_attr invalidate-Quiet)
        λ _.
          IsCalm-bind (ask env ask_getattr) _
            (IsCalm-ask env ask_getattr (λ fh errno answer. refl) (λ fh. refl))
            λ answer.
              IsCalm-bind
                (when (answer.errno == 0 && not ((u32_at 88 answer.body / 4096) % 16 == 0))
                  (take_attrs env answer.body))
                _ (IsCalm-when _ _ (take_attrs-IsCalm env answer.body))
                λ _. clear_open_flag-IsCalm t 30

  purge-IsCalm : (t : FufhType) → IsCalm (purge env t)
  unfolding purge
  purge-IsCalm t = IsCalm-bind (call ubc_msync) _ (IsCalm-call ubc_msync) λ _.
      IsCalm-bind (clear_open_flag t 31) _ (clear_open_flag-IsCalm t 31) λ _.
        IsCalm-bind get _ IsCalm-get λ s.
          IsCalm-when (bit 30 (s.fvdat.fufh t).fuse_open_flags) (refresh_attrs env t)
            (refresh_attrs-IsCalm t)

  pub opened-IsCalm : (t : FufhType) → IsCalm (opened env t)
  unfolding opened
  opened-IsCalm t = IsCalm-bind get _ IsCalm-get λ s. IsCalm-if _ _ _ go_direct-IsCalm (
      IsCalm-bind (when (bit 31 (s.fvdat.fufh t).fuse_open_flags) (purge env t)) _
        (IsCalm-when _ (purge env t) (purge-IsCalm t))
        λ _.
          IsCalm-bind get _ IsCalm-get
            λ u. IsCalm-when _ (call vnode_setnoreadahead) (IsCalm-call vnode_setnoreadahead))

  flush_handle-IsCalm : (t : FufhType) → IsCalm (flush_handle env t)
  unfolding flush_handle
  flush_handle-IsCalm t = IsCalm-bind get _ IsCalm-get λ s.
      IsCalm-if _ _ _
        (IsCalm-bind (ask env (ask_flush (s.fvdat.fufh t).fh_id)) _
          (IsCalm-ask env _ (λ fh errno answer. refl) (λ fh. refl))
          λ answer.
            IsCalm-if _ _ _ (IsCalm-bind without_flush _ without_flush-IsCalm λ _. IsCalm-pure 0)
              (IsCalm-pure _))
        (IsCalm-pure 0)

  pub sync_and_flush-IsCalm : (t : FufhType) → IsCalm (sync_and_flush env t)
  unfolding sync_and_flush
  sync_and_flush-IsCalm t = IsCalm-bind get _ IsCalm-get λ s.
      IsCalm-bind (when (env.hasdirtyblks && not (fuse_isnosynconclose s)) (call cluster_push)) _
        (IsCalm-when _ (call cluster_push) (IsCalm-call cluster_push)) λ _. flush_handle-IsCalm t
