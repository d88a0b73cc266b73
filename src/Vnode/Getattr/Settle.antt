-- ===== src/Vnode/Getattr/Settle.antt =====
-- fuse_internal.h: `fuse_internal_attr_loadvap` makes the size that the kernel keeps and the size
-- that is cached one.
use kext.Prelude.{Bool, true, false, not, ◌≡◌, refl, ◌||◌, ◌&&◌, ◌==◌, arith, sym, ◌∙◌}
use kext.Vnode.State.{VnodeState, Env, ask_getxtimes, ubc_msync}
use kext.Vnode.Monad.{pure, ◌>>◌, ask, when, call, on_fvdat}
use kext.Vnode.Returns.{Returns, Returns-bind, Returns-if, Returns-ask, Returns-when}
use kext.Vnode.Session.{fuse_implemented}
use kext.Opcode.{Opcode}
use kext.Vnode.Setattr.{fuse_isxtimes_mp}
use kext.Vnode.Getattr.{
  LoadedAttr, same_time, fsess_auto_cache, WantedTimes, settle_size, settle_modify_time, known_attr,
  take_xtimes, fuse_internal_loadxtimes, fuse_internal_attr_loadvap, misses_create_time,
}

-- What the steps of `fuse_internal_attr_loadvap` leave alone.
pub record Frame (s u : VnodeState) : Type 0 where
  pub synchronous : u.synchronous ≡ s.synchronous
  pub dataflags : u.mpdata.dataflags ≡ s.mpdata.dataflags
  pub fn_direct_io : u.fvdat.fn_direct_io ≡ s.fvdat.fn_direct_io

-- The size that the kernel keeps is that of the cached attributes, which is the daemon's where writes
-- are synchronous; otherwise it is as before.
pub record IsSettled (s u : VnodeState) : Type 0 where
  pub frame : Frame s u
  pub sizes : u.fvdat.filesize ≡ u.fvdat.cached_attr.va_data_size
  pub cached :
      s.synchronous ≡ true → u.fvdat.cached_attr.va_data_size ≡ s.fvdat.cached_attr.va_data_size
  pub own : s.synchronous ≡ false → u.fvdat.filesize ≡ s.fvdat.filesize

settle_size-IsSettled : (s : VnodeState) → Returns (λ _ u. IsSettled s u) (settle_size s)
unfolding settle_size
settle_size-IsSettled s =
    Returns-if (λ _ u. IsSettled s u) s (not s.synchronous) _ _
      (λ e. record {
        frame = record { synchronous = refl; dataflags = refl; fn_direct_io = refl };
        sizes = refl;
        cached = λ f. absurd (ground (arith, e, f));
        own = λ _. refl;
      })
      (λ sync.
        Returns-if (λ _ u. IsSettled s u) s (s.fvdat.filesize == s.fvdat.cached_attr.va_data_size)
          (pure false) _
          (λ e. record {
            frame = record { synchronous = refl; dataflags = refl; fn_direct_io = refl };
            sizes = ground (arith, e);
            cached = λ _. refl;
            own = λ f. absurd (ground (arith, sync, f));
          })
          (λ _. record {
            frame = record { synchronous = refl; dataflags = refl; fn_direct_io = refl };
            sizes = refl;
            cached = λ _. refl;
            own = λ f. absurd (ground (arith, sync, f));
          }))

-- Steps that change neither size.
kept-IsSettled :
    (s u w : VnodeState)
    → IsSettled s u
    → Frame u w
    → w.fvdat.filesize ≡ u.fvdat.filesize
    → w.fvdat.cached_attr.va_data_size ≡ u.fvdat.cached_attr.va_data_size
    → IsSettled s w
kept-IsSettled s u w h f a b = record {
  frame = record {
    synchronous = f.synchronous ∙ h.frame.synchronous;
    dataflags = f.dataflags ∙ h.frame.dataflags;
    fn_direct_io = f.fn_direct_io ∙ h.frame.fn_direct_io;
  };
  sizes = a ∙ h.sizes ∙ sym b;
  cached = λ e. b ∙ h.cached e;
  own = λ e. a ∙ h.own e;
}

settle_modify_time-IsSettled :
    (purged : Bool) (s u : VnodeState)
    → IsSettled s u
    → Returns (λ _ w. IsSettled s w) (settle_modify_time purged u)
unfolding settle_modify_time
settle_modify_time-IsSettled purged s u h =
    Returns-when (λ _ w. IsSettled s w) u
      (not (same_time u.fvdat.modify_time u.fvdat.cached_attr.va_modify_time))
      (on_fvdat (λ v. record v { modify_time = v.cached_attr.va_modify_time })
        >> when (u.mpdata.dataflags fsess_auto_cache && not purged) (call ubc_msync))
      (λ _.
        Returns-when (λ _ w. IsSettled s w) (touched u)
          (u.mpdata.dataflags fsess_auto_cache && not purged) (call ubc_msync)
          (λ _.
            kept-IsSettled s u _ h
              (record { synchronous = refl; dataflags = refl; fn_direct_io = refl }) refl refl)
          (λ _.
            kept-IsSettled s u _ h
              (record { synchronous = refl; dataflags = refl; fn_direct_io = refl }) refl refl))
      (λ _. h)
  where
    touched : VnodeState → VnodeState
    touched v = record v {
      fvdat = record v.fvdat { modify_time = v.fvdat.cached_attr.va_modify_time };
    }

-- The report has the size that the kernel keeps.
pub record Reports (s : VnodeState) (out : LoadedAttr) (u : VnodeState) : Type 0 where
  pub settled : IsSettled s u
  pub size : out.va_data_size ≡ u.fvdat.filesize

loadxtimes-Reports :
    (env : Env) (out : LoadedAttr) (s u : VnodeState)
    → Reports s out u
    → Returns (Reports s) (fuse_internal_loadxtimes env out u)
unfolding fuse_internal_loadxtimes take_xtimes
loadxtimes-Reports env out s u h =
    Returns-if (Reports s) u (not (fuse_isxtimes_mp u.mpdata)) (pure out) _ (λ _. h)
      (λ _.
        Returns-if (Reports s) u u.fvdat.c_xtimes_valid _ _
          (λ _. record { settled = h.settled; size = h.size })
          (λ _.
            Returns-if (Reports s) u
              (not (fuse_implemented u.mpdata Opcode.getxtimes)
                || (u.isvroot && (u.mpdata.dead || not u.mpdata.inited)))
              _ _ (λ _. record { settled = h.settled; size = h.size })
              (λ _.
                Returns-bind (λ _ w. Reports s out w) (Reports s) (ask env ask_getxtimes u) _
                  (Returns-ask env ask_getxtimes u (λ _ w. Reports s out w) (λ _. h)
                    (λ _. record {
                      settled =
                          kept-IsSettled s u _ h.settled
                            (record { synchronous = refl; dataflags = refl; fn_direct_io = refl })
                            refl refl;
                      size = h.size;
                    }))
                  (λ reply w k.
                    Returns-if (Reports s) w (reply.errno == 0) _ _
                      (λ _. record {
                        settled =
                            kept-IsSettled s w _ k.settled
                              (record { synchronous = refl; dataflags = refl; fn_direct_io = refl })
                              refl refl;
                        size = k.size;
                      })
                      (λ _. record { settled = k.settled; size = k.size })))))

known_attr-Reports : (s u : VnodeState) → IsSettled s u → Reports s (known_attr u) u
unfolding known_attr
known_attr-Reports s u h = record { settled = h; size = sym h.sizes }

pub loadvap-Reports :
    (env : Env) (wanted : WantedTimes) (s : VnodeState)
    → Returns (Reports s) (fuse_internal_attr_loadvap env wanted s)
unfolding fuse_internal_attr_loadvap
loadvap-Reports env wanted s =
    Returns-bind (λ _ u. IsSettled s u) (Reports s) (settle_size s) _ (settle_size-IsSettled s)
      (λ purged u h.
        Returns-bind (λ _ w. IsSettled s w) (Reports s) (settle_modify_time purged u) _
          (settle_modify_time-IsSettled purged s u h)
          (λ _ w k.
            Returns-if (Reports s) w
              (wanted.backup_time || (wanted.create_time && misses_create_time (known_attr w))) _ _
              (λ _. loadxtimes-Reports env (known_attr w) s w (known_attr-Reports s w k))
              (λ _. known_attr-Reports s w k)))
