-- ===== src/Vnode/Getattr/Size.antt =====
-- fuse_vnops.c: the size that `fuse_vnop_getattr` reports and the size that the kernel keeps.
use kext.Prelude.{
  ℕ, Bool, ◌∷◌, leb, true, false, not, Option, none, some, List, ◌≡◌, ◌≢◌, refl, Bool-cases, ◌||◌,
  ◌&&◌, ◌/◌, ◌%◌, ◌==◌, arith, ap, sym, ◌∙◌, inl, inr, ◌↔◌,
}
use kext.Device.Lifecycle.{Process}
use kext.Vnode.State.{VnodeState, Env, is_reg, ask_getattr, vncache_purge}
use kext.Vnode.Monad.{pure, ◌>>◌, ask, when, call, on_fvdat}
use kext.Vnode.Returns.{Returns, Returns-bind, Returns-if, Returns-ask, Returns-when}
use kext.Errno.{eio, enoent, enxio, enotconn}
use kext.Ipc.Answer.{u32_at}
use kext.Vnode.Time.{fuse_timespec_cmp}
use kext.Vnode.Attr.{attr_of, written_size, cache_attrs, fuse_internal_attr_fat2vat}
use kext.Vnode.Session.{fuse_isdirectio, fuse_blanket_deny}
use kext.Vnode.Setattr.{Types, is_stale}
use kext.Vnode.Getattr.{
  LoadedAttr, GotAttr, WantedTimes, loaded, faked, load_answer, catch_up, send_getattr, fake,
  fuse_vnop_getattr, fuse_internal_attr_loadvap,
}
use kext.Vnode.Getattr.Settle.{Frame, Reports, loadvap-Reports}

-- The size that is reported is the one that the kernel keeps.
pub record Sized (s : VnodeState) (err : ℕ) (got : Option GotAttr) (u : VnodeState) : Type 0 where
  pub size : (out : LoadedAttr) → got ≡ some (loaded out) → out.va_data_size ≡ u.fvdat.filesize
  pub none_iff : (got ≡ none) ↔ (err ≢ 0)

-- An errno and no attributes; fake attributes.
failed-Sized : (s : VnodeState) (err : ℕ) (u : VnodeState) → err ≢ 0 → Sized s err none u
failed-Sized s err u n = record {
  size = λ out e. absurd (ground arith);
  none_iff = (λ _. n, λ _. refl);
}

faked-Sized : (s : VnodeState) (uid gid : ℕ) (u : VnodeState) → Sized s 0 (some (faked uid gid)) u
faked-Sized s uid gid u = record {
  size = λ out e. absurd (ground arith);
  none_iff = (λ e. absurd (ground arith), λ n. absurd (n refl));
}

-- The size in a result.
abbrev reported_size : Option GotAttr → ℕ
reported_size none = 0
reported_size (some (faked uid gid)) = 0
reported_size (some (loaded out)) = out.va_data_size

loaded-Sized :
    (s : VnodeState) (out : LoadedAttr) (u : VnodeState)
    → out.va_data_size ≡ u.fvdat.filesize
    → Sized s 0 (some (loaded out)) u
loaded-Sized s out u h = record {
  size = λ o e. sym (ap reported_size e) ∙ h;
  none_iff = (λ e. absurd (ground arith), λ n. absurd (n refl));
}

module _ (env : Env) (types : Types) (wanted : WantedTimes) (s : VnodeState) where
  -- The report is right for the size that is kept.
  abbrev Fits : LoadedAttr → VnodeState → Type 0
  Fits out u = out.va_data_size ≡ u.fvdat.filesize

  catch_up-Fits :
      (size : ℕ) (out : LoadedAttr) (c u : VnodeState)
      → (c.synchronous ≡ true → c.fvdat.cached_attr.va_data_size ≡ size)
      → (c.synchronous ≡ false → c.fvdat.filesize ≡ size)
      → Reports c out u
      → Returns (λ _ w. Fits out w) (catch_up env size u)
  unfolding catch_up
  catch_up-Fits size out c u synced own h =
      Returns-when (λ _ w. Fits out w) u (is_reg u.vtype && fuse_isdirectio u)
        (on_fvdat λ v. record v { filesize = size })
        (λ _. elim (Bool-cases c.synchronous) [
          | inl e ↦ h.size ∙ h.settled.sizes ∙ h.settled.cached e ∙ synced e
          | inr e ↦ h.size ∙ h.settled.own e ∙ own e
        ])
        (λ _. h.size)

  abbrev Q : ℕ × Option GotAttr → VnodeState → Type 0
  Q r w = Sized s r.0 r.1 w

  -- The state with the attributes of an answer.
  abbrev fresh : List ℕ → VnodeState → VnodeState
  fresh answer u =
      let c = cache_attrs env.nanouptime answer u in
      record c { fvdat = record c.fvdat { c_xtimes_valid = false } }

  load_answer-Sized :
      (answer : List ℕ) (u : VnodeState)
      → Frame s u
      → Returns Q (load_answer env types wanted answer u)
  unfolding load_answer cache_attrs fuse_internal_attr_fat2vat
  load_answer-Sized answer u frame =
      Returns-if Q u ((u32_at 88 answer / 4096) % 16 == 0) (pure (eio, none)) _
        (λ _. failed-Sized s eio u (ground arith))
        (λ _.
          Returns-bind (Reports (fresh answer u)) Q
            (fuse_internal_attr_loadvap env wanted (fresh answer u)) _
            (loadvap-Reports env wanted (fresh answer u))
            (λ out v h.
              Returns-bind (λ _ w. Fits out w) Q (catch_up env (written_size u (attr_of answer)) v)
                _
                (catch_up-Fits (written_size u (attr_of answer)) out (fresh answer u) v (λ _. refl)
                  (λ e. rw e refl) h)
                (λ _ w k.
                  Returns-if Q w (is_stale types env answer) _ _
                    (λ _.
                      failed-Sized s eio (record w { calls = vncache_purge ∷ w.calls })
                        (ground arith))
                    (λ _. loaded-Sized s out w k))))

  fake-Sized : (u : VnodeState) → Returns Q (fake env u)
  unfolding fake
  fake-Sized u = faked-Sized s u.mpdata.daemon_uid u.mpdata.daemon_gid u

  unknown-Sized :
      (b : Bool) (err : ℕ) (w : VnodeState)
      → err ≢ 0
      → Returns Q ((when b (call vncache_purge) >> pure (err, none)) w)
  unknown-Sized true err w n = failed-Sized s err (record w { calls = vncache_purge ∷ w.calls }) n
  unknown-Sized false err w n = failed-Sized s err w n

  send_getattr-Sized : (u : VnodeState) → Frame s u → Returns Q (send_getattr env types wanted u)
  unfolding send_getattr
  send_getattr-Sized u frame =
      Returns-bind (λ _ w. Frame s w) Q (ask env ask_getattr u) _
        (Returns-ask env ask_getattr u (λ _ w. Frame s w) (λ _. frame)
          (λ _. record {
            synchronous = frame.synchronous;
            dataflags = frame.dataflags;
            fn_direct_io = frame.fn_direct_io;
          }))
        (λ reply w f.
          Returns-if Q w (reply.errno == 0) (load_answer env types wanted reply.body) _
            (λ _. load_answer-Sized reply.body w f)
            (λ n.
              Returns-if Q w (reply.errno == enotconn && u.isvroot) (fake env) _ (λ _. fake-Sized w)
                (λ _. unknown-Sized (reply.errno == enoent) reply.errno w (ground arith))))

  -- From every state, with every daemon and for every process, fuse_vnop_getattr does not panic,
  -- and it returns attributes exactly if the errno is 0. Where it returns the node's own
  -- attributes, cached or new, the size that it reports is the size that the kernel keeps for the
  -- file afterwards, also on an asynchronous mount and for a file with direct I/O.
  pub fuse_vnop_getattr-Sized :
      (context : Process) → Returns Q (fuse_vnop_getattr env types wanted context s)
  unfolding fuse_vnop_getattr
  fuse_vnop_getattr-Sized context =
      Returns-if Q s s.mpdata.dead _ _
        (λ _.
          Returns-if Q s s.isvroot (fake env) (pure (enxio, none)) (λ _. fake-Sized s)
            (λ _. failed-Sized s enxio s (ground arith)))
        (λ _.
          Returns-if Q s ((not s.isvroot || not (context.uid == 0)) && fuse_blanket_deny s context)
            (pure (enoent, none)) _ (λ _. failed-Sized s enoent s (ground arith))
            (λ _.
              Returns-if Q s (fuse_timespec_cmp leb env.nanouptime s.fvdat.attr_valid) _ _
                (λ _.
                  Returns-bind (Reports s) Q (fuse_internal_attr_loadvap env wanted s) _
                    (loadvap-Reports env wanted s) (λ out w h. loaded-Sized s out w h.size))
                (λ _.
                  Returns-if Q s s.mpdata.inited (send_getattr env types wanted) _
                    (λ _.
                      send_getattr-Sized s
                        (record { synchronous = refl; dataflags = refl; fn_direct_io = refl }))
                    (λ _.
                      Returns-if Q s s.isvroot (fake env) _ (λ _. fake-Sized s)
                        (λ _.
                          failed-Sized s enotconn
                            (record s { mpdata = record s.mpdata { dead = true } })
                            (ground arith))))))
