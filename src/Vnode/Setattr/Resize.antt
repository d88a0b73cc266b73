-- ===== src/Vnode/Setattr/Resize.antt =====
-- fuse_vnops.c: the size of the file after `fuse_vnop_setattr`.
use kext.Prelude.{
  ℕ, Bool, ◌&&◌, ◌||◌, true, false, not, Option, none, some, List, ◌∷◌, ◌≡◌, ◌≢◌, refl, ◌⊎◌, inl,
  inr, ◌==◌, if◌then◌else◌, arith, ap, sym, ◌∙◌, Bool-cases, Option-cases,
}
use kext.Errno.{eagain, enxio, enoent, eisdir, erofs}
use kext.Device.Lifecycle.{Process}
use kext.Vnode.State.{
  VnodeState, Env, Exchange, FuseSetattrIn, ubc_setsize, vncache_purge, is_dir, is_reg, ask_setattr,
}
use kext.Vnode.Monad.{done, pure, ask, bind_outcome, when}
use kext.Vnode.Attr.{cache_attrs, fuse_invalidate_attr}
use kext.Vnode.Returns.{Returns, Returns-bind, Returns-if, Returns-ask, Returns-mono}
use kext.Vnode.Session.{fuse_blanket_deny}
use kext.Vnode.Setattr.Request.{vat2fsai-size, any_below-size}
use kext.Vnode.Setattr.{
  Types, ActiveAttr, fuse_internal_attr_vat2fsai, changed, resize, send_setattr, fuse_vnop_setattr,
  is_stale, forget_xtimes, any_below, beyond_size, is_some, is_dir,
}

-- The size that was asked for, or the one of before.
abbrev pub new_size : Option ℕ → ℕ → ℕ
new_size none old = old
new_size (some size) old = size

module _ (types : Types) (env : Env) (vap : ActiveAttr) (buffer : FuseSetattrIn)
    (s : VnodeState) where
  abbrev asked_for : FuseSetattrIn
  asked_for = fuse_internal_attr_vat2fsai types s vap buffer

  -- The size, the requests and the kernel's cache after the errno.
  pub record Resized (err : ℕ) (u : VnodeState) : Type 0 where
    pub size :
        u.fvdat.filesize
        ≡ (if err == 0 then new_size vap.va_data_size s.fvdat.filesize else s.fvdat.filesize)
    pub requests :
        (u.exchanges ≡ s.exchanges)
        ⊎ ((e : Exchange) × (u.exchanges ≡ e ∷ s.exchanges) × (e.request ≡ ask_setattr asked_for))
    pub resized :
        (n : ℕ)
        → err ≡ 0
        → vap.va_data_size ≡ some n
        → (u.calls ≡ ubc_setsize n ∷ s.calls)
          × (u.fvdat.attr_valid.tv_sec ≡ 0)
          × (u.fvdat.attr_valid.tv_nsec ≡ 0)
    pub directory :
        (n : ℕ)
        → is_dir s.vtype ≡ true
        → vap.va_data_size ≡ some n
        → (err ≢ 0) × (u.exchanges ≡ s.exchanges)

  -- An errno before anything was sent.
  refused-Resized : (err : ℕ) → err ≢ 0 → Resized err s
  refused-Resized err n = record {
    size = ground arith;
    requests = inl refl;
    resized = λ m e. absurd (n e);
    directory = λ m d e. (n, refl);
  }

  -- The state after the request, and what it is known to have.
  record Asked (u : VnodeState) : Type 0 where
    fvdat : u.fvdat ≡ s.fvdat
    calls : u.calls ≡ s.calls
    requests :
        (e : Exchange) × (u.exchanges ≡ e ∷ s.exchanges) × (e.request ≡ ask_setattr asked_for)

  -- The state once the type was found to have changed, and once the size was changed.
  abbrev purged : VnodeState → VnodeState
  purged u = record u { calls = vncache_purge ∷ u.calls }

  abbrev with_size : ℕ → VnodeState → VnodeState
  with_size n u = record u {
    fvdat = record u.fvdat {
      attr_valid = record { tv_sec = 0; tv_nsec = 0 };
      c_xtimes_valid = false;
      filesize = n;
    };
    calls = ubc_setsize n ∷ u.calls;
  }

  changed_stale :
      (answer : List ℕ) (u : VnodeState)
      → is_stale types env answer ≡ true
      → changed types env vap asked_for answer u ≡ done eagain (purged u)
  unfolding changed
  changed_stale answer u e = rw (e) refl

  changed_size :
      (answer : List ℕ) (u : VnodeState) (n : ℕ)
      → is_stale types env answer ≡ false
      → vap.va_data_size ≡ some n
      → changed types env vap asked_for answer u ≡ done 0 (with_size n u)
  unfolding changed resize fuse_invalidate_attr
  changed_size answer u n e f = rw (e, f) refl

  Cached : VnodeState → ℕ → VnodeState → Type 0
  Cached u err w = (err ≡ 0) × (w.fvdat.filesize ≡ u.fvdat.filesize) × (w.exchanges ≡ u.exchanges)

  forget_xtimes-Cached :
      (answer : List ℕ) (u : VnodeState) (b : Bool)
      → Returns (Cached u) (
          bind_outcome
            (when b forget_xtimes (cache_attrs env.nanouptime answer u))
            (λ _ w. done 0 w))
  unfolding cache_attrs Cached
  forget_xtimes-Cached answer u true = (refl, refl, refl)
  forget_xtimes-Cached answer u false = (refl, refl, refl)

  changed-Cached :
      (answer : List ℕ) (u : VnodeState)
      → is_stale types env answer ≡ false
      → vap.va_data_size ≡ none
      → Returns (Cached u) (changed types env vap asked_for answer u)
  unfolding changed resize Cached
  changed-Cached answer u e f = rw (e, f) (forget_xtimes-Cached answer u _)

  old_size :
      (err : ℕ)
      → err ≡ 0
      → vap.va_data_size ≡ none
      → s.fvdat.filesize
        ≡ (if err == 0 then new_size vap.va_data_size s.fvdat.filesize else s.fvdat.filesize)
  old_size err z f = rw (z, f) refl

  changed-Resized :
      (answer : List ℕ) (u : VnodeState)
      → Asked u
      → ((n : ℕ) → is_dir s.vtype ≡ true → vap.va_data_size ≢ some n)
      → Returns Resized (changed types env vap asked_for answer u)
  unfolding Cached
  changed-Resized answer u asked no_dir = elim (Bool-cases (is_stale types env answer)) [
    | inl e ↦ rw (changed_stale answer u e) (record {
      size = ap (λ v. v.filesize) asked.fvdat;
      requests = inr asked.requests;
      resized = λ n z. absurd (omega (arith, z));
      directory = λ n d f. absurd (no_dir n d f);
    })
    | inr e ↦ elim (Option-cases vap.va_data_size) [
      | inr (n, f) ↦ rw (changed_size answer u n e f) (record {
        size = ap (λ o. new_size o s.fvdat.filesize) (sym f);
        requests = inr asked.requests;
        resized = λ m z g.
            let same : n ≡ m = ground (arith, f, g) in
            (
              ap (λ k. ubc_setsize k ∷ u.calls) same ∙ ap (λ l. ubc_setsize m ∷ l) asked.calls,
              refl,
              refl,
            );
        directory = λ m d g. absurd (no_dir m d g);
      })
      | inl f ↦ Returns-mono (Cached u) Resized _ (changed-Cached answer u e f) (λ err w c. record {
        size = c.1 ∙ ap (λ v. v.filesize) asked.fvdat ∙ old_size err c.0 f;
        requests = inr (asked.requests.0, c.2 ∙ asked.requests.1, asked.requests.2);
        resized = λ m z g. absurd (ground (arith, f, g));
        directory = λ m d g. absurd (no_dir m d g);
      })
    ]
  ]

  send_setattr-Resized :
      s.mpdata.dead ≡ false
      → ((n : ℕ) → is_dir s.vtype ≡ true → vap.va_data_size ≢ some n)
      → Returns Resized (send_setattr types env vap asked_for s)
  unfolding send_setattr fuse_invalidate_attr
  send_setattr-Resized live no_dir =
      Returns-bind (λ _ u. Asked u) Resized (ask env (ask_setattr asked_for) s) _
        (Returns-ask env (ask_setattr asked_for) s (λ _ u. Asked u)
          (λ e. absurd (ground (arith, e, live)))
          (λ _. record { fvdat = refl; calls = refl; requests = (_, refl, refl) }))
        (λ reply u asked.
          Returns-if Resized u (reply.errno == 0) (changed types env vap asked_for reply.body) _
            (λ _. changed-Resized reply.body u asked no_dir)
            (λ n. record {
              size = rw (n) (ap (λ v. v.filesize) asked.fvdat);
              requests = inr asked.requests;
              resized = λ m z g. absurd (ground (arith, n, z));
              directory = λ m d g. absurd (no_dir m d g);
            }))

  size_bit : (n : ℕ) → vap.va_data_size ≡ some n → asked_for.valid 3 ≡ true
  size_bit n f = vat2fsai-size types s vap buffer ∙ ap is_some f

  -- Nothing was asked for, so no size was given.
  unasked-Resized : any_below 32 asked_for.valid ≡ false → Resized 0 s
  unasked-Resized e = elim (Option-cases vap.va_data_size) [
    | inl f ↦ record {
      size = old_size 0 refl f;
      requests = inl refl;
      resized = λ m z g. absurd (ground (arith, f, g));
      directory = λ m d g. absurd (ground (arith, f, g));
    }
    | inr (n, f) ↦ absurd (ground (arith, e, any_below-size asked_for.valid (size_bit n f)))
  ]

  -- From every state and for every set of attributes, fuse_vnop_setattr does not panic. Where it
  -- returns 0 and a size was given, that is the size of the file, it is the last and only thing
  -- told to the kernel's cache, and the cached attributes are invalid; where it returns 0 without
  -- a size, or an errno, the size of the file is that of before. The daemon gets at most one
  -- request, the one that fuse_internal_attr_vat2fsai makes of the attributes; for a directory
  -- with a size it gets none, and the errno is not 0.
  pub fuse_vnop_setattr-Resized :
      (isrdonly : Bool) (context : Process)
      → Returns Resized (fuse_vnop_setattr types env isrdonly context buffer vap s)
  unfolding fuse_vnop_setattr
  fuse_vnop_setattr-Resized isrdonly context =
      Returns-if Resized s s.mpdata.dead (pure enxio) _ (λ _. refused-Resized enxio (ground arith))
        (λ live.
          Returns-if Resized s (fuse_blanket_deny s context) (pure enoent) _
            (λ _. refused-Resized enoent (ground arith))
            (λ _.
              Returns-if Resized s (not (any_below 32 asked_for.valid)) (pure 0) _
                (λ e. unasked-Resized (ground (arith, e)))
                (λ _.
                  Returns-if Resized s (asked_for.valid 3 && is_dir s.vtype) (pure eisdir) _
                    (λ _. refused-Resized eisdir (ground arith))
                    (λ no_dir.
                      Returns-if Resized s
                        (isrdonly && (beyond_size asked_for.valid || is_reg s.vtype)) (pure erofs) _
                        (λ _. refused-Resized erofs (ground arith))
                        (λ _.
                          send_setattr-Resized live
                            (λ n d f. absurd (ground (arith, no_dir, d, size_bit n f))))))))
