-- ===== src/Vnode/Directory.antt =====
-- fuse_vnops.c: fuse_vnop_readdir. It uses the handle for reading, or gets one, for as long as it
-- reads.
pub mod Balance
use kext.Prelude.{
  ℕ, zero, suc, Bool, true, false, Option, none, some, ◌<◌, ◌≡◌, ◌≢◌, refl, sym, ap, ◌∙◌, ◌⊎◌, inl,
  inr, ◌+◌, ◌-◌, ◌==◌, ◌||◌, ltb, arith, if◌then◌else◌,
}
use Prim.Native.Nat.{min}
use kext.Errno.{eperm, enxio, einval}
use kext.Ipc.State.{FuseData}
use kext.Iov.{fiov_init}
use kext.Device.Lifecycle.{Process}
use kext.Vnode.State.{VnodeState, Env, Reply, Request, ask_read, fufh_rdonly, FufhType}
use kext.Vnode.Monad.{V, pure, fail, ◌>>=◌, ◌>>◌, get, modify, ask}
use kext.Vnode.Returns.{Returns, Returns-bind, Returns-mono, Returns-if}
use kext.Vnode.Session.{fuse_blanket_deny}
use kext.Vnode.Attr.{fuse_invalidate_attr}
use kext.Vnode.Files.{fufh_is_valid, fuse_filehandle_get}
use kext.Vnode.Open.{reuse, drop_use}
use kext.Vnode.Open.Quiet.{
  Quiet, Quiet-refl, Quiet-frame, IsCalm, IsCalm-bind, IsCalm-get, IsCalm-pure, IsCalm-if,
  IsCalm-ask, uses,
}
use kext.Vnode.Open.Balance.{IsBalanced, Became, Quiet-BalancedBy}
use kext.Vnode.Open.Getting.{Took, fuse_filehandle_get-Took}
use kext.Vnode.Open.Closing.{Reached, reuse-Reached, drop_use-Reached}
use kext.Vnode.Readdir.{
  Uio, Reader, fuse_dirent_size, fuse_maxnamlen, fuse_internal_readdir_processdata, after_answer,
  take_reply, read_on, fuse_internal_readdir,
}

-- Use the handle for reading that is there, or get one.
unfoldable pub acquire : Env → V ℕ
acquire env = do
  s ← get
  if fufh_is_valid (s.fvdat.fufh fufh_rdonly)
      then (do reuse fufh_rdonly; pure 0)
      else fuse_filehandle_get env fufh_rdonly 0

-- The panic where a buffer can not be allocated.
abbrev pub or_panic : {A : Type 0} → Option A → V A
or_panic none = fail
or_panic (some a) = pure a

-- FUSE_DIRENT_ALIGN(FUSE_NAME_OFFSET + MAXNAMLEN + 1).
abbrev pub dircookedsize : ℕ
dircookedsize = fuse_dirent_size (fuse_maxnamlen + 1)

module _ (reader : Reader) (env : Env) where
  -- Allocate the buffer for one entry, which panics without memory, read by the handle, then use it no
  -- more.
  unfoldable pub read_and_drop : Uio → V (Option (ℕ × Uio))
  read_and_drop uio = do
    cookediov ← or_panic (fiov_init reader.tunables reader.malloc dircookedsize)
    s ← get
    r ← fuse_internal_readdir reader env (s.fvdat.fufh fufh_rdonly).fh_id uio
    drop_use env fufh_rdonly
    modify fuse_invalidate_attr
    pure r

  -- `extended` are the flags VNODE_READDIR_REQSEEKOFF and VNODE_READDIR_EXTENDED, `iovcnt` the
  -- number of the reader's buffers. `none` would be a loop that is out of fuel.
  unfoldable pub fuse_vnop_readdir :
      (extended : Bool) (iovcnt : ℕ) → Process → Uio → V (Option (ℕ × Uio))
  fuse_vnop_readdir extended iovcnt context uio = do
    s ← get
    if s.mpdata.dead
        then pure (some (enxio, uio))
        else if fuse_blanket_deny s context
        then pure (some (eperm, uio))
        else if extended || ltb 1 iovcnt || ltb uio.resid 24
        then pure (some (einval, uio))
        else (do err ← acquire env; if err == 0 then read_and_drop uio else pure (some (err, uio)))
