-- ===== src/Vnode/Open/Mapping.antt =====
-- fuse_vnops.c: mapping and unmapping an open vnode.
use kext.Prelude.{ℕ, false, ◌==◌, ◌&&◌, ◌||◌, if◌then◌else◌, Bool}
use kext.Errno.{eperm, enoent, enxio, eacces, enodev}
use kext.Device.Lifecycle.{Process}
use kext.Vnode.State.{FufhType, fufh_rdonly, Env, bit}
use kext.Vnode.Monad.{V, pure, ◌>>=◌, ◌>>◌, get}
use kext.Vnode.Session.{fuse_isdirectio, fuse_blanket_deny}
use kext.Vnode.Files.{
  fufh_is_valid, fuse_filehandle_get, fuse_filehandle_preflight_status,
  fuse_filehandle_xlate_from_mmap, wants_write,
}
use kext.Vnode.Open.{reuse}

module _ (env : Env) where
  -- One attempt of `fuse_vnop_mmap`: the errno, and whether the file is found deleted.
  unfoldable pub map_as : Bool → FufhType → V (ℕ × Bool)
  map_as deleted t = do
    s ← get
    if fufh_is_valid (s.fvdat.fufh t) then (do reuse t; pure (0, deleted)) else (do
      let status = if deleted then 0 else fuse_filehandle_preflight_status env s t
      if status == 0 || status == enoent
          then (do err ← fuse_filehandle_get env t 0; pure (err, deleted || status == enoent))
          else pure (status, deleted))

  -- A mapping that may not write is tried once more for reading.
  unfoldable pub map_or_retry : FufhType → V ℕ
  map_or_retry t = do
    (err, deleted) ← map_as false t
    if err == 0
        then pure 0
        else if err == eacces && wants_write t
        then (do (again, _) ← map_as deleted fufh_rdonly; pure (if again == 0 then 0 else eperm))
        else pure eperm

  unfoldable pub fuse_vnop_mmap : ℕ → Process → V ℕ
  fuse_vnop_mmap fflags context = do
    s ← get
    if s.mpdata.dead
        then pure enxio
        else if fuse_isdirectio s
        then pure eperm
        else if fuse_blanket_deny s context
        then pure enoent
        else if bit 0 fflags || bit 1 fflags || bit 2 fflags
        then pure 0
        else (do t ← fuse_filehandle_xlate_from_mmap fflags; map_or_retry t)

  unfoldable pub fuse_vnop_mnomap : V ℕ
  fuse_vnop_mnomap = do
    s ← get
    pure (if s.mpdata.dead then 0 else if fuse_isdirectio s then enodev else 0)
