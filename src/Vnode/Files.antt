-- ===== src/Vnode/Files.antt =====
-- fuse_file.c and fuse_file.h: file handles.
use kext.Prelude.{ℕ, Bool, true, false, not, ◌==◌, ◌&&◌, ◌||◌, ◌+◌, if◌then◌else◌, ltb, ◌^◌, List}
use kext.Errno.{enoent}
use kext.Ipc.Answer.{u32_at}
use kext.Vnode.State.{
  VnodeState, FufhType, fufh_rdonly, fufh_wronly, fufh_rdwr, FuseFilehandle, Env, ask_open,
  ask_release, bit, is_dir, is_lnk, is_reg, cache_purge, vncache_purge,
}
use kext.Vnode.Monad.{
  V, pure, fail, ◌>>=◌, ◌>>◌, get, modify, when, set_fufh, call, ask, increment, decrement,
}
use kext.Vnode.Session.{fsess_atomic_o_trunc}
use kext.Vnode.Attr.{u64_at, fuse_invalidate_attr}

-- `FUFH_IS_VALID`.
abbrev pub fufh_is_valid : FuseFilehandle → Bool
fufh_is_valid fufh = ltb 0 fufh.open_count

-- PROT_READ is bit 0, PROT_WRITE bit 1, PROT_EXEC bit 2.
unfoldable pub fuse_filehandle_xlate_from_mmap : ℕ → V FufhType
fuse_filehandle_xlate_from_mmap fflags =
    if bit 1 fflags
    then pure (if bit 0 fflags || bit 2 fflags then fufh_rdwr else fufh_wronly)
    else if bit 0 fflags || bit 2 fflags
    then pure fufh_rdonly
    else fail

-- FREAD is bit 0, FWRITE bit 1.
unfoldable pub fuse_filehandle_xlate_from_fflags : ℕ → V FufhType
fuse_filehandle_xlate_from_fflags fflags =
    if bit 0 fflags && bit 1 fflags
    then pure fufh_rdwr
    else if bit 1 fflags
    then pure fufh_wronly
    else if bit 0 fflags
    then pure fufh_rdonly
    else if fflags == 0
    then pure fufh_rdonly
    else fail

-- O_RDONLY, O_WRONLY, O_RDWR.
unfoldable pub fuse_filehandle_xlate_to_oflags : FufhType → ℕ
fuse_filehandle_xlate_to_oflags fufh_rdonly = 0
fuse_filehandle_xlate_to_oflags fufh_wronly = 1
fuse_filehandle_xlate_to_oflags fufh_rdwr = 2

abbrev pub wants_read : FufhType → Bool
wants_read fufh_wronly = false
wants_read t = true

abbrev pub wants_write : FufhType → Bool
wants_write fufh_rdonly = false
wants_write t = true

-- 0 if the open may proceed. The context is there.
unfoldable pub fuse_filehandle_preflight_status : Env → VnodeState → FufhType → ℕ
fuse_filehandle_preflight_status env s t =
    if env.authopaque || (not s.synchronous || not (is_reg s.vtype))
    then 0
    else env.authorize (wants_read t) (wants_write t)

-- The flags of the open: O_SYMLINK (bit 21) for a link and O_TRUNC (bit 10) where the daemon knows it.
unfoldable pub oflags_of : VnodeState → FufhType → ℕ → ℕ
oflags_of s t mode =
    fuse_filehandle_xlate_to_oflags t
    + (if is_lnk s.vtype && bit 21 mode then 2 ^ 21 else 0)
    + (if bit 10 mode && s.mpdata.dataflags fsess_atomic_o_trunc then 2 ^ 10 else 0)

-- The type that is asked for: a directory is only opened for reading.
abbrev pub effective_type : VnodeState → FufhType → FufhType
effective_type s t = if is_dir s.vtype then fufh_rdonly else t

-- An open failed: the names of a file that is gone are forgotten.
unfoldable pub open_failed : ℕ → V ℕ
open_failed err = do when (err == enoent) (do call cache_purge; call vncache_purge); pure err

-- The handle that a `fuse_open_out` describes.
abbrev pub handle_of : ℕ → List ℕ → FuseFilehandle
handle_of oflags body = record {
  fh_id = u64_at 0 body;
  open_count = 1;
  open_flags = oflags;
  fuse_open_flags = u32_at 8 body;
}

-- The daemon has opened the file.
unfoldable pub accept : FufhType → ℕ → List ℕ → V ℕ
accept t oflags body = do
  modify λ u. record u { fh_current = increment u.fh_current }
  set_fufh t (handle_of oflags body)
  pure 0

module _ (env : Env) where
  unfoldable pub request_open : FufhType → ℕ → V ℕ
  request_open t mode = do
    s ← get
    let oflags = oflags_of s (effective_type s t) mode
    modify λ u. record u { fh_upcall_count = increment u.fh_upcall_count }
    answer ← ask env (ask_open (is_dir s.vtype) oflags)
    if answer.errno == 0 then accept t oflags answer.body else open_failed answer.errno

  -- Ask the daemon for a file handle, where there is none.
  unfoldable pub fuse_filehandle_get : FufhType → ℕ → V ℕ
  fuse_filehandle_get t mode = do
    s ← get
    if fufh_is_valid (s.fvdat.fufh t) then fail else request_open t mode

  -- Nothing is sent on a dead device.
  unfoldable pub send_release : FufhType → V (Unit {0})
  send_release t = do
    s ← get
    let fufh = s.fvdat.fufh t
    when (not s.mpdata.dead)
        (do _ ← ask env (ask_release (is_dir s.vtype) fufh.fh_id fufh.open_flags); pure tt)

  unfoldable pub finish_release : FufhType → V (Unit {0})
  finish_release t = do
    send_release t
    modify λ u. record u { fh_current = decrement u.fh_current }
    modify fuse_invalidate_attr

  -- Give a file handle back to the daemon. Each caller throws the errno away.
  unfoldable pub fuse_filehandle_put : FufhType → V (Unit {0})
  fuse_filehandle_put t = do
    s ← get
    if fufh_is_valid (s.fvdat.fufh t) then fail else finish_release t
