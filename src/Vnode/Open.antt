-- ===== src/Vnode/Open.antt =====
-- fuse_vnops.c: opening, closing and giving up a vnode.
pub mod Mapping
pub mod Quiet
pub mod Calm
pub mod Balance
pub mod Getting
pub mod Closing
pub mod Calls
pub mod Ending
pub mod History
use kext.Prelude.{
  ℕ, true, false, not, ◌==◌, ◌&&◌, ◌||◌, ◌/◌, ◌%◌, ◌+◌, ◌-◌, if◌then◌else◌, List, Bool,
}
use kext.Errno.{eperm, enoent, enxio, eacces, enodev, enosys}
use kext.Opcode.{Opcode, code}
use kext.Ipc.State.{set_flag}
use kext.Ipc.Answer.{le, u32_at}
use kext.Device.Lifecycle.{Process}
use kext.Vnode.State.{
  VnodeState, FufhType, fufh_rdonly, fufh_wronly, fufh_rdwr, Env, bit, clear_bit, is_dir, is_fifo,
  ask_getattr, ask_flush, cluster_push, ubc_msync, vnode_setnocache, vnode_setnoreadahead,
  cache_purge, vncache_purge, ubc_setsize, rb_remove, vnode_removefsref, fuse_vnode_data_destroy,
  vnode_clearfsnode, ask_forget,
}
use kext.Vnode.Monad.{
  V, pure, fail, ◌>>=◌, ◌>>◌, get, modify, when, on_mpdata, on_fvdat, set_fufh, call, ask, tell,
  increment,
}
use kext.Vnode.Session.{
  fuse_isdirectio, fuse_isnoreadahead, fuse_isnosynconclose, fuse_implemented, fuse_blanket_deny,
  fuse_clearnosyncwrites_mp,
}
use kext.Vnode.Attr.{cache_attrs, fuse_invalidate_attr}
use kext.Vnode.Files.{
  fufh_is_valid, fuse_filehandle_get, fuse_filehandle_put, fuse_filehandle_preflight_status,
  fuse_filehandle_xlate_from_fflags, fuse_filehandle_xlate_from_mmap, wants_write,
}

-- One more use of a handle, one less, none.
unfoldable pub fufh_use_inc : FufhType → V (Unit {0})
fufh_use_inc t = do
  s ← get
  let fufh = s.fvdat.fufh t
  set_fufh t (record fufh { open_count = fufh.open_count + 1 })

unfoldable pub fufh_use_dec : FufhType → V (Unit {0})
fufh_use_dec t = do
  s ← get
  let fufh = s.fvdat.fufh t
  set_fufh t (record fufh { open_count = fufh.open_count - 1 })

unfoldable pub fufh_use_reset : FufhType → V (Unit {0})
fufh_use_reset t = do s ← get; set_fufh t (record (s.fvdat.fufh t) { open_count = 0 })

-- A handle that is there is used once more.
unfoldable pub reuse : FufhType → V (Unit {0})
reuse t = do fufh_use_inc t; modify λ u. record u { fh_reuse_count = increment u.fh_reuse_count }

-- `fufh->fuse_open_flags &= ~flag`.
unfoldable pub clear_open_flag : FufhType → ℕ → V (Unit {0})
clear_open_flag t i = do
  s ← get
  let fufh = s.fvdat.fufh t
  set_fufh t (record fufh { fuse_open_flags = clear_bit i fufh.fuse_open_flags })

-- FOPEN_DIRECT_IO is bit 0, FOPEN_PURGE_ATTR bit 30, FOPEN_PURGE_UBC bit 31.
unfoldable pub go_direct : V (Unit {0})
go_direct = do
  call ubc_msync
  call vnode_setnocache
  call vnode_setnoreadahead
  modify fuse_clearnosyncwrites_mp
  on_fvdat λ v. record v { fn_direct_io = true }

-- Where writes are asynchronous, `cache_attrs` has put the local size into the answer.
unfoldable pub take_attrs : Env → List ℕ → V (Unit {0})
take_attrs env bytes = do
  modify (cache_attrs env.nanouptime bytes)
  on_fvdat λ v. record v { filesize = v.cached_attr.va_data_size }
  s ← get
  call (ubc_setsize s.fvdat.filesize)

-- `fuse_clear_implemented` of FLUSH.
unfoldable pub without_flush : V (Unit {0})
without_flush = on_mpdata λ d. record d { noimplflags = set_flag (code Opcode.flush) d.noimplflags }

unfoldable pub forget_node : V (Unit {0})
forget_node = do s ← get; when (not (s.fvdat.nlookup == 0)) (tell (ask_forget s.fvdat.nlookup))

module _ (env : Env) where
  unfoldable pub refresh_attrs : FufhType → V (Unit {0})
  refresh_attrs t = do
    modify fuse_invalidate_attr
    answer ← ask env ask_getattr
    when (answer.errno == 0 && not ((u32_at 88 answer.body / 4096) % 16 == 0))
        (take_attrs env answer.body)
    clear_open_flag t 30

  unfoldable pub purge : FufhType → V (Unit {0})
  purge t = do
    call ubc_msync
    clear_open_flag t 31
    s ← get
    when (bit 30 (s.fvdat.fufh t).fuse_open_flags) (refresh_attrs t)

  -- The label `ok` of `fuse_vnop_open`.
  unfoldable pub opened : FufhType → V (Unit {0})
  opened t = do
    s ← get
    let flags = (s.fvdat.fufh t).fuse_open_flags
    if bit 0 flags || fuse_isdirectio s then go_direct else (do
      when (bit 31 flags) (purge t)
      u ← get
      when (fuse_isnoreadahead u) (call vnode_setnoreadahead))

  -- The end of `fuse_vnop_open`, when a handle was asked for.
  unfoldable pub got : FufhType → ℕ → V ℕ
  got t err =
      if err == 0
      then (do opened t; pure 0)
      else (do when (err == enoent) (call cache_purge); pure err)

  -- Use the handle that is there, or get one.
  unfoldable pub open_as : FufhType → ℕ → V ℕ
  open_as t mode = do
    s ← get
    if fufh_is_valid (s.fvdat.fufh t)
        then (do reuse t; opened t; pure 0)
        else (do err ← fuse_filehandle_get env t mode; got t err)

  unfoldable pub fuse_vnop_open : ℕ → Process → V ℕ
  fuse_vnop_open mode context = do
    s ← get
    if s.mpdata.dead
        then pure enxio
        else if is_fifo s.vtype
        then pure eperm
        else if fuse_blanket_deny s context
        then pure enoent
        else (do
          t ← (if is_dir s.vtype then pure fufh_rdonly else fuse_filehandle_xlate_from_fflags mode)
          open_as t mode)

  -- Ask the daemon to flush; a daemon that cannot is not asked again.
  unfoldable pub flush_handle : FufhType → V ℕ
  flush_handle t = do
    s ← get
    if fuse_implemented s.mpdata Opcode.flush
        then (do
          answer ← ask env (ask_flush (s.fvdat.fufh t).fh_id)
          if answer.errno == enosys then (do without_flush; pure 0) else pure answer.errno)
        else pure 0

  -- What is done for a file, not for a directory.
  unfoldable pub sync_and_flush : FufhType → V ℕ
  sync_and_flush t = do
    s ← get
    when (env.hasdirtyblks && not (fuse_isnosynconclose s)) (call cluster_push)
    flush_handle t

  -- One use less; the last one gives the handle back.
  unfoldable pub drop_use : FufhType → V (Unit {0})
  drop_use t = do
    fufh_use_dec t
    s ← get
    when (not (fufh_is_valid (s.fvdat.fufh t))) (fuse_filehandle_put env t)

  unfoldable pub close_valid : FufhType → V ℕ
  close_valid t = do
    s ← get
    err ← (if is_dir s.vtype then pure 0 else sync_and_flush t)
    drop_use t
    pure err

  unfoldable pub close_as : FufhType → V ℕ
  close_as t = do s ← get; if fufh_is_valid (s.fvdat.fufh t) then close_valid t else pure 0

  -- IO_NDELAY is 16.
  unfoldable pub fuse_vnop_close : ℕ → V ℕ
  fuse_vnop_close fflag = do
    s ← get
    if s.mpdata.dead || fflag == 16 then pure 0 else (do
      t ← (if is_dir s.vtype then pure fufh_rdonly else fuse_filehandle_xlate_from_fflags fflag)
      close_as t)

  -- One round of the loop of `fuse_vnop_inactive`.
  unfoldable pub give_back : FufhType → V (Unit {0})
  give_back t = do
    s ← get
    when (fufh_is_valid (s.fvdat.fufh t)) (do fufh_use_reset t; fuse_filehandle_put env t)

  unfoldable pub give_back_all : V (Unit {0})
  give_back_all = do give_back fufh_rdonly; give_back fufh_wronly; give_back fufh_rdwr

  unfoldable pub fuse_vnop_inactive : V ℕ
  fuse_vnop_inactive = do give_back_all; pure 0

  -- A handle that is still there is a zombie, unless the unmount is forced.
  unfoldable pub count_zombie : V (Unit {0})
  count_zombie = do
    s ← get
    when (not env.isforce && not s.mpdata.dead)
        (modify λ u. record u { fh_zombies = increment u.fh_zombies })

  -- One round of the loop of `fuse_vnop_reclaim`.
  unfoldable pub reclaim_handle : FufhType → V (Unit {0})
  reclaim_handle t = do
    s ← get
    when (fufh_is_valid (s.fvdat.fufh t))
        (do fufh_use_reset t; count_zombie; fuse_filehandle_put env t)

  unfoldable pub reclaim_handles : V (Unit {0})
  reclaim_handles = do
    reclaim_handle fufh_rdonly
    reclaim_handle fufh_wronly
    reclaim_handle fufh_rdwr

  -- The vnode has data.
  unfoldable pub fuse_vnop_reclaim : V ℕ
  fuse_vnop_reclaim = do
    s ← get
    when (not s.mpdata.dead) (do reclaim_handles; forget_node)
    call vncache_purge
    call rb_remove
    call vnode_removefsref
    call fuse_vnode_data_destroy
    call vnode_clearfsnode
    pure 0
