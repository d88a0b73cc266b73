-- ===== src/Vnode/Getattr.antt =====
-- fuse_internal.h, fuse_internal.c, fuse_vnops.c: a node's attributes for the kernel. The caller's
-- `struct vnode_attr` is not the cached one.
pub mod Settle
pub mod Size
use kext.Prelude.{
  ℕ, Bool, true, false, not, Option, none, some, List, ◌==◌, ◌&&◌, ◌||◌, ◌+◌, ◌-◌, ◌/◌, ◌%◌, ◌^◌,
  if◌then◌else◌, leb,
}
use kext.Errno.{enoent, enxio, enotconn, eio}
use kext.Opcode.{Opcode}
use kext.Ipc.Answer.{u32_at}
use kext.Device.Lifecycle.{Process}
use kext.Vnode.State.{
  Timespec, VnodeAttr, VnodeState, Env, is_reg, ask_getattr, ask_getxtimes, vncache_purge,
  ubc_msync, ubc_setsize,
}
use kext.Vnode.Monad.{V, pure, ◌>>=◌, ◌>>◌, get, modify, when, on_mpdata, on_fvdat, call, ask}
use kext.Vnode.Session.{fuse_blanket_deny, fuse_isdirectio, fuse_implemented, fsess_sparse}
use kext.Vnode.Time.{fuse_timespec_cmp}
use kext.Vnode.Attr.{cache_attrs, attr_of, time_at, written_size}
use kext.Vnode.Setattr.{Types, is_stale, fuse_isxtimes_mp, forget_xtimes}

-- What the kernel gets, `none` for an attribute that is not returned.
pub record LoadedAttr : Type 0 where
  pub cached : VnodeAttr
  pub va_data_size : ℕ
  pub va_gen : ℕ
  pub va_parentid : Option ℕ
  pub va_data_alloc : Option ℕ
  pub va_create_time : Option Timespec
  pub va_backup_time : Option Timespec

-- All attributes, or the fake ones of the root: the user and the group of the daemon.
pub data GotAttr : Type 0 where
  loaded : LoadedAttr → GotAttr
  faked : (va_uid va_gid : ℕ) → GotAttr

-- The extra times that the caller asks for.
pub record WantedTimes : Type 0 where
  pub backup_time : Bool
  pub create_time : Bool

abbrev pub fsess_auto_cache : ℕ
fsess_auto_cache = 20

abbrev pub zero_time : Timespec
zero_time = record { tv_sec = 0; tv_nsec = 0 }

abbrev pub same_time : Timespec → Timespec → Bool
same_time t u = t.tv_sec == u.tv_sec && t.tv_nsec == u.tv_nsec

abbrev pub with_times : Timespec → Timespec → LoadedAttr → LoadedAttr
with_times backup create out = record out {
  va_backup_time = some backup;
  va_create_time = some create;
}

-- The daemon's `struct fuse_getxtimes_out` is kept in the cached attributes.
unfoldable pub take_xtimes : (backup create : Timespec) → V (Unit {0})
take_xtimes backup create = on_fvdat λ v. record v {
  c_xtimes_valid = true;
  cached_attr = record v.cached_attr { va_backup_time = backup; va_create_time = create };
}

-- The size that the kernel keeps and the size of the cached attributes become one.
unfoldable pub settle_size : V Bool
settle_size = do
  s ← get
  if not s.synchronous
      then (do
        on_fvdat λ v. record v { cached_attr = record v.cached_attr { va_data_size = v.filesize } }
        pure false)
      else if s.fvdat.filesize == s.fvdat.cached_attr.va_data_size
      then pure false
      else (do
        call ubc_msync
        on_fvdat λ v. record v { filesize = v.cached_attr.va_data_size }
        call (ubc_setsize s.fvdat.cached_attr.va_data_size)
        pure true)

-- A time of modification that is new drops the cached pages where the session says so.
unfoldable pub settle_modify_time : (purged : Bool) → V (Unit {0})
settle_modify_time purged = do
  s ← get
  when (not (same_time s.fvdat.modify_time s.fvdat.cached_attr.va_modify_time)) (do
    on_fvdat λ v. record v { modify_time = v.cached_attr.va_modify_time }
    when (s.mpdata.dataflags fsess_auto_cache && not purged) (call ubc_msync))

-- The attributes that are there without a question to the daemon. A time of creation of -1 is unknown.
unfoldable pub known_attr : VnodeState → LoadedAttr
known_attr s =
    let v = s.fvdat in
    record {
      cached = v.cached_attr;
      va_data_size = v.cached_attr.va_data_size;
      va_gen = v.generation % 2 ^ 32;
      va_parentid = if s.isvroot then none else some v.parent_nodeid;
      va_data_alloc =
          if s.mpdata.dataflags fsess_sparse then some v.cached_attr.va_data_alloc else none;
      va_create_time =
          if v.cached_attr.va_create_time.tv_sec == 2 ^ 64 - 1
          then none
          else some v.cached_attr.va_create_time;
      va_backup_time = none;
    }

abbrev pub misses_create_time : LoadedAttr → Bool
misses_create_time out = elim out.va_create_time [ none ↦ true | some t ↦ false ]

module _ (env : Env) where
  unfoldable pub fuse_internal_loadxtimes : LoadedAttr → V LoadedAttr
  unfolding take_xtimes
  fuse_internal_loadxtimes out = do
    s ← get
    if not (fuse_isxtimes_mp s.mpdata)
        then pure out
        else if s.fvdat.c_xtimes_valid
        then pure
            (with_times s.fvdat.cached_attr.va_backup_time s.fvdat.cached_attr.va_create_time out)
        else if not (fuse_implemented s.mpdata Opcode.getxtimes)
            || (s.isvroot && (s.mpdata.dead || not s.mpdata.inited))
        then pure (with_times zero_time zero_time out)
        else (do
          reply ← ask env ask_getxtimes
          if reply.errno == 0
              then (do
                take_xtimes (time_at 0 16 reply.body) (time_at 8 20 reply.body)
                pure (with_times (time_at 0 16 reply.body) (time_at 8 20 reply.body) out))
              else pure (with_times zero_time zero_time out))

  unfoldable pub fuse_internal_attr_loadvap : WantedTimes → V LoadedAttr
  unfolding settle_size settle_modify_time known_attr fuse_internal_loadxtimes
  fuse_internal_attr_loadvap wanted = do
    purged ← settle_size
    settle_modify_time purged
    s ← get
    if wanted.backup_time || (wanted.create_time && misses_create_time (known_attr s))
        then fuse_internal_loadxtimes (known_attr s)
        else pure (known_attr s)

  -- The label `fake`.
  unfoldable pub fake : V (ℕ × Option GotAttr)
  fake = do s ← get; pure (0, some (faked s.mpdata.daemon_uid s.mpdata.daemon_gid))

  -- The size of a file with direct I/O is what stands in the answer.
  unfoldable pub catch_up : (size : ℕ) → V (Unit {0})
  catch_up size = do
    s ← get
    when (is_reg s.vtype && fuse_isdirectio s) (on_fvdat λ v. record v { filesize = size })

  module _ (types : Types) (wanted : WantedTimes) where
    -- The answer of the daemon is there.
    unfoldable pub load_answer : (answer : List ℕ) → V (ℕ × Option GotAttr)
    unfolding catch_up fuse_internal_attr_loadvap
    load_answer answer = if (u32_at 88 answer / 4096) % 16 == 0 then pure (eio, none) else (do
      s ← get
      modify (cache_attrs env.nanouptime answer)
      forget_xtimes
      out ← fuse_internal_attr_loadvap wanted
      catch_up (written_size s (attr_of answer))
      if is_stale types env answer
          then (do call vncache_purge; pure (eio, none))
          else pure (0, some (loaded out)))

    unfoldable pub send_getattr : V (ℕ × Option GotAttr)
    unfolding load_answer fake
    send_getattr = do
      s ← get
      reply ← ask env ask_getattr
      if reply.errno == 0
          then load_answer reply.body
          else if reply.errno == enotconn && s.isvroot
          then fake
          else (do when (reply.errno == enoent) (call vncache_purge); pure (reply.errno, none))

    -- With the result where the errno is 0.
    unfoldable pub fuse_vnop_getattr : Process → V (ℕ × Option GotAttr)
    unfolding fuse_internal_attr_loadvap send_getattr fake
    fuse_vnop_getattr context = do
      s ← get
      if s.mpdata.dead
          then (if s.isvroot then fake else pure (enxio, none))
          else if (not s.isvroot || not (context.uid == 0)) && fuse_blanket_deny s context
          then pure (enoent, none)
          else if fuse_timespec_cmp leb env.nanouptime s.fvdat.attr_valid
          then (do out ← fuse_internal_attr_loadvap wanted; pure (0, some (loaded out)))
          else if s.mpdata.inited
          then send_getattr
          else if s.isvroot
          then fake
          else (do on_mpdata λ d. record d { dead = true }; pure (enotconn, none))
