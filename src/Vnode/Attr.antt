-- ===== src/Vnode/Attr.antt =====
-- fuse_internal.h, fuse_node.h: a node's attributes, as the daemon sends them and as they are cached.
-- `va_fsid` and the link id, which repeats the file id, are left out; `va_type` is the index into the
-- kernel's table of types.
use kext.Prelude.{ℕ, false, List, ◌*◌, ◌/◌, ◌%◌, ◌^◌, if◌then◌else◌, drop, take}
use kext.Ipc.Answer.{le, u32_at}
use kext.Vnode.State.{VnodeState, VnodeAttr, Timespec}
use kext.Vnode.Session.{fsess_sparse}
use kext.Vnode.Time.{fuse_timespec_add}

-- The `__u64` at an offset.
abbrev pub u64_at : ℕ → List ℕ → ℕ
u64_at offset bytes = le (take 8 (drop offset bytes))

-- `struct fuse_attr`.
pub record FuseAttr : Type 0 where
  pub ino : ℕ
  pub size : ℕ
  pub blocks : ℕ
  pub atime : Timespec
  pub mtime : Timespec
  pub ctime : Timespec
  pub crtime : Timespec
  pub mode : ℕ
  pub nlink : ℕ
  pub uid : ℕ
  pub gid : ℕ
  pub rdev : ℕ
  pub flags : ℕ

-- A time in two fields of an answer.
abbrev pub time_at : ℕ → ℕ → List ℕ → Timespec
time_at sec nsec bytes = record { tv_sec = u64_at sec bytes; tv_nsec = u32_at nsec bytes }

-- The `attr` of a `fuse_attr_out`.
unfoldable pub attr_of : List ℕ → FuseAttr
attr_of bytes = record {
  ino = u64_at 16 bytes;
  size = u64_at 24 bytes;
  blocks = u64_at 32 bytes;
  atime = time_at 40 72 bytes;
  mtime = time_at 48 76 bytes;
  ctime = time_at 56 80 bytes;
  crtime = time_at 64 84 bytes;
  mode = u32_at 88 bytes;
  nlink = u32_at 92 bytes;
  uid = u32_at 96 bytes;
  gid = u32_at 100 bytes;
  rdev = u32_at 104 bytes;
  flags = u32_at 108 bytes;
}

-- The size in the answer once `fuse_internal_attr_fat2vat` has gone over it: where writes are
-- asynchronous the local size is written there.
abbrev pub written_size : VnodeState → FuseAttr → ℕ
written_size s fat = if s.synchronous then fat.size else s.fvdat.filesize

-- `fuse_internal_attr_fat2vat`. Where writes are asynchronous the local size takes precedence.
unfoldable pub fuse_internal_attr_fat2vat : VnodeState → FuseAttr → VnodeAttr
fuse_internal_attr_fat2vat s fat = record {
  va_fileid = fat.ino;
  va_data_size = written_size s fat;
  va_data_alloc = if s.mpdata.dataflags fsess_sparse then (fat.blocks * 512) % 2 ^ 64 else 0;
  va_access_time = fat.atime;
  va_change_time = fat.ctime;
  va_modify_time = fat.mtime;
  va_create_time = fat.crtime;
  va_backup_time = s.fvdat.cached_attr.va_backup_time;
  va_mode = fat.mode % 4096;
  va_nlink = fat.nlink;
  va_uid = fat.uid;
  va_gid = fat.gid;
  va_rdev = fat.rdev;
  va_type = (fat.mode / 4096) % 16;
  va_iosize = s.mpdata.iosize;
  va_flags = fat.flags;
}

-- `cache_attrs`: keep the attributes of a `fuse_attr_out`, valid from now on for as long as it says.
unfoldable pub cache_attrs : Timespec → List ℕ → VnodeState → VnodeState
cache_attrs uptime bytes s = record s {
  fvdat = record s.fvdat {
    attr_valid = fuse_timespec_add (time_at 0 8 bytes) uptime;
    cached_attr = fuse_internal_attr_fat2vat s (attr_of bytes);
  };
}

unfoldable pub fuse_invalidate_attr : VnodeState → VnodeState
fuse_invalidate_attr s = record s {
  fvdat = record s.fvdat {
    attr_valid = record { tv_sec = 0; tv_nsec = 0 };
    c_xtimes_valid = false;
  };
}
