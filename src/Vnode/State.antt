-- ===== src/Vnode/State.antt =====
-- fuse_node.h, fuse_file.h: the state of a vnode, its mount and its requests to the daemon.
use kext.Prelude.{ℕ, Bool, List, ◌==◌, ◌/◌, ◌%◌, ◌-◌, ◌^◌, if◌then◌else◌, true, false}
use kext.Ipc.State.{FuseData, Flags}

-- `struct timespec`.
pub record Timespec : Type 0 where
  pub tv_sec : ℕ
  pub tv_nsec : ℕ

-- `enum vtype`: the types that the code tells apart, and the others.
pub data VType : Type 0 where
  vreg vdir vlnk vfifo vother : VType

pub data FufhType : Type 0 where
  fufh_rdonly fufh_wronly fufh_rdwr : FufhType

unfoldable pub same_type : FufhType → FufhType → Bool
same_type fufh_rdonly fufh_rdonly = true
same_type fufh_wronly fufh_wronly = true
same_type fufh_rdwr fufh_rdwr = true
same_type s t = false

-- `struct fuse_filehandle`.
pub record FuseFilehandle : Type 0 where
  pub fh_id : ℕ
  pub open_count : ℕ
  pub open_flags : ℕ
  pub fuse_open_flags : ℕ

-- The attributes that `fuse_internal_attr_fat2vat` returns. `va_data_alloc` is the block count where
-- the mount is sparse.
pub record VnodeAttr : Type 0 where
  pub va_fileid : ℕ
  pub va_data_size : ℕ
  pub va_data_alloc : ℕ
  pub va_access_time : Timespec
  pub va_change_time : Timespec
  pub va_modify_time : Timespec
  pub va_create_time : Timespec
  pub va_backup_time : Timespec
  pub va_mode : ℕ
  pub va_nlink : ℕ
  pub va_uid : ℕ
  pub va_gid : ℕ
  pub va_rdev : ℕ
  pub va_type : ℕ
  pub va_iosize : ℕ
  pub va_flags : ℕ

-- `struct fuse_vnode_data`, as far as the operations on files use it.
pub record FuseVnodeData : Type 0 where
  pub nodeid : ℕ
  pub nlookup : ℕ
  pub fufh : FufhType → FuseFilehandle
  pub fn_direct_io : Bool
  pub attr_valid : Timespec
  pub c_xtimes_valid : Bool
  pub cached_attr : VnodeAttr
  pub filesize : ℕ
  pub modify_time : Timespec
  pub generation : ℕ
  pub parent_nodeid : ℕ

-- `struct fuse_setattr_in`; `valid` by its bits, FATTR_*.
pub record FuseSetattrIn : Type 0 where
  pub valid : Flags
  pub fh : ℕ
  pub size : ℕ
  pub atime : Timespec
  pub mtime : Timespec
  pub mode : ℕ
  pub uid : ℕ
  pub gid : ℕ
  pub bkuptime : Timespec
  pub chgtime : Timespec
  pub crtime : Timespec
  pub flags : ℕ

-- A request to the daemon with its arguments, and what came of it.
pub data Request : Type 0 where
  ask_open : (isdir : Bool) (flags : ℕ) → Request
  ask_release : (isdir : Bool) (fh flags : ℕ) → Request
  ask_flush : (fh : ℕ) → Request
  ask_getattr : Request
  ask_access : (mask : ℕ) → Request
  ask_fsync : (isdir : Bool) (fh : ℕ) (datasync : Bool) → Request
  ask_read : (isdir : Bool) (fh offset size : ℕ) → Request
  ask_write : (fh offset size : ℕ) → Request
  ask_forget : (nlookup : ℕ) → Request
  ask_setattr : FuseSetattrIn → Request
  ask_getxtimes : Request

pub record Exchange : Type 0 where
  pub request : Request
  pub errno : ℕ
  pub answer : List ℕ

-- The outcome of a request on a live device: the errno, the body where that is 0, and whether the
-- device has died by then.
pub record Reply : Type 0 where
  pub errno : ℕ
  pub body : List ℕ
  pub dies : Bool

-- Calls of the kernel that change what it keeps of the vnode.
pub data KernelCall : Type 0 where
  cluster_push ubc_msync vnode_setnocache vnode_setnoreadahead cache_purge : KernelCall
  vncache_purge vfs_clearauthopaque vnode_removefsref vnode_clearfsnode fuse_vnode_data_destroy
        rb_remove :
      KernelCall
  ubc_setsize : ℕ → KernelCall

-- The vnode, its mount, the counters of file handles, and the requests and calls so far, newest first.
pub record VnodeState : Type 0 where
  pub mpdata : FuseData
  pub vtype : VType
  pub isvroot : Bool
  pub synchronous : Bool
  pub async : Bool
  pub fvdat : FuseVnodeData
  pub fh_upcall_count : ℕ
  pub fh_current : ℕ
  pub fh_reuse_count : ℕ
  pub fh_zombies : ℕ
  pub exchanges : List Exchange
  pub calls : List KernelCall

-- What the daemon and the kernel answer. The daemon's answer may depend on all that went before.
pub record Env : Type 0 where
  pub reply : List Exchange → Request → Reply
  pub authorize : (read write : Bool) → ℕ
  pub authopaque : Bool
  pub hasdirtyblks : Bool
  pub isforce : Bool
  pub nanouptime : Timespec

-- A bit of a word of flags, and the word without it.
abbrev pub bit : ℕ → ℕ → Bool
bit i flags = (flags / 2 ^ i) % 2 == 1

abbrev pub clear_bit : ℕ → ℕ → ℕ
clear_bit i flags = if bit i flags then flags - 2 ^ i else flags

abbrev pub is_dir : VType → Bool
is_dir vdir = true
is_dir t = false

abbrev pub is_lnk : VType → Bool
is_lnk vlnk = true
is_lnk t = false

abbrev pub is_fifo : VType → Bool
is_fifo vfifo = true
is_fifo t = false

abbrev pub is_reg : VType → Bool
is_reg vreg = true
is_reg t = false
