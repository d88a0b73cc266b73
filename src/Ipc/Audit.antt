-- ===== src/Ipc/Audit.antt =====
-- fuse_ipc.c, `fuse_body_audit`: which body lengths an answer may have.
use kext.Prelude.{ℕ, ◌+◌, Bool, Option, none, some, ◌==◌, ◌||◌, leb, if◌then◌else◌}
use kext.Errno.{einval, enotconn}
use kext.Opcode.{
  Opcode, zeroed, lookup, forget, getattr, setattr, readlink, symlink, mknod, mkdir, unlink, rmdir,
  rename, link, open_file, read, write, statfs, release, fsync, setxattr, getxattr, listxattr,
  removexattr, flush, init, opendir, readdir, releasedir, fsyncdir, getlk, setlk, setlkw, access,
  create, interrupt, bmap, destroy, ioctl, poll, setvolname, getxtimes, exchange,
}

-- sizeof of the answers' structures (fuse_kernel.h, with __APPLE__).
abbrev pub sizeof_entry_out : ℕ
sizeof_entry_out = 144

abbrev pub sizeof_attr_out : ℕ
sizeof_attr_out = 120

abbrev pub sizeof_getxtimes_out : ℕ
sizeof_getxtimes_out = 24

abbrev pub sizeof_open_out : ℕ
sizeof_open_out = 16

abbrev pub sizeof_write_out : ℕ
sizeof_write_out = 8

abbrev pub sizeof_statfs_out : ℕ
sizeof_statfs_out = 80

abbrev pub sizeof_init_out : ℕ
sizeof_init_out = 24

abbrev pub exactly : ℕ → ℕ → Option ℕ
exactly size blen = some (if blen == size then 0 else einval)

abbrev pub at_most : ℕ → ℕ → Option ℕ
at_most size blen = some (if leb blen size then 0 else einval)

-- The `switch`; `none` is a panic. `read_size` is the `size` that the request to read asked for.
unfoldable pub audit_length : (page_size read_size blen : ℕ) → Opcode → Option ℕ
audit_length page_size read_size blen lookup = exactly sizeof_entry_out blen
audit_length page_size read_size blen forget = none
audit_length page_size read_size blen getattr = exactly sizeof_attr_out blen
audit_length page_size read_size blen setattr = exactly sizeof_attr_out blen
audit_length page_size read_size blen getxtimes = exactly sizeof_getxtimes_out blen
audit_length page_size read_size blen readlink = at_most page_size blen
audit_length page_size read_size blen symlink = exactly sizeof_entry_out blen
audit_length page_size read_size blen mknod = exactly sizeof_entry_out blen
audit_length page_size read_size blen mkdir = exactly sizeof_entry_out blen
audit_length page_size read_size blen unlink = exactly 0 blen
audit_length page_size read_size blen rmdir = exactly 0 blen
audit_length page_size read_size blen rename = exactly 0 blen
audit_length page_size read_size blen link = exactly sizeof_entry_out blen
audit_length page_size read_size blen open_file = exactly sizeof_open_out blen
audit_length page_size read_size blen read = at_most read_size blen
audit_length page_size read_size blen write = exactly sizeof_write_out blen
audit_length page_size read_size blen statfs = exactly sizeof_statfs_out blen
audit_length page_size read_size blen release = exactly 0 blen
audit_length page_size read_size blen fsync = exactly 0 blen
audit_length page_size read_size blen setxattr = some 0
audit_length page_size read_size blen getxattr = some 0
audit_length page_size read_size blen listxattr = some 0
audit_length page_size read_size blen removexattr = some 0
audit_length page_size read_size blen flush = exactly 0 blen
audit_length page_size read_size blen init =
    some (if blen == sizeof_init_out || blen == 8 then 0 else einval)
audit_length page_size read_size blen opendir = exactly sizeof_open_out blen
audit_length page_size read_size blen readdir = at_most read_size blen
audit_length page_size read_size blen releasedir = exactly 0 blen
audit_length page_size read_size blen fsyncdir = exactly 0 blen
audit_length page_size read_size blen getlk = none
audit_length page_size read_size blen setlk = none
audit_length page_size read_size blen setlkw = none
audit_length page_size read_size blen access = exactly 0 blen
audit_length page_size read_size blen create = exactly (sizeof_entry_out + sizeof_open_out) blen
audit_length page_size read_size blen interrupt = some 0
audit_length page_size read_size blen bmap = some 0
audit_length page_size read_size blen ioctl = some 0
audit_length page_size read_size blen destroy = exactly 0 blen
audit_length page_size read_size blen exchange = exactly 0 blen
audit_length page_size read_size blen setvolname = exactly 0 blen
audit_length page_size read_size blen poll = none
audit_length page_size read_size blen zeroed = none

-- `fuse_body_audit`, from the device's `dead` and the ticket's request.
unfoldable pub fuse_body_audit : (dead : Bool) (page_size read_size blen : ℕ) → Opcode → Option ℕ
unfolding audit_length
fuse_body_audit dead page_size read_size blen op =
    if dead then some enotconn else audit_length page_size read_size blen op
