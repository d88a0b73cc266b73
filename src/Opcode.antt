-- ===== src/Opcode.antt =====
-- fuse_kernel.h: `enum fuse_opcode`. `zeroed` is the value 0 of a header that was cleared, which no
-- enumerator has.
use kext.Prelude.{ℕ}

pub data Opcode : Type 0 where
  zeroed lookup forget getattr setattr readlink symlink mknod mkdir unlink rmdir rename : Opcode
  link open_file read write statfs release fsync setxattr getxattr listxattr : Opcode
  removexattr flush init opendir readdir releasedir fsyncdir getlk setlk setlkw access : Opcode
  create interrupt bmap destroy ioctl poll setvolname getxtimes exchange : Opcode

-- The enumerators' values.
unfoldable pub code : Opcode → ℕ
code zeroed = 0
code lookup = 1
code forget = 2
code getattr = 3
code setattr = 4
code readlink = 5
code symlink = 6
code mknod = 8
code mkdir = 9
code unlink = 10
code rmdir = 11
code rename = 12
code link = 13
code open_file = 14
code read = 15
code write = 16
code statfs = 17
code release = 18
code fsync = 20
code setxattr = 21
code getxattr = 22
code listxattr = 23
code removexattr = 24
code flush = 25
code init = 26
code opendir = 27
code readdir = 28
code releasedir = 29
code fsyncdir = 30
code getlk = 31
code setlk = 32
code setlkw = 33
code access = 34
code create = 35
code interrupt = 36
code bmap = 37
code destroy = 38
code ioctl = 39
code poll = 40
code setvolname = 61
code getxtimes = 62
code exchange = 63
