-- ===== src/Errno.antt =====
-- The values of <sys/errno.h> that the sources return; 0 is success.
use kext.Prelude.{ℕ}

abbrev pub eperm : ℕ
eperm = 1

abbrev pub enoent : ℕ
enoent = 2

abbrev pub eintr : ℕ
eintr = 4

abbrev pub eio : ℕ
eio = 5

abbrev pub enxio : ℕ
enxio = 6

abbrev pub enomem : ℕ
enomem = 12

abbrev pub ebusy : ℕ
ebusy = 16

abbrev pub enodev : ℕ
enodev = 19

abbrev pub einval : ℕ
einval = 22

abbrev pub eagain : ℕ
eagain = 35

abbrev pub ealready : ℕ
ealready = 37

abbrev pub enotsup : ℕ
enotsup = 45

abbrev pub enotconn : ℕ
enotconn = 57

abbrev pub estale : ℕ
estale = 70

abbrev pub eprotonosupport : ℕ
eprotonosupport = 43

abbrev pub enosys : ℕ
enosys = 78

abbrev pub eacces : ℕ
eacces = 13

abbrev pub ebadf : ℕ
ebadf = 9

abbrev pub eisdir : ℕ
eisdir = 21

abbrev pub erofs : ℕ
erofs = 30
