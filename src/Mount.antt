-- ===== src/Mount.antt =====
-- fuse_vfsops.c: how `fuse_vfsop_mount` turns the options of a mount into flags of the session and of
-- the mount. The strings are left out but for their lengths; groups, users, the file systems that are
-- mount_flags, and the flags that the mount comes with are parameters.
pub mod Options
use kext.Prelude.{ℕ, Bool, true, false, not, ◌&&◌, ◌||◌, ◌==◌, ltb, if◌then◌else◌}
use kext.Errno.{eperm, einval, enotsup}
use kext.Ipc.State.{Flags}

-- `fuse_mount_args`, with `altflags` by its bits, FUSE_MOPT_*.
pub record MountArgs : Type 0 where
  pub altflags : Flags
  pub fstypename : ℕ
  pub fsname : ℕ
  pub daemon_timeout : ℕ
  pub fsid : ℕ

-- What the kernel says: MNT_UPDATE, the outcome of copyin, whether the caller is in the admin group or
-- root, the tunable `fuse_allow_other`, whether a mount has the fsid, and the flags of before.
pub record Surroundings : Type 0 where
  pub isupdate : Bool
  pub copied : Bool
  pub is_member : Bool
  pub issuser : Bool
  pub fuse_allow_other : Bool
  pub other_mp : Bool
  pub noexec : Bool
  pub is_local : Bool
  pub extendedsecurity : Bool

-- `mntopts`, by FSESS_*, and what is set at the mount.
pub record MountFlags : Type 0 where
  pub mntopts : Flags
  pub synchronous : Bool
  pub async : Bool
  pub noexec : Bool
  pub is_local : Bool
  pub authopaque : Bool
  pub extendedsecurity : Bool
  pub custom_fsid : Bool

pub data Checked : Type 0 where
  refused : (errno : ℕ) → Checked
  accepted : MountFlags → Checked

-- `if (b) return errno;`
abbrev pub check : Bool → (errno : ℕ) → Checked → Checked
check b errno k = if b then refused errno else k

-- `if (b) mntopts |= 1 << i;`
abbrev pub opt : Bool → ℕ → Flags → Flags
opt b i flags j = if i == j then b || flags j else flags j

abbrev pub fsess_extended_security : ℕ
fsess_extended_security = 6

abbrev pub fsess_jail_symlinks : ℕ
fsess_jail_symlinks = 7

module _ (args : MountArgs) where
  unfoldable pub bad_timeout : Bool
  bad_timeout = ltb 600 args.daemon_timeout || ltb args.daemon_timeout 0

  unfoldable pub xattr_options : Flags → Flags
  xattr_options flags =
      opt (not (args.altflags 2) && args.altflags 28) 21
        (opt (args.altflags 2) 2 (opt (args.altflags 27) 20 (opt (args.altflags 29) 22 flags)))

  unfoldable pub allow_options : Flags → Flags
  allow_options flags = opt (args.altflags 18) 10 (
      opt (args.altflags 17) 9 (
        opt (not (args.altflags 1) && args.altflags 0) 0
          (opt (args.altflags 1) 1 (opt (args.altflags 13) fsess_jail_symlinks flags))))

  unfoldable pub cache_options : Flags → Flags
  cache_options flags =
      opt (args.altflags 24) 16
        (opt (args.altflags 7) 5 (opt (args.altflags 20) 12 (opt (args.altflags 19) 11 flags)))

  unfoldable pub sync_options : Flags → Flags
  sync_options flags =
      opt (args.altflags 22 && args.altflags 21) 13 (opt (args.altflags 22) 14 flags)

  unfoldable pub permission_options : Flags → Flags
  permission_options flags =
      opt (args.altflags 8) fsess_extended_security
        (opt (args.altflags 6) 4 (opt (args.altflags 5) 3 flags))

  -- ALLOW_ROOT is for the admin group, and ALLOW_OTHER too unless the tunable is set or for root.
  unfoldable pub may_not_allow : Surroundings → Bool
  may_not_allow env =
      if args.altflags 1
      then not env.is_member
      else (args.altflags 0 && (not env.fuse_allow_other && not env.issuser)) && not env.is_member

  unfoldable pub wants_fsid : Bool
  wants_fsid = args.altflags 9 && not (args.fsid == 0)

  -- The mount once all options were checked; `mntopts` are those up to `cache_options`.
  unfoldable pub mount_flags : Surroundings → (mntopts : Flags) → MountFlags
  unfolding sync_options permission_options wants_fsid
  mount_flags env mntopts = record {
    mntopts = permission_options (sync_options mntopts);
    synchronous = not (args.altflags 22);
    async = args.altflags 22;
    noexec = env.noexec || sync_options mntopts 5;
    is_local = env.is_local || args.altflags 31;
    authopaque = not (args.altflags 5);
    extendedsecurity = env.extendedsecurity || args.altflags 8;
    custom_fsid = wants_fsid;
  }

  unfoldable pub mount_options : Surroundings → Checked
  unfolding bad_timeout xattr_options allow_options cache_options may_not_allow wants_fsid
      mount_flags
  mount_options env =
      let mntopts = cache_options (allow_options (xattr_options (λ i. false))) in
      check env.isupdate enotsup (
        check (not env.copied) einval (
          check (ltb 7 args.fstypename) einval (
            check (args.fsname == 0) einval (
              check bad_timeout einval (
                check (args.altflags 2 && args.altflags 28) einval (
                  check (may_not_allow env) eperm (
                    check (wants_fsid && env.other_mp) eperm (
                      check (args.altflags 22 && (mntopts 12 || mntopts 5)) einval (
                        check (args.altflags 5 && args.altflags 6) einval
                          (accepted (mount_flags env mntopts)))))))))))
