-- ===== src/Mount/Options.antt =====
-- fuse_vfsops.c: which flags a mount can come with.
use kext.Prelude.{ℕ, Bool, true, false, not, ◌&&◌, ◌||◌, ◌==◌, ltb, ◌≡◌, refl, ◌≤◌, ◌⊎◌, arith}
use kext.Errno.{eperm, einval, enotsup}
use kext.Vnode.Session.{
  fsess_allow_other, fsess_allow_root, fsess_direct_io, fsess_no_readahead, fsess_no_syncwrites,
  fsess_no_synconclose,
}
use kext.Mount.{
  MountArgs, Surroundings, MountFlags, Checked, refused, accepted, check, bad_timeout,
  xattr_options, allow_options, cache_options, sync_options, permission_options, may_not_allow,
  wants_fsid, mount_flags, mount_options, fsess_extended_security, fsess_jail_symlinks,
}

-- The flags of a mount do not contradict each other.
pub record IsConsistent (args : MountArgs) (env : Surroundings) (f : MountFlags) : Type 0 where
  -- Writes are asynchronous exactly if the session says so, and then pages are cached and read ahead.
  pub writes : (f.async ≡ f.mntopts fsess_no_syncwrites) × (f.synchronous ≡ not f.async)
  pub cached :
      f.mntopts fsess_no_syncwrites ≡ true
      → (f.mntopts fsess_direct_io ≡ false) × (f.mntopts fsess_no_readahead ≡ false)
  pub close : f.mntopts fsess_no_synconclose ≡ true → f.mntopts fsess_no_syncwrites ≡ true
  -- Files that are not cached are not executed.
  pub exec : f.mntopts fsess_direct_io ≡ true → f.noexec ≡ true
  -- FSESS_AUTO_XATTR and FSESS_NATIVE_XATTR, FSESS_DEFAULT_PERMISSIONS and FSESS_DEFER_PERMISSIONS, and
  -- the two that let others in exclude each other.
  pub xattr : (f.mntopts 2 && f.mntopts 21) ≡ false
  pub permissions : (f.mntopts 3 && f.mntopts 4) ≡ false
  pub allowed : (f.mntopts fsess_allow_root && f.mntopts fsess_allow_other) ≡ false
  pub by_admin : f.mntopts fsess_allow_root ≡ true → env.is_member ≡ true
  pub by_owner :
      f.mntopts fsess_allow_other ≡ true
      → (env.is_member || (env.fuse_allow_other || env.issuser)) ≡ true
  pub timeout : args.daemon_timeout ≤ 600
  pub secured : f.mntopts fsess_extended_security ≡ args.altflags 8
  pub labelled : f.mntopts fsess_extended_security ≡ true → f.extendedsecurity ≡ true
  pub jailed : f.mntopts fsess_jail_symlinks ≡ args.altflags 13

-- What is true of the flags that are accepted, or of the errno.
abbrev pub Accepts : (MountFlags → Type 0) → Checked → Type 0
Accepts P (refused errno) = (errno ≡ einval) ⊎ (errno ≡ eperm) ⊎ (errno ≡ enotsup)
Accepts P (accepted f) = P f

module _ (args : MountArgs) (env : Surroundings) where
  options-IsConsistent :
      bad_timeout args ≡ false
      → (args.altflags 2 && args.altflags 28) ≡ false
      → may_not_allow args env ≡ false
      → (args.altflags 22 && (args.altflags 20 || false || (args.altflags 7 || false))) ≡ false
      → (args.altflags 5 && args.altflags 6) ≡ false
      → IsConsistent args env (
          mount_flags args env
            (cache_options args (allow_options args (xattr_options args (λ i. false)))))
  unfolding mount_flags cache_options allow_options xattr_options sync_options permission_options
      bad_timeout may_not_allow
  options-IsConsistent timeout xattr allow sync permissions = record {
    writes = (ground arith, ground arith);
    cached = λ e. (ground arith, ground arith);
    close = λ e. ground arith;
    exec = λ e. ground arith;
    xattr = ground arith;
    permissions = ground arith;
    allowed = ground arith;
    by_admin = λ e. ground arith;
    by_owner = λ e. ground arith;
    timeout = ground arith;
    secured = ground arith;
    labelled = λ e. ground arith;
    jailed = ground arith;
  }

Accepts-check :
    (P : MountFlags → Type 0) (b : Bool) (errno : ℕ) (k : Checked)
    → (errno ≡ einval) ⊎ (errno ≡ eperm) ⊎ (errno ≡ enotsup)
    → (b ≡ false → Accepts P k)
    → Accepts P (check b errno k)
Accepts-check P true errno k e h = e
Accepts-check P false errno k e h = h refl

module _ (args : MountArgs) (env : Surroundings) where
  abbrev P : MountFlags → Type 0
  P = IsConsistent args env

  -- For every set of mount options, fuse_vfsop_mount either returns EINVAL, EPERM or ENOTSUP for
  -- them, or the flags that it sets agree with each other: the mount is asynchronous, and then not
  -- synchronous, exactly if the session does not write through; then pages are cached and read
  -- ahead; only then does a close not write; with direct I/O nothing is executed; the two ways of
  -- extended attributes, the two of permissions, and allow_root and allow_other exclude each
  -- other; allow_root is of the admin group, and allow_other too unless the tunable or root allows
  -- it; the timeout of the daemon is at most 600 seconds; the session has extended security exactly
  -- if the option asks for it, and then the mount has it too, and it jails symbolic links exactly if
  -- that option is given.
  pub mount_options-IsConsistent : Accepts (IsConsistent args env) (mount_options args env)
  unfolding mount_options cache_options allow_options xattr_options
  mount_options-IsConsistent = Accepts-check P env.isupdate enotsup _ (ground arith) (λ _.
      Accepts-check P (not env.copied) einval _ (ground arith) (λ _.
        Accepts-check P (ltb 7 args.fstypename) einval _ (ground arith) (λ _.
          Accepts-check P (args.fsname == 0) einval _ (ground arith) (λ _.
            Accepts-check P (bad_timeout args) einval _ (ground arith) (λ timeout.
              Accepts-check P (args.altflags 2 && args.altflags 28) einval _ (ground arith)
                (λ xattr. Accepts-check P (may_not_allow args env) eperm _ (ground arith) (λ allow.
                  Accepts-check P (wants_fsid args && env.other_mp) eperm _ (ground arith) (λ _.
                    Accepts-check P
                      (args.altflags 22
                        && (args.altflags 20 || false || (args.altflags 7 || false)))
                      einval _ (ground arith)
                      (λ sync.
                        Accepts-check P (args.altflags 5 && args.altflags 6) einval _ (ground arith)
                          (λ permissions.
                            options-IsConsistent args env timeout xattr allow sync
                              permissions))))))))))
