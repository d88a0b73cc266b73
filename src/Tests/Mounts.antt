-- ===== src/Tests/Mounts.antt =====
-- The options of a mount.
use kext.Prelude.{true, false, ◌≡◌, refl, ◌==◌, ◌||◌}
use kext.Mount.{MountArgs, Surroundings, refused, mount_options}
use kext.Mount.Options.{Accepts, IsConsistent, mount_options-IsConsistent}
use kext.Errno.{einval}

abbrev surroundings : Surroundings
surroundings = record {
  isupdate = false;
  copied = true;
  is_member = false;
  issuser = true;
  fuse_allow_other = false;
  other_mp = false;
  noexec = false;
  is_local = false;
  extendedsecurity = false;
}

-- allow_other, nosyncwrites and nosynconclose.
abbrev asynchronous : MountArgs
asynchronous = record {
  altflags = λ i. i == 0 || i == 21 || i == 22;
  fstypename = 3;
  fsname = 5;
  daemon_timeout = 60;
  fsid = 0;
}

-- The same with direct_io.
abbrev mixed : MountArgs
mixed = record asynchronous { altflags = λ i. i == 0 || i == 21 || i == 22 || i == 7 }

mount_options-IsConsistent_example :
    Accepts (IsConsistent asynchronous surroundings) (mount_options asynchronous surroundings)
mount_options-IsConsistent_example = mount_options-IsConsistent asynchronous surroundings

takes_asynchronous :
    Accepts
      (λ f. (f.async ≡ true) × (f.mntopts 13 ≡ true) × (f.mntopts 0 ≡ true))
      (mount_options asynchronous surroundings)
unfolding mount_options
takes_asynchronous = (refl, refl, refl)

refuses_mixed : mount_options mixed surroundings ≡ refused einval
unfolding mount_options
refuses_mixed = refl
