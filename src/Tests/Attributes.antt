-- ===== src/Tests/Attributes.antt =====
-- Changes of the attributes of an open file.
use kext.Prelude.{false, none, some, ◌≡◌, refl, true}
use kext.Device.Lifecycle.{Process, fuse_match_cred}
use kext.Vnode.Session.{fuse_blanket_deny}
use kext.Vnode.Monad.{ask}
use kext.Vnode.State.{FuseSetattrIn}
use kext.Vnode.Returns.{Returns}
use kext.Vnode.Setattr.{
  Types, ActiveAttr, fuse_vnop_setattr, fuse_internal_attr_vat2fsai, send_setattr, changed, resize,
  put, wanted_id, extended, any_below, handle_with_size, size_handle,
}
use kext.Vnode.Setattr.Resize.{Resized, fuse_vnop_setattr-Resized}
use kext.Vnode.Getattr.{WantedTimes, fuse_vnop_getattr}
use kext.Vnode.Getattr.Size.{Sized, fuse_vnop_getattr-Sized}
use kext.Tests.Vnodes.{env, file}
use kext.Node.Create.{zero_time}

abbrev types : Types
types = record { vtype = 1; vttoif = 32768; iftovt = λ mode. 1 }

-- Truncate to 10 bytes.
abbrev truncate : ActiveAttr
truncate = record {
  va_uid = none;
  va_gid = none;
  va_data_size = some 10;
  va_access_time = none;
  va_modify_time = none;
  va_backup_time = none;
  va_change_time = none;
  va_create_time = none;
  va_mode = none;
  va_flags = none;
}

abbrev blank : FuseSetattrIn
blank = record {
  valid = λ i. false;
  fh = 0;
  size = 0;
  atime = zero_time;
  mtime = zero_time;
  mode = 0;
  uid = 0;
  gid = 0;
  bkuptime = zero_time;
  chgtime = zero_time;
  crtime = zero_time;
  flags = 0;
}

-- The kernel itself.
abbrev root : Process
root = record { pid = 0; uid = 0; gid = 0 }

fuse_vnop_setattr-Resized_example :
    Returns
      (Resized types env truncate blank file)
      (fuse_vnop_setattr types env false root blank truncate file)
fuse_vnop_setattr-Resized_example =
    fuse_vnop_setattr-Resized types env truncate blank file false root

-- The daemon grants it.
truncates :
    Returns
      (λ err u. (err ≡ 0) × (u.fvdat.filesize ≡ 10))
      (fuse_vnop_setattr types env false root blank truncate file)
unfolding fuse_vnop_setattr fuse_blanket_deny fuse_match_cred fuse_internal_attr_vat2fsai
    send_setattr changed resize put wanted_id extended any_below ask handle_with_size size_handle
truncates = (refl, refl)

abbrev wanted : WantedTimes
wanted = record { backup_time = true; create_time = false }

fuse_vnop_getattr-Sized_example :
    Returns (λ r u. Sized file r.0 r.1 u) (fuse_vnop_getattr env types wanted root file)
fuse_vnop_getattr-Sized_example = fuse_vnop_getattr-Sized env types wanted file root
