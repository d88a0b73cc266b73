-- ===== src/Vnode/Setattr.antt =====
-- fuse_internal.c, fuse_vnops.c: changing a node's attributes. The note of what the file system
-- supports, VATTR_SET_SUPPORTED, is left out.
pub mod Request
pub mod Resize
use kext.Prelude.{
  ℕ, Bool, true, false, not, Option, none, some, List, ◌==◌, ◌&&◌, ◌||◌, ◌+◌, ◌/◌, ◌%◌, ◌^◌, zero,
  suc, if◌then◌else◌, ◌-◌,
}
use kext.Errno.{enoent, enxio, eagain, eisdir, erofs}
use kext.Ipc.State.{FuseData, Flags, set_flag}
use kext.Ipc.Answer.{u32_at}
use kext.Device.Lifecycle.{Process}
use kext.Vnode.State.{
  Timespec, VnodeState, FuseSetattrIn, FuseFilehandle, Env, VType, is_dir, is_reg, fufh_wronly,
  fufh_rdwr, ask_setattr, vncache_purge, ubc_setsize,
}
use kext.Vnode.Monad.{V, pure, ◌>>=◌, ◌>>◌, get, modify, when, on_fvdat, call, ask}
use kext.Vnode.Session.{fuse_blanket_deny}
use kext.Vnode.Attr.{cache_attrs, fuse_invalidate_attr}
use kext.Vnode.Files.{fufh_is_valid}

-- The attributes of a `struct vnode_attr` that are active.
pub record ActiveAttr : Type 0 where
  pub va_uid : Option ℕ
  pub va_gid : Option ℕ
  pub va_data_size : Option ℕ
  pub va_access_time : Option Timespec
  pub va_modify_time : Option Timespec
  pub va_backup_time : Option Timespec
  pub va_change_time : Option Timespec
  pub va_create_time : Option Timespec
  pub va_mode : Option ℕ
  pub va_flags : Option ℕ

-- The kernel's numbers of types: of the vnode's, VTTOIF of that, and IFTOVT of a mode.
pub record Types : Type 0 where
  pub vtype : ℕ
  pub vttoif : ℕ
  pub iftovt : (mode : ℕ) → ℕ

abbrev pub fsess_xtimes : ℕ
fsess_xtimes = 19

abbrev pub fuse_isxtimes_mp : FuseData → Bool
fuse_isxtimes_mp d = d.dataflags fsess_xtimes

-- A time as a request carries it.
abbrev pub sent_time : Timespec → Timespec
sent_time t = record { tv_sec = t.tv_sec; tv_nsec = t.tv_nsec % 2 ^ 32 }

-- Put an attribute into the request, if there is one, and set its bit.
unfoldable pub put {ℓ} :
    {A : Type ℓ}
    → (i : ℕ) → (FuseSetattrIn → A → FuseSetattrIn)
    → Option A
    → FuseSetattrIn
    → FuseSetattrIn
put i f none fsai = fsai
put i f (some a) fsai = record (f fsai a) { valid = set_flag i fsai.valid }

-- An id other than VNOVAL.
unfoldable pub wanted_id : Option ℕ → Option ℕ
wanted_id none = none
wanted_id (some id) = if id == 2 ^ 32 - 1 then none else some id

-- An attribute that only a session with extended times passes on.
unfoldable pub extended : FuseData → Option Timespec → Option Timespec
extended d time = if fuse_isxtimes_mp d then time else none

-- A valid handle that can write.
unfoldable pub size_handle : VnodeState → Option ℕ
size_handle s =
    if fufh_is_valid (s.fvdat.fufh fufh_wronly)
    then some (s.fvdat.fufh fufh_wronly).fh_id
    else (if fufh_is_valid (s.fvdat.fufh fufh_rdwr)
        then some (s.fvdat.fufh fufh_rdwr).fh_id
        else none)

-- The handle goes with a new size.
unfoldable pub handle_with_size : VnodeState → Option ℕ → Option ℕ
handle_with_size s none = none
handle_with_size s (some size) = size_handle s

-- The request, in a buffer. ALLPERMS is 07777, and VTTOIF has bits above these.
unfoldable pub fuse_internal_attr_vat2fsai :
    Types → VnodeState → ActiveAttr → FuseSetattrIn → FuseSetattrIn
fuse_internal_attr_vat2fsai types s vap buffer =
    let d = s.mpdata in
    put 31 (λ fsai flags. record fsai { flags = flags }) vap.va_flags
      (put 0 (λ fsai mode. record fsai { mode = mode % 4096 + types.vttoif }) vap.va_mode
        (put 28 (λ fsai t. record fsai { crtime = sent_time t }) (extended d vap.va_create_time)
          (put 29 (λ fsai t. record fsai { chgtime = sent_time t }) (extended d vap.va_change_time)
            (put 30 (λ fsai t. record fsai { bkuptime = sent_time t })
              (extended d vap.va_backup_time)
              (put 5 (λ fsai t. record fsai { mtime = sent_time t }) vap.va_modify_time
                (put 4 (λ fsai t. record fsai { atime = sent_time t }) vap.va_access_time
                  (put 6 (λ fsai fh. record fsai { fh = fh }) (handle_with_size s vap.va_data_size)
                    (put 3 (λ fsai size. record fsai { size = size }) vap.va_data_size
                      (put 2 (λ fsai gid. record fsai { gid = gid }) (wanted_id vap.va_gid)
                        (put 1 (λ fsai uid. record fsai { uid = uid }) (wanted_id vap.va_uid)
                          (record buffer { valid = λ i. false })))))))))))

-- Whether one of the bits below a number is set.
unfoldable pub any_below : ℕ → Flags → Bool
any_below zero flags = false
any_below (suc n) flags = flags n || any_below n flags

-- `valid & ~FATTR_SIZE`.
unfoldable pub beyond_size : Flags → Bool
unfolding any_below
beyond_size valid = any_below 32 (λ i. not (i == 3) && valid i)

-- `sizechanged` with `newsize`: the end of `fuse_vnop_setattr` where there was no error.
unfoldable pub resize : Option ℕ → V (Unit {0})
resize none = pure tt
resize (some newsize) = do on_fvdat λ v. record v { filesize = newsize }; call (ubc_setsize newsize)

abbrev pub is_some {ℓ} : {A : Type ℓ} → Option A → Bool
is_some none = false
is_some (some a) = true

-- `c_flag &= ~C_XTIMES_VALID`.
abbrev pub forget_xtimes : V (Unit {0})
forget_xtimes = on_fvdat λ v. record v { c_xtimes_valid = false }

module _ (types : Types) (env : Env) where
  -- The vnode has changed its type behind our back.
  abbrev pub is_stale : List ℕ → Bool
  is_stale answer =
      let vtyp = types.iftovt (u32_at 88 answer) in
      not (types.vtype == vtyp) && not (types.vtype == 0 && not (vtyp == 0))

  -- The answer of the daemon is there.
  unfoldable pub changed : ActiveAttr → FuseSetattrIn → (answer : List ℕ) → V ℕ
  unfolding resize
  changed vap fsai answer = if is_stale answer then (do call vncache_purge; pure eagain) else (do
    if is_some vap.va_data_size then modify fuse_invalidate_attr else (do
      modify (cache_attrs env.nanouptime answer)
      when (fsai.valid 30 || fsai.valid 28) forget_xtimes)
    resize vap.va_data_size
    pure 0)

  unfoldable pub send_setattr : ActiveAttr → FuseSetattrIn → V ℕ
  unfolding changed
  send_setattr vap fsai = do
    reply ← ask env (ask_setattr fsai)
    if reply.errno == 0
        then changed vap fsai reply.body
        else (do modify fuse_invalidate_attr; pure reply.errno)

  -- `buffer` is what the buffer of the request held before.
  unfoldable pub fuse_vnop_setattr : (isrdonly : Bool) → Process → FuseSetattrIn → ActiveAttr → V ℕ
  fuse_vnop_setattr isrdonly context buffer vap = do
    s ← get
    let fsai = fuse_internal_attr_vat2fsai types s vap buffer
    if s.mpdata.dead
        then pure enxio
        else if fuse_blanket_deny s context
        then pure enoent
        else if not (any_below 32 fsai.valid)
        then pure 0
        else if fsai.valid 3 && is_dir s.vtype
        then pure eisdir
        else if isrdonly && (beyond_size fsai.valid || is_reg s.vtype)
        then pure erofs
        else send_setattr vap fsai
