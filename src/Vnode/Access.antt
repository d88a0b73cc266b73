-- ===== src/Vnode/Access.antt =====
-- fuse_internal.c, fuse_vnops.c: access and fsync. A daemon that lacks the operation is not asked
-- again.
use kext.Prelude.{
  ℕ, Bool, true, false, not, ◌≡◌, refl, ◌+◌, ◌==◌, ◌&&◌, ◌||◌, if◌then◌else◌, arith, ltb,
}
use kext.Errno.{eperm, enoent, enxio, ebadf, enosys, enotsup}
use kext.Opcode.{Opcode, code}
use kext.Ipc.State.{set_flag}
use kext.Device.Lifecycle.{Process, fuse_match_cred}
use kext.Vnode.State.{
  VnodeState, VType, Env, Reply, Request, bit, is_dir, ask_access, ask_fsync, vncache_purge,
  vfs_clearauthopaque, cluster_push, is_lnk, FufhType, fufh_rdonly, fufh_wronly, fufh_rdwr,
}
use kext.Vnode.Monad.{V, done, pure, ◌>>=◌, ◌>>◌, get, when, on_mpdata, call, ask}
use kext.Vnode.Session.{fuse_implemented, fuse_blanket_deny, fuse_isnosyncwrites_mp}
use kext.Vnode.Returns.{Returns, Returns-bind, Returns-if, Returns-ask}

-- FSESS_DEFER_PERMISSIONS.
abbrev pub fsess_defer_permissions : ℕ
fsess_defer_permissions = 4

-- The permissions that an action needs, by the bits KAUTH_VNODE_*: LIST_DIRECTORY is READ_DATA,
-- ADD_FILE is WRITE_DATA, SEARCH is EXECUTE and ADD_SUBDIRECTORY is APPEND_DATA.
abbrev pub needs_read : ℕ → Bool
needs_read action = bit 1 action || bit 9 action

abbrev pub needs_write : VType → ℕ → Bool
needs_write vtype action =
    bit 2 action
    || bit 5 action
    || (is_dir vtype && bit 6 action)
    || bit 8 action
    || bit 10 action
    || bit 12 action

abbrev pub needs_execute : ℕ → Bool
needs_execute action = bit 3 action

-- R_OK is 4, W_OK 2, X_OK 1.
unfoldable pub access_mask : VType → ℕ → ℕ
access_mask vtype action =
    (if needs_read action then 4 else 0)
    + (if needs_write vtype action then 2 else 0)
    + (if needs_execute action then 1 else 0)

-- `fuse_clear_implemented`.
unfoldable pub without : Opcode → V (Unit {0})
without op = on_mpdata λ d. record d { noimplflags = set_flag (code op) d.noimplflags }

-- What the daemon's reply to an access request means.
unfoldable pub access_result : ℕ → V ℕ
access_result errno =
    if errno == enosys
    then (do call vfs_clearauthopaque; without Opcode.access; pure enotsup)
    else (do when (errno == enoent) (call vncache_purge); pure errno)

module _ (env : Env) where
  unfoldable pub fuse_internal_access : (action : ℕ) → Process → V ℕ
  fuse_internal_access action context = do
    s ← get
    if s.mpdata.dataflags fsess_defer_permissions
        then pure 0
        else if not (fuse_implemented s.mpdata Opcode.access)
        then pure enotsup
        else if not s.isvroot && fuse_blanket_deny s context
        then pure eperm
        else (do
          reply ← ask env (ask_access (access_mask s.vtype action))
          access_result reply.errno)

  unfoldable pub fuse_internal_fsync : (fh : ℕ) → V ℕ
  fuse_internal_fsync fh = do
    s ← get
    let isdir = is_dir s.vtype
    reply ← ask env (ask_fsync isdir fh true)
    when (reply.errno == enosys) (without (if isdir then Opcode.fsyncdir else Opcode.fsync))
    pure reply.errno

-- Before the handshake only root and the daemon's user may use the root of the mount.
unfoldable pub early_access : VnodeState → Process → ℕ
early_access s context =
    if s.isvroot && (context.uid == 0 || fuse_match_cred s.mpdata context == 0) then 0 else ebadf

unfoldable pub fuse_vnop_access : Env → (action : ℕ) → Process → V ℕ
fuse_vnop_access env action context = do
  s ← get
  if s.mpdata.dead
      then pure (if s.isvroot then 0 else enxio)
      else if not s.mpdata.inited
      then pure (early_access s context)
      else if is_lnk s.vtype
      then pure 0
      else fuse_internal_access env action context

-- One round of the loop of `fuse_vnop_fsync`: the errno of the last handle that failed.
unfoldable pub fsync_handle : Env → FufhType → (err : ℕ) → V ℕ
fsync_handle env t err = do
  s ← get
  if ltb 0 (s.fvdat.fufh t).open_count
      then (do
        tmp_err ← fuse_internal_fsync env (s.fvdat.fufh t).fh_id
        pure (if tmp_err == 0 then err else tmp_err))
      else pure err

unfoldable pub fsync_all : Env → V ℕ
fsync_all env = do
  s ← get
  if fuse_implemented s.mpdata (if is_dir s.vtype then Opcode.fsyncdir else Opcode.fsync)
      then (do
        err ← fsync_handle env fufh_rdonly 0
        err' ← fsync_handle env fufh_wronly err
        fsync_handle env fufh_rdwr err')
      else pure enosys

unfoldable pub fuse_vnop_fsync : Env → V ℕ
fuse_vnop_fsync env = do
  s ← get
  if s.mpdata.dead then pure 0 else (do
    call cluster_push
    err ← fsync_all env
    u ← get
    pure (if err == enosys && not (fuse_isnosyncwrites_mp u.mpdata) then 0 else err))

module _ (env : Env) where
  refuses :
      (action : ℕ) (context : Process) (u : VnodeState)
      → u.mpdata.dataflags fsess_defer_permissions ≡ false
      → u.mpdata.noimplflags (code Opcode.access) ≡ true
      → fuse_internal_access env action context u ≡ done enotsup u
  unfolding fuse_internal_access
  refuses action context u strict lacks = rw (strict, lacks) refl

  -- On a live device whose session does not defer permissions and whose daemon is not known to
  -- lack FUSE_ACCESS, for a process that may use the mount or on its root: where the daemon
  -- answers ENOSYS, fuse_internal_access returns ENOTSUP, and each later call in the state that it
  -- leaves, for any action and process, returns ENOTSUP too and changes nothing, so the daemon is
  -- not asked again.
  pub fuse_internal_access-fuse_internal_access :
      (action action' : ℕ) (context context' : Process) (s : VnodeState)
      → s.mpdata.dead ≡ false
      → s.mpdata.dataflags fsess_defer_permissions ≡ false
      → s.mpdata.noimplflags (code Opcode.access) ≡ false
      → (not s.isvroot && fuse_blanket_deny s context) ≡ false
      → (env.reply s.exchanges (ask_access (access_mask s.vtype action))).errno ≡ enosys
      → Returns
          (λ err u.
            (err ≡ enotsup) × (fuse_internal_access env action' context' u ≡ done enotsup u))
          (fuse_internal_access env action context s)
  unfolding fuse_internal_access access_result without code
  fuse_internal_access-fuse_internal_access action action' context context' s live strict known
        allowed lacks =
      Returns-if Q s (s.mpdata.dataflags fsess_defer_permissions) (pure 0) _
        (λ e. absurd (ground (arith, e, strict)))
        (λ _.
          Returns-if Q s (not (fuse_implemented s.mpdata Opcode.access)) (pure enotsup) _
            (λ e. absurd (ground (arith, e, known)))
            (λ _.
              Returns-if Q s (not s.isvroot && fuse_blanket_deny s context) (pure eperm) _
                (λ e. absurd (ground (arith, e, allowed)))
                (λ _.
                  Returns-bind Lacks Q (ask env request s) (λ reply. access_result reply.errno)
                    (Returns-ask env request s Lacks (λ e. absurd (ground (arith, e, live)))
                      (λ _. (lacks, strict)))
                    (λ reply u is. rw is.0 (refl, refuses action' context' _ is.1 refl)))))
    where
      request : Request
      request = ask_access (access_mask s.vtype action)

      Q : ℕ → VnodeState → Type 0
      Q = λ err u. (err ≡ enotsup) × (fuse_internal_access env action' context' u ≡ done enotsup u)

      Lacks : Reply → VnodeState → Type 0
      Lacks reply u = (reply.errno ≡ enosys) × (u.mpdata.dataflags fsess_defer_permissions ≡ false)
