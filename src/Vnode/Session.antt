-- ===== src/Vnode/Session.antt =====
-- fuse_internal.h: what the session and the node's flags say, and who may use the mount at all.
use kext.Prelude.{
  ℕ, Bool, true, false, not, List, [], ◌∷◌, ◌==◌, ◌&&◌, ◌||◌, if◌then◌else◌, ltb, take,
}
use kext.Opcode.{Opcode, code}
use kext.Ipc.State.{FuseData, set_flag}
use kext.Device.Lifecycle.{Process, fuse_match_cred}
use kext.Vnode.State.{VnodeState}

-- The bits of `dataflags`, FSESS_*.
abbrev pub fsess_allow_other : ℕ
fsess_allow_other = 0

abbrev pub fsess_allow_root : ℕ
fsess_allow_root = 1

abbrev pub fsess_direct_io : ℕ
fsess_direct_io = 5

abbrev pub fsess_no_appledouble : ℕ
fsess_no_appledouble = 9

abbrev pub fsess_no_readahead : ℕ
fsess_no_readahead = 12

abbrev pub fsess_no_synconclose : ℕ
fsess_no_synconclose = 13

abbrev pub fsess_no_syncwrites : ℕ
fsess_no_syncwrites = 14

abbrev pub fsess_no_vncache : ℕ
fsess_no_vncache = 16

abbrev pub fsess_sparse : ℕ
fsess_sparse = 22

abbrev pub fsess_atomic_o_trunc : ℕ
fsess_atomic_o_trunc = 23

abbrev pub fuse_isdirectio_mp : FuseData → Bool
fuse_isdirectio_mp d = d.dataflags fsess_direct_io

abbrev pub fuse_isdirectio : VnodeState → Bool
fuse_isdirectio s = fuse_isdirectio_mp s.mpdata || s.fvdat.fn_direct_io

abbrev pub fuse_isnoreadahead : VnodeState → Bool
fuse_isnoreadahead s = s.mpdata.dataflags fsess_no_readahead || fuse_isdirectio s

abbrev pub fuse_isnosynconclose : VnodeState → Bool
fuse_isnosynconclose s = not (fuse_isdirectio s) && s.mpdata.dataflags fsess_no_synconclose

abbrev pub fuse_isnosyncwrites_mp : FuseData → Bool
fuse_isnosyncwrites_mp d = not (fuse_isdirectio_mp d) && d.dataflags fsess_no_syncwrites

abbrev pub fuse_isnovncache_mp : FuseData → Bool
fuse_isnovncache_mp d = d.dataflags fsess_no_vncache || fuse_isdirectio_mp d

abbrev pub fuse_implemented : FuseData → Opcode → Bool
fuse_implemented d op = not (d.noimplflags (code op))

-- `MNT_ASYNC` and `MNT_SYNCHRONOUS` of the mount, and the session's bit.
unfoldable pub fuse_setnosyncwrites_mp : VnodeState → VnodeState
fuse_setnosyncwrites_mp s = record s {
  synchronous = false;
  async = true;
  mpdata = record s.mpdata { dataflags = set_flag fsess_no_syncwrites s.mpdata.dataflags };
}

unfoldable pub fuse_clearnosyncwrites_mp : VnodeState → VnodeState
fuse_clearnosyncwrites_mp s = if s.synchronous then s else record s {
  async = false;
  synchronous = true;
  mpdata = record s.mpdata {
    dataflags = λ i. not (fsess_no_syncwrites == i) && s.mpdata.dataflags i;
  };
}

-- May this process not use the mount at all?
unfoldable pub fuse_blanket_deny : VnodeState → Process → Bool
fuse_blanket_deny s context =
    let issuser = context.uid == 0 in
    if s.mpdata.dataflags fsess_allow_other
    then false
    else if issuser && s.mpdata.dataflags fsess_allow_root
    then false
    else if fuse_match_cred s.mpdata context == 0
    then false
    else if not s.mpdata.inited && (s.isvroot && issuser)
    then false
    else if s.mpdata.dead && s.isvroot
    then false
    else not (context.pid == 0)

-- The bytes of ".DS_Store", with the NUL at its end.
abbrev pub ds_store : List ℕ
ds_store = 46 ∷ 68 ∷ 83 ∷ 95 ∷ 83 ∷ 116 ∷ 111 ∷ 114 ∷ 101 ∷ 0 ∷ []

-- Two names with the same bytes.
unfoldable pub same_bytes : List ℕ → List ℕ → Bool
same_bytes [] [] = true
same_bytes (b ∷ bs) (c ∷ cs) = (b == c) && same_bytes bs cs
same_bytes bs cs = false

-- Bytes that begin with "._".
abbrev pub dot_underscore : List ℕ → Bool
dot_underscore nameptr = same_bytes (take 2 nameptr) (46 ∷ 95 ∷ [])

-- A name that the daemon is not asked about: ".DS_Store", or "._" with more behind it. `nameptr`
-- are the bytes from the name on, `namelen` its length: with the name the byte behind it is
-- compared, which is to be NUL.
unfoldable pub fuse_skip_apple_double_mp : FuseData → (nameptr : List ℕ) (namelen : ℕ) → Bool
fuse_skip_apple_double_mp d nameptr namelen =
    d.dataflags fsess_no_appledouble
    && (ltb 2 namelen
        && ((namelen == 9 && same_bytes (take 10 nameptr) ds_store) || dot_underscore nameptr))
