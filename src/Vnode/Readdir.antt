-- ===== src/Vnode/Readdir.antt =====
-- fuse_internal.c: reading a directory. The daemon's answer is a run of `struct fuse_dirent`s, which
-- become `struct dirent`s in the reader's buffer. The buffer in which one entry is put together is
-- left out: fuse_vnop_readdir allocates it for the longest entry.
pub mod Loops
pub mod Whole
pub mod Entries
use Prim.Native.Nat.{min}
use kext.Prelude.{
  zero, suc, ltb, length, take, drop, ℕ, Bool, List, [], ◌∷◌, ◌++◌, Option, none, some, ◌+◌, ◌-◌,
  ◌*◌, ◌/◌, ◌%◌, ◌^◌, ◌==◌, if◌then◌else◌, take, ltb, suc, drop, length, true,
}
use kext.Errno.{eio, einval}
use kext.Iov.{Tunables}
use kext.Ipc.State.{FuseData}
use kext.Ipc.Answer.{le, u32_at}
use kext.Vnode.State.{VnodeState, Env, Reply, ask_read}
use kext.Vnode.Monad.{V, pure, ◌>>=◌, get, ask}
use kext.Vnode.Attr.{u64_at}
use kext.Vnode.Session.{fuse_skip_apple_double_mp}

-- `struct dirent`.
pub record Dirent : Type 0 where
  pub d_ino : ℕ
  pub d_reclen : ℕ
  pub d_type : ℕ
  pub d_namlen : ℕ
  pub d_name : List ℕ

-- What is left of the reader's buffer, the offset in the directory, the entries moved so far, and the
-- number that is reported.
pub record Uio : Type 0 where
  pub resid : ℕ
  pub offset : ℕ
  pub moved : List Dirent
  pub numdirent : ℕ

-- The kernel's side: the size of a `struct dirent` without its name, the width of its `d_ino`,
-- and the result of `uiomove` by the number of bytes; where that fails nothing is moved.
-- `tunables` and `malloc` are what a message buffer is allocated with.
pub record Reader : Type 0 where
  pub dirent_header : ℕ
  pub ino_bits : ℕ
  pub uiomove : ℕ → ℕ
  pub tunables : Tunables
  pub malloc : ℕ → Bool

-- -1, as the bit pattern of an int: the end of what there is to do.
abbrev pub minus_one : ℕ
minus_one = 2 ^ 32 - 1

abbrev pub fuse_name_offset : ℕ
fuse_name_offset = 24

abbrev pub fuse_maxnamlen : ℕ
fuse_maxnamlen = 255

-- `FUSE_DIRENT_SIZE`, from the length of the name: aligned to 8 bytes.
abbrev pub fuse_dirent_size : ℕ → ℕ
fuse_dirent_size namelen = (fuse_name_offset + namelen + 7) / 8 * 8

-- The fields of the `struct fuse_dirent` at the start of the buffer.
abbrev pub namelen_of : List ℕ → ℕ
namelen_of buf = u32_at 16 buf

abbrev pub name_of : List ℕ → List ℕ
name_of buf = take (namelen_of buf) (drop fuse_name_offset buf)

-- The size of the entry for the reader; the name ends at a multiple of 4.
abbrev pub bytesavail : Reader → ℕ → ℕ
bytesavail reader namelen = reader.dirent_header + (namelen + 4) / 4 * 4

module _ (reader : Reader) (d : FuseData) where
  -- DT_WHT is 14.
  unfoldable pub cooked : List ℕ → Dirent
  cooked buf =
      let hidden = fuse_skip_apple_double_mp d (drop fuse_name_offset buf) (namelen_of buf) in
      record {
        d_ino = if hidden then 0 else u64_at 0 buf % 2 ^ reader.ino_bits;
        d_reclen = bytesavail reader (namelen_of buf) % 2 ^ 16;
        d_type = if hidden then 14 else u32_at 20 buf % 2 ^ 8;
        d_namlen = namelen_of buf;
        d_name = name_of buf;
      }

  -- Where the loop stops before it moves the entry at the start of the buffer: none if it goes on.
  unfoldable pub stops : (first : Bool) → List ℕ → ℕ → Option ℕ
  stops first buf resid =
      if ltb (length buf) fuse_name_offset
      then some minus_one
      else if ltb (length buf) (fuse_dirent_size (namelen_of buf))
      then some (if first then minus_one else 0)
      else if namelen_of buf == 0
      then some einval
      else if ltb fuse_maxnamlen (namelen_of buf)
      then some eio
      else if ltb resid (bytesavail reader (namelen_of buf))
      then some minus_one
      else none

  -- The reader's buffer after an entry was moved and the offset was set.
  unfoldable pub advanced : List ℕ → Uio → Uio
  advanced buf uio = record uio {
    resid = uio.resid - bytesavail reader (namelen_of buf);
    offset = u64_at 8 buf;
    moved = uio.moved ++ cooked buf ∷ [];
  }

  -- After the loop: the number of entries of this answer is reported where there is no error.
  unfoldable pub reported : ℕ → ℕ → Uio → ℕ × Uio
  reported n err uio = (err, if err == 0 then record uio { numdirent = n } else uio)

  -- The end of a round that has moved n entries: it stopped, moving the entry failed, or the rest is
  -- done.
  unfoldable pub concluded : Option ℕ → (n err : ℕ) → Uio → Option (ℕ × Uio) → Option (ℕ × Uio)
  concluded (some stop) n err uio rest = some (reported n stop uio)
  concluded none n err uio rest = if err == 0 then rest else some (err, uio)

  -- The loop of `fuse_internal_readdir_processdata`, which has moved n entries: the errno and the
  -- reader's buffer; none is out of fuel. In the source `cou` is n + 1.
  unfoldable pub process : (fuel : ℕ) → (n : ℕ) → List ℕ → Uio → Option (ℕ × Uio)
  process zero n buf uio = none
  process (suc fuel) n buf uio =
      let rest =
        process fuel (n + 1) (drop (fuse_dirent_size (namelen_of buf)) buf) (advanced buf uio) in
      concluded (stops (n == 0) buf uio.resid) n
        (reader.uiomove (bytesavail reader (namelen_of buf))) uio rest

  unfoldable pub fuse_internal_readdir_processdata : List ℕ → Uio → Option (ℕ × Uio)
  fuse_internal_readdir_processdata buf uio = process (suc (length buf)) 0 buf uio

-- After an answer: go on reading, or end, where -1 is success.
unfoldable pub after_answer : (Uio → V (Option (ℕ × Uio))) → Option (ℕ × Uio) → V (Option (ℕ × Uio))
after_answer again none = pure none
after_answer again (some (err, rest)) =
    if err == 0 then again rest else pure (some (if err == minus_one then 0 else err, rest))

-- What is done with the daemon's reply.
unfoldable pub take_reply :
    Reader → (Uio → V (Option (ℕ × Uio))) → FuseData → Uio → Reply → V (Option (ℕ × Uio))
take_reply reader again d uio reply =
    if reply.errno == 0
    then after_answer again (fuse_internal_readdir_processdata reader d reply.body uio)
    else pure (some (reply.errno, uio))

module _ (reader : Reader) (env : Env) (fh : ℕ) where
  -- The loop of `fuse_internal_readdir`, on fuel.
  unfoldable pub read_on : (fuel : ℕ) → Uio → V (Option (ℕ × Uio))
  read_on zero uio = pure none
  read_on (suc fuel) uio = if uio.resid == 0 then pure (some (0, uio)) else (do
    s ← get
    reply ← ask env (ask_read true fh uio.offset (min uio.resid s.mpdata.iosize))
    take_reply reader (read_on fuel) s.mpdata uio reply)

  unfoldable pub fuse_internal_readdir : Uio → V (Option (ℕ × Uio))
  fuse_internal_readdir uio = read_on (suc uio.resid) uio
