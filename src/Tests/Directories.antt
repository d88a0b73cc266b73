-- ===== src/Tests/Directories.antt =====
-- The theorems on reading a directory, on one with two entries.
use kext.Prelude.{ℕ, true, List, [], ◌∷◌, ◌++◌, map, some, ◌≡◌, refl, arith, ◌+◌, ◌==◌}
use kext.Vnode.State.{VnodeState, vdir}
use kext.Vnode.Returns.{Returns}
use kext.Vnode.Readdir.{Uio, Reader, minus_one, cooked, fuse_internal_readdir_processdata}
use kext.Vnode.Readdir.Loops.{Processed, fuse_internal_readdir_processdata-Finishes}
use kext.Vnode.Readdir.Entries.{joined, room, AllEntries, fuse_internal_readdir_processdata-joined}
use kext.Ipc.State.{FuseData}
use kext.Vnode.Session.{fuse_skip_apple_double_mp, same_bytes}
use kext.Ipc.Answer.{le}
use kext.Tests.{tun, idle}
use kext.Tests.Vnodes.{file}

-- A 64-bit kernel with 32-bit inode numbers.
abbrev reader : Reader
reader = record {
  dirent_header = 8;
  ino_bits = 32;
  uiomove = λ n. 0;
  tunables = tun;
  malloc = λ n. true;
}

abbrev uio : Uio
uio = record { resid = 4096; offset = 0; moved = []; numdirent = 0 }

-- The entries "a" with the inode 5 and "b" with the inode 6.
abbrev a_file : List ℕ
a_file =
    5 ∷ 0 ∷ 0 ∷ 0 ∷ 0 ∷ 0 ∷ 0 ∷ 0 ∷ 1 ∷ 0 ∷ 0 ∷ 0 ∷ 0 ∷ 0 ∷ 0 ∷ 0 ∷ 1 ∷ 0 ∷ 0 ∷ 0 ∷ 8 ∷ 0 ∷ 0 ∷ 0
    ∷ 97 ∷ 0 ∷ 0 ∷ 0 ∷ 0 ∷ 0 ∷ 0 ∷ 0 ∷ []

abbrev b_file : List ℕ
b_file =
    6 ∷ 0 ∷ 0 ∷ 0 ∷ 0 ∷ 0 ∷ 0 ∷ 0 ∷ 2 ∷ 0 ∷ 0 ∷ 0 ∷ 0 ∷ 0 ∷ 0 ∷ 0 ∷ 1 ∷ 0 ∷ 0 ∷ 0 ∷ 8 ∷ 0 ∷ 0 ∷ 0
    ∷ 98 ∷ 0 ∷ 0 ∷ 0 ∷ 0 ∷ 0 ∷ 0 ∷ 0 ∷ []

abbrev entries : List (List ℕ)
entries = a_file ∷ b_file ∷ []

two_entries : AllEntries entries
unfolding le
two_entries = (
  record { whole = refl; named = omega arith; short = omega arith },
  (record { whole = refl; named = omega arith; short = omega arith }, tt),
)

fuse_internal_readdir_processdata-joined_example :
    (after : Uio) × (fuse_internal_readdir_processdata reader idle (joined entries) uio
      ≡ some (minus_one, after))
    × (after.moved ≡ uio.moved ++ map (cooked reader idle) entries)
    × (after.resid + room reader idle entries ≡ uio.resid)
unfolding le room
fuse_internal_readdir_processdata-joined_example =
    fuse_internal_readdir_processdata-joined reader idle (λ n. refl) entries uio two_entries
      (omega arith)

fuse_internal_readdir_processdata-Finishes_example :
    (r : ℕ × Uio) × (fuse_internal_readdir_processdata reader idle (joined entries) uio ≡ some r)
    × Processed reader idle 0 uio r
fuse_internal_readdir_processdata-Finishes_example =
    fuse_internal_readdir_processdata-Finishes reader idle (joined entries) uio

-- The directory, which nobody has opened yet.
abbrev directory : VnodeState
directory = record file { vtype = vdir }

-- The entry ".DS_Store" with a byte behind the name.
abbrev ds_store_entry : ℕ → List ℕ
ds_store_entry behind =
    7 ∷ 0 ∷ 0 ∷ 0 ∷ 0 ∷ 0 ∷ 0 ∷ 0 ∷ 3 ∷ 0 ∷ 0 ∷ 0 ∷ 0 ∷ 0 ∷ 0 ∷ 0 ∷ 9 ∷ 0 ∷ 0 ∷ 0 ∷ 8 ∷ 0 ∷ 0 ∷ 0
    ∷ 46 ∷ 68 ∷ 83 ∷ 95 ∷ 83 ∷ 116 ∷ 111 ∷ 114 ∷ 101 ∷ behind ∷ 0 ∷ 0 ∷ 0 ∷ 0 ∷ 0 ∷ 0 ∷ []

-- The session of a mount with "noappledouble".
abbrev hiding : FuseData
hiding = record idle { dataflags = λ b. b == 9 }

-- It is whited out only if that byte is NUL.
hides_ds_store :
    ((cooked reader hiding (ds_store_entry 0)).d_type ≡ 14)
    × ((cooked reader hiding (ds_store_entry 1)).d_type ≡ 8)
unfolding cooked fuse_skip_apple_double_mp same_bytes le
hides_ds_store = (refl, refl)
