-- ===== src/Tests/Vnodes.antt =====
-- The theorems on open vnodes, on a file that is opened, mapped and closed.
use kext.Prelude.{
  ◌*◌, ℕ, List, [], ◌∷◌, ◌≡◌, ◌≤◌, ◌<◌, ◌+◌, ◌^◌, refl, true, false, arith, inr, some, ◌%◌, leb,
}
use kext.Vnode.State.{
  VnodeState, Env, Reply, Request, ask_open, vreg, FufhType, VnodeAttr, Timespec, Exchange,
  same_type, fufh_rdonly,
}
use kext.Vnode.Monad.{◌>>=◌, update}
use kext.Vnode.Returns.{Returns}
use kext.Vnode.Blocks.{fuse_vnop_blockmap, fuse_vnop_blockmap_bounds}
use kext.Vnode.Time.{
  fuse_timespec_add, fuse_timespec_cmp, nanoseconds, fuse_timespec_cmp-fuse_timespec_add,
}
use kext.Vnode.Round.{
  fuse_round_powerof2, fuse_round_size, IsLeast, fuse_round_powerof2-IsLeast,
  fuse_round_size_bounds,
}
use kext.Vnode.Open.{fuse_vnop_open, fuse_vnop_close, fuse_vnop_inactive, fuse_vnop_reclaim}
use kext.Vnode.Open.Mapping.{fuse_vnop_mmap}
use kext.Vnode.Open.Quiet.{uses, opened_times, released_times, held_in}
use kext.Vnode.Open.Balance.{IsBalanced}
use kext.Vnode.Open.Getting.{Took}
use kext.Vnode.Open.Calls.{chosen, Closed, fuse_vnop_open-Took, fuse_vnop_close-Closed}
use kext.Vnode.Open.History.{
  opens, closes, maps, VnodeCall, perform_all, AllReleased, IsIdle, fuse_vnop_inactive-releases,
  fuse_vnop_reclaim-releases, fuse_vnop_mmap-IsIdle,
}
use kext.Ipc.Answer.{le}
use kext.Tests.{idle, daemon}

-- Each open is answered by the id 7.
abbrev answer : List Exchange → Request → Reply
answer before (ask_open isdir flags) = record {
  errno = 0;
  body = 7 ∷ 0 ∷ 0 ∷ 0 ∷ 0 ∷ 0 ∷ 0 ∷ 0 ∷ 0 ∷ 0 ∷ 0 ∷ 0 ∷ [];
  dies = false;
}
answer before request = record { errno = 0; body = []; dies = false }

abbrev epoch : Timespec
epoch = record { tv_sec = 0; tv_nsec = 0 }

abbrev pub env : Env
env = record {
  reply = answer;
  authorize = λ r w. 0;
  authopaque = false;
  hasdirtyblks = true;
  isforce = false;
  nanouptime = record { tv_sec = 50; tv_nsec = 0 };
}

abbrev attributes : VnodeAttr
attributes = record {
  va_fileid = 5;
  va_data_size = 100;
  va_data_alloc = 0;
  va_access_time = epoch;
  va_change_time = epoch;
  va_modify_time = epoch;
  va_create_time = epoch;
  va_backup_time = epoch;
  va_mode = 420;
  va_nlink = 1;
  va_uid = 501;
  va_gid = 20;
  va_rdev = 0;
  va_type = 8;
  va_iosize = 4096;
  va_flags = 0;
}

-- A file that nobody has opened yet.
abbrev pub file : VnodeState
file = record {
  mpdata = idle;
  vtype = vreg;
  isvroot = false;
  synchronous = true;
  async = false;
  fvdat = record {
    nodeid = 5;
    nlookup = 1;
    fufh = λ t. record { fh_id = 0; open_count = 0; open_flags = 0; fuse_open_flags = 0 };
    fn_direct_io = false;
    attr_valid = epoch;
    c_xtimes_valid = false;
    cached_attr = attributes;
    filesize = 100;
    modify_time = epoch;
    generation = 1;
    parent_nodeid = 1;
  };
  fh_upcall_count = 0;
  fh_current = 0;
  fh_reuse_count = 0;
  fh_zombies = 0;
  exchanges = [];
  calls = [];
}

file-IsBalanced : IsBalanced file
unfolding opened_times released_times held_in
file-IsBalanced = record { covered = λ fh. omega arith; exact = λ live fh. refl }

-- The file, open for reading.
abbrev open_file : VnodeState
open_file = record file {
  fvdat = record file.fvdat {
    fufh =
        update file.fvdat.fufh fufh_rdonly
          (record { fh_id = 7; open_count = 2; open_flags = 0; fuse_open_flags = 0 });
  };
  fh_current = 1;
  exchanges = record { request = ask_open false 0; errno = 0; answer = 7 ∷ [] } ∷ [];
}

open_file-IsBalanced : IsBalanced open_file
unfolding opened_times released_times held_in same_type le
open_file-IsBalanced = record { covered = λ fh. ground arith; exact = λ live fh. ground arith }

-- Open for reading and writing, open for reading, map, close the first.
abbrev life : List VnodeCall
life = opens 3 daemon ∷ opens 1 daemon ∷ maps 1 daemon ∷ closes 3 ∷ []

fuse_vnop_inactive-releases_example :
    Returns
      (λ _ u. AllReleased u × ((t : FufhType) → uses u t ≡ 0))
      ((perform_all env life >>= λ _. fuse_vnop_inactive env) file)
fuse_vnop_inactive-releases_example =
    fuse_vnop_inactive-releases env life file (refl, (refl, (refl, (inr refl, tt)))) file-IsBalanced

fuse_vnop_open-Took_example :
    Returns
      (Took (chosen file 3) (uses file (chosen file 3) + 1) file)
      (fuse_vnop_open env 3 daemon file)
fuse_vnop_open-Took_example = fuse_vnop_open-Took env 3 daemon file file-IsBalanced refl

fuse_vnop_close-Closed_example :
    Returns (λ _ u. Closed 1 open_file u) (fuse_vnop_close env 1 open_file)
fuse_vnop_close-Closed_example =
    fuse_vnop_close-Closed env 1 open_file open_file-IsBalanced (inr refl)

fuse_vnop_reclaim-releases_example :
    Returns
      (λ _ u. AllReleased u × ((t : FufhType) → uses u t ≡ 0))
      (fuse_vnop_reclaim env open_file)
fuse_vnop_reclaim-releases_example =
    fuse_vnop_reclaim-releases env open_file open_file-IsBalanced refl

fuse_vnop_mmap-IsIdle_example : IsIdle file (fuse_vnop_mmap env 3 daemon file)
fuse_vnop_mmap-IsIdle_example = fuse_vnop_mmap-IsIdle env 3 daemon file

fuse_round_powerof2-IsLeast_example :
    (r : ℕ) × (fuse_round_powerof2 5000 ≡ some r) × IsLeast (5000 % 2 ^ 31) r
fuse_round_powerof2-IsLeast_example = fuse_round_powerof2-IsLeast 5000

fuse_round_size_bounds_example :
    (k : ℕ) × (fuse_round_size 5000 (2 ^ 12) (2 ^ 20) ≡ some (2 ^ k))
    × (2 ^ 12 ≤ 2 ^ k)
    × (2 ^ k ≤ 2 ^ 20)
    × (5000 < 2 ^ 31 → 5000 ≤ 2 ^ 20 → 5000 ≤ 2 ^ k)
fuse_round_size_bounds_example = fuse_round_size_bounds 5000 12 20 (omega arith)

fuse_timespec_cmp-fuse_timespec_add_example :
    fuse_timespec_cmp leb env.nanouptime (fuse_timespec_add env.nanouptime epoch)
    ≡ leb (nanoseconds env.nanouptime) (nanoseconds env.nanouptime + nanoseconds epoch)
fuse_timespec_cmp-fuse_timespec_add_example =
    fuse_timespec_cmp-fuse_timespec_add env.nanouptime epoch env.nanouptime (omega arith)
      (omega arith) (omega arith) (omega arith)

fuse_vnop_blockmap_bounds_example :
    (bpn run : ℕ) × (fuse_vnop_blockmap 64 file 70 512 true true ≡ (0, some (bpn, some run)))
    × (0 < run)
    × (run ≤ 512)
    × (bpn * 64 ≤ 70)
    × (70 < bpn * 64 + 64)
    × (bpn * 64 + run ≤ 100)
fuse_vnop_blockmap_bounds_example =
    fuse_vnop_blockmap_bounds 64 70 512 file refl refl (omega arith) (omega arith) (omega arith)
      (omega arith) (omega arith)
