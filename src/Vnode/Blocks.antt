-- ===== src/Vnode/Blocks.antt =====
-- fuse_vnops.c: logical blocks and offsets of a file. Offsets are 64-bit words; `blocksize` is the
-- session's, and a result is the errno with what is stored where the errno is 0.
use kext.Prelude.{
  ℕ, Bool, true, false, not, ltb, Option, none, some, ◌≡◌, ◌≤◌, ◌<◌, refl, ap, ◌+◌, ◌-◌, ◌*◌, ◌/◌,
  ◌%◌, ◌^◌, arith, if◌then◌else◌,
}
use native.Mathlib.Nat.{mul-div_cancel, div-mul-le_self, lt-div-mul-add}
use kext.Errno.{enxio, enotsup}
use kext.Vnode.State.{VnodeState, is_dir}

unfoldable pub fuse_vnop_blktooff : (blocksize : ℕ) → VnodeState → (lblkno : ℕ) → ℕ × Option ℕ
fuse_vnop_blktooff blocksize s lblkno =
    if s.mpdata.dead then (enxio, none) else (0, some ((lblkno * blocksize) % 2 ^ 64))

unfoldable pub fuse_vnop_offtoblk : (blocksize : ℕ) → VnodeState → (offset : ℕ) → ℕ × Option ℕ
fuse_vnop_offtoblk blocksize s offset =
    if s.mpdata.dead then (enxio, none) else (0, some (offset / blocksize))

-- a < b of two `off_t`, by their bit patterns.
abbrev pub off_lt : ℕ → ℕ → Bool
off_lt a b = ltb ((a + 2 ^ 63) % 2 ^ 64) ((b + 2 ^ 63) % 2 ^ 64)

-- The bytes that are contiguous from the start of a block to the end of the file, and not more than
-- asked for: a difference of two `off_t`, compared as `off_t` with a `size_t`.
unfoldable pub clipped_run : (filesize start size : ℕ) → ℕ
clipped_run filesize start size =
    let contiguous = (filesize + (2 ^ 64 - start % 2 ^ 64)) % 2 ^ 64 in
    if off_lt size contiguous then size else contiguous

-- The block and the run, where the caller asks for them by `a_bpn` and `a_run`; without `a_bpn`
-- nothing is done. `a_poff` gets 0. The offset is not negative.
unfoldable pub fuse_vnop_blockmap :
    (blocksize : ℕ)
    → VnodeState
    → (foffset size : ℕ) (asks_bpn asks_run : Bool) → ℕ × Option (ℕ × Option ℕ)
unfolding clipped_run
fuse_vnop_blockmap blocksize s foffset size asks_bpn asks_run =
    let bpn = foffset / blocksize in
    if s.mpdata.dead
    then (enxio, none)
    else if is_dir s.vtype
    then (enotsup, none)
    else if not asks_bpn
    then (0, none)
    else (
      0,
      some (
        bpn,
        if asks_run then some (clipped_run s.fvdat.filesize (bpn * blocksize) size) else none,
      ),
    )

no_wrap : (n : ℕ) → n < 2 ^ 63 → n % 2 ^ 64 ≡ n
no_wrap n h = omega arith

-- On a live device, for a block size above 0 and a block whose offset is below 2^63,
-- fuse_vnop_blktooff returns 0 with an offset from which fuse_vnop_offtoblk returns 0 with the
-- same block.
pub fuse_vnop_offtoblk-fuse_vnop_blktooff :
    (blocksize lblkno : ℕ) (s : VnodeState)
    → s.mpdata.dead ≡ false
    → 0 < blocksize
    → lblkno * blocksize < 2 ^ 63
    → (offset : ℕ) × (fuse_vnop_blktooff blocksize s lblkno ≡ (0, some offset))
      × (fuse_vnop_offtoblk blocksize s offset ≡ (0, some lblkno))
unfolding fuse_vnop_blktooff fuse_vnop_offtoblk
fuse_vnop_offtoblk-fuse_vnop_blktooff blocksize lblkno s live pos small = (
  lblkno * blocksize,
  rw live (ap (λ n. (0, some n)) (no_wrap (lblkno * blocksize) small)),
  rw live (ap (λ n. (0, some n)) (mul-div_cancel lblkno pos)),
)

-- Inside a file whose size, and with a number of bytes that, is below 2^63, nothing is cut.
clipped_run_lem :
    (filesize start size : ℕ)
    → start < filesize
    → filesize < 2 ^ 63
    → size < 2 ^ 63
    → 0 < size
    → (0 < clipped_run filesize start size)
      × (clipped_run filesize start size ≤ size)
      × (start + clipped_run filesize start size ≤ filesize)
unfolding clipped_run
clipped_run_lem filesize start size inside small few some_bytes =
    ground (arith, inside, small, few, some_bytes)

-- On a live device, for a file of fewer than 2^63 bytes, a block size above 0, a number of bytes
-- from 1 to 2^63 - 1 and an offset inside the file, where the caller asks for the block and the
-- run: fuse_vnop_blockmap returns 0 with the block that holds the offset and a run of at least one
-- and at most the given number of bytes, which counted from the start of the block does not go
-- past the end of the file.
pub fuse_vnop_blockmap_bounds :
    (blocksize foffset size : ℕ) (s : VnodeState)
    → s.mpdata.dead ≡ false
    → is_dir s.vtype ≡ false
    → 0 < blocksize
    → 0 < size
    → size < 2 ^ 63
    → foffset < s.fvdat.filesize
    → s.fvdat.filesize < 2 ^ 63
    → (bpn run : ℕ) × (fuse_vnop_blockmap blocksize s foffset size true true
        ≡ (0, some (bpn, some run)))
      × (0 < run)
      × (run ≤ size)
      × (bpn * blocksize ≤ foffset)
      × (foffset < bpn * blocksize + blocksize)
      × (bpn * blocksize + run ≤ s.fvdat.filesize)
unfolding fuse_vnop_blockmap
fuse_vnop_blockmap_bounds blocksize foffset size s live file pos some_bytes few inside small = (
  foffset / blocksize,
  clipped_run s.fvdat.filesize (foffset / blocksize * blocksize) size,
  rw (live, file) refl,
  run.0,
  run.1,
  start,
  lt-div-mul-add {a = foffset} pos,
  run.2,
)
  where
    run :
        (0 < clipped_run s.fvdat.filesize (foffset / blocksize * blocksize) size)
        × (clipped_run s.fvdat.filesize (foffset / blocksize * blocksize) size ≤ size)
        × (foffset / blocksize * blocksize
              + clipped_run s.fvdat.filesize (foffset / blocksize * blocksize) size
            ≤ s.fvdat.filesize)
    run =
        clipped_run_lem s.fvdat.filesize (foffset / blocksize * blocksize) size
          (omega (arith, inside, div-mul-le_self foffset blocksize)) small few some_bytes

    start : foffset / blocksize * blocksize ≤ foffset
    start = div-mul-le_self foffset blocksize
