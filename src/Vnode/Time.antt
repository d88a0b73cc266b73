-- ===== src/Vnode/Time.antt =====
-- fuse_internal.h: arithmetic on `struct timespec`, whose fields are 64-bit words here.
use kext.Prelude.{ℕ, Bool, ◌≡◌, ◌<◌, ◌+◌, ◌-◌, ◌*◌, ◌%◌, ◌^◌, ◌==◌, arith, if◌then◌else◌, leb}
use kext.Vnode.State.{Timespec}

unfoldable pub fuse_timespec_add : Timespec → Timespec → Timespec
fuse_timespec_add v u =
    if leb 1000000000 (v.tv_nsec + u.tv_nsec)
    then record {
      tv_sec = (v.tv_sec + u.tv_sec + 1) % 2 ^ 64;
      tv_nsec = v.tv_nsec + u.tv_nsec - 1000000000;
    }
    else record { tv_sec = (v.tv_sec + u.tv_sec) % 2 ^ 64; tv_nsec = v.tv_nsec + u.tv_nsec }

-- The operator is an argument of the macro.
unfoldable pub fuse_timespec_cmp : (ℕ → ℕ → Bool) → Timespec → Timespec → Bool
fuse_timespec_cmp cmp t u =
    if t.tv_sec == u.tv_sec then cmp t.tv_nsec u.tv_nsec else cmp t.tv_sec u.tv_sec

-- Fewer nanoseconds than a second has.
abbrev pub IsNormal : Timespec → Type 0
IsNormal t = t.tv_nsec < 1000000000

abbrev pub nanoseconds : Timespec → ℕ
nanoseconds t = t.tv_sec * 1000000000 + t.tv_nsec

-- The test of the attribute cache: for a time now, a start and a validity with fewer than 10^9
-- nanoseconds each, whose seconds (of start and validity, and one) add up to less than 2^63,
-- fuse_timespec_cmp of now with the sum that fuse_timespec_add makes, by the operator <=, holds
-- exactly if now, counted in nanoseconds, is at most the validity plus the start.
pub fuse_timespec_cmp-fuse_timespec_add :
    (now start validity : Timespec)
    → IsNormal now
    → IsNormal start
    → IsNormal validity
    → validity.tv_sec + start.tv_sec + 1 < 2 ^ 63
    → fuse_timespec_cmp leb now (fuse_timespec_add validity start)
      ≡ leb (nanoseconds now) (nanoseconds validity + nanoseconds start)
unfolding fuse_timespec_cmp fuse_timespec_add
fuse_timespec_cmp-fuse_timespec_add now start validity hn hs hv small = ground arith
