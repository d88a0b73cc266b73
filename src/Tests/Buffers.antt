-- ===== src/Tests/Buffers.antt =====
-- The theorems on buffers, on a buffer of one page.
use kext.Prelude.{◌<◌, ◌≡◌, refl, arith, pos, false}
use kext.Iov.{Iov, fiov_adjust, fiov_adjust_canfail}
use kext.Iov.Bounds.{
  Fits, Agrees, fiov_adjust_canfail-Agrees, fiov_adjust-Fits, fiov_adjust-overflow,
}
use kext.Tests.{tun, kernel, buffer}

abbrev grown : Iov
grown = record { capacity = 5000; len = 5000; allocated_size = 5000; credit = pos 16 }

abbrev large : Iov
large = record { capacity = 600000; len = 0; allocated_size = 600000; credit = pos 2 }

abbrev cut : Iov
cut = record { capacity = 160; len = 4294967296; allocated_size = 160; credit = pos 16 }

fiov_adjust_canfail-Agrees_example :
    Agrees buffer
      (fiov_adjust tun (λ n. false) buffer 5000)
      (fiov_adjust_canfail tun (λ n. false) buffer 5000)
fiov_adjust_canfail-Agrees_example = fiov_adjust_canfail-Agrees tun (λ n. false) buffer 5000

fiov_adjust-Fits_example : Fits grown × (grown.len ≡ 5000)
unfolding fiov_adjust
fiov_adjust-Fits_example =
    fiov_adjust-Fits tun kernel.malloc buffer 5000 {f = grown}
      (record { used = omega arith; backed = omega arith }) (omega arith) refl

fiov_adjust-overflow_example :
    (cut.allocated_size ≡ cut.capacity) × (cut.len ≡ 4294967296) × (cut.capacity < cut.len)
unfolding fiov_adjust
fiov_adjust-overflow_example =
    fiov_adjust-overflow tun kernel.malloc buffer 4294967296 {f = cut} (omega arith) (omega arith)
      refl
