-- ===== src/Tests/Transfers.antt =====
-- The theorems on reading and writing in chunks and on access, with daemons that take a byte of each
-- write, take nothing, or lack an operation.
use kext.Prelude.{ℕ, List, [], ◌∷◌, none, true, false, ◌≡◌, refl, arith}
use kext.Errno.{enosys, enotsup}
use kext.Opcode.{code}
use kext.Ipc.Answer.{le}
use kext.Device.Lifecycle.{fuse_match_cred}
use kext.Vnode.Monad.{done}
use kext.Vnode.Session.{fuse_blanket_deny}
use kext.Vnode.Access.{fuse_internal_access, fuse_internal_access-fuse_internal_access}
use kext.Tests.{daemon}
use kext.Vnode.State.{Env, Request, ask_write}
use kext.Vnode.Returns.{Returns}
use kext.Vnode.Transfer.{write_chunks, read_chunks}
use kext.Vnode.Transfer.Filled.{IsFull}
use kext.Vnode.Transfer.Ends.{
  TakesSome, TakesNothing, FitsReads, Written, write_chunks-Written, write_chunks_stuck,
  read_chunks-IsFull,
}
use kext.Tests.Vnodes.{env, file}

abbrev taken : Request → List ℕ
taken (ask_write fh offset size) = 1 ∷ 0 ∷ 0 ∷ 0 ∷ []
taken request = []

-- One byte of each write is taken, and each read is at the end of the file.
abbrev one_byte : Env
one_byte = record env {
  reply = λ before request. record { errno = 0; body = taken request; dies = false };
}

abbrev no_byte : Env
no_byte = record env { reply = λ before request. record { errno = 0; body = []; dies = false } }

one_byte-TakesSome : TakesSome one_byte
unfolding le
one_byte-TakesSome before fh offset size ok = omega arith

no_byte-TakesNothing : TakesNothing no_byte
unfolding le
no_byte-TakesNothing before fh offset size = (refl, refl, refl)

one_byte-FitsReads : FitsReads one_byte
one_byte-FitsReads before isdir fh offset size = omega arith

write_chunks-Written_example :
    Returns (λ o _. Written o) (write_chunks one_byte 7 true 11 10 0 file)
write_chunks-Written_example =
    write_chunks-Written one_byte 7 one_byte-TakesSome 11 10 0 file (omega arith) (omega arith)

write_chunks_stuck_example : Returns (λ o _. o ≡ none) (write_chunks no_byte 7 true 1000 10 0 file)
write_chunks_stuck_example =
    write_chunks_stuck no_byte 7 no_byte-TakesNothing true 1000 10 0 file refl (omega arith)
      (omega arith)

read_chunks-IsFull_example :
    Returns (IsFull file [] 10) (read_chunks one_byte 7 false 11 [] 10 0 file)
read_chunks-IsFull_example =
    read_chunks-IsFull one_byte 7 false one_byte-FitsReads 11 [] 10 0 file (omega arith)

-- A daemon without FUSE_ACCESS.
abbrev no_access : Env
no_access = record env {
  reply = λ before request. record { errno = enosys; body = []; dies = false };
}

fuse_internal_access-fuse_internal_access_example :
    Returns
      (λ err u. (err ≡ enotsup) × (fuse_internal_access no_access 4 daemon u ≡ done enotsup u))
      (fuse_internal_access no_access 2 daemon file)
unfolding code fuse_blanket_deny fuse_match_cred
fuse_internal_access-fuse_internal_access_example =
    fuse_internal_access-fuse_internal_access no_access 2 4 daemon daemon file refl refl refl refl
      refl
