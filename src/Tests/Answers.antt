-- ===== src/Tests/Answers.antt =====
-- The round trip of a request, with an answer of three bytes.
use kext.Prelude.{
  ℕ, ◌<◌, ◌≡◌, refl, arith, count, List, [], ◌∷◌, count-cons, count-nil, ◌∙◌, sym, ap,
}
use kext.Iov.{Iov, fiov_adjust_canfail}
use kext.Ipc.State.{Kernel, FuseData}
use kext.Ipc.Monad.{done}
use kext.Ipc.Audit.{fuse_body_audit}
use kext.Ipc.Answer.Pull.{Ready}
use kext.Ipc.Wait.{fuse_dispatcher_wait_answer}
use kext.Device.Writing.{fuse_device_write, out_header_of}
use kext.Device.Writing.Delivery.{Linked, delivered, answer_lem}
use kext.RoundTrip.{
  IsReply, asked, sent, header, body_of, fuse_dispatcher_wait_answer-fuse_device_write, write_lem,
  state_of,
}
use kext.Tests.{tun, kernel, busy, ticket, buffer}
use kext.Tests.Tickets.{asking}
use kext.Tests.Devices.{fresh}

-- 19 bytes in all, no error, the identifier 1, and the body.
abbrev bytes : List ℕ
bytes = 19 ∷ 0 ∷ 0 ∷ 0 ∷ 0 ∷ 0 ∷ 0 ∷ 0 ∷ 1 ∷ 0 ∷ 0 ∷ 0 ∷ 0 ∷ 0 ∷ 0 ∷ 0 ∷ 47 ∷ 101 ∷ 116 ∷ []

abbrev before : FuseData
before = asked busy 3 ticket

abbrev aw : Iov
aw = record buffer { len = 3 }

abbrev after : FuseData
after = delivered before 3 (sent ticket) (header bytes) (47 ∷ 101 ∷ 116 ∷ []) aw

abbrev woken : Kernel
woken = record kernel { msleep = λ c d. (0, after) }

linked : Linked before before.aw_head
linked = record {
  there = λ a c. ground (arith, count-cons a 3 [], count-nil a);
  distinct = λ a b t u e f g. ground arith;
}

queued : 0 < count 3 before.aw_head
queued = omega (arith, count-cons 3 3 [], count-nil 3)

reply : IsReply ticket bytes
unfolding out_header_of
reply = record { long = refl; len = refl; error = refl; unique = refl }

ready :
    Ready tun kernel before (record (sent ticket) { aw_ohead = header bytes }) (body_of bytes) aw
unfolding out_header_of fiov_adjust_canfail fuse_body_audit
ready = record {
  alive = refl;
  success = refl;
  audited = refl;
  into_fiov = refl;
  room = refl;
  moves = refl;
}

wrote : fuse_device_write tun kernel bytes before ≡ done 0 after
wrote =
    write_lem tun kernel before ticket bytes reply refl
    ∙ answer_lem tun kernel before 3 (sent ticket) (header bytes) (body_of bytes) aw linked queued
        refl (sym reply.unique) refl refl ready

fuse_dispatcher_wait_answer-fuse_device_write_example :
    (fuse_device_write tun kernel bytes before ≡ done 0 after)
    × (fuse_dispatcher_wait_answer tun woken asking busy
        ≡ done
            (record asking { answer_errno = 0; answer = 47 ∷ 101 ∷ 116 ∷ []; iosize = 3 }, 0)
            after)
fuse_dispatcher_wait_answer-fuse_device_write_example =
    fuse_dispatcher_wait_answer-fuse_device_write tun woken kernel busy before after asking 3 ticket
      bytes aw refl fresh refl refl refl linked queued reply refl ready (ap (state_of before) wrote)
      refl
