-- ===== src/Ipc/Answer/Pull.antt =====
-- What `fuse_ticket_pull` stores, and what the standard callback makes of it.
use kext.Prelude.{
  ℕ, ◌≡◌, false, some, List, arith, ◌==◌, length, true, Bool-cases, if◌then◌else◌, inl, inr,
}
use kext.Iov.{Tunables, Iov, fiov_adjust_canfail}
use kext.Ipc.State.{FuseData, Ticket, ft_a_fiov, Kernel}
use kext.Ipc.Monad.{done, update}
use kext.Ipc.Audit.{fuse_body_audit}
use kext.Ipc.Answer.{fuse_ticket_aw_pull_uio, pull_into, fuse_ticket_pull, standard_callback}

abbrev pub with_ticket : FuseData → ℕ → Ticket → FuseData
with_ticket d p t = record d { heap = update d.heap p (some t) }

-- A ticket that waits for an answer of `body`, and a device and kernel that let it in.
pub record Ready (tun : Tunables) (k : Kernel) (d : FuseData) (t : Ticket) (body : List ℕ)
    (aw : Iov) : Type 0 where
  pub alive : d.dead ≡ false
  pub success : t.aw_ohead.error ≡ 0
  pub audited :
      fuse_body_audit d.dead k.page_size t.ms_read_size (length body) t.ms_header.opcode ≡ some 0
  pub into_fiov : t.aw_type ≡ ft_a_fiov
  pub room : fiov_adjust_canfail tun k.malloc t.aw_fiov (length body) ≡ (aw, 0)
  pub moves : k.uiomove (length body) ≡ 0

module _ (tun : Tunables) (k : Kernel) (d : FuseData) (p : ℕ) (t : Ticket) (body : List ℕ)
    (aw : Iov) (here : d.heap p ≡ some t) (r : Ready tun k d t body aw)
    (some_body : (length body == 0) ≡ false) where
  fuse_ticket_aw_pull_uio_lem :
      fuse_ticket_aw_pull_uio tun k p body d
      ≡ done 0 (with_ticket d p (record t { aw_fiov = aw; aw_body = body }))
  unfolding fuse_ticket_aw_pull_uio pull_into
  fuse_ticket_aw_pull_uio_lem = ground (arith, here, r.into_fiov, r.room, r.moves)

  fuse_ticket_pull_lem :
      fuse_ticket_pull tun k p body d
      ≡ done 0 (with_ticket d p (record t { aw_fiov = aw; aw_body = body }))
  unfolding fuse_ticket_pull
  fuse_ticket_pull_lem = ground (arith, here, r.success, r.audited, fuse_ticket_aw_pull_uio_lem)

-- The ticket with the body, and the state that holds it; an empty body stores nothing.
abbrev pub with_body : Ticket → List ℕ → Iov → Ticket
with_body t body aw = if length body == 0 then t else record t { aw_fiov = aw; aw_body = body }

abbrev pub pulled : FuseData → ℕ → Ticket → List ℕ → Iov → FuseData
pulled d p t body aw = if length body == 0 then d else with_ticket d p (with_body t body aw)

-- The state in which the waiting thread finds its answer.
abbrev pub answered_state : FuseData → ℕ → Ticket → List ℕ → Iov → FuseData
answered_state d p t body aw =
    with_ticket (pulled d p t body aw) p
      (record (with_body t body aw) { answered = true; aw_errno = 0 })

module _ (tun : Tunables) (k : Kernel) (d : FuseData) (p : ℕ) (t : Ticket) (body : List ℕ)
    (aw : Iov) (here : d.heap p ≡ some t) (r : Ready tun k d t body aw) where
  fuse_ticket_pull-empty : (length body == 0) ≡ true → fuse_ticket_pull tun k p body d ≡ done 0 d
  unfolding fuse_ticket_pull fuse_ticket_aw_pull_uio
  fuse_ticket_pull-empty e = ground (arith, here, r.success, r.audited)

  pub pulled_lem : fuse_ticket_pull tun k p body d ≡ done 0 (pulled d p t body aw)
  pulled_lem = elim (Bool-cases (length body == 0)) [
    | inl e ↦ rw e (fuse_ticket_pull-empty e)
    | inr some_body ↦ rw some_body (fuse_ticket_pull_lem tun k d p t body aw here r some_body)
  ]

  pub standard_callback_lem :
      t.answered ≡ false → standard_callback tun k p body d ≡ done 0 (answered_state d p t body aw)
  unfolding standard_callback
  standard_callback_lem waiting = ground (arith, here, pulled_lem)
