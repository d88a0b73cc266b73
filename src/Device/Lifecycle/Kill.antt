-- ===== src/Device/Lifecycle/Kill.antt =====
-- Who may kill a device, and what that does.
use kext.Prelude.{
  ℕ, ◌<◌, ◌≡◌, ◌⊎◌, refl, inl, inr, true, false, ◌||◌, ◌==◌, Option, some, [], pos, leb, arith,
  Bool-cases,
}
use kext.Errno.{eperm}
use kext.Ipc.State.{FuseData}
use kext.Ipc.Ensures.{Ensures, Ensures-bind}
use kext.Ipc.WellFormed.{kill-WellFormed}
use kext.Ipc.Monad.{◌>>=◌}
use kext.Ipc.Tickets.{fuse_data_kill}
use kext.Device.Lifecycle.{
  FuseDevice, Process, ndevices, fuse_match_cred, kill_as, kill_data, fuse_device_kill,
  fuse_reject_answers,
}
use kext.Device.Lifecycle.Tickets.{Tidy, Rejected, fuse_reject_answers-Rejected}
use kext.Device.Lifecycle.Closing.{Returns, Returns-after_run, kill-state, plentiful, memory}

-- Root, and the user and group of the daemon.
abbrev pub MayKill : FuseData → Process → Type 0
MayKill d p = (p.uid ≡ 0) ⊎ ((d.daemon_uid ≡ p.uid) × (d.daemon_gid ≡ p.gid))

-- A device whose data is dead, with all waiting tickets rejected.
pub record KilledDevice (d : FuseData) (g : FuseDevice) : Type 0 where
  pub e : FuseData
  pub content : g.content ≡ some e
  pub dead : e.dead ≡ true
  pub rejected : Rejected (record d { dead = true }) d.aw_head e
  pub empty : e.aw_head ≡ []

abbrev pub KillResult : FuseDevice → FuseData → Process → FuseDevice × ℕ → Type 0
KillResult f d p r =
    (MayKill d p × (r.1 ≡ 0) × KilledDevice d r.0) ⊎ ((¬ MayKill d p) × (r.1 ≡ eperm) × (r.0 ≡ f))

dead-Tidy : (d : FuseData) → Tidy d → Tidy (record d { dead = true })
dead-Tidy d t = record {
  well = kill-WellFormed d t.well;
  queued = λ a c. record { here = (t.queued a c).here; apart = (t.queued a c).apart };
}

kill_run :
    (d : FuseData)
    → Tidy d
    → Ensures plentiful
        (λ _ e. Rejected (record d { dead = true }) d.aw_head e × (e.aw_head ≡ []))
        ((do _ ← fuse_data_kill; fuse_reject_answers) d)
kill_run d t =
    Ensures-bind plentiful (λ _ e. e ≡ record d { dead = true }) _ (fuse_data_kill d) _
      (kill-state plentiful memory d)
      λ _ e same.
        rw same (fuse_reject_answers-Rejected plentiful (record d { dead = true }) (dead-Tidy d t))

may : (d : FuseData) (p : Process) → (p.uid == 0 || fuse_match_cred d p == 0) ≡ true → MayKill d p
unfolding fuse_match_cred
may d p e = ground arith

may_not :
    (d : FuseData) (p : Process)
    → (p.uid == 0 || fuse_match_cred d p == 0) ≡ false
    → MayKill d p
    → ⊥
unfolding fuse_match_cred
may_not d p e h = ground arith

kill_as-Returns :
    (f : FuseDevice) (d : FuseData) (p : Process)
    → Tidy d
    → Returns (KillResult f d p) (kill_as f d (some p))
unfolding kill_as
kill_as-Returns f d p t = elim (Bool-cases (p.uid == 0 || fuse_match_cred d p == 0)) [
  | inl e ↦
      rw (kill_as, e)
        (Returns-after_run plentiful memory _ (KillResult f d p)
          ((do _ ← fuse_data_kill; fuse_reject_answers) d) _ (kill_run d t)
          λ _ g r. inl (
            may d p e,
            refl,
            record { e = g; content = refl; dead = r.0.dead; rejected = r.0; empty = r.1 },
          ))
  | inr e ↦ rw (kill_as, e) (inr ((λ h. may_not d p e h), refl, refl))
]

kill_data-Returns :
    (f : FuseDevice) (o : Option FuseData) (d : FuseData) (p : Process)
    → o ≡ some d
    → Tidy d
    → Returns (KillResult f d p) (kill_data f o (some p))
unfolding kill_data
kill_data-Returns f o d p c t = rw c (kill_as-Returns f d p t)

-- On a device of the table, whose tickets meet the invariant and whose queue of answers links only
-- tickets in use, `fuse_device_kill` by a process neither panics nor touches a freed ticket. If the
-- process is root's or has the user and the group of the daemon, it returns 0, the device is dead,
-- every ticket that waited is answered with ENOTCONN and the queue of answers is empty; otherwise it
-- returns EPERM and changes nothing.
pub fuse_device_kill-Returns :
    (unit : ℕ) (f : FuseDevice) (d : FuseData) (p : Process)
    → unit < ndevices
    → f.content ≡ some d
    → Tidy d
    → Returns (KillResult f d p) (fuse_device_kill (pos unit) f (some p))
unfolding fuse_device_kill
fuse_device_kill-Returns unit f d p lt c t =
    rw (fuse_device_kill, small) (kill_data-Returns f f.content d p c t)
  where
    small : leb ndevices unit ≡ false
    small = ground arith
