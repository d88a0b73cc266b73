-- ===== src/Device/Lifecycle.antt =====
-- fuse_device.c: opening, closing and killing a device, and the end of its `struct fuse_data`;
-- fuse_vfsops.c: the parts of mount and unmount that decide who frees it.
pub mod Tickets
pub mod Closing
pub mod Ownership
pub mod Kill
use kext.Prelude.{
  ℕ, zero, suc, Bool, true, false, not, ◌&&◌, ◌||◌, Option, none, some, List, [], ◌∷◌, leb, ◌==◌,
  if◌then◌else◌, length, ℤ, pos, negsuc, suc_ℤ, pred_ℤ, is_zero,
}
use kext.Errno.{eperm, enoent, enxio, ebusy, einval, ealready, enotconn}
use kext.Ipc.State.{FuseData}
use kext.Ipc.Monad.{M, Run, done, panic, fault, pure, ◌>>=◌, ◌>>◌, get, modify, load, store}
use kext.Ipc.Tickets.{fuse_pop_allticks, fuse_ticket_destroy, fuse_data_kill}

-- FUSE4X_NDEVICES.
abbrev pub ndevices : ℕ
ndevices = 24

-- `struct fuse_device`, without its mutex and its node in devfs.
pub record FuseDevice : Type 0 where
  pub usecount : ℤ
  pub pid : ℤ
  pub content : Option FuseData

-- A process, by its id and its user and group.
pub record Process : Type 0 where
  pub pid : ℕ
  pub uid : ℕ
  pub gid : ℕ

-- The outcome of a call on a device; `hangs` where a loop is out of fuel.
pub data Outcome (A : Type 0) : Type 0 where
  returns : A → Outcome A
  panics : Outcome A
  faults : Outcome A
  hangs : Outcome A

infixl 5 ◌>>==◌
abbrev pub ◌>>==◌ : {A B : Type 0} → Outcome A → (A → Outcome B) → Outcome B
returns a >>== f = f a
panics >>== f = panics
faults >>== f = faults
hangs >>== f = hangs

-- Continue with the `struct fuse_data` that a call leaves.
abbrev pub after_run : {A B : Type 0} → Run A → (A → FuseData → Outcome B) → Outcome B
after_run (done a d) f = f a d
after_run panic f = panics
after_run fault f = faults

-- The data that `fuse_data_alloc` fills.
abbrev pub new_data : Process → FuseData
new_data p = record {
  daemon_uid = p.uid;
  daemon_gid = p.gid;
  dataflags = λ b. false;
  noimplflags = λ b. false;
  opened = false;
  mounted = false;
  inited = false;
  dead = false;
  ms_head = [];
  aw_head = [];
  freetickets_head = [];
  alltickets_head = [];
  freeticket_counter = 0;
  deadticket_counter = 0;
  ticketer = 0;
  max_write = 0;
  iosize = 0;
  heap = λ a. none;
  brk = 0;
}

-- The loop of `fuse_data_destroy`, on fuel: whether it has ended, which it does where there is no
-- ticket left to pop.
unfoldable pub destroy_tickets : ℕ → M Bool
unfolding fuse_pop_allticks fuse_ticket_destroy
destroy_tickets zero = pure false
destroy_tickets (suc fuel) =
    let rest = destroy_tickets fuel in
    do
      o ← fuse_pop_allticks
      elim o [ none ↦ pure true | some p ↦ (do fuse_ticket_destroy p; rest) ]

-- `fuse_data_destroy`, up to the release of the structure itself: whether it ends.
unfoldable pub fuse_data_destroy : M Bool
unfolding destroy_tickets
fuse_data_destroy = do d ← get; destroy_tickets (suc (length d.alltickets_head))

unfoldable pub reject_each : List ℕ → M (Unit {0})
reject_each [] = pure tt
reject_each (p ∷ rest) = do
  t ← load p
  store p (record t { answered = true; aw_errno = enotconn })
  reject_each rest

-- Answer every waiting ticket by ENOTCONN, and empty the queue.
unfoldable pub fuse_reject_answers : M (Unit {0})
unfolding reject_each
fuse_reject_answers = do d ← get; reject_each d.aw_head; modify λ e. record e { aw_head = [] }

-- `fuse_device_close_final`, on the data of the device.
unfoldable pub fuse_device_close_final : FuseDevice → FuseData → Outcome FuseDevice
unfolding fuse_data_destroy
fuse_device_close_final fdev d =
    after_run (fuse_data_destroy d)
      λ ended _. if ended then returns (record fdev { content = none; pid = negsuc 0 }) else hangs

-- `fuse_data_alloc`. `memory` says whether OSMalloc has memory; where it has none, the code panics.
unfoldable pub fuse_data_alloc : (memory : Bool) → Process → Outcome FuseData
fuse_data_alloc memory p = if memory then returns (new_data p) else panics

-- The end of `fuse_device_open`, on the data that is there and the new data, which is destroyed again
-- where a mount still has the old.
unfoldable pub open_slot :
    FuseDevice → Process → Option FuseData → FuseData → Outcome (FuseDevice × ℕ)
unfolding fuse_data_destroy
open_slot fdev p (some old) d =
    after_run (fuse_data_destroy d) λ ended _. if ended then returns (fdev, ebusy) else hangs
open_slot fdev p none d = returns (
  record fdev {
    usecount = suc_ℤ fdev.usecount;
    content = some (record d { opened = true });
    pid = pos p.pid;
  },
  0,
)

-- The device and 0 or an errno. `unit` is the minor number.
unfoldable pub fuse_device_open :
    (available memory : Bool) (unit : ℕ) → FuseDevice → Process → Outcome (FuseDevice × ℕ)
unfolding open_slot fuse_data_alloc
fuse_device_open available memory unit fdev p =
    if not available
    then returns (fdev, enoent)
    else (if leb ndevices unit
        then returns (fdev, enoent)
        else (if not (is_zero fdev.usecount)
            then returns (fdev, ebusy)
            else fuse_data_alloc memory p >>== open_slot fdev p fdev.content))

-- What `fuse_device_close` does to the data before it may be freed.
unfoldable pub shut_data : M (Unit {0})
unfolding fuse_data_kill fuse_reject_answers
shut_data = do _ ← fuse_data_kill; modify λ d. record d { opened = false }; fuse_reject_answers

-- The middle of `fuse_device_close`: the data is freed unless it is mounted.
unfoldable pub close_data : FuseDevice → Option FuseData → Outcome FuseDevice
unfolding shut_data fuse_device_close_final
close_data fdev none = panics
close_data fdev (some d) = after_run (shut_data d) λ _ e.
    if e.mounted then returns (record fdev { content = some e }) else fuse_device_close_final fdev e

abbrev pub decrement : FuseDevice → FuseDevice
decrement fdev = record fdev { usecount = pred_ℤ fdev.usecount }

abbrev pub map_outcome : {A B : Type 0} → (A → B) → Outcome A → Outcome B
map_outcome f (returns a) = returns (f a)
map_outcome f panics = panics
map_outcome f faults = faults
map_outcome f hangs = hangs

unfoldable pub fuse_device_close : (unit : ℕ) → FuseDevice → Outcome (FuseDevice × ℕ)
unfolding close_data
fuse_device_close unit fdev =
    if leb ndevices unit
    then returns (fdev, enoent)
    else map_outcome (λ f. (decrement f, 0)) (close_data fdev fdev.content)

-- `fuse_match_cred`: 0 or EPERM.
unfoldable pub fuse_match_cred : FuseData → Process → ℕ
fuse_match_cred d request =
    if d.daemon_uid == request.uid && d.daemon_gid == request.gid then 0 else eperm

-- Only root and the daemon's own user may kill a device.
unfoldable pub kill_as : FuseDevice → FuseData → Option Process → Outcome (FuseDevice × ℕ)
unfolding fuse_match_cred fuse_data_kill fuse_reject_answers
kill_as fdev d none = returns (fdev, eperm)
kill_as fdev d (some p) =
    if p.uid == 0 || fuse_match_cred d p == 0
    then (after_run ((do _ ← fuse_data_kill; fuse_reject_answers) d)
        (λ _ e. returns (record fdev { content = some e }, 0)))
    else returns (fdev, eperm)

unfoldable pub kill_data : FuseDevice → Option FuseData → Option Process → Outcome (FuseDevice × ℕ)
unfolding kill_as
kill_data fdev none p = returns (fdev, enoent)
kill_data fdev (some d) p = kill_as fdev d p

-- `unit` may be negative.
unfoldable pub fuse_device_kill :
    (unit : ℤ) → FuseDevice → Option Process → Outcome (FuseDevice × ℕ)
unfolding kill_data
fuse_device_kill (negsuc n) fdev p = returns (fdev, einval)
fuse_device_kill (pos unit) fdev p =
    if leb ndevices unit then returns (fdev, einval) else kill_data fdev fdev.content p

-- fuse_vfsops.c, `fuse_vfsop_mount`: the claim of the data for a mount. The result is `err` and
-- whether the code goes to the label `out`, as against a plain return.
abbrev pub Claim : Type 0
Claim = ℕ × Bool

-- A dead device, or root mounting another user's daemon, is refused after the claim.
abbrev pub claim_errno : FuseData → (context_uid : ℕ) → ℕ
claim_errno d context_uid =
    if d.dead
    then enotconn
    else (if context_uid == 0 && not (context_uid == d.daemon_uid) then eperm else 0)

unfoldable pub claim : FuseDevice → Option FuseData → (context_uid : ℕ) → FuseDevice × Claim
claim fdev none context_uid = (fdev, (enxio, false))
claim fdev (some d) context_uid =
    if d.mounted
    then (fdev, (ealready, false))
    else (if not d.opened then (fdev, (enxio, true)) else (
      record fdev { content = some (record d { mounted = true }) },
      (claim_errno d context_uid, true),
    ))

unfoldable pub mount_claim : FuseDevice → (context_uid : ℕ) → FuseDevice × Claim
unfolding claim
mount_claim fdev context_uid = claim fdev fdev.content context_uid

-- The error path of `fuse_vfsop_mount` and the end of `fuse_vfsop_unmount`: no longer mounted, and
-- freed if the daemon has closed the device.
unfoldable pub unclaim : FuseDevice → Option FuseData → Outcome FuseDevice
unfolding fuse_device_close_final
unclaim fdev none = returns fdev
unclaim fdev (some d) =
    let e = record d { mounted = false } in
    if e.opened then returns (record fdev { content = some e }) else fuse_device_close_final fdev e

unfoldable pub mount_release : FuseDevice → Outcome FuseDevice
unfolding unclaim
mount_release fdev = unclaim fdev fdev.content
