-- ===== src/Device/Lifecycle/Ownership.antt =====
-- Who owns a device's data: the daemon that has it open, or a mount that outlives the daemon.
use kext.Prelude.{
  ℕ, ◌≡◌, refl, Bool, true, false, some, none, Option, arith, ◌⊎◌, inl, inr, pos, leb,
  if◌then◌else◌, ap, not, suc_ℤ, is_zero, pred_ℤ, sym, ◌∙◌,
}
use kext.Ipc.State.{FuseData}
use kext.Ipc.Tickets.{fuse_pop_allticks}
use kext.Ipc.WellFormed.{unmounted-WellFormed}
use kext.Device.Lifecycle.{
  FuseDevice, Process, Outcome, returns, panics, faults, hangs, map_outcome, decrement, ndevices,
  new_data, fuse_data_alloc, fuse_data_destroy, fuse_device_close_final, open_slot, close_data,
  fuse_device_open, fuse_device_close, claim, mount_claim, unclaim, mount_release,
}
use kext.Device.Lifecycle.Tickets.{Tidy}
use kext.Device.Lifecycle.Closing.{
  Returns, Returns-mono, Returns-map, Closed, close_final-Returns, close_data-Returns, plentiful,
  memory,
}

-- No data and closed; or data and open once; or data of a mount whose daemon has closed the device.
abbrev pub IsConsistent : FuseDevice → Option FuseData → Type 0
IsConsistent f none = f.usecount ≡ pos 0
IsConsistent f (some d) =
    ((d.opened ≡ true) × (f.usecount ≡ pos 1))
    ⊎ ((d.opened ≡ false) × (d.mounted ≡ true) × (f.usecount ≡ pos 0))

abbrev pub Consistent : FuseDevice → Type 0
Consistent f = IsConsistent f f.content

abbrev pub TidyContent : Option FuseData → Type 0
TidyContent none = Unit {0}
TidyContent (some d) = Tidy d

-- The calls that decide about a device's data.
pub data DeviceCall : Type 0 where
  opens : (available memory : Bool) (unit : ℕ) → Process → DeviceCall
  closes : (unit : ℕ) → DeviceCall
  claims : (context_uid : ℕ) → DeviceCall
  releases : DeviceCall

unfoldable pub call : DeviceCall → FuseDevice → Outcome FuseDevice
call (opens available memory unit p) f =
    map_outcome (λ r. r.0) (fuse_device_open available memory unit f p)
call (closes unit) f = map_outcome (λ r. r.0) (fuse_device_close unit f)
call (claims context_uid) f = returns (mount_claim f context_uid).0
call releases f = mount_release f

-- A device is closed only after it was opened, and to open one there is memory for its data.
abbrev pub Allowed : DeviceCall → FuseDevice → Type 0
Allowed (opens available memory unit p) f = memory ≡ true
Allowed (closes unit) f = f.usecount ≡ pos 1
Allowed (claims context_uid) f = Unit {0}
Allowed releases f = Unit {0}

choose :
    (b : Bool) (x y : Outcome (FuseDevice × ℕ))
    → Returns Consistent (map_outcome (λ (r : FuseDevice × ℕ). r.0) x)
    → Returns Consistent (map_outcome (λ (r : FuseDevice × ℕ). r.0) y)
    → Returns Consistent (map_outcome (λ (r : FuseDevice × ℕ). r.0) (if b then x else y))
choose true x y h g = h
choose false x y h g = g

open_slot-Consistent :
    (p : Process) (f : FuseDevice) (o : Option FuseData)
    → f.content ≡ o
    → IsConsistent f o
    → Returns Consistent (map_outcome (λ r. r.0) (open_slot f p o (new_data p)))
unfolding open_slot fuse_data_destroy fuse_pop_allticks
open_slot-Consistent p f none e c = inl (refl, ap suc_ℤ c)
open_slot-Consistent p f (some d) e c = rw e c

open-Consistent :
    (available : Bool) (unit : ℕ) (p : Process) (f : FuseDevice)
    → Consistent f
    → Returns Consistent (map_outcome (λ r. r.0) (fuse_device_open available true unit f p))
unfolding fuse_device_open fuse_data_alloc
open-Consistent available unit p f c = choose (not available) _ _ c (
    choose (leb ndevices unit) _ _ c
      (choose (not (is_zero f.usecount)) _ _ c (open_slot-Consistent p f f.content refl c)))

Closed-Consistent :
    (f g : FuseDevice) → f.usecount ≡ pos 1 → Closed plentiful memory f g → Consistent (decrement g)
Closed-Consistent f g one (u, inl n) = rw n (ap pred_ℤ (u ∙ one))
Closed-Consistent f g one (u, inr (e, q, c, m)) = rw q (inr (c, m, ap pred_ℤ (u ∙ one)))

zero_one : ¬ (pos 0 ≡ pos 1)
zero_one e = ground arith

close-Consistent :
    (f : FuseDevice) (o : Option FuseData)
    → IsConsistent f o
    → TidyContent o
    → f.usecount ≡ pos 1
    → Returns Consistent (map_outcome (λ g. decrement g) (close_data f o))
close-Consistent f none c t a = absurd (zero_one (sym c ∙ a))
close-Consistent f (some d) c t a =
    Returns-map Consistent (λ g. decrement g) (close_data f (some d))
      (Returns-mono _ _ (close_data f (some d)) (close_data-Returns plentiful memory f d t)
        λ g r. Closed-Consistent f g a r)

claim-Consistent :
    (uid : ℕ) (f : FuseDevice) (o : Option FuseData)
    → f.content ≡ o
    → IsConsistent f o
    → Consistent (claim f o uid).0
unfolding claim
claim-Consistent uid f none e c = rw e c
claim-Consistent uid f (some d) e c = ground arith

else_branch :
    (b : Bool)
    → b ≡ false
    → (x y : Outcome FuseDevice) → Returns Consistent y
    → Returns Consistent (if b then x else y)
else_branch true e x y h = ground arith
else_branch false e x y h = h

release-Consistent :
    (f : FuseDevice) (o : Option FuseData)
    → f.content ≡ o
    → IsConsistent f o
    → TidyContent o
    → Returns Consistent (unclaim f o)
unfolding unclaim
release-Consistent f none e c t = rw e c
release-Consistent f (some d) e (inl (o, u)) t = rw o (inl (refl, u))
release-Consistent f (some d) e (inr (o, m, u)) t = else_branch d.opened o _ _ (
    Returns-mono _ Consistent (fuse_device_close_final f (record d { mounted = false }))
      (close_final-Returns plentiful memory f (record d { mounted = false })
        (unmounted-WellFormed d t.well))
      λ g r. rw r.0 (r.1 ∙ u))

flatten :
    (r : Outcome FuseDevice)
    → Returns Consistent (map_outcome (λ g. decrement g) r)
    → Returns Consistent
        (map_outcome (λ (x : FuseDevice × ℕ). x.0) (map_outcome (λ g. (decrement g, 0)) r))
flatten (returns g) h = h
flatten panics h = h
flatten faults h = h
flatten hangs h = h

close_call-Consistent :
    (unit : ℕ) (f : FuseDevice)
    → Consistent f
    → TidyContent f.content
    → f.usecount ≡ pos 1
    → Returns Consistent (map_outcome (λ r. r.0) (fuse_device_close unit f))
unfolding fuse_device_close
close_call-Consistent unit f c t a =
    choose (leb ndevices unit) _ _ c
      (flatten (close_data f f.content) (close-Consistent f f.content c t a))

-- Between any call of `fuse_device_open` for which there is memory, `fuse_device_close` of an
-- opened device, the claim of a mount and its release: a device that has no data and is closed,
-- or data open once, or the data of a mount whose daemon has closed the device, is in one of
-- these cases again, and the call neither panics nor touches a freed ticket, provided that the
-- tickets of its data meet the invariant and its queue of answers links only tickets in use.
pub call-Consistent :
    (c : DeviceCall) (f : FuseDevice)
    → Consistent f
    → TidyContent f.content
    → Allowed c f
    → Returns Consistent (call c f)
unfolding call mount_claim mount_release
call-Consistent (opens available memory unit p) f c t a =
    rw a (open-Consistent available unit p f c)
call-Consistent (closes unit) f c t a = close_call-Consistent unit f c t a
call-Consistent (claims uid) f c t a = claim-Consistent uid f f.content refl c
call-Consistent releases f c t a = release-Consistent f f.content refl c t
