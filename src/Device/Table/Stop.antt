-- ===== src/Device/Table/Stop.antt =====
-- When the kernel extension may be unloaded.
use kext.Prelude.{
  ◌≡◌, ◌⊎◌, refl, inl, inr, true, false, Option, none, some, List, [], ◌∷◌, pos, arith, Bool-cases,
}
use kext.Ipc.State.{FuseData}
use kext.Device.Lifecycle.{FuseDevice}
use kext.Device.Table.{DeviceTable, is_idle, all_idle, fuse_devices_stop}

-- No device is open, and none has the data of a lingering mount.
abbrev pub AllIdle : List FuseDevice → Type 0
AllIdle [] = Unit {0}
AllIdle (f ∷ fs) = (f.usecount ≡ pos 0) × (f.content ≡ none) × AllIdle fs

idle-usecount :
    (f : FuseDevice) (o : Option FuseData) → is_idle f o ≡ true → (f.usecount ≡ pos 0) × (o ≡ none)
unfolding is_idle
idle-usecount f none h = (ground arith, refl)
idle-usecount f (some d) h = absurd (ground arith)

all_idle-AllIdle : (fs : List FuseDevice) → all_idle fs ≡ true → AllIdle fs
unfolding all_idle
all_idle-AllIdle [] h = tt
all_idle-AllIdle (f ∷ fs) h =
    let one = idle-usecount f f.content (ground (arith)) in
    (one.0, one.1, all_idle-AllIdle fs (ground arith))

AllIdle-all_idle : (fs : List FuseDevice) → AllIdle fs → all_idle fs ≡ true
unfolding all_idle is_idle
AllIdle-all_idle [] h = refl
AllIdle-all_idle (f ∷ fs) h = ground (arith, h.0, h.1, AllIdle-all_idle fs h.2)

-- On a table that was started, `fuse_devices_stop` succeeds if no device is open or has data, and
-- then the table is no longer started and its devices are not available; if one is open or has data,
-- it fails, and the table is as before, with its devices available.
pub fuse_devices_stop-AllIdle :
    (table : DeviceTable)
    → table.started ≡ true
    → (((fuse_devices_stop table).1 ≡ true)
        × AllIdle table.devices
        × ((fuse_devices_stop table).0.available ≡ false)
        × ((fuse_devices_stop table).0.started ≡ false))
      ⊎ (((fuse_devices_stop table).1 ≡ false)
          × (¬ AllIdle table.devices)
          × ((fuse_devices_stop table).0 ≡ record table { available = true }))
unfolding fuse_devices_stop
fuse_devices_stop-AllIdle table h = elim (Bool-cases (all_idle table.devices)) [
  | inl e ↦ rw (fuse_devices_stop, h, e) (inl (refl, all_idle-AllIdle table.devices e, refl, refl))
  | inr e ↦
      rw (fuse_devices_stop, h, e)
        (inr (refl, (λ a. ground (arith, e, AllIdle-all_idle table.devices a)), refl))
]
