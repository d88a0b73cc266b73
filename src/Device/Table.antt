-- ===== src/Device/Table.antt =====
-- fuse_device.c: the table of devices, from the start to the stop of the kernel extension.
pub mod Stop
use kext.Prelude.{
  ℕ, zero, suc, Bool, true, false, ◌&&◌, Option, none, some, List, [], ◌∷◌, map, if◌then◌else◌, pos,
  negsuc, is_zero,
}
use kext.Ipc.State.{FuseData}
use kext.Device.Lifecycle.{FuseDevice, ndevices}

-- `fuse_device_table`, with `fuse_interface_available` and whether `fuse_cdev_major` is set.
pub record DeviceTable : Type 0 where
  pub available : Bool
  pub started : Bool
  pub devices : List FuseDevice

abbrev pub fresh_device : FuseDevice
fresh_device = record { usecount = pos 0; pid = negsuc 0; content = none }

-- The loop of `fuse_devices_start`: the devices that got a node in devfs, or `none` if one did not.
-- `makes` tells for each unit whether `devfs_make_node` succeeds.
unfoldable pub start_devices : (makes : ℕ → Bool) (unit left : ℕ) → Option (List FuseDevice)
start_devices makes unit zero = some []
start_devices makes unit (suc left) =
    let rest = start_devices makes (suc unit) left in
    if makes unit then elim rest [ none ↦ none | some fs ↦ some (fresh_device ∷ fs) ] else none

abbrev pub stopped_table : List FuseDevice → DeviceTable
stopped_table fs = record { available = false; started = false; devices = fs }

-- The table, and KERN_SUCCESS as true. `added` tells whether `cdevsw_add` succeeds.
unfoldable pub fuse_devices_start : (added : Bool) (makes : ℕ → Bool) → DeviceTable × Bool
unfolding start_devices
fuse_devices_start added makes =
    if added
    then elim (start_devices makes 0 ndevices) [
      | none ↦ (stopped_table [], false)
      | some fs ↦ (record { available = true; started = true; devices = fs }, true)
    ]
    else (stopped_table [], false)

abbrev pub without_pid : FuseDevice → FuseDevice
without_pid f = record f { pid = negsuc 0 }

-- Neither open nor the data of a lingering mount.
unfoldable pub is_idle : FuseDevice → Option FuseData → Bool
is_idle f (some d) = false
is_idle f none = is_zero f.usecount

unfoldable pub all_idle : List FuseDevice → Bool
unfolding is_idle
all_idle [] = true
all_idle (f ∷ fs) = is_idle f f.content && all_idle fs

-- The table, and KERN_SUCCESS as true.
unfoldable pub fuse_devices_stop : DeviceTable → DeviceTable × Bool
unfolding all_idle
fuse_devices_stop table =
    if table.started
    then (if all_idle table.devices
        then (stopped_table (map without_pid table.devices), true)
        else (record table { available = true }, false))
    else (record table { available = false }, true)
