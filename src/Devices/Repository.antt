-- ===== src/Devices/Repository.antt =====
-- The devices by UID: rdm_dmx_async/services/device_repository.py. Times are in milliseconds.
pub mod Cleanup
use rdm_dmx_async.Base.{
  ℕ, ◌-◌, Option, none, some, Bool, true, false, ltb, if◌then◌else◌, List, [], ◌∷◌, length,
}
use rdm_dmx_async.Base.Table.{Table, lookup, insert, delete}
use rdm_dmx_async.Packets.Types.{Uid}
use rdm_dmx_async.Devices.Device.{RdmDevice, DeviceState}

pub record DeviceRepository : Type 0 where
  pub devices : Table RdmDevice
  pub stale_timeout : ℕ

abbrev pub new_state : Uid → DeviceState
new_state uid = record {
  uid = uid;
  manufacturer = [];
  device_label = [];
  model = [];
  software_version = [];
  rdm_protocol_version = (0, 0);
  device_model_id = 0;
  product_category = 0;
  software_version_id = 0;
  dmx_footprint = 0;
  dmx_personality = 0;
  dmx_personality_count = 0;
  dmx_start_address = 1;
  sub_device_count = 0;
  sensor_count = 0;
  last_seen = none;
  is_responsive = false;
}

-- `RdmDevice(uid, protocol)`, with a cache of 30 seconds. The version is an empty string.
abbrev pub new_device : Uid → RdmDevice
new_device uid = record {
  device_uid = uid;
  state = new_state uid;
  cache_max_age = 30000;
  parameter_cache = [];
  supported_pids = none;
  capabilities_checked = false;
}

unfoldable pub added : Uid → DeviceRepository → Option RdmDevice → DeviceRepository × RdmDevice
added uid r none = (record r { devices = insert uid (new_device uid) r.devices }, new_device uid)
added uid r (some d) = (r, d)

unfoldable pub add_device : Uid → DeviceRepository → DeviceRepository × RdmDevice
unfolding added
add_device uid r = added uid r (lookup uid r.devices)

unfoldable pub get_device : Uid → DeviceRepository → Option RdmDevice
get_device uid r = lookup uid r.devices

unfoldable pub all_of : Table RdmDevice → List RdmDevice
all_of [] = []
all_of ((uid, d) ∷ rest) = d ∷ all_of rest

unfoldable pub get_all_devices : DeviceRepository → List RdmDevice
unfolding all_of
get_all_devices r = all_of r.devices

unfoldable pub removed : Uid → DeviceRepository → Option RdmDevice → DeviceRepository × Bool
removed uid r none = (r, false)
removed uid r (some d) = (record r { devices = delete uid r.devices }, true)

unfoldable pub remove_device : Uid → DeviceRepository → DeviceRepository × Bool
unfolding removed
remove_device uid r = removed uid r (lookup uid r.devices)

-- A device that was never seen is not stale.
unfoldable pub is_stale : ℕ → ℕ → Option ℕ → Bool
is_stale now timeout none = false
is_stale now timeout (some seen) = ltb timeout (now - seen)

unfoldable pub stale_uids : ℕ → ℕ → Table RdmDevice → List Uid
unfolding is_stale
stale_uids now timeout [] = []
stale_uids now timeout ((uid, d) ∷ rest) =
    let later = stale_uids now timeout rest in
    if is_stale now timeout d.state.last_seen then uid ∷ later else later

unfoldable pub remove_each : List Uid → DeviceRepository → DeviceRepository
unfolding remove_device
remove_each [] r = r
remove_each (uid ∷ uids) r = remove_each uids (remove_device uid r).0

unfoldable pub cleanup_stale_devices : ℕ → DeviceRepository → DeviceRepository × ℕ
unfolding stale_uids remove_each
cleanup_stale_devices now r =
    let uids = stale_uids now r.stale_timeout r.devices in (remove_each uids r, length uids)

unfoldable pub responsive_of : Table RdmDevice → List RdmDevice
responsive_of [] = []
responsive_of ((uid, d) ∷ rest) =
    let later = responsive_of rest in if d.state.is_responsive then d ∷ later else later

unfoldable pub get_responsive_devices : DeviceRepository → List RdmDevice
unfolding responsive_of
get_responsive_devices r = responsive_of r.devices
