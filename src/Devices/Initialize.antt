-- ===== src/Devices/Initialize.antt =====
-- DEVICE_INFO, and the first queries of a device (rdm_dmx_async/services/rdm_device.py).
pub mod Unanswered
use rdm_dmx_async.Base.{
  ℕ, zero, suc, ◌+◌, ◌^◌, ◌/◌, ◌%◌, Option, none, some, Result, ok, err, Error, cancelled_error,
  Bool, true, false, not, ltb, leb, ◌==◌, ◌&&◌, ◌||◌, if◌then◌else◌, List, [], ◌∷◌, length, take,
  drop, get_or, map, contains,
}
use rdm_dmx_async.Base.Words.{Bytes}
use rdm_dmx_async.Devices.Pids
use rdm_dmx_async.Devices.Text.{Text}
use rdm_dmx_async.Devices.Struct.{unpack, calcsize}
use rdm_dmx_async.Devices.Device.{
  TransactionManager, RdmDevice, DeviceState, Value, payload, text, Ran, Parameter, get_parameter,
}
use rdm_dmx_async.Devices.Apis.DeviceInfo.{get_manufacturer_label, get_software_version_label}
use rdm_dmx_async.Devices.Apis.DeviceLabel
use rdm_dmx_async.Devices.Capabilities.{check_capabilities}

-- ">HHHIHBBHHB"
abbrev pub device_info_fields : List ℕ
device_info_fields = 2 ∷ 2 ∷ 2 ∷ 4 ∷ 2 ∷ 1 ∷ 1 ∷ 2 ∷ 2 ∷ 1 ∷ []

unfoldable pub info_noted : List ℕ → DeviceState → DeviceState
info_noted
      (version ∷ model ∷ category ∷ software ∷ footprint ∷ personality ∷ personality_count ∷ address
        ∷ sub_devices ∷ sensors ∷ [])
      s =
    record s {
      rdm_protocol_version = (version / 256, version % 256);
      device_model_id = model;
      product_category = category;
      software_version_id = software;
      dmx_footprint = footprint;
      dmx_personality = personality;
      dmx_personality_count = personality_count;
      dmx_start_address = address;
      sub_device_count = sub_devices;
      sensor_count = sensors;
    }
info_noted _ s = s

unfoldable pub note_info : Value → DeviceState → DeviceState
unfolding info_noted
note_info (payload bs) s = info_noted (unpack device_info_fields bs) s
note_info _ s = s

unfoldable pub parse_info : Bytes → Option Value
parse_info bs = if leb (calcsize device_info_fields) (length bs) then some (payload bs) else none

-- What `get_device_info` reads, caches and keeps.
abbrev pub device_info : Parameter
device_info = record {
  pid = Pids.device_info;
  parse = parse_info;
  note = note_info;
  otherwise = none;
}

unfoldable pub is_some : Option Value → Bool
is_some none = false
is_some (some v) = true

-- The string that a method returned.
unfoldable pub string_of : Option Value → Text
string_of (some (text t)) = t
string_of _ = []

module _ {W : Type 0} (txn : TransactionManager W) where
  unfoldable pub info_read : Ran W (Option Value) → Ran W Bool
  unfolding is_some
  info_read (d, w, err e) = (d, w, err e)
  info_read (d, w, ok o) = (d, w, ok (is_some o))

  unfoldable pub get_device_info : Bool → RdmDevice → W → Ran W Bool
  unfolding info_read get_parameter
  get_device_info use_cache d w = info_read (get_parameter txn device_info use_cache d w)

  unfoldable pub capabilities_done : Ran W Bool → Ran W Bool
  capabilities_done (d, w, err e) = (d, w, err e)
  capabilities_done (d, w, ok answer) =
      let s = d.state in
      (
        record d { state = record s { is_responsive = true; last_seen = some (txn.now w) } },
        w,
        ok true,
      )

  unfoldable pub version_read : Bool → Ran W (Option Value) → Ran W Bool
  unfolding capabilities_done check_capabilities string_of
  version_read check (d, w, err e) = (d, w, err e)
  version_read check (d, w, ok o) =
      let s = d.state in
      let d' : RdmDevice = record d { state = record s { software_version = string_of o } } in
      capabilities_done (if check then check_capabilities txn false d' w else (d', w, ok true))

  unfoldable pub label_read : Bool → Ran W (Option Value) → Ran W Bool
  unfolding version_read string_of
  label_read check (d, w, err e) = (d, w, err e)
  label_read check (d, w, ok o) =
      let s = d.state in
      let d' : RdmDevice = record d { state = record s { device_label = string_of o } } in
      version_read check (get_parameter txn get_software_version_label false d' w)

  unfoldable pub manufacturer_read : Bool → Ran W (Option Value) → Ran W Bool
  unfolding label_read string_of
  manufacturer_read check (d, w, err e) = (d, w, err e)
  manufacturer_read check (d, w, ok o) =
      let s = d.state in
      let d' : RdmDevice = record d { state = record s { manufacturer = string_of o } } in
      label_read check (get_parameter txn DeviceLabel.get false d' w)

  unfoldable pub info_done : Bool → Ran W Bool → Ran W Bool
  unfolding manufacturer_read
  info_done check (d, w, err e) = (d, w, err e)
  info_done check (d, w, ok answer) =
      manufacturer_read check (get_parameter txn get_manufacturer_label false d w)

  -- `except Exception`: logged, and the answer is False.
  unfoldable pub caught : Ran W Bool → Ran W Bool
  caught (d, w, err cancelled_error) = (d, w, err cancelled_error)
  caught (d, w, err e) = (d, w, ok false)
  caught (d, w, ok answer) = (d, w, ok answer)

  unfoldable pub initialize : Bool → RdmDevice → W → Ran W Bool
  unfolding caught info_done get_device_info
  initialize check d w = caught (info_done check (get_device_info false d w))
