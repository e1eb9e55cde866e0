-- ===== src/Devices/Capabilities.antt =====
-- What a device supports, by the PIDs that it reports (rdm_dmx_async/services/rdm_device.py).
pub mod Details
pub mod Checked
use rdm_dmx_async.Base.{
  ℕ, zero, suc, ◌+◌, ◌^◌, ◌/◌, ◌%◌, Option, none, some, Result, ok, err, Error, Bool, true, false,
  not, ltb, leb, ◌==◌, ◌&&◌, ◌||◌, if◌then◌else◌, List, [], ◌∷◌, length, take, drop, get_or, map,
  contains,
}
use rdm_dmx_async.Packets.Types.{Pid}
use rdm_dmx_async.Devices.Pids
use rdm_dmx_async.Devices.Pids.{StandardPid, value}
use rdm_dmx_async.Devices.Device.{TransactionManager, RdmDevice, Value, numbers, Ran, get_parameter}
use rdm_dmx_async.Devices.Apis.SystemInfo.{get_supported_parameters}

-- The keys of `API_PID_MAPPING`.
pub data ApiName : Type 0 where
  device_label dmx_config control sensors sensor_definitions maintenance : ApiName
  info slots modes lamp display position : ApiName
  power self_test presets system proxy raw : ApiName

abbrev pub api_names : List ApiName
api_names =
    device_label ∷ dmx_config ∷ control ∷ sensors ∷ sensor_definitions ∷ maintenance ∷ info ∷ slots
    ∷ modes ∷ lamp ∷ display ∷ position ∷ power ∷ self_test ∷ presets ∷ system ∷ proxy ∷ raw ∷ []

unfoldable pub api_pids : ApiName → List StandardPid
api_pids device_label = Pids.device_label ∷ []
api_pids dmx_config =
    Pids.dmx_start_address ∷ Pids.dmx_personality ∷ Pids.dmx_personality_description ∷ []
api_pids control = Pids.identify_device ∷ Pids.reset_device ∷ Pids.factory_defaults ∷ []
api_pids sensors = Pids.sensor_value ∷ Pids.record_sensors ∷ []
api_pids sensor_definitions = Pids.sensor_definition ∷ []
api_pids maintenance = Pids.device_hours ∷ Pids.device_power_cycles ∷ []
api_pids info =
    Pids.device_model_description ∷ Pids.boot_software_version_label ∷ Pids.boot_software_version_id
    ∷ Pids.product_detail_id_list ∷ []
api_pids slots = Pids.slot_info ∷ Pids.slot_description ∷ Pids.default_slot_value ∷ []
api_pids modes =
    Pids.dmx_startup_mode ∷ Pids.output_response_time ∷ Pids.capture_preset ∷ Pids.dmx_block_address
    ∷ Pids.dmx_fail_mode ∷ []
api_pids lamp = Pids.lamp_hours ∷ Pids.lamp_strikes ∷ Pids.lamp_state ∷ Pids.lamp_on_mode ∷ []
api_pids display = Pids.display_invert ∷ Pids.display_level ∷ []
api_pids position =
    Pids.pan_invert ∷ Pids.tilt_invert ∷ Pids.pan_tilt_swap ∷ Pids.real_time_clock ∷ []
api_pids power = Pids.power_state ∷ []
api_pids self_test = Pids.perform_selftest ∷ Pids.self_test_description ∷ []
api_pids presets = Pids.preset_playback ∷ Pids.preset_status ∷ Pids.preset_mergemode ∷ []
api_pids system =
    Pids.supported_parameters ∷ Pids.parameter_description ∷ Pids.queued_message
    ∷ Pids.status_messages ∷ Pids.status_id_description ∷ Pids.clear_status_id
    ∷ Pids.sub_device_status_report_threshold ∷ Pids.comms_status ∷ Pids.language_capabilities
    ∷ Pids.language ∷ []
api_pids proxy = Pids.proxied_devices ∷ Pids.proxied_device_count ∷ []
api_pids raw = []

unfoldable pub is_raw : ApiName → Bool
is_raw raw = true
is_raw _ = false

-- `[p.value for p in …]`
unfoldable pub values : List StandardPid → List Pid
values [] = []
values (p ∷ ps) = value p ∷ values ps

abbrev pub mandatory_pids : List Pid
mandatory_pids = values (
    Pids.disc_unique_branch ∷ Pids.disc_mute ∷ Pids.disc_un_mute ∷ Pids.supported_parameters
    ∷ Pids.device_info ∷ Pids.software_version_label ∷ Pids.dmx_start_address ∷ Pids.identify_device
    ∷ [])

-- `self._supported_pids or set()`
unfoldable pub or_empty : Option (List Pid) → List Pid
or_empty none = []
or_empty (some pids) = pids

unfoldable pub supports_pid : Pid → RdmDevice → Bool
unfolding or_empty
supports_pid pid d =
    if contains pid mandatory_pids
    then true
    else if not d.capabilities_checked
    then true
    else contains pid (or_empty d.supported_pids)

-- `sum(1 for pid in … if self.supports_pid(pid))`
unfoldable pub supported_count : List Pid → RdmDevice → ℕ
unfolding supports_pid
supported_count [] d = 0
supported_count (pid ∷ pids) d = (if supports_pid pid d then 1 else 0) + supported_count pids d

-- A name that is no key is `none`.
unfoldable pub supports_api : Option ApiName → RdmDevice → Bool
unfolding is_raw api_pids values supported_count
supports_api none d = false
supports_api (some api) d =
    if is_raw api
    then true
    else if not d.capabilities_checked
    then true
    else ltb 0 (supported_count (values (api_pids api)) d)

unfoldable pub available : List ApiName → RdmDevice → List ApiName
unfolding supports_api
available [] d = []
available (api ∷ apis) d =
    let rest = available apis d in if supports_api (some api) d then api ∷ rest else rest

unfoldable pub get_available_apis : RdmDevice → List ApiName
unfolding available
get_available_apis d = available api_names d

-- The details of one module; the coverage is a fraction, numerator first.
pub record ApiSupport : Type 0 where
  pub supported : Bool
  pub pids : List Pid
  pub supported_pids : List Pid
  pub missing_pids : List Pid
  pub coverage : ℕ × ℕ

unfoldable pub is_known : List Pid → Pid → Bool
is_known supported pid = contains pid supported || contains pid mandatory_pids

unfoldable pub known_of : List Pid → List Pid → List Pid
unfolding is_known
known_of supported [] = []
known_of supported (pid ∷ pids) =
    let rest = known_of supported pids in if is_known supported pid then pid ∷ rest else rest

unfoldable pub missing_of : List Pid → List Pid → List Pid
unfolding is_known
missing_of supported [] = []
missing_of supported (pid ∷ pids) =
    let rest = missing_of supported pids in if is_known supported pid then rest else pid ∷ rest

-- Nothing is known to be missing.
abbrev pub assumed : List Pid → ApiSupport
assumed pids = record {
  supported = true;
  pids = pids;
  supported_pids = pids;
  missing_pids = [];
  coverage = (1, 1);
}

abbrev pub checked_support : List Pid → List Pid → ApiSupport
checked_support supported pids = record {
  supported = ltb 0 (length (known_of supported pids));
  pids = pids;
  supported_pids = known_of supported pids;
  missing_pids = missing_of supported pids;
  coverage =
      if ltb 0 (length pids) then (length (known_of supported pids), length pids) else (0, 1);
}

-- `if self._capabilities_checked and self._supported_pids`
unfoldable pub support_by : Bool → Option (List Pid) → List Pid → ApiSupport
unfolding known_of missing_of
support_by false supported pids = assumed pids
support_by true none pids = assumed pids
support_by true (some []) pids = assumed pids
support_by true (some (p ∷ supported)) pids = checked_support (p ∷ supported) pids

unfoldable pub api_support : ApiName → RdmDevice → ApiSupport
unfolding is_raw api_pids values support_by
api_support api d =
    if is_raw api
    then assumed []
    else support_by d.capabilities_checked d.supported_pids (values (api_pids api))

unfoldable pub details_of : List ApiName → RdmDevice → List (ApiName × ApiSupport)
unfolding api_support
details_of [] d = []
details_of (api ∷ apis) d = (api, api_support api d) ∷ details_of apis d

unfoldable pub get_api_support_details : RdmDevice → List (ApiName × ApiSupport)
unfolding details_of
get_api_support_details d = details_of api_names d

-- `if pids: …` of `check_capabilities`; only a list of PIDs is cached under SUPPORTED_PARAMETERS.
unfoldable pub reported : Option Value → RdmDevice → RdmDevice × Bool
reported (some (numbers (pid ∷ pids))) d =
    (record d { supported_pids = some (pid ∷ pids); capabilities_checked = true }, true)
reported _ d = (d, false)

module _ {W : Type 0} (txn : TransactionManager W) where
  unfoldable pub capabilities_read : Ran W (Option Value) → Ran W Bool
  unfolding reported
  capabilities_read (d, w, err e) = (d, w, err e)
  capabilities_read (d, w, ok o) = let (after, answer) = reported o d in (after, w, ok answer)

  unfoldable pub check_capabilities : Bool → RdmDevice → W → Ran W Bool
  unfolding capabilities_read get_parameter
  check_capabilities force_refresh d w =
      if d.capabilities_checked && not force_refresh
      then (d, w, ok true)
      else capabilities_read (get_parameter txn get_supported_parameters (not force_refresh) d w)
