-- ===== src/Devices/Device/Kinds.antt =====
-- The type of what each cached method returns, by its parser (services/rdm_device.py, services/device_apis).
use rdm_dmx_async.Base.{
  ℕ, ◌≡◌, refl, sym, ap, ◌∙◌, Option, none, some, Result, ok, err, Bool, true, false, ◌==◌, eq→==,
  if◌then◌else◌, List, [], ◌∷◌, length, drop, arith,
}
use rdm_dmx_async.Base.Words.{Bytes}
use rdm_dmx_async.Devices.Pids
use rdm_dmx_async.Devices.Pids.{StandardPid, value, value-injective}
use rdm_dmx_async.Devices.Struct.{unpack}
use rdm_dmx_async.Devices.Parse.{
  parse_number, parse_tuple, parse_text, parse_words, parse_codes, unless_empty,
}
use rdm_dmx_async.Devices.Device.{
  Value, number, numbers, tuple, text, texts, payload, device_count, preset_status, Parameter,
}
use rdm_dmx_async.Devices.Apis.DeviceInfo
use rdm_dmx_async.Devices.Apis.DeviceLabel
use rdm_dmx_async.Devices.Apis.DeviceMaintenance
use rdm_dmx_async.Devices.Apis.DisplaySettings
use rdm_dmx_async.Devices.Apis.DmxConfig
use rdm_dmx_async.Devices.Apis.DmxModes
use rdm_dmx_async.Devices.Apis.LampControl
use rdm_dmx_async.Devices.Apis.PositionConfig
use rdm_dmx_async.Devices.Apis.PowerControl
use rdm_dmx_async.Devices.Apis.PresetControl
use rdm_dmx_async.Devices.Apis.Proxy
use rdm_dmx_async.Devices.Apis.SystemInfo
use rdm_dmx_async.Devices.Apis.PresetControl.{parse_status}
use rdm_dmx_async.Devices.Apis.Proxy.{parse_count}
use rdm_dmx_async.Devices.Apis.SystemInfo.{language_code}
use rdm_dmx_async.Devices.Initialize.{parse_info, device_info}

-- The types of the values.
pub data Kind : Type 0 where
  a_number a_list a_text a_text_list a_payload a_count a_status : Kind
  a_tuple : ℕ → Kind

-- The cached methods, by their parameter, with the type that each returns.
pub data Method : Type 0 where
  lamp_hours_method lamp_strikes_method lamp_state_method lamp_on_mode_method : Method
  device_hours_method device_power_cycles_method display_invert_method display_level_method : Method
  pan_invert_method tilt_invert_method pan_tilt_swap_method real_time_clock_method : Method
  power_state_method preset_playback_method preset_status_method preset_mergemode_method : Method
  dmx_startup_mode_method output_response_time_method dmx_block_address_method
        dmx_fail_mode_method :
      Method
  dmx_personality_method device_label_method device_model_description_method
        boot_software_version_label_method :
      Method
  boot_software_version_id_method product_detail_id_list_method manufacturer_label_method
        software_version_label_method :
      Method
  proxied_device_count_method supported_parameters_method sub_device_status_report_threshold_method
        language_capabilities_method :
      Method
  language_method device_info_method : Method

abbrev pub parameter_of : Method → Parameter
parameter_of lamp_hours_method = LampControl.get_hours
parameter_of lamp_strikes_method = LampControl.get_strikes
parameter_of lamp_state_method = LampControl.get_state
parameter_of lamp_on_mode_method = LampControl.get_on_mode
parameter_of device_hours_method = DeviceMaintenance.get_hours
parameter_of device_power_cycles_method = DeviceMaintenance.get_power_cycles
parameter_of display_invert_method = DisplaySettings.get_invert
parameter_of display_level_method = DisplaySettings.get_level
parameter_of pan_invert_method = PositionConfig.get_pan_invert
parameter_of tilt_invert_method = PositionConfig.get_tilt_invert
parameter_of pan_tilt_swap_method = PositionConfig.get_pan_tilt_swap
parameter_of real_time_clock_method = PositionConfig.get_real_time_clock
parameter_of power_state_method = PowerControl.get_state
parameter_of preset_playback_method = PresetControl.get_playback
parameter_of preset_status_method = PresetControl.get_status
parameter_of preset_mergemode_method = PresetControl.get_merge_mode
parameter_of dmx_startup_mode_method = DmxModes.get_dmx_startup_mode
parameter_of output_response_time_method = DmxModes.get_output_response_time
parameter_of dmx_block_address_method = DmxModes.get_dmx_block_address
parameter_of dmx_fail_mode_method = DmxModes.get_dmx_fail_mode
parameter_of dmx_personality_method = DmxConfig.get_personality
parameter_of device_label_method = DeviceLabel.get
parameter_of device_model_description_method = DeviceInfo.get_model_description
parameter_of boot_software_version_label_method = DeviceInfo.get_boot_software_version
parameter_of boot_software_version_id_method = DeviceInfo.get_boot_software_version_id
parameter_of product_detail_id_list_method = DeviceInfo.get_product_detail_id_list
parameter_of manufacturer_label_method = DeviceInfo.get_manufacturer_label
parameter_of software_version_label_method = DeviceInfo.get_software_version_label
parameter_of proxied_device_count_method = Proxy.get_proxied_device_count
parameter_of supported_parameters_method = SystemInfo.get_supported_parameters
parameter_of sub_device_status_report_threshold_method =
    SystemInfo.get_sub_device_status_report_threshold
parameter_of language_capabilities_method = SystemInfo.get_language_capabilities
parameter_of language_method = SystemInfo.get_language
parameter_of device_info_method = device_info

unfoldable pub kind_of : StandardPid → Option Kind
kind_of Pids.lamp_hours = some a_number
kind_of Pids.lamp_strikes = some a_number
kind_of Pids.lamp_state = some a_number
kind_of Pids.lamp_on_mode = some a_number
kind_of Pids.device_hours = some a_number
kind_of Pids.device_power_cycles = some a_number
kind_of Pids.display_invert = some a_number
kind_of Pids.display_level = some a_number
kind_of Pids.pan_invert = some a_number
kind_of Pids.tilt_invert = some a_number
kind_of Pids.pan_tilt_swap = some a_number
kind_of Pids.real_time_clock = some (a_tuple 6)
kind_of Pids.power_state = some a_number
kind_of Pids.preset_playback = some (a_tuple 2)
kind_of Pids.preset_status = some a_status
kind_of Pids.preset_mergemode = some a_number
kind_of Pids.dmx_startup_mode = some a_number
kind_of Pids.output_response_time = some a_number
kind_of Pids.dmx_block_address = some (a_tuple 3)
kind_of Pids.dmx_fail_mode = some (a_tuple 4)
kind_of Pids.dmx_personality = some (a_tuple 2)
kind_of Pids.device_label = some a_text
kind_of Pids.device_model_description = some a_text
kind_of Pids.boot_software_version_label = some a_text
kind_of Pids.boot_software_version_id = some a_number
kind_of Pids.product_detail_id_list = some a_list
kind_of Pids.manufacturer_label = some a_text
kind_of Pids.software_version_label = some a_text
kind_of Pids.proxied_device_count = some a_count
kind_of Pids.supported_parameters = some a_list
kind_of Pids.sub_device_status_report_threshold = some a_number
kind_of Pids.language_capabilities = some a_text_list
kind_of Pids.language = some a_text
kind_of Pids.device_info = some a_payload
kind_of _ = none

-- No value has the type of a parameter that is never cached.
unfoldable pub fits : Option Kind → Value → Bool
fits (some a_number) (number n) = true
fits (some a_list) (numbers ns) = true
fits (some a_text) (text t) = true
fits (some a_text_list) (texts ts) = true
fits (some a_payload) (payload bs) = true
fits (some a_count) (device_count n changed) = true
fits (some a_status) (preset_status scene up down wait_time) = true
fits (some (a_tuple n)) (tuple vs) = length vs == n
fits _ _ = false

length-unpack : (ws : List ℕ) (bs : Bytes) → length (unpack ws bs) ≡ length ws
unfolding unpack
length-unpack [] bs = refl
length-unpack (w ∷ ws) bs = omega (arith, length-unpack ws (drop w bs))

-- A value of that type, where the test holds.
tested :
    (k : Option Kind) (b : Bool) (u v : Value)
    → fits k u ≡ true
    → (if b then some u else none) ≡ some v
    → fits k v ≡ true
tested k true u v h e = ap (fits k) (sym (same e)) ∙ h
  where
    same : some u ≡ some v → u ≡ v
    same j = cc
tested k false u v h e = absurd (none_some e)
  where
    none_some : none ≡ some v → ⊥
    none_some j = cc

listed :
    (k : Option Kind) (bs : Bytes) (u v : Value)
    → fits k u ≡ true
    → unless_empty bs u ≡ some v
    → fits k v ≡ true
unfolding unless_empty
listed k [] u v h e = tested k false u v h e
listed k (b ∷ bs) u v h e = tested k true u v h e

-- What a parser makes has that type.
abbrev pub Makes : (Bytes → Option Value) → Option Kind → Type 0
Makes parse k = (bs : Bytes) (v : Value) → parse bs ≡ some v → fits k v ≡ true

number-kind : (w : ℕ) → Makes (parse_number w) (some a_number)
unfolding parse_number fits
number-kind w bs v = tested (some a_number) _ _ v refl

tuple-kind : (ws : List ℕ) → Makes (parse_tuple ws) (some (a_tuple (length ws)))
unfolding parse_tuple fits
tuple-kind ws bs v = tested (some (a_tuple (length ws))) _ _ v (eq→== _ _ (length-unpack ws bs))

text-kind : Makes parse_text (some a_text)
unfolding parse_text fits
text-kind bs v = tested (some a_text) true _ v refl

words-kind : Makes parse_words (some a_list)
unfolding parse_words fits
words-kind bs v = listed (some a_list) bs _ v refl

codes-kind : Makes parse_codes (some a_text_list)
unfolding parse_codes fits
codes-kind bs v = listed (some a_text_list) bs _ v refl

count-kind : Makes parse_count (some a_count)
unfolding parse_count fits
count-kind bs v = tested (some a_count) _ _ v refl

status-kind : Makes parse_status (some a_status)
unfolding parse_status fits
status-kind bs v = tested (some a_status) _ _ v refl

language-kind : Makes language_code (some a_text)
unfolding language_code fits
language-kind bs v = tested (some a_text) _ _ v refl

info-kind : Makes parse_info (some a_payload)
unfolding parse_info fits
info-kind bs v = tested (some a_payload) _ _ v refl

pub method-kind : (m : Method) → Makes (parameter_of m).parse (kind_of (parameter_of m).pid)
unfolding kind_of
method-kind lamp_hours_method = number-kind _
method-kind lamp_strikes_method = number-kind _
method-kind lamp_state_method = number-kind _
method-kind lamp_on_mode_method = number-kind _
method-kind device_hours_method = number-kind _
method-kind device_power_cycles_method = number-kind _
method-kind display_invert_method = number-kind _
method-kind display_level_method = number-kind _
method-kind pan_invert_method = number-kind _
method-kind tilt_invert_method = number-kind _
method-kind pan_tilt_swap_method = number-kind _
method-kind real_time_clock_method = tuple-kind _
method-kind power_state_method = number-kind _
method-kind preset_playback_method = tuple-kind _
method-kind preset_status_method = status-kind
method-kind preset_mergemode_method = number-kind _
method-kind dmx_startup_mode_method = number-kind _
method-kind output_response_time_method = number-kind _
method-kind dmx_block_address_method = tuple-kind _
method-kind dmx_fail_mode_method = tuple-kind _
method-kind dmx_personality_method = tuple-kind _
method-kind device_label_method = text-kind
method-kind device_model_description_method = text-kind
method-kind boot_software_version_label_method = text-kind
method-kind boot_software_version_id_method = number-kind _
method-kind product_detail_id_list_method = words-kind
method-kind manufacturer_label_method = text-kind
method-kind software_version_label_method = text-kind
method-kind proxied_device_count_method = count-kind
method-kind supported_parameters_method = words-kind
method-kind sub_device_status_report_threshold_method = number-kind _
method-kind language_capabilities_method = codes-kind
method-kind language_method = language-kind
method-kind device_info_method = info-kind

-- What a method returns, if it returns a value.
abbrev pub Returns : Option Kind → Result (Option Value) → Type 0
Returns k (err e) = Unit
Returns k (ok none) = Unit
Returns k (ok (some v)) = fits k v ≡ true

pub method-otherwise :
    (m : Method) → Returns (kind_of (parameter_of m).pid) (ok (parameter_of m).otherwise)
unfolding kind_of fits
method-otherwise lamp_hours_method = tt
method-otherwise lamp_strikes_method = tt
method-otherwise lamp_state_method = tt
method-otherwise lamp_on_mode_method = tt
method-otherwise device_hours_method = tt
method-otherwise device_power_cycles_method = tt
method-otherwise display_invert_method = tt
method-otherwise display_level_method = tt
method-otherwise pan_invert_method = tt
method-otherwise tilt_invert_method = tt
method-otherwise pan_tilt_swap_method = tt
method-otherwise real_time_clock_method = tt
method-otherwise power_state_method = tt
method-otherwise preset_playback_method = tt
method-otherwise preset_status_method = tt
method-otherwise preset_mergemode_method = tt
method-otherwise dmx_startup_mode_method = tt
method-otherwise output_response_time_method = tt
method-otherwise dmx_block_address_method = tt
method-otherwise dmx_fail_mode_method = tt
method-otherwise dmx_personality_method = tt
method-otherwise device_label_method = refl
method-otherwise device_model_description_method = refl
method-otherwise boot_software_version_label_method = refl
method-otherwise boot_software_version_id_method = tt
method-otherwise product_detail_id_list_method = tt
method-otherwise manufacturer_label_method = refl
method-otherwise software_version_label_method = refl
method-otherwise proxied_device_count_method = tt
method-otherwise supported_parameters_method = tt
method-otherwise sub_device_status_report_threshold_method = tt
method-otherwise language_capabilities_method = tt
method-otherwise language_method = tt
method-otherwise device_info_method = tt
