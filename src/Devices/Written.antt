-- ===== src/Devices/Written.antt =====
-- A parameter that is written and read again: the payload of the SET against the parser of the GET,
-- and the cache between them (services/rdm_device.py, services/device_apis).
pub mod Reads
use rdm_dmx_async.Base.{
  ℕ, ◌≤◌, ◌≡◌, refl, sym, ap, ◌∙◌, none, some, Result, ok, err, Bool, true, false, le→leb, List, [],
  ◌∷◌, length, take-all, arith,
}
use rdm_dmx_async.Base.Words.{Bytes}
use rdm_dmx_async.Base.Table.{lookup}
use rdm_dmx_async.Transaction.Outcome.{TransactionResult}
use rdm_dmx_async.Devices.Pids
use rdm_dmx_async.Devices.Pids.{StandardPid, value}
use rdm_dmx_async.Devices.Text.{Text, encode_utf8, encode_ascii, strip}
use rdm_dmx_async.Devices.Text.RoundTrip.{text_of-encode_utf8, decode-encode_ascii}
use rdm_dmx_async.Devices.Struct.{pack, unpack, calcsize, unpack-pack}
use rdm_dmx_async.Devices.Parse.{
  parse_number, parse_tuple, parse_text, number_parameter, tuple_parameter, set_cleared,
}
use rdm_dmx_async.Devices.Device.{
  TransactionManager, RdmDevice, Value, number, tuple, text, data_of, Parameter, Ran, get_parameter,
  Setting, refused, sending, set_sent, set_parameter, set_ended, execute_set,
}
use rdm_dmx_async.Devices.Device.Cache.{
  get_parameter_empty, fetch_answered, after_answer, clear_cache-lookup,
}
use rdm_dmx_async.Devices.Apis.DeviceLabel
use rdm_dmx_async.Devices.Apis.DeviceMaintenance
use rdm_dmx_async.Devices.Apis.DisplaySettings
use rdm_dmx_async.Devices.Apis.DmxModes
use rdm_dmx_async.Devices.Apis.LampControl
use rdm_dmx_async.Devices.Apis.PositionConfig
use rdm_dmx_async.Devices.Apis.PowerControl
use rdm_dmx_async.Devices.Apis.PresetControl
use rdm_dmx_async.Devices.Apis.SystemInfo
use rdm_dmx_async.Devices.Apis.DeviceLabel.{label_set, shortened}
use rdm_dmx_async.Devices.Apis.SystemInfo.{language_code}

-- The methods that write a parameter, with the method that reads it and the value that it returns.
-- A label has at most 32 bytes, and loses the NULs at its ends.
pub data Written : Setting → Parameter → Value → Type 0 where
  lamp_hours_written :
      (hours : ℕ) → Written (LampControl.set_hours hours) LampControl.get_hours (number hours)
  lamp_strikes_written :
      (strikes : ℕ)
      → Written (LampControl.set_strikes strikes) LampControl.get_strikes (number strikes)
  lamp_state_written :
      (lamp : ℕ) → Written (LampControl.set_state lamp) LampControl.get_state (number lamp)
  lamp_on_mode_written :
      (mode : ℕ) → Written (LampControl.set_on_mode mode) LampControl.get_on_mode (number mode)
  device_hours_written :
      (hours : ℕ)
      → Written (DeviceMaintenance.set_hours hours) DeviceMaintenance.get_hours (number hours)
  device_power_cycles_written :
      (cycles : ℕ)
      → Written
          (DeviceMaintenance.set_power_cycles cycles)
          DeviceMaintenance.get_power_cycles
          (number cycles)
  display_invert_written :
      (invert : ℕ)
      → Written (DisplaySettings.set_invert invert) DisplaySettings.get_invert (number invert)
  display_level_written :
      (level : ℕ)
      → Written (DisplaySettings.set_level level) DisplaySettings.get_level (number level)
  pan_invert_written :
      (invert : ℕ)
      → Written (PositionConfig.set_pan_invert invert) PositionConfig.get_pan_invert (number invert)
  tilt_invert_written :
      (invert : ℕ)
      → Written
          (PositionConfig.set_tilt_invert invert)
          PositionConfig.get_tilt_invert
          (number invert)
  pan_tilt_swap_written :
      (swap : ℕ)
      → Written
          (PositionConfig.set_pan_tilt_swap swap)
          PositionConfig.get_pan_tilt_swap
          (number swap)
  real_time_clock_written :
      (year month day hour minute second : ℕ)
      → Written
          (PositionConfig.set_real_time_clock year month day hour minute second)
          PositionConfig.get_real_time_clock
          (tuple (year ∷ month ∷ day ∷ hour ∷ minute ∷ second ∷ []))
  power_state_written :
      (power : ℕ) → Written (PowerControl.set_state power) PowerControl.get_state (number power)
  preset_playback_written :
      (mode level : ℕ)
      → Written
          (PresetControl.set_playback mode level)
          PresetControl.get_playback
          (tuple (mode ∷ level ∷ []))
  preset_merge_mode_written :
      (mode : ℕ)
      → Written (PresetControl.set_merge_mode mode) PresetControl.get_merge_mode (number mode)
  dmx_startup_mode_written :
      (mode : ℕ)
      → Written (DmxModes.set_dmx_startup_mode mode) DmxModes.get_dmx_startup_mode (number mode)
  output_response_time_written :
      (response_time : ℕ)
      → Written
          (DmxModes.set_output_response_time response_time)
          DmxModes.get_output_response_time
          (number response_time)
  dmx_fail_mode_written :
      (scene loss_of_signal_delay hold_time fail_mode_level : ℕ)
      → Written
          (DmxModes.set_dmx_fail_mode scene loss_of_signal_delay hold_time fail_mode_level)
          DmxModes.get_dmx_fail_mode
          (tuple (scene ∷ loss_of_signal_delay ∷ hold_time ∷ fail_mode_level ∷ []))
  sub_device_status_report_threshold_written :
      (status_type : ℕ)
      → Written
          (SystemInfo.set_sub_device_status_report_threshold status_type)
          SystemInfo.get_sub_device_status_report_threshold
          (number status_type)
  label_written :
      (label : Text) (bs : Bytes)
      → encode_utf8 label ≡ ok bs
      → length bs ≤ 32
      → Written (DeviceLabel.set label) DeviceLabel.get (text (strip label))
  language_written :
      (language : Text)
      → length language ≡ 2
      → Written (SystemInfo.set_language language) SystemInfo.get_language (text language)

-- The kinds of them.
pub data Stored : Setting → Parameter → Value → Type 0 where
  number_stored :
      (width v : ℕ) (pid : StandardPid)
      → Stored
          (set_cleared pid (pack (width ∷ []) (v ∷ [])))
          (number_parameter width pid)
          (number v)
  tuple_stored :
      (widths vs : List ℕ) (pid : StandardPid)
      → Stored (set_cleared pid (pack widths vs)) (tuple_parameter widths pid) (tuple vs)
  label_stored :
      (label : Text) (bs : Bytes)
      → encode_utf8 label ≡ ok bs
      → length bs ≤ 32
      → Stored
          (sending Pids.device_label (ok bs) (label_set label))
          DeviceLabel.get
          (text (strip label))
  language_stored :
      (language : Text)
      → length language ≡ 2
      → Stored
          (set_cleared Pids.language (encode_ascii language))
          SystemInfo.get_language
          (text language)

pub Written-Stored : {s : Setting} {p : Parameter} {v : Value} → Written s p v → Stored s p v
unfolding LampControl.set_hours LampControl.set_strikes LampControl.set_state
    LampControl.set_on_mode DeviceMaintenance.set_hours DeviceMaintenance.set_power_cycles
    DisplaySettings.set_invert DisplaySettings.set_level PositionConfig.set_pan_invert
    PositionConfig.set_tilt_invert PositionConfig.set_pan_tilt_swap
    PositionConfig.set_real_time_clock PowerControl.set_state PresetControl.set_playback
    PresetControl.set_merge_mode DmxModes.set_dmx_startup_mode DmxModes.set_output_response_time
    DmxModes.set_dmx_fail_mode SystemInfo.set_sub_device_status_report_threshold DeviceLabel.set
    shortened SystemInfo.set_language
Written-Stored (lamp_hours_written hours) = number_stored 4 hours _
Written-Stored (lamp_strikes_written strikes) = number_stored 4 strikes _
Written-Stored (lamp_state_written lamp) = number_stored 1 lamp _
Written-Stored (lamp_on_mode_written mode) = number_stored 1 mode _
Written-Stored (device_hours_written hours) = number_stored 4 hours _
Written-Stored (device_power_cycles_written cycles) = number_stored 4 cycles _
Written-Stored (display_invert_written invert) = number_stored 1 invert _
Written-Stored (display_level_written level) = number_stored 1 level _
Written-Stored (pan_invert_written invert) = number_stored 1 invert _
Written-Stored (tilt_invert_written invert) = number_stored 1 invert _
Written-Stored (pan_tilt_swap_written swap) = number_stored 1 swap _
Written-Stored (real_time_clock_written year month day hour minute second) =
    tuple_stored (2 ∷ 1 ∷ 1 ∷ 1 ∷ 1 ∷ 1 ∷ []) (year ∷ month ∷ day ∷ hour ∷ minute ∷ second ∷ []) _
Written-Stored (power_state_written power) = number_stored 1 power _
Written-Stored (preset_playback_written mode level) =
    tuple_stored (2 ∷ 1 ∷ []) (mode ∷ level ∷ []) _
Written-Stored (preset_merge_mode_written mode) = number_stored 1 mode _
Written-Stored (dmx_startup_mode_written mode) = number_stored 2 mode _
Written-Stored (output_response_time_written response_time) = number_stored 1 response_time _
Written-Stored (dmx_fail_mode_written scene loss_of_signal_delay hold_time fail_mode_level) =
    tuple_stored (2 ∷ 2 ∷ 2 ∷ 1 ∷ [])
      (scene ∷ loss_of_signal_delay ∷ hold_time ∷ fail_mode_level ∷ []) _
Written-Stored (sub_device_status_report_threshold_written status_type) =
    number_stored 1 status_type _
Written-Stored (label_written label bs made short) =
    rw (made, take-all 32 bs short) (label_stored label bs made short)
Written-Stored (language_written language two) = rw two (language_stored language two)

-- What a method sends.
abbrev pub Sends : Setting → Bytes → Type 0
Sends refused bs = ⊥
Sends (sending pid arguments after) bs = arguments ≡ ok bs

parse_number-pack :
    (width v : ℕ) (bs : Bytes)
    → pack (width ∷ []) (v ∷ []) ≡ ok bs
    → parse_number width bs ≡ some (number v)
unfolding parse_number unpack calcsize
parse_number-pack width v bs h =
    let (same, size) = unpack-pack (width ∷ []) (v ∷ []) bs h in
    rw (le→leb width (length bs) (omega (arith, size)))
      (ap (λ (x : List ℕ). some (number (first x))) same)
  where
    first : List ℕ → ℕ
    first [] = 0
    first (x ∷ xs) = x

parse_tuple-pack :
    (widths vs : List ℕ) (bs : Bytes)
    → pack widths vs ≡ ok bs
    → parse_tuple widths bs ≡ some (tuple vs)
unfolding parse_tuple
parse_tuple-pack widths vs bs h =
    let (same, size) = unpack-pack widths vs bs h in
    rw (le→leb (calcsize widths) (length bs) (omega (arith, size)), same) refl

pub Stored-parse :
    {s : Setting} {p : Parameter} {v : Value} (bs : Bytes)
    → Stored s p v
    → Sends s bs
    → p.parse bs ≡ some v
Stored-parse bs (number_stored width v pid) h = parse_number-pack width v bs h
Stored-parse bs (tuple_stored widths vs pid) h = parse_tuple-pack widths vs bs h
Stored-parse bs (label_stored label sent made short) h =
    unfold parse_text in ap (λ (t : Text). some (text t)) (text_of-encode_utf8 label bs (made ∙ h))
Stored-parse bs (language_stored language two) h =
    let (same, size) = decode-encode_ascii language bs h in
    unfold language_code in
    rw
      (
        le→leb 2 (length bs) (omega (arith, size, two)),
        take-all 2 bs (omega (arith, size, two)),
        same,
      )
      refl

-- What follows a success of it.
abbrev pub after_of : Setting → RdmDevice → RdmDevice
after_of refused d = d
after_of (sending pid arguments after) d = after d

pub Stored-cleared :
    {s : Setting} {p : Parameter} {v : Value} (d : RdmDevice)
    → Stored s p v
    → lookup (value p.pid) (after_of s d).parameter_cache ≡ none
Stored-cleared d (number_stored width v pid) = clear_cache-lookup (value pid) d
Stored-cleared d (tuple_stored widths vs pid) = clear_cache-lookup (value pid) d
Stored-cleared d (label_stored label sent made short) =
    clear_cache-lookup (value Pids.device_label) _
Stored-cleared d (language_stored language two) = clear_cache-lookup (value Pids.language) d
