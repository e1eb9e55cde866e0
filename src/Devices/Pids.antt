-- ===== src/Devices/Pids.antt =====
-- The parameter ids that the devices use (rdm_dmx_async/domain/parameters.py).
use rdm_dmx_async.Base.{◌≡◌, refl, ap, ◌∙◌, sym, ◌==◌, if◌then◌else◌, Option, none, some}
use rdm_dmx_async.Packets.Types.{Pid}

pub data StandardPid : Type 0 where
  disc_unique_branch disc_mute disc_un_mute proxied_devices : StandardPid
  proxied_device_count comms_status queued_message status_messages : StandardPid
  status_id_description clear_status_id sub_device_status_report_threshold supported_parameters :
      StandardPid
  parameter_description device_info product_detail_id_list device_model_description : StandardPid
  manufacturer_label device_label factory_defaults language_capabilities : StandardPid
  language software_version_label boot_software_version_id boot_software_version_label : StandardPid
  dmx_personality dmx_personality_description dmx_start_address slot_info : StandardPid
  slot_description default_slot_value sensor_definition sensor_value : StandardPid
  record_sensors device_hours lamp_hours lamp_strikes : StandardPid
  lamp_state lamp_on_mode device_power_cycles display_invert : StandardPid
  display_level pan_invert tilt_invert pan_tilt_swap : StandardPid
  real_time_clock dmx_startup_mode dmx_block_address dmx_fail_mode : StandardPid
  output_response_time identify_device reset_device power_state : StandardPid
  perform_selftest self_test_description capture_preset preset_playback : StandardPid
  preset_status preset_mergemode : StandardPid

unfoldable pub value : StandardPid → Pid
value disc_unique_branch = 0x0001
value disc_mute = 0x0002
value disc_un_mute = 0x0003
value proxied_devices = 0x0010
value proxied_device_count = 0x0011
value comms_status = 0x0015
value queued_message = 0x0020
value status_messages = 0x0030
value status_id_description = 0x0031
value clear_status_id = 0x0032
value sub_device_status_report_threshold = 0x0033
value supported_parameters = 0x0050
value parameter_description = 0x0051
value device_info = 0x0060
value product_detail_id_list = 0x0070
value device_model_description = 0x0080
value manufacturer_label = 0x0081
value device_label = 0x0082
value factory_defaults = 0x0090
value language_capabilities = 0x00A0
value language = 0x00B0
value software_version_label = 0x00C0
value boot_software_version_id = 0x00C1
value boot_software_version_label = 0x00C2
value dmx_personality = 0x00E0
value dmx_personality_description = 0x00E1
value dmx_start_address = 0x00F0
value slot_info = 0x0120
value slot_description = 0x0121
value default_slot_value = 0x0122
value sensor_definition = 0x0200
value sensor_value = 0x0201
value record_sensors = 0x0202
value device_hours = 0x0400
value lamp_hours = 0x0401
value lamp_strikes = 0x0402
value lamp_state = 0x0403
value lamp_on_mode = 0x0404
value device_power_cycles = 0x0405
value display_invert = 0x0500
value display_level = 0x0501
value pan_invert = 0x0600
value tilt_invert = 0x0601
value pan_tilt_swap = 0x0602
value real_time_clock = 0x0603
value dmx_startup_mode = 0x0142
value dmx_block_address = 0x0140
value dmx_fail_mode = 0x0141
value output_response_time = 0x0345
value identify_device = 0x1000
value reset_device = 0x1001
value power_state = 0x1010
value perform_selftest = 0x1020
value self_test_description = 0x1021
value capture_preset = 0x1030
value preset_playback = 0x1031
value preset_status = 0x1032
value preset_mergemode = 0x1033

-- `StandardPID(v)`, where it exists.
unfoldable pub standard_pid_of : Pid → Option StandardPid
standard_pid_of v =
    if v == 0x0001
    then some disc_unique_branch
    else if v == 0x0002
    then some disc_mute
    else if v == 0x0003
    then some disc_un_mute
    else if v == 0x0010
    then some proxied_devices
    else if v == 0x0011
    then some proxied_device_count
    else if v == 0x0015
    then some comms_status
    else if v == 0x0020
    then some queued_message
    else if v == 0x0030
    then some status_messages
    else if v == 0x0031
    then some status_id_description
    else if v == 0x0032
    then some clear_status_id
    else if v == 0x0033
    then some sub_device_status_report_threshold
    else if v == 0x0050
    then some supported_parameters
    else if v == 0x0051
    then some parameter_description
    else if v == 0x0060
    then some device_info
    else if v == 0x0070
    then some product_detail_id_list
    else if v == 0x0080
    then some device_model_description
    else if v == 0x0081
    then some manufacturer_label
    else if v == 0x0082
    then some device_label
    else if v == 0x0090
    then some factory_defaults
    else if v == 0x00A0
    then some language_capabilities
    else if v == 0x00B0
    then some language
    else if v == 0x00C0
    then some software_version_label
    else if v == 0x00C1
    then some boot_software_version_id
    else if v == 0x00C2
    then some boot_software_version_label
    else if v == 0x00E0
    then some dmx_personality
    else if v == 0x00E1
    then some dmx_personality_description
    else if v == 0x00F0
    then some dmx_start_address
    else if v == 0x0120
    then some slot_info
    else if v == 0x0121
    then some slot_description
    else if v == 0x0122
    then some default_slot_value
    else if v == 0x0200
    then some sensor_definition
    else if v == 0x0201
    then some sensor_value
    else if v == 0x0202
    then some record_sensors
    else if v == 0x0400
    then some device_hours
    else if v == 0x0401
    then some lamp_hours
    else if v == 0x0402
    then some lamp_strikes
    else if v == 0x0403
    then some lamp_state
    else if v == 0x0404
    then some lamp_on_mode
    else if v == 0x0405
    then some device_power_cycles
    else if v == 0x0500
    then some display_invert
    else if v == 0x0501
    then some display_level
    else if v == 0x0600
    then some pan_invert
    else if v == 0x0601
    then some tilt_invert
    else if v == 0x0602
    then some pan_tilt_swap
    else if v == 0x0603
    then some real_time_clock
    else if v == 0x0142
    then some dmx_startup_mode
    else if v == 0x0140
    then some dmx_block_address
    else if v == 0x0141
    then some dmx_fail_mode
    else if v == 0x0345
    then some output_response_time
    else if v == 0x1000
    then some identify_device
    else if v == 0x1001
    then some reset_device
    else if v == 0x1010
    then some power_state
    else if v == 0x1020
    then some perform_selftest
    else if v == 0x1021
    then some self_test_description
    else if v == 0x1030
    then some capture_preset
    else if v == 0x1031
    then some preset_playback
    else if v == 0x1032
    then some preset_status
    else if v == 0x1033
    then some preset_mergemode
    else none

standard_pid_of-value : (p : StandardPid) → standard_pid_of (value p) ≡ some p
unfolding value standard_pid_of
standard_pid_of-value disc_unique_branch = refl
standard_pid_of-value disc_mute = refl
standard_pid_of-value disc_un_mute = refl
standard_pid_of-value proxied_devices = refl
standard_pid_of-value proxied_device_count = refl
standard_pid_of-value comms_status = refl
standard_pid_of-value queued_message = refl
standard_pid_of-value status_messages = refl
standard_pid_of-value status_id_description = refl
standard_pid_of-value clear_status_id = refl
standard_pid_of-value sub_device_status_report_threshold = refl
standard_pid_of-value supported_parameters = refl
standard_pid_of-value parameter_description = refl
standard_pid_of-value device_info = refl
standard_pid_of-value product_detail_id_list = refl
standard_pid_of-value device_model_description = refl
standard_pid_of-value manufacturer_label = refl
standard_pid_of-value device_label = refl
standard_pid_of-value factory_defaults = refl
standard_pid_of-value language_capabilities = refl
standard_pid_of-value language = refl
standard_pid_of-value software_version_label = refl
standard_pid_of-value boot_software_version_id = refl
standard_pid_of-value boot_software_version_label = refl
standard_pid_of-value dmx_personality = refl
standard_pid_of-value dmx_personality_description = refl
standard_pid_of-value dmx_start_address = refl
standard_pid_of-value slot_info = refl
standard_pid_of-value slot_description = refl
standard_pid_of-value default_slot_value = refl
standard_pid_of-value sensor_definition = refl
standard_pid_of-value sensor_value = refl
standard_pid_of-value record_sensors = refl
standard_pid_of-value device_hours = refl
standard_pid_of-value lamp_hours = refl
standard_pid_of-value lamp_strikes = refl
standard_pid_of-value lamp_state = refl
standard_pid_of-value lamp_on_mode = refl
standard_pid_of-value device_power_cycles = refl
standard_pid_of-value display_invert = refl
standard_pid_of-value display_level = refl
standard_pid_of-value pan_invert = refl
standard_pid_of-value tilt_invert = refl
standard_pid_of-value pan_tilt_swap = refl
standard_pid_of-value real_time_clock = refl
standard_pid_of-value dmx_startup_mode = refl
standard_pid_of-value dmx_block_address = refl
standard_pid_of-value dmx_fail_mode = refl
standard_pid_of-value output_response_time = refl
standard_pid_of-value identify_device = refl
standard_pid_of-value reset_device = refl
standard_pid_of-value power_state = refl
standard_pid_of-value perform_selftest = refl
standard_pid_of-value self_test_description = refl
standard_pid_of-value capture_preset = refl
standard_pid_of-value preset_playback = refl
standard_pid_of-value preset_status = refl
standard_pid_of-value preset_mergemode = refl

-- No two parameters share an id.
pub value-injective : (p q : StandardPid) → value p ≡ value q → p ≡ q
value-injective p q e =
    some_injective (sym (standard_pid_of-value p) ∙ ap standard_pid_of e ∙ standard_pid_of-value q)
  where
    some_injective : some p ≡ some q → p ≡ q
    some_injective h = cc
