-- ===== src/Devices/Apis/DmxModes.antt =====
-- services/device_apis/dmx_modes.py
use rdm_dmx_async.Base.{ℕ, leb, ◌&&◌, if◌then◌else◌, [], ◌∷◌}
use rdm_dmx_async.Devices.Pids
use rdm_dmx_async.Devices.Pids.{value}
use rdm_dmx_async.Devices.Struct.{pack}
use rdm_dmx_async.Devices.Device.{Parameter, Setting, refused}
use rdm_dmx_async.Devices.Parse.{number_parameter, tuple_parameter, set_cleared, set_only}

abbrev pub get_dmx_startup_mode : Parameter
get_dmx_startup_mode = number_parameter 2 Pids.dmx_startup_mode

unfoldable pub set_dmx_startup_mode : ℕ → Setting
set_dmx_startup_mode mode = set_cleared Pids.dmx_startup_mode (pack (2 ∷ []) (mode ∷ []))

abbrev pub get_output_response_time : Parameter
get_output_response_time = number_parameter 1 Pids.output_response_time

unfoldable pub set_output_response_time : ℕ → Setting
set_output_response_time response_time =
    set_cleared Pids.output_response_time (pack (1 ∷ []) (response_time ∷ []))

unfoldable pub capture_preset : ℕ → Setting
capture_preset mode = set_only Pids.capture_preset (pack (2 ∷ []) (mode ∷ []))

abbrev pub get_dmx_block_address : Parameter
get_dmx_block_address = tuple_parameter (2 ∷ 2 ∷ 2 ∷ []) Pids.dmx_block_address

unfoldable pub set_dmx_block_address : ℕ → Setting
set_dmx_block_address start_address =
    if leb 1 start_address && leb start_address 512
    then set_cleared Pids.dmx_block_address (pack (2 ∷ []) (start_address ∷ []))
    else refused

abbrev pub get_dmx_fail_mode : Parameter
get_dmx_fail_mode = tuple_parameter (2 ∷ 2 ∷ 2 ∷ 1 ∷ []) Pids.dmx_fail_mode

unfoldable pub set_dmx_fail_mode : ℕ → ℕ → ℕ → ℕ → Setting
set_dmx_fail_mode scene loss_of_signal_delay hold_time fail_mode_level =
    set_cleared Pids.dmx_fail_mode
      (pack (2 ∷ 2 ∷ 2 ∷ 1 ∷ []) (scene ∷ loss_of_signal_delay ∷ hold_time ∷ fail_mode_level ∷ []))
