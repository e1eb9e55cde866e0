-- ===== src/Devices/Apis/LampControl.antt =====
-- services/device_apis/lamp_control.py
use rdm_dmx_async.Base.{ℕ, [], ◌∷◌}
use rdm_dmx_async.Devices.Pids
use rdm_dmx_async.Devices.Pids.{value}
use rdm_dmx_async.Devices.Struct.{pack}
use rdm_dmx_async.Devices.Device.{Parameter, Setting}
use rdm_dmx_async.Devices.Parse.{number_parameter, set_cleared}

abbrev pub get_hours : Parameter
get_hours = number_parameter 4 Pids.lamp_hours

unfoldable pub set_hours : ℕ → Setting
set_hours hours = set_cleared Pids.lamp_hours (pack (4 ∷ []) (hours ∷ []))

abbrev pub get_strikes : Parameter
get_strikes = number_parameter 4 Pids.lamp_strikes

unfoldable pub set_strikes : ℕ → Setting
set_strikes strikes = set_cleared Pids.lamp_strikes (pack (4 ∷ []) (strikes ∷ []))

abbrev pub get_state : Parameter
get_state = number_parameter 1 Pids.lamp_state

unfoldable pub set_state : ℕ → Setting
set_state lamp = set_cleared Pids.lamp_state (pack (1 ∷ []) (lamp ∷ []))

abbrev pub get_on_mode : Parameter
get_on_mode = number_parameter 1 Pids.lamp_on_mode

unfoldable pub set_on_mode : ℕ → Setting
set_on_mode mode = set_cleared Pids.lamp_on_mode (pack (1 ∷ []) (mode ∷ []))
