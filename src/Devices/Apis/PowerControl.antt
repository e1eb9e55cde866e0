-- ===== src/Devices/Apis/PowerControl.antt =====
-- services/device_apis/power_control.py
use rdm_dmx_async.Base.{ℕ, [], ◌∷◌}
use rdm_dmx_async.Devices.Pids
use rdm_dmx_async.Devices.Pids.{value}
use rdm_dmx_async.Devices.Struct.{pack}
use rdm_dmx_async.Devices.Device.{Parameter, Setting}
use rdm_dmx_async.Devices.Parse.{number_parameter, set_cleared}

abbrev pub get_state : Parameter
get_state = number_parameter 1 Pids.power_state

unfoldable pub set_state : ℕ → Setting
set_state power = set_cleared Pids.power_state (pack (1 ∷ []) (power ∷ []))
