-- ===== src/Devices/Apis/DeviceMaintenance.antt =====
-- services/device_apis/device_maintenance.py
use rdm_dmx_async.Base.{ℕ, [], ◌∷◌}
use rdm_dmx_async.Devices.Pids
use rdm_dmx_async.Devices.Pids.{value}
use rdm_dmx_async.Devices.Struct.{pack}
use rdm_dmx_async.Devices.Device.{Parameter, Setting}
use rdm_dmx_async.Devices.Parse.{number_parameter, set_cleared}

abbrev pub get_hours : Parameter
get_hours = number_parameter 4 Pids.device_hours

unfoldable pub set_hours : ℕ → Setting
set_hours hours = set_cleared Pids.device_hours (pack (4 ∷ []) (hours ∷ []))

abbrev pub get_power_cycles : Parameter
get_power_cycles = number_parameter 4 Pids.device_power_cycles

unfoldable pub set_power_cycles : ℕ → Setting
set_power_cycles cycles = set_cleared Pids.device_power_cycles (pack (4 ∷ []) (cycles ∷ []))
