-- ===== src/Devices/Apis/DisplaySettings.antt =====
-- services/device_apis/display_settings.py
use rdm_dmx_async.Base.{ℕ, [], ◌∷◌}
use rdm_dmx_async.Devices.Pids
use rdm_dmx_async.Devices.Pids.{value}
use rdm_dmx_async.Devices.Struct.{pack}
use rdm_dmx_async.Devices.Device.{Parameter, Setting}
use rdm_dmx_async.Devices.Parse.{number_parameter, set_cleared}

abbrev pub get_invert : Parameter
get_invert = number_parameter 1 Pids.display_invert

unfoldable pub set_invert : ℕ → Setting
set_invert invert = set_cleared Pids.display_invert (pack (1 ∷ []) (invert ∷ []))

abbrev pub get_level : Parameter
get_level = number_parameter 1 Pids.display_level

unfoldable pub set_level : ℕ → Setting
set_level level = set_cleared Pids.display_level (pack (1 ∷ []) (level ∷ []))
