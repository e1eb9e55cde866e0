-- ===== src/Devices/Apis/PositionConfig.antt =====
-- services/device_apis/position_config.py
use rdm_dmx_async.Base.{ℕ, [], ◌∷◌}
use rdm_dmx_async.Devices.Pids
use rdm_dmx_async.Devices.Pids.{value}
use rdm_dmx_async.Devices.Struct.{pack}
use rdm_dmx_async.Devices.Device.{Parameter, Setting}
use rdm_dmx_async.Devices.Parse.{number_parameter, tuple_parameter, set_cleared}

abbrev pub get_pan_invert : Parameter
get_pan_invert = number_parameter 1 Pids.pan_invert

unfoldable pub set_pan_invert : ℕ → Setting
set_pan_invert invert = set_cleared Pids.pan_invert (pack (1 ∷ []) (invert ∷ []))

abbrev pub get_tilt_invert : Parameter
get_tilt_invert = number_parameter 1 Pids.tilt_invert

unfoldable pub set_tilt_invert : ℕ → Setting
set_tilt_invert invert = set_cleared Pids.tilt_invert (pack (1 ∷ []) (invert ∷ []))

abbrev pub get_pan_tilt_swap : Parameter
get_pan_tilt_swap = number_parameter 1 Pids.pan_tilt_swap

unfoldable pub set_pan_tilt_swap : ℕ → Setting
set_pan_tilt_swap swap = set_cleared Pids.pan_tilt_swap (pack (1 ∷ []) (swap ∷ []))

abbrev pub get_real_time_clock : Parameter
get_real_time_clock = tuple_parameter (2 ∷ 1 ∷ 1 ∷ 1 ∷ 1 ∷ 1 ∷ []) Pids.real_time_clock

unfoldable pub set_real_time_clock : ℕ → ℕ → ℕ → ℕ → ℕ → ℕ → Setting
set_real_time_clock year month day hour minute second =
    set_cleared Pids.real_time_clock
      (pack (2 ∷ 1 ∷ 1 ∷ 1 ∷ 1 ∷ 1 ∷ []) (year ∷ month ∷ day ∷ hour ∷ minute ∷ second ∷ []))
