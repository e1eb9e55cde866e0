-- ===== src/Devices/Apis/PresetControl.antt =====
-- services/device_apis/preset_control.py
use rdm_dmx_async.Base.{ℕ, Option, none, some, leb, if◌then◌else◌, [], ◌∷◌, length, take, drop}
use rdm_dmx_async.Base.Words.{Bytes, from_bytes}
use rdm_dmx_async.Devices.Pids
use rdm_dmx_async.Devices.Pids.{value}
use rdm_dmx_async.Devices.Struct.{pack}
use rdm_dmx_async.Devices.Device.{Value, preset_status, Parameter, Setting}
use rdm_dmx_async.Devices.Parse.{unchanged, number_parameter, tuple_parameter, set_cleared}

abbrev pub get_playback : Parameter
get_playback = tuple_parameter (2 ∷ 1 ∷ []) Pids.preset_playback

unfoldable pub set_playback : ℕ → ℕ → Setting
set_playback mode level = set_cleared Pids.preset_playback (pack (2 ∷ 1 ∷ []) (mode ∷ level ∷ []))

unfoldable pub parse_status : Bytes → Option Value
parse_status bs =
    if leb 8 (length bs)
    then some (
        preset_status (from_bytes (take 2 bs)) (from_bytes (take 2 (drop 2 bs)))
          (from_bytes (take 2 (drop 4 bs))) (from_bytes (take 2 (drop 6 bs))))
    else none

abbrev pub get_status : Parameter
get_status = record {
  pid = Pids.preset_status;
  parse = parse_status;
  note = unchanged;
  otherwise = none;
}

abbrev pub get_merge_mode : Parameter
get_merge_mode = number_parameter 1 Pids.preset_mergemode

unfoldable pub set_merge_mode : ℕ → Setting
set_merge_mode mode = set_cleared Pids.preset_mergemode (pack (1 ∷ []) (mode ∷ []))
