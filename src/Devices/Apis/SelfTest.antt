-- ===== src/Devices/Apis/SelfTest.antt =====
-- services/device_apis/self_test.py, and `record` of services/device_apis/sensors.py
use rdm_dmx_async.Base.{ℕ, Option, none, some, ltb, if◌then◌else◌, [], ◌∷◌, length, drop}
use rdm_dmx_async.Base.Words.{Bytes}
use rdm_dmx_async.Devices.Pids
use rdm_dmx_async.Devices.Pids.{value}
use rdm_dmx_async.Devices.Text.{text_of}
use rdm_dmx_async.Devices.Struct.{pack}
use rdm_dmx_async.Devices.Device.{Value, text, Query, Setting}
use rdm_dmx_async.Devices.Parse.{set_only}

unfoldable pub perform : ℕ → Setting
perform test_number = set_only Pids.perform_selftest (pack (1 ∷ []) (test_number ∷ []))

unfoldable pub self_test_text : Bytes → Option Value
self_test_text bs = if ltb 1 (length bs) then some (text (text_of (drop 1 bs))) else none

unfoldable pub get_description : ℕ → Query
get_description test_number = record {
  pid = Pids.self_test_description;
  arguments = pack (1 ∷ []) (test_number ∷ []);
  parse = self_test_text;
  otherwise = none;
}

unfoldable pub record_sensors : ℕ → Setting
record_sensors sensor_number = set_only Pids.record_sensors (pack (1 ∷ []) (sensor_number ∷ []))
