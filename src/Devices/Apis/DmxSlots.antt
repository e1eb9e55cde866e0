-- ===== src/Devices/Apis/DmxSlots.antt =====
-- services/device_apis/dmx_slots.py
use rdm_dmx_async.Base.{ℕ, none, some, ok, List, [], ◌∷◌}
use rdm_dmx_async.Base.Words.{Bytes, from_bytes}
use rdm_dmx_async.Devices.Pids
use rdm_dmx_async.Devices.Pids.{value}
use rdm_dmx_async.Devices.Struct.{pack}
use rdm_dmx_async.Devices.Device.{numbers, described, Query}
use rdm_dmx_async.Devices.Parse.{parse_described, unless_empty}

abbrev pub get_slot_info : Query
get_slot_info = record {
  pid = Pids.slot_info;
  arguments = ok [];
  parse = λ bs. unless_empty bs (numbers bs);
  otherwise = none;
}

unfoldable pub get_slot_description : ℕ → Query
get_slot_description slot_offset = record {
  pid = Pids.slot_description;
  arguments = pack (2 ∷ []) (slot_offset ∷ []);
  parse = parse_described 3 (2 ∷ []);
  otherwise = some (described (slot_offset ∷ []) []);
}

-- The slot id and the value of each three-byte piece, one after the other.
unfoldable pub defaults_of : Bytes → List ℕ
defaults_of (a ∷ b ∷ c ∷ rest) = from_bytes (a ∷ b ∷ []) ∷ c ∷ defaults_of rest
defaults_of _ = []

abbrev pub get_default_slot_values : Query
get_default_slot_values = record {
  pid = Pids.default_slot_value;
  arguments = ok [];
  parse = λ bs. some (numbers (defaults_of bs));
  otherwise = none;
}
