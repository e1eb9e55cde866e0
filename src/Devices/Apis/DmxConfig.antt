-- ===== src/Devices/Apis/DmxConfig.antt =====
-- services/device_apis/dmx_config.py
use rdm_dmx_async.Base.{ℕ, none, ltb, leb, ◌&&◌, if◌then◌else◌, [], ◌∷◌}
use rdm_dmx_async.Devices.Pids
use rdm_dmx_async.Devices.Pids.{value}
use rdm_dmx_async.Devices.Struct.{pack}
use rdm_dmx_async.Devices.Device.{
  DeviceState, Value, tuple, RdmDevice, clear_cache, Parameter, Query, Setting, refused, sending,
}
use rdm_dmx_async.Devices.Parse.{parse_tuple, parse_described}

abbrev pub address_set : ℕ → RdmDevice → RdmDevice
address_set address d =
    clear_cache (value Pids.dmx_start_address)
      (let s = d.state in record d { state = record s { dmx_start_address = address } })

unfoldable pub set_start_address : ℕ → Setting
set_start_address address =
    if leb 1 address && leb address 512
    then sending Pids.dmx_start_address (pack (2 ∷ []) (address ∷ [])) (address_set address)
    else refused

-- The current personality and their number, both kept in the state.
unfoldable pub note_personality : Value → DeviceState → DeviceState
note_personality (tuple (current ∷ count ∷ [])) s = record s {
  dmx_personality = current;
  dmx_personality_count = count;
}
note_personality v s = s

abbrev pub get_personality : Parameter
get_personality = record {
  pid = Pids.dmx_personality;
  parse = parse_tuple (1 ∷ 1 ∷ []);
  note = note_personality;
  otherwise = none;
}

abbrev pub personality_set : ℕ → RdmDevice → RdmDevice
personality_set personality d = clear_cache (value Pids.device_info) (
    clear_cache (value Pids.dmx_personality)
      (let s = d.state in record d { state = record s { dmx_personality = personality } }))

unfoldable pub set_personality : ℕ → Setting
set_personality personality =
    if ltb personality 1
    then refused
    else sending Pids.dmx_personality (pack (1 ∷ []) (personality ∷ []))
        (personality_set personality)

unfoldable pub get_personality_description : ℕ → Query
get_personality_description personality = record {
  pid = Pids.dmx_personality_description;
  arguments = pack (1 ∷ []) (personality ∷ []);
  parse = parse_described 3 (1 ∷ 2 ∷ []);
  otherwise = none;
}
