-- ===== src/Devices/Apis/Proxy.antt =====
-- services/device_apis/proxy.py
use rdm_dmx_async.Base.{
  Option, none, some, ok, not, leb, ◌==◌, if◌then◌else◌, List, [], ◌∷◌, length, take, get_or,
}
use rdm_dmx_async.Base.Words.{Bytes, from_bytes}
use rdm_dmx_async.Packets.Types.{Uid}
use rdm_dmx_async.Devices.Pids
use rdm_dmx_async.Devices.Pids.{value}
use rdm_dmx_async.Devices.Device.{Value, numbers, device_count, Parameter, Query}
use rdm_dmx_async.Devices.Parse.{unchanged}

unfoldable pub parse_count : Bytes → Option Value
parse_count bs =
    if leb 3 (length bs)
    then some (device_count (from_bytes (take 2 bs)) (not (get_or bs 2 0 == 0)))
    else none

abbrev pub get_proxied_device_count : Parameter
get_proxied_device_count = record {
  pid = Pids.proxied_device_count;
  parse = parse_count;
  note = unchanged;
  otherwise = none;
}

-- The six-byte pieces of a response; a shorter one at the end is skipped.
unfoldable pub uids_of : Bytes → List Uid
uids_of (a ∷ b ∷ c ∷ d ∷ e ∷ f ∷ rest) = from_bytes (a ∷ b ∷ c ∷ d ∷ e ∷ f ∷ []) ∷ uids_of rest
uids_of _ = []

-- An empty response is an empty list.
abbrev pub get_proxied_devices : Query
get_proxied_devices = record {
  pid = Pids.proxied_devices;
  arguments = ok [];
  parse = λ bs. some (numbers (uids_of bs));
  otherwise = none;
}
