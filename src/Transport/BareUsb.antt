-- ===== src/Transport/BareUsb.antt =====
-- rdm_dmx_async/transport/adapters/bare_usb_rs485.py.
pub mod Delimited
use rdm_dmx_async.Base.{
  ℕ, ◌+◌, Option, none, some, Result, ok, true, ltb, leb, ◌==◌, if◌then◌else◌, length, take, get_or,
  ◌∷◌, [], Bool,
}
use rdm_dmx_async.Base.Words.{Bytes}
use rdm_dmx_async.Protocols.Manchester.{find_discovery_frame_length}
use rdm_dmx_async.Transport.Adapter.{InterfaceAdapter}

unfoldable pub frame_rdm_request : Bytes → Result Bytes
frame_rdm_request rdm_data = ok rdm_data

unfoldable pub frame_rdm_discovery_request : Bytes → Result Bytes
frame_rdm_discovery_request rdm_data = ok rdm_data

unfoldable pub frame_dmx_output : Bytes → Result Bytes
frame_dmx_output dmx_data = ok (0x00 ∷ dmx_data)

unfoldable pub find_frame_length : Bytes → ℕ
find_frame_length [] = 0
find_frame_length (first ∷ more) =
    if first == 0xFE
    then find_discovery_frame_length (first ∷ more)
    else if first == 0xCC
    then (if ltb (length (first ∷ more)) 3
        then 0
        else if leb (get_or (first ∷ more) 2 0 + 2) (length (first ∷ more))
        then get_or (first ∷ more) 2 0 + 2
        else 0)
    else 0

unfoldable pub parse_rdm_response : Bytes → Option Bytes
parse_rdm_response raw_data =
    if ltb 0 (find_frame_length raw_data)
    then some (take (find_frame_length raw_data) raw_data)
    else none

-- `BareUsbRs485Adapter`
unfoldable pub bare_usb_adapter : InterfaceAdapter
bare_usb_adapter = record {
  requires_manual_break = true;
  frame_rdm_request = frame_rdm_request;
  frame_rdm_discovery_request = frame_rdm_discovery_request;
  parse_rdm_response = parse_rdm_response;
  find_frame_length = find_frame_length;
  frame_dmx_output = frame_dmx_output;
}
