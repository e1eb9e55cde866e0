-- ===== src/Transport/Enttec.antt =====
-- rdm_dmx_async/transport/adapters/enttec.py. `a | (b << 8)` is a sum, since `a` is a byte.
pub mod Framing
use rdm_dmx_async.Base.{
  ℕ, ◌+◌, ◌-◌, ◌*◌, ◌/◌, ◌%◌, ◌^◌, Option, none, some, Result, ok, err, value_error, ◌>>=◌,
  raise_if, ◌>>◌, false, Bool, ltb, leb, ◌==◌, ◌||◌, ◌&&◌, not, if◌then◌else◌, length, slice, drop,
  get_or, [], ◌∷◌, ◌++◌, List,
}
use rdm_dmx_async.Base.Words.{Bytes}
use rdm_dmx_async.Transport.Adapter.{InterfaceAdapter}

-- `EnttecMessageType`, as far as the adapter uses it
pub data EnttecMessageType : Type 0 where
  get_widget_params received_dmx_packet output_only_send_dmx send_rdm_packet : EnttecMessageType
  get_widget_serial_number send_rdm_discovery : EnttecMessageType

unfoldable pub label : EnttecMessageType → ℕ
label get_widget_params = 3
label received_dmx_packet = 5
label output_only_send_dmx = 6
label send_rdm_packet = 7
label get_widget_serial_number = 10
label send_rdm_discovery = 11

abbrev pub start_of_message : ℕ
start_of_message = 0x7E

abbrev pub end_of_message : ℕ
end_of_message = 0xE7

-- `_frame_message`
unfoldable pub frame_message : EnttecMessageType → Bytes → Result Bytes
unfolding label
frame_message message_type payload =
    if ltb 600 (length payload)
    then err value_error
    else ok (
        (start_of_message
          ∷ label message_type
          ∷ (length payload % 2 ^ 8)
          ∷ (length payload / 2 ^ 8 % 2 ^ 8)
          ∷ [])
        ++ (payload ++ end_of_message ∷ []))

unfoldable pub frame_rdm_request : Bytes → Result Bytes
frame_rdm_request rdm_data = frame_message send_rdm_packet rdm_data

unfoldable pub frame_rdm_discovery_request : Bytes → Result Bytes
frame_rdm_discovery_request rdm_data = frame_message send_rdm_discovery rdm_data

-- `raw_data[2] | (raw_data[3] << 8)`
unfoldable pub data_length : Bytes → ℕ
data_length raw_data = get_or raw_data 2 0 + get_or raw_data 3 0 * 2 ^ 8

-- The payload of a received packet without its status byte, which is only logged.
unfoldable pub received_payload : ℕ → Bytes → Option Bytes
unfolding label
received_payload message_type payload =
    if message_type == label received_dmx_packet
    then (if ltb (length payload) 2 then none else some (drop 1 payload))
    else none

unfoldable pub parse_rdm_response : Bytes → Option Bytes
parse_rdm_response raw_data =
    if ltb (length raw_data) 5
    then none
    else if not (get_or raw_data 0 0 == start_of_message)
    then none
    else if ltb (length raw_data) (5 + data_length raw_data)
    then none
    else if not (get_or raw_data (5 + data_length raw_data - 1) 0 == end_of_message)
    then none
    else received_payload (get_or raw_data 1 0) (slice 4 (4 + data_length raw_data) raw_data)

unfoldable pub frame_dmx_output : Bytes → Result Bytes
frame_dmx_output dmx_data =
    if ltb (length dmx_data) 1 || ltb 512 (length dmx_data)
    then err value_error
    else frame_message output_only_send_dmx (0x00 ∷ dmx_data)

unfoldable pub find_frame_length : Bytes → ℕ
find_frame_length buffer =
    if ltb (length buffer) 5
    then 0
    else if get_or buffer 0 0 == start_of_message
    then (if leb (5 + data_length buffer) (length buffer)
          && get_or buffer (5 + data_length buffer - 1) 0 == end_of_message
        then 5 + data_length buffer
        else 0)
    else 0

unfoldable pub get_widget_params_request : Result Bytes
get_widget_params_request = frame_message get_widget_params (0x00 ∷ 0x00 ∷ [])

-- The dictionary that `parse_widget_params_response` returns; `firmware_version` is the text of
-- the other two version fields.
pub record WidgetParams : Type 0 where
  pub firmware_version_lsb : ℕ
  pub firmware_version_msb : ℕ
  pub dmx_break_time : ℕ
  pub dmx_mab_time : ℕ
  pub dmx_refresh_rate : ℕ

-- A whole message of one type, and its data: the checks that the two widget parsers share. Unlike
-- a received packet it must end in the last byte read.
unfoldable pub widget_message : EnttecMessageType → Bytes → Option Bytes
widget_message expected raw_data =
    if ltb (length raw_data) 5
    then none
    else if not (get_or raw_data 0 0 == start_of_message)
        || not (get_or raw_data (length raw_data - 1) 0 == end_of_message)
    then none
    else if not (get_or raw_data 1 0 == label expected)
    then none
    else some (slice 4 (4 + data_length raw_data) raw_data)

unfoldable pub read_params : Option Bytes → Option WidgetParams
read_params none = none
read_params (some payload) =
    if leb 5 (length payload)
    then some (record {
      firmware_version_lsb = get_or payload 0 0;
      firmware_version_msb = get_or payload 1 0;
      dmx_break_time = get_or payload 2 0;
      dmx_mab_time = get_or payload 3 0;
      dmx_refresh_rate = get_or payload 4 0;
    })
    else none

unfoldable pub parse_widget_params_response : Bytes → Option WidgetParams
unfolding widget_message read_params
parse_widget_params_response raw_data = read_params (widget_message get_widget_params raw_data)

unfoldable pub get_widget_serial_request : Result Bytes
get_widget_serial_request = frame_message get_widget_serial_number []

-- `data == b"\xff\xff\xff\xff"`
unfoldable pub is_unprogrammed : Bytes → Bool
is_unprogrammed (a ∷ b ∷ c ∷ d ∷ []) = a == 0xFF && b == 0xFF && c == 0xFF && d == 0xFF
is_unprogrammed _ = false

unfoldable pub read_serial : Option Bytes → Option Bytes
unfolding is_unprogrammed
read_serial none = none
read_serial (some payload) =
    if length payload == 4 then (if is_unprogrammed payload then none else some payload) else none

unfoldable pub parse_widget_serial_response : Bytes → Option Bytes
unfolding widget_message read_serial
parse_widget_serial_response raw_data =
    read_serial (widget_message get_widget_serial_number raw_data)

-- `EnttecAdapter`
unfoldable pub enttec_adapter : InterfaceAdapter
enttec_adapter = record {
  requires_manual_break = false;
  frame_rdm_request = frame_rdm_request;
  frame_rdm_discovery_request = frame_rdm_discovery_request;
  parse_rdm_response = parse_rdm_response;
  find_frame_length = find_frame_length;
  frame_dmx_output = frame_dmx_output;
}
