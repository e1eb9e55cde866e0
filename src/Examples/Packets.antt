-- ===== src/Examples/Packets.antt =====
-- A concrete packet: a request with two bytes of parameter data.
use rdm_dmx_async.Base.{◌≡◌, refl, some, ok, [], ◌∷◌, arith}
use rdm_dmx_async.Base.Words.{Bytes}
use rdm_dmx_async.Packets.Types.{ack, set_command, response_type_value}
use rdm_dmx_async.Packets.Rdm.{RdmRequest, IsConstructed}
use rdm_dmx_async.Packets.Encoder.{IsEncodable, encode_rdm_request}
use rdm_dmx_async.Packets.Decoder.{decode_rdm_response}
use rdm_dmx_async.Packets.RoundTrip.{echo, decode-encode}

abbrev pub set_address : RdmRequest
set_address = record {
  destination_uid = 0x454E00000001;
  source_uid = 0x454E00000002;
  transaction_number = 17;
  port_address = 0;
  sub_device = 0;
  command_class = set_command;
  pid = 0x00F0;
  payload = 1 ∷ 44 ∷ [];
}

pub set_address-IsConstructed : IsConstructed set_address
set_address-IsConstructed = record {
  transaction_fits = omega arith;
  sub_device_fits = omega arith;
  payload_fits = omega arith;
}

pub set_address-IsEncodable : IsEncodable set_address
set_address-IsEncodable = record {
  constructed = set_address-IsConstructed;
  destination_fits = omega arith;
  source_fits = omega arith;
  port_fits = omega arith;
  pid_fits = omega arith;
}

decode-encode_example :
    (p : Bytes) × (encode_rdm_request set_address ≡ ok p)
    × (decode_rdm_response p ≡ ok (some (echo set_address ack)))
unfolding response_type_value
decode-encode_example = decode-encode set_address ack set_address-IsEncodable refl
