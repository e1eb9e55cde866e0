-- ===== src/Examples/Protocols.antt =====
-- The validator and the discovery decoder on concrete packets.
use rdm_dmx_async.Base.{◌≡◌, ◌↔◌, refl, true, none, some, [], ◌∷◌, ◌++◌, arith}
use rdm_dmx_async.Base.Words.{Bytes, IsBytes}
use rdm_dmx_async.Packets.Types.{ack, set_command_response}
use rdm_dmx_async.Packets.Rdm.{RdmResponse}
use rdm_dmx_async.Protocols.Validator.{validate_request, validate_request_response_match}
use rdm_dmx_async.Protocols.Validator.Accepts.{IsRequest, Answers, validate_request_iff, match_iff}
use rdm_dmx_async.Protocols.Manchester.{decode}
use rdm_dmx_async.Protocols.Manchester.Frames.{discovery_frame, decode-frame}
use rdm_dmx_async.Examples.Packets.{set_address}

abbrev pub done : RdmResponse
done = record {
  source_uid = 0x454E00000001;
  destination_uid = 0x454E00000002;
  transaction_number = 17;
  response_type = ack;
  message_count = 0;
  sub_device = 0;
  command_class = set_command_response;
  pid = 0x00F0;
  payload = [];
  checksum_valid = true;
}

validate_request_iff_example : (validate_request set_address ≡ none) ↔ IsRequest set_address
validate_request_iff_example = validate_request_iff set_address

match_iff_example :
    (validate_request_response_match set_address done ≡ none) ↔ Answers set_address done
match_iff_example = match_iff set_address done

abbrev uid : Bytes
uid = 0x45 ∷ 0x4E ∷ 0x00 ∷ 0x00 ∷ 0x00 ∷ 0x01 ∷ []

-- The sum of the received bytes would be 1515, which is not 0.
abbrev wrong_checksum : Bytes
wrong_checksum = 0x00 ∷ 0x00 ∷ []

received-IsBytes : IsBytes (uid ++ wrong_checksum)
received-IsBytes = (
  omega arith,
  (
    omega arith,
    (omega arith, (omega arith, (omega arith, (omega arith, (omega arith, (omega arith, tt)))))),
  ),
)

decode-frame_example : decode (discovery_frame 7 uid wrong_checksum) ≡ some uid
decode-frame_example =
    decode-frame 7 uid wrong_checksum (omega arith) (omega arith) refl refl received-IsBytes
