-- ===== src/Packets/Decoder.antt =====
-- rdm_dmx_async/packets/decoder.py. Every index read is below 26, which the first guard ensures.
use rdm_dmx_async.Base.{
  ℕ, ◌+◌, ltb, ◌==◌, not, if◌then◌else◌, Option, none, some, Result, ok, err, value_error,
  index_error, struct_error, packet_decode_error, raise_if, ◌>>=◌, ◌>>◌, length, take, slice,
  get_or,
}
use rdm_dmx_async.Base.Words.{Bytes, from_bytes}
use rdm_dmx_async.Packets.Types.{command_class_of, response_type_of, start_code_rdm, uid_from_bytes}
use rdm_dmx_async.Packets.Rdm.{RdmResponse}
use rdm_dmx_async.Packets.Encoder.{calculate_checksum}

-- `data[i]`, in range
abbrev pub byte_at : Bytes → ℕ → ℕ
byte_at bs i = get_or bs i 0

-- `except (struct.error, ValueError, IndexError)`
unfoldable pub as_decode_error {ℓ} : {A : Type ℓ} → Result A → Result A
as_decode_error (ok a) = ok a
as_decode_error (err value_error) = err packet_decode_error
as_decode_error (err index_error) = err packet_decode_error
as_decode_error (err struct_error) = err packet_decode_error
as_decode_error (err e) = err e

-- The body of the `try`.
unfoldable pub parse_response : Bytes → Result (Option RdmResponse)
parse_response bs = do
  destination_uid ← uid_from_bytes (slice 3 9 bs)
  source_uid ← uid_from_bytes (slice 9 15 bs)
  response_type ← response_type_of (byte_at bs 16)
  command_class ← command_class_of (byte_at bs 20)
  let checksum_offset = 24 + byte_at bs 23
  raise_if (ltb (length bs) (checksum_offset + 2)) packet_decode_error
  let received = from_bytes (slice checksum_offset (checksum_offset + 2) bs)
  ok (
      some (record {
        source_uid = source_uid;
        destination_uid = destination_uid;
        transaction_number = byte_at bs 15;
        response_type = response_type;
        message_count = byte_at bs 17;
        sub_device = from_bytes (slice 18 20 bs);
        command_class = command_class;
        pid = from_bytes (slice 21 23 bs);
        payload = slice 24 (24 + byte_at bs 23) bs;
        checksum_valid = received == calculate_checksum (take checksum_offset bs);
      }))

-- `none` where the source returns None: not a valid RDM response.
unfoldable pub decode_rdm_response : Bytes → Result (Option RdmResponse)
unfolding parse_response as_decode_error
decode_rdm_response bs =
    if ltb (length bs) 26
    then ok none
    else if not (byte_at bs 0 == start_code_rdm)
    then ok none
    else if not (byte_at bs 1 == 0x01)
    then ok none
    else as_decode_error (parse_response bs)
