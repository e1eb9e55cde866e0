-- ===== src/Packets/RoundTrip.antt =====
-- A packet that the encoder writes, read by the decoder (packets/encoder.py, packets/decoder.py).
use rdm_dmx_async.Base.{
  ℕ, ◌+◌, ◌-◌, ◌≡◌, refl, ◌∙◌, sym, ap, ◌≤◌, ◌==◌, true, some, ok, length, arith, ◌++◌, take, slice,
  length-append, ge→ltb, eq→==, take-append_prefix, take-all, drop-append_prefix,
}
use rdm_dmx_async.Base.Words.{Bytes, to_bytes, from_bytes, from_bytes-to_bytes, length-to_bytes}
use rdm_dmx_async.Packets.Types.{
  ResponseType, response_type_value, response_type_of-value, command_class_of-value,
  command_class_value, start_code_rdm, uid_from_bytes, uid_from_bytes-to_bytes, command_class_of,
  response_type_of,
}
use rdm_dmx_async.Packets.Rdm.{RdmRequest, RdmResponse}
use rdm_dmx_async.Packets.Encoder.{
  IsEncodable, header, encode_rdm_request, encode-eq-header, calculate_checksum,
}
use rdm_dmx_async.Packets.Decoder.{decode_rdm_response, byte_at}
use native.Mathlib.Nat.{le_refl}

-- The response that a packet of `r` reads as: the port address stands where a response has its
-- type.
abbrev pub echo : RdmRequest → ResponseType → RdmResponse
echo r t = record {
  source_uid = r.source_uid;
  destination_uid = r.destination_uid;
  transaction_number = r.transaction_number;
  response_type = t;
  message_count = 0;
  sub_device = r.sub_device;
  command_class = r.command_class;
  pid = r.pid;
  payload = r.payload;
  checksum_valid = true;
}

-- What the decoder reads of a packet, field by field, when it accepts it.
record Reads (bs : Bytes) (x : RdmResponse) : Type 0 where
  start_code : byte_at bs 0 ≡ start_code_rdm
  sub_start_code : byte_at bs 1 ≡ 0x01
  pdl : byte_at bs 23 ≡ length x.payload
  long_enough : 26 + length x.payload ≤ length bs
  destination : uid_from_bytes (slice 3 9 bs) ≡ ok x.destination_uid
  source : uid_from_bytes (slice 9 15 bs) ≡ ok x.source_uid
  transaction : byte_at bs 15 ≡ x.transaction_number
  kind : response_type_of (byte_at bs 16) ≡ ok x.response_type
  count : byte_at bs 17 ≡ x.message_count
  sub_device : from_bytes (slice 18 20 bs) ≡ x.sub_device
  class : command_class_of (byte_at bs 20) ≡ ok x.command_class
  pid : from_bytes (slice 21 23 bs) ≡ x.pid
  payload : slice 24 (24 + length x.payload) bs ≡ x.payload
  checksum :
      (from_bytes (slice (24 + length x.payload) (24 + length x.payload + 2) bs)
        == calculate_checksum (take (24 + length x.payload) bs))
      ≡ x.checksum_valid

decode-Reads : (bs : Bytes) (x : RdmResponse) → Reads bs x → decode_rdm_response bs ≡ ok (some x)
unfolding decode_rdm_response
decode-Reads bs x h = rw (
  ge→ltb (length bs) 26 (omega (arith, h.long_enough)),
  h.start_code,
  h.sub_start_code,
  h.destination,
  h.source,
  h.kind,
  h.class,
  h.pdl,
  ge→ltb (length bs) (24 + length x.payload + 2) (omega (arith, h.long_enough)),
  h.transaction,
  h.count,
  h.sub_device,
  h.pid,
  h.payload,
  h.checksum,
)

module _ (r : RdmRequest) where
  checksum_of : ℕ
  checksum_of = calculate_checksum (header r ++ r.payload)

  abbrev packet_of : Bytes
  packet_of = (header r ++ r.payload) ++ to_bytes 2 checksum_of

  length-body : length (header r ++ r.payload) ≡ 24 + length r.payload
  unfolding to_bytes
  length-body = omega arith

  length-packet_of : length packet_of ≡ 26 + length r.payload
  length-packet_of = omega (
    arith,
    length-append (header r ++ r.payload) (to_bytes 2 checksum_of),
    length-to_bytes 2 checksum_of,
    length-body,
  )

  two_left : 24 + length r.payload + 2 - (24 + length r.payload) ≡ 2
  two_left = omega arith

  checksum-slice :
      from_bytes (slice (24 + length r.payload) (24 + length r.payload + 2) packet_of) ≡ checksum_of
  unfolding checksum_of calculate_checksum
  checksum-slice =
      rw
        (
          two_left,
          drop-append_prefix (24 + length r.payload) (header r ++ r.payload)
              (to_bytes 2 checksum_of) length-body,
          take-all 2 (to_bytes 2 checksum_of) (omega (arith, length-to_bytes 2 checksum_of)),
        )
        (from_bytes-to_bytes 2 checksum_of (omega arith))

  checked_body : take (24 + length r.payload) packet_of ≡ header r ++ r.payload
  checked_body =
      take-append_prefix (24 + length r.payload) (header r ++ r.payload) (to_bytes 2 checksum_of)
        length-body

  payload_left : 24 + length r.payload - 24 ≡ length r.payload
  payload_left = omega arith

  payload-slice : slice 24 (24 + length r.payload) packet_of ≡ r.payload
  unfolding to_bytes
  payload-slice =
      rw payload_left
        (take-append_prefix (length r.payload) r.payload (to_bytes 2 checksum_of) refl)

  destination-slice : slice 3 9 packet_of ≡ to_bytes 6 r.destination_uid
  unfolding to_bytes
  destination-slice = refl

  source-slice : slice 9 15 packet_of ≡ to_bytes 6 r.source_uid
  unfolding to_bytes
  source-slice = refl

  sub_device-slice : slice 18 20 packet_of ≡ to_bytes 2 r.sub_device
  unfolding to_bytes
  sub_device-slice = refl

  pid-slice : slice 21 23 packet_of ≡ to_bytes 2 r.pid
  unfolding to_bytes
  pid-slice = refl

  single_bytes :
      (byte_at packet_of 0 ≡ start_code_rdm)
      × (byte_at packet_of 1 ≡ 0x01)
      × (byte_at packet_of 15 ≡ r.transaction_number)
      × (byte_at packet_of 16 ≡ r.port_address)
      × (byte_at packet_of 17 ≡ 0)
      × (byte_at packet_of 20 ≡ command_class_value r.command_class)
      × (byte_at packet_of 23 ≡ length r.payload)
  unfolding to_bytes
  single_bytes = (refl, refl, refl, refl, refl, refl, refl)

  checksum_agrees :
      from_bytes (slice (24 + length r.payload) (24 + length r.payload + 2) packet_of)
      ≡ calculate_checksum (take (24 + length r.payload) packet_of)
  unfolding checksum_of
  checksum_agrees = checksum-slice ∙ sym (ap calculate_checksum checked_body)

  module _ (enc : IsEncodable r) (t : ResponseType)
      (typed : r.port_address ≡ response_type_value t) where
    packet_of-Reads : Reads packet_of (echo r t)
    packet_of-Reads = record {
      start_code = single_bytes.0;
      sub_start_code = single_bytes.1;
      pdl = single_bytes.6;
      long_enough = rw length-packet_of (le_refl _);
      destination =
          rw destination-slice (uid_from_bytes-to_bytes r.destination_uid enc.destination_fits);
      source = rw source-slice (uid_from_bytes-to_bytes r.source_uid enc.source_fits);
      transaction = single_bytes.2;
      kind = ap response_type_of (single_bytes.3 ∙ typed) ∙ response_type_of-value t;
      count = single_bytes.4;
      sub_device =
          ap from_bytes sub_device-slice
          ∙ from_bytes-to_bytes 2 r.sub_device (omega (arith, enc.constructed.sub_device_fits));
      class = ap command_class_of single_bytes.5 ∙ command_class_of-value r.command_class;
      pid = ap from_bytes pid-slice ∙ from_bytes-to_bytes 2 r.pid (omega (arith, enc.pid_fits));
      payload = payload-slice;
      checksum = eq→== _ _ checksum_agrees;
    }

-- A request that can be encoded, whose port address is the code of a response type, is encoded
-- without an error, and the decoder reads the packet back: every field, and a valid checksum.
pub decode-encode :
    (r : RdmRequest) (t : ResponseType)
    → IsEncodable r
    → r.port_address ≡ response_type_value t
    → (p : Bytes) × (encode_rdm_request r ≡ ok p) × (decode_rdm_response p ≡ ok (some (echo r t)))
decode-encode r t enc typed = (
  packet_of r,
  unfold checksum_of in encode-eq-header r enc,
  decode-Reads (packet_of r) (echo r t) (packet_of-Reads r enc t typed),
)

-- An encodable request is encoded, in 26 bytes more than its parameter data.
pub encode_total :
    (r : RdmRequest)
    → IsEncodable r
    → (p : Bytes) × (encode_rdm_request r ≡ ok p) × (length p ≡ 26 + length r.payload)
encode_total r enc = (packet_of r, unfold checksum_of in encode-eq-header r enc, length-packet_of r)
