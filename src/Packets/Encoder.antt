-- ===== src/Packets/Encoder.antt =====
-- rdm_dmx_async/packets/encoder.py.
use rdm_dmx_async.Base.{
  ℕ, ◌+◌, ◌%◌, ◌^◌, ◌≡◌, ◌≤◌, ◌<◌, ltb, if◌then◌else◌, Result, ok, err, struct_error, byte, byte_ok,
  ◌>>=◌, length, arith, ◌++◌, ◌∷◌, [],
}
use rdm_dmx_async.Base.Words.{Bytes, to_bytes, sum}
use rdm_dmx_async.Packets.Types.{command_class_value, start_code_rdm, uid_to_bytes, uid_to_bytes_ok}
use rdm_dmx_async.Packets.Rdm.{RdmRequest, IsConstructed, message_length}

-- `struct.pack(">H", v)`
unfoldable pub pack_word : ℕ → Result Bytes
pack_word v = if ltb 65535 v then err struct_error else ok (to_bytes 2 v)

pub pack_word_ok : (v : ℕ) → v ≤ 65535 → pack_word v ≡ ok (to_bytes 2 v)
unfolding pack_word
pack_word_ok v h = ground arith

-- `_calculate_checksum`; `& 0xFFFF` is the remainder by 2 ^ 16
unfoldable pub calculate_checksum : Bytes → ℕ
calculate_checksum bs = sum bs % 2 ^ 16

-- The packet before its checksum.
unfoldable pub encode_body : RdmRequest → Result Bytes
encode_body r = do
  message_len ← byte (message_length r)
  destination ← uid_to_bytes r.destination_uid
  source ← uid_to_bytes r.source_uid
  transaction ← byte r.transaction_number
  port ← byte r.port_address
  sub_device ← pack_word r.sub_device
  pid ← pack_word r.pid
  pdl ← byte (length r.payload)
  ok (
      (start_code_rdm ∷ 0x01 ∷ message_len ∷ [])
      ++ (destination
          ++ (source
              ++ ((transaction ∷ port ∷ 0 ∷ [])
                  ++ (sub_device
                      ++ ((command_class_value r.command_class) ∷ (pid ++ (pdl ∷ r.payload))))))))

unfoldable pub encode_rdm_request : RdmRequest → Result Bytes
unfolding calculate_checksum
encode_rdm_request r = do
  packet ← encode_body r
  ok (packet ++ to_bytes 2 (calculate_checksum packet))

-- What the encoder needs of a constructed request.
pub record IsEncodable (r : RdmRequest) : Type 0 where
  pub constructed : IsConstructed r
  pub destination_fits : r.destination_uid < 2 ^ 48
  pub source_fits : r.source_uid < 2 ^ 48
  pub port_fits : r.port_address ≤ 255
  pub pid_fits : r.pid ≤ 65535

-- The 24 bytes in front of the parameter data.
abbrev pub header : RdmRequest → Bytes
unfolding to_bytes
header r =
    (start_code_rdm ∷ 0x01 ∷ (24 + length r.payload) ∷ [])
    ++ (to_bytes 6 r.destination_uid
        ++ (to_bytes 6 r.source_uid
            ++ ((r.transaction_number ∷ r.port_address ∷ 0 ∷ [])
                ++ (to_bytes 2 r.sub_device
                    ++ ((command_class_value r.command_class)
                        ∷ (to_bytes 2 r.pid ++ (length r.payload ∷ [])))))))

pub encode_body-eq-header :
    (r : RdmRequest) → IsEncodable r → encode_body r ≡ ok (header r ++ r.payload)
unfolding encode_body to_bytes message_length header
encode_body-eq-header r h = rw (
  byte_ok (24 + length r.payload) (omega (arith, h.constructed.payload_fits)),
  uid_to_bytes_ok r.destination_uid h.destination_fits,
  uid_to_bytes_ok r.source_uid h.source_fits,
  byte_ok r.transaction_number h.constructed.transaction_fits,
  byte_ok r.port_address h.port_fits,
  pack_word_ok r.sub_device (omega (arith, h.constructed.sub_device_fits)),
  pack_word_ok r.pid h.pid_fits,
  byte_ok (length r.payload) (omega (arith, h.constructed.payload_fits)),
)

pub encode-eq-header :
    (r : RdmRequest)
    → IsEncodable r
    → encode_rdm_request r
      ≡ ok ((header r ++ r.payload) ++ to_bytes 2 (calculate_checksum (header r ++ r.payload)))
unfolding encode_rdm_request
encode-eq-header r h = rw (encode_body-eq-header r h)
