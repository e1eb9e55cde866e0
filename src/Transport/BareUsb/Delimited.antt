-- ===== src/Transport/BareUsb/Delimited.antt =====
-- Packets on a bare wire delimit themselves (transport/adapters/bare_usb_rs485.py).
use mathlib.Core.List.{append_assoc}
use rdm_dmx_async.Base.{
  ℕ, zero, suc, drop, ◌+◌, ◌≤◌, ◌≡◌, refl, sym, ◌∙◌, ok, length, [], ◌∷◌, ◌++◌, arith,
  length-append, lt→ltb, take-append_prefix, replicate, ok-injective,
}
use rdm_dmx_async.Base.Words.{Bytes, to_bytes, length-to_bytes}
use rdm_dmx_async.Packets.Rdm.{RdmRequest}
use rdm_dmx_async.Packets.Encoder.{
  IsEncodable, encode_rdm_request, encode-eq-header, header, calculate_checksum,
}
use rdm_dmx_async.Protocols.Manchester.Frames.{
  discovery_frame, find-frame, pair_up, length-pair_up, length-frame,
}
use rdm_dmx_async.Transport.BareUsb.{bare_usb_adapter, find_frame_length, parse_rdm_response}
use rdm_dmx_async.Transport.FrameBuffer.Streams.{Delimits}

-- An adapter that returns what it finds: only the length matters.
Delimits-of-find :
    (message : Bytes)
    → 5 ≤ length message
    → ((rest : Bytes) → find_frame_length (message ++ rest) ≡ length message)
    → Delimits bare_usb_adapter message message
unfolding bare_usb_adapter parse_rdm_response
Delimits-of-find message long found = record {
  long = long;
  found = found;
  parsed = λ rest. rw (
    found rest,
    lt→ltb 0 (length message) (omega (arith, long)),
    take-append_prefix (length message) message rest refl,
  );
}

find-standard :
    (sub_start message_len : ℕ) (more : Bytes)
    → message_len + 2 ≤ 3 + length more
    → find_frame_length (0xCC ∷ sub_start ∷ message_len ∷ more) ≡ message_len + 2
unfolding find_frame_length
find-standard sub_start message_len more h = ground arith

module _ (r : RdmRequest) (checksum rest : Bytes) (two : length checksum ≡ 2) where
  abbrev packet : Bytes
  packet = (header r ++ r.payload) ++ checksum

  length-packet : length packet ≡ 26 + length r.payload
  unfolding to_bytes
  length-packet = omega (arith, length-append r.payload checksum)

  find-packet : find_frame_length (packet ++ rest) ≡ 26 + length r.payload
  unfolding to_bytes
  find-packet =
      find-standard 0x01 (24 + length r.payload) (drop 3 (packet ++ rest)) (
        omega (arith, length-append (r.payload ++ checksum) rest, length-append r.payload checksum))
      ∙ omega arith

-- An encoded packet delimits itself on the wire.
pub packet-Delimits :
    (r : RdmRequest) (p : Bytes)
    → IsEncodable r
    → encode_rdm_request r ≡ ok p
    → Delimits bare_usb_adapter p p
packet-Delimits r p enc e =
    let checksum = to_bytes 2 (calculate_checksum (header r ++ r.payload)) in
    let two = length-to_bytes 2 (calculate_checksum (header r ++ r.payload)) in
    let written : p ≡ packet r checksum [] two = ok-injective (sym e ∙ encode-eq-header r enc) in
    rw written (
      Delimits-of-find (packet r checksum [] two) (omega (arith, length-packet r checksum [] two))
        (λ rest. find-packet r checksum rest two ∙ sym (length-packet r checksum [] two)))

find-discovery :
    (preamble : ℕ) (body : Bytes)
    → 1 ≤ preamble
    → preamble ≤ 7
    → 16 ≤ length body
    → find_frame_length (replicate preamble 0xFE ++ (0xAA ∷ body)) ≡ preamble + 1 + 16
unfolding find_frame_length
find-discovery zero body some_bytes few full = absurd (omega arith)
find-discovery (suc n) body some_bytes few full = find-frame (suc n) body some_bytes few full

-- So does a discovery response.
pub discovery-Delimits :
    (preamble : ℕ) (uid checksum : Bytes)
    → 1 ≤ preamble
    → preamble ≤ 7
    → length uid ≡ 6
    → length checksum ≡ 2
    → Delimits bare_usb_adapter
        (discovery_frame preamble uid checksum)
        (discovery_frame preamble uid checksum)
discovery-Delimits preamble uid checksum some_bytes few six two =
    let body = pair_up (uid ++ checksum) in
    let full : length body ≡ 16 =
      omega (arith, length-pair_up (uid ++ checksum), length-append uid checksum) in
    let long : length (discovery_frame preamble uid checksum) ≡ preamble + 1 + 16 =
      length-frame preamble uid checksum some_bytes few six two in
    Delimits-of-find (discovery_frame preamble uid checksum) (omega (arith, long)) (λ rest.
      rw (append_assoc (replicate preamble 0xFE) (0xAA ∷ body) rest) (
        find-discovery preamble (body ++ rest) some_bytes few
          (omega (arith, full, length-append body rest))
        ∙ sym long))
