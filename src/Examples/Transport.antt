-- ===== src/Examples/Transport.antt =====
-- Streams of framed packets, as the two adapters read them.
use rdm_dmx_async.Base.{
  ℕ, ◌+◌, ◌≡◌, ◌<◌, refl, none, some, ok, [], ◌∷◌, List, length, arith, ◌==◌, if◌then◌else◌,
}
use rdm_dmx_async.Base.Words.{Bytes}
use rdm_dmx_async.Packets.RoundTrip.{encode_total}
use rdm_dmx_async.Transport.Enttec.{
  received_dmx_packet, frame_message, is_unprogrammed, find_frame_length, parse_rdm_response,
  enttec_adapter,
}
use rdm_dmx_async.Transport.Enttec.Framing.{message_then, received-message, received-Delimits}
use rdm_dmx_async.Transport.FrameBuffer.{FrameBuffer, extract_frame, extract_all_frames}
use rdm_dmx_async.Transport.FrameBuffer.Progress.{extract_frame_twice}
use rdm_dmx_async.Transport.FrameBuffer.Streams.{Delimits, stream, extract_all_frames-stream}
use rdm_dmx_async.Transport.FrameBuffer.Resync.{extract_frame-garbage}
use rdm_dmx_async.Transport.BareUsb.{bare_usb_adapter}
use rdm_dmx_async.Transport.BareUsb.Delimited.{packet-Delimits}
use rdm_dmx_async.Utils.{Reply, failed, read, get_enttec_serial_uid, attempt_uid}
use rdm_dmx_async.Utils.SerialUid.{serial_message, uid_of, get_enttec_serial_uid_lem}
use rdm_dmx_async.Examples.Packets.{set_address, set_address-IsEncodable}

abbrev message : Bytes → Bytes
message packet = message_then received_dmx_packet (0 ∷ packet) []

abbrev holding : Bytes → FrameBuffer
holding bs = record { buffer = bs; max_size = 4096; stalled_length = none }

received-message_example :
    (frame_message received_dmx_packet (0 ∷ 0xCC ∷ 9 ∷ []) ≡ ok (message (0xCC ∷ 9 ∷ [])))
    × (find_frame_length (message_then received_dmx_packet (0 ∷ 0xCC ∷ 9 ∷ []) (8 ∷ [])) ≡ 6 + 2)
    × (parse_rdm_response (message_then received_dmx_packet (0 ∷ 0xCC ∷ 9 ∷ []) (8 ∷ []))
        ≡ some (0xCC ∷ 9 ∷ []))
received-message_example = received-message 0 (0xCC ∷ 9 ∷ []) (8 ∷ []) (omega arith) (omega arith)

abbrev packet : Bytes
packet = (encode_total set_address set_address-IsEncodable).0

packet-Delimits_example : Delimits bare_usb_adapter packet packet
packet-Delimits_example =
    packet-Delimits set_address packet set_address-IsEncodable
      (encode_total set_address set_address-IsEncodable).1

-- Two messages, and the first two bytes of a third.
abbrev two_messages : List (Bytes × Bytes)
two_messages = (message (7 ∷ []), 7 ∷ []) ∷ (message (8 ∷ 9 ∷ []), 8 ∷ 9 ∷ []) ∷ []

extract_all_frames-stream_example :
    ((extract_all_frames enttec_adapter 50 (holding (stream two_messages (0x7E ∷ 5 ∷ [])))).0
      ≡ (7 ∷ []) ∷ (8 ∷ 9 ∷ []) ∷ [])
    × ((extract_all_frames enttec_adapter 50
          (holding (stream two_messages (0x7E ∷ 5 ∷ [])))).1.buffer
        ≡ 0x7E ∷ 5 ∷ [])
extract_all_frames-stream_example =
    extract_all_frames-stream enttec_adapter two_messages (0x7E ∷ 5 ∷ []) 50
      (holding (stream two_messages (0x7E ∷ 5 ∷ [])))
      (
        received-Delimits 0 (7 ∷ []) (omega arith) (omega arith),
        (received-Delimits 0 (8 ∷ 9 ∷ []) (omega arith) (omega arith), tt),
      )
      (omega arith) (omega arith) refl

abbrev garbled : FrameBuffer
garbled = holding (1 ∷ 2 ∷ message (7 ∷ []))

extract_frame_twice_example :
    length (extract_frame enttec_adapter (extract_frame enttec_adapter garbled).1).1.buffer
    < length garbled.buffer
extract_frame_twice_example = extract_frame_twice enttec_adapter garbled (omega arith)

extract_frame-garbage_example :
    ((extract_frame enttec_adapter garbled).0 ≡ none)
    × (extract_frame enttec_adapter (extract_frame enttec_adapter garbled).1
        ≡ (some (7 ∷ []), record garbled { buffer = []; stalled_length = none }))
unfolding find_frame_length enttec_adapter
extract_frame-garbage_example =
    extract_frame-garbage enttec_adapter (message (7 ∷ [])) (7 ∷ []) []
      (received-Delimits 0 (7 ∷ []) (omega arith) (omega arith)) 1 (2 ∷ []) garbled
      (refl, (refl, tt)) refl

-- The first query fails; the second brings the serial number 0x04030201.
abbrev second_reply : ℕ → Reply
second_reply n = if n == 2 then read (serial_message 1 2 3 4) else failed

get_enttec_serial_uid_lem_example : get_enttec_serial_uid second_reply ≡ some (uid_of 1 2 3 4)
unfolding attempt_uid is_unprogrammed
get_enttec_serial_uid_lem_example =
    get_enttec_serial_uid_lem second_reply 1 2 3 4 1 refl (omega arith) (λ k h. ground arith) refl
