-- ===== src/Transport/Enttec/Framing.antt =====
-- What the Enttec adapter writes, read back (transport/adapters/enttec.py).
use rdm_dmx_async.Base.{
  ℕ, ◌+◌, ◌-◌, ◌/◌, ◌%◌, ◌^◌, ◌≤◌, ◌<◌, ◌≡◌, ◌⊎◌, refl, ap, sym, ◌∙◌, some, ok, err, value_error,
  length, get_or, [], ◌∷◌, ◌++◌, arith, ge→ltb, le→leb, length-append, take-append_prefix,
}
use rdm_dmx_async.Base.Words.{Bytes}
use mathlib.Core.List.{append_assoc}
use rdm_dmx_async.Transport.FrameBuffer.Streams.{Delimits}
use rdm_dmx_async.Transport.Enttec.{
  enttec_adapter, EnttecMessageType, received_dmx_packet, output_only_send_dmx, label,
  start_of_message, end_of_message, frame_message, data_length, received_payload,
  parse_rdm_response, frame_dmx_output, find_frame_length,
}

-- A message as it stands in a stream, with what follows it.
abbrev pub message_then : EnttecMessageType → Bytes → Bytes → Bytes
message_then t payload rest =
    start_of_message
    ∷ label t
    ∷ (length payload % 2 ^ 8)
    ∷ (length payload / 2 ^ 8 % 2 ^ 8)
    ∷ (payload ++ (end_of_message ∷ rest))

pub frame_message_ok :
    (t : EnttecMessageType) (payload : Bytes)
    → length payload ≤ 600
    → frame_message t payload ≡ ok (message_then t payload [])
unfolding frame_message
frame_message_ok t payload h = rw (ge→ltb 600 (length payload) h)

get_or-end :
    (xs : Bytes) (b : ℕ) (ys : Bytes) (i : ℕ) → length xs ≡ i → get_or (xs ++ (b ∷ ys)) i 0 ≡ b
get_or-end [] b ys i e = let first : i ≡ 0 = omega arith in rw first
get_or-end (x ∷ xs) b ys Prim.Native.Nat.zero e = absurd (omega arith)
get_or-end (x ∷ xs) b ys (Prim.Native.Nat.suc i) e = get_or-end xs b ys i (omega arith)

module _ (t : EnttecMessageType) (payload rest : Bytes) (fits : length payload ≤ 600) where
  data_length-message : data_length (message_then t payload rest) ≡ length payload
  unfolding data_length
  data_length-message = omega (arith, fits)

  length-message : length (message_then t payload rest) ≡ 5 + length payload + length rest
  length-message = omega (arith, length-append payload (end_of_message ∷ rest))

  end_position : 5 + length payload - 1 ≡ 4 + length payload
  end_position = omega arith

  end-message : get_or (message_then t payload rest) (5 + length payload - 1) 0 ≡ end_of_message
  end-message =
      get_or-end
        (start_of_message
          ∷ label t
          ∷ (length payload % 2 ^ 8)
          ∷ (length payload / 2 ^ 8 % 2 ^ 8)
          ∷ payload)
        end_of_message rest (5 + length payload - 1) (omega arith)

  fits_stream : 5 + length payload ≤ length (message_then t payload rest)
  fits_stream = omega (arith, length-message)

  -- At the front of a stream that begins with a message, the adapter finds that message.
  pub find-message : find_frame_length (message_then t payload rest) ≡ 5 + length payload
  unfolding find_frame_length
  find-message = rw (
    ge→ltb (length (message_then t payload rest)) 5 (omega (arith, fits_stream)),
    data_length-message,
    le→leb (5 + length payload) (length (message_then t payload rest)) fits_stream,
    end-message,
  )

  parse-message :
      parse_rdm_response (message_then t payload rest) ≡ received_payload (label t) payload
  unfolding parse_rdm_response
  parse-message = rw (
    ge→ltb (length (message_then t payload rest)) 5 (omega (arith, fits_stream)),
    data_length-message,
    ge→ltb (length (message_then t payload rest)) (5 + length payload) fits_stream,
    end-message,
    sub_four,
    take-append_prefix (length payload) payload (end_of_message ∷ rest) refl,
  )
    where
      sub_four : 4 + length payload - 4 ≡ length payload
      sub_four = omega arith

-- A received packet that the widget frames with a status byte is found at the front of a stream,
-- whatever follows, and is parsed to the packet without the status.
pub received-message :
    (status : ℕ) (packet rest : Bytes)
    → 1 ≤ length packet
    → length packet ≤ 599
    → (frame_message received_dmx_packet (status ∷ packet)
        ≡ ok (message_then received_dmx_packet (status ∷ packet) []))
      × (find_frame_length (message_then received_dmx_packet (status ∷ packet) rest)
          ≡ 6 + length packet)
      × (parse_rdm_response (message_then received_dmx_packet (status ∷ packet) rest) ≡ some packet)
received-message status packet rest some_data fits = (
  frame_message_ok received_dmx_packet (status ∷ packet) (omega arith),
  omega (arith, find-message received_dmx_packet (status ∷ packet) rest (omega arith)),
  parse-message received_dmx_packet (status ∷ packet) rest (omega arith) ∙ received,
)
  where
    received : received_payload (label received_dmx_packet) (status ∷ packet) ≡ some packet
    received = unfold received_payload in ground arith

-- DMX output is framed exactly for 1 to 512 slots; the frame is then 6 bytes longer.
pub frame_dmx_output_lem :
    (dmx_data : Bytes)
    → ((1 ≤ length dmx_data) × (length dmx_data ≤ 512)
        → frame_dmx_output dmx_data ≡ ok (message_then output_only_send_dmx (0x00 ∷ dmx_data) []))
      × ((length dmx_data < 1) ⊎ (512 < length dmx_data)
          → frame_dmx_output dmx_data ≡ err value_error)
unfolding frame_dmx_output
frame_dmx_output_lem dmx_data = (
  λ h.
      rw (ge→ltb (length dmx_data) 1 h.0, ge→ltb 512 (length dmx_data) h.1)
        (frame_message_ok output_only_send_dmx (0x00 ∷ dmx_data) (omega arith)),
  λ h. ground arith,
)

-- A received packet in the widget's framing delimits itself.
pub received-Delimits :
    (status : ℕ) (packet : Bytes)
    → 1 ≤ length packet
    → length packet ≤ 599
    → Delimits enttec_adapter (message_then received_dmx_packet (status ∷ packet) []) packet
unfolding enttec_adapter
received-Delimits status packet some_data fits =
    let message = message_then received_dmx_packet (status ∷ packet) [] in
    let size : length message ≡ 6 + length packet =
      omega (arith, length-message received_dmx_packet (status ∷ packet) [] (omega arith)) in
    let front : (rest : Bytes)
        → message ++ rest ≡ message_then received_dmx_packet (status ∷ packet) rest =
      λ rest.
        ap
          (λ (more : Bytes).
            start_of_message
            ∷ label received_dmx_packet
            ∷ (length (status ∷ packet) % 2 ^ 8)
            ∷ (length (status ∷ packet) / 2 ^ 8 % 2 ^ 8)
            ∷ more)
          (append_assoc (status ∷ packet) (end_of_message ∷ []) rest) in
    record {
      long = omega (arith, size);
      found = λ rest.
          rw (front rest) ((received-message status packet rest some_data fits).1 ∙ sym size);
      parsed = λ rest. rw (front rest) (received-message status packet rest some_data fits).2;
    }
