-- ===== src/Transport/FrameBuffer/Streams.antt =====
-- What an adapter promises about its messages, and what the frame buffer makes of a stream of them
-- (transport/frame_buffer.py, transport/interface_adapter.py).
use rdm_dmx_async.Base.{
  ℕ, zero, suc, ◌≤◌, ◌<◌, ◌≡◌, refl, ap, some, none, length, [], ◌∷◌, ◌++◌, List, map, arith,
  length-append, ge→ltb, lt→ltb, All, drop-append_prefix,
}
use rdm_dmx_async.Base.Words.{Bytes}
use rdm_dmx_async.Transport.Adapter.{InterfaceAdapter}
use rdm_dmx_async.Transport.FrameBuffer.{FrameBuffer, extract_frame, collect, extract_all_frames}

-- `message` is a whole message that carries `payload`: the adapter finds its end and its payload,
-- whatever follows it in the stream.
pub record Delimits (adapter : InterfaceAdapter) (message payload : Bytes) : Type 0 where
  pub long : 5 ≤ length message
  pub found : (rest : Bytes) → adapter.find_frame_length (message ++ rest) ≡ length message
  pub parsed : (rest : Bytes) → adapter.parse_rdm_response (message ++ rest) ≡ some payload

-- Messages with their payloads, one after the other, and then `rest`.
abbrev pub stream : List (Bytes × Bytes) → Bytes → Bytes
stream [] rest = rest
stream ((message, payload) ∷ ms) rest = message ++ stream ms rest

module _ (adapter : InterfaceAdapter) where
  abbrev pub AllDelimit : List (Bytes × Bytes) → Type 0
  AllDelimit ms = All (λ m. Delimits adapter m.0 m.1) ms

  pub extract_frame-message :
      (message payload rest : Bytes) (s : FrameBuffer)
      → Delimits adapter message payload
      → s.buffer ≡ message ++ rest
      → extract_frame adapter s ≡ (some payload, record s { buffer = rest; stalled_length = none })
  unfolding extract_frame
  extract_frame-message message payload rest s d e =
      let enough : 5 ≤ length (message ++ rest) =
        omega (arith, d.long, length-append message rest) in
      simp (
        e,
        ge→ltb (length (message ++ rest)) 5 enough,
        d.found rest,
        lt→ltb 0 (length message) (omega (arith, d.long)),
        d.parsed rest,
        drop-append_prefix (length message) message rest refl,
      )

  extract_all-messages :
      (ms : List (Bytes × Bytes)) (rest : Bytes) (rounds : ℕ) (s : FrameBuffer)
      → AllDelimit ms
      → length rest < 5
      → length ms ≤ rounds
      → s.buffer ≡ stream ms rest
      → ((extract_all_frames adapter rounds s).0 ≡ map (λ m. m.1) ms)
        × ((extract_all_frames adapter rounds s).1.buffer ≡ rest)
  unfolding extract_all_frames collect
  extract_all-messages [] rest zero s d short enough e = (refl, e)
  extract_all-messages [] rest (suc rounds) s d short enough e =
      simp (ap (λ (b : Bytes). length b) e, lt→ltb (length rest) 5 short) (refl, e)
  extract_all-messages (m ∷ ms) rest zero s d short enough e = absurd (omega arith)
  extract_all-messages ((message, payload) ∷ ms) rest (suc rounds) s d short enough e =
      let longer : 5 ≤ length s.buffer =
        omega (
          arith,
          d.0.long,
          ap (λ (b : Bytes). length b) e,
          length-append message (stream ms rest),
        ) in
      let later =
        extract_all-messages ms rest rounds
          (record s { buffer = stream ms rest; stalled_length = none }) d.1 short (omega arith)
          refl in
      rw
        (
          ge→ltb (length s.buffer) 5 longer,
          extract_frame-message message payload (stream ms rest) s d.0 e,
        )
        (ap (λ (frames : List Bytes). payload ∷ frames) later.0, later.1)

-- A buffer of at most `rounds` messages, each of which the adapter delimits, with fewer than five
-- bytes behind the last one, is extracted message by message, in order, and those bytes stay in the
-- buffer.
pub extract_all_frames-stream :
    (adapter : InterfaceAdapter) (ms : List (Bytes × Bytes)) (rest : Bytes) (rounds : ℕ)
    (s : FrameBuffer)
    → AllDelimit adapter ms
    → length rest < 5
    → length ms ≤ rounds
    → s.buffer ≡ stream ms rest
    → ((extract_all_frames adapter rounds s).0 ≡ map (λ m. m.1) ms)
      × ((extract_all_frames adapter rounds s).1.buffer ≡ rest)
extract_all_frames-stream adapter = extract_all-messages adapter
