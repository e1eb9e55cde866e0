-- ===== src/Transport/FrameBuffer/Resync.antt =====
-- Garbage in front of a message (transport/frame_buffer.py).
use rdm_dmx_async.Base.{
  ℕ, suc, ◌+◌, ◌≤◌, ◌≡◌, refl, ap, ◌∙◌, none, some, length, [], ◌∷◌, ◌++◌, arith, length-append,
  ge→ltb, drop-append_prefix,
}
use rdm_dmx_async.Base.Words.{Bytes}
use rdm_dmx_async.Transport.Adapter.{InterfaceAdapter}
use rdm_dmx_async.Transport.FrameBuffer.{
  FrameBuffer, resync_from, find_resync_offset, resync, extract_frame,
}
use rdm_dmx_async.Transport.FrameBuffer.Streams.{Delimits, extract_frame-message}

module _ (adapter : InterfaceAdapter) (message payload rest : Bytes)
    (d : Delimits adapter message payload) where
  -- No message begins within `garbage`.
  abbrev pub NoneWithin : Bytes → Type 0
  NoneWithin [] = Unit
  NoneWithin (b ∷ garbage) =
      (adapter.find_frame_length (b ∷ (garbage ++ (message ++ rest))) ≡ 0) × NoneWithin garbage

  abbrev tail_length : ℕ
  tail_length = length (message ++ rest)

  tail_long : 5 ≤ length (message ++ rest)
  tail_long = omega (arith, d.long, length-append message rest)

  resync_from-tail :
      (offset : ℕ) (bs : Bytes) → bs ≡ message ++ rest → resync_from adapter offset bs ≡ some offset
  unfolding resync_from
  resync_from-tail offset [] e = absurd (omega (arith, tail_long, ap (λ (b : Bytes). length b) e))
  resync_from-tail offset (b ∷ bs) e =
      let found : adapter.find_frame_length (b ∷ bs) ≡ length message =
        ap adapter.find_frame_length e ∙ d.found rest in
      let same : suc (length bs) ≡ length (message ++ rest) = ap (λ (x : Bytes). length x) e in
      ground (arith, found, same, tail_long, d.long)

  resync_from-garbage :
      (offset : ℕ) (garbage : Bytes)
      → NoneWithin garbage
      → resync_from adapter offset (garbage ++ (message ++ rest)) ≡ some (offset + length garbage)
  unfolding resync_from
  resync_from-garbage offset [] h =
      resync_from-tail offset (message ++ rest) refl ∙ ap (λ (k : ℕ). some k) (omega arith)
  resync_from-garbage offset (b ∷ garbage) h = ground (
    arith,
    h.0,
    tail_long,
    length-append garbage (message ++ rest),
    resync_from-garbage (suc offset) garbage h.1,
  )

  skip_garbage :
      (b : ℕ) (garbage : Bytes) (s : FrameBuffer)
      → NoneWithin (b ∷ garbage)
      → s.buffer ≡ b ∷ (garbage ++ (message ++ rest))
      → extract_frame adapter s
        ≡ (none, record s { buffer = message ++ rest; stalled_length = none })
  unfolding extract_frame resync find_resync_offset
  skip_garbage b garbage s h e = simp (
    e,
    ge→ltb (suc (length (garbage ++ (message ++ rest)))) 5
        (omega (arith, tail_long, length-append garbage (message ++ rest))),
    h.0,
    resync_from-garbage 1 garbage h.1,
    drop-append_prefix (1 + length garbage) (b ∷ garbage) (message ++ rest) (omega arith),
  )

  -- If no message can be read within the garbage at the front, one look drops exactly the garbage,
  -- and the next one returns the payload of the message behind it.
  pub extract_frame-garbage :
      (b : ℕ) (garbage : Bytes) (s : FrameBuffer)
      → NoneWithin (b ∷ garbage)
      → s.buffer ≡ b ∷ (garbage ++ (message ++ rest))
      → ((extract_frame adapter s).0 ≡ none)
        × (extract_frame adapter (extract_frame adapter s).1
            ≡ (some payload, record s { buffer = rest; stalled_length = none }))
  extract_frame-garbage b garbage s h e = rw (skip_garbage b garbage s h e) (
    refl,
    extract_frame-message adapter message payload rest
        (record s { buffer = message ++ rest; stalled_length = none }) d refl,
  )
