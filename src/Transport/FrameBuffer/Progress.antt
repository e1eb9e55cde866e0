-- ===== src/Transport/FrameBuffer/Progress.antt =====
-- The frame buffer only ever drops bytes from its front, and never gets stuck
-- (transport/frame_buffer.py).
use mathlib.Core.List.{append_assoc}
use rdm_dmx_async.Base.{
  ℕ, zero, suc, ◌≤◌, ◌<◌, ◌≡◌, refl, sym, ◌∙◌, ap, ◌⊎◌, inl, inr, Option, none, some, true, false,
  Bool, Bool-cases, ltb, ◌==◌, if◌then◌else◌, length, take, drop, [], ◌∷◌, ◌++◌, List, arith,
  length-drop, length-append, take-append-drop,
}
use rdm_dmx_async.Base.Words.{Bytes}
use rdm_dmx_async.Transport.Adapter.{InterfaceAdapter}
use rdm_dmx_async.Transport.FrameBuffer.{
  FrameBuffer, advance_stall_tracking, pop_if_stalled, record_length, handle_overflow, resync_from,
  find_resync_offset, resync, extract_frame, collect, extract_all_frames,
}

-- `s` holds the bytes of `t` but some that were dropped from the front.
pub record IsRestOf (s t : FrameBuffer) : Type 0 where
  pub dropped : Bytes
  pub rest : t.buffer ≡ dropped ++ s.buffer

IsRestOf-refl : (s : FrameBuffer) → IsRestOf s s
IsRestOf-refl s = record { dropped = []; rest = refl }

IsRestOf-trans : {s t u : FrameBuffer} → IsRestOf s t → IsRestOf t u → IsRestOf s u
IsRestOf-trans {s} p q = record {
  dropped = q.dropped ++ p.dropped;
  rest =
      q.rest
      ∙ ap (λ (b : Bytes). q.dropped ++ b) p.rest
      ∙ sym (append_assoc q.dropped p.dropped s.buffer);
}

IsRestOf-drop : (n : ℕ) (s t : FrameBuffer) → s.buffer ≡ drop n t.buffer → IsRestOf s t
IsRestOf-drop n s t e = record {
  dropped = take n t.buffer;
  rest = sym (ap (λ (b : Bytes). take n t.buffer ++ b) e ∙ take-append-drop n t.buffer);
}

IsRestOf-if :
    (test : Bool) (s s' t : FrameBuffer)
    → IsRestOf s t
    → IsRestOf s' t
    → IsRestOf (if test then s else s') t
IsRestOf-if true s s' t p q = p
IsRestOf-if false s s' t p q = q

pop-IsRestOf : (s : FrameBuffer) → IsRestOf (pop_if_stalled s) s
unfolding pop_if_stalled
pop-IsRestOf s = IsRestOf-if _ _ _ s (IsRestOf-drop 1 _ s refl) (IsRestOf-refl s)

overflow-IsRestOf : (s : FrameBuffer) → IsRestOf (handle_overflow s) s
unfolding handle_overflow
overflow-IsRestOf s = IsRestOf-if _ _ _ s (IsRestOf-drop 1 _ s refl) (IsRestOf-refl s)

record-IsRestOf : (s : FrameBuffer) → IsRestOf (record_length s) s
unfolding record_length
record-IsRestOf s = record { dropped = []; rest = refl }

advance-IsRestOf : (s : FrameBuffer) → IsRestOf (advance_stall_tracking s) s
unfolding advance_stall_tracking
advance-IsRestOf s =
    IsRestOf-trans (overflow-IsRestOf (record_length (pop_if_stalled s)))
      (IsRestOf-trans (record-IsRestOf (pop_if_stalled s)) (pop-IsRestOf s))

IsRestOf-branch :
    (test : Bool) (a b : List Bytes × FrameBuffer) (t : FrameBuffer)
    → IsRestOf a.1 t
    → IsRestOf b.1 t
    → IsRestOf (if test then a else b).1 t
IsRestOf-branch true a b t p q = p
IsRestOf-branch false a b t p q = q

-- What a look at a buffer without a frame does to its length.
advance_stalled :
    (s : FrameBuffer)
    → 0 < length s.buffer
    → s.stalled_length ≡ some (length s.buffer)
    → length (advance_stall_tracking s).buffer < length s.buffer
unfolding advance_stall_tracking
advance_stalled s h e = ground (arith, length-drop 1 s.buffer, length-drop 1 (drop 1 s.buffer))

advance_waits :
    (s : FrameBuffer)
    → 0 < length s.buffer
    → (length (advance_stall_tracking s).buffer < length s.buffer)
      ⊎ (((advance_stall_tracking s).buffer ≡ s.buffer)
          × ((advance_stall_tracking s).stalled_length ≡ some (length s.buffer)))
unfolding advance_stall_tracking
advance_waits s h = ground (arith, length-drop 1 s.buffer, length-drop 1 (drop 1 s.buffer))

module _ (adapter : InterfaceAdapter) where
  resync-IsRestOf : (s : FrameBuffer) (o : Option ℕ) → IsRestOf (resync adapter s o) s
  unfolding resync
  resync-IsRestOf s none = advance-IsRestOf s
  resync-IsRestOf s (some offset) = IsRestOf-drop offset _ s refl

  pub extract_frame-IsRestOf : (s : FrameBuffer) → IsRestOf (extract_frame adapter s).1 s
  unfolding extract_frame
  extract_frame-IsRestOf s = elim (Bool-cases (ltb (length s.buffer) 5)) [
    | inl short ↦ rw short (advance-IsRestOf s)
    | inr long ↦ elim (Bool-cases (ltb 0 (adapter.find_frame_length s.buffer))) [
      | inl found ↦ rw (long, found) (IsRestOf-drop (adapter.find_frame_length s.buffer) _ s refl)
      | inr missing ↦ rw (long, missing) (resync-IsRestOf s (find_resync_offset adapter s.buffer))
    ]
  ]

  collect-IsRestOf :
      (s s' : FrameBuffer) (frame : Option Bytes) (later : List Bytes × FrameBuffer)
      → IsRestOf s' s
      → IsRestOf later.1 s'
      → IsRestOf (collect adapter s (frame, s') later).1 s
  unfolding collect
  collect-IsRestOf s s' (some frame) later p q = IsRestOf-trans q p
  collect-IsRestOf s s' none later p q =
      IsRestOf-branch (length s'.buffer == length s.buffer) ([], s') later s p (IsRestOf-trans q p)

  -- However many rounds are run, what is left in the buffer is what was there less a prefix: no
  -- byte is added, changed or moved.
  pub extract_all_frames-IsRestOf :
      (rounds : ℕ) (s : FrameBuffer) → IsRestOf (extract_all_frames adapter rounds s).1 s
  unfolding extract_all_frames
  extract_all_frames-IsRestOf zero s = IsRestOf-refl s
  extract_all_frames-IsRestOf (suc rounds) s =
      IsRestOf-branch (ltb (length s.buffer) 5) ([], s) _ s (IsRestOf-refl s)
        (collect-IsRestOf s (extract_frame adapter s).1 (extract_frame adapter s).0
          (extract_all_frames adapter rounds (extract_frame adapter s).1) (extract_frame-IsRestOf s)
          (extract_all_frames-IsRestOf rounds (extract_frame adapter s).1))

  resync_from-le :
      (offset : ℕ) (bs : Bytes) (found : ℕ)
      → resync_from adapter offset bs ≡ some found
      → offset ≤ found
  unfolding resync_from
  resync_from-le offset [] found h = cc
  resync_from-le offset (b ∷ rest) found h = ground (arith, resync_from-le (suc offset) rest found)

  find_resync_offset_pos :
      (bs : Bytes) (found : ℕ) → find_resync_offset adapter bs ≡ some found → 1 ≤ found
  unfolding find_resync_offset
  find_resync_offset_pos bs found h = resync_from-le 1 (drop 1 bs) found h

  resync_stalled :
      (s : FrameBuffer) (o : Option ℕ)
      → ((k : ℕ) → o ≡ some k → 1 ≤ k)
      → 0 < length s.buffer
      → s.stalled_length ≡ some (length s.buffer)
      → length (resync adapter s o).buffer < length s.buffer
  unfolding resync
  resync_stalled s none pos h e = advance_stalled s h e
  resync_stalled s (some k) pos h e = ground (arith, pos k refl, length-drop k s.buffer)

  resync_waits :
      (s : FrameBuffer) (o : Option ℕ)
      → ((k : ℕ) → o ≡ some k → 1 ≤ k)
      → 0 < length s.buffer
      → (length (resync adapter s o).buffer < length s.buffer)
        ⊎ (((resync adapter s o).buffer ≡ s.buffer)
            × ((resync adapter s o).stalled_length ≡ some (length s.buffer)))
  unfolding resync
  resync_waits s none pos h = advance_waits s h
  resync_waits s (some k) pos h = inl (ground (arith, pos k refl, length-drop k s.buffer))

  drop_found :
      (s : FrameBuffer)
      → ltb 0 (adapter.find_frame_length s.buffer) ≡ true
      → 0 < length s.buffer
      → length (drop (adapter.find_frame_length s.buffer) s.buffer) < length s.buffer
  drop_found s found h = ground (arith, length-drop (adapter.find_frame_length s.buffer) s.buffer)

  -- A buffer that has not grown since the last look loses a byte or a frame.
  extract_stalled :
      (s : FrameBuffer)
      → 0 < length s.buffer
      → s.stalled_length ≡ some (length s.buffer)
      → length (extract_frame adapter s).1.buffer < length s.buffer
  unfolding extract_frame
  extract_stalled s h e = elim (Bool-cases (ltb (length s.buffer) 5)) [
    | inl short ↦ rw short (advance_stalled s h e)
    | inr long ↦ elim (Bool-cases (ltb 0 (adapter.find_frame_length s.buffer))) [
      | inl found ↦ rw (long, found) (drop_found s found h)
      | inr missing ↦
          rw (long, missing)
            (resync_stalled s (find_resync_offset adapter s.buffer)
              (find_resync_offset_pos s.buffer) h e)
    ]
  ]

  extract_waits :
      (s : FrameBuffer)
      → 0 < length s.buffer
      → (length (extract_frame adapter s).1.buffer < length s.buffer)
        ⊎ (((extract_frame adapter s).1.buffer ≡ s.buffer)
            × ((extract_frame adapter s).1.stalled_length ≡ some (length s.buffer)))
  unfolding extract_frame
  extract_waits s h = elim (Bool-cases (ltb (length s.buffer) 5)) [
    | inl short ↦ rw short (advance_waits s h)
    | inr long ↦ elim (Bool-cases (ltb 0 (adapter.find_frame_length s.buffer))) [
      | inl found ↦ rw (long, found) (inl (drop_found s found h))
      | inr missing ↦
          rw (long, missing)
            (resync_waits s (find_resync_offset adapter s.buffer) (find_resync_offset_pos s.buffer)
              h)
    ]
  ]

  again_shorter :
      (s s' : FrameBuffer)
      → (s'.buffer ≡ s.buffer) × (s'.stalled_length ≡ some (length s.buffer))
      → 0 < length s.buffer
      → length (extract_frame adapter s').1.buffer < length s.buffer
  again_shorter s s' same h =
      let same_length : length s'.buffer ≡ length s.buffer = ap (λ (b : Bytes). length b) same.0 in
      omega (
        arith,
        same_length,
        extract_stalled s' (omega arith) (same.1 ∙ ap (λ (n : ℕ). some n) (sym same_length)),
      )

  length-IsRestOf : (s t : FrameBuffer) → IsRestOf s t → length s.buffer ≤ length t.buffer
  length-IsRestOf s t h =
      omega (arith, ap (λ (b : Bytes). length b) h.rest, length-append h.dropped s.buffer)

  -- Two looks at a buffer that gets no new bytes make it shorter, whatever it holds: garbage is
  -- never waited on forever.
  pub extract_frame_twice :
      (s : FrameBuffer)
      → 0 < length s.buffer
      → length (extract_frame adapter (extract_frame adapter s).1).1.buffer < length s.buffer
  extract_frame_twice s h = elim (extract_waits s h) [
    | inl shorter ↦
        omega
          (arith, shorter, length-IsRestOf _ _ (extract_frame-IsRestOf (extract_frame adapter s).1))
    | inr same ↦ again_shorter s (extract_frame adapter s).1 same h
  ]
