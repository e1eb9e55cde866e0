-- ===== src/Transport/FrameBuffer.antt =====
-- rdm_dmx_async/transport/frame_buffer.py. The adapter is a parameter; logging is left out.
pub mod Progress
pub mod Streams
pub mod Resync
use rdm_dmx_async.Base.{
  ℕ, zero, suc, ◌+◌, Option, none, some, Bool, false, ltb, leb, ◌==◌, if◌then◌else◌, length, drop,
  [], ◌∷◌, ◌++◌, List,
}
use rdm_dmx_async.Base.Words.{Bytes}
use rdm_dmx_async.Transport.Adapter.{InterfaceAdapter}

pub record FrameBuffer : Type 0 where
  pub buffer : Bytes
  pub max_size : ℕ
  pub stalled_length : Option ℕ

unfoldable pub append : Bytes → FrameBuffer → FrameBuffer
append bs s = record s { buffer = s.buffer ++ bs }

-- `_handle_overflow`: one byte at most
unfoldable pub handle_overflow : FrameBuffer → FrameBuffer
handle_overflow s =
    if ltb s.max_size (length s.buffer) then record s { buffer = drop 1 s.buffer } else s

-- `len(self._buffer) == self._stalled_length`
unfoldable pub is_stalled_at : ℕ → Option ℕ → Bool
is_stalled_at n none = false
is_stalled_at n (some m) = n == m

-- `self._buffer and len(self._buffer) == self._stalled_length`; an empty buffer has nothing to pop
unfoldable pub pop_if_stalled : FrameBuffer → FrameBuffer
unfolding is_stalled_at
pop_if_stalled s =
    if is_stalled_at (length s.buffer) s.stalled_length
    then record s { buffer = drop 1 s.buffer }
    else s

unfoldable pub record_length : FrameBuffer → FrameBuffer
record_length s = record s { stalled_length = some (length s.buffer) }

unfoldable pub advance_stall_tracking : FrameBuffer → FrameBuffer
unfolding pop_if_stalled record_length handle_overflow
advance_stall_tracking s = handle_overflow (record_length (pop_if_stalled s))

unfoldable pub clear : FrameBuffer → FrameBuffer
clear s = record s { buffer = []; stalled_length = none }

module _ (adapter : InterfaceAdapter) where
  -- The loop of `_find_resync_offset` at an offset, over the bytes from there on.
  unfoldable pub resync_from : ℕ → Bytes → Option ℕ
  resync_from offset [] = none
  resync_from offset (b ∷ rest) =
      let later = resync_from (suc offset) rest in
      if ltb (length (b ∷ rest)) 5
      then none
      else if ltb 0 (adapter.find_frame_length (b ∷ rest))
      then some offset
      else later

  unfoldable pub find_resync_offset : Bytes → Option ℕ
  find_resync_offset buffer = resync_from 1 (drop 1 buffer)

  -- No frame stands at the front.
  unfoldable pub resync : FrameBuffer → Option ℕ → FrameBuffer
  resync s none = advance_stall_tracking s
  resync s (some offset) = record s { buffer = drop offset s.buffer; stalled_length = none }

  unfoldable pub extract_frame : FrameBuffer → Option Bytes × FrameBuffer
  extract_frame s =
      let frame_len = adapter.find_frame_length s.buffer in
      if ltb (length s.buffer) 5
      then (none, advance_stall_tracking s)
      else if ltb 0 frame_len
      then (
        adapter.parse_rdm_response s.buffer,
        record s { buffer = drop frame_len s.buffer; stalled_length = none },
      )
      else (none, resync s (find_resync_offset s.buffer))

  -- What one round of the loop makes of its frame and of the later rounds.
  unfoldable pub collect :
      FrameBuffer → Option Bytes × FrameBuffer → List Bytes × FrameBuffer → List Bytes × FrameBuffer
  collect s (some frame, s') (frames, last) = (frame ∷ frames, last)
  collect s (none, s') later = if length s'.buffer == length s.buffer then ([], s') else later

  -- `extract_all_frames`, whose bound on the rounds is the source's own.
  unfoldable pub extract_all_frames : ℕ → FrameBuffer → List Bytes × FrameBuffer
  extract_all_frames zero s = ([], s)
  extract_all_frames (suc rounds) s =
      let round = extract_frame s in
      let later = extract_all_frames rounds round.1 in
      if ltb (length s.buffer) 5 then ([], s) else collect s round later
