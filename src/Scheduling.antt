-- ===== src/Scheduling.antt =====
-- rdm_dmx_async/scheduling/dmx_scheduler.py. The frame interval is the clock's, and is left out.
pub mod Slots
pub mod Steps
use rdm_dmx_async.Base.{
  ℕ, suc, ◌+◌, ◌-◌, min, Option, none, some, Result, ok, err, value_error, Bool, true, false, not,
  ◌&&◌, leb, if◌then◌else◌, length, take, drop, slice, replicate, ◌++◌,
}
use rdm_dmx_async.Base.Words.{Bytes}

pub record DmxFrameScheduler : Type 0 where
  pub current_frame : Bytes
  pub frame_count : ℕ
  pub running : Bool
  -- The task of `_schedule_loop` exists and has not ended.
  pub loop_alive : Bool
  -- `_rdm_pause_event` is cleared.
  pub rdm_paused : Bool

-- `__init__`
abbrev pub initial : DmxFrameScheduler
initial = record {
  current_frame = replicate 512 0;
  frame_count = 0;
  running = false;
  loop_alive = false;
  rdm_paused = false;
}

unfoldable pub is_address : ℕ → Bool
is_address start_address = leb 1 start_address && leb start_address 512

-- `frame[low : high] = replacement`
abbrev pub assign_slice : ℕ → ℕ → Bytes → Bytes → Bytes
assign_slice low high replacement frame = take low frame ++ (replacement ++ drop high frame)

unfoldable pub set_dmx_data : ℕ → Bytes → DmxFrameScheduler → DmxFrameScheduler × Result (Unit {0})
set_dmx_data start_address dmx_data s =
    let end = min (start_address + length dmx_data) 513 in
    if not (is_address start_address) then (s, err value_error) else (
      record s {
        current_frame =
            assign_slice (start_address - 1) (end - 1) (take (end - start_address) dmx_data)
              s.current_frame;
      },
      ok tt,
    )

unfoldable pub get_dmx_data : ℕ → ℕ → DmxFrameScheduler → Result Bytes
get_dmx_data start_address count s =
    let end = min (start_address + count) 513 in
    if not (is_address start_address)
    then err value_error
    else ok (slice (start_address - 1) (end - 1) s.current_frame)

-- `pause_for_rdm`, up to its sleep
unfoldable pub begin_pause : DmxFrameScheduler → DmxFrameScheduler
begin_pause s = record s { rdm_paused = true }

-- Its `finally`, which sets the event again also while another pause is on
unfoldable pub end_pause : DmxFrameScheduler → DmxFrameScheduler
end_pause s = record s { rdm_paused = false }

unfoldable pub start : DmxFrameScheduler → DmxFrameScheduler
start s = if s.running then s else record s { running = true; loop_alive = true }

unfoldable pub stop : DmxFrameScheduler → DmxFrameScheduler
stop s = if not s.running then s else record s { running = false; loop_alive = false }

-- The frame to send: the callback's, where there is one.
unfoldable pub frame_data : Option (Result Bytes) → DmxFrameScheduler → Result Bytes
frame_data none s = ok s.current_frame
frame_data (some given) s = given

-- A frame is passed to the send callback, whose own errors are only logged; an exception of the
-- frame callback ends the loop, and `_running` stays as it is.
unfoldable pub send_frame : Result Bytes → DmxFrameScheduler → DmxFrameScheduler × Option Bytes
send_frame (err e) s = (record s { loop_alive = false }, none)
send_frame (ok frame) s = (record s { frame_count = suc s.frame_count }, some frame)

-- One round of `_schedule_loop`, with what the frame callback gives: nothing is sent while the
-- loop waits for the end of a pause.
unfoldable pub schedule_round :
    Option (Result Bytes) → DmxFrameScheduler → DmxFrameScheduler × Option Bytes
schedule_round callback s =
    if s.loop_alive && s.running && not s.rdm_paused
    then send_frame (frame_data callback s) s
    else (s, none)
