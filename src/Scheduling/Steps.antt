-- ===== src/Scheduling/Steps.antt =====
-- The scheduler over time (scheduling/dmx_scheduler.py).
use rdm_dmx_async.Base.{ℕ, ◌≡◌, Option, Result, false, not, ◌&&◌, length}
use rdm_dmx_async.Base.Words.{Bytes}
use rdm_dmx_async.Scheduling.{
  DmxFrameScheduler, initial, set_dmx_data, begin_pause, end_pause, start, stop, schedule_round,
}

-- One step: a call of a method, or a round of the loop with what its callback gives.
pub data Step (s : DmxFrameScheduler) : DmxFrameScheduler → Type 0 where
  write : (a : ℕ) (values : Bytes) → Step s (set_dmx_data a values s).0
  pause : Step s (begin_pause s)
  resume : Step s (end_pause s)
  begin : Step s (start s)
  finish : Step s (stop s)
  tick : (callback : Option (Result Bytes)) → Step s (schedule_round callback s).0

pub data Reachable : DmxFrameScheduler → Type 0 where
  at_start : Reachable initial
  after : {s t : DmxFrameScheduler} → Reachable s → Step s t → Reachable t

-- The universe is full, and the loop is alive only while the scheduler runs.
abbrev pub IsGood : DmxFrameScheduler → Type 0
IsGood s = (length s.current_frame ≡ 512) × ((s.loop_alive && not s.running) ≡ false)
