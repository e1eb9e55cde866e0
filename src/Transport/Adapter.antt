-- ===== src/Transport/Adapter.antt =====
-- rdm_dmx_async/transport/interface_adapter.py: what the transport asks of an interface.
use rdm_dmx_async.Base.{ℕ, Option, Result, Bool}
use rdm_dmx_async.Base.Words.{Bytes}

pub record InterfaceAdapter : Type 0 where
  pub requires_manual_break : Bool
  pub frame_rdm_request : Bytes → Result Bytes
  pub frame_rdm_discovery_request : Bytes → Result Bytes
  pub parse_rdm_response : Bytes → Option Bytes
  pub find_frame_length : Bytes → ℕ
  pub frame_dmx_output : Bytes → Result Bytes
