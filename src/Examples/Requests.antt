-- ===== src/Examples/Requests.antt =====
-- A request on a wire that brings a timeout, a packet with an error, and then the response.
use rdm_dmx_async.Base.{
  ◌≡◌, refl, some, none, ok, err, protocol_timeout, true, false, [], ◌∷◌, arith,
}
use rdm_dmx_async.Base.Words.{Bytes}
use rdm_dmx_async.Base.Table.{lookup}
use rdm_dmx_async.Packets.Types.{discovery_command}
use rdm_dmx_async.Packets.Rdm.{RdmRequest}
use rdm_dmx_async.Packets.Encoder.{IsEncodable}
use rdm_dmx_async.Protocols.Manchester.{decode}
use rdm_dmx_async.Protocols.Validator.{
  validate_request, is_valid_uid, is_valid_pid, is_request_class, is_get_command, first_fault,
}
use rdm_dmx_async.Protocols.Correlator.{initial}
use rdm_dmx_async.Protocols.E120.{
  E120Protocol, Line, deadline, send_and_receive, has_fault, discovery_request, manchester_answer,
}
use rdm_dmx_async.Protocols.E120.Handlers.{IsFresh}
use rdm_dmx_async.Protocols.E120.FirstResponse.{
  first_response, outcome, send_and_receive-first_response,
}
use rdm_dmx_async.Protocols.E120.Answers.{Finished, send_and_receive-Finished}
use rdm_dmx_async.Protocols.E120.Stale.{discovery_request_stale}
use rdm_dmx_async.Examples.Packets.{set_address, set_address-IsEncodable}

abbrev idle : E120Protocol
idle = record {
  source_uid = 0x454E00000002;
  correlator = initial 5000;
  validate_requests = true;
  strict_mode = false;
  running = true;
  discovery_queue = [];
}

-- The SET_RESPONSE of number 17.
abbrev reply : Bytes
reply =
    0xCC ∷ 0x01 ∷ 0x18 ∷ 0x45 ∷ 0x4E ∷ 0x00 ∷ 0x00 ∷ 0x00 ∷ 0x02 ∷ 0x45 ∷ 0x4E ∷ 0x00 ∷ 0x00 ∷ 0x00
    ∷ 0x01 ∷ 0x11 ∷ 0x00 ∷ 0x00 ∷ 0x00 ∷ 0x00 ∷ 0x31 ∷ 0x00 ∷ 0xF0 ∷ 0x00 ∷ 0x03 ∷ 0x40 ∷ []

abbrev busy : Line
busy = record {
  send = λ packet. ok tt;
  events = err protocol_timeout ∷ ok (0xCC ∷ 0x01 ∷ []) ∷ ok reply ∷ [];
  ending = deadline;
  now = 1000;
}

idle-IsFresh : IsFresh idle.correlator
unfolding lookup
idle-IsFresh k g h = absurd (none_some h)
  where
    none_some : none ≡ some g → ⊥
    none_some e = cc

send_and_receive-Finished_example : Finished 17 (send_and_receive busy set_address idle)
unfolding lookup
send_and_receive-Finished_example =
    send_and_receive-Finished busy set_address idle set_address-IsEncodable idle-IsFresh refl

send_and_receive-first_response_example :
    (send_and_receive busy set_address idle).1
    ≡ outcome deadline (first_response false 17 busy.events)
unfolding lookup has_fault validate_request is_valid_uid is_valid_pid is_request_class
    is_get_command first_fault
send_and_receive-first_response_example =
    send_and_receive-first_response busy set_address idle set_address-IsEncodable refl
      (λ packet. refl) idle-IsFresh refl

abbrev branch : RdmRequest
branch = record {
  destination_uid = 0xFFFFFFFFFFFF;
  source_uid = 0x454E00000002;
  transaction_number = 18;
  port_address = 1;
  sub_device = 0;
  command_class = discovery_command;
  pid = 0x0001;
  payload = [];
}

branch-IsEncodable : IsEncodable branch
branch-IsEncodable = record {
  constructed = record {
    transaction_fits = omega arith;
    sub_device_fits = omega arith;
    payload_fits = omega arith;
  };
  destination_fits = omega arith;
  source_fits = omega arith;
  port_fits = omega arith;
  pid_fits = omega arith;
}

-- A late reply that cannot be decoded.
abbrev late : E120Protocol
late = record idle { discovery_queue = (0xFE ∷ 0xAA ∷ []) ∷ [] }

discovery_request_stale_example :
    discovery_request busy (ok branch) late
    ≡ (idle, ok (manchester_answer 18 0x0001 (decode (0xFE ∷ 0xAA ∷ [])) idle))
discovery_request_stale_example =
    discovery_request_stale busy branch late (0xFE ∷ 0xAA ∷ []) [] branch-IsEncodable refl
      (λ packet. refl) refl
