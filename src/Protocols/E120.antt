-- ===== src/Protocols/E120.antt =====
-- rdm_dmx_async/protocols/rdm_e120.py. The wire is half-duplex: a request holds the wire lock from
-- before it is sent until its wait ends, so that meanwhile only the receive loop runs. What it
-- receives is a list of events, and how the wait ends when they are used up is a parameter.
pub mod Handlers
pub mod FirstResponse
pub mod Answers
pub mod Stale
use rdm_dmx_async.Base.{
  ℕ, Option, none, some, Result, ok, err, Error, value_error, protocol_timeout, cancelled_error,
  Bool, true, false, ◌==◌, ◌&&◌, if◌then◌else◌, List, [], ◌∷◌, ◌++◌, ◌>>=◌,
}
use rdm_dmx_async.Base.Words.{Bytes, from_bytes}
use rdm_dmx_async.Packets.Types.{
  Uid, Pid, CommandClass, get_command, set_command, discovery_command, discovery_command_response,
  ack,
}
use rdm_dmx_async.Packets.Rdm.{RdmRequest, RdmResponse, post_init}
use rdm_dmx_async.Packets.Encoder.{encode_rdm_request}
use rdm_dmx_async.Packets.Decoder.{decode_rdm_response}
use rdm_dmx_async.Protocols.Validator.{Fault, validate_request, validate_response}
use rdm_dmx_async.Protocols.Manchester.{decode}
use rdm_dmx_async.Protocols.Correlator.{
  ResponseCorrelator, FutureState, pending, cancelled, resolved, cancel_pending, register_handler,
  unregister_handler, correlate_response,
}
use rdm_dmx_async.Protocols.Correlator

pub record E120Protocol : Type 0 where
  pub source_uid : Uid
  pub correlator : ResponseCorrelator
  pub validate_requests : Bool
  pub strict_mode : Bool
  pub running : Bool
  pub discovery_queue : List Bytes

-- `_CONTROLLER_PORT_ID`
abbrev pub controller_port_id : ℕ
controller_port_id = 1

-- How a wait ends if nothing came: by its own timeout, or by a caller that gives the request up.
pub data Ending : Type 0 where
  deadline given_up : Ending

unfoldable pub start : E120Protocol → E120Protocol
start s =
    if s.running then s else record s { running = true; correlator = Correlator.start s.correlator }

unfoldable pub stop : E120Protocol → E120Protocol
stop s =
    if s.running then record s { running = false; correlator = Correlator.stop s.correlator } else s

unfoldable pub correlated : RdmResponse → E120Protocol → E120Protocol
correlated r s = record s { correlator = (correlate_response r s.correlator).0 }

-- A response that fails validation is only logged.
unfoldable pub validated : Option Fault → RdmResponse → E120Protocol → E120Protocol
unfolding correlated
validated (some fault) r s = s
validated none r s = correlated r s

unfoldable pub decoded : Result (Option RdmResponse) → E120Protocol → E120Protocol
unfolding validated
decoded (err e) s = s
decoded (ok none) s = s
decoded (ok (some r)) s = validated (validate_response s.strict_mode r) r s

-- `data[:1] == b"\xfe"`
unfoldable pub is_manchester : Bytes → Bool
is_manchester [] = false
is_manchester (b ∷ rest) = b == 0xFE

-- One round of `_receive_loop`, with what the transport gives: a timeout and any other exception
-- are passed over.
unfoldable pub receive_round : Result Bytes → E120Protocol → E120Protocol
unfolding decoded is_manchester
receive_round (err e) s = s
receive_round (ok bs) s =
    if is_manchester bs
    then record s { discovery_queue = s.discovery_queue ++ bs ∷ [] }
    else decoded (decode_rdm_response bs) s

unfoldable pub ended : Ending → Result RdmResponse
ended deadline = err protocol_timeout
ended given_up = err cancelled_error

-- `wait_for` cancels the future that it waits on.
unfoldable pub wait_over : Ending → ℕ → E120Protocol → E120Protocol × Result RdmResponse
unfolding ended
wait_over ending f s =
    let c = s.correlator in
    (record s { correlator = record c { futures = cancel_pending f c.futures } }, ended ending)

-- A look at the future of a wait; a future that something else cancelled raises.
unfoldable pub looked_at :
    FutureState
    → E120Protocol
    → E120Protocol × Result RdmResponse
    → E120Protocol × Result RdmResponse
looked_at pending s later = later
looked_at cancelled s later = (s, err cancelled_error)
looked_at (resolved r) s later = (s, ok r)

-- `await asyncio.wait_for(future, timeout)`, while the receive loop handles the events.
unfoldable pub await_future :
    Ending → ℕ → List (Result Bytes) → E120Protocol → E120Protocol × Result RdmResponse
unfolding wait_over
await_future ending f [] s = looked_at (s.correlator.futures f) s (wait_over ending f s)
await_future ending f (event ∷ events) s =
    let later = await_future ending f events (receive_round event s) in
    looked_at (s.correlator.futures f) s later

-- What happens while a request is on the wire: what `send` gives for the packet, what is received
-- until the wait ends, how it ends, and the time of the registration.
pub record Line : Type 0 where
  pub send : Bytes → Result (Unit {0})
  pub events : List (Result Bytes)
  pub ending : Ending
  pub now : ℕ

unfoldable pub sent :
    Line → ℕ → Result (Unit {0}) → E120Protocol → E120Protocol × Result RdmResponse
unfolding await_future
sent line f (err e) s = (s, err e)
sent line f (ok done) s = await_future line.ending f line.events s

unfoldable pub forgotten : ℕ → E120Protocol → E120Protocol
forgotten txn s = record s { correlator = unregister_handler txn s.correlator }

-- The handlers of `_send_and_receive`: a timeout and any other `Exception` unregister, and
-- `CancelledError` is none. A mismatch with the request is only logged.
unfoldable pub finished : ℕ → E120Protocol × Result RdmResponse → E120Protocol × Result RdmResponse
unfolding forgotten
finished txn (s, ok r) = (s, ok r)
finished txn (s, err cancelled_error) = (s, err cancelled_error)
finished txn (s, err e) = (forgotten txn s, err e)

unfoldable pub registered :
    Line
    → ℕ
    → Bytes
    → E120Protocol
    → ResponseCorrelator × Result ℕ
    → E120Protocol × Result RdmResponse
unfolding sent finished
registered line txn packet s (c, err e) = (record s { correlator = c }, err e)
registered line txn packet s (c, ok f) =
    finished txn (sent line f (line.send packet) (record s { correlator = c }))

unfoldable pub encoded :
    Line → RdmRequest → Result Bytes → E120Protocol → E120Protocol × Result RdmResponse
unfolding registered
encoded line q (err e) s = (s, err e)
encoded line q (ok packet) s =
    registered line q.transaction_number packet s
      (register_handler q.transaction_number line.now s.correlator)

unfoldable pub has_fault : Option Fault → Bool
has_fault none = false
has_fault (some fault) = true

unfoldable pub send_and_receive :
    Line → RdmRequest → E120Protocol → E120Protocol × Result RdmResponse
unfolding encoded has_fault
send_and_receive line q s =
    if s.validate_requests && has_fault (validate_request q)
    then (s, err value_error)
    else encoded line q (encode_rdm_request q) s

-- The request of the three `send_…_command` methods, or the error of its construction.
unfoldable pub request_of :
    CommandClass → Uid → Pid → ℕ → ℕ → Bytes → E120Protocol → Result RdmRequest
unfolding post_init
request_of class destination pid txn sub_device payload s = post_init (record {
  destination_uid = destination;
  source_uid = s.source_uid;
  transaction_number = txn;
  port_address = controller_port_id;
  sub_device = sub_device;
  command_class = class;
  pid = pid;
  payload = payload;
})

unfoldable pub send_request :
    Line → Result RdmRequest → E120Protocol → E120Protocol × Result RdmResponse
unfolding send_and_receive
send_request line (err e) s = (s, err e)
send_request line (ok q) s = send_and_receive line q s

unfoldable pub send_get_command :
    Line → Uid → Pid → ℕ → ℕ → Bytes → E120Protocol → E120Protocol × Result RdmResponse
unfolding request_of send_request
send_get_command line destination pid txn sub_device payload s =
    send_request line (request_of get_command destination pid txn sub_device payload s) s

unfoldable pub send_set_command :
    Line → Uid → Pid → ℕ → ℕ → Bytes → E120Protocol → E120Protocol × Result RdmResponse
unfolding request_of send_request
send_set_command line destination pid txn sub_device payload s =
    send_request line (request_of set_command destination pid txn sub_device payload s) s

unfoldable pub discovery_over : Ending → Result Bytes
discovery_over deadline = err protocol_timeout
discovery_over given_up = err cancelled_error

unfoldable pub take_queued :
    E120Protocol → List Bytes → E120Protocol × Result Bytes → E120Protocol × Result Bytes
take_queued s [] later = later
take_queued s (bs ∷ rest) later = (record s { discovery_queue = rest }, ok bs)

-- `await asyncio.wait_for(self._discovery_queue.get(), timeout)`
unfoldable pub await_discovery :
    Ending → List (Result Bytes) → E120Protocol → E120Protocol × Result Bytes
unfolding take_queued discovery_over
await_discovery ending [] s = take_queued s s.discovery_queue (s, discovery_over ending)
await_discovery ending (event ∷ events) s =
    let later = await_discovery ending events (receive_round event s) in
    take_queued s s.discovery_queue later

-- The response made up for a decoded UID.
abbrev pub discovered : Uid → ℕ → Pid → E120Protocol → RdmResponse
discovered uid txn pid s = record {
  source_uid = uid;
  destination_uid = s.source_uid;
  transaction_number = txn;
  response_type = ack;
  message_count = 0;
  sub_device = 0;
  command_class = discovery_command_response;
  pid = pid;
  payload = [];
  checksum_valid = true;
}

-- `none` is a collision; `if uid:` holds of every decoded UID, six bytes long.
unfoldable pub manchester_answer : ℕ → Pid → Option Bytes → E120Protocol → Option RdmResponse
manchester_answer txn pid none s = none
manchester_answer txn pid (some uid) s = some (discovered (from_bytes uid) txn pid s)

unfoldable pub branch_answered :
    ℕ → Pid → E120Protocol × Result Bytes → E120Protocol × Result (Option RdmResponse)
unfolding manchester_answer
branch_answered txn pid (s, err e) = (s, err e)
branch_answered txn pid (s, ok bs) = (s, ok (manchester_answer txn pid (decode bs) s))

unfoldable pub branch_sent : Line → Result (Unit {0}) → E120Protocol → E120Protocol × Result Bytes
unfolding await_discovery
branch_sent line (err e) s = (s, err e)
branch_sent line (ok done) s = await_discovery line.ending line.events s

unfoldable pub branch_encoded :
    Line → RdmRequest → Result Bytes → E120Protocol → E120Protocol × Result (Option RdmResponse)
unfolding branch_sent branch_answered
branch_encoded line q (err e) s = (s, err e)
branch_encoded line q (ok packet) s =
    branch_answered q.transaction_number q.pid (branch_sent line (line.send packet) s)

unfoldable pub answer_of :
    E120Protocol × Result RdmResponse → E120Protocol × Result (Option RdmResponse)
answer_of (s, ok r) = (s, ok (some r))
answer_of (s, err e) = (s, err e)

unfoldable pub discovery_request :
    Line → Result RdmRequest → E120Protocol → E120Protocol × Result (Option RdmResponse)
unfolding branch_encoded answer_of send_and_receive
discovery_request line (err e) s = (s, err e)
discovery_request line (ok q) s =
    if q.pid == 0x0001
    then branch_encoded line q (encode_rdm_request q) s
    else answer_of (send_and_receive line q s)

unfoldable pub send_discovery_command :
    Line → Uid → Pid → ℕ → Bytes → E120Protocol → E120Protocol × Result (Option RdmResponse)
unfolding request_of discovery_request
send_discovery_command line destination pid txn payload s =
    discovery_request line (request_of discovery_command destination pid txn 0 payload s) s
