-- ===== src/Protocols/E120/Stale.antt =====
-- A Manchester reply that is still queued when a discovery command starts (protocols/rdm_e120.py).
use rdm_dmx_async.Base.{ℕ, ◌≡◌, refl, ap, ◌==◌, true, Result, ok, List, [], ◌∷◌}
use rdm_dmx_async.Base.Words.{Bytes}
use rdm_dmx_async.Packets.Rdm.{RdmRequest}
use rdm_dmx_async.Packets.Encoder.{IsEncodable}
use rdm_dmx_async.Packets.RoundTrip.{encode_total}
use rdm_dmx_async.Protocols.Manchester.{decode}
use rdm_dmx_async.Protocols.E120.{
  E120Protocol, Ending, Line, take_queued, await_discovery, manchester_answer, branch_answered,
  branch_sent, branch_encoded, discovery_request,
}

await_queued :
    (ending : Ending) (events : List (Result Bytes)) (s : E120Protocol) (bs : Bytes)
    (rest : List Bytes)
    → s.discovery_queue ≡ bs ∷ rest
    → await_discovery ending events s ≡ (record s { discovery_queue = rest }, ok bs)
unfolding await_discovery take_queued
await_queued ending [] s bs rest queued = rw queued refl
await_queued ending (event ∷ events) s bs rest queued = rw queued refl

-- A reply that an earlier branch left in the queue is the answer to the next branch command, and
-- nothing that this branch receives is looked at.
pub discovery_request_stale :
    (line : Line) (q : RdmRequest) (s : E120Protocol) (bs : Bytes) (rest : List Bytes)
    → IsEncodable q
    → q.pid ≡ 0x0001
    → ((packet : Bytes) → line.send packet ≡ ok tt)
    → s.discovery_queue ≡ bs ∷ rest
    → discovery_request line (ok q) s ≡ (
      record s { discovery_queue = rest },
      ok (
          manchester_answer q.transaction_number q.pid
            (decode bs)
            (record s { discovery_queue = rest })),
    )
unfolding discovery_request branch_encoded branch_sent branch_answered
discovery_request_stale line q s bs rest enc branch sends queued =
    let made = encode_total q enc in
    let is_branch : (q.pid == 0x0001) ≡ true = ap (λ (p : ℕ). p == 0x0001) branch in
    rw (is_branch, made.1, sends made.0, await_queued line.ending line.events s bs rest queued) refl
