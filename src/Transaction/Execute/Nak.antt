-- ===== src/Transaction/Execute/Nak.antt =====
-- What the loop makes of a NAK (transaction/async_transaction.py, packets/rdm.py).
use rdm_dmx_async.Base.{ℕ, ◌≡◌, refl, some, Result, ok, true, leb, List, ◌++◌, length, take, arith}
use rdm_dmx_async.Base.Words.{to_bytes, from_bytes}
use rdm_dmx_async.Packets.Types.{NakReason, unknown_pid, nak_reason_of, nak_reason_value, nak}
use rdm_dmx_async.Packets.Rdm.{
  RdmResponse, is_ack, is_nak, nak_reason, or_none, type_is_ack, type_is_nak,
}
use rdm_dmx_async.Transaction.Policy.{RetryPolicy, is_permanent_failure}
use rdm_dmx_async.Transaction.Outcome.{TransactionResult, permanent_nak}
use rdm_dmx_async.Transaction.Execute.{
  Transaction, fail, recorded_reason, first_byte_reason, after_nak, after_response,
}

nak_payload :
    (c : NakReason) (rest : List ℕ)
    → (first_byte_reason (to_bytes 2 (nak_reason_value c) ++ rest) ≡ ok (some unknown_pid))
      × (leb 2 (length (to_bytes 2 (nak_reason_value c) ++ rest)) ≡ true)
      × (or_none (nak_reason_of (from_bytes (take 2 (to_bytes 2 (nak_reason_value c) ++ rest))))
          ≡ some c)
unfolding first_byte_reason nak_reason_of nak_reason_value or_none to_bytes from_bytes
nak_payload unknown_pid rest = (refl, ground arith, refl)
nak_payload _ rest = (refl, ground arith, refl)

abbrev pub Holds : RdmResponse → NakReason → List ℕ → Type 0
Holds r c rest = (r.response_type ≡ nak) × (r.payload ≡ to_bytes 2 (nak_reason_value c) ++ rest)

recorded_nak :
    (r : RdmResponse) (c : NakReason) (rest : List ℕ)
    → Holds r c rest
    → (nak_reason r ≡ some c) × (recorded_reason (some r) ≡ ok (some unknown_pid))
unfolding nak_reason recorded_reason is_nak type_is_nak
recorded_nak r c rest h =
    let facts = nak_payload c rest in rw (h.0, h.1, facts.1) (facts.2, facts.0)

-- A NAK whose two bytes are the big-endian code of any reason at all has that reason by
-- `nak_reason`, and is recorded as UNKNOWN_PID; where the policy takes UNKNOWN_PID for permanent,
-- the transaction ends there, as a permanent failure that names UNKNOWN_PID.
pub after_response-nak :
    (policy : RetryPolicy) (retry : Transaction → Transaction × Result TransactionResult)
    (r : RdmResponse) (c : NakReason) (rest : List ℕ) (t : Transaction)
    → Holds r c rest
    → policy.permanent_failures unknown_pid ≡ true
    → (nak_reason r ≡ some c)
      × (recorded_reason (some r) ≡ ok (some unknown_pid))
      × (after_response policy retry (some r) t ≡ fail (permanent_nak unknown_pid) true t)
unfolding after_response after_nak is_permanent_failure is_ack type_is_ack
after_response-nak policy retry r c rest t h permanent =
    let recorded = recorded_nak r c rest h in
    (recorded.0, recorded.1, simp (h.0, recorded.1, permanent))
