-- ===== src/Transaction/Outcome.antt =====
-- rdm_dmx_async/transaction/result.py and state.py: what a transaction records. Timestamps are left
-- out, and the text of an error is reduced to its presence.
use rdm_dmx_async.Base.{
  ℕ, Option, none, some, Bool, false, ◌||◌, List, [], ◌∷◌, length, if◌then◌else◌, ◌&&◌,
}
use rdm_dmx_async.Packets.Types.{NakReason}
use rdm_dmx_async.Packets.Rdm.{RdmResponse, is_ack, is_nak, is_ack_timer}

pub data TransactionState : Type 0 where
  created in_progress retrying succeeded failed : TransactionState

pub record Attempt : Type 0 where
  pub attempt_number : ℕ
  pub transaction_number : ℕ
  pub success : Bool
  pub response : Option RdmResponse
  pub has_error : Bool
  pub timeout : Bool
  pub nak_reason : Option NakReason
  pub is_late_response : Bool

-- The error message of a failed transaction.
pub data Failure : Type 0 where
  attempts_exhausted : Failure
  permanent_nak : NakReason → Failure

pub record TransactionResult : Type 0 where
  pub success : Bool
  pub attempts : List Attempt
  pub final_response : Option RdmResponse
  pub error_message : Option Failure
  pub permanent_failure : Bool

unfoldable pub response_is_nak : Option RdmResponse → Bool
unfolding is_nak is_ack_timer
response_is_nak none = false
response_is_nak (some r) = is_nak r || is_ack_timer r

-- `Attempt.is_nak`
unfoldable pub attempt_is_nak : Attempt → Bool
attempt_is_nak a = response_is_nak a.response

unfoldable pub response_is_ack : Option RdmResponse → Bool
unfolding is_ack
response_is_ack none = false
response_is_ack (some r) = is_ack r

-- `Attempt.is_ack`
unfoldable pub attempt_is_ack : Attempt → Bool
attempt_is_ack a = a.success && response_is_ack a.response

unfoldable pub attempt_count : TransactionResult → ℕ
attempt_count t = length t.attempts

unfoldable pub first_success : List Attempt → Option Attempt
first_success [] = none
first_success (a ∷ rest) = if a.success then some a else first_success rest

unfoldable pub successful_attempt : TransactionResult → Option Attempt
successful_attempt t = first_success t.attempts

unfoldable pub any_attempt : (Attempt → Bool) → List Attempt → Bool
any_attempt test [] = false
any_attempt test (a ∷ rest) = test a || any_attempt test rest

unfoldable pub had_timeout : TransactionResult → Bool
had_timeout t = any_attempt (λ a. a.timeout) t.attempts

unfoldable pub had_nak : TransactionResult → Bool
had_nak t = any_attempt attempt_is_nak t.attempts
