-- ===== src/Transaction/Execute.antt =====
-- rdm_dmx_async/transaction/async_transaction.py. The two awaited operations and the pauses are
-- parameters; while one of them waits, other tasks may change the shared allocator.
pub mod Taken
pub mod Owned
pub mod Release
pub mod Raises
pub mod Verdict
pub mod Attempts
pub mod Success
pub mod Nak
use rdm_dmx_async.Base.{
  ℕ, zero, suc, ◌+◌, ◌-◌, Option, none, some, Result, ok, err, Error, attribute_error, Bool, true,
  false, not, ltb, ◌==◌, ◌&&◌, if◌then◌else◌, List, [], ◌∷◌, ◌++◌,
}
use rdm_dmx_async.Packets.Types.{NakReason, nak_reason_of}
use rdm_dmx_async.Packets.Rdm.{RdmResponse, is_ack, is_nak, is_ack_timer, ack_timer_value}
use rdm_dmx_async.Transaction.Allocator.{Allocator, allocate, release_all}
use rdm_dmx_async.Transaction.Classifier.{Classification, late, register, classify_response}
use rdm_dmx_async.Transaction.Policy.{RetryPolicy, is_permanent_failure}
use rdm_dmx_async.Transaction.Outcome.{
  TransactionState, created, in_progress, retrying, succeeded, failed, Attempt, Failure,
  attempts_exhausted, permanent_nak, TransactionResult, response_is_ack,
}

-- How an awaited operation ends.
pub data Outcome : Type 0 where
  returned : Option RdmResponse → Outcome
  timed_out : Outcome
  raised : Error → Outcome

-- The awaited calls, numbered by `ℕ`, each with what it does to the allocator.
pub record Environment : Type 0 where
  pub operation : ℕ → ℕ → Allocator → Outcome × Allocator
  pub queued_message_operation : Option (ℕ → ℕ → Allocator → Outcome × Allocator)
  pub sleep : ℕ → ℕ → Allocator → Allocator

pub record Transaction : Type 0 where
  pub state : TransactionState
  pub attempts : List Attempt
  pub allocated : List ℕ
  pub active_numbers : List ℕ
  pub allocator : Allocator
  pub awaits : ℕ

-- `__init__`
unfoldable pub new : Allocator → Transaction
new a = record {
  state = created;
  attempts = [];
  allocated = [];
  active_numbers = [];
  allocator = a;
  awaits = 0;
}

unfoldable pub registered : Transaction → ℕ → Result (List ℕ) → Transaction × Result ℕ
registered t n (ok numbers) = (record t { active_numbers = numbers }, ok n)
registered t n (err e) = (t, err e)

unfoldable pub numbered : Transaction → Allocator × Result ℕ → Transaction × Result ℕ
unfolding registered
numbered t (a, err e) = (record t { allocator = a }, err e)
numbered t (a, ok n) =
    let t' : Transaction = record t { allocator = a; allocated = t.allocated ++ n ∷ [] } in
    registered t' n (register t'.allocated)

-- Allocate a number, append it to the transaction's and register them.
unfoldable pub begin_number : Transaction → Transaction × Result ℕ
begin_number t = numbered t (allocate t.allocator)

unfoldable pub await_call :
    (ℕ → ℕ → Allocator → Outcome × Allocator) → ℕ → Transaction → Transaction × Outcome
await_call call n t =
    let (o, a) = call t.awaits n t.allocator in
    (record t { allocator = a; awaits = suc t.awaits }, o)

unfoldable pub pause : Environment → ℕ → Transaction → Transaction
pause env ms t = record t { allocator = env.sleep t.awaits ms t.allocator; awaits = suc t.awaits }

-- `response.ack_timer_value or 0`
unfoldable pub delay_of : RdmResponse → ℕ
delay_of r = elim (ack_timer_value r) [ none ↦ 0 | some ms ↦ ms ]

-- One poll of QUEUED_MESSAGE ends: go on with `again`, or keep the ACK_TIMER response.
unfoldable pub polled :
    RdmResponse
    → (Transaction → Option RdmResponse → Transaction × Result (Option RdmResponse))
    → Transaction × Outcome
    → Transaction × Result (Option RdmResponse)
polled r again (t, timed_out) = (t, ok (some r))
polled r again (t, raised e) = (t, err e)
polled r again (t, returned next) = again t next

unfoldable pub poll_numbered :
    (ℕ → ℕ → Allocator → Outcome × Allocator)
    → RdmResponse
    → (Transaction → Option RdmResponse → Transaction × Result (Option RdmResponse))
    → Transaction × Result ℕ
    → Transaction × Result (Option RdmResponse)
unfolding polled await_call
poll_numbered call r again (t, err e) = (t, err e)
poll_numbered call r again (t, ok n) = polled r again (await_call call n t)

-- `_poll_queued_message`, with `polls` rounds left.
unfoldable pub poll_queued_message :
    Environment
    → (ℕ → ℕ → Allocator → Outcome × Allocator)
    → ℕ
    → Transaction
    → Option RdmResponse
    → Transaction × Result (Option RdmResponse)
poll_queued_message env call zero t response = (t, ok response)
poll_queued_message env call (suc polls) t none = (t, err attribute_error)
poll_queued_message env call (suc polls) t (some r) =
    if not (is_ack_timer r)
    then (t, ok (some r))
    else poll_numbered call r (λ t' next. poll_queued_message env call polls t' next)
        (begin_number (pause env (delay_of r) t))

-- What the `try` of `_execute_attempt` leaves in its local variables.
pub record Tried : Type 0 where
  pub response : Option RdmResponse
  pub is_late : Bool
  pub success : Bool
  pub has_error : Bool
  pub timeout : Bool

abbrev pub tried : Option RdmResponse → Tried
tried response = record {
  response = response;
  is_late = false;
  success = response_is_ack response;
  has_error = false;
  timeout = false;
}

-- `except Exception`, with the response received before it
abbrev pub tried_error : Option RdmResponse → Tried
tried_error response = record {
  response = response;
  is_late = false;
  success = false;
  has_error = true;
  timeout = false;
}

abbrev pub tried_timeout : Tried
tried_timeout = record {
  response = none;
  is_late = false;
  success = false;
  has_error = true;
  timeout = true;
}

abbrev pub tried_late : RdmResponse → Tried
tried_late r = record {
  response = some r;
  is_late = true;
  success = false;
  has_error = false;
  timeout = false;
}

unfoldable pub poll_ended :
    RdmResponse → Transaction × Result (Option RdmResponse) → Transaction × Tried
poll_ended r (t, ok response) = (t, tried response)
poll_ended r (t, err e) = (t, tried_error (some r))

unfoldable pub follow_up :
    Environment
    → RetryPolicy
    → RdmResponse
    → Option (ℕ → ℕ → Allocator → Outcome × Allocator)
    → Transaction
    → Transaction × Tried
unfolding poll_ended
follow_up env policy r none t = (t, tried (some r))
follow_up env policy r (some call) t =
    if is_ack_timer r
    then poll_ended r (poll_queued_message env call policy.max_ack_timer_polls t (some r))
    else (t, tried (some r))

-- A response came back and was classified; an anomalous one is only logged.
unfoldable pub classified :
    Environment
    → RetryPolicy
    → RdmResponse
    → Result Classification
    → Transaction
    → Transaction × Tried
unfolding follow_up
classified env policy r (err e) t = (t, tried_error (some r))
classified env policy r (ok late) t = (t, tried_late r)
classified env policy r (ok _) t = follow_up env policy r env.queued_message_operation t

unfoldable pub try_ended :
    Environment → RetryPolicy → ℕ → Transaction × Outcome → Transaction × Tried
try_ended env policy n (t, timed_out) = (t, tried_timeout)
try_ended env policy n (t, raised e) = (t, tried_error none)
try_ended env policy n (t, returned none) = (t, tried none)
try_ended env policy n (t, returned (some r)) =
    classified env policy r (classify_response t.active_numbers r.transaction_number n) t

unfoldable pub reason_of_code : Result NakReason → Result (Option NakReason)
reason_of_code (ok r) = ok (some r)
reason_of_code (err e) = err e

-- `NAKReason(response.data[0]) if response.data else None`
unfoldable pub first_byte_reason : List ℕ → Result (Option NakReason)
unfolding reason_of_code
first_byte_reason [] = ok none
first_byte_reason (b ∷ rest) = reason_of_code (nak_reason_of b)

-- The reason recorded for a response, by its first byte; an unknown byte raises `ValueError`.
unfoldable pub recorded_reason : Option RdmResponse → Result (Option NakReason)
unfolding first_byte_reason
recorded_reason none = ok none
recorded_reason (some r) = if is_nak r then first_byte_reason r.payload else ok none

unfoldable pub record_attempt :
    ℕ
    → ℕ
    → Tried
    → Result (Option NakReason)
    → Transaction
    → Transaction × Result (Option RdmResponse × Bool)
record_attempt index n x (err e) t = (t, err e)
record_attempt index n x (ok reason) t = (
  record t {
    attempts =
        t.attempts
        ++ record {
          attempt_number = index + 1;
          transaction_number = n;
          success = x.success;
          response = x.response;
          has_error = x.has_error;
          timeout = x.timeout;
          nak_reason = reason;
          is_late_response = x.is_late;
        }
          ∷ [];
  },
  ok (x.response, x.is_late),
)

unfoldable pub attempt_tried :
    ℕ → ℕ → Transaction × Tried → Transaction × Result (Option RdmResponse × Bool)
attempt_tried index n (t, x) = record_attempt index n x (recorded_reason x.response) t

unfoldable pub attempt_numbered :
    Environment
    → RetryPolicy
    → ℕ
    → Transaction × Result ℕ
    → Transaction × Result (Option RdmResponse × Bool)
attempt_numbered env policy index (t, err e) = (t, err e)
attempt_numbered env policy index (t, ok n) =
    attempt_tried index n (try_ended env policy n (await_call env.operation n t))

-- `_execute_attempt`
unfoldable pub execute_attempt :
    Environment → RetryPolicy → ℕ → Transaction → Transaction × Result (Option RdmResponse × Bool)
execute_attempt env policy index t = attempt_numbered env policy index (begin_number t)

unfoldable pub update_state : ℕ → Transaction → Transaction
update_state index t = record t { state = if index == 0 then in_progress else retrying }

-- The end of a transaction: its result, and the state it is in.
unfoldable pub succeed : RdmResponse → Transaction → Transaction × Result TransactionResult
succeed r t = (
  record t { state = succeeded },
  ok (record {
    success = true;
    attempts = t.attempts;
    final_response = some r;
    error_message = none;
    permanent_failure = false;
  }),
)

unfoldable pub fail : Failure → Bool → Transaction → Transaction × Result TransactionResult
fail why permanent t = (
  record t { state = failed },
  ok (record {
    success = false;
    attempts = t.attempts;
    final_response = none;
    error_message = some why;
    permanent_failure = permanent;
  }),
)

-- The pause before a retry, where there is one.
unfoldable pub before_retry : Environment → RetryPolicy → ℕ → Transaction → Transaction
before_retry env policy index t =
    if ltb index (policy.max_attempts - 1) && ltb 0 policy.delay_between_attempts
    then pause env policy.delay_between_attempts t
    else t

-- The NAK of an attempt: permanent, or tried again by `retry`.
unfoldable pub after_nak :
    RetryPolicy
    → (Transaction → Transaction × Result TransactionResult)
    → Result (Option NakReason)
    → Transaction
    → Transaction × Result TransactionResult
unfolding is_permanent_failure
after_nak policy retry (err e) t = (t, err e)
after_nak policy retry (ok none) t = retry t
after_nak policy retry (ok (some reason)) t =
    if is_permanent_failure policy reason then fail (permanent_nak reason) true t else retry t

unfoldable pub after_response :
    RetryPolicy
    → (Transaction → Transaction × Result TransactionResult)
    → Option RdmResponse
    → Transaction
    → Transaction × Result TransactionResult
unfolding succeed after_nak
after_response policy retry none t = retry t
after_response policy retry (some r) t =
    if is_ack r then succeed r t else after_nak policy retry (recorded_reason (some r)) t

-- What follows an attempt; `next` is the next round of the loop.
unfoldable pub after_attempt :
    Environment
    → RetryPolicy
    → ℕ
    → (Transaction → Transaction × Result TransactionResult)
    → Transaction × Result (Option RdmResponse × Bool)
    → Transaction × Result TransactionResult
after_attempt env policy index next (t, err e) = (t, err e)
after_attempt env policy index next (t, ok (response, true)) = next t
after_attempt env policy index next (t, ok (response, false)) =
    after_response policy (λ t'. next (before_retry env policy index t')) response t

-- The loop over the attempts, with `left` of them to go.
unfoldable pub attempt_loop :
    Environment → RetryPolicy → ℕ → ℕ → Transaction → Transaction × Result TransactionResult
attempt_loop env policy zero index t = fail attempts_exhausted false t
attempt_loop env policy (suc left) index t =
    after_attempt env policy index (λ t'. attempt_loop env policy left (suc index) t')
      (execute_attempt env policy index (update_state index t))

-- The `finally`.
unfoldable pub release_allocated :
    Transaction × Result TransactionResult → Transaction × Result TransactionResult
release_allocated (t, r) = (record t { allocator = release_all t.allocated t.allocator }, r)

unfoldable pub execute :
    Environment → RetryPolicy → Transaction → Transaction × Result TransactionResult
execute env policy t = release_allocated (attempt_loop env policy policy.max_attempts 0 t)
