-- ===== src/Transaction/Execute/Owned.antt =====
-- The numbers in use and those of a transaction, through one attempt
-- (transaction/async_transaction.py).
use rdm_dmx_async.Base.{
  ℕ, zero, suc, ◌-◌, ◌∙◌, Option, none, some, Result, ok, err, Bool, ltb, ◌&&◌, Bool-cases, inl,
  inr,
}
use rdm_dmx_async.Packets.Types.{NakReason}
use rdm_dmx_async.Packets.Rdm.{RdmResponse, is_ack_timer}
use rdm_dmx_async.Transaction.Allocator.{Allocator}
use rdm_dmx_async.Transaction.Classifier.{Classification, classify_response, late}
use rdm_dmx_async.Transaction.Policy.{RetryPolicy}
use rdm_dmx_async.Transaction.Execute.{
  Outcome, returned, timed_out, raised, Environment, Transaction, Tried, begin_number, await_call,
  pause, delay_of, polled, poll_numbered, poll_queued_message, poll_ended, follow_up, classified,
  try_ended, recorded_reason, record_attempt, attempt_tried, attempt_numbered, execute_attempt,
  before_retry,
}
use rdm_dmx_async.Transaction.Execute.Taken.{
  LeavesCall, LeavesQueued, Leaves, Owned, begin_number-Owned, await_call-Owned,
}

module _ (v : ℕ) (before : Bool) (call : ℕ → ℕ → Allocator → Outcome × Allocator)
    (leaves : LeavesCall v call) (r : RdmResponse)
    (again : Transaction → Option RdmResponse → Transaction × Result (Option RdmResponse))
    (keeps : (t : Transaction) (o : Option RdmResponse)
      → Owned v before t
      → Owned v before (again t o).0) where
  polled-Owned :
      (x : Transaction × Outcome) → Owned v before x.0 → Owned v before (polled r again x).0
  unfolding polled
  polled-Owned (t, returned o) owned = keeps t o owned
  polled-Owned (t, timed_out) owned = owned
  polled-Owned (t, raised e) owned = owned

  poll_numbered-Owned :
      (x : Transaction × Result ℕ)
      → Owned v before x.0
      → Owned v before (poll_numbered call r again x).0
  unfolding poll_numbered
  poll_numbered-Owned (t, ok n) owned =
      polled-Owned (await_call call n t) (await_call-Owned v before call n t leaves owned)
  poll_numbered-Owned (t, err e) owned = owned

module _ (v : ℕ) (before : Bool) (env : Environment) (leaves : Leaves v env) where
  pause-Owned : (ms : ℕ) (t : Transaction) → Owned v before t → Owned v before (pause env ms t)
  unfolding pause
  pause-Owned ms t owned = (leaves.2 t.awaits ms t.allocator ∙ owned.0, owned.1)

  poll-Owned :
      (call : ℕ → ℕ → Allocator → Outcome × Allocator) (polls : ℕ) (t : Transaction)
      (o : Option RdmResponse)
      → LeavesCall v call
      → Owned v before t
      → Owned v before (poll_queued_message env call polls t o).0
  unfolding poll_queued_message
  poll-Owned call zero t o kept owned = owned
  poll-Owned call (suc polls) t none kept owned = owned
  poll-Owned call (suc polls) t (some r) kept owned = elim (Bool-cases (is_ack_timer r)) [
    | inr other ↦ rw other owned
    | inl waits ↦ rw waits (
        poll_numbered-Owned v before call kept r
          (λ t' next. poll_queued_message env call polls t' next)
          (λ t' o' owned'. poll-Owned call polls t' o' kept owned')
          (begin_number (pause env (delay_of r) t))
          (begin_number-Owned v before (pause env (delay_of r) t)
            (pause-Owned (delay_of r) t owned)))
  ]

  poll_ended-Owned :
      (r : RdmResponse) (x : Transaction × Result (Option RdmResponse))
      → Owned v before x.0
      → Owned v before (poll_ended r x).0
  unfolding poll_ended
  poll_ended-Owned r (t, ok o) owned = owned
  poll_ended-Owned r (t, err e) owned = owned

  follow_up-Owned :
      (policy : RetryPolicy) (r : RdmResponse)
      (q : Option (ℕ → ℕ → Allocator → Outcome × Allocator)) (t : Transaction)
      → LeavesQueued v q
      → Owned v before t
      → Owned v before (follow_up env policy r q t).0
  unfolding follow_up
  follow_up-Owned policy r none t kept owned = owned
  follow_up-Owned policy r (some call) t kept owned = elim (Bool-cases (is_ack_timer r)) [
    | inr other ↦ rw other owned
    | inl waits ↦ rw waits (
        poll_ended-Owned r (poll_queued_message env call policy.max_ack_timer_polls t (some r))
          (poll-Owned call policy.max_ack_timer_polls t (some r) kept owned))
  ]

  classified-Owned :
      (policy : RetryPolicy) (r : RdmResponse) (c : Result Classification) (t : Transaction)
      → Owned v before t
      → Owned v before (classified env policy r c t).0
  unfolding classified
  classified-Owned policy r (err e) t owned = owned
  classified-Owned policy r (ok late) t owned = owned
  classified-Owned policy r (ok _) t owned =
      follow_up-Owned policy r env.queued_message_operation t leaves.1 owned

  try_ended-Owned :
      (policy : RetryPolicy) (n : ℕ) (x : Transaction × Outcome)
      → Owned v before x.0
      → Owned v before (try_ended env policy n x).0
  unfolding try_ended
  try_ended-Owned policy n (t, timed_out) owned = owned
  try_ended-Owned policy n (t, raised e) owned = owned
  try_ended-Owned policy n (t, returned none) owned = owned
  try_ended-Owned policy n (t, returned (some r)) owned =
      classified-Owned policy r (classify_response t.active_numbers r.transaction_number n) t owned

  record_attempt-Owned :
      (index n : ℕ) (x : Tried) (o : Result (Option NakReason)) (t : Transaction)
      → Owned v before t
      → Owned v before (record_attempt index n x o t).0
  unfolding record_attempt
  record_attempt-Owned index n x (ok o) t owned = owned
  record_attempt-Owned index n x (err e) t owned = owned

  attempt_numbered-Owned :
      (policy : RetryPolicy) (index : ℕ) (x : Transaction × Result ℕ)
      → Owned v before x.0
      → Owned v before (attempt_numbered env policy index x).0
  unfolding attempt_numbered attempt_tried
  attempt_numbered-Owned policy index (t, err e) owned = owned
  attempt_numbered-Owned policy index (t, ok n) owned =
      let ended = try_ended env policy n (await_call env.operation n t) in
      record_attempt-Owned index n ended.1 (recorded_reason ended.1.response) ended.0 (
        try_ended-Owned policy n (await_call env.operation n t)
          (await_call-Owned v before env.operation n t leaves.0 owned))

  pub execute_attempt-Owned :
      (policy : RetryPolicy) (index : ℕ) (t : Transaction)
      → Owned v before t
      → Owned v before (execute_attempt env policy index t).0
  unfolding execute_attempt
  execute_attempt-Owned policy index t owned =
      attempt_numbered-Owned policy index (begin_number t) (begin_number-Owned v before t owned)

  pub before_retry-Owned :
      (policy : RetryPolicy) (index : ℕ) (t : Transaction)
      → Owned v before t
      → Owned v before (before_retry env policy index t)
  unfolding before_retry
  before_retry-Owned policy index t owned =
      elim (Bool-cases
        (ltb index (policy.max_attempts - 1) && ltb 0 policy.delay_between_attempts)) [
          | inl pauses ↦ rw pauses (pause-Owned policy.delay_between_attempts t owned)
          | inr none_due ↦ rw none_due owned
        ]
