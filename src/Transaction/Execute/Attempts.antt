-- ===== src/Transaction/Execute/Attempts.antt =====
-- How many attempts a transaction makes (transaction/async_transaction.py).
use rdm_dmx_async.Base.{
  ℕ, zero, suc, ◌+◌, ◌≤◌, ◌≡◌, refl, ◌∙◌, Option, none, some, Result, ok, err, Bool, true, false,
  ltb, ◌-◌, ◌&&◌, Bool-cases, inl, inr, List, length, length-append, arith,
}
use std.Path.{subst}
use rdm_dmx_async.Packets.Types.{NakReason}
use rdm_dmx_async.Packets.Rdm.{RdmResponse, is_ack, is_ack_timer}
use rdm_dmx_async.Transaction.Allocator.{Allocator, allocate}
use rdm_dmx_async.Transaction.Classifier.{Classification, classify_response, late}
use rdm_dmx_async.Transaction.Policy.{RetryPolicy, is_permanent_failure}
use rdm_dmx_async.Transaction.Outcome.{TransactionResult}
use rdm_dmx_async.Transaction.Execute.{
  Outcome, returned, timed_out, raised, Environment, Transaction, Tried, registered, numbered,
  begin_number, await_call, pause, delay_of, polled, poll_numbered, poll_queued_message, poll_ended,
  follow_up, classified, try_ended, recorded_reason, record_attempt, attempt_tried,
  attempt_numbered, execute_attempt, update_state, succeed, fail, new, before_retry, after_nak,
  after_response, after_attempt, attempt_loop, release_allocated, execute,
}

registered-attempts :
    (t : Transaction) (n : ℕ) (r : Result (List ℕ)) → (registered t n r).0.attempts ≡ t.attempts
unfolding registered
registered-attempts t n (ok numbers) = refl
registered-attempts t n (err e) = refl

numbered-attempts :
    (t : Transaction) (x : Allocator × Result ℕ) → (numbered t x).0.attempts ≡ t.attempts
unfolding numbered
numbered-attempts t (a, ok n) = registered-attempts _ n _
numbered-attempts t (a, err e) = refl

begin_number-attempts : (t : Transaction) → (begin_number t).0.attempts ≡ t.attempts
unfolding begin_number
begin_number-attempts t = numbered-attempts t (allocate t.allocator)

module _ (call : ℕ → ℕ → Allocator → Outcome × Allocator) (r : RdmResponse)
    (again : Transaction → Option RdmResponse → Transaction × Result (Option RdmResponse))
    (kept : (t : Transaction) (o : Option RdmResponse) → (again t o).0.attempts ≡ t.attempts) where
  polled-attempts : (x : Transaction × Outcome) → (polled r again x).0.attempts ≡ x.0.attempts
  unfolding polled
  polled-attempts (t, returned o) = kept t o
  polled-attempts (t, timed_out) = refl
  polled-attempts (t, raised e) = refl

  poll_numbered-attempts :
      (x : Transaction × Result ℕ) → (poll_numbered call r again x).0.attempts ≡ x.0.attempts
  unfolding poll_numbered
  poll_numbered-attempts (t, ok n) = polled-attempts (await_call call n t)
  poll_numbered-attempts (t, err e) = refl

poll-attempts :
    (env : Environment) (call : ℕ → ℕ → Allocator → Outcome × Allocator) (polls : ℕ)
    (t : Transaction) (o : Option RdmResponse)
    → (poll_queued_message env call polls t o).0.attempts ≡ t.attempts
unfolding poll_queued_message pause
poll-attempts env call zero t o = refl
poll-attempts env call (suc polls) t none = refl
poll-attempts env call (suc polls) t (some r) = elim (Bool-cases (is_ack_timer r)) [
  | inr other ↦ rw other
  | inl waits ↦ rw waits (
      poll_numbered-attempts call r (λ t' next. poll_queued_message env call polls t' next)
        (λ t' o'. poll-attempts env call polls t' o') (begin_number (pause env (delay_of r) t))
      ∙ begin_number-attempts (pause env (delay_of r) t))
]

poll_ended-attempts :
    (r : RdmResponse) (x : Transaction × Result (Option RdmResponse))
    → (poll_ended r x).0.attempts ≡ x.0.attempts
unfolding poll_ended
poll_ended-attempts r (t, ok o) = refl
poll_ended-attempts r (t, err e) = refl

module _ (env : Environment) (policy : RetryPolicy) where
  follow_up-attempts :
      (r : RdmResponse) (q : Option (ℕ → ℕ → Allocator → Outcome × Allocator)) (t : Transaction)
      → (follow_up env policy r q t).0.attempts ≡ t.attempts
  unfolding follow_up
  follow_up-attempts r none t = refl
  follow_up-attempts r (some call) t = elim (Bool-cases (is_ack_timer r)) [
    | inr other ↦ rw other
    | inl waits ↦ rw waits (
        poll_ended-attempts r (poll_queued_message env call policy.max_ack_timer_polls t (some r))
        ∙ poll-attempts env call policy.max_ack_timer_polls t (some r))
  ]

  classified-attempts :
      (r : RdmResponse) (c : Result Classification) (t : Transaction)
      → (classified env policy r c t).0.attempts ≡ t.attempts
  unfolding classified
  classified-attempts r (err e) t = refl
  classified-attempts r (ok late) t = refl
  classified-attempts r (ok _) t = follow_up-attempts r env.queued_message_operation t

  try_ended-attempts :
      (n : ℕ) (x : Transaction × Outcome) → (try_ended env policy n x).0.attempts ≡ x.0.attempts
  unfolding try_ended
  try_ended-attempts n (t, timed_out) = refl
  try_ended-attempts n (t, raised e) = refl
  try_ended-attempts n (t, returned none) = refl
  try_ended-attempts n (t, returned (some r)) =
      classified-attempts r (classify_response t.active_numbers r.transaction_number n) t

  record_attempt-attempts :
      (index n : ℕ) (x : Tried) (o : Result (Option NakReason)) (t : Transaction)
      → length (record_attempt index n x o t).0.attempts ≤ length t.attempts + 1
  unfolding record_attempt
  record_attempt-attempts index n x (ok o) t = omega (arith, length-append t.attempts)
  record_attempt-attempts index n x (err e) t = omega arith

  attempt_tried-attempts :
      (index n : ℕ) (x : Transaction × Tried)
      → length (attempt_tried index n x).0.attempts ≤ length x.0.attempts + 1
  unfolding attempt_tried
  attempt_tried-attempts index n (t, x) =
      record_attempt-attempts index n x (recorded_reason x.response) t

  attempt_numbered-attempts :
      (index : ℕ) (x : Transaction × Result ℕ)
      → length (attempt_numbered env policy index x).0.attempts ≤ length x.0.attempts + 1
  unfolding attempt_numbered await_call
  attempt_numbered-attempts index (t, err e) = omega arith
  attempt_numbered-attempts index (t, ok n) =
      let called = await_call env.operation n t in
      let ended = try_ended env policy n called in
      subst (λ l. length (attempt_tried index n ended).0.attempts ≤ length l + 1)
        (try_ended-attempts n called) (attempt_tried-attempts index n ended)

  execute_attempt-attempts :
      (index : ℕ) (t : Transaction)
      → length (execute_attempt env policy index t).0.attempts ≤ length t.attempts + 1
  unfolding execute_attempt
  execute_attempt-attempts index t =
      subst (λ l. length (execute_attempt env policy index t).0.attempts ≤ length l + 1)
        (begin_number-attempts t) (attempt_numbered-attempts index (begin_number t))

module _ (policy : RetryPolicy) (extra : ℕ)
    (retry : Transaction → Transaction × Result TransactionResult)
    (kept : (t : Transaction) → length (retry t).0.attempts ≤ length t.attempts + extra) where
  after_nak-attempts :
      (o : Result (Option NakReason)) (t : Transaction)
      → length (after_nak policy retry o t).0.attempts ≤ length t.attempts + extra
  unfolding after_nak fail is_permanent_failure
  after_nak-attempts (err e) t = omega arith
  after_nak-attempts (ok none) t = kept t
  after_nak-attempts (ok (some reason)) t = elim (Bool-cases (policy.permanent_failures reason)) [
    | inl permanent ↦ rw permanent (omega arith)
    | inr transient ↦ rw transient (kept t)
  ]

  after_response-attempts :
      (o : Option RdmResponse) (t : Transaction)
      → length (after_response policy retry o t).0.attempts ≤ length t.attempts + extra
  unfolding after_response succeed
  after_response-attempts none t = kept t
  after_response-attempts (some r) t = elim (Bool-cases (is_ack r)) [
    | inl acked ↦ rw acked (omega arith)
    | inr other ↦ rw other (after_nak-attempts (recorded_reason (some r)) t)
  ]

module _ (env : Environment) (policy : RetryPolicy) (index extra : ℕ)
    (next : Transaction → Transaction × Result TransactionResult)
    (kept : (t : Transaction) → length (next t).0.attempts ≤ length t.attempts + extra) where
  before_retry-attempts :
      (t : Transaction) → (before_retry env policy index t).attempts ≡ t.attempts
  unfolding before_retry pause
  before_retry-attempts t =
      elim (Bool-cases
        (ltb index (policy.max_attempts - 1) && ltb 0 policy.delay_between_attempts)) [
          | inl pauses ↦ rw pauses
          | inr none_due ↦ rw none_due
        ]

  retry-attempts :
      (t : Transaction)
      → length (next (before_retry env policy index t)).0.attempts ≤ length t.attempts + extra
  retry-attempts t =
      subst (λ l. length (next (before_retry env policy index t)).0.attempts ≤ length l + extra)
        (before_retry-attempts t) (kept (before_retry env policy index t))

  after_attempt-attempts :
      (x : Transaction × Result (Option RdmResponse × Bool))
      → length (after_attempt env policy index next x).0.attempts ≤ length x.0.attempts + extra
  unfolding after_attempt
  after_attempt-attempts (t, err e) = omega arith
  after_attempt-attempts (t, ok (response, true)) = kept t
  after_attempt-attempts (t, ok (response, false)) =
      after_response-attempts policy extra (λ t'. next (before_retry env policy index t'))
        retry-attempts response t

attempt_loop-attempts :
    (env : Environment) (policy : RetryPolicy) (left index : ℕ) (t : Transaction)
    → length (attempt_loop env policy left index t).0.attempts ≤ length t.attempts + left
unfolding attempt_loop fail update_state
attempt_loop-attempts env policy zero index t = omega arith
attempt_loop-attempts env policy (suc left) index t = omega (
  arith,
  after_attempt-attempts env policy index left (λ t'. attempt_loop env policy left (suc index) t')
      (λ t'. attempt_loop-attempts env policy left (suc index) t')
      (execute_attempt env policy index (update_state index t)),
  execute_attempt-attempts env policy index (update_state index t),
)

-- A transaction records at most `max_attempts` attempts: a skipped late response is one of them,
-- and the polls of QUEUED_MESSAGE are none.
pub execute-attempts :
    (env : Environment) (policy : RetryPolicy) (a : Allocator)
    → length (execute env policy (new a)).0.attempts ≤ policy.max_attempts
unfolding execute release_allocated new
execute-attempts env policy a =
    omega (arith, attempt_loop-attempts env policy policy.max_attempts 0 (new a))
