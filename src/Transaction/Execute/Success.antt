-- ===== src/Transaction/Execute/Success.antt =====
-- A device that answers at once (transaction/async_transaction.py).
use rdm_dmx_async.Base.{
  ℕ, suc, ◌+◌, ◌-◌, ◌≡◌, ◌≤◌, refl, sym, ap, ◌∙◌, Option, none, some, Result, ok, true, false, List,
  [], ◌∷◌, length, length-append, contains, arith,
}
use std.Path.{subst}
use rdm_dmx_async.Packets.Types.{ack}
use rdm_dmx_async.Packets.Rdm.{
  RdmResponse, is_ack, is_nak, is_ack_timer, type_is_ack, type_is_nak, type_is_ack_timer,
}
use rdm_dmx_async.Transaction.Allocator.{Allocator, allocate, in_range}
use rdm_dmx_async.Transaction.Allocator.Search.{IsTxn, allocate_total}
use rdm_dmx_async.Transaction.Classifier.{
  active, register, all_in_range, classify_response, is_empty,
}
use rdm_dmx_async.Transaction.Policy.{RetryPolicy}
use rdm_dmx_async.Transaction.Outcome.{TransactionResult, Attempt}
use rdm_dmx_async.Transaction.Execute.{
  Outcome, returned, Environment, Transaction, tried, new, registered, numbered, begin_number,
  await_call, follow_up, classified, try_ended, recorded_reason, record_attempt, attempt_tried,
  attempt_numbered, execute_attempt, update_state, succeed, after_response, after_attempt,
  attempt_loop, release_allocated, execute,
}

register_one : (n : ℕ) → IsTxn n → register (n ∷ []) ≡ ok (n ∷ [])
unfolding register all_in_range in_range
register_one n h = ground arith

classify_own : (n : ℕ) → IsTxn n → classify_response (n ∷ []) n n ≡ ok active
unfolding classify_response is_empty in_range
classify_own n h = ground arith

numbered_one :
    (t : Transaction) (a : Allocator) (n : ℕ)
    → t.allocated ≡ []
    → IsTxn n
    → numbered t (a, ok n)
      ≡ (record t { allocator = a; allocated = n ∷ []; active_numbers = n ∷ [] }, ok n)
unfolding numbered registered
numbered_one t a n h valid = simp (h, register_one n valid)

-- A success with the response `r`, after so many attempts.
abbrev pub Succeeds : RdmResponse → ℕ → Transaction × Result TransactionResult → Type 0
Succeeds r made x =
    (out : TransactionResult) × (x.1 ≡ ok out)
    × (out.success ≡ true)
    × (out.final_response ≡ some r)
    × (length out.attempts ≡ made)

module _ (env : Environment) (policy : RetryPolicy) (r : RdmResponse)
    (acked : r.response_type ≡ ack) where
  follow_up_ack :
      (q : Option (ℕ → ℕ → Allocator → Outcome × Allocator)) (t : Transaction)
      → follow_up env policy r q t ≡ (t, tried (some r))
  unfolding follow_up is_ack_timer type_is_ack_timer
  follow_up_ack none t = refl
  follow_up_ack (some call) t = simp acked

  try_ended_ack :
      (n : ℕ) (t : Transaction)
      → IsTxn n
      → t.active_numbers ≡ n ∷ []
      → r.transaction_number ≡ n
      → try_ended env policy n (t, returned (some r)) ≡ (t, tried (some r))
  unfolding try_ended classified
  try_ended_ack n t valid own same =
      simp (own, same, classify_own n valid) (follow_up_ack env.queued_message_operation t)

  recorded_ack : recorded_reason (some r) ≡ ok none
  unfolding recorded_reason is_nak type_is_nak
  recorded_ack = simp acked

  attempt_tried_ack :
      (index n : ℕ) (t : Transaction)
      → (t' : Transaction) × (attempt_tried index n (t, tried (some r)) ≡ (t', ok (some r, false)))
        × (length t'.attempts ≡ length t.attempts + 1)
  unfolding attempt_tried record_attempt
  attempt_tried_ack index n t = rw recorded_ack (_, refl, length-append t.attempts _)

  after_attempt_ack :
      (index made : ℕ) (next : Transaction → Transaction × Result TransactionResult)
      (t : Transaction)
      → length t.attempts ≡ made
      → Succeeds r made (after_attempt env policy index next (t, ok (some r, false)))
  unfolding after_attempt after_response is_ack type_is_ack succeed
  after_attempt_ack index made next t h = simp acked (_, refl, refl, refl, h)

  execute_attempt_ack :
      (index n : ℕ) (t : Transaction) (b : Allocator)
      → t.allocated ≡ []
      → allocate t.allocator ≡ (b, ok n)
      → IsTxn n
      → r.transaction_number ≡ n
      → (env.operation t.awaits n b).0 ≡ returned (some r)
      → (t' : Transaction) × (execute_attempt env policy index t ≡ (t', ok (some r, false)))
        × (length t'.attempts ≡ length t.attempts + 1)
  unfolding execute_attempt attempt_numbered begin_number await_call
  execute_attempt_ack index n t b empty made valid same answered =
      let awaiting : Transaction = record t {
        allocator = b;
        allocated = n ∷ [];
        active_numbers = n ∷ [];
      } in
      let called : Transaction = (await_call env.operation n awaiting).0 in
      let ended = attempt_tried_ack index n called in
      (
        ended.0,
        ap (λ x. attempt_numbered env policy index (numbered t x)) made
            ∙ ap (attempt_numbered env policy index) (numbered_one t b n empty valid)
            ∙ ap (λ (o : Outcome). attempt_tried index n (try_ended env policy n (called, o)))
                answered
            ∙ ap (attempt_tried index n) (try_ended_ack n called valid refl same)
            ∙ ended.1,
        ended.2,
      )

  attempt_loop_ack :
      (left index n : ℕ) (t : Transaction) (b : Allocator)
      → t.allocated ≡ []
      → t.attempts ≡ []
      → allocate t.allocator ≡ (b, ok n)
      → IsTxn n
      → r.transaction_number ≡ n
      → (env.operation t.awaits n b).0 ≡ returned (some r)
      → Succeeds r 1 (attempt_loop env policy (suc left) index t)
  unfolding attempt_loop update_state
  attempt_loop_ack left index n t b empty first made valid same answered =
      let attempt =
        execute_attempt_ack index n (update_state index t) b empty made valid same answered in
      rw attempt.1 (
        after_attempt_ack index 1 (λ t'. attempt_loop env policy left (suc index) t') attempt.0
          (attempt.2 ∙ ap (λ (l : List Attempt). length l + 1) first))

  released_ack :
      (x : Transaction × Result TransactionResult)
      → Succeeds r 1 x
      → Succeeds r 1 (release_allocated x)
  unfolding release_allocated
  released_ack (t, o) h = h

  execute_ack :
      (n : ℕ) (a b : Allocator)
      → 1 ≤ policy.max_attempts
      → allocate a ≡ (b, ok n)
      → IsTxn n
      → r.transaction_number ≡ n
      → (env.operation 0 n b).0 ≡ returned (some r)
      → Succeeds r 1 (execute env policy (new a))
  unfolding execute new
  execute_ack n a b some_attempts made valid same answered =
      let count : policy.max_attempts ≡ suc (policy.max_attempts - 1) = omega arith in
      released_ack (attempt_loop env policy policy.max_attempts 0 (new a)) (
        subst (λ m. Succeeds r 1 (attempt_loop env policy m 0 (new a))) (sym count)
          (attempt_loop_ack (policy.max_attempts - 1) 0 n (new a) b refl refl made valid same
            answered))

-- Where some transaction number is free, at least one attempt is allowed and the device answers
-- the first call with an ACK that bears its number, the transaction returns: a success, with that
-- response, after one attempt.
pub execute-Succeeds :
    (env : Environment) (policy : RetryPolicy) (a : Allocator) (v : ℕ) (reply : ℕ → RdmResponse)
    → IsTxn a.next_number
    → IsTxn v
    → contains v a.in_use ≡ false
    → 1 ≤ policy.max_attempts
    → ((n : ℕ) → (reply n).response_type ≡ ack)
    → ((n : ℕ) → (reply n).transaction_number ≡ n)
    → ((n : ℕ) (b : Allocator) → (env.operation 0 n b).0 ≡ returned (some (reply n)))
    → (n : ℕ) × Succeeds (reply n) 1 (execute env policy (new a))
execute-Succeeds env policy a v reply h hv available some_attempts acks numbers answers =
    let found = allocate_total a v h hv available in
    let made : allocate a ≡ ((allocate a).0, ok found.0) =
      ap (λ (o : Result ℕ). ((allocate a).0, o)) found.1 in
    (
      found.0,
      execute_ack env policy (reply found.0) (acks found.0) found.0 a (allocate a).0 some_attempts
          made found.3 (numbers found.0) (answers found.0 (allocate a).0),
    )
