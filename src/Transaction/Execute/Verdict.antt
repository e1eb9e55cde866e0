-- ===== src/Transaction/Execute/Verdict.antt =====
-- What a transaction's result says (transaction/async_transaction.py).
use rdm_dmx_async.Base.{
  ℕ, zero, suc, ◌≡◌, refl, ◌⊎◌, inl, inr, Option, none, some, Result, ok, err, Bool, true, false,
  Bool-cases,
}
use rdm_dmx_async.Packets.Types.{NakReason}
use rdm_dmx_async.Packets.Rdm.{RdmResponse, is_ack}
use rdm_dmx_async.Transaction.Policy.{RetryPolicy}
use rdm_dmx_async.Transaction.Outcome.{
  succeeded, failed, TransactionResult, attempts_exhausted, permanent_nak,
}
use rdm_dmx_async.Transaction.Execute.Raises.{
  Raised, OnlyRaises, recorded_reason-OnlyRaises, execute_attempt-OnlyRaises,
}
use rdm_dmx_async.Transaction.Execute.{
  Environment, Transaction, succeed, fail, after_nak, after_response, after_attempt, before_retry,
  attempt_loop, release_allocated, execute, execute_attempt, update_state, recorded_reason,
}

-- A result agrees with the transaction: it lists the attempts made, and either there is a final
-- response, which is an ACK, or there is none and an error is named, which is a NAK that the
-- policy takes for permanent exactly if the result says so.
abbrev pub Agrees : RetryPolicy → Transaction → TransactionResult → Type 0
Agrees policy t x =
    (x.attempts ≡ t.attempts)
    × (((x.success ≡ true)
          × (t.state ≡ succeeded)
          × (x.permanent_failure ≡ false)
          × ((r : RdmResponse) × (x.final_response ≡ some r) × (is_ack r ≡ true)))
        ⊎ ((x.success ≡ false)
            × (t.state ≡ failed)
            × (x.final_response ≡ none)
            × (((x.permanent_failure ≡ false) × (x.error_message ≡ some attempts_exhausted))
                ⊎ ((x.permanent_failure ≡ true)
                    × ((reason : NakReason) × (x.error_message ≡ some (permanent_nak reason))
                        × (policy.permanent_failures reason ≡ true))))))

-- A transaction ends by such a result, or by an exception of the two kinds that it lets through.
abbrev pub Verdict : RetryPolicy → Transaction × Result TransactionResult → Type 0
Verdict policy (t, err e) = Raised e
Verdict policy (t, ok x) = Agrees policy t x

module _ (policy : RetryPolicy) where
  succeed-Verdict :
      (r : RdmResponse) (t : Transaction) → is_ack r ≡ true → Verdict policy (succeed r t)
  unfolding succeed
  succeed-Verdict r t h = (refl, inl (refl, refl, refl, (r, refl, h)))

  exhausted-Verdict : (t : Transaction) → Verdict policy (fail attempts_exhausted false t)
  unfolding fail
  exhausted-Verdict t = (refl, inr (refl, refl, refl, inl (refl, refl)))

  permanent-Verdict :
      (reason : NakReason) (t : Transaction)
      → policy.permanent_failures reason ≡ true
      → Verdict policy (fail (permanent_nak reason) true t)
  unfolding fail
  permanent-Verdict reason t h = (refl, inr (refl, refl, refl, inr (refl, (reason, refl, h))))

  module _ (retry : Transaction → Transaction × Result TransactionResult)
      (good : (t : Transaction) → Verdict policy (retry t)) where
    after_nak-Verdict :
        (o : Result (Option NakReason)) (t : Transaction)
        → OnlyRaises o
        → Verdict policy (after_nak policy retry o t)
    unfolding after_nak
    after_nak-Verdict (err e) t h = h
    after_nak-Verdict (ok none) t h = good t
    after_nak-Verdict (ok (some reason)) t h =
        elim (Bool-cases (policy.permanent_failures reason)) [
          | inl permanent ↦ rw permanent (permanent-Verdict reason t permanent)
          | inr transient ↦ rw transient (good t)
        ]

    after_response-Verdict :
        (o : Option RdmResponse) (t : Transaction)
        → Verdict policy (after_response policy retry o t)
    unfolding after_response
    after_response-Verdict none t = good t
    after_response-Verdict (some r) t = elim (Bool-cases (is_ack r)) [
      | inl acked ↦ rw acked (succeed-Verdict r t acked)
      | inr other ↦
          rw other
            (after_nak-Verdict (recorded_reason (some r)) t (recorded_reason-OnlyRaises (some r)))
    ]

  after_attempt-Verdict :
      (env : Environment) (index : ℕ) (next : Transaction → Transaction × Result TransactionResult)
      (x : Transaction × Result (Option RdmResponse × Bool))
      → ((t : Transaction) → Verdict policy (next t))
      → OnlyRaises x.1
      → Verdict policy (after_attempt env policy index next x)
  unfolding after_attempt
  after_attempt-Verdict env index next (t, err e) good h = h
  after_attempt-Verdict env index next (t, ok (response, true)) good h = good t
  after_attempt-Verdict env index next (t, ok (response, false)) good h =
      after_response-Verdict (λ t'. next (before_retry env policy index t'))
        (λ t'. good (before_retry env policy index t')) response t

  attempt_loop-Verdict :
      (env : Environment) (left index : ℕ) (t : Transaction)
      → Verdict policy (attempt_loop env policy left index t)
  unfolding attempt_loop
  attempt_loop-Verdict env zero index t = exhausted-Verdict t
  attempt_loop-Verdict env (suc left) index t =
      after_attempt-Verdict env index (λ t'. attempt_loop env policy left (suc index) t')
        (execute_attempt env policy index (update_state index t))
        (λ t'. attempt_loop-Verdict env left (suc index) t')
        (execute_attempt-OnlyRaises env policy index (update_state index t))

  released-Verdict :
      (x : Transaction × Result TransactionResult)
      → Verdict policy x
      → Verdict policy (release_allocated x)
  unfolding release_allocated
  released-Verdict (t, err e) h = h
  released-Verdict (t, ok x) h = h

-- A transaction returns a result that agrees with its final state, in which success is an ACK in
-- hand, a permanent failure a NAK of the policy's, and any other failure every attempt used up; or
-- it raises, and then only the error of the allocator or of a value out of range.
pub execute-Verdict :
    (env : Environment) (policy : RetryPolicy) (t : Transaction)
    → Verdict policy (execute env policy t)
unfolding execute
execute-Verdict env policy t =
    released-Verdict policy (attempt_loop env policy policy.max_attempts 0 t)
      (attempt_loop-Verdict policy env policy.max_attempts 0 t)
