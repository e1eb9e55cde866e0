-- ===== src/Transaction/Execute/Release.antt =====
-- Transaction numbers after a transaction (transaction/async_transaction.py).
use rdm_dmx_async.Base.{
  ℕ, zero, suc, ◌≡◌, ◌∙◌, Option, none, some, Result, ok, err, Bool, true, false, ◌&&◌, ◌||◌,
  if◌then◌else◌, Bool-cases, inl, inr, contains, arith,
}
use rdm_dmx_async.Packets.Types.{NakReason}
use rdm_dmx_async.Packets.Rdm.{RdmResponse, is_ack}
use rdm_dmx_async.Transaction.Allocator.{Allocator}
use rdm_dmx_async.Transaction.Allocator.Invariant.{contains-release_all}
use rdm_dmx_async.Transaction.Policy.{RetryPolicy, is_permanent_failure}
use rdm_dmx_async.Transaction.Outcome.{TransactionResult}
use rdm_dmx_async.Transaction.Execute.{
  Environment, Transaction, recorded_reason, execute_attempt, update_state, succeed, fail, new,
  before_retry, after_nak, after_response, after_attempt, attempt_loop, release_allocated, execute,
}
use rdm_dmx_async.Transaction.Execute.Taken.{Leaves, Owned}
use rdm_dmx_async.Transaction.Execute.Owned.{execute_attempt-Owned, before_retry-Owned}

module _ (v : ℕ) (before : Bool) (policy : RetryPolicy)
    (retry : Transaction → Transaction × Result TransactionResult)
    (keeps : (t : Transaction) → Owned v before t → Owned v before (retry t).0) where
  after_nak-Owned :
      (o : Result (Option NakReason)) (t : Transaction)
      → Owned v before t
      → Owned v before (after_nak policy retry o t).0
  unfolding after_nak fail is_permanent_failure
  after_nak-Owned (err e) t owned = owned
  after_nak-Owned (ok none) t owned = keeps t owned
  after_nak-Owned (ok (some reason)) t owned =
      elim (Bool-cases (policy.permanent_failures reason)) [
        | inl permanent ↦ rw permanent owned
        | inr transient ↦ rw transient (keeps t owned)
      ]

  after_response-Owned :
      (o : Option RdmResponse) (t : Transaction)
      → Owned v before t
      → Owned v before (after_response policy retry o t).0
  unfolding after_response succeed
  after_response-Owned none t owned = keeps t owned
  after_response-Owned (some r) t owned = elim (Bool-cases (is_ack r)) [
    | inl acked ↦ rw acked owned
    | inr other ↦ rw other (after_nak-Owned (recorded_reason (some r)) t owned)
  ]

module _ (v : ℕ) (before : Bool) (env : Environment) (leaves : Leaves v env)
    (policy : RetryPolicy) where
  after_attempt-Owned :
      (index : ℕ) (next : Transaction → Transaction × Result TransactionResult)
      (x : Transaction × Result (Option RdmResponse × Bool))
      → ((t : Transaction) → Owned v before t → Owned v before (next t).0)
      → Owned v before x.0
      → Owned v before (after_attempt env policy index next x).0
  unfolding after_attempt
  after_attempt-Owned index next (t, err e) keeps owned = owned
  after_attempt-Owned index next (t, ok (response, true)) keeps owned = keeps t owned
  after_attempt-Owned index next (t, ok (response, false)) keeps owned =
      after_response-Owned v before policy (λ t'. next (before_retry env policy index t'))
        (λ t' owned'.
          keeps (before_retry env policy index t')
            (before_retry-Owned v before env leaves policy index t' owned'))
        response t owned

  attempt_loop-Owned :
      (left index : ℕ) (t : Transaction)
      → Owned v before t
      → Owned v before (attempt_loop env policy left index t).0
  unfolding attempt_loop fail update_state
  attempt_loop-Owned zero index t owned = owned
  attempt_loop-Owned (suc left) index t owned =
      after_attempt-Owned index (λ t'. attempt_loop env policy left (suc index) t')
        (execute_attempt env policy index (update_state index t))
        (λ t' owned'. attempt_loop-Owned left (suc index) t' owned')
        (execute_attempt-Owned v before env leaves policy index (update_state index t) owned)

released :
    (now before listed : Bool)
    → now ≡ (before || listed)
    → (before && listed) ≡ false
    → (if listed then false else now) ≡ before
released now before listed p q = ground arith

-- However a transaction ends, by a result or by an exception, a number is afterwards in use exactly
-- if it was in use before the transaction, where the other tasks leave that number alone during
-- each of its awaited calls: the transaction neither leaves such a number in use nor releases it
-- for another task.
pub execute_releases :
    (env : Environment) (policy : RetryPolicy) (a : Allocator) (v : ℕ)
    → Leaves v env
    → contains v (execute env policy (new a)).0.allocator.in_use ≡ contains v a.in_use
unfolding execute release_allocated
execute_releases env policy a v leaves =
    let ended = (attempt_loop env policy policy.max_attempts 0 (new a)).0 in
    let before = contains v a.in_use in
    let owned : Owned v before ended =
      attempt_loop-Owned v before env leaves policy policy.max_attempts 0 (new a)
        (unfold new contains in (ground arith, ground arith)) in
    contains-release_all ended.allocated v ended.allocator
    ∙ released (contains v ended.allocator.in_use) before (contains v ended.allocated) owned.0
        owned.1
