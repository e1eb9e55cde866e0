-- ===== src/Examples/Transactions.antt =====
-- Concrete transactions: a responder that answers the second of two attempts.
use rdm_dmx_async.Base.{
  ℕ, zero, suc, ◌≡◌, ◌≤◌, refl, none, some, Result, ok, true, false, List, [], ◌∷◌, ◌++◌, length,
  contains, arith,
}
use rdm_dmx_async.Base.Words.{to_bytes}
use rdm_dmx_async.Packets.Types.{
  get_command_response, ResponseType, ack, nak, write_protect, nak_reason_value, unknown_pid,
}
use rdm_dmx_async.Packets.Rdm.{RdmResponse, nak_reason}
use rdm_dmx_async.Transaction.Allocator.{Allocator, allocate}
use rdm_dmx_async.Transaction.Allocator.Search.{Found, allocate-Found}
use rdm_dmx_async.Transaction.Policy.{standard_policy, default_permanent_failures}
use rdm_dmx_async.Transaction.Outcome.{TransactionResult, permanent_nak}
use rdm_dmx_async.Transaction.Execute.{
  Outcome, returned, timed_out, Environment, Transaction, new, fail, recorded_reason,
  after_response, execute,
}
use rdm_dmx_async.Transaction.Execute.Taken.{LeavesCall}
use rdm_dmx_async.Transaction.Execute.Release.{execute_releases}
use rdm_dmx_async.Transaction.Execute.Verdict.{Verdict, execute-Verdict}
use rdm_dmx_async.Transaction.Execute.Attempts.{execute-attempts}
use rdm_dmx_async.Transaction.Execute.Success.{Succeeds, execute-Succeeds}
use rdm_dmx_async.Transaction.Execute.Nak.{after_response-nak}

abbrev answer : ResponseType → List ℕ → ℕ → RdmResponse
answer kind payload n = record {
  source_uid = 0x454E00000001;
  destination_uid = 0x454E00000002;
  transaction_number = n;
  response_type = kind;
  message_count = 0;
  sub_device = 0;
  command_class = get_command_response;
  pid = 0x0060;
  payload = payload;
  checksum_valid = true;
}

-- The first call times out; each later one brings an ACK.
abbrev second_answers : ℕ → ℕ → Allocator → Outcome × Allocator
second_answers zero n a = (timed_out, a)
second_answers (suc i) n a = (returned (some (answer ack [] n)), a)

abbrev slow_device : Environment
slow_device = record {
  operation = second_answers;
  queued_message_operation = none;
  sleep = λ i ms a. a;
}

-- Number 255 is next, and in use is 1.
abbrev wrapping : Allocator
wrapping = record { next_number = 255; in_use = 1 ∷ [] }

second_answers-leaves : LeavesCall 255 second_answers
second_answers-leaves zero n a = refl
second_answers-leaves (suc i) n a = refl

execute-Verdict_example :
    Verdict standard_policy (execute slow_device standard_policy (new wrapping))
execute-Verdict_example = execute-Verdict slow_device standard_policy (new wrapping)

-- The other tasks do nothing, so that every number is left alone: 255 is taken and released.
execute_releases_example :
    contains 255 (execute slow_device standard_policy (new wrapping)).0.allocator.in_use
    ≡ contains 255 wrapping.in_use
execute_releases_example =
    execute_releases slow_device standard_policy wrapping 255
      (second_answers-leaves, tt, λ i ms a. refl)

execute-attempts_example :
    length (execute slow_device standard_policy (new wrapping)).0.attempts ≤ 3
execute-attempts_example = execute-attempts slow_device standard_policy wrapping

abbrev refusal : RdmResponse
refusal = answer nak (to_bytes 2 (nak_reason_value write_protect) ++ []) 7

abbrev give_up : Transaction → Transaction × Result TransactionResult
give_up t = fail (permanent_nak write_protect) false t

after_response-nak_example :
    (nak_reason refusal ≡ some write_protect)
    × (recorded_reason (some refusal) ≡ ok (some unknown_pid))
    × (after_response standard_policy give_up (some refusal) (new wrapping)
        ≡ fail (permanent_nak unknown_pid) true (new wrapping))
unfolding default_permanent_failures
after_response-nak_example =
    after_response-nak standard_policy give_up refusal write_protect [] (new wrapping) (refl, refl)
      refl

allocate-Found_example : Found wrapping 255 (allocate wrapping)
allocate-Found_example = allocate-Found wrapping (omega arith, omega arith)

-- Each call brings an ACK at once.
abbrev quick_device : Environment
quick_device = record {
  operation = λ i n a. (returned (some (answer ack [] n)), a);
  queued_message_operation = none;
  sleep = λ i ms a. a;
}

execute-Succeeds_example :
    (n : ℕ) × Succeeds (answer ack [] n) 1 (execute quick_device standard_policy (new wrapping))
unfolding contains
execute-Succeeds_example =
    execute-Succeeds quick_device standard_policy wrapping 2 (answer ack [])
      (omega arith, omega arith) (omega arith, omega arith) refl (omega arith) (λ n. refl)
      (λ n. refl) (λ n b. refl)
