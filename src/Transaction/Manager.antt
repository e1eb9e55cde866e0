-- ===== src/Transaction/Manager.antt =====
-- rdm_dmx_async/transaction/transaction_manager.py. The protocol is what one transaction sees of it:
-- how each of its awaited calls ends, by the number of the call, and what happens meanwhile to the
-- allocator that it shares with other transactions.
use rdm_dmx_async.Base.{ℕ, Result, some, []}
use rdm_dmx_async.Base.Words.{Bytes}
use rdm_dmx_async.Packets.Types.{Uid, Pid}
use rdm_dmx_async.Transaction.Allocator.{Allocator}
use rdm_dmx_async.Transaction.Policy.{RetryPolicy}
use rdm_dmx_async.Transaction.Outcome.{TransactionResult}
use rdm_dmx_async.Transaction.Execute.{Environment, Outcome, Transaction, new, execute}

-- `send_get_command` and `send_set_command`, and the pauses between the calls.
pub record RdmProtocol : Type 0 where
  pub send_get_command : Uid → Pid → Bytes → ℕ → ℕ → Allocator → Outcome × Allocator
  pub send_set_command : Uid → Pid → Bytes → ℕ → ℕ → Allocator → Outcome × Allocator
  pub pause : ℕ → ℕ → Allocator → Allocator

-- `_QUEUED_MESSAGE_PID`
abbrev pub queued_message_pid : Pid
queued_message_pid = 0x0020

-- An ACK_TIMER is followed up by a GET of QUEUED_MESSAGE, for a GET and for a SET.
unfoldable pub environment :
    RdmProtocol → Uid → (ℕ → ℕ → Allocator → Outcome × Allocator) → Environment
environment protocol uid operation = record {
  operation = operation;
  queued_message_operation = some (protocol.send_get_command uid queued_message_pid []);
  sleep = protocol.pause;
}

unfoldable pub result_of :
    Transaction × Result TransactionResult → Allocator × Result TransactionResult
result_of (t, r) = (t.allocator, r)

unfoldable pub get :
    RetryPolicy → RdmProtocol → Uid → Pid → Bytes → Allocator → Allocator × Result TransactionResult
unfolding environment result_of execute
get policy protocol uid pid arguments a = result_of (
    execute (environment protocol uid (protocol.send_get_command uid pid arguments)) policy (new a))

unfoldable pub set :
    RetryPolicy → RdmProtocol → Uid → Pid → Bytes → Allocator → Allocator × Result TransactionResult
unfolding environment result_of execute
set policy protocol uid pid arguments a = result_of (
    execute (environment protocol uid (protocol.send_set_command uid pid arguments)) policy (new a))
