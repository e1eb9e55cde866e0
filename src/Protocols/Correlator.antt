-- ===== src/Protocols/Correlator.antt =====
-- rdm_dmx_async/protocols/response_correlator.py. A future is a number, under which its state is
-- kept, so that the handler table and the task that waits share it. Times are whole numbers of one
-- unit, given to the calls that read the clock.
pub mod Futures
pub mod Handlers
use rdm_dmx_async.Base.{
  ℕ, suc, ◌+◌, ◌-◌, Option, none, some, Result, ok, err, correlation_error, Bool, true, false, not,
  ltb, ◌==◌, if◌then◌else◌, List, [], ◌∷◌, length,
}
use rdm_dmx_async.Base.Table.{Table, lookup, insert, delete}
use rdm_dmx_async.Packets.Rdm.{RdmResponse}

pub data FutureState : Type 0 where
  pending cancelled : FutureState
  resolved : RdmResponse → FutureState

pub record ResponseCorrelator : Type 0 where
  pub handlers : Table ℕ
  pub handler_timestamps : Table ℕ
  pub stale_timeout : ℕ
  pub running : Bool
  pub futures : ℕ → FutureState
  pub next_future : ℕ

-- `__init__`
abbrev pub initial : ℕ → ResponseCorrelator
initial timeout = record {
  handlers = [];
  handler_timestamps = [];
  stale_timeout = timeout;
  running = false;
  futures = λ j. pending;
  next_future = 0;
}

unfoldable pub start : ResponseCorrelator → ResponseCorrelator
start s = if s.running then s else record s { running = true }

unfoldable pub is_done : FutureState → Bool
is_done pending = false
is_done _ = true

abbrev pub assign : ℕ → FutureState → (ℕ → FutureState) → ℕ → FutureState
assign f state futures j = if j == f then state else futures j

-- `if not future.done(): future.cancel()`
unfoldable pub cancel_pending : ℕ → (ℕ → FutureState) → ℕ → FutureState
unfolding is_done
cancel_pending f futures = if is_done (futures f) then futures else assign f cancelled futures

unfoldable pub cancel_all : Table ℕ → (ℕ → FutureState) → ℕ → FutureState
cancel_all [] futures = futures
cancel_all ((txn, f) ∷ rest) futures = cancel_all rest (cancel_pending f futures)

unfoldable pub stop : ResponseCorrelator → ResponseCorrelator
stop s = if not s.running then s else record s {
  running = false;
  handlers = [];
  handler_timestamps = [];
  futures = cancel_all s.handlers s.futures;
}

unfoldable pub register_free : ℕ → ℕ → Option ℕ → ResponseCorrelator → ResponseCorrelator × Result ℕ
register_free txn now (some f) s = (s, err correlation_error)
register_free txn now none s = (
  record s {
    handlers = insert txn s.next_future s.handlers;
    handler_timestamps = insert txn now s.handler_timestamps;
    futures = assign s.next_future pending s.futures;
    next_future = suc s.next_future;
  },
  ok s.next_future,
)

unfoldable pub register_handler : ℕ → ℕ → ResponseCorrelator → ResponseCorrelator × Result ℕ
unfolding register_free
register_handler txn now s = register_free txn now (lookup txn s.handlers) s

-- The two `pop`s.
unfoldable pub forget : ℕ → ResponseCorrelator → ResponseCorrelator
forget txn s = record s {
  handlers = delete txn s.handlers;
  handler_timestamps = delete txn s.handler_timestamps;
}

unfoldable pub resolve : RdmResponse → Option ℕ → ResponseCorrelator → ResponseCorrelator × Bool
unfolding is_done forget
resolve r none s = (s, false)
resolve r (some f) s = if is_done (s.futures f) then (s, false) else (
  forget r.transaction_number (record s { futures = assign f (resolved r) s.futures }),
  true,
)

unfoldable pub correlate_response : RdmResponse → ResponseCorrelator → ResponseCorrelator × Bool
unfolding resolve
correlate_response r s = resolve r (lookup r.transaction_number s.handlers) s

unfoldable pub unregister_handler : ℕ → ResponseCorrelator → ResponseCorrelator
unfolding forget
unregister_handler txn s = forget txn s

unfoldable pub get_pending_count : ResponseCorrelator → ℕ
get_pending_count s = length s.handlers

unfoldable pub stale_txns : ℕ → ℕ → Table ℕ → List ℕ
stale_txns now timeout [] = []
stale_txns now timeout ((txn, timestamp) ∷ rest) =
    let later = stale_txns now timeout rest in
    if ltb timeout (now - timestamp) then txn ∷ later else later

unfoldable pub cancel_handler : Option ℕ → ResponseCorrelator → ResponseCorrelator
cancel_handler none s = s
cancel_handler (some f) s = record s { futures = cancel_pending f s.futures }

unfoldable pub clean_up : List ℕ → ResponseCorrelator → ResponseCorrelator
clean_up [] s = s
clean_up (txn ∷ rest) s = clean_up rest (forget txn (cancel_handler (lookup txn s.handlers) s))

unfoldable pub cleanup_stale_handlers : ℕ → ResponseCorrelator → ResponseCorrelator
unfolding clean_up
cleanup_stale_handlers now s = clean_up (stale_txns now s.stale_timeout s.handler_timestamps) s
