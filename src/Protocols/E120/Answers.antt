-- ===== src/Protocols/E120/Answers.antt =====
-- What `_send_and_receive` returns, and what it leaves (protocols/rdm_e120.py).
use rdm_dmx_async.Base.{
  ℕ, ◌≡◌, refl, ◌∙◌, none, some, Result, ok, err, cancelled_error, ◌&&◌, Bool-cases, inl, inr, List,
  [], ◌∷◌, ==-refl,
}
use rdm_dmx_async.Base.Words.{Bytes}
use rdm_dmx_async.Base.Table.{lookup, lookup-delete}
use rdm_dmx_async.Packets.Rdm.{RdmRequest, RdmResponse}
use rdm_dmx_async.Packets.Encoder.{IsEncodable}
use rdm_dmx_async.Packets.RoundTrip.{encode_total}
use rdm_dmx_async.Protocols.Validator.{validate_request}
use rdm_dmx_async.Protocols.Correlator.{ResponseCorrelator, unregister_handler, forget}
use rdm_dmx_async.Protocols.E120.{
  E120Protocol, Ending, deadline, given_up, ended, wait_over, receive_round, looked_at,
  await_future, Line, sent, forgotten, finished, registered, encoded, has_fault, send_and_receive,
}
use rdm_dmx_async.Protocols.E120.Handlers.{
  Owned, waiting, answered, IsFresh, receive_round-Owned, register_handler-Waits, Waits,
}

-- While the wait lasts: a response bears the number, and its handler is gone; after an exception
-- the handler is still there.
abbrev Waited : ℕ → E120Protocol × Result RdmResponse → Type 0
Waited txn (s, ok r) = (r.transaction_number ≡ txn) × (lookup txn s.correlator.handlers ≡ none)
Waited txn (s, err e) = (f : ℕ) × (lookup txn s.correlator.handlers ≡ some f)

-- At the end no handler is left under the number, and a response bears it; only a cancelled
-- request leaves its handler behind.
abbrev pub Finished : ℕ → E120Protocol × Result RdmResponse → Type 0
Finished txn (s, ok r) = (r.transaction_number ≡ txn) × (lookup txn s.correlator.handlers ≡ none)
Finished txn (s, err cancelled_error) = (f : ℕ) × (lookup txn s.correlator.handlers ≡ some f)
Finished txn (s, err e) = lookup txn s.correlator.handlers ≡ none

looked_at-Waited :
    (txn f : ℕ) (s : E120Protocol) (later : E120Protocol × Result RdmResponse)
    → Owned txn f s.correlator
    → Waited txn later
    → Waited txn (looked_at (s.correlator.futures f) s later)
unfolding looked_at
looked_at-Waited txn f s later (waiting p l unique) h = rw p h
looked_at-Waited txn f s later (answered r done number gone) h = rw done (number, gone)

wait_over-Waited :
    (ending : Ending) (txn f : ℕ) (s : E120Protocol)
    → lookup txn s.correlator.handlers ≡ some f
    → Waited txn (wait_over ending f s)
unfolding wait_over ended
wait_over-Waited deadline txn f s h = (f, h)
wait_over-Waited given_up txn f s h = (f, h)

await_end-Waited :
    (ending : Ending) (txn f : ℕ) (s : E120Protocol)
    → Owned txn f s.correlator
    → Waited txn (looked_at (s.correlator.futures f) s (wait_over ending f s))
unfolding looked_at
await_end-Waited ending txn f s (waiting p l unique) = rw p (wait_over-Waited ending txn f s l)
await_end-Waited ending txn f s (answered r done number gone) = rw done (number, gone)

await_future-Waited :
    (ending : Ending) (txn f : ℕ) (events : List (Result Bytes)) (s : E120Protocol)
    → Owned txn f s.correlator
    → Waited txn (await_future ending f events s)
unfolding await_future
await_future-Waited ending txn f [] s h = await_end-Waited ending txn f s h
await_future-Waited ending txn f (event ∷ events) s h =
    looked_at-Waited txn f s (await_future ending f events (receive_round event s)) h (
      await_future-Waited ending txn f events (receive_round event s)
        (receive_round-Owned txn f event s h))

sent-Waited :
    (line : Line) (txn f : ℕ) (o : Result (Unit {0})) (s : E120Protocol)
    → Owned txn f s.correlator
    → lookup txn s.correlator.handlers ≡ some f
    → Waited txn (sent line f o s)
unfolding sent
sent-Waited line txn f (err e) s h l = (f, l)
sent-Waited line txn f (ok done) s h l = await_future-Waited line.ending txn f line.events s h

forgotten-lookup :
    (txn : ℕ) (s : E120Protocol) → lookup txn (forgotten txn s).correlator.handlers ≡ none
unfolding forgotten unregister_handler forget
forgotten-lookup txn s = lookup-delete txn txn s.correlator.handlers ∙ rw (==-refl txn) refl

finished-Finished :
    (txn : ℕ) (x : E120Protocol × Result RdmResponse) → Waited txn x → Finished txn (finished txn x)
unfolding finished
finished-Finished txn (s, ok r) h = h
finished-Finished txn (s, err cancelled_error) h = h
finished-Finished txn (s, err _) h = forgotten-lookup txn s

registered-Finished :
    (line : Line) (txn : ℕ) (packet : Bytes) (s : E120Protocol) (c : ResponseCorrelator)
    → Waits txn s.correlator.next_future c
    → Finished txn (registered line txn packet s (c, ok s.correlator.next_future))
unfolding registered
registered-Finished line txn packet s c w = finished-Finished txn _ (
    sent-Waited line txn s.correlator.next_future (line.send packet) (record s { correlator = c })
      (waiting w.0 w.1 w.2) w.1)

-- When a request whose number is unused ends, its number is unused again, whatever is received
-- and however the wait ends, and a response that it returns bears the number. Only a request that
-- is cancelled keeps its handler.
pub send_and_receive-Finished :
    (line : Line) (q : RdmRequest) (s : E120Protocol)
    → IsEncodable q
    → IsFresh s.correlator
    → lookup q.transaction_number s.correlator.handlers ≡ none
    → Finished q.transaction_number (send_and_receive line q s)
unfolding send_and_receive encoded
send_and_receive-Finished line q s enc fresh unused =
    let made = encode_total q enc in
    let waits = register_handler-Waits q.transaction_number line.now s.correlator fresh unused in
    elim (Bool-cases (s.validate_requests && has_fault (validate_request q))) [
      | inl bad ↦ rw bad unused
      | inr good ↦
          rw (good, made.1, waits.1)
            (registered-Finished line q.transaction_number made.0 s waits.0 waits.2)
    ]
