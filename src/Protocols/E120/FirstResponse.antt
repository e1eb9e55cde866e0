-- ===== src/Protocols/E120/FirstResponse.antt =====
-- Which response a request returns (protocols/rdm_e120.py).
use rdm_dmx_async.Base.{
  ℕ, ◌≡◌, refl, sym, ap, ◌∙◌, Option, none, some, Result, ok, err, cancelled_error,
  protocol_timeout, Bool, false, ◌&&◌, ◌==◌, ==→eq, if◌then◌else◌, Bool-cases, inl, inr, List, [],
  ◌∷◌,
}
use rdm_dmx_async.Base.Words.{Bytes}
use rdm_dmx_async.Base.Table.{lookup}
use rdm_dmx_async.Packets.Rdm.{RdmRequest, RdmResponse}
use rdm_dmx_async.Packets.Encoder.{IsEncodable}
use rdm_dmx_async.Packets.RoundTrip.{encode_total}
use rdm_dmx_async.Packets.Decoder.{decode_rdm_response}
use rdm_dmx_async.Protocols.Validator.{Fault, validate_response, validate_request}
use rdm_dmx_async.Protocols.Correlator.{ResponseCorrelator, pending, resolved, correlate_response}
use rdm_dmx_async.Protocols.Correlator.Handlers.{resolve_pending}
use rdm_dmx_async.Protocols.E120.{
  E120Protocol, Ending, deadline, given_up, ended, wait_over, correlated, validated, decoded,
  is_manchester, receive_round, looked_at, await_future, has_fault, Line, sent, finished,
  registered, encoded, send_and_receive,
}
use rdm_dmx_async.Protocols.E120.Handlers.{
  Waits, correlate_other, ==→ne, IsFresh, register_handler-Waits,
}

-- The response that a round of the receive loop hands to the correlator, if there is one.
abbrev pub accepted : Bool → Result (Option RdmResponse) → Option RdmResponse
accepted strict (err e) = none
accepted strict (ok none) = none
accepted strict (ok (some r)) = if has_fault (validate_response strict r) then none else some r

abbrev pub response_in : Bool → Result Bytes → Option RdmResponse
response_in strict (err e) = none
response_in strict (ok bs) =
    if is_manchester bs then none else accepted strict (decode_rdm_response bs)

-- The first of them that bears the number.
abbrev pub or_first : ℕ → Option RdmResponse → Option RdmResponse → Option RdmResponse
or_first txn none later = later
or_first txn (some r) later = if r.transaction_number == txn then some r else later

abbrev pub first_response : Bool → ℕ → List (Result Bytes) → Option RdmResponse
first_response strict txn [] = none
first_response strict txn (event ∷ events) =
    or_first txn (response_in strict event) (first_response strict txn events)

-- What the caller gets.
abbrev pub outcome : Ending → Option RdmResponse → Result RdmResponse
outcome ending (some r) = ok r
outcome deadline none = err protocol_timeout
outcome given_up none = err cancelled_error

validated-accepted :
    (o : Option Fault) (r : RdmResponse) (s : E120Protocol)
    → (validated o r s).correlator
      ≡ (if has_fault o then s.correlator else (correlate_response r s.correlator).0)
unfolding validated has_fault correlated
validated-accepted (some fault) r s = refl
validated-accepted none r s = refl

-- What a round makes of the correlator, by the response in it.
abbrev after_response : Option RdmResponse → ResponseCorrelator → ResponseCorrelator
after_response none c = c
after_response (some r) c = (correlate_response r c).0

decoded-accepted :
    (x : Result (Option RdmResponse)) (s : E120Protocol)
    → (decoded x s).correlator ≡ after_response (accepted s.strict_mode x) s.correlator
unfolding decoded
decoded-accepted (err e) s = refl
decoded-accepted (ok none) s = refl
decoded-accepted (ok (some r)) s =
    validated-accepted (validate_response s.strict_mode r) r s
    ∙ (elim (Bool-cases (has_fault (validate_response s.strict_mode r))) [
      | inl bad ↦ rw bad refl
      | inr good ↦ rw good refl
    ])

receive_round-response_in :
    (event : Result Bytes) (s : E120Protocol)
    → (receive_round event s).correlator
      ≡ after_response (response_in s.strict_mode event) s.correlator
unfolding receive_round
receive_round-response_in (err e) s = refl
receive_round-response_in (ok bs) s = elim (Bool-cases (is_manchester bs)) [
  | inl routed ↦ rw routed refl
  | inr packet ↦ rw packet (decoded-accepted (decode_rdm_response bs) s)
]

receive_round-strict :
    (event : Result Bytes) (s : E120Protocol) → (receive_round event s).strict_mode ≡ s.strict_mode
unfolding receive_round decoded validated correlated
receive_round-strict (err e) s = refl
receive_round-strict (ok bs) s = elim (Bool-cases (is_manchester bs)) [
  | inl routed ↦ rw routed refl
  | inr packet ↦ rw packet (decoded-strict (decode_rdm_response bs))
]
  where
    checked-strict :
        (o : Option Fault) (r : RdmResponse) → (validated o r s).strict_mode ≡ s.strict_mode
    checked-strict none r = refl
    checked-strict (some fault) r = refl

    decoded-strict : (x : Result (Option RdmResponse)) → (decoded x s).strict_mode ≡ s.strict_mode
    decoded-strict (err e) = refl
    decoded-strict (ok none) = refl
    decoded-strict (ok (some r)) = checked-strict (validate_response s.strict_mode r) r

await_future-resolved :
    (ending : Ending) (f : ℕ) (r : RdmResponse) (events : List (Result Bytes)) (s : E120Protocol)
    → s.correlator.futures f ≡ resolved r
    → (await_future ending f events s).1 ≡ ok r
unfolding await_future looked_at
await_future-resolved ending f r [] s done = rw done refl
await_future-resolved ending f r (event ∷ events) s done = rw done refl

await_end :
    (ending : Ending) (f : ℕ) (s : E120Protocol)
    → s.correlator.futures f ≡ pending
    → (await_future ending f [] s).1 ≡ outcome ending none
unfolding await_future looked_at wait_over ended
await_end deadline f s waits = rw waits refl
await_end given_up f s waits = rw waits refl

moved-Waits : (txn f : ℕ) (c d : ResponseCorrelator) → c ≡ d → Waits txn f c → Waits txn f d
moved-Waits txn f c d e w = rw (sym e) w

correlate-resolved :
    (txn f : ℕ) (r : RdmResponse) (c : ResponseCorrelator)
    → r.transaction_number ≡ txn
    → Waits txn f c
    → (correlate_response r c).0.futures f ≡ resolved r
unfolding correlate_response
correlate-resolved txn f r c same w =
    (resolve_pending r (lookup r.transaction_number c.handlers) f c
      (ap (λ (k : ℕ). lookup k c.handlers) same ∙ w.1) w.0).1

-- The rest of a wait, after a round that left this correlator.
after_round :
    (ending : Ending) (txn f : ℕ) (events : List (Result Bytes)) (t : E120Protocol)
    (c : ResponseCorrelator) (o later : Option RdmResponse)
    → t.correlator ≡ after_response o c
    → Waits txn f c
    → (Waits txn f t.correlator → (await_future ending f events t).1 ≡ outcome ending later)
    → (await_future ending f events t).1 ≡ outcome ending (or_first txn o later)
after_round ending txn f events t c none later e w go_on =
    go_on (moved-Waits txn f c t.correlator (sym e) w)
after_round ending txn f events t c (some r) later e w go_on =
    elim (Bool-cases (r.transaction_number == txn)) [
      | inl same ↦ rw same (
          await_future-resolved ending f r events t (
            ap (λ (d : ResponseCorrelator). d.futures f) e
            ∙ correlate-resolved txn f r c (==→eq r.transaction_number txn same) w))
      | inr other ↦ rw other (
          go_on (
            moved-Waits txn f (correlate_response r c).0 t.correlator (sym e)
              (correlate_other txn f r c (==→ne r.transaction_number txn other) w)))
    ]

-- A wait returns the first response that bears its number, and otherwise ends as it ends.
pub await_future-first_response :
    (ending : Ending) (txn f : ℕ) (events : List (Result Bytes)) (s : E120Protocol)
    → Waits txn f s.correlator
    → (await_future ending f events s).1 ≡ outcome ending (first_response s.strict_mode txn events)
unfolding await_future looked_at
await_future-first_response ending txn f [] s w = await_end ending f s w.0
await_future-first_response ending txn f (event ∷ events) s w = rw w.0 (
    after_round ending txn f events (receive_round event s) s.correlator
      (response_in s.strict_mode event) (first_response s.strict_mode txn events)
      (receive_round-response_in event s) w
      (λ still.
        await_future-first_response ending txn f events (receive_round event s) still
        ∙ ap (λ (b : Bool). outcome ending (first_response b txn events))
            (receive_round-strict event s)))

finished-outcome :
    (txn : ℕ) (ending : Ending) (o : Option RdmResponse) (x : E120Protocol × Result RdmResponse)
    → x.1 ≡ outcome ending o
    → (finished txn x).1 ≡ outcome ending o
unfolding finished
finished-outcome txn ending o (s, ok r) h = h
finished-outcome txn ending o (s, err cancelled_error) h = h
finished-outcome txn ending o (s, err _) h = h

registered-first_response :
    (line : Line) (q : RdmRequest) (packet : Bytes) (s : E120Protocol) (c : ResponseCorrelator)
    → line.send packet ≡ ok tt
    → Waits q.transaction_number s.correlator.next_future c
    → (registered line q.transaction_number packet s (c, ok s.correlator.next_future)).1
      ≡ outcome line.ending (first_response s.strict_mode q.transaction_number line.events)
unfolding registered sent
registered-first_response line q packet s c done w =
    finished-outcome q.transaction_number line.ending _ _ (
      rw done (
        await_future-first_response line.ending q.transaction_number s.correlator.next_future
          line.events (record s { correlator = c }) w))

-- A request that is sent returns the first received packet that decodes, passes the validation
-- and bears its number, whatever else is received, and an error if there is none.
pub send_and_receive-first_response :
    (line : Line) (q : RdmRequest) (s : E120Protocol)
    → IsEncodable q
    → (s.validate_requests && has_fault (validate_request q)) ≡ false
    → ((packet : Bytes) → line.send packet ≡ ok tt)
    → IsFresh s.correlator
    → lookup q.transaction_number s.correlator.handlers ≡ none
    → (send_and_receive line q s).1
      ≡ outcome line.ending (first_response s.strict_mode q.transaction_number line.events)
unfolding send_and_receive encoded
send_and_receive-first_response line q s enc valid sends fresh unused =
    let made = encode_total q enc in
    let waits = register_handler-Waits q.transaction_number line.now s.correlator fresh unused in
    rw (valid, made.1, waits.1)
      (registered-first_response line q made.0 s waits.0 (sends made.0) waits.2)
