-- ===== src/Protocols/Correlator/Futures.antt =====
-- A future is settled once (protocols/response_correlator.py).
use rdm_dmx_async.Base.{
  ℕ, ◌≡◌, ◌≢◌, ◌<◌, ◌∙◌, sym, ap, Option, none, some, true, false, Bool-cases, inl, inr, ne→==,
  List, [], ◌∷◌, arith,
}
use rdm_dmx_async.Base.Table.{Table, lookup}
use rdm_dmx_async.Packets.Rdm.{RdmResponse}
use rdm_dmx_async.Protocols.Correlator.{
  ResponseCorrelator, FutureState, is_done, cancel_pending, cancel_all, start, stop, register_free,
  register_handler, forget, resolve, correlate_response, unregister_handler, cancel_handler,
  clean_up, cleanup_stale_handlers, stale_txns,
}

-- A step: a call of a method, or the waiting task gives its future up.
pub data Step (s : ResponseCorrelator) : ResponseCorrelator → Type 0 where
  starts : Step s (start s)
  stops : Step s (stop s)
  registers : (txn now : ℕ) → Step s (register_handler txn now s).0
  correlates : (r : RdmResponse) → Step s (correlate_response r s).0
  unregisters : (txn : ℕ) → Step s (unregister_handler txn s)
  cleans : (now : ℕ) → Step s (cleanup_stale_handlers now s)
  gives_up : (f : ℕ) → Step s (record s { futures = cancel_pending f s.futures })

pub data Steps : ResponseCorrelator → ResponseCorrelator → Type 0 where
  here : {s : ResponseCorrelator} → Steps s s
  later : {s t u : ResponseCorrelator} → Steps s t → Step t u → Steps s u

-- The future was given out, and has its outcome.
abbrev pub Settled : ℕ → FutureState → ResponseCorrelator → Type 0
Settled f state s = (f < s.next_future) × (s.futures f ≡ state)

module _ (f : ℕ) (state : FutureState) (done : is_done state ≡ true) where
  cancel_pending-Settled :
      (g : ℕ) (futures : ℕ → FutureState) → futures f ≡ state → cancel_pending g futures f ≡ state
  unfolding cancel_pending
  cancel_pending-Settled g futures h = ground (arith, done)

  cancel_all-Settled :
      (d : Table ℕ) (futures : ℕ → FutureState) → futures f ≡ state → cancel_all d futures f ≡ state
  unfolding cancel_all
  cancel_all-Settled [] futures h = h
  cancel_all-Settled ((txn, g) ∷ d) futures h =
      cancel_all-Settled d (cancel_pending g futures) (cancel_pending-Settled g futures h)

  cancel_handler-Settled :
      (o : Option ℕ) (s : ResponseCorrelator)
      → Settled f state s
      → Settled f state (cancel_handler o s)
  unfolding cancel_handler
  cancel_handler-Settled none s h = h
  cancel_handler-Settled (some g) s h = (h.0, cancel_pending-Settled g s.futures h.1)

  clean_up-Settled :
      (l : List ℕ) (s : ResponseCorrelator) → Settled f state s → Settled f state (clean_up l s)
  unfolding clean_up forget
  clean_up-Settled [] s h = h
  clean_up-Settled (txn ∷ l) s h =
      clean_up-Settled l _ (cancel_handler-Settled (lookup txn s.handlers) s h)

  register_free-Settled :
      (txn now : ℕ) (o : Option ℕ) (s : ResponseCorrelator)
      → Settled f state s
      → Settled f state (register_free txn now o s).0
  unfolding register_free
  register_free-Settled txn now (some g) s h = h
  register_free-Settled txn now none s h =
      (omega (arith, h.0), rw (ne→== f s.next_future (omega (arith, h.0))) h.1)

  resolve-Settled :
      (r : RdmResponse) (o : Option ℕ) (s : ResponseCorrelator)
      → Settled f state s
      → Settled f state (resolve r o s).0
  unfolding resolve forget
  resolve-Settled r none s h = h
  resolve-Settled r (some g) s h = elim (Bool-cases (is_done (s.futures g))) [
    | inl already ↦ rw already h
    | inr waits ↦
        let settled : is_done (s.futures f) ≡ true = ap is_done h.1 ∙ done in
        let other : f ≢ g =
          λ same. absurd (apart (sym settled ∙ ap (λ j. is_done (s.futures j)) same ∙ waits)) in
        rw waits (h.0, rw (ne→== f g other) h.1)
  ]
    where
      apart : true ≡ false → ⊥
      apart e = cc

  stop-Settled : (s : ResponseCorrelator) → Settled f state s → Settled f state (stop s)
  unfolding stop
  stop-Settled s h = elim (Bool-cases s.running) [
    | inl runs ↦ rw runs (h.0, cancel_all-Settled s.handlers s.futures h.1)
    | inr stopped ↦ rw stopped h
  ]

  start-Settled : (s : ResponseCorrelator) → Settled f state s → Settled f state (start s)
  unfolding start
  start-Settled s h = ground (arith, h)

  Step-Settled : {s t : ResponseCorrelator} → Step s t → Settled f state s → Settled f state t
  unfolding register_handler correlate_response unregister_handler forget cleanup_stale_handlers
  Step-Settled {s} starts h = start-Settled s h
  Step-Settled {s} stops h = stop-Settled s h
  Step-Settled {s} (registers txn now) h = register_free-Settled txn now (lookup txn s.handlers) s h
  Step-Settled {s} (correlates r) h = resolve-Settled r (lookup r.transaction_number s.handlers) s h
  Step-Settled (unregisters txn) h = h
  Step-Settled {s} (cleans now) h =
      clean_up-Settled (stale_txns now s.stale_timeout s.handler_timestamps) s h
  Step-Settled {s} (gives_up g) h = (h.0, cancel_pending-Settled g s.futures h.1)

-- Once a future that was given out is resolved or cancelled, no sequence of calls changes its
-- outcome, even where its transaction number is used again.
pub Steps-Settled :
    (f : ℕ) (state : FutureState) (s t : ResponseCorrelator)
    → is_done state ≡ true
    → Settled f state s
    → Steps s t
    → Settled f state t
Steps-Settled f state s _ done h here = h
Steps-Settled f state s _ done h (later {t} before step) =
    Step-Settled f state done step (Steps-Settled f state s t done h before)
