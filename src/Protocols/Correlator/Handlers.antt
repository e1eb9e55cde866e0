-- ===== src/Protocols/Correlator/Handlers.antt =====
-- Which response reaches which waiting task (protocols/response_correlator.py).
use rdm_dmx_async.Base.{
  ℕ, ◌≡◌, refl, ◌∙◌, sym, ap, suc, ok-injective, none, some, ok, true, false, ==-refl, Option,
}
use rdm_dmx_async.Base.Table.{lookup, insert, lookup-insert, lookup-delete}
use rdm_dmx_async.Packets.Rdm.{RdmResponse}
use rdm_dmx_async.Protocols.Correlator.{
  ResponseCorrelator, assign, pending, resolved, is_done, register_free, register_handler, forget,
  resolve, correlate_response, unregister_handler,
}

resolve-none :
    (r : RdmResponse) (o : Option ℕ) (s : ResponseCorrelator)
    → o ≡ none
    → resolve r o s ≡ (s, false)
unfolding resolve
resolve-none r none s h = refl
resolve-none r (some f) s h = cc

-- A response to a transaction that was given up changes nothing at all.
pub correlate_response-unregister_handler :
    (s : ResponseCorrelator) (r : RdmResponse)
    → correlate_response r (unregister_handler r.transaction_number s)
      ≡ (unregister_handler r.transaction_number s, false)
unfolding correlate_response unregister_handler forget
correlate_response-unregister_handler s r =
    resolve-none r (lookup r.transaction_number (forget r.transaction_number s).handlers)
      (forget r.transaction_number s)
      (lookup-delete r.transaction_number r.transaction_number s.handlers
        ∙ rw (==-refl r.transaction_number))

pub resolve_pending :
    (r : RdmResponse) (o : Option ℕ) (f : ℕ) (s : ResponseCorrelator)
    → o ≡ some f
    → s.futures f ≡ pending
    → ((resolve r o s).1 ≡ true)
      × ((resolve r o s).0.futures f ≡ resolved r)
      × (lookup r.transaction_number (resolve r o s).0.handlers ≡ none)
unfolding resolve is_done forget
resolve_pending r none f s h waits = cc
resolve_pending r (some g) f s h waits =
    let same : g ≡ f = cc in
    rw (same, waits, ==-refl f)
      (
        refl,
        refl,
        lookup-delete r.transaction_number r.transaction_number s.handlers
            ∙ rw (==-refl r.transaction_number),
      )

-- What a successful registration leaves.
registered_handler :
    (txn now f : ℕ) (o : Option ℕ) (s t : ResponseCorrelator)
    → register_free txn now o s ≡ (t, ok f)
    → (lookup txn t.handlers ≡ some f) × (t.futures f ≡ pending)
unfolding register_free
registered_handler txn now f (some g) s t h = cc
registered_handler txn now f none s t h =
    let state : record s {
      handlers = insert txn s.next_future s.handlers;
      handler_timestamps = insert txn now s.handler_timestamps;
      futures = assign s.next_future pending s.futures;
      next_future = suc s.next_future;
    }
        ≡ t =
      ap (λ x. x.0) h in
    let future : s.next_future ≡ f = ok-injective (ap (λ x. x.1) h) in
    rw (sym state, sym future)
      (
        lookup-insert txn txn s.next_future s.handlers ∙ rw (==-refl txn),
        rw (==-refl s.next_future),
      )

-- After a handler is registered, the first response of that transaction resolves the future that
-- the caller waits on, and takes the handler away; a second one changes nothing.
pub correlate_response-register_handler :
    (s t : ResponseCorrelator) (now f : ℕ) (r q : RdmResponse)
    → register_handler r.transaction_number now s ≡ (t, ok f)
    → q.transaction_number ≡ r.transaction_number
    → ((correlate_response r t).1 ≡ true)
      × ((correlate_response r t).0.futures f ≡ resolved r)
      × (correlate_response q (correlate_response r t).0 ≡ ((correlate_response r t).0, false))
unfolding register_handler correlate_response
correlate_response-register_handler s t now f r q h same =
    let made =
      registered_handler r.transaction_number now f (lookup r.transaction_number s.handlers) s t
        h in
    let first = resolve_pending r (lookup r.transaction_number t.handlers) f t made.0 made.1 in
    (
      first.0,
      first.1,
      resolve-none q _ (resolve r (lookup r.transaction_number t.handlers) t).0 (
          ap (λ (n : ℕ). lookup n (resolve r (lookup r.transaction_number t.handlers) t).0.handlers)
            same
          ∙ first.2),
    )
