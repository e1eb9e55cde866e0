-- ===== src/Protocols/E120/Handlers.antt =====
-- The handler and the future of one request (protocols/rdm_e120.py, protocols/response_correlator.py).
use rdm_dmx_async.Base.{
  ℕ, ◌<◌, ◌≡◌, ◌≢◌, inl, inr, refl, sym, ap, ◌∙◌, Option, none, some, Result, ok, err, true, false,
  ◌==◌, ==-refl, ne→==, ==→eq, Bool-cases, if◌then◌else◌, arith,
}
use rdm_dmx_async.Base.Words.{Bytes}
use rdm_dmx_async.Base.Table.{lookup, insert, lookup-insert, lookup-delete}
use rdm_dmx_async.Packets.Rdm.{RdmResponse}
use rdm_dmx_async.Protocols.Validator.{Fault, validate_response}
use rdm_dmx_async.Packets.Decoder.{decode_rdm_response}
use rdm_dmx_async.Protocols.Correlator.{
  ResponseCorrelator, pending, resolved, is_done, assign, forget, resolve, correlate_response,
  register_free, register_handler,
}
use rdm_dmx_async.Protocols.E120.{
  E120Protocol, correlated, validated, decoded, is_manchester, receive_round,
}

-- The request waits under its number, and under no other; or it is answered, by a response that
-- bears its number, and its handler is gone.
pub data Owned (txn f : ℕ) (c : ResponseCorrelator) : Type 0 where
  waiting :
      c.futures f ≡ pending
      → lookup txn c.handlers ≡ some f
      → ((k : ℕ) → lookup k c.handlers ≡ some f → k ≡ txn)
      → Owned txn f c
  answered :
      (r : RdmResponse)
      → c.futures f ≡ resolved r
      → r.transaction_number ≡ txn
      → lookup txn c.handlers ≡ none
      → Owned txn f c

-- The same, with no answer.
abbrev pub Waits : ℕ → ℕ → ResponseCorrelator → Type 0
Waits txn f c =
    (c.futures f ≡ pending)
    × (lookup txn c.handlers ≡ some f)
    × ((k : ℕ) → lookup k c.handlers ≡ some f → k ≡ txn)

-- Every future of a handler was given out.
abbrev pub IsFresh : ResponseCorrelator → Type 0
IsFresh c = (k g : ℕ) → lookup k c.handlers ≡ some g → g < c.next_future

some_injective : {a b : ℕ} → some a ≡ some b → a ≡ b
some_injective h = cc

pub ==→ne : (a b : ℕ) → (a == b) ≡ false → a ≢ b
==→ne a b h = ground arith

lookup-forgotten :
    (k j : ℕ) (c : ResponseCorrelator)
    → lookup j (forget k c).handlers ≡ (if j == k then none else lookup j c.handlers)
unfolding forget
lookup-forgotten k j c = lookup-delete k j c.handlers

kept_elsewhere :
    (k j f : ℕ) (c : ResponseCorrelator)
    → lookup j (forget k c).handlers ≡ some f
    → lookup j c.handlers ≡ some f
kept_elsewhere k j f c h = elim (Bool-cases (j == k)) [
  | inl same ↦ absurd (none_some (sym (lookup-forgotten k j c ∙ rw same refl) ∙ h))
  | inr other ↦ sym (lookup-forgotten k j c ∙ rw other refl) ∙ h
]
  where
    none_some : {x : ℕ} → none ≡ some x → ⊥
    none_some e = cc

forgotten_none :
    (k j : ℕ) (c : ResponseCorrelator)
    → lookup j c.handlers ≡ none
    → lookup j (forget k c).handlers ≡ none
forgotten_none k j c h = elim (Bool-cases (j == k)) [
  | inl same ↦ lookup-forgotten k j c ∙ rw same refl
  | inr other ↦ lookup-forgotten k j c ∙ rw other h
]

module _ (txn f : ℕ) (r : RdmResponse) (g : ℕ) (c : ResponseCorrelator)
    (found : lookup r.transaction_number c.handlers ≡ some g)
    (waits : is_done (c.futures g) ≡ false) where
  abbrev written : ResponseCorrelator
  written = record c { futures = assign g (resolved r) c.futures }

  other-Waits :
      r.transaction_number ≢ txn → Waits txn f c → Waits txn f (forget r.transaction_number written)
  unfolding forget
  other-Waits other (p, l, unique) =
      let apart : f ≢ g = λ e. other (unique r.transaction_number (found ∙ ap some (sym e))) in
      (
        rw (ne→== f g apart) p,
        lookup-forgotten r.transaction_number txn written
            ∙ rw (ne→== txn r.transaction_number (λ e. other (sym e))) l,
        λ k h. unique k (kept_elsewhere r.transaction_number k f written h),
      )

  resolved-Owned_waiting : Waits txn f c → Owned txn f (forget r.transaction_number written)
  unfolding forget
  resolved-Owned_waiting (p, l, unique) = elim (Bool-cases (r.transaction_number == txn)) [
    | inl same ↦
        let number = ==→eq r.transaction_number txn same in
        let own : f ≡ g =
          some_injective (sym l ∙ ap (λ (k : ℕ). lookup k c.handlers) (sym number) ∙ found) in
        answered r (rw (own, ==-refl g) refl) number
          (lookup-forgotten r.transaction_number txn written ∙ rw (number, ==-refl txn) refl)
    | inr other ↦
        let still = other-Waits (==→ne r.transaction_number txn other) (p, l, unique) in
        waiting still.0 still.1 still.2
  ]

  resolved-Owned : Owned txn f c → Owned txn f (forget r.transaction_number written)
  unfolding forget is_done
  resolved-Owned (waiting p l unique) = resolved-Owned_waiting (p, l, unique)
  resolved-Owned (answered q done number gone) =
      let apart : f ≢ g =
        λ e. absurd (differ (sym (ap is_done (sym (ap c.futures e) ∙ done)) ∙ waits)) in
      answered q (rw (ne→== f g apart) done) number
        (forgotten_none r.transaction_number txn written gone)
    where
      differ : true ≡ false → ⊥
      differ e = cc

resolve-Owned :
    (txn f : ℕ) (r : RdmResponse) (o : Option ℕ) (c : ResponseCorrelator)
    → lookup r.transaction_number c.handlers ≡ o
    → Owned txn f c
    → Owned txn f (resolve r o c).0
unfolding resolve
resolve-Owned txn f r none c found h = h
resolve-Owned txn f r (some g) c found h = elim (Bool-cases (is_done (c.futures g))) [
  | inl done ↦ rw done h
  | inr waits ↦ rw waits (resolved-Owned txn f r g c found waits h)
]

validated-Owned :
    (txn f : ℕ) (o : Option Fault) (r : RdmResponse) (s : E120Protocol)
    → Owned txn f s.correlator
    → Owned txn f (validated o r s).correlator
unfolding validated correlated correlate_response
validated-Owned txn f (some fault) r s h = h
validated-Owned txn f none r s h =
    resolve-Owned txn f r (lookup r.transaction_number s.correlator.handlers) s.correlator refl h

decoded-Owned :
    (txn f : ℕ) (o : Result (Option RdmResponse)) (s : E120Protocol)
    → Owned txn f s.correlator
    → Owned txn f (decoded o s).correlator
unfolding decoded
decoded-Owned txn f (err e) s h = h
decoded-Owned txn f (ok none) s h = h
decoded-Owned txn f (ok (some r)) s h =
    validated-Owned txn f (validate_response s.strict_mode r) r s h

-- A round of the receive loop keeps the request's own handler and future together.
pub receive_round-Owned :
    (txn f : ℕ) (event : Result Bytes) (s : E120Protocol)
    → Owned txn f s.correlator
    → Owned txn f (receive_round event s).correlator
unfolding receive_round
receive_round-Owned txn f (err e) s h = h
receive_round-Owned txn f (ok bs) s h = elim (Bool-cases (is_manchester bs)) [
  | inl routed ↦ rw routed h
  | inr packet ↦ rw packet (decoded-Owned txn f (decode_rdm_response bs) s h)
]

-- A response to another request leaves this one waiting.
pub correlate_other :
    (txn f : ℕ) (r : RdmResponse) (c : ResponseCorrelator)
    → r.transaction_number ≢ txn
    → Waits txn f c
    → Waits txn f (correlate_response r c).0
unfolding correlate_response
correlate_other txn f r c other w = resolve_other (lookup r.transaction_number c.handlers) refl
  where
    resolve_other :
        (o : Option ℕ) → lookup r.transaction_number c.handlers ≡ o → Waits txn f (resolve r o c).0
    resolve_other none found = unfold resolve in w
    resolve_other (some g) found =
        unfold resolve in
        elim (Bool-cases (is_done (c.futures g))) [
          | inl done ↦ rw done w
          | inr waits ↦ rw waits (other-Waits txn f r g c found waits other w)
        ]

pub register_handler-Waits :
    (txn now : ℕ) (c : ResponseCorrelator)
    → IsFresh c
    → lookup txn c.handlers ≡ none
    → (d : ResponseCorrelator) × (register_handler txn now c ≡ (d, ok c.next_future))
      × Waits txn c.next_future d
unfolding register_handler
register_handler-Waits txn now c fresh open_number = (
  (register_free txn now none c).0,
  ap (λ o. register_free txn now o c) open_number ∙ (unfold register_free in refl),
  unfold register_free in
      (
        rw (==-refl c.next_future) refl,
        lookup-insert txn txn c.next_future c.handlers ∙ rw (==-refl txn) refl,
        only,
      ),
)
  where
    only : (k : ℕ) → lookup k (insert txn c.next_future c.handlers) ≡ some c.next_future → k ≡ txn
    only k l = elim (Bool-cases (k == txn)) [
      | inl same ↦ ==→eq k txn same
      | inr other ↦ absurd (
          omega (
            arith,
            fresh k c.next_future
                (sym (lookup-insert txn k c.next_future c.handlers ∙ rw other refl) ∙ l),
          ))
    ]
