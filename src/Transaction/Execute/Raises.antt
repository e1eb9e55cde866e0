-- ===== src/Transaction/Execute/Raises.antt =====
-- The exceptions that an attempt lets through (transaction/async_transaction.py).
use rdm_dmx_async.Base.{
  ℕ, zero, suc, ◌≡◌, refl, ◌⊎◌, inl, inr, Option, none, some, Result, ok, err, Error, value_error,
  runtime_error, Bool-cases, List, [], ◌∷◌, contains, arith,
}
use rdm_dmx_async.Packets.Types.{NakReason, nak_reason_of}
use rdm_dmx_async.Packets.Rdm.{RdmResponse, is_nak}
use rdm_dmx_async.Transaction.Allocator.{Allocator, search_free, allocate}
use rdm_dmx_async.Transaction.Classifier.{register, all_in_range}
use rdm_dmx_async.Transaction.Policy.{RetryPolicy}
use rdm_dmx_async.Transaction.Execute.{
  Environment, Transaction, Tried, registered, numbered, begin_number, await_call, reason_of_code,
  first_byte_reason, recorded_reason, record_attempt, attempt_tried, attempt_numbered,
  execute_attempt, try_ended,
}

-- No number is free, or a value is out of range.
abbrev pub Raised : Error → Type 0
Raised e = (e ≡ runtime_error) ⊎ (e ≡ value_error)

-- The exception of a result, if there is one, is of that kind.
abbrev pub OnlyRaises {ℓ} : {A : Type ℓ} → Result A → Type 0
OnlyRaises (ok x) = Unit
OnlyRaises (err e) = Raised e

search_free-OnlyRaises : (tries : ℕ) (a : Allocator) → OnlyRaises (search_free tries a).1
unfolding search_free
search_free-OnlyRaises zero a = inl refl
search_free-OnlyRaises (suc tries) a = elim (Bool-cases (contains a.next_number a.in_use)) [
  | inl used ↦ rw used (search_free-OnlyRaises tries _)
  | inr available ↦ rw available tt
]

registered-OnlyRaises :
    (t : Transaction) (n : ℕ) (r : Result (List ℕ)) → OnlyRaises r → OnlyRaises (registered t n r).1
unfolding registered
registered-OnlyRaises t n (ok numbers) h = tt
registered-OnlyRaises t n (err e) h = h

register-OnlyRaises : (ns : List ℕ) → OnlyRaises (register ns)
unfolding register
register-OnlyRaises [] = inr refl
register-OnlyRaises (n ∷ ns) = elim (Bool-cases (all_in_range (n ∷ ns))) [
  | inl good ↦ rw good tt
  | inr bad ↦ rw bad (inr refl)
]

numbered-OnlyRaises :
    (t : Transaction) (x : Allocator × Result ℕ) → OnlyRaises x.1 → OnlyRaises (numbered t x).1
unfolding numbered
numbered-OnlyRaises t (a, ok n) h = registered-OnlyRaises _ n _ (register-OnlyRaises _)
numbered-OnlyRaises t (a, err e) h = h

begin_number-OnlyRaises : (t : Transaction) → OnlyRaises (begin_number t).1
unfolding begin_number allocate
begin_number-OnlyRaises t =
    numbered-OnlyRaises t (allocate t.allocator) (search_free-OnlyRaises 255 t.allocator)

reason_of_code-OnlyRaises : (r : Result NakReason) → OnlyRaises r → OnlyRaises (reason_of_code r)
unfolding reason_of_code
reason_of_code-OnlyRaises (ok r) h = tt
reason_of_code-OnlyRaises (err e) h = h

nak_reason_of-OnlyRaises : (v : ℕ) → OnlyRaises (nak_reason_of v)
unfolding nak_reason_of
nak_reason_of-OnlyRaises v = ground arith

first_byte_reason-OnlyRaises : (bs : List ℕ) → OnlyRaises (first_byte_reason bs)
unfolding first_byte_reason
first_byte_reason-OnlyRaises [] = tt
first_byte_reason-OnlyRaises (b ∷ rest) = reason_of_code-OnlyRaises _ (nak_reason_of-OnlyRaises b)

pub recorded_reason-OnlyRaises : (o : Option RdmResponse) → OnlyRaises (recorded_reason o)
unfolding recorded_reason
recorded_reason-OnlyRaises none = tt
recorded_reason-OnlyRaises (some r) = elim (Bool-cases (is_nak r)) [
  | inl refused ↦ rw refused (first_byte_reason-OnlyRaises r.payload)
  | inr other ↦ rw other tt
]

record_attempt-OnlyRaises :
    (index n : ℕ) (x : Tried) (o : Result (Option NakReason)) (t : Transaction)
    → OnlyRaises o
    → OnlyRaises (record_attempt index n x o t).1
unfolding record_attempt
record_attempt-OnlyRaises index n x (ok o) t h = tt
record_attempt-OnlyRaises index n x (err e) t h = h

attempt_tried-OnlyRaises :
    (index n : ℕ) (x : Transaction × Tried) → OnlyRaises (attempt_tried index n x).1
unfolding attempt_tried
attempt_tried-OnlyRaises index n (t, x) =
    record_attempt-OnlyRaises index n x _ t (recorded_reason-OnlyRaises x.response)

attempt_numbered-OnlyRaises :
    (env : Environment) (policy : RetryPolicy) (index : ℕ) (x : Transaction × Result ℕ)
    → OnlyRaises x.1
    → OnlyRaises (attempt_numbered env policy index x).1
unfolding attempt_numbered
attempt_numbered-OnlyRaises env policy index (t, err e) h = h
attempt_numbered-OnlyRaises env policy index (t, ok n) h =
    attempt_tried-OnlyRaises index n (try_ended env policy n (await_call env.operation n t))

pub execute_attempt-OnlyRaises :
    (env : Environment) (policy : RetryPolicy) (index : ℕ) (t : Transaction)
    → OnlyRaises (execute_attempt env policy index t).1
unfolding execute_attempt
execute_attempt-OnlyRaises env policy index t =
    attempt_numbered-OnlyRaises env policy index (begin_number t) (begin_number-OnlyRaises t)
