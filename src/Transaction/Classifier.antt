-- ===== src/Transaction/Classifier.antt =====
-- rdm_dmx_async/transaction/correlator.py. The state is the set of the transaction's numbers.
use rdm_dmx_async.Base.{
  ℕ, ◌≡◌, ◌≢◌, ◌≤◌, Result, ok, err, value_error, Bool, true, false, not, ◌==◌, ◌&&◌, if◌then◌else◌,
  List, [], ◌∷◌, contains, arith,
}
use rdm_dmx_async.Transaction.Allocator.{in_range}

pub data Classification : Type 0 where
  active late anomalous : Classification

unfoldable pub all_in_range : List ℕ → Bool
unfolding in_range
all_in_range [] = true
all_in_range (n ∷ ns) = in_range n && all_in_range ns

-- `register_transaction_numbers`: the new set, or `ValueError`
unfoldable pub register : List ℕ → Result (List ℕ)
unfolding all_in_range
register [] = err value_error
register (n ∷ ns) = if not (all_in_range (n ∷ ns)) then err value_error else ok (n ∷ ns)

unfoldable pub is_empty : List ℕ → Bool
is_empty [] = true
is_empty (n ∷ ns) = false

unfoldable pub classify_response : List ℕ → ℕ → ℕ → Result Classification
unfolding is_empty in_range
classify_response numbers response current =
    if not (in_range response)
    then err value_error
    else if is_empty numbers
    then ok anomalous
    else if response == current
    then ok active
    else if contains response numbers
    then ok late
    else ok anomalous

-- A response is late exactly if it bears another number of the transaction than the current one.
pub classify_late :
    (numbers : List ℕ) (response current : ℕ)
    → classify_response numbers response current ≡ ok late
    → (contains response numbers ≡ true) × (response ≢ current) × (1 ≤ response) × (response ≤ 255)
unfolding classify_response contains
classify_late [] response current h = ground arith
classify_late (n ∷ ns) response current h = ground arith
