-- ===== src/Transaction/Allocator.antt =====
-- rdm_dmx_async/transaction/allocator.py. The set of the numbers in use is a list.
pub mod Invariant
pub mod Search
use rdm_dmx_async.Base.{
  ℕ, zero, suc, ◌+◌, ◌-◌, Result, ok, err, value_error, runtime_error, ltb, leb, not, ◌&&◌,
  if◌then◌else◌, List, [], ◌∷◌, contains, discard, length, Bool,
}

abbrev pub rdm_txn_min : ℕ
rdm_txn_min = 1

abbrev pub rdm_txn_max : ℕ
rdm_txn_max = 255

pub record Allocator : Type 0 where
  pub next_number : ℕ
  pub in_use : List ℕ

unfoldable pub in_range : ℕ → Bool
in_range n = leb rdm_txn_min n && leb n rdm_txn_max

-- `TransactionNumberAllocator(starting_number)`
unfoldable pub new : ℕ → Result Allocator
unfolding in_range
new starting_number =
    if not (in_range starting_number)
    then err value_error
    else ok (record { next_number = starting_number; in_use = [] })

-- `_next_number + 1`, wrapped around to 1
unfoldable pub advance : ℕ → ℕ
advance n = if ltb rdm_txn_max (n + 1) then rdm_txn_min else n + 1

-- The `for` loop of `allocate`, with `tries` rounds left.
unfoldable pub search_free : ℕ → Allocator → Allocator × Result ℕ
search_free zero a = (a, err runtime_error)
search_free (suc tries) a =
    let later = search_free tries (record a { next_number = advance a.next_number }) in
    if not (contains a.next_number a.in_use)
    then (
      record { next_number = advance a.next_number; in_use = a.next_number ∷ a.in_use },
      ok a.next_number,
    )
    else later

unfoldable pub allocate : Allocator → Allocator × Result ℕ
unfolding search_free
allocate a = search_free rdm_txn_max a

unfoldable pub release : ℕ → Allocator → Allocator × Result (Unit {0})
release n a =
    if not (in_range n)
    then (a, err value_error)
    else if not (contains n a.in_use)
    then (a, err value_error)
    else (record a { in_use = discard n a.in_use }, ok tt)

unfoldable pub release_all : List ℕ → Allocator → Allocator
release_all [] a = a
release_all (n ∷ ns) a =
    release_all ns (if contains n a.in_use then record a { in_use = discard n a.in_use } else a)

unfoldable pub in_use_count : Allocator → ℕ
in_use_count a = length a.in_use

unfoldable pub available_count : Allocator → ℕ
unfolding in_use_count
available_count a = rdm_txn_max - in_use_count a
