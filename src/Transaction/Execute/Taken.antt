-- ===== src/Transaction/Execute/Taken.antt =====
-- The numbers a transaction takes (transaction/async_transaction.py, transaction/allocator.py).
use rdm_dmx_async.Base.{
  ℕ, zero, suc, ap, ==→eq, ◌≡◌, refl, ◌∙◌, ◌==◌, Option, none, some, Result, ok, err, Bool, false,
  ◌&&◌, ◌||◌, Bool-cases, inl, inr, List, [], ◌∷◌, ◌++◌, contains, contains-append, arith,
}
use rdm_dmx_async.Transaction.Allocator.{Allocator, advance, rdm_txn_max, search_free, allocate}
use rdm_dmx_async.Transaction.Execute.{
  Outcome, Environment, Transaction, registered, numbered, begin_number, await_call,
}

-- A call that leaves a number in use, or free, as it finds it.
abbrev pub LeavesCall : ℕ → (ℕ → ℕ → Allocator → Outcome × Allocator) → Type 0
LeavesCall v call =
    (i n : ℕ) (a : Allocator) → contains v (call i n a).1.in_use ≡ contains v a.in_use

abbrev pub LeavesQueued : ℕ → Option (ℕ → ℕ → Allocator → Outcome × Allocator) → Type 0
LeavesQueued v none = Unit
LeavesQueued v (some call) = LeavesCall v call

-- What the other tasks do to the allocator while the transaction waits leaves a number alone.
abbrev pub Leaves : ℕ → Environment → Type 0
Leaves v env =
    LeavesCall v env.operation
    × LeavesQueued v env.queued_message_operation
    × ((i ms : ℕ) (a : Allocator) → contains v (env.sleep i ms a).in_use ≡ contains v a.in_use)

-- The number is in use if it was before, or if the transaction lists it, and never both.
abbrev pub Owned : ℕ → Bool → Transaction → Type 0
Owned v before t =
    (contains v t.allocator.in_use ≡ (before || contains v t.allocated))
    × ((before && contains v t.allocated) ≡ false)

-- What `allocate` does to the numbers in use: nothing, or it adds one, which was free.
abbrev Took : ℕ → List ℕ → Allocator × Result ℕ → Type 0
Took v before (a, err e) = contains v a.in_use ≡ contains v before
Took v before (a, ok n) =
    (contains v a.in_use ≡ (v == n || contains v before)) × ((v == n && contains v before) ≡ false)

free_alone :
    (v n : ℕ) (numbers : List ℕ)
    → contains n numbers ≡ false
    → (v == n && contains v numbers) ≡ false
free_alone v n numbers free = elim (Bool-cases (v == n)) [
  | inl same ↦ rw same (ap (λ (k : ℕ). contains k numbers) (==→eq v n same) ∙ free)
  | inr other ↦ rw other refl
]

search_free-Took : (v tries : ℕ) (a : Allocator) → Took v a.in_use (search_free tries a)
unfolding search_free
search_free-Took v zero a = refl
search_free-Took v (suc tries) a = elim (Bool-cases (contains a.next_number a.in_use)) [
  | inl taken ↦
      rw taken (search_free-Took v tries (record a { next_number = advance a.next_number }))
  | inr free ↦ rw free (unfold contains in refl, free_alone v a.next_number a.in_use free)
]

joined :
    (b x old now listed : Bool)
    → now ≡ (x || old)
    → (x && old) ≡ false
    → old ≡ (b || listed)
    → (b && listed) ≡ false
    → (now ≡ (b || (listed || (x || false)))) × ((b && (listed || (x || false))) ≡ false)
joined b x old now listed p q r s = (ground arith, ground arith)

module _ (v : ℕ) (before : Bool) where
  registered-Owned :
      (t : Transaction) (n : ℕ) (r : Result (List ℕ))
      → Owned v before t
      → Owned v before (registered t n r).0
  unfolding registered
  registered-Owned t n (ok numbers) owned = owned
  registered-Owned t n (err e) owned = owned

  numbered-Owned :
      (t : Transaction) (x : Allocator × Result ℕ)
      → Owned v before t
      → Took v t.allocator.in_use x
      → Owned v before (numbered t x).0
  unfolding numbered
  numbered-Owned t (a, err e) owned took = (took ∙ owned.0, owned.1)
  numbered-Owned t (a, ok n) owned took =
      registered-Owned (record t { allocator = a; allocated = t.allocated ++ n ∷ [] }) n _
        (rw (contains-append v t.allocated (n ∷ [])) (
          unfold contains in
          joined before (v == n) (contains v t.allocator.in_use) (contains v a.in_use)
            (contains v t.allocated) took.0 took.1 owned.0 owned.1))

  pub begin_number-Owned : (t : Transaction) → Owned v before t → Owned v before (begin_number t).0
  unfolding begin_number allocate
  begin_number-Owned t owned =
      numbered-Owned t (allocate t.allocator) owned (search_free-Took v rdm_txn_max t.allocator)

  pub await_call-Owned :
      (call : ℕ → ℕ → Allocator → Outcome × Allocator) (n : ℕ) (t : Transaction)
      → LeavesCall v call
      → Owned v before t
      → Owned v before (await_call call n t).0
  unfolding await_call
  await_call-Owned call n t leaves owned = (leaves t.awaits n t.allocator ∙ owned.0, owned.1)
