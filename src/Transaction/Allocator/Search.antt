-- ===== src/Transaction/Allocator/Search.antt =====
-- Which number `allocate` finds, and when there is none (transaction/allocator.py).
use rdm_dmx_async.Base.{
  ℕ, zero, suc, ◌+◌, ◌-◌, ◌%◌, ◌≤◌, ◌<◌, ◌≡◌, inl, inr, refl, ap, sym, ◌∙◌, Result, ok, err,
  runtime_error, Bool-cases, true, false, ◌∷◌, contains, arith,
}
use rdm_dmx_async.Transaction.Allocator.{Allocator, advance, search_free, allocate}

abbrev pub IsTxn : ℕ → Type 0
IsTxn n = (1 ≤ n) × (n ≤ 255)

pub advance-IsTxn : (n : ℕ) → IsTxn n → IsTxn (advance n)
unfolding advance
advance-IsTxn n h = ground arith

-- The number that comes `k` places after `n` in the cycle.
abbrev pub nth : ℕ → ℕ → ℕ
nth n k = (n - 1 + k) % 255 + 1

nth-advance : (n k : ℕ) → IsTxn n → nth (advance n) k ≡ nth n (suc k)
unfolding advance
nth-advance n k h = ground arith

-- What a search over the next `tries` numbers comes to: the first free one, or an error if each
-- of them is in use.
pub data Found (a : Allocator) (tries : ℕ) (r : Allocator × Result ℕ) : Type 0 where
  free :
      (k : ℕ)
      → k < tries
      → ((j : ℕ) → j < k → contains (nth a.next_number j) a.in_use ≡ true)
      → contains (nth a.next_number k) a.in_use ≡ false
      → r ≡ (
        record {
          next_number = advance (nth a.next_number k);
          in_use = nth a.next_number k ∷ a.in_use;
        },
        ok (nth a.next_number k),
      )
      → Found a tries r
  exhausted :
      ((j : ℕ) → j < tries → contains (nth a.next_number j) a.in_use ≡ true)
      → r.1 ≡ err runtime_error
      → Found a tries r

nth-zero : (n : ℕ) → IsTxn n → nth n 0 ≡ n
nth-zero n h = omega arith

abbrev passed : Allocator → Allocator
passed a = record a { next_number = advance a.next_number }

used_from :
    (a : Allocator) (bound : ℕ)
    → IsTxn a.next_number
    → contains a.next_number a.in_use ≡ true
    → ((j : ℕ) → j < bound → contains (nth (advance a.next_number) j) a.in_use ≡ true)
    → (j : ℕ) → j < suc bound
    → contains (nth a.next_number j) a.in_use ≡ true
used_from a bound h used later zero l =
    ap (λ (n : ℕ). contains n a.in_use) (nth-zero a.next_number h) ∙ used
used_from a bound h used later (suc j) l =
    ap (λ (n : ℕ). contains n a.in_use) (sym (nth-advance a.next_number j h))
    ∙ later j (omega arith)

Found-passed :
    (tries : ℕ) (a : Allocator) (r : Allocator × Result ℕ)
    → IsTxn a.next_number
    → contains a.next_number a.in_use ≡ true
    → Found (passed a) tries r
    → Found a (suc tries) r
Found-passed tries a r h used (free k l before now e) =
    let same = nth-advance a.next_number k h in
    free (suc k) (omega arith) (used_from a k h used before)
      (ap (λ (n : ℕ). contains n a.in_use) (sym same) ∙ now)
      (e ∙ ap (λ (n : ℕ). (record { next_number = advance n; in_use = n ∷ a.in_use }, ok n)) same)
Found-passed tries a r h used (exhausted all e) = exhausted (used_from a tries h used all) e

Found-now :
    (tries : ℕ) (a : Allocator)
    → IsTxn a.next_number
    → contains a.next_number a.in_use ≡ false
    → Found a (suc tries) (
      record { next_number = advance a.next_number; in_use = a.next_number ∷ a.in_use },
      ok a.next_number,
    )
Found-now tries a h available =
    let same = nth-zero a.next_number h in
    free 0 (omega arith) (λ j l. absurd (omega arith))
      (ap (λ (n : ℕ). contains n a.in_use) same ∙ available)
      (ap (λ (n : ℕ). (record { next_number = advance n; in_use = n ∷ a.in_use }, ok n)) (sym same))

search_free-Found :
    (tries : ℕ) (a : Allocator) → IsTxn a.next_number → Found a tries (search_free tries a)
unfolding search_free
search_free-Found zero a h = exhausted (λ j l. absurd (omega arith)) refl
search_free-Found (suc tries) a h = elim (Bool-cases (contains a.next_number a.in_use)) [
  | inl used ↦ rw used (
      Found-passed tries a _ h used
        (search_free-Found tries (passed a) (advance-IsTxn a.next_number h)))
  | inr available ↦ rw available (Found-now tries a h available)
]

-- Every number from 1 to 255 is one of the next 255.
nth-onto : (n v : ℕ) → IsTxn n → IsTxn v → (k : ℕ) × (k < 255) × (nth n k ≡ v)
nth-onto n v h hv = ((v + 255 - n) % 255, omega arith, omega arith)

nth-IsTxn : (n k : ℕ) → IsTxn (nth n k)
nth-IsTxn n k = omega arith

-- From a number in range, `allocate` returns the first free number at or after it in the cycle 1
-- to 255, marks that one in use and moves on past it; or all 255 are in use and it raises.
pub allocate-Found : (a : Allocator) → IsTxn a.next_number → Found a 255 (allocate a)
unfolding allocate
allocate-Found a h = search_free-Found 255 a h

still_free :
    (a : Allocator) (r : Allocator × Result ℕ) (v : ℕ)
    → IsTxn a.next_number
    → IsTxn v
    → contains v a.in_use ≡ false
    → Found a 255 r
    → (n : ℕ) × (r.1 ≡ ok n)
      × (contains n a.in_use ≡ false)
      × IsTxn n
      × (r.0.in_use ≡ n ∷ a.in_use)
      × IsTxn r.0.next_number
still_free a r v h hv available (free k l before now e) = (
  nth a.next_number k,
  ap (λ (x : Allocator × Result ℕ). x.1) e,
  now,
  nth-IsTxn a.next_number k,
  ap (λ (x : Allocator × Result ℕ). x.0.in_use) e,
  rw e (advance-IsTxn (nth a.next_number k) (nth-IsTxn a.next_number k)),
)
still_free a r v h hv available (exhausted all e) =
    let place = nth-onto a.next_number v h hv in
    let used : contains v a.in_use ≡ true =
      ap (λ (n : ℕ). contains n a.in_use) (sym place.2) ∙ all place.0 place.1 in
    cc

-- As long as some number from 1 to 255 is free, `allocate` returns a number that was free, in
-- range, and now the only new one in use.
pub allocate_total :
    (a : Allocator) (v : ℕ)
    → IsTxn a.next_number
    → IsTxn v
    → contains v a.in_use ≡ false
    → (n : ℕ) × ((allocate a).1 ≡ ok n)
      × (contains n a.in_use ≡ false)
      × IsTxn n
      × ((allocate a).0.in_use ≡ n ∷ a.in_use)
      × IsTxn (allocate a).0.next_number
allocate_total a v h hv available = still_free a (allocate a) v h hv available (allocate-Found a h)
