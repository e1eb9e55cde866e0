-- ===== src/Transaction/Allocator/Invariant.antt =====
-- Releasing numbers (transaction/allocator.py).
use rdm_dmx_async.Base.{
  ℕ, ◌≡◌, refl, ◌==◌, ◌∙◌, if◌then◌else◌, false, List, [], ◌∷◌, contains, discard, contains-discard,
  arith,
}
use rdm_dmx_async.Transaction.Allocator.{Allocator, release_all}

release_one : ℕ → Allocator → Allocator
release_one n a = if contains n a.in_use then record a { in_use = discard n a.in_use } else a

contains-release_one :
    (n v : ℕ) (a : Allocator)
    → contains v (release_one n a).in_use ≡ (if v == n then false else contains v a.in_use)
unfolding release_one
contains-release_one n v a = ground (arith, contains-discard n v a.in_use)

-- Exactly the numbers listed are free afterwards; the others are in use as before.
pub contains-release_all :
    (ns : List ℕ) (v : ℕ) (a : Allocator)
    → contains v (release_all ns a).in_use ≡ (if contains v ns then false else contains v a.in_use)
unfolding release_all contains release_one
contains-release_all [] v a = refl
contains-release_all (n ∷ ns) v a =
    contains-release_all ns v (release_one n a) ∙ ground (arith, contains-release_one n v a)
