-- ===== src/Examples/Discovery.antt =====
-- The search tree of the UIDs from 0 to 100, after its first split, and a discovery.
use rdm_dmx_async.Discovery.SearchTree.{Store, split, split_node}
use rdm_dmx_async.Discovery.SearchTree.Split.{Halves, split-Halves}
use rdm_dmx_async.Discovery.SearchTree.Rooted.{single}
use rdm_dmx_async.Base.{
  ◌≡◌, refl, some, true, arith, zero, suc, contains, ◌==◌, if◌then◌else◌, ℕ, none, ok, err,
  protocol_timeout, false, List, [], ◌∷◌, ◌≤◌, ◌+◌, length,
}
use rdm_dmx_async.Transaction.Allocator.{Allocator}
use rdm_dmx_async.Discovery.Service.{
  Send, Search, full_discovery, discover_unique_branch, no_response, mute_device,
}
use rdm_dmx_async.Discovery.Service.Limit.{full_discovery-Finds}
use rdm_dmx_async.Discovery.Service.Exhausted.{IsExhausted, discover_unique_branch-IsExhausted}

abbrev halved : Store
halved = split_node 0 (single 0 100)

split-Halves_example :
    ((split 1 halved).1 ≡ true)
    × (((split 1 halved).0.nodes 1).branch_low ≡ some 3)
    × (((split 1 halved).0.nodes 1).branch_high ≡ some 4)
    × Halves ((split 1 halved).0.nodes 1) ((split 1 halved).0.nodes 3) ((split 1 halved).0.nodes 4)
    × ((split 1 halved).0.nodes 2 ≡ halved.nodes 2)
unfolding split_node
split-Halves_example =
    split-Halves 1 2 halved (omega arith) (omega arith) (λ h. absurd (omega (arith, h)))
      (omega arith) refl refl

-- The world counts the commands; a branch that holds several devices collides, and nothing else
-- is answered.
abbrev crowd : Send ℕ
crowd uid pid txn arguments w = (w + 1, if pid == 0x0001 then ok none else err protocol_timeout)

abbrev fresh : Allocator
fresh = record { next_number = 1; in_use = [] }

full_discovery-Finds_example :
    (t : Search ℕ) × (full_discovery crowd 3 false [] [] fresh 0 ≡ some t)
    × (length t.discovered_uids ≤ 3)
full_discovery-Finds_example = full_discovery-Finds crowd 2 false [] [] fresh 0

-- All the numbers up to a bound.
up_to : ℕ → List ℕ
up_to zero = []
up_to (suc n) = suc n ∷ up_to n

contains-up_to : (n v : ℕ) → 1 ≤ v → v ≤ n → contains v (up_to n) ≡ true
unfolding up_to contains
contains-up_to zero v low high = absurd (omega arith)
contains-up_to (suc n) v low high = ground (arith, contains-up_to n v)

abbrev used_up : Allocator
used_up = record { next_number = 7; in_use = up_to 255 }

used_up-IsExhausted : IsExhausted used_up
used_up-IsExhausted = ((omega arith, omega arith), λ v h. contains-up_to 255 v h.0 h.1)

discover_unique_branch-IsExhausted_example :
    ((discover_unique_branch crowd 0 100 [] used_up 0).2 ≡ ([], no_response))
    × ((discover_unique_branch crowd 0 100 [] used_up 0).1 ≡ 0)
    × IsExhausted (discover_unique_branch crowd 0 100 [] used_up 0).0
    × ((mute_device crowd 5 used_up 0).2 ≡ false)
    × ((mute_device crowd 5 used_up 0).1 ≡ 0)
discover_unique_branch-IsExhausted_example =
    discover_unique_branch-IsExhausted crowd 0 100 [] 5 used_up 0 used_up-IsExhausted
