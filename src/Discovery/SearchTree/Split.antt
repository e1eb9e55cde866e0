-- ===== src/Discovery/SearchTree/Split.antt =====
-- What a split makes of a range (services/binary_search.py).
use rdm_dmx_async.Base.{
  ℕ, suc, ◌+◌, ◌-◌, ◌*◌, ◌/◌, ◌≤◌, ◌<◌, ◌≡◌, ◌≢◌, ◌⊎◌, ◌↔◌, refl, none, some, true, ne→==, ==-refl,
  arith,
}
use rdm_dmx_async.Discovery.SearchTree.{BinarySearchNode, Store, split, split_node, midpoint}

-- The address lies in the node's range.
abbrev pub Within : ℕ → BinarySearchNode → Type 0
Within u node = (node.address_low ≤ u) × (u ≤ node.address_high)

-- Two ranges cover a third without meeting, and neither spans more than half of it.
pub record Halves (node low high : BinarySearchNode) : Type 0 where
  pub cover : (u : ℕ) → Within u node ↔ (Within u low ⊎ Within u high)
  pub apart : low.address_high < high.address_low
  pub low_half : 2 * (low.address_high - low.address_low) ≤ node.address_high - node.address_low
  pub high_half : 2 * (high.address_high - high.address_low) ≤ node.address_high - node.address_low
  pub low_ordered : low.address_low ≤ low.address_high
  pub high_ordered : high.address_low ≤ high.address_high

within_split :
    (a b u : ℕ)
    → a < b
    → ((a ≤ u) × (u ≤ b))
      ↔ (((a ≤ u) × (u ≤ (b - a) / 2 + a)) ⊎ (((b - a) / 2 + a + 1 ≤ u) × (u ≤ b)))
within_split a b u h = (λ w. ground arith, λ w. ground (arith, w))

halves :
    (node low high : BinarySearchNode)
    → node.address_low < node.address_high
    → low.address_low ≡ node.address_low
    → low.address_high ≡ midpoint node
    → high.address_low ≡ midpoint node + 1
    → high.address_high ≡ node.address_high
    → Halves node low high
halves node low high several a b c d = record {
  cover = λ u. simp (a, b, c, d) (within_split node.address_low node.address_high u several);
  apart = omega arith;
  low_half = omega arith;
  high_half = omega arith;
  low_ordered = omega arith;
  high_ordered = omega arith;
}

-- Splitting a node that has more than one address and no branches yet succeeds. It makes two new
-- nodes below it, not complete and without branches, which halve its range; the node itself keeps
-- its range, and every node made before keeps all it had.
pub split-Halves :
    (n k : ℕ) (t : Store)
    → n < t.size
    → k < t.size
    → k ≢ n
    → (t.nodes n).address_low < (t.nodes n).address_high
    → (t.nodes n).branch_low ≡ none
    → (t.nodes n).branch_high ≡ none
    → ((split n t).1 ≡ true)
      × (((split n t).0.nodes n).branch_low ≡ some t.size)
      × (((split n t).0.nodes n).branch_high ≡ some (suc t.size))
      × Halves
          ((split n t).0.nodes n)
          ((split n t).0.nodes t.size)
          ((split n t).0.nodes (suc t.size))
      × ((split n t).0.nodes k ≡ t.nodes k)
unfolding split split_node
split-Halves n k t hn hk other several low high =
    rw
      (
        ne→== (t.nodes n).address_low (t.nodes n).address_high (omega arith),
        low,
        high,
        ==-refl n,
        ne→== t.size n (omega arith),
        ne→== (suc t.size) n (omega arith),
        ==-refl (suc t.size),
        ne→== t.size (suc t.size) (omega arith),
        ==-refl t.size,
        ne→== k n other,
        ne→== k t.size (omega arith),
        ne→== k (suc t.size) (omega arith),
      )
      (refl, refl, refl, halves _ _ _ several refl refl refl refl, refl)
