-- ===== src/Discovery/SearchTree.antt =====
-- rdm_dmx_async/services/binary_search.py. The nodes refer to one another, so that they stand in a
-- store under numbers: `size` is the next number. Printing is left out.
pub mod Split
pub mod NextRoot
pub mod Rooted
use rdm_dmx_async.Base.{
  ℕ, zero, suc, ◌+◌, ◌-◌, ◌/◌, Option, none, some, Bool, true, false, ◌&&◌, ◌||◌, ◌==◌,
  if◌then◌else◌,
}

pub record BinarySearchNode : Type 0 where
  pub root : Option ℕ
  pub branch_low : Option ℕ
  pub branch_high : Option ℕ
  pub address_low : ℕ
  pub address_high : ℕ
  pub is_complete : Bool
  pub depth : ℕ

pub record Store : Type 0 where
  pub nodes : ℕ → BinarySearchNode
  pub size : ℕ

-- `__init__`
abbrev pub new_node : Option ℕ → ℕ → ℕ → ℕ → BinarySearchNode
new_node root address_low address_high depth = record {
  root = root;
  branch_low = none;
  branch_high = none;
  address_low = address_low;
  address_high = address_high;
  is_complete = false;
  depth = depth;
}

abbrev pub write : ℕ → BinarySearchNode → (ℕ → BinarySearchNode) → ℕ → BinarySearchNode
write n node nodes k = if k == n then node else nodes k

unfoldable pub mark_complete : ℕ → Store → Store
mark_complete n t = record t { nodes = write n (record (t.nodes n) { is_complete = true }) t.nodes }

unfoldable pub is_some : Option ℕ → Bool
is_some none = false
is_some (some n) = true

abbrev pub midpoint : BinarySearchNode → ℕ
midpoint node = (node.address_high - node.address_low) / 2 + node.address_low

-- The node with its two new children.
unfoldable pub split_node : ℕ → Store → Store
split_node n t =
    let node : BinarySearchNode = t.nodes n in
    let low : BinarySearchNode =
      new_node (some n) node.address_low (midpoint node) (node.depth + 1) in
    let high : BinarySearchNode =
      new_node (some n) (midpoint node + 1) node.address_high (node.depth + 1) in
    record {
      nodes =
          write n (record node { branch_low = some t.size; branch_high = some (suc t.size) })
            (write (suc t.size) high (write t.size low t.nodes));
      size = suc (suc t.size);
    }

unfoldable pub split : ℕ → Store → Store × Bool
unfolding is_some
split n t =
    if (t.nodes n).address_low == (t.nodes n).address_high
    then (t, false)
    else if is_some (t.nodes n).branch_low || is_some (t.nodes n).branch_high
    then (t, true)
    else (split_node n t, true)

-- `branch_low and branch_high`, and both are complete
unfoldable pub both_complete : Option ℕ → Option ℕ → Store → Bool
both_complete (some low) (some high) t = (t.nodes low).is_complete && (t.nodes high).is_complete
both_complete _ _ t = false

-- The loop of `get_next_root` at a node, with `fuel` rounds to go; `none` where they run out.
unfoldable pub climb : ℕ → Store → Option ℕ → Option (Store × Option ℕ)
climb fuel t none = some (t, none)
climb zero t (some k) = none
climb (suc fuel) t (some k) =
    let above = climb fuel (mark_complete k t) (t.nodes k).root in
    if both_complete (t.nodes k).branch_low (t.nodes k).branch_high t
    then above
    else some (t, some k)

-- A node is made after its root, so that there are fewer roots above it than its number.
unfoldable pub get_next_root : ℕ → Store → Option (Store × Option ℕ)
unfolding climb
get_next_root n t = climb n t (t.nodes n).root
