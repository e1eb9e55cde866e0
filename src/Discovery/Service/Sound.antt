-- ===== src/Discovery/Service/Sound.antt =====
-- The tree and the nodes that a search holds (services/discovery_service.py, services/binary_search.py).
use rdm_dmx_async.Base.{
  ℕ, zero, suc, ◌≤◌, ◌<◌, ◌≡◌, refl, sym, ◌∙◌, Option, none, some, ◌==◌, ◌||◌, Bool-cases, inl, inr,
  arith,
}
use std.Path.{subst}
use rdm_dmx_async.Discovery.SearchTree.{
  Store, is_some, mark_complete, both_complete, split_node, split, climb, get_next_root,
}
use rdm_dmx_async.Discovery.SearchTree.NextRoot.{IsRooted, get_next_root-Ends, mark_complete-field}
use rdm_dmx_async.Discovery.SearchTree.Rooted.{split-IsRooted}

-- A node number, if there is one, is below the bound.
abbrev pub Below : ℕ → Option ℕ → Type 0
Below bound none = Unit
Below bound (some n) = n < bound

-- Every node was made after its root, and every branch has been made.
pub record IsTree (t : Store) : Type 0 where
  pub rooted : IsRooted t
  pub low_made : (k : ℕ) → Below t.size (t.nodes k).branch_low
  pub high_made : (k : ℕ) → Below t.size (t.nodes k).branch_high

pub mark_complete-IsTree : (n : ℕ) (t : Store) → IsTree t → IsTree (mark_complete n t)
mark_complete-IsTree n t tree = record {
  rooted = λ j p h. tree.rooted j p (sym (mark_complete-field (λ x. x.root) n t j refl) ∙ h);
  low_made = λ k.
      unfold mark_complete in
      elim (Bool-cases (k == n)) [
        | inl same ↦ rw same (tree.low_made n)
        | inr other ↦ rw other (tree.low_made k)
      ];
  high_made = λ k.
      unfold mark_complete in
      elim (Bool-cases (k == n)) [
        | inl same ↦ rw same (tree.high_made n)
        | inr other ↦ rw other (tree.high_made k)
      ];
}

Below-more : (o : Option ℕ) (m n : ℕ) → m ≤ n → Below m o → Below n o
Below-more none m n h b = tt
Below-more (some k) m n h b = omega arith

module _ (n : ℕ) (t : Store) (tree : IsTree t) where
  split_node-low : (k : ℕ) → Below (suc (suc t.size)) ((split_node n t).nodes k).branch_low
  unfolding split_node
  split_node-low k = elim (Bool-cases (k == n)) [
    | inl same ↦ rw same (omega arith)
    | inr other ↦ elim (Bool-cases (k == suc t.size)) [
      | inl high ↦ rw (other, high) tt
      | inr rest ↦ elim (Bool-cases (k == t.size)) [
        | inl low ↦ rw (other, rest, low) tt
        | inr old ↦
            rw (other, rest, old)
              (Below-more _ t.size (suc (suc t.size)) (omega arith) (tree.low_made k))
      ]
    ]
  ]

  split_node-high : (k : ℕ) → Below (suc (suc t.size)) ((split_node n t).nodes k).branch_high
  unfolding split_node
  split_node-high k = elim (Bool-cases (k == n)) [
    | inl same ↦ rw same (omega arith)
    | inr other ↦ elim (Bool-cases (k == suc t.size)) [
      | inl high ↦ rw (other, high) tt
      | inr rest ↦ elim (Bool-cases (k == t.size)) [
        | inl low ↦ rw (other, rest, low) tt
        | inr old ↦
            rw (other, rest, old)
              (Below-more _ t.size (suc (suc t.size)) (omega arith) (tree.high_made k))
      ]
    ]
  ]

  -- A split keeps the tree, and no node is lost.
  pub split-IsTree : n < t.size → IsTree (split n t).0 × (t.size ≤ (split n t).0.size)
  unfolding split_node
  split-IsTree small = (
    record { rooted = split-IsRooted n t small tree.rooted; low_made = lows; high_made = highs },
    grows,
  )
    where
      lows : (k : ℕ) → Below (split n t).0.size ((split n t).0.nodes k).branch_low
      lows k =
          unfold split in
          elim (Bool-cases ((t.nodes n).address_low == (t.nodes n).address_high)) [
            | inl one ↦ rw one (tree.low_made k)
            | inr several ↦
                elim (Bool-cases
                  (is_some (t.nodes n).branch_low || is_some (t.nodes n).branch_high)) [
                    | inl before ↦ rw (several, before) (tree.low_made k)
                    | inr new ↦ rw (several, new) (split_node-low k)
                  ]
          ]

      highs : (k : ℕ) → Below (split n t).0.size ((split n t).0.nodes k).branch_high
      highs k =
          unfold split in
          elim (Bool-cases ((t.nodes n).address_low == (t.nodes n).address_high)) [
            | inl one ↦ rw one (tree.high_made k)
            | inr several ↦
                elim (Bool-cases
                  (is_some (t.nodes n).branch_low || is_some (t.nodes n).branch_high)) [
                    | inl before ↦ rw (several, before) (tree.high_made k)
                    | inr new ↦ rw (several, new) (split_node-high k)
                  ]
          ]

      grows : t.size ≤ (split n t).0.size
      grows =
          unfold split in
          elim (Bool-cases ((t.nodes n).address_low == (t.nodes n).address_high)) [
            | inl one ↦ rw one (omega arith)
            | inr several ↦
                elim (Bool-cases
                  (is_some (t.nodes n).branch_low || is_some (t.nodes n).branch_high)) [
                    | inl before ↦ rw (several, before) (omega arith)
                    | inr new ↦ rw (several, new) (unfold split_node in omega arith)
                  ]
          ]

-- The search for the next root ends in the same tree but for marks, at a node of it, if any.
abbrev pub Climbed : ℕ → Option (Store × Option ℕ) → Type 0
Climbed bound none = Unit
Climbed bound (some (s, o)) = (s.size ≡ bound) × Below bound o × IsTree s

root-Below :
    (k : ℕ) (t : Store)
    → IsTree t
    → k < t.size
    → (o : Option ℕ) → (t.nodes k).root ≡ o
    → Below t.size o
root-Below k t tree small none e = tt
root-Below k t tree small (some p) e = omega (arith, tree.rooted k p e)

climb-Climbed :
    (fuel : ℕ) (t : Store) (o : Option ℕ)
    → IsTree t
    → Below t.size o
    → Climbed t.size (climb fuel t o)
unfolding climb mark_complete
climb-Climbed fuel t none tree b = (refl, tt, tree)
climb-Climbed zero t (some k) tree b = tt
climb-Climbed (suc fuel) t (some k) tree b =
    elim (Bool-cases (both_complete (t.nodes k).branch_low (t.nodes k).branch_high t)) [
      | inl done ↦ rw done (
          climb-Climbed fuel (mark_complete k t) (t.nodes k).root (mark_complete-IsTree k t tree)
            (root-Below k t tree b (t.nodes k).root refl))
      | inr work ↦ rw work (refl, b, tree)
    ]

-- And it does end there.
pub get_next_root-Climbed :
    (n : ℕ) (t : Store)
    → IsTree t
    → n < t.size
    → (s : Store) × (o : Option ℕ) × (get_next_root n t ≡ some (s, o))
      × Below t.size o
      × (s.size ≡ t.size)
      × IsTree s
get_next_root-Climbed n t tree small =
    let (s, o, ends, marks, isopen) = get_next_root-Ends n t tree.rooted in
    let climbed : Climbed t.size (some (s, o)) =
      subst (λ x. Climbed t.size x) ends
        (unfold get_next_root in
          climb-Climbed n t (t.nodes n).root tree
            (root-Below n t tree small (t.nodes n).root refl)) in
    (s, o, ends, climbed.1, climbed.0, climbed.2)
