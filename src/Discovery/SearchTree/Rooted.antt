-- ===== src/Discovery/SearchTree/Rooted.antt =====
-- The trees that splits and marks make (services/binary_search.py).
use rdm_dmx_async.Base.{
  ℕ, suc, ◌<◌, ◌≡◌, refl, sym, ap, ◌∙◌, Option, none, some, ◌==◌, ◌||◌, Bool-cases, inl, inr, ==→eq,
  arith,
}
use rdm_dmx_async.Discovery.SearchTree.{
  Store, new_node, is_some, mark_complete, split_node, split, get_next_root,
}
use rdm_dmx_async.Discovery.SearchTree.NextRoot.{
  IsRooted, Ends, get_next_root-Ends, mark_complete-field,
}

-- A tree with a node for the range from `low` to `high` only.
abbrev pub single : ℕ → ℕ → Store
single low high = record { nodes = λ k. new_node none low high 0; size = 1 }

-- One operation on a node of the tree.
pub data Step (t : Store) : Store → Type 0 where
  splits : (n : ℕ) → n < t.size → Step t (split n t).0
  marks : (n : ℕ) → Step t (mark_complete n t)
  climbs : (n : ℕ) {s : Store} {k : Option ℕ} → get_next_root n t ≡ some (s, k) → Step t s

pub data Grown (low high : ℕ) : Store → Type 0 where
  seed : Grown low high (single low high)
  grow : {t s : Store} → Grown low high t → Step t s → Grown low high s

some-injective : {A : Type 0} {a b : A} → some a ≡ some b → a ≡ b
some-injective h = cc

split_node-IsRooted : (n : ℕ) (t : Store) → n < t.size → IsRooted t → IsRooted (split_node n t)
unfolding split_node
split_node-IsRooted n t small rooted k p = elim (Bool-cases (k == n)) [
  | inl same ↦ rw same (λ h. omega (arith, rooted n p h, ==→eq k n same))
  | inr other ↦ elim (Bool-cases (k == suc t.size)) [
    | inl high ↦
        rw (other, high) (λ h. omega (arith, some-injective h, ==→eq k (suc t.size) high, small))
    | inr low_or_old ↦ elim (Bool-cases (k == t.size)) [
      | inl low ↦
          rw (other, low_or_old, low)
            (λ h. omega (arith, some-injective h, ==→eq k t.size low, small))
      | inr old ↦ rw (other, low_or_old, old) (rooted k p)
    ]
  ]
]

pub split-IsRooted : (n : ℕ) (t : Store) → n < t.size → IsRooted t → IsRooted (split n t).0
unfolding split
split-IsRooted n t small rooted =
    elim (Bool-cases ((t.nodes n).address_low == (t.nodes n).address_high)) [
      | inl one ↦ rw one rooted
      | inr several ↦
          elim (Bool-cases (is_some (t.nodes n).branch_low || is_some (t.nodes n).branch_high)) [
            | inl before ↦ rw (several, before) rooted
            | inr new ↦ rw (several, new) (split_node-IsRooted n t small rooted)
          ]
    ]

climbed-IsRooted :
    (t s : Store) (k : Option ℕ) (o : Option (Store × Option ℕ))
    → IsRooted t
    → Ends t o
    → o ≡ some (s, k)
    → IsRooted s
climbed-IsRooted t s k o rooted ends h j p e =
    let same : ends.0 ≡ s = ap (λ x. x.0) (some-injective (sym ends.2 ∙ h)) in
    rooted j p (sym (ends.3.root_kept j) ∙ ap (λ (x : Store). (x.nodes j).root) same ∙ e)

Step-IsRooted : {t s : Store} → Step t s → IsRooted t → IsRooted s
Step-IsRooted {t} (splits n small) rooted = split-IsRooted n t small rooted
Step-IsRooted {t} (marks n) rooted =
    λ j p h. rooted j p (sym (mark_complete-field (λ x. x.root) n t j refl) ∙ h)
Step-IsRooted {t} (climbs n {s} {k} h) rooted =
    climbed-IsRooted t s k (get_next_root n t) rooted (get_next_root-Ends n t rooted) h

Grown-IsRooted : (low high : ℕ) {t : Store} → Grown low high t → IsRooted t
Grown-IsRooted low high seed = λ k p h. absurd (none_some h)
  where
    none_some : {p : ℕ} → none ≡ some p → ⊥
    none_some h = cc
Grown-IsRooted low high (grow before step) = Step-IsRooted step (Grown-IsRooted low high before)

-- In every tree that splits, marks and searches make from a single node, the search for the next
-- root ends, with marks only where both branches are complete, at a node with work left, if any.
pub get_next_root-Grown :
    (low high n : ℕ) (t : Store) → Grown low high t → Ends t (get_next_root n t)
get_next_root-Grown low high n t grown = get_next_root-Ends n t (Grown-IsRooted low high grown)
