-- ===== src/Discovery/SearchTree/NextRoot.antt =====
-- Going up from a node that is done (services/binary_search.py).
use rdm_dmx_async.Base.{
  ℕ, zero, suc, ◌<◌, ◌≡◌, ◌⊎◌, inl, inr, refl, sym, ap, ◌∙◌, Option, none, some, true, false, ◌==◌,
  Bool-cases, ==→eq, arith,
}
use rdm_dmx_async.Discovery.SearchTree.{
  BinarySearchNode, Store, mark_complete, both_complete, climb, get_next_root,
}

-- Every node was made after its root.
abbrev pub IsRooted : Store → Type 0
IsRooted t = (k p : ℕ) → (t.nodes k).root ≡ some p → p < k

-- From `t` to `s` only marks were made: each on a node whose two branches are complete.
pub record Marks (t s : Store) : Type 0 where
  pub root_kept : (j : ℕ) → (s.nodes j).root ≡ (t.nodes j).root
  pub low_kept : (j : ℕ) → (s.nodes j).branch_low ≡ (t.nodes j).branch_low
  pub high_kept : (j : ℕ) → (s.nodes j).branch_high ≡ (t.nodes j).branch_high
  pub kept : (j : ℕ) → (t.nodes j).is_complete ≡ true → (s.nodes j).is_complete ≡ true
  pub justified :
      (j : ℕ)
      → (s.nodes j).is_complete ≡ true
      → ((t.nodes j).is_complete ≡ true)
        ⊎ (both_complete (t.nodes j).branch_low (t.nodes j).branch_high s ≡ true)

-- The node to go on with is not one whose two branches are complete.
abbrev pub IsOpen : Store × Option ℕ → Type 0
IsOpen (s, none) = Unit
IsOpen (s, some k) = both_complete (s.nodes k).branch_low (s.nodes k).branch_high s ≡ false

abbrev pub Ends : Store → Option (Store × Option ℕ) → Type 0
Ends t o = (s : Store) × (k : Option ℕ) × (o ≡ some (s, k)) × Marks t s × IsOpen (s, k)

Marks-refl : (t : Store) → Marks t t
Marks-refl t = record {
  root_kept = λ j. refl;
  low_kept = λ j. refl;
  high_kept = λ j. refl;
  kept = λ j h. h;
  justified = λ j h. inl h;
}

both_complete-kept :
    (low high : Option ℕ) (t s : Store)
    → ((j : ℕ) → (t.nodes j).is_complete ≡ true → (s.nodes j).is_complete ≡ true)
    → both_complete low high t ≡ true
    → both_complete low high s ≡ true
unfolding both_complete
both_complete-kept (some low) (some high) t s kept h = ground (arith, kept low, kept high)
both_complete-kept none high t s kept h = cc
both_complete-kept (some low) none t s kept h = cc

mark_complete-kept :
    (k : ℕ) (t : Store) (j : ℕ)
    → (t.nodes j).is_complete ≡ true
    → ((mark_complete k t).nodes j).is_complete ≡ true
unfolding mark_complete
mark_complete-kept k t j h = ground (arith, h)

mark_complete-nodes :
    (k : ℕ) (t : Store) (j : ℕ)
    → ((mark_complete k t).nodes j ≡ t.nodes j)
      ⊎ ((j ≡ k) × ((mark_complete k t).nodes j ≡ record (t.nodes k) { is_complete = true }))
unfolding mark_complete
mark_complete-nodes k t j = elim (Bool-cases (j == k)) [
  | inl same ↦ inr (==→eq j k same, rw same refl)
  | inr other ↦ inl (rw other refl)
]

-- A field other than the mark is as it was.
pub mark_complete-field {ℓ} :
    {A : Type ℓ} (field : BinarySearchNode → A) (k : ℕ) (t : Store) (j : ℕ)
    → field (record (t.nodes k) { is_complete = true }) ≡ field (t.nodes k)
    → field ((mark_complete k t).nodes j) ≡ field (t.nodes j)
mark_complete-field field k t j same_field = elim (mark_complete-nodes k t j) [
  | inl e ↦ ap field e
  | inr (same, e) ↦ ap field e ∙ same_field ∙ ap (λ i. field (t.nodes i)) (sym same)
]

pub mark_complete-Marks :
    (k : ℕ) (t : Store)
    → both_complete (t.nodes k).branch_low (t.nodes k).branch_high t ≡ true
    → Marks t (mark_complete k t)
mark_complete-Marks k t h = record {
  root_kept = λ j. mark_complete-field (λ x. x.root) k t j refl;
  low_kept = λ j. mark_complete-field (λ x. x.branch_low) k t j refl;
  high_kept = λ j. mark_complete-field (λ x. x.branch_high) k t j refl;
  kept = mark_complete-kept k t;
  justified = λ j c. elim (mark_complete-nodes k t j) [
    | inl e ↦ inl (ap (λ x. x.is_complete) (sym e) ∙ c)
    | inr (same, e) ↦ inr (
        both_complete-kept (t.nodes j).branch_low (t.nodes j).branch_high t (mark_complete k t)
          (mark_complete-kept k t) (rw same h))
  ];
}

Marks-trans : (t s u : Store) → Marks t s → Marks s u → Marks t u
Marks-trans t s u p q = record {
  root_kept = λ j. q.root_kept j ∙ p.root_kept j;
  low_kept = λ j. q.low_kept j ∙ p.low_kept j;
  high_kept = λ j. q.high_kept j ∙ p.high_kept j;
  kept = λ j h. q.kept j (p.kept j h);
  justified = λ j h. elim (q.justified j h) [
    | inl before ↦ elim (p.justified j before) [
      | inl first ↦ inl first
      | inr both ↦
          inr (both_complete-kept (t.nodes j).branch_low (t.nodes j).branch_high s u q.kept both)
    ]
    | inr both ↦ inr (rw⁻¹ (p.low_kept j, p.high_kept j) both)
  ];
}

climb-Ends :
    (fuel : ℕ) (t : Store) (o : Option ℕ)
    → IsRooted t
    → ((k : ℕ) → o ≡ some k → k < fuel)
    → Ends t (climb fuel t o)
unfolding climb
climb-Ends fuel t none rooted enough = (t, none, refl, Marks-refl t, tt)
climb-Ends zero t (some k) rooted enough = absurd (omega (arith, enough k refl))
climb-Ends (suc fuel) t (some k) rooted enough =
    elim (Bool-cases (both_complete (t.nodes k).branch_low (t.nodes k).branch_high t)) [
      | inr open_node ↦ rw open_node (t, some k, refl, Marks-refl t, open_node)
      | inl both ↦
          let marked = mark_complete-Marks k t both in
          let above =
            climb-Ends fuel (mark_complete k t) (t.nodes k).root
              (λ j p h. rooted j p (sym (marked.root_kept j) ∙ h))
              (λ p h. omega (arith, rooted k p h, enough k refl)) in
          rw both (
            above.0,
            above.1,
            above.2,
            Marks-trans t (mark_complete k t) above.0 marked above.3,
            above.4,
          )
    ]

-- In a tree in which every node was made after its root, the search for the next root ends. It
-- changes nothing but marks, each on a node whose two branches are complete in the end, and it
-- finds a node that has a branch missing or not complete, or no node at all.
pub get_next_root-Ends : (n : ℕ) (t : Store) → IsRooted t → Ends t (get_next_root n t)
unfolding get_next_root
get_next_root-Ends n t rooted = climb-Ends n t (t.nodes n).root rooted (λ p h. rooted n p h)
