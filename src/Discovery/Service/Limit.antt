-- ===== src/Discovery/Service/Limit.antt =====
-- A search with a limit (services/discovery_service.py).
use rdm_dmx_async.Base.{
  ℕ, zero, suc, ◌+◌, ◌-◌, ◌≤◌, ◌<◌, ◌≡◌, refl, sym, Option, none, some, Bool, true, false, ◌==◌,
  Bool-cases, inl, inr, if◌then◌else◌, List, [], length, arith,
}
use std.Path.{subst}
use rdm_dmx_async.Packets.Types.{Uid}
use rdm_dmx_async.Transaction.Allocator.{Allocator}
use rdm_dmx_async.Discovery.SearchTree.{
  BinarySearchNode, Store, mark_complete, split, get_next_root,
}
use rdm_dmx_async.Discovery.Service.Sound.{
  Below, IsTree, mark_complete-IsTree, split-IsTree, get_next_root-Climbed,
}
use rdm_dmx_async.Discovery.Service.{
  Send, DiscoveryResult, no_response, address_found, collision, Sent, max_retries, attempts, Search,
  Round, going, over, at_node, next_root, has_work, choose_node, chosen, go_root, go_saved,
  after_attempts, searched, round, goes_on, limited_search, prepared, full_discovery,
}
use rdm_dmx_async.Discovery.Service.Adds.{Adds, attempts-Adds}

-- The search holds a tree and nodes of it.
pub record IsSound {W : Type 0} (s : Search W) : Type 0 where
  pub tree_sound : IsTree s.tree
  pub current_made : s.current_node < s.tree.size
  pub saved_made : Below s.tree.size s.saved_node

-- A round goes on soundly, unless it is the last one, or ends; its `none` is not met.
abbrev IsRound : {W : Type 0} → Bool → ℕ → Option (Round W) → Type 0
IsRound last n none = ⊥
IsRound last n (some (over s)) = length s.discovered_uids ≤ n
IsRound true n (some (going s)) = ⊥
IsRound false n (some (going s)) = IsSound s × (length s.discovered_uids ≤ n)

module _ {W : Type 0} (n : ℕ) where
  at_node-IsRound :
      (s : Search W) (t : Store) (o : Option ℕ)
      → IsTree t
      → Below t.size o
      → Below t.size s.saved_node
      → length s.discovered_uids ≤ n
      → IsRound false n (some (at_node s t o))
  unfolding at_node
  at_node-IsRound s t none tree small saved few = few
  at_node-IsRound s t (some k) tree small saved few =
      (record { tree_sound = tree; current_made = small; saved_made = saved }, few)

  next_root-IsRound :
      (s : Search W) (t : Store)
      → IsTree t
      → s.current_node < t.size
      → Below t.size s.saved_node
      → length s.discovered_uids ≤ n
      → IsRound false n (next_root s (get_next_root s.current_node t))
  unfolding next_root
  next_root-IsRound s t tree small saved few =
      let (u, o, ends, made, size, still) = get_next_root-Climbed s.current_node t tree small in
      rw ends (
        at_node-IsRound s u o still (subst (λ m. Below m o) (sym size) made)
          (subst (λ m. Below m s.saved_node) (sym size) saved) few)

  choose_node-IsRound :
      (s : Search W) → IsSound s → length s.discovered_uids ≤ n → IsRound false n (choose_node s)
  unfolding choose_node
  choose_node-IsRound s sound few =
      let node : BinarySearchNode = s.tree.nodes s.current_node in
      elim (Bool-cases (has_work node.branch_low s.tree)) [
        | inl low ↦ rw low (
            at_node-IsRound s s.tree node.branch_low sound.tree_sound
              (sound.tree_sound.low_made s.current_node) sound.saved_made few)
        | inr no_low ↦ elim (Bool-cases (has_work node.branch_high s.tree)) [
          | inl high ↦
              rw (no_low, high)
                (at_node-IsRound s s.tree node.branch_high sound.tree_sound
                  (sound.tree_sound.high_made s.current_node) sound.saved_made few)
          | inr no_high ↦
              rw (no_low, no_high)
                (next_root-IsRound s s.tree sound.tree_sound sound.current_made sound.saved_made
                  few)
        ]
      ]

  chosen-IsRound :
      (last : Bool) (x : Option (Round W)) → IsRound false n x → IsRound last n (chosen last x)
  unfolding chosen
  chosen-IsRound last none h = h
  chosen-IsRound last (some (over s)) h = h
  chosen-IsRound true (some (going s)) h = h.1
  chosen-IsRound false (some (going s)) h = choose_node-IsRound s h.0 h.1

  go_saved-IsRound :
      (s : Search W) (o : Option ℕ)
      → s.saved_node ≡ o
      → IsSound s
      → length s.discovered_uids ≤ n
      → IsRound false n (some (going (go_saved s o)))
  unfolding go_saved
  go_saved-IsRound s none e sound few =
      let (tree, grown) = split-IsTree s.current_node s.tree sound.tree_sound sound.current_made in
      (
        record {
          tree_sound = tree;
          current_made = omega (arith, grown, sound.current_made);
          saved_made = subst (λ o. Below (split s.current_node s.tree).0.size o) (sym e) tt;
        },
        few,
      )
  go_saved-IsRound s (some k) e sound few = (
    record {
      tree_sound = sound.tree_sound;
      current_made = subst (λ o. Below s.tree.size o) e sound.saved_made;
      saved_made = tt;
    },
    few,
  )

  go_root-IsRound :
      (s : Search W) (o : Option ℕ)
      → IsSound s
      → length s.discovered_uids ≤ n
      → IsRound false n (some (going (go_root s o)))
  unfolding go_root
  go_root-IsRound s none sound few = (
    record {
      tree_sound = sound.tree_sound;
      current_made = omega (arith, sound.current_made);
      saved_made = sound.current_made;
    },
    few,
  )
  go_root-IsRound s (some k) sound few = (sound, few)

  after_attempts-IsRound :
      (last : Bool) (s : Search W) (r : DiscoveryResult)
      → IsSound s
      → length s.discovered_uids ≤ n
      → IsRound last n (after_attempts last s r)
  unfolding after_attempts
  after_attempts-IsRound true s address_found sound few = few_root s.saved_node
    where
      few_root : (o : Option ℕ) → length (go_root s o).discovered_uids ≤ n
      few_root none = unfold go_root in few
      few_root (some k) = unfold go_root in few
  after_attempts-IsRound false s address_found sound few = go_root-IsRound s s.saved_node sound few
  after_attempts-IsRound last s collision sound few =
      chosen-IsRound last (some (going (go_saved s s.saved_node)))
        (go_saved-IsRound s s.saved_node refl sound few)
  after_attempts-IsRound last s no_response sound few =
      chosen-IsRound last
        (next_root s (get_next_root s.current_node (mark_complete s.current_node s.tree)))
        (unfold mark_complete in
          next_root-IsRound s (mark_complete s.current_node s.tree)
            (mark_complete-IsTree s.current_node s.tree sound.tree_sound) sound.current_made
            sound.saved_made few)

module _ {W : Type 0} (send : Send W) where
  searched-length :
      (s : Search W) (x : Sent W (List Uid × DiscoveryResult))
      → Adds s.discovered_uids x
      → length (searched s x).discovered_uids ≤ suc (length s.discovered_uids)
  searched-length s (a, w, (us, no_response)) h = rw h (omega arith)
  searched-length s (a, w, (us, address_found)) h = h
  searched-length s (a, w, (us, collision)) h = h

  round-IsRound :
      (last : Bool) (s : Search W)
      → IsSound s
      → IsRound last (suc (length s.discovered_uids)) (round send last s)
  unfolding round
  round-IsRound last s sound =
      let node : BinarySearchNode = s.tree.nodes s.current_node in
      let x =
        attempts send (max_retries - 1) node.address_low node.address_high s.discovered_uids
          s.allocator s.world in
      after_attempts-IsRound (suc (length s.discovered_uids)) last (searched s x) x.2.1
        (record {
          tree_sound = sound.tree_sound;
          current_made = sound.current_made;
          saved_made = sound.saved_made;
        })
        (searched-length s x (
          attempts-Adds send (max_retries - 1) node.address_low node.address_high s.discovered_uids
            s.allocator s.world))

  -- How the search ends after a round.
  abbrev Finds : ℕ → Option (Search W) → Type 0
  Finds n o = (t : Search W) × (o ≡ some t) × (length t.discovered_uids ≤ n)

  last_round-Finds :
      (again : Search W → Option (Search W)) (n : ℕ) (x : Option (Round W))
      → IsRound true n x
      → Finds n (goes_on send again x)
  unfolding goes_on
  last_round-Finds again n none h = elim h [ ]
  last_round-Finds again n (some (going s)) h = elim h [ ]
  last_round-Finds again n (some (over s)) h = (s, refl, h)

  goes_on-Finds :
      (again : Search W → Option (Search W)) (n more : ℕ) (x : Option (Round W))
      → ((s : Search W) → IsSound s → Finds (length s.discovered_uids + more) (again s))
      → IsRound false n x
      → Finds (n + more) (goes_on send again x)
  unfolding goes_on
  goes_on-Finds again n more none later h = elim h [ ]
  goes_on-Finds again n more (some (going s)) later h =
      let (t, ends, few) = later s h.0 in (t, ends, omega (arith, few, h.1))
  goes_on-Finds again n more (some (over s)) later h = (s, refl, omega arith)

  limited_search-Finds :
      (remaining : ℕ) (s : Search W)
      → IsSound s
      → Finds (length s.discovered_uids + suc remaining) (limited_search send (suc remaining) s)
  unfolding limited_search
  limited_search-Finds zero s sound =
      let (t, ends, few) =
        last_round-Finds _ (suc (length s.discovered_uids)) (round send true s)
          (round-IsRound true s sound) in
      (t, ends, omega (arith, few))
  limited_search-Finds (suc remaining) s sound =
      let not_last : (suc remaining == 0) ≡ false = ground arith in
      let (t, ends, few) =
        goes_on-Finds (λ u. limited_search send (suc remaining) u) (suc (length s.discovered_uids))
          (suc remaining) (round send false s) (limited_search-Finds remaining)
          (round-IsRound false s sound) in
      (t, rw not_last ends, omega (arith, few))

  -- A discovery with a limit of one device or more ends within as many rounds, whatever the devices
  -- and the wire do, and finds at most that many devices, besides those that it keeps if only new
  -- devices are searched.
  pub full_discovery-Finds :
      (max_devices : ℕ) (only_new : Bool) (skip_uids uids : List Uid) (a : Allocator) (w : W)
      → (t : Search W) × (full_discovery send (suc max_devices) only_new skip_uids uids a w
          ≡ some t)
        × (length t.discovered_uids ≤ length (if only_new then uids else []) + suc max_devices)
  unfolding full_discovery prepared
  full_discovery-Finds max_devices only_new skip_uids uids a w =
      limited_search-Finds max_devices (prepared send only_new skip_uids uids a w) (record {
        tree_sound = record {
          rooted = λ k p h. absurd (none_some p h);
          low_made = λ k. tt;
          high_made = λ k. tt;
        };
        current_made = omega arith;
        saved_made = tt;
      })
    where
      none_some : (p : ℕ) → none ≡ some p → ⊥
      none_some p h = cc
