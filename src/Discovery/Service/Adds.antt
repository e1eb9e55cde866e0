-- ===== src/Discovery/Service/Adds.antt =====
-- How many devices a branch adds (services/discovery_service.py).
use rdm_dmx_async.Base.{
  ℕ, zero, suc, ◌≤◌, ◌≡◌, refl, Option, none, some, Result, ok, err, Bool, true, false, ◌==◌,
  Bool-cases, inl, inr, List, [], ◌∷◌, length, length-append, contains, arith,
}
use std.Path.{subst}
use rdm_dmx_async.Packets.Types.{Uid}
use rdm_dmx_async.Packets.Rdm.{RdmResponse}
use rdm_dmx_async.Transaction.Allocator.{Allocator}
use rdm_dmx_async.Discovery.Service.{
  Send, DiscoveryResult, no_response, address_found, collision, Sent, max_mute_retries, remember,
  mute_device, muted, confirm, branch_result, command, discover_unique_branch, retried, attempts,
}

-- A branch adds at most one device, and none without a response.
abbrev pub Adds : {W : Type 0} → List Uid → Sent W (List Uid × DiscoveryResult) → Type 0
Adds uids (a, w, (us, no_response)) = us ≡ uids
Adds uids (a, w, (us, r)) = length us ≤ suc (length uids)

length-remember : (uid : Uid) (uids : List Uid) → length (remember uid uids) ≤ suc (length uids)
unfolding remember
length-remember uid uids = elim (Bool-cases (contains uid uids)) [
  | inl before ↦ rw before (omega arith)
  | inr new ↦ rw new (omega (arith, length-append uids (uid ∷ [])))
]

module _ {W : Type 0} (send : Send W) where
  muted-Adds :
      (uid : Uid) (uids : List Uid) (x : Sent W Bool) (later : Sent W (List Uid × DiscoveryResult))
      → Adds uids later
      → Adds uids (muted send uid uids x later)
  unfolding muted
  muted-Adds uid uids (a, w, true) later h = length-remember uid uids
  muted-Adds uid uids (a, w, false) later h = h

  confirm-Adds :
      (tries : ℕ) (uid : Uid) (uids : List Uid) (a : Allocator) (w : W)
      → Adds uids (confirm send tries uid uids a w)
  unfolding confirm
  confirm-Adds zero uid uids a w = omega arith
  confirm-Adds (suc tries) uid uids a w =
      let first = mute_device send uid a w in
      muted-Adds uid uids first _ (confirm-Adds tries uid uids first.0 first.1)

  discover_unique_branch-Adds :
      (low high : ℕ) (uids : List Uid) (a : Allocator) (w : W)
      → Adds uids (discover_unique_branch send low high uids a w)
  unfolding discover_unique_branch
  discover_unique_branch-Adds low high uids a w = by_response (command send _ _ _ a w)
    where
      by_response :
          (x : Sent W (Result (Option RdmResponse))) → Adds uids (branch_result send uids x)
      by_response (b, v, err e) = unfold branch_result in refl
      by_response (b, v, ok none) = unfold branch_result in omega arith
      by_response (b, v, ok (some r)) =
          unfold branch_result in
          elim (Bool-cases (r.source_uid == 0)) [
            | inl null ↦ rw null (omega arith)
            | inr found ↦ rw found (confirm-Adds max_mute_retries r.source_uid uids b v)
          ]

  retried-Adds :
      (uids : List Uid) (x later : Sent W (List Uid × DiscoveryResult))
      → Adds uids x
      → (x.2.0 ≡ uids → Adds uids later)
      → Adds uids (retried send x later)
  unfolding retried
  retried-Adds uids (a, w, (us, no_response)) later h k = k h
  retried-Adds uids (a, w, (us, address_found)) later h k = h
  retried-Adds uids (a, w, (us, collision)) later h k = h

  pub attempts-Adds :
      (left low high : ℕ) (uids : List Uid) (a : Allocator) (w : W)
      → Adds uids (attempts send left low high uids a w)
  unfolding attempts
  attempts-Adds zero low high uids a w = discover_unique_branch-Adds low high uids a w
  attempts-Adds (suc left) low high uids a w =
      let first = discover_unique_branch send low high uids a w in
      retried-Adds uids first _ (discover_unique_branch-Adds low high uids a w) (λ same.
        subst (λ us. Adds us (attempts send left low high first.2.0 first.0 first.1)) same
          (attempts-Adds left low high first.2.0 first.0 first.1))
