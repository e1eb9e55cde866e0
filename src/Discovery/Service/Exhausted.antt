-- ===== src/Discovery/Service/Exhausted.antt =====
-- The transaction numbers of the discovery commands (services/discovery_service.py,
-- transaction/allocator.py).
use rdm_dmx_async.Base.{
  ℕ, zero, suc, ◌≡◌, refl, ap, Result, err, runtime_error, true, false, List, contains,
}
use rdm_dmx_async.Packets.Types.{Uid}
use rdm_dmx_async.Transaction.Allocator.{Allocator, advance, search_free, allocate}
use rdm_dmx_async.Transaction.Allocator.Search.{IsTxn, advance-IsTxn}
use rdm_dmx_async.Discovery.Service.{
  Send, no_response, with_number, command, acknowledged, mute_device, branch_result,
  discover_unique_branch,
}

-- Every number is in use.
abbrev pub IsExhausted : Allocator → Type 0
IsExhausted a = IsTxn a.next_number × ((v : ℕ) → IsTxn v → contains v a.in_use ≡ true)

search_free-IsExhausted :
    (tries : ℕ) (a : Allocator)
    → IsExhausted a
    → ((search_free tries a).1 ≡ err runtime_error) × IsExhausted (search_free tries a).0
unfolding search_free
search_free-IsExhausted zero a h = (refl, h)
search_free-IsExhausted (suc tries) a (valid, used) = rw (used a.next_number valid) (
    search_free-IsExhausted tries (record a { next_number = advance a.next_number })
      (advance-IsTxn a.next_number valid, used))

allocate-IsExhausted :
    (a : Allocator)
    → IsExhausted a
    → (b : Allocator) × (allocate a ≡ (b, err runtime_error)) × IsExhausted b
unfolding allocate
allocate-IsExhausted a h =
    let (raised, still) = search_free-IsExhausted 255 a h in
    ((search_free 255 a).0, ap (λ (r : Result ℕ). ((search_free 255 a).0, r)) raised, still)

module _ {W : Type 0} (send : Send W) where
  -- Once every transaction number is in use no discovery command is sent: a branch counts as one
  -- without a response and a mute as not acknowledged, whatever the devices would answer, nothing
  -- reaches the wire, and the numbers stay in use.
  pub discover_unique_branch-IsExhausted :
      (low high : ℕ) (uids : List Uid) (uid : Uid) (a : Allocator) (w : W)
      → IsExhausted a
      → ((discover_unique_branch send low high uids a w).2 ≡ (uids, no_response))
        × ((discover_unique_branch send low high uids a w).1 ≡ w)
        × IsExhausted (discover_unique_branch send low high uids a w).0
        × ((mute_device send uid a w).2 ≡ false)
        × ((mute_device send uid a w).1 ≡ w)
  unfolding discover_unique_branch branch_result command mute_device with_number acknowledged
  discover_unique_branch-IsExhausted low high uids uid a w h =
      let (b, raised, still) = allocate-IsExhausted a h in rw raised (refl, refl, still, refl, refl)
