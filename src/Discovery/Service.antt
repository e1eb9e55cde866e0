-- ===== src/Discovery/Service.antt =====
-- rdm_dmx_async/services/discovery_service.py: the search for devices, over the allocator of the
-- protocol and a world that the discovery commands change. A cancellation is not followed, nor what
-- is done with the devices that were found.
pub mod Sound
pub mod Adds
pub mod Limit
pub mod Exhausted
use rdm_dmx_async.Base.{
  ℕ, zero, suc, ◌+◌, ◌-◌, Option, none, some, Result, ok, err, Bool, true, false, not, ltb, leb,
  ◌==◌, ◌&&◌, if◌then◌else◌, List, [], ◌∷◌, ◌++◌, drop, contains,
}
use rdm_dmx_async.Base.Words.{Bytes, to_bytes}
use rdm_dmx_async.Packets.Types.{Uid, Pid}
use rdm_dmx_async.Packets.Rdm.{RdmResponse}
use rdm_dmx_async.Transaction.Allocator.{Allocator, allocate}
use rdm_dmx_async.Discovery.SearchTree.{
  BinarySearchNode, Store, new_node, mark_complete, split, get_next_root,
}

-- `send_discovery_command`, given the destination, the PID, the transaction number and the data.
abbrev pub Send : Type 0 → Type 0
Send W = Uid → Pid → ℕ → Bytes → W → W × Result (Option RdmResponse)

pub data DiscoveryResult : Type 0 where
  no_response address_found collision : DiscoveryResult

abbrev pub broadcast_uid : Uid
broadcast_uid = 0xFFFFFFFFFFFF

abbrev pub disc_unique_branch : Pid
disc_unique_branch = 0x0001

abbrev pub disc_mute : Pid
disc_mute = 0x0002

abbrev pub disc_un_mute : Pid
disc_un_mute = 0x0003

-- `struct.pack(">Q", address)[2:]`, for an address of 64 bits.
unfoldable pub address_to_uid : ℕ → Bytes
address_to_uid address = drop 2 (to_bytes 8 address)

-- What a command leaves, and what it returns.
abbrev pub Sent : Type 0 → Type 0 → Type 0
Sent W A = Allocator × W × A

abbrev pub max_mute_retries : ℕ
max_mute_retries = 5

abbrev pub max_retries : ℕ
max_retries = 3

unfoldable pub acknowledged : Result (Option RdmResponse) → Bool
acknowledged (err e) = false
acknowledged (ok none) = false
acknowledged (ok (some r)) = true

unfoldable pub remember : Uid → List Uid → List Uid
remember uid uids = if contains uid uids then uids else uids ++ uid ∷ []

module _ {W : Type 0} (send : Send W) where
  -- The number is allocated as the command is built; it is not released.
  unfoldable pub with_number :
      Uid → Pid → Bytes → W → Allocator × Result ℕ → Sent W (Result (Option RdmResponse))
  with_number uid pid arguments w (a, err e) = (a, w, err e)
  with_number uid pid arguments w (a, ok n) =
      let (after, r) = send uid pid n arguments w in (a, after, r)

  unfoldable pub command : Uid → Pid → Bytes → Allocator → W → Sent W (Result (Option RdmResponse))
  unfolding with_number
  command uid pid arguments a w = with_number uid pid arguments w (allocate a)

  unfoldable pub unmute_all : Allocator → W → Allocator × W
  unfolding command
  unmute_all a w = let (b, v, r) = command broadcast_uid disc_un_mute [] a w in (b, v)

  unfoldable pub mute_device : Uid → Allocator → W → Sent W Bool
  unfolding command acknowledged
  mute_device uid a w = let (b, v, r) = command uid disc_mute [] a w in (b, v, acknowledged r)

  unfoldable pub muted :
      Uid
      → List Uid
      → Sent W Bool
      → Sent W (List Uid × DiscoveryResult)
      → Sent W (List Uid × DiscoveryResult)
  unfolding remember
  muted uid uids (a, w, true) later = (a, w, (remember uid uids, address_found))
  muted uid uids (a, w, false) later = later

  -- The mutes of a device that answered, with so many to go.
  unfoldable pub confirm : ℕ → Uid → List Uid → Allocator → W → Sent W (List Uid × DiscoveryResult)
  unfolding muted mute_device
  confirm zero uid uids a w = (a, w, (uids, collision))
  confirm (suc tries) uid uids a w =
      let first = mute_device uid a w in
      let later = confirm tries uid uids first.0 first.1 in muted uid uids first later

  unfoldable pub branch_result :
      List Uid → Sent W (Result (Option RdmResponse)) → Sent W (List Uid × DiscoveryResult)
  unfolding confirm
  branch_result uids (a, w, err e) = (a, w, (uids, no_response))
  branch_result uids (a, w, ok none) = (a, w, (uids, collision))
  branch_result uids (a, w, ok (some r)) =
      if r.source_uid == 0
      then (a, w, (uids, collision))
      else confirm max_mute_retries r.source_uid uids a w

  unfoldable pub discover_unique_branch :
      ℕ → ℕ → List Uid → Allocator → W → Sent W (List Uid × DiscoveryResult)
  unfolding branch_result command
  discover_unique_branch low high uids a w =
      branch_result uids
        (command broadcast_uid disc_unique_branch (address_to_uid low ++ address_to_uid high) a w)

  unfoldable pub retried :
      Sent W (List Uid × DiscoveryResult)
      → Sent W (List Uid × DiscoveryResult)
      → Sent W (List Uid × DiscoveryResult)
  retried (a, w, (uids, no_response)) later = later
  retried (a, w, (uids, r)) later = (a, w, (uids, r))

  -- The attempts at a branch, with so many left after the first.
  unfoldable pub attempts :
      ℕ → ℕ → ℕ → List Uid → Allocator → W → Sent W (List Uid × DiscoveryResult)
  unfolding retried discover_unique_branch
  attempts zero low high uids a w = discover_unique_branch low high uids a w
  attempts (suc left) low high uids a w =
      let first = discover_unique_branch low high uids a w in
      let later = attempts left low high first.2.0 first.0 first.1 in retried first later

  unfoldable pub mute_each : List Uid → Allocator → W → Allocator × W
  unfolding mute_device
  mute_each [] a w = (a, w)
  mute_each (uid ∷ uids) a w = let (b, v, r) = mute_device uid a w in mute_each uids b v

-- The variables of the search: the root of the tree is its node 0.
pub record Search (W : Type 0) : Type 0 where
  pub allocator : Allocator
  pub world : W
  pub discovered_uids : List Uid
  pub tree : Store
  pub current_node : ℕ
  pub saved_node : Option ℕ

-- A round of the search: it goes on, or is over.
pub data Round (W : Type 0) : Type 0 where
  going over : Search W → Round W

-- `branch and not branch.is_complete`
unfoldable pub has_work : Option ℕ → Store → Bool
has_work none t = false
has_work (some n) t = not (t.nodes n).is_complete

module _ {W : Type 0} where
  unfoldable pub at_node : Search W → Store → Option ℕ → Round W
  at_node s t none = over (record s { tree = t })
  at_node s t (some n) = going (record s { tree = t; current_node = n })

  unfoldable pub next_root : Search W → Option (Store × Option ℕ) → Option (Round W)
  unfolding at_node
  next_root s none = none
  next_root s (some (t, o)) = some (at_node s t o)

  -- The next node after a collision, or after the next root was taken.
  unfoldable pub choose_node : Search W → Option (Round W)
  unfolding has_work at_node next_root get_next_root
  choose_node s =
      let node : BinarySearchNode = s.tree.nodes s.current_node in
      if has_work node.branch_low s.tree
      then some (at_node s s.tree node.branch_low)
      else if has_work node.branch_high s.tree
      then some (at_node s s.tree node.branch_high)
      else next_root s (get_next_root s.current_node s.tree)

  unfoldable pub stopped : Round W → Round W
  stopped (going s) = over s
  stopped (over s) = over s

  unfoldable pub chosen : Bool → Option (Round W) → Option (Round W)
  unfolding choose_node stopped
  chosen limit none = none
  chosen limit (some (over s)) = some (over s)
  chosen true (some (going s)) = some (over s)
  chosen false (some (going s)) = choose_node s

  -- After a device was found: the branch is kept, and the search goes back to the root.
  unfoldable pub go_root : Search W → Option ℕ → Search W
  go_root s none = record s { saved_node = some s.current_node; current_node = 0 }
  go_root s (some n) = s

  -- After a collision: the branch is split, or the search goes back to the branch that was kept.
  unfoldable pub go_saved : Search W → Option ℕ → Search W
  go_saved s none = record s { tree = (split s.current_node s.tree).0 }
  go_saved s (some n) = record s { current_node = n; saved_node = none }

  -- What follows the attempts at the current branch; `limit` tells that this was the last round.
  unfoldable pub after_attempts : Bool → Search W → DiscoveryResult → Option (Round W)
  unfolding go_root go_saved chosen
  after_attempts limit s address_found =
      some (if limit then over (go_root s s.saved_node) else going (go_root s s.saved_node))
  after_attempts limit s collision = chosen limit (some (going (go_saved s s.saved_node)))
  after_attempts limit s no_response =
      chosen limit
        (next_root s (get_next_root s.current_node (mark_complete s.current_node s.tree)))

  abbrev pub searched : Search W → Sent W (List Uid × DiscoveryResult) → Search W
  searched s (a, w, (uids, r)) = record s { allocator = a; world = w; discovered_uids = uids }

module _ {W : Type 0} (send : Send W) where
  unfoldable pub round : Bool → Search W → Option (Round W)
  unfolding attempts after_attempts
  round limit s =
      let node : BinarySearchNode = s.tree.nodes s.current_node in
      let x =
        attempts send (max_retries - 1) node.address_low node.address_high s.discovered_uids
          s.allocator s.world in
      after_attempts limit (searched s x) x.2.1

  -- Goes on with a search, for so many rounds; `none` where they run out.
  unfoldable pub goes_on : (Search W → Option (Search W)) → Option (Round W) → Option (Search W)
  goes_on again none = none
  goes_on again (some (over s)) = some s
  goes_on again (some (going s)) = again s

  -- The `while` loop with a limit of that many rounds, `max_devices > 0`.
  unfoldable pub limited_search : ℕ → Search W → Option (Search W)
  unfolding round goes_on
  limited_search zero s = none
  limited_search (suc remaining) s =
      goes_on (λ t. limited_search remaining t) (round (remaining == 0) s)

  -- The loop without a limit.
  unfoldable pub unlimited_search : ℕ → Search W → Option (Search W)
  unfolding round goes_on
  unlimited_search zero s = none
  unlimited_search (suc fuel) s = goes_on (λ t. unlimited_search fuel t) (round false s)

  -- What `full_discovery` does before the search.
  unfoldable pub prepared : Bool → List Uid → List Uid → Allocator → W → Search W
  unfolding unmute_all mute_each
  prepared only_new skip_uids uids a w =
      let (b, v) = unmute_all send a w in
      let (c, x) = if only_new then mute_each send uids b v else (b, v) in
      let (d, y) = mute_each send skip_uids c x in
      record {
        allocator = d;
        world = y;
        discovered_uids = if only_new then uids else [];
        tree = record { nodes = λ k. new_node none 0x000000000000 0xFFFFFFFFFFFF 0; size = 1 };
        current_node = 0;
        saved_node = none;
      }

  unfoldable pub full_discovery : ℕ → Bool → List Uid → List Uid → Allocator → W → Option (Search W)
  unfolding prepared limited_search
  full_discovery max_devices only_new skip_uids uids a w =
      limited_search max_devices (prepared only_new skip_uids uids a w)
