-- ===== src/Devices/Repository/Cleanup.antt =====
-- Which devices a cleanup keeps (services/device_repository.py).
use rdm_dmx_async.Base.{
  ℕ, ◌+◌, ◌-◌, ◌≤◌, ◌<◌, ltb, ◌≡◌, refl, sym, ap, ◌∙◌, Option, none, some, Bool, true, false, ◌==◌,
  ==→eq, Bool-cases, inl, inr, if◌then◌else◌, ◌||◌, List, [], ◌∷◌, contains, arith,
}
use rdm_dmx_async.Base.Table.{Table, lookup, insert, delete, lookup-insert, lookup-delete}
use rdm_dmx_async.Packets.Types.{Uid}
use rdm_dmx_async.Devices.Device.{RdmDevice}
use rdm_dmx_async.Devices.Repository.{
  DeviceRepository, new_device, added, add_device, get_device, removed, remove_device, is_stale,
  stale_uids, remove_each, cleanup_stale_devices,
}

-- Each UID is a key once.
abbrev pub IsUnique : Table RdmDevice → Type 0
IsUnique [] = Unit
IsUnique ((uid, d) ∷ rest) = (lookup uid rest ≡ none) × IsUnique rest

insert-IsUnique :
    (uid : Uid) (d : RdmDevice) (t : Table RdmDevice) → IsUnique t → IsUnique (insert uid d t)
unfolding insert
insert-IsUnique uid d [] h = (unfold lookup in refl, tt)
insert-IsUnique uid d ((j, e) ∷ rest) h = elim (Bool-cases (uid == j)) [
  | inl same ↦ rw same h
  | inr other ↦ rw other (absent other, insert-IsUnique uid d rest h.1)
]
  where
    absent : (uid == j) ≡ false → lookup j (insert uid d rest) ≡ none
    absent other = lookup-insert uid j d rest ∙ swapped other ∙ h.0
      where
        swapped : (uid == j) ≡ false → (if j == uid then some d else lookup j rest) ≡ lookup j rest
        swapped o = ground arith

delete-IsUnique : (uid : Uid) (t : Table RdmDevice) → IsUnique t → IsUnique (delete uid t)
unfolding delete
delete-IsUnique uid [] h = tt
delete-IsUnique uid ((j, e) ∷ rest) h = elim (Bool-cases (uid == j)) [
  | inl same ↦ rw same (delete-IsUnique uid rest h.1)
  | inr other ↦ rw other (absent, delete-IsUnique uid rest h.1)
]
  where
    absent : lookup j (delete uid rest) ≡ none
    absent = lookup-delete uid j rest ∙ gone (j == uid)
      where
        gone : (b : Bool) → (if b then none else lookup j rest) ≡ none
        gone true = refl
        gone false = h.0

-- Whether the entry of a UID is stale.
abbrev pub is_stale_entry : ℕ → ℕ → Option RdmDevice → Bool
is_stale_entry now timeout none = false
is_stale_entry now timeout (some d) = is_stale now timeout d.state.last_seen

stale_step :
    (now timeout : ℕ) (uid j : Uid) (e : RdmDevice) (rest : Table RdmDevice) (uids : List Uid)
    (b : Bool)
    → lookup j rest ≡ none
    → is_stale now timeout e.state.last_seen ≡ b
    → contains uid uids ≡ is_stale_entry now timeout (lookup uid rest)
    → contains uid (if b then j ∷ uids else uids)
      ≡ is_stale_entry now timeout (if uid == j then some e else lookup uid rest)
unfolding contains
stale_step now timeout uid j e rest uids b absent k later = elim (Bool-cases (uid == j)) [
  | inl same ↦ rw same (own same b k)
  | inr other ↦ rw other (others other b)
]
  where
    own :
        (uid == j) ≡ true
        → (c : Bool) → is_stale now timeout e.state.last_seen ≡ c
        → contains uid (if c then j ∷ uids else uids) ≡ is_stale now timeout e.state.last_seen
    own same true l = rw (same, l) refl
    own same false l =
        later
        ∙ ap (is_stale_entry now timeout)
            (ap (λ (n : ℕ). lookup n rest) (==→eq uid j same) ∙ absent)
        ∙ sym l

    others :
        (uid == j) ≡ false
        → (c : Bool)
        → contains uid (if c then j ∷ uids else uids) ≡ is_stale_entry now timeout (lookup uid rest)
    others other true = rw other later
    others other false = later

contains-stale_uids :
    (now timeout : ℕ) (uid : Uid) (t : Table RdmDevice)
    → IsUnique t
    → contains uid (stale_uids now timeout t) ≡ is_stale_entry now timeout (lookup uid t)
unfolding stale_uids lookup
contains-stale_uids now timeout uid [] h = unfold contains in refl
contains-stale_uids now timeout uid ((j, e) ∷ rest) h =
    stale_step now timeout uid j e rest (stale_uids now timeout rest)
      (is_stale now timeout e.state.last_seen) h.0 refl
      (contains-stale_uids now timeout uid rest h.1)

lookup-remove_device :
    (uid j : Uid) (r : DeviceRepository)
    → lookup j (remove_device uid r).0.devices ≡ (if j == uid then none else lookup j r.devices)
unfolding remove_device
lookup-remove_device uid j r = by_entry (lookup uid r.devices) refl
  where
    by_entry :
        (o : Option RdmDevice)
        → lookup uid r.devices ≡ o
        → lookup j (removed uid r o).0.devices ≡ (if j == uid then none else lookup j r.devices)
    by_entry (some d) e = unfold removed in lookup-delete uid j r.devices
    by_entry none e =
        unfold removed in
        elim (Bool-cases (j == uid)) [
          | inl same ↦ rw same (ap (λ (k : ℕ). lookup k r.devices) (==→eq j uid same) ∙ e)
          | inr other ↦ rw other refl
        ]

lookup-remove_each :
    (uids : List Uid) (j : Uid) (r : DeviceRepository)
    → lookup j (remove_each uids r).devices ≡ (if contains j uids then none else lookup j r.devices)
unfolding remove_each contains
lookup-remove_each [] j r = refl
lookup-remove_each (uid ∷ uids) j r =
    lookup-remove_each uids j (remove_device uid r).0
    ∙ ap (λ o. if contains j uids then none else o) (lookup-remove_device uid j r)
    ∙ nested (contains j uids) (j == uid)
  where
    nested :
        (a b : Bool)
        → (if a then none else if b then none else lookup j r.devices)
          ≡ (if b || a then none else lookup j r.devices)
    nested true true = refl
    nested true false = refl
    nested false true = refl
    nested false false = refl

get_device-cleanup_stale_devices :
    (now : ℕ) (uid : Uid) (r : DeviceRepository)
    → IsUnique r.devices
    → get_device uid (cleanup_stale_devices now r).0
      ≡ (if is_stale_entry now r.stale_timeout (get_device uid r) then none else get_device uid r)
unfolding get_device cleanup_stale_devices
get_device-cleanup_stale_devices now uid r unique =
    lookup-remove_each (stale_uids now r.stale_timeout r.devices) uid r
    ∙ ap (λ (b : Bool). if b then none else lookup uid r.devices)
        (contains-stale_uids now r.stale_timeout uid r.devices unique)

-- The entry of a UID before a cleanup at the time `now`, and after it.
pub data Cleaned (now timeout : ℕ) : Option RdmDevice → Option RdmDevice → Type 0 where
  unknown : Cleaned now timeout none none
  never_seen : {d : RdmDevice} → d.state.last_seen ≡ none → Cleaned now timeout (some d) (some d)
  recent :
      {d : RdmDevice} {seen : ℕ}
      → d.state.last_seen ≡ some seen
      → now ≤ seen + timeout
      → Cleaned now timeout (some d) (some d)
  stale :
      {d : RdmDevice} {seen : ℕ}
      → d.state.last_seen ≡ some seen
      → seen + timeout < now
      → Cleaned now timeout (some d) none

entry-Cleaned :
    (now timeout : ℕ) (o : Option RdmDevice)
    → Cleaned now timeout o (if is_stale_entry now timeout o then none else o)
unfolding is_stale
entry-Cleaned now timeout none = unknown
entry-Cleaned now timeout (some d) = by_time d.state.last_seen refl
  where
    by_time :
        (seen : Option ℕ)
        → d.state.last_seen ≡ seen
        → Cleaned now timeout (some d) (if is_stale now timeout seen then none else some d)
    by_time none e = never_seen e
    by_time (some seen) e = elim (Bool-cases (ltb timeout (now - seen))) [
      | inl old ↦ rw old (stale e (ground arith))
      | inr young ↦ rw young (recent e (ground arith))
    ]

-- In a repository whose UIDs are distinct, a cleanup at the time `now` removes a device that was
-- last seen earlier than `now` less the timeout, and keeps every other device as it is: one seen
-- since, the moment of the timeout included, and one that was never seen. It adds none.
pub cleanup_stale_devices-Cleaned :
    (now : ℕ) (uid : Uid) (r : DeviceRepository)
    → IsUnique r.devices
    → Cleaned now r.stale_timeout
        (get_device uid r)
        (get_device uid (cleanup_stale_devices now r).0)
cleanup_stale_devices-Cleaned now uid r unique =
    rw (get_device-cleanup_stale_devices now uid r unique)
      (entry-Cleaned now r.stale_timeout (get_device uid r))

-- The operations of a repository.
pub data Step (r : DeviceRepository) : DeviceRepository → Type 0 where
  adds : (uid : Uid) → Step r (add_device uid r).0
  removes : (uid : Uid) → Step r (remove_device uid r).0
  cleans : (now : ℕ) → Step r (cleanup_stale_devices now r).0

remove_device-IsUnique :
    (uid : Uid) (r : DeviceRepository)
    → IsUnique r.devices
    → IsUnique (remove_device uid r).0.devices
unfolding remove_device
remove_device-IsUnique uid r unique = by_entry (lookup uid r.devices)
  where
    by_entry : (o : Option RdmDevice) → IsUnique (removed uid r o).0.devices
    by_entry none = unfold removed in unique
    by_entry (some d) = unfold removed in delete-IsUnique uid r.devices unique

remove_each-IsUnique :
    (uids : List Uid) (r : DeviceRepository)
    → IsUnique r.devices
    → IsUnique (remove_each uids r).devices
unfolding remove_each
remove_each-IsUnique [] r unique = unique
remove_each-IsUnique (uid ∷ uids) r unique =
    remove_each-IsUnique uids (remove_device uid r).0 (remove_device-IsUnique uid r unique)

-- Every operation keeps the UIDs distinct.
pub Step-IsUnique : {r s : DeviceRepository} → Step r s → IsUnique r.devices → IsUnique s.devices
unfolding add_device cleanup_stale_devices
Step-IsUnique {r} (adds uid) unique = by_entry (lookup uid r.devices)
  where
    by_entry : (o : Option RdmDevice) → IsUnique (added uid r o).0.devices
    by_entry none = unfold added in insert-IsUnique uid (new_device uid) r.devices unique
    by_entry (some d) = unfold added in unique
Step-IsUnique {r} (removes uid) unique = remove_device-IsUnique uid r unique
Step-IsUnique {r} (cleans now) unique =
    remove_each-IsUnique (stale_uids now r.stale_timeout r.devices) r unique
