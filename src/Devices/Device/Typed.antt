-- ===== src/Devices/Device/Typed.antt =====
-- The type of what the cached methods return: a parameter's entry in the cache has the type of its
-- method (services/rdm_device.py, services/device_apis).
use rdm_dmx_async.Base.{
  ℕ, ◌≡◌, refl, sym, ap, ◌∙◌, Option, none, some, Result, ok, err, Bool, true, false, ◌==◌, ==→eq,
  Bool-cases, inl, inr,
}
use rdm_dmx_async.Base.Words.{Bytes}
use rdm_dmx_async.Base.Table.{lookup, delete, lookup-insert, lookup-delete}
use rdm_dmx_async.Packets.Types.{Pid}
use rdm_dmx_async.Devices.Pids.{StandardPid, value, value-injective}
use rdm_dmx_async.Devices.Device.{
  TransactionManager, RdmDevice, CachedParameter, Value, is_expired, found, cache_get, cache_set,
  Parameter, noted, stored, Ran, execute_get, kept, received, fetch, served, get_parameter,
}
use rdm_dmx_async.Devices.Device.Kinds.{
  Kind, Method, parameter_of, kind_of, fits, Returns, method-kind, method-otherwise,
}

-- Every entry of the cache has the type of its parameter.
abbrev pub IsTyped : RdmDevice → Type 0
IsTyped d =
    (q : StandardPid) (c : CachedParameter)
    → lookup (value q) d.parameter_cache ≡ some c
    → fits (kind_of q) c.cached_value ≡ true

some_cached : {a b : CachedParameter} → some a ≡ some b → a ≡ b
some_cached h = cc

nothing_cached : {a : CachedParameter} → none ≡ some a → ⊥
nothing_cached h = cc

pub delete-IsTyped :
    (pid : Pid) (d : RdmDevice)
    → IsTyped d
    → IsTyped (record d { parameter_cache = delete pid d.parameter_cache })
delete-IsTyped pid d typed q c h = elim (Bool-cases (value q == pid)) [
  | inl same ↦
      absurd
        (nothing_cached (sym (lookup-delete pid (value q) d.parameter_cache ∙ rw same refl) ∙ h))
  | inr other ↦ typed q c (sym (lookup-delete pid (value q) d.parameter_cache ∙ rw other refl) ∙ h)
]

cache_set-IsTyped :
    (now : ℕ) (p : StandardPid) (v : Value) (d : RdmDevice)
    → fits (kind_of p) v ≡ true
    → IsTyped d
    → IsTyped (cache_set now (value p) v d)
unfolding cache_set
cache_set-IsTyped now p v d fit typed q c h = elim (Bool-cases (value q == value p)) [
  | inl same ↦
      let own : q ≡ p = value-injective q p (==→eq (value q) (value p) same) in
      let entry : CachedParameter = record { cached_value = v; timestamp = now } in
      let held : entry ≡ c =
        some_cached
          (sym (lookup-insert (value p) (value q) entry d.parameter_cache ∙ rw same refl) ∙ h) in
      ap (λ (k : StandardPid). fits (kind_of k) c.cached_value) own
      ∙ ap (λ (x : CachedParameter). fits (kind_of p) x.cached_value) (sym held)
      ∙ fit
  | inr other ↦
      typed q c (sym (lookup-insert (value p) (value q) _ d.parameter_cache ∙ rw other refl) ∙ h)
]

cache_get-IsTyped :
    (now : ℕ) (p : StandardPid) (d : RdmDevice)
    → IsTyped d
    → IsTyped (cache_get now (value p) d).0 × Returns (kind_of p) (ok (cache_get now (value p) d).1)
unfolding cache_get
cache_get-IsTyped now p d typed = by_entry (lookup (value p) d.parameter_cache) refl
  where
    by_entry :
        (o : Option CachedParameter)
        → lookup (value p) d.parameter_cache ≡ o
        → IsTyped (found now (value p) d o).0 × Returns (kind_of p) (ok (found now (value p) d o).1)
    by_entry none e = unfold found in (typed, tt)
    by_entry (some c) e =
        unfold found in
        elim (Bool-cases (is_expired now d.cache_max_age c)) [
          | inl old ↦ rw old (delete-IsTyped (value p) d typed, tt)
          | inr young ↦ rw young (typed, typed p c e)
        ]

-- A method leaves the cache so, and returns a value of its type.
abbrev pub Keeps : {W : Type 0} → Option Kind → Ran W (Option Value) → Type 0
Keeps k (d, w, r) = IsTyped d × Returns k r

module _ {W : Type 0} (txn : TransactionManager W) (m : Method) where
  abbrev p : Parameter
  p = parameter_of m

  kept-Keeps :
      (use_cache : Bool) (o : Option Value) (d : RdmDevice) (w : W)
      → ((v : Value) → o ≡ some v → fits (kind_of p.pid) v ≡ true)
      → IsTyped d
      → Keeps (kind_of p.pid) (kept txn p use_cache o d w)
  unfolding kept noted stored
  kept-Keeps use_cache none d w fit typed = (typed, method-otherwise m)
  kept-Keeps true (some v) d w fit typed =
      (cache_set-IsTyped (txn.now w) p.pid v (noted p v d) (fit v refl) typed, fit v refl)
  kept-Keeps false (some v) d w fit typed = (typed, fit v refl)

  received-Keeps :
      (use_cache : Bool) (d : RdmDevice) (w : W) (o : Result (Option Bytes))
      → IsTyped d
      → Keeps (kind_of p.pid) (received txn p use_cache (d, w, o))
  unfolding received
  received-Keeps use_cache d w (err e) typed = (typed, tt)
  received-Keeps use_cache d w (ok none) typed = (typed, method-otherwise m)
  received-Keeps use_cache d w (ok (some bs)) typed =
      kept-Keeps use_cache (p.parse bs) d w (λ v. method-kind m bs v) typed

  fetch-Keeps :
      (use_cache : Bool) (d : RdmDevice) (w : W)
      → IsTyped d
      → Keeps (kind_of p.pid) (fetch txn p use_cache d w)
  unfolding fetch execute_get
  fetch-Keeps use_cache d w typed = received-Keeps use_cache d _ _ typed

  served-Keeps :
      (o : Option Value) (d : RdmDevice) (w : W)
      → IsTyped d
      → Returns (kind_of p.pid) (ok o)
      → Keeps (kind_of p.pid) (served txn p (d, o) w)
  unfolding served
  served-Keeps (some v) d w typed fit = (typed, fit)
  served-Keeps none d w typed fit = fetch-Keeps true d w typed

  pub get_parameter-IsTyped :
      (use_cache : Bool) (d : RdmDevice) (w : W)
      → IsTyped d
      → IsTyped (get_parameter txn p use_cache d w).0
        × Returns (kind_of p.pid) (get_parameter txn p use_cache d w).2
  unfolding get_parameter
  get_parameter-IsTyped true d w typed =
      let (still, fit) = cache_get-IsTyped (txn.now w) p.pid d typed in
      served-Keeps (cache_get (txn.now w) (value p.pid) d).1
        (cache_get (txn.now w) (value p.pid) d).0 w still fit
  get_parameter-IsTyped false d w typed = fetch-Keeps false d w typed
