-- ===== src/Devices/Capabilities/Checked.antt =====
-- What `check_capabilities` leaves (services/rdm_device.py).
use rdm_dmx_async.Base.{
  ◌≡◌, refl, sym, ◌∙◌, Option, none, some, Result, ok, err, Bool, true, false, not, ◌&&◌,
  Bool-cases, inl, inr, ◌∷◌,
}
use rdm_dmx_async.Base.Words.{Bytes}
use rdm_dmx_async.Base.Table.{lookup}
use rdm_dmx_async.Devices.Pids.{value}
use rdm_dmx_async.Devices.Device.{
  TransactionManager, RdmDevice, CachedParameter, Value, numbers, Ran, Parameter, is_expired, found,
  cache_get, cache_set, noted, stored, execute_get, kept, received, fetch, served, get_parameter,
}
use rdm_dmx_async.Devices.Apis.SystemInfo.{get_supported_parameters}
use rdm_dmx_async.Devices.Capabilities.{reported, capabilities_read, check_capabilities}
use rdm_dmx_async.Devices.Capabilities.Details.{IsChecked}

-- The capabilities of one device are those of the other.
abbrev IsSame : RdmDevice → RdmDevice → Type 0
IsSame d e =
    (e.capabilities_checked ≡ d.capabilities_checked) × (e.supported_pids ≡ d.supported_pids)

cache_get-IsSame :
    (p : Parameter) (d : RdmDevice) {W : Type 0} (txn : TransactionManager W) (w : W)
    → IsSame d (cache_get (txn.now w) (value p.pid) d).0
unfolding cache_get
cache_get-IsSame p d txn w = by_entry (lookup (value p.pid) d.parameter_cache)
  where
    by_entry : (o : Option CachedParameter) → IsSame d (found (txn.now w) (value p.pid) d o).0
    by_entry none = unfold found in (refl, refl)
    by_entry (some c) =
        unfold found in
        elim (Bool-cases (is_expired (txn.now w) d.cache_max_age c)) [
          | inl old ↦ rw old (refl, refl)
          | inr young ↦ rw young (refl, refl)
        ]

module _ {W : Type 0} (txn : TransactionManager W) (p : Parameter) where
  received-IsSame :
      (use_cache : Bool) (d : RdmDevice) (w : W) (o : Result (Option Bytes))
      → IsSame d (received txn p use_cache (d, w, o)).0
  unfolding received
  received-IsSame use_cache d w (err e) = (refl, refl)
  received-IsSame use_cache d w (ok none) = (refl, refl)
  received-IsSame use_cache d w (ok (some bs)) = kept_same use_cache (p.parse bs)
    where
      kept_same : (b : Bool) (o : Option Value) → IsSame d (kept txn p b o d w).0
      kept_same b none = unfold kept in (refl, refl)
      kept_same true (some v) =
          unfold kept in unfold stored in unfold noted in unfold cache_set in (refl, refl)
      kept_same false (some v) = unfold kept in unfold stored in unfold noted in (refl, refl)

  served-IsSame : (x : RdmDevice × Option Value) (w : W) → IsSame x.0 (served txn p x w).0
  unfolding served fetch execute_get
  served-IsSame (d, some v) w = (refl, refl)
  served-IsSame (d, none) w = received-IsSame true d _ _

  get_parameter-IsSame :
      (use_cache : Bool) (d : RdmDevice) (w : W) → IsSame d (get_parameter txn p use_cache d w).0
  unfolding get_parameter
  get_parameter-IsSame true d w =
      let first = cache_get-IsSame p d txn w in
      let later = served-IsSame (cache_get (txn.now w) (value p.pid) d) w in
      (later.0 ∙ first.0, later.1 ∙ first.1)
  get_parameter-IsSame false d w = unfold fetch in unfold execute_get in received-IsSame false d _ _

-- The answer True is given only with capabilities that were checked.
abbrev pub Answers : {W : Type 0} → Ran W Bool → Type 0
Answers (d, w, ok true) = IsChecked d × (d.capabilities_checked ≡ true)
Answers (d, w, r) = IsChecked d

same-IsChecked : (d e : RdmDevice) → IsSame d e → IsChecked d → IsChecked e
same-IsChecked d e same checked done =
    let (pid, pids, has) = checked (sym same.0 ∙ done) in (pid, pids, same.1 ∙ has)

module _ {W : Type 0} (txn : TransactionManager W) where
  capabilities_read-Answers :
      (d : RdmDevice) (w : W) (r : Result (Option Value))
      → IsChecked d
      → Answers (capabilities_read txn (d, w, r))
  unfolding capabilities_read reported
  capabilities_read-Answers d w (ok (some (numbers (pid ∷ pids)))) checked =
      (λ done. (pid, pids, refl), refl)
  capabilities_read-Answers d w _ checked = checked

  -- `check_capabilities` keeps the capabilities well-formed: whenever they count as checked there is
  -- a list of PIDs that is not empty, and it answers True only with such a list.
  pub check_capabilities-Answers :
      (force_refresh : Bool) (d : RdmDevice) (w : W)
      → IsChecked d
      → Answers (check_capabilities txn force_refresh d w)
  unfolding check_capabilities
  check_capabilities-Answers force d w checked =
      elim (Bool-cases (d.capabilities_checked && not force)) [
        | inl done ↦ rw done (checked, left_true d.capabilities_checked (not force) done)
        | inr ask ↦ rw ask (
            capabilities_read-Answers (get_parameter txn get_supported_parameters (not force) d w).0
              _ _
              (same-IsChecked d (get_parameter txn get_supported_parameters (not force) d w).0
                (get_parameter-IsSame txn get_supported_parameters (not force) d w) checked))
      ]
    where
      left_true : (a b : Bool) → (a && b) ≡ true → a ≡ true
      left_true true b h = refl
      left_true false b h = h
