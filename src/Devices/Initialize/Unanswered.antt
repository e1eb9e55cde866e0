-- ===== src/Devices/Initialize/Unanswered.antt =====
-- What `initialize` says of a device that may not answer (services/rdm_device.py).
use rdm_dmx_async.Base.{
  ◌≡◌, refl, Option, none, some, Result, ok, err, Bool, true, false, not, ◌&&◌, [], Bool-cases, inl,
  inr,
}
use rdm_dmx_async.Base.Words.{Bytes}
use rdm_dmx_async.Packets.Types.{Uid, Pid}
use rdm_dmx_async.Transaction.Outcome.{TransactionResult}
use rdm_dmx_async.Devices.Device.{
  TransactionManager, RdmDevice, Value, Ran, Parameter, data_of, cache_get, execute_get, kept,
  received, fetch, served, get_parameter,
}
use rdm_dmx_async.Devices.Pids.{value}
use rdm_dmx_async.Devices.Apis.SystemInfo.{get_supported_parameters}
use rdm_dmx_async.Devices.Apis.DeviceInfo.{get_manufacturer_label, get_software_version_label}
use rdm_dmx_async.Devices.Apis.DeviceLabel
use rdm_dmx_async.Devices.Capabilities.{check_capabilities, capabilities_read}
use rdm_dmx_async.Devices.Initialize.{
  info_read, get_device_info, device_info, capabilities_done, version_read, label_read,
  manufacturer_read, info_done, caught, initialize,
}

-- A result, and no exception.
abbrev pub IsOk : {A : Type 0} → Result A → Type 0
IsOk (err e) = ⊥
IsOk (ok v) = Unit

-- The device is reported as initialized and as responsive.
abbrev pub IsInitialized : {W : Type 0} → Ran W Bool → Type 0
IsInitialized (d, w, err e) = ⊥
IsInitialized (d, w, ok false) = ⊥
IsInitialized (d, w, ok true) = d.state.is_responsive ≡ true

data_of-IsOk : (r : Result TransactionResult) → IsOk r → IsOk (data_of r)
unfolding data_of
data_of-IsOk (err e) h = elim h [ ]
data_of-IsOk (ok result) h = tt

module _ {W : Type 0} (txn : TransactionManager W)
    (returns : (uid : Uid) (pid : Pid) (arguments : Bytes) (w : W)
      → IsOk (txn.get uid pid arguments w).1) where
  received-IsOk :
      (p : Parameter) (use_cache : Bool) (d : RdmDevice) (w : W) (o : Result (Option Bytes))
      → IsOk o
      → IsOk (received txn p use_cache (d, w, o)).2
  unfolding received
  received-IsOk p use_cache d w (err e) h = elim h [ ]
  received-IsOk p use_cache d w (ok none) h = tt
  received-IsOk p use_cache d w (ok (some bs)) h = unfold kept in kept_ok (p.parse bs)
    where
      kept_ok : (o : Option Value) → IsOk (kept txn p use_cache o d w).2
      kept_ok none = unfold kept in tt
      kept_ok (some v) = unfold kept in tt

  fetch-IsOk :
      (p : Parameter) (use_cache : Bool) (d : RdmDevice) (w : W)
      → IsOk (fetch txn p use_cache d w).2
  unfolding fetch execute_get
  fetch-IsOk p use_cache d w =
      received-IsOk p use_cache d _ _ (data_of-IsOk _ (returns d.device_uid (value p.pid) [] w))

  get_parameter-IsOk :
      (p : Parameter) (use_cache : Bool) (d : RdmDevice) (w : W)
      → IsOk (get_parameter txn p use_cache d w).2
  unfolding get_parameter
  get_parameter-IsOk p false d w = fetch-IsOk p false d w
  get_parameter-IsOk p true d w = served_ok (cache_get (txn.now w) (value p.pid) d)
    where
      served_ok : (x : RdmDevice × Option Value) → IsOk (served txn p x w).2
      served_ok (e, some v) = unfold served in tt
      served_ok (e, none) = unfold served in fetch-IsOk p true e w

  capabilities_done-IsInitialized :
      (x : Ran W Bool) → IsOk x.2 → IsInitialized (capabilities_done txn x)
  unfolding capabilities_done
  capabilities_done-IsInitialized (d, w, err e) h = elim h [ ]
  capabilities_done-IsInitialized (d, w, ok answer) h = refl

  check_capabilities-IsOk :
      (force : Bool) (d : RdmDevice) (w : W) → IsOk (check_capabilities txn force d w).2
  unfolding check_capabilities
  check_capabilities-IsOk force d w = elim (Bool-cases (d.capabilities_checked && not force)) [
    | inl done ↦ rw done tt
    | inr ask ↦ rw ask (
        read_ok (get_parameter txn get_supported_parameters (not force) d w)
          (get_parameter-IsOk get_supported_parameters (not force) d w))
  ]
    where
      read_ok : (x : Ran W (Option Value)) → IsOk x.2 → IsOk (capabilities_read txn x).2
      read_ok (e, u, err fault) h = elim h [ ]
      read_ok (e, u, ok o) h = unfold capabilities_read in tt

  version_read-IsInitialized :
      (check : Bool) (x : Ran W (Option Value))
      → IsOk x.2
      → IsInitialized (version_read txn check x)
  unfolding version_read
  version_read-IsInitialized false (d, w, err e) h = elim h [ ]
  version_read-IsInitialized true (d, w, err e) h = elim h [ ]
  version_read-IsInitialized true (d, w, ok o) h =
      capabilities_done-IsInitialized _ (check_capabilities-IsOk false _ w)
  version_read-IsInitialized false (d, w, ok o) h = unfold capabilities_done in refl

  label_read-IsInitialized :
      (check : Bool) (x : Ran W (Option Value)) → IsOk x.2 → IsInitialized (label_read txn check x)
  unfolding label_read
  label_read-IsInitialized check (d, w, err e) h = elim h [ ]
  label_read-IsInitialized check (d, w, ok o) h =
      version_read-IsInitialized check _ (get_parameter-IsOk get_software_version_label false _ w)

  manufacturer_read-IsInitialized :
      (check : Bool) (x : Ran W (Option Value))
      → IsOk x.2
      → IsInitialized (manufacturer_read txn check x)
  unfolding manufacturer_read
  manufacturer_read-IsInitialized check (d, w, err e) h = elim h [ ]
  manufacturer_read-IsInitialized check (d, w, ok o) h =
      label_read-IsInitialized check _ (get_parameter-IsOk DeviceLabel.get false _ w)

  info_done-IsInitialized :
      (check : Bool) (x : Ran W Bool) → IsOk x.2 → IsInitialized (info_done txn check x)
  unfolding info_done
  info_done-IsInitialized check (d, w, err e) h = elim h [ ]
  info_done-IsInitialized check (d, w, ok answer) h =
      manufacturer_read-IsInitialized check _ (get_parameter-IsOk get_manufacturer_label false d w)

  get_device_info-IsOk :
      (use_cache : Bool) (d : RdmDevice) (w : W) → IsOk (get_device_info txn use_cache d w).2
  unfolding get_device_info
  get_device_info-IsOk use_cache d w =
      read_ok (get_parameter txn device_info use_cache d w)
        (get_parameter-IsOk device_info use_cache d w)
    where
      read_ok : (x : Ran W (Option Value)) → IsOk x.2 → IsOk (info_read txn x).2
      read_ok (e, u, err fault) h = elim h [ ]
      read_ok (e, u, ok o) h = unfold info_read in tt

  caught-IsInitialized : (x : Ran W Bool) → IsInitialized x → IsInitialized (caught txn x)
  unfolding caught
  caught-IsInitialized (d, w, err e) h = elim h [ ]
  caught-IsInitialized (d, w, ok false) h = elim h [ ]
  caught-IsInitialized (d, w, ok true) h = h

  -- Where no transaction raises, `initialize` returns True and marks the device as responsive, also
  -- if every transaction fails and the device has answered nothing.
  pub initialize-IsInitialized :
      (check : Bool) (d : RdmDevice) (w : W) → IsInitialized (initialize txn check d w)
  unfolding initialize
  initialize-IsInitialized check d w =
      caught-IsInitialized _ (info_done-IsInitialized check _ (get_device_info-IsOk false d w))
