-- ===== src/Application/Addresses.antt =====
-- `set_all_dmx_addresses` of rdm_dmx_async/application/batch_operation_service.py. A cancellation is
-- not followed.
pub mod Sequence
use rdm_dmx_async.Base.{ℕ, ◌+◌, Result, ok, err, Bool, false, List, [], ◌∷◌}
use rdm_dmx_async.Base.Table.{Table}
use rdm_dmx_async.Packets.Types.{Uid}
use rdm_dmx_async.Devices.Device.{TransactionManager, RdmDevice, Ran, set_parameter}
use rdm_dmx_async.Devices.Apis.DmxConfig.{set_start_address}
use rdm_dmx_async.Application.Collection.{DeviceCollectionManager}

-- The devices as the loop leaves them, the world, and the results.
abbrev pub Addressed : Type 0 → Type 0
Addressed W = Table RdmDevice × W × List (Uid × Bool)

module _ {W : Type 0} (txn : TransactionManager W) where
  unfoldable pub with_result : Uid → RdmDevice → Bool → Addressed W → Addressed W
  with_result uid d answer (devices, w, results) = ((uid, d) ∷ devices, w, (uid, answer) ∷ results)

  -- After a device: an exception is a failure, and keeps the address for the next device.
  unfoldable pub after_device : Uid → ℕ → ℕ → (ℕ → W → Addressed W) → Ran W Bool → Addressed W
  unfolding with_result
  after_device uid address spacing next (d, w, err e) = with_result uid d false (next address w)
  after_device uid address spacing next (d, w, ok answer) =
      with_result uid d answer (next (address + spacing) w)

  unfoldable pub address_each : ℕ → Table RdmDevice → ℕ → W → Addressed W
  unfolding after_device set_start_address set_parameter
  address_each spacing [] address w = ([], w, [])
  address_each spacing ((uid, d) ∷ rest) address w =
      after_device uid address spacing (λ next v. address_each spacing rest next v)
        (set_parameter txn (set_start_address address) d w)

  unfoldable pub set_all_dmx_addresses :
      ℕ → ℕ → DeviceCollectionManager → W → DeviceCollectionManager × W × List (Uid × Bool)
  unfolding address_each
  set_all_dmx_addresses start spacing m w =
      let (devices, v, results) = address_each spacing m.devices start w in
      (record m { devices = devices }, v, results)
