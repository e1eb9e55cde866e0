-- ===== src/Application/Addresses/Sequence.antt =====
-- The addresses that the devices get (application/batch_operation_service.py).
use rdm_dmx_async.Base.{
  ℕ, ◌+◌, ◌/◌, ◌%◌, ◌≤◌, ◌≡◌, refl, Result, ok, err, Bool, true, le→leb, lt→ltb, List, [], ◌∷◌,
  ◌++◌, arith,
}
use rdm_dmx_async.Base.Words.{Bytes, to_bytes}
use rdm_dmx_async.Base.Table.{Table}
use rdm_dmx_async.Packets.Types.{Uid, Pid}
use rdm_dmx_async.Transaction.Outcome.{TransactionResult}
use rdm_dmx_async.Devices.Pids
use rdm_dmx_async.Devices.Pids.{value}
use rdm_dmx_async.Devices.Struct.{pack}
use rdm_dmx_async.Devices.Device.{
  TransactionManager, RdmDevice, clear_cache, success_of, execute_set, set_ended, set_sent,
  set_parameter, sending,
}
use rdm_dmx_async.Devices.Apis.DmxConfig.{set_start_address, address_set}
use rdm_dmx_async.Application.Collection.{DeviceCollectionManager}
use rdm_dmx_async.Application.Addresses.{
  with_result, after_device, address_each, set_all_dmx_addresses,
}

-- What the loop must make of the devices, from a world on: each is sent its address, the first one
-- and then one more by the distance each time, as the two bytes of DMX_START_ADDRESS (0x00F0); its
-- state has it; it keeps its place and its UID; and its result is True.
abbrev pub IsSequence :
    {W : Type 0}
    → TransactionManager W
    → ℕ
    → ℕ
    → W
    → Table RdmDevice
    → Table RdmDevice × W × List (Uid × Bool)
    → Type 0
IsSequence txn address spacing w [] ([], v, []) = v ≡ w
IsSequence txn address spacing w ((uid, d) ∷ inputs)
      ((key, e) ∷ outputs, v, (named, answer) ∷ results) =
    (key ≡ uid)
    × (e.device_uid ≡ d.device_uid)
    × (e.state.dmx_start_address ≡ address)
    × (named ≡ uid)
    × (answer ≡ true)
    × IsSequence txn (address + spacing) spacing
        (txn.set d.device_uid 0x00F0 (address / 256 ∷ address % 256 ∷ []) w).0 inputs
        (outputs, v, results)
IsSequence txn address spacing w _ _ = ⊥

abbrev pub Succeeds : Result TransactionResult → Type 0
Succeeds (err e) = ⊥
Succeeds (ok result) = result.success ≡ true

success_of-Succeeds : (r : Result TransactionResult) → Succeeds r → success_of r ≡ ok true
unfolding success_of
success_of-Succeeds (err e) h = elim h [ ]
success_of-Succeeds (ok result) h = rw h refl

-- No device is due an address above 512.
abbrev pub Fits : ℕ → ℕ → Table RdmDevice → Type 0
Fits address spacing [] = Unit
Fits address spacing ((uid, d) ∷ rest) = (address ≤ 512) × Fits (address + spacing) spacing rest

two_bytes :
    (address : ℕ) → address ≤ 512 → to_bytes 2 address ++ [] ≡ address / 256 ∷ address % 256 ∷ []
unfolding to_bytes
two_bytes address high =
    let small : (address / 256 % 256) ≡ address / 256 = omega arith in rw small refl

set_start_address-sends :
    (address : ℕ)
    → 1 ≤ address
    → address ≤ 512
    → set_start_address address
      ≡ sending Pids.dmx_start_address
          (ok (address / 256 ∷ address % 256 ∷ []))
          (address_set address)
unfolding set_start_address pack
set_start_address-sends address low high =
    rw
      (
        le→leb 1 address low,
        le→leb address 512 high,
        lt→ltb address 65536 (omega arith),
        two_bytes address high,
      )
      refl

module _ {W : Type 0} (txn : TransactionManager W)
    (succeeds : (uid : Uid) (pid : Pid) (arguments : Bytes) (w : W)
      → Succeeds (txn.set uid pid arguments w).1) where
  set_address_ok :
      (address : ℕ) (d : RdmDevice) (w : W)
      → 1 ≤ address
      → address ≤ 512
      → set_parameter txn (set_start_address address) d w ≡ (
        address_set address d,
        (txn.set d.device_uid 0x00F0 (address / 256 ∷ address % 256 ∷ []) w).0,
        ok true,
      )
  unfolding set_parameter set_sent set_ended execute_set value
  set_address_ok address d w low high =
      let sent = address / 256 ∷ address % 256 ∷ [] in
      rw
        (
          set_start_address-sends address low high,
          success_of-Succeeds (txn.set d.device_uid 0x00F0 sent w).1
              (succeeds d.device_uid 0x00F0 sent w),
        )
        refl

  address_each-IsSequence :
      (spacing : ℕ) (devices : Table RdmDevice) (address : ℕ) (w : W)
      → 1 ≤ address
      → Fits address spacing devices
      → IsSequence txn address spacing w devices (address_each txn spacing devices address w)
  unfolding address_each after_device with_result clear_cache
  address_each-IsSequence spacing [] address w low fits = refl
  address_each-IsSequence spacing ((uid, d) ∷ rest) address w low fits =
      rw (set_address_ok address d w low fits.0) (
        refl,
        refl,
        refl,
        refl,
        refl,
        address_each-IsSequence spacing rest (address + spacing)
            (txn.set d.device_uid 0x00F0 (address / 256 ∷ address % 256 ∷ []) w).0 (omega arith)
            fits.1,
      )

  -- Where every SET succeeds, the first address is at least 1 and every address that is due is at
  -- most 512, each device of the collection in turn is sent a SET of DMX_START_ADDRESS with its
  -- address, the first one plus the given distance for each device before it, and nothing else is
  -- sent. The collection keeps the devices in order, each has its address in its state, and the
  -- results name each with True.
  pub set_all_dmx_addresses-IsSequence :
      (start spacing : ℕ) (m : DeviceCollectionManager) (w : W)
      → 1 ≤ start
      → Fits start spacing m.devices
      → IsSequence txn start spacing w m.devices (
        (set_all_dmx_addresses txn start spacing m w).0.devices,
        (set_all_dmx_addresses txn start spacing m w).1,
        (set_all_dmx_addresses txn start spacing m w).2,
      )
  unfolding set_all_dmx_addresses
  set_all_dmx_addresses-IsSequence start spacing m w low fits =
      address_each-IsSequence spacing m.devices start w low fits
