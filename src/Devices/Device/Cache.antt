-- ===== src/Devices/Device/Cache.antt =====
-- What the cache spares, and what a SET makes it forget (services/rdm_device.py).
use rdm_dmx_async.Base.{
  ℕ, ◌+◌, ◌-◌, ◌≤◌, ◌≡◌, refl, ◌∙◌, none, some, Result, ok, true, ge→ltb, ==-refl, [], arith,
}
use rdm_dmx_async.Base.Words.{Bytes}
use rdm_dmx_async.Base.Table.{lookup, lookup-insert, lookup-delete}
use rdm_dmx_async.Packets.Types.{Pid}
use rdm_dmx_async.Transaction.Outcome.{TransactionResult}
use rdm_dmx_async.Devices.Pids.{value}
use rdm_dmx_async.Devices.Device.{
  TransactionManager, RdmDevice, Value, CachedParameter, is_expired, found, cache_get, cache_set,
  clear_cache, data_of, execute_get, Parameter, noted, stored, kept, received, fetch, served,
  get_parameter,
}

cache_get_fresh :
    (now : ℕ) (pid : Pid) (d : RdmDevice) (c : CachedParameter)
    → lookup pid d.parameter_cache ≡ some c
    → now ≤ c.timestamp + d.cache_max_age
    → cache_get now pid d ≡ (d, some c.cached_value)
unfolding cache_get found is_expired
cache_get_fresh now pid d c cached young =
    rw (cached, ge→ltb d.cache_max_age (now - c.timestamp) (omega arith)) refl

cache_get_empty :
    (now : ℕ) (pid : Pid) (d : RdmDevice)
    → lookup pid d.parameter_cache ≡ none
    → cache_get now pid d ≡ (d, none)
unfolding cache_get found
cache_get_empty now pid d empty = rw empty refl

module _ {W : Type 0} (txn : TransactionManager W) (p : Parameter) where
  -- A value in the cache that is not older than the cache's age is returned without a transaction,
  -- and neither the device nor the world changes.
  pub get_parameter_fresh :
      (d : RdmDevice) (w : W) (c : CachedParameter)
      → lookup (value p.pid) d.parameter_cache ≡ some c
      → txn.now w ≤ c.timestamp + d.cache_max_age
      → get_parameter txn p true d w ≡ (d, w, ok (some c.cached_value))
  unfolding get_parameter served
  get_parameter_fresh d w c cached young =
      rw (cache_get_fresh (txn.now w) (value p.pid) d c cached young) refl

  pub get_parameter_empty :
      (d : RdmDevice) (w : W)
      → lookup (value p.pid) d.parameter_cache ≡ none
      → get_parameter txn p true d w ≡ fetch txn p true d w
  unfolding get_parameter served
  get_parameter_empty d w empty = rw (cache_get_empty (txn.now w) (value p.pid) d empty) refl

  -- What a query that is answered leaves.
  abbrev pub after_answer : RdmDevice → W → Value → RdmDevice
  after_answer d w v = cache_set (txn.now w) (value p.pid) v (noted p v d)

  pub fetch_answered :
      (d : RdmDevice) (w after : W) (result : Result TransactionResult) (bs : Bytes) (v : Value)
      → txn.get d.device_uid (value p.pid) [] w ≡ (after, result)
      → data_of result ≡ ok (some bs)
      → p.parse bs ≡ some v
      → fetch txn p true d w ≡ (after_answer d after v, after, ok (some v))
  unfolding fetch execute_get received kept stored
  fetch_answered d w after result bs v got found_data read = rw (got, found_data, read) refl

  -- A cached method queries the device once: after an answer that it can read, it returns that value
  -- again, without a transaction, for as long as the cache's age allows.
  pub get_parameter-get_parameter :
      (d : RdmDevice) (w after later : W) (result : Result TransactionResult) (bs : Bytes)
      (v : Value)
      → lookup (value p.pid) d.parameter_cache ≡ none
      → txn.get d.device_uid (value p.pid) [] w ≡ (after, result)
      → data_of result ≡ ok (some bs)
      → p.parse bs ≡ some v
      → txn.now later ≤ txn.now after + d.cache_max_age
      → (get_parameter txn p true d w ≡ (after_answer d after v, after, ok (some v)))
        × (get_parameter txn p true (after_answer d after v) later
            ≡ (after_answer d after v, later, ok (some v)))
  unfolding cache_set noted
  get_parameter-get_parameter d w after later result bs v empty got found_data read young = (
    get_parameter_empty d w empty ∙ fetch_answered d w after result bs v got found_data read,
    get_parameter_fresh (after_answer d after v) later _
        (lookup-insert (value p.pid) (value p.pid) _ d.parameter_cache
          ∙ rw (==-refl (value p.pid)) refl)
        young,
  )

pub clear_cache-lookup :
    (pid : Pid) (d : RdmDevice) → lookup pid (clear_cache pid d).parameter_cache ≡ none
unfolding clear_cache
clear_cache-lookup pid d = lookup-delete pid pid d.parameter_cache ∙ rw (==-refl pid) refl
