-- ===== src/Devices/Written/Reads.antt =====
-- What is read after a successful SET (services/rdm_device.py).
use rdm_dmx_async.Base.{◌≡◌, sym, ap, ◌∙◌, none, some, Result, ok, err, Bool, true, false, []}
use rdm_dmx_async.Base.Words.{Bytes}
use rdm_dmx_async.Base.Table.{lookup}
use rdm_dmx_async.Transaction.Outcome.{TransactionResult}
use rdm_dmx_async.Devices.Pids.{value}
use rdm_dmx_async.Devices.Device.{
  TransactionManager, RdmDevice, Value, data_of, Parameter, Ran, get_parameter, Setting, refused,
  sending, set_sent, set_parameter, set_ended, execute_set,
}
use rdm_dmx_async.Devices.Device.Cache.{get_parameter_empty, fetch_answered, after_answer}
use rdm_dmx_async.Devices.Written.{
  Written, Sends, after_of, Written-Stored, Stored-parse, Stored-cleared,
}

module _ {W : Type 0} (txn : TransactionManager W) where
  set_ended-after :
      (after : RdmDevice → RdmDevice) (x : Ran W Bool) (d : RdmDevice) (w : W)
      → set_ended txn after x ≡ (d, w, ok true)
      → d ≡ after x.0
  unfolding set_ended
  set_ended-after after (e, u, err fault) d w h = absurd (err_ok (ap (λ (y : Ran W Bool). y.2) h))
    where
      err_ok : err fault ≡ ok true → ⊥
      err_ok k = cc
  set_ended-after after (e, u, ok true) d w h = sym (ap (λ (y : Ran W Bool). y.0) h)
  set_ended-after after (e, u, ok false) d w h =
      absurd (false_true (ap (λ (y : Ran W Bool). y.2) h))
    where
      false_true : ok false ≡ ok true → ⊥
      false_true k = cc

  -- The device after a successful SET.
  set_parameter-after :
      (s : Setting) (d e : RdmDevice) (w u : W)
      → set_parameter txn s d w ≡ (e, u, ok true)
      → e ≡ after_of s d
  unfolding set_parameter
  set_parameter-after refused d e w u h = absurd (false_true (ap (λ (y : Ran W Bool). y.2) h))
    where
      false_true : ok false ≡ ok true → ⊥
      false_true k = cc
  set_parameter-after (sending pid arguments after) d e w u h = by_arguments arguments h
    where
      by_arguments :
          (o : Result Bytes) → set_sent txn (value pid) o after d w ≡ (e, u, ok true) → e ≡ after d
      by_arguments (err fault) k =
          absurd (err_ok (ap (λ (y : Ran W Bool). y.2) (unfold set_sent in k)))
        where
          err_ok : err fault ≡ ok true → ⊥
          err_ok j = cc
      by_arguments (ok bs) k =
          unfold execute_set in
          set_ended-after after (execute_set txn (value pid) bs d w) e u (unfold set_sent in k)

  -- For each of the 21 pairs of a SET and a GET method that `Written` lists: after a SET that sent a
  -- payload and answered True, the GET asks the device and not the cache, and where the device
  -- answers with the payload that was sent, the GET returns and caches the value of the pair. That is
  -- the value that was written, except for the device label, which is a pair where it has at most 32
  -- encoded bytes, and which is read without the NULs at its ends.
  pub set_parameter-get_parameter :
      {s : Setting} {p : Parameter} {v : Value} (bs : Bytes) (d e : RdmDevice) (w u later after : W)
      (result : Result TransactionResult)
      → Written s p v
      → Sends s bs
      → set_parameter txn s d w ≡ (e, u, ok true)
      → txn.get e.device_uid (value p.pid) [] later ≡ (after, result)
      → data_of result ≡ ok (some bs)
      → get_parameter txn p true e later ≡ (after_answer txn p e after v, after, ok (some v))
  set_parameter-get_parameter {s} {p} {v} bs d e w u later after result written sends done got
        found_data =
      let kind = Written-Stored written in
      let forgotten : lookup (value p.pid) e.parameter_cache ≡ none =
        ap (λ (x : RdmDevice). lookup (value p.pid) x.parameter_cache)
          (set_parameter-after s d e w u done)
        ∙ Stored-cleared d kind in
      get_parameter_empty txn p e later forgotten
      ∙ fetch_answered txn p e later after result bs v got found_data (Stored-parse bs kind sends)
