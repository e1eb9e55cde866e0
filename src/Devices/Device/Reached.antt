-- ===== src/Devices/Device/Reached.antt =====
-- The caches that a device can come to have (services/rdm_device.py, services/device_apis).
use rdm_dmx_async.Base.{
  ℕ, ◌≡◌, refl, sym, ap, ◌∙◌, none, some, Result, ok, err, Bool, true, false, leb, ltb, ◌&&◌,
  if◌then◌else◌, [], ◌∷◌,
}
use rdm_dmx_async.Devices.Struct.{pack}
use rdm_dmx_async.Base.Words.{Bytes}
use rdm_dmx_async.Base.Table.{lookup}
use rdm_dmx_async.Packets.Types.{Pid}
use rdm_dmx_async.Devices.Pids
use rdm_dmx_async.Devices.Pids.{StandardPid, value}
use rdm_dmx_async.Devices.Text.{Text}
use rdm_dmx_async.Devices.Device.{
  TransactionManager, RdmDevice, CachedParameter, clear_cache, clear_all_cache, Setting,
  get_parameter, execute_set, set_ended, set_sent, set_parameter,
}
use rdm_dmx_async.Devices.Device.Kinds.{Method, parameter_of, kind_of, Returns}
use rdm_dmx_async.Devices.Device.Typed.{IsTyped, delete-IsTyped, get_parameter-IsTyped}
use rdm_dmx_async.Devices.Parse.{set_cleared, set_only}
use rdm_dmx_async.Devices.Apis.DeviceLabel
use rdm_dmx_async.Devices.Apis.DeviceControl
use rdm_dmx_async.Devices.Apis.DmxConfig

-- The SET methods: most forget the cached value of their parameter, or leave the cache.
pub data Writes : Setting → Type 0 where
  clearing : (pid : StandardPid) (arguments : Result Bytes) → Writes (set_cleared pid arguments)
  keeping : (pid : StandardPid) (arguments : Result Bytes) → Writes (set_only pid arguments)
  label : (name : Text) → Writes (DeviceLabel.set name)
  start_address : (address : ℕ) → Writes (DmxConfig.set_start_address address)
  personality : (number : ℕ) → Writes (DmxConfig.set_personality number)
  reset : (warm_reset : Bool) → Writes (DeviceControl.reset warm_reset)
  factory_defaults : Writes DeviceControl.factory_defaults

-- What changes a device: a cached method, a SET, an explicit clearing of the cache, or a change of
-- what is not the cache.
pub data Step {W : Type 0} (txn : TransactionManager W) (d : RdmDevice) : RdmDevice → Type 0 where
  reads :
      (m : Method) (use_cache : Bool) (w : W)
      → Step txn d (get_parameter txn (parameter_of m) use_cache d w).0
  writes : (s : Setting) (w : W) → Writes s → Step txn d (set_parameter txn s d w).0
  clears : (pid : Pid) → Step txn d (clear_cache pid d)
  clears_all : Step txn d (clear_all_cache d)
  notes : (e : RdmDevice) → e.parameter_cache ≡ d.parameter_cache → Step txn d e

-- The devices that steps lead to from one with an empty cache.
pub data Reachable {W : Type 0} (txn : TransactionManager W) : RdmDevice → Type 0 where
  begins : (d : RdmDevice) → d.parameter_cache ≡ [] → Reachable txn d
  goes_on : {d e : RdmDevice} → Reachable txn d → Step txn d e → Reachable txn e

absent_entry : {c : CachedParameter} → none ≡ some c → ⊥
absent_entry h = cc

empty-IsTyped : (d : RdmDevice) → d.parameter_cache ≡ [] → IsTyped d
empty-IsTyped d empty q c h =
    absurd (absent_entry (sym nothing ∙ ap (lookup (value q)) (sym empty) ∙ h))
  where
    nothing : lookup {V = CachedParameter} (value q) [] ≡ none
    nothing = unfold lookup in refl

same-IsTyped : (d e : RdmDevice) → e.parameter_cache ≡ d.parameter_cache → IsTyped d → IsTyped e
same-IsTyped d e same typed q c h = typed q c (ap (lookup (value q)) (sym same) ∙ h)

clear_cache-IsTyped : (pid : Pid) (d : RdmDevice) → IsTyped d → IsTyped (clear_cache pid d)
unfolding clear_cache
clear_cache-IsTyped pid d typed = delete-IsTyped pid d typed

clear_all_cache-IsTyped : (d : RdmDevice) → IsTyped (clear_all_cache d)
unfolding clear_all_cache
clear_all_cache-IsTyped d = empty-IsTyped (record d { parameter_cache = [] }) refl

-- What a SET does after its answer keeps the types.
abbrev Settles : Setting → Type 0
Settles Setting.refused = Unit
Settles (Setting.sending pid arguments after) = (d : RdmDevice) → IsTyped d → IsTyped (after d)

guarded-Settles :
    (b : Bool) (s : Setting)
    → Settles s
    → Settles (if b then s else Setting.refused) × Settles (if b then Setting.refused else s)
guarded-Settles true s settles = (settles, tt)
guarded-Settles false s settles = (tt, settles)

Writes-Settles : {s : Setting} → Writes s → Settles s
unfolding DeviceLabel.set DmxConfig.set_start_address DmxConfig.set_personality DeviceControl.reset
Writes-Settles (clearing pid arguments) = clear_cache-IsTyped (value pid)
Writes-Settles (keeping pid arguments) = λ d typed. typed
Writes-Settles (label name) = λ d typed. clear_cache-IsTyped (value Pids.device_label) _ typed
Writes-Settles (start_address address) =
    (guarded-Settles (leb 1 address && leb address 512)
      (Setting.sending Pids.dmx_start_address (pack (2 ∷ []) (address ∷ []))
        (DmxConfig.address_set address))
      (λ d typed. clear_cache-IsTyped (value Pids.dmx_start_address) _ typed)).0
Writes-Settles (personality number) =
    (guarded-Settles (ltb number 1)
      (Setting.sending Pids.dmx_personality (pack (1 ∷ []) (number ∷ []))
        (DmxConfig.personality_set number))
      (λ d typed.
        clear_cache-IsTyped (value Pids.device_info) _
          (clear_cache-IsTyped (value Pids.dmx_personality) _ typed))).1
Writes-Settles (reset warm_reset) = λ d typed. clear_all_cache-IsTyped d
Writes-Settles factory_defaults = λ d typed. clear_all_cache-IsTyped d

module _ {W : Type 0} (txn : TransactionManager W) where
  set_ended-IsTyped :
      (after : RdmDevice → RdmDevice) (d : RdmDevice) (v : W) (r : Result Bool)
      → ((e : RdmDevice) → IsTyped e → IsTyped (after e))
      → IsTyped d
      → IsTyped (set_ended txn after (d, v, r)).0
  unfolding set_ended
  set_ended-IsTyped after d v (err e) settles typed = typed
  set_ended-IsTyped after d v (ok true) settles typed = settles d typed
  set_ended-IsTyped after d v (ok false) settles typed = typed

  set_parameter-IsTyped :
      (s : Setting) (d : RdmDevice) (w : W)
      → Settles s
      → IsTyped d
      → IsTyped (set_parameter txn s d w).0
  unfolding set_parameter set_sent execute_set
  set_parameter-IsTyped Setting.refused d w settles typed = typed
  set_parameter-IsTyped (Setting.sending pid (err e) after) d w settles typed = typed
  set_parameter-IsTyped (Setting.sending pid (ok bs) after) d w settles typed =
      set_ended-IsTyped after d _ _ settles typed

  Step-IsTyped : {d e : RdmDevice} → Step txn d e → IsTyped d → IsTyped e
  Step-IsTyped {d} (reads m use_cache w) typed = (get_parameter-IsTyped txn m use_cache d w typed).0
  Step-IsTyped {d} (writes s w written) typed =
      set_parameter-IsTyped s d w (Writes-Settles written) typed
  Step-IsTyped {d} (clears pid) typed = clear_cache-IsTyped pid d typed
  Step-IsTyped {d} clears_all typed = clear_all_cache-IsTyped d
  Step-IsTyped {d} (notes e same) typed = same-IsTyped d e same typed

  Reachable-IsTyped : {d : RdmDevice} → Reachable txn d → IsTyped d
  Reachable-IsTyped (begins d empty) = empty-IsTyped d empty
  Reachable-IsTyped (goes_on before step) = Step-IsTyped step (Reachable-IsTyped before)

  -- In every device that reads, writes, clearings of the cache and changes outside the cache lead to
  -- from one with an empty cache, each entry of the cache has the type of its parameter, and each
  -- cached method, with the cache or without, returns a value of its own type, or no value, or it
  -- raises.
  pub get_parameter-Reachable :
      (d : RdmDevice) (m : Method) (use_cache : Bool) (w : W)
      → Reachable txn d
      → IsTyped d
        × Returns
            (kind_of (parameter_of m).pid)
            (get_parameter txn (parameter_of m) use_cache d w).2
  get_parameter-Reachable d m use_cache w reached =
      let typed = Reachable-IsTyped reached in
      (typed, (get_parameter-IsTyped txn m use_cache d w typed).1)
