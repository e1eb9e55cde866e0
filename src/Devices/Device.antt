-- ===== src/Devices/Device.antt =====
-- The device and its parameter cache, and the three ways in which the parameter modules use them: a
-- cached GET, a GET with arguments, and a SET (rdm_dmx_async/services/rdm_device.py). The world is
-- what the transactions change and the clock reads.
pub mod Cache
pub mod Kinds
pub mod Typed
pub mod Reached
use rdm_dmx_async.Base.{
  ℕ, ◌+◌, ◌-◌, ◌%◌, ◌/◌, Option, none, some, Result, ok, err, Bool, true, false, ltb, if◌then◌else◌,
  List, [], ◌∷◌,
}
use rdm_dmx_async.Base.Words.{Bytes}
use rdm_dmx_async.Base.Table.{Table, lookup, insert, delete}
use rdm_dmx_async.Packets.Types.{Uid, Pid}
use rdm_dmx_async.Packets.Rdm.{RdmResponse}
use rdm_dmx_async.Transaction.Outcome.{TransactionResult}
use rdm_dmx_async.Devices.Pids.{StandardPid, value}
use rdm_dmx_async.Devices.Text.{Text}

-- The transaction manager as a device sees it, and `datetime.now()` in the unit of the cache's age.
pub record TransactionManager (W : Type 0) : Type 0 where
  pub get : Uid → Pid → Bytes → W → W × Result TransactionResult
  pub set : Uid → Pid → Bytes → W → W × Result TransactionResult
  pub now : W → ℕ

pub record DeviceState : Type 0 where
  pub uid : Uid
  pub manufacturer : Text
  pub device_label : Text
  pub model : Text
  pub software_version : Text
  pub rdm_protocol_version : ℕ × ℕ
  pub device_model_id : ℕ
  pub product_category : ℕ
  pub software_version_id : ℕ
  pub dmx_footprint : ℕ
  pub dmx_personality : ℕ
  pub dmx_personality_count : ℕ
  pub dmx_start_address : ℕ
  pub sub_device_count : ℕ
  pub sensor_count : ℕ
  pub last_seen : Option ℕ
  pub is_responsive : Bool

-- What the methods return, and what is cached of it: Python's values, with a dictionary as a
-- constructor that has its entries.
pub data Value : Type 0 where
  number : ℕ → Value
  numbers : List ℕ → Value
  tuple : List ℕ → Value
  text : Text → Value
  texts : List Text → Value
  payload : Bytes → Value
  device_count : ℕ → Bool → Value
  preset_status : (scene up_fade down_fade wait_time : ℕ) → Value
  described : (key : List ℕ) (description : Text) → Value
  queued_message : (status_type : ℕ) (entries : List ℕ) → Value
  messages : (status_type message_count : ℕ) (entries : List ℕ) → Value

pub record CachedParameter : Type 0 where
  pub cached_value : Value
  pub timestamp : ℕ

unfoldable pub is_expired : ℕ → ℕ → CachedParameter → Bool
is_expired now max_age c = ltb max_age (now - c.timestamp)

pub record RdmDevice : Type 0 where
  pub device_uid : Uid
  pub state : DeviceState
  pub cache_max_age : ℕ
  pub parameter_cache : Table CachedParameter
  pub supported_pids : Option (List Pid)
  pub capabilities_checked : Bool

-- A method's effect: the device and the world that it leaves, and what it returns or raises.
abbrev pub Ran : Type 0 → Type 0 → Type 0
Ran W A = RdmDevice × W × Result A

unfoldable pub found : ℕ → Pid → RdmDevice → Option CachedParameter → RdmDevice × Option Value
unfolding is_expired
found now pid d none = (d, none)
found now pid d (some c) =
    if is_expired now d.cache_max_age c
    then (record d { parameter_cache = delete pid d.parameter_cache }, none)
    else (d, some c.cached_value)

unfoldable pub cache_get : ℕ → Pid → RdmDevice → RdmDevice × Option Value
unfolding found
cache_get now pid d = found now pid d (lookup pid d.parameter_cache)

unfoldable pub cache_set : ℕ → Pid → Value → RdmDevice → RdmDevice
cache_set now pid v d = record d {
  parameter_cache = insert pid (record { cached_value = v; timestamp = now }) d.parameter_cache;
}

-- `clear_cache(pid)` and `clear_cache()`
unfoldable pub clear_cache : Pid → RdmDevice → RdmDevice
clear_cache pid d = record d { parameter_cache = delete pid d.parameter_cache }

unfoldable pub clear_all_cache : RdmDevice → RdmDevice
clear_all_cache d = record d { parameter_cache = [] }

unfoldable pub response_data : Option RdmResponse → Option Bytes
response_data none = none
response_data (some r) = some r.payload

-- `result.final_response.data`, if the transaction succeeded and has one.
unfoldable pub data_of : Result TransactionResult → Result (Option Bytes)
unfolding response_data
data_of (err e) = err e
data_of (ok result) = ok (if result.success then response_data result.final_response else none)

unfoldable pub success_of : Result TransactionResult → Result Bool
success_of (err e) = err e
success_of (ok result) = ok result.success

module _ {W : Type 0} (txn : TransactionManager W) where
  unfoldable pub execute_get : Pid → Bytes → RdmDevice → W → Ran W (Option Bytes)
  unfolding data_of
  execute_get pid arguments d w =
      let (after, result) = txn.get d.device_uid pid arguments w in (d, after, data_of result)

  unfoldable pub execute_set : Pid → Bytes → RdmDevice → W → Ran W Bool
  unfolding success_of
  execute_set pid arguments d w =
      let (after, result) = txn.set d.device_uid pid arguments w in (d, after, success_of result)

-- A method that reads a parameter through the cache: `parse` is what it makes of the response, with
-- `none` where it returns `otherwise`, and `note` is what it keeps in the device's state.
pub record Parameter : Type 0 where
  pub pid : StandardPid
  pub parse : Bytes → Option Value
  pub note : Value → DeviceState → DeviceState
  pub otherwise : Option Value

-- A method that reads a parameter that is not cached.
pub record Query : Type 0 where
  pub pid : StandardPid
  pub arguments : Result Bytes
  pub parse : Bytes → Option Value
  pub otherwise : Option Value

-- A method that writes a parameter: it refuses its arguments, or sends them, and `after` follows a
-- success.
pub data Setting : Type 0 where
  refused : Setting
  sending : (pid : StandardPid) (arguments : Result Bytes) (after : RdmDevice → RdmDevice) → Setting

unfoldable pub noted : Parameter → Value → RdmDevice → RdmDevice
noted p v d = record d { state = p.note v d.state }

unfoldable pub stored : Parameter → Bool → ℕ → Value → RdmDevice → RdmDevice
unfolding cache_set
stored p true now v d = cache_set now (value p.pid) v d
stored p false now v d = d

unfoldable pub or_else : Option Value → Option Value → Option Value
or_else none otherwise = otherwise
or_else (some v) otherwise = some v

module _ {W : Type 0} (txn : TransactionManager W) where
  unfoldable pub kept : Parameter → Bool → Option Value → RdmDevice → W → Ran W (Option Value)
  unfolding noted stored
  kept p use_cache none d w = (d, w, ok p.otherwise)
  kept p use_cache (some v) d w = (stored p use_cache (txn.now w) v (noted p v d), w, ok (some v))

  unfoldable pub received : Parameter → Bool → Ran W (Option Bytes) → Ran W (Option Value)
  unfolding kept
  received p use_cache (d, w, err e) = (d, w, err e)
  received p use_cache (d, w, ok none) = (d, w, ok p.otherwise)
  received p use_cache (d, w, ok (some bs)) = kept p use_cache (p.parse bs) d w

  unfoldable pub fetch : Parameter → Bool → RdmDevice → W → Ran W (Option Value)
  unfolding received execute_get
  fetch p use_cache d w = received p use_cache (execute_get txn (value p.pid) [] d w)

  unfoldable pub served : Parameter → RdmDevice × Option Value → W → Ran W (Option Value)
  unfolding fetch
  served p (d, some v) w = (d, w, ok (some v))
  served p (d, none) w = fetch p true d w

  -- The cached methods: `get_…(use_cache)`.
  unfoldable pub get_parameter : Parameter → Bool → RdmDevice → W → Ran W (Option Value)
  unfolding served cache_get
  get_parameter p true d w = served p (cache_get (txn.now w) (value p.pid) d) w
  get_parameter p false d w = fetch p false d w

  unfoldable pub answered : Query → Ran W (Option Bytes) → Ran W (Option Value)
  unfolding or_else
  answered q (d, w, err e) = (d, w, err e)
  answered q (d, w, ok none) = (d, w, ok q.otherwise)
  answered q (d, w, ok (some bs)) = (d, w, ok (or_else (q.parse bs) q.otherwise))

  unfoldable pub asked : Query → Result Bytes → RdmDevice → W → Ran W (Option Value)
  unfolding answered execute_get
  asked q (err e) d w = (d, w, err e)
  asked q (ok arguments) d w = answered q (execute_get txn (value q.pid) arguments d w)

  unfoldable pub query : Query → RdmDevice → W → Ran W (Option Value)
  unfolding asked
  query q d w = asked q q.arguments d w

  unfoldable pub set_ended : (RdmDevice → RdmDevice) → Ran W Bool → Ran W Bool
  set_ended after (d, w, err e) = (d, w, err e)
  set_ended after (d, w, ok true) = (after d, w, ok true)
  set_ended after (d, w, ok false) = (d, w, ok false)

  unfoldable pub set_sent :
      Pid → Result Bytes → (RdmDevice → RdmDevice) → RdmDevice → W → Ran W Bool
  unfolding set_ended execute_set
  set_sent pid (err e) after d w = (d, w, err e)
  set_sent pid (ok arguments) after d w = set_ended after (execute_set txn pid arguments d w)

  unfoldable pub set_parameter : Setting → RdmDevice → W → Ran W Bool
  unfolding set_sent
  set_parameter refused d w = (d, w, ok false)
  set_parameter (sending pid arguments after) d w = set_sent (value pid) arguments after d w
