-- ===== src/Examples/Devices.antt =====
-- A lamp that is read and written, over a responder that answers at once.
use rdm_dmx_async.Base.{
  ℕ, ◌≡◌, ◌+◌, refl, some, none, ok, Bool, length, true, false, not, ◌&&◌, [], ◌∷◌, contains, arith,
}
use rdm_dmx_async.Base.Words.{Bytes, to_bytes, from_bytes}
use rdm_dmx_async.Base.Table.{lookup}
use rdm_dmx_async.Packets.Types.{ack, get_command_response}
use rdm_dmx_async.Packets.Rdm.{RdmResponse}
use rdm_dmx_async.Transaction.Allocator.{Allocator}
use rdm_dmx_async.Transaction.Outcome.{TransactionResult}
use rdm_dmx_async.Transaction.Execute.{returned}
use rdm_dmx_async.Transaction.Manager.{RdmProtocol}
use rdm_dmx_async.Devices.Pids
use rdm_dmx_async.Devices.Pids.{value}
use rdm_dmx_async.Devices.Struct.{pack}
use rdm_dmx_async.Devices.Parse.{parse_number}
use rdm_dmx_async.Devices.Device.{
  TransactionManager, RdmDevice, DeviceState, number, data_of, response_data, success_of,
  execute_set, clear_cache, get_parameter, set_parameter, set_sent, set_ended,
}
use rdm_dmx_async.Devices.Device.Cache.{after_answer, get_parameter-get_parameter}
use rdm_dmx_async.Devices.Device.Kinds.{lamp_hours_method, parameter_of, kind_of, Returns}
use rdm_dmx_async.Devices.Device.Typed.{IsTyped}
use rdm_dmx_async.Devices.Device.Reached.{
  Writes, clearing, Reachable, begins, goes_on, reads, writes, get_parameter-Reachable,
}
use rdm_dmx_async.Devices.Written.{lamp_hours_written}
use rdm_dmx_async.Devices.Written.Reads.{set_parameter-get_parameter}
use rdm_dmx_async.Devices.Capabilities.{
  lamp, supports_api, api_support, check_capabilities, is_raw, supports_pid, values, api_pids,
}
use rdm_dmx_async.Devices.Capabilities.Details.{supports_api-details, api_support-split}
use rdm_dmx_async.Devices.Capabilities.Checked.{Answers, check_capabilities-Answers}
use rdm_dmx_async.Devices.Initialize.{initialize}
use rdm_dmx_async.Devices.Initialize.Unanswered.{IsInitialized, initialize-IsInitialized}
use rdm_dmx_async.Devices.Apis.LampControl.{get_hours, set_hours}
use rdm_dmx_async.Devices.Repository.{DeviceRepository, get_device, cleanup_stale_devices}
use rdm_dmx_async.Devices.Repository.Cleanup.{IsUnique, Cleaned, cleanup_stale_devices-Cleaned}
use rdm_dmx_async.Application.Collection.{DeviceCollectionManager}
use rdm_dmx_async.Application.Addresses.{set_all_dmx_addresses}
use rdm_dmx_async.Application.Addresses.Sequence.{IsSequence, set_all_dmx_addresses-IsSequence}

abbrev answer : Bytes → ℕ → RdmResponse
answer payload n = record {
  source_uid = 0x454E00000001;
  destination_uid = 0x454E00000002;
  transaction_number = n;
  response_type = ack;
  message_count = 0;
  sub_device = 0;
  command_class = get_command_response;
  pid = 0x0401;
  payload = payload;
  checksum_valid = true;
}

abbrev hours : Bytes
hours = 0 ∷ 0 ∷ 1 ∷ 44 ∷ []

abbrev result : Bool → TransactionResult
result success = record {
  success = success;
  attempts = [];
  final_response = some (answer hours 1);
  error_message = none;
  permanent_failure = false;
}

-- Its world counts the transactions, and is the clock.
abbrev lamp_of : Bool → TransactionManager ℕ
lamp_of success = record {
  get = λ uid pid arguments w. (w + 1, ok (result success));
  set = λ uid pid arguments w. (w + 1, ok (result success));
  now = λ w. w;
}

abbrev state : DeviceState
state = record {
  uid = 0x454E00000001;
  manufacturer = [];
  device_label = [];
  model = [];
  software_version = [];
  rdm_protocol_version = (1, 0);
  device_model_id = 0;
  product_category = 0;
  software_version_id = 0;
  dmx_footprint = 0;
  dmx_personality = 0;
  dmx_personality_count = 0;
  dmx_start_address = 1;
  sub_device_count = 0;
  sensor_count = 0;
  last_seen = none;
  is_responsive = false;
}

abbrev device : RdmDevice
device = record {
  device_uid = 0x454E00000001;
  state = state;
  cache_max_age = 30;
  parameter_cache = [];
  supported_pids = none;
  capabilities_checked = false;
}

get_parameter-get_parameter_example :
    (get_parameter (lamp_of true) get_hours true device 5
      ≡ (after_answer (lamp_of true) get_hours device 6 (number 300), 6, ok (some (number 300))))
    × (get_parameter
          (lamp_of true)
          get_hours
          true
          (after_answer (lamp_of true) get_hours device 6 (number 300))
          36
        ≡ (after_answer (lamp_of true) get_hours device 6 (number 300), 36, ok (some (number 300))))
unfolding lookup data_of response_data parse_number from_bytes
get_parameter-get_parameter_example =
    get_parameter-get_parameter (lamp_of true) get_hours device 5 6 36 (ok (result true)) hours
      (number 300) refl refl refl refl (omega arith)

set_parameter-get_parameter_example :
    get_parameter (lamp_of true) get_hours true (clear_cache 0x0401 device) 9 ≡ (
      after_answer (lamp_of true) get_hours (clear_cache 0x0401 device) 10 (number 300),
      10,
      ok (some (number 300)),
    )
unfolding set_hours pack to_bytes value set_parameter set_sent set_ended execute_set success_of
    data_of response_data
set_parameter-get_parameter_example =
    set_parameter-get_parameter (lamp_of true) hours device (clear_cache 0x0401 device) 5 6 9 10
      (ok (result true)) (lamp_hours_written 300) refl refl refl refl

-- The lamp after its hours were read into the cache, and then set to 300.
abbrev read_once : RdmDevice
read_once = (get_parameter (lamp_of true) (parameter_of lamp_hours_method) true device 5).0

abbrev written_once : RdmDevice
written_once = (set_parameter (lamp_of true) (set_hours 300) read_once 6).0

set_hours-Writes : Writes (set_hours 300)
unfolding set_hours
set_hours-Writes = clearing Pids.lamp_hours _

written_once-Reachable : Reachable (lamp_of true) written_once
written_once-Reachable =
    goes_on (goes_on (begins device refl) (reads lamp_hours_method true 5))
      (writes (set_hours 300) 6 set_hours-Writes)

get_parameter-Reachable_example :
    IsTyped written_once
    × Returns
        (kind_of Pids.lamp_hours)
        (get_parameter (lamp_of true) (parameter_of lamp_hours_method) true written_once 7).2
get_parameter-Reachable_example =
    get_parameter-Reachable (lamp_of true) written_once lamp_hours_method true 7
      written_once-Reachable

initialize-IsInitialized_example : IsInitialized (initialize (lamp_of false) true device 0)
initialize-IsInitialized_example =
    initialize-IsInitialized (lamp_of false) (λ uid pid arguments w. tt) true device 0

-- A device that was asked, and reported the lamp's hours only.
abbrev asked : RdmDevice
asked = record device { supported_pids = some (0x0401 ∷ []); capabilities_checked = true }

supports_api-details_example : supports_api (some lamp) asked ≡ (api_support lamp asked).supported
supports_api-details_example = supports_api-details lamp asked (λ done. (0x0401, [], refl))

api_support-split_example :
    (contains 0x0402 (api_support lamp asked).supported_pids
      ≡ (contains 0x0402 (values (api_pids lamp)) && supports_pid 0x0402 asked))
    × (contains 0x0402 (api_support lamp asked).missing_pids
        ≡ (contains 0x0402 (values (api_pids lamp)) && not (supports_pid 0x0402 asked)))
    × (length (api_support lamp asked).supported_pids + length (api_support lamp asked).missing_pids
        ≡ length (values (api_pids lamp)))
    × ((api_support lamp asked).coverage
        ≡ (length (api_support lamp asked).supported_pids, length (values (api_pids lamp))))
unfolding is_raw
api_support-split_example = api_support-split lamp asked 0x0402 0x0401 [] refl refl refl

check_capabilities-Answers_example : Answers (check_capabilities (lamp_of true) true asked 3)
check_capabilities-Answers_example =
    check_capabilities-Answers (lamp_of true) true asked 3 (λ done. (0x0401, [], refl))

-- The same lamp behind the transaction manager.
abbrev wire : RdmProtocol
wire = record {
  send_get_command = λ uid pid arguments i n a. (returned (some (answer hours n)), a);
  send_set_command = λ uid pid arguments i n a. (returned (some (answer hours n)), a);
  pause = λ i ms a. a;
}

abbrev numbers_free : Allocator
numbers_free = record { next_number = 255; in_use = 255 ∷ 1 ∷ [] }

-- A repository with a device that was last seen at 0, and one that was never seen.
abbrev seen : RdmDevice
seen = record device { state = record state { last_seen = some 0 } }

abbrev two_devices : DeviceRepository
two_devices = record { devices = (1, seen) ∷ (2, device) ∷ []; stale_timeout = 300000 }

two_devices-IsUnique : IsUnique two_devices.devices
unfolding lookup
two_devices-IsUnique = (refl, (refl, tt))

cleanup_stale_devices-Cleaned_example :
    Cleaned 300001 300000
      (get_device 1 two_devices)
      (get_device 1 (cleanup_stale_devices 300001 two_devices).0)
cleanup_stale_devices-Cleaned_example =
    cleanup_stale_devices-Cleaned 300001 1 two_devices two_devices-IsUnique

abbrev rig : DeviceCollectionManager
rig = record { devices = (1, device) ∷ (2, device) ∷ (3, device) ∷ [] }

set_all_dmx_addresses-IsSequence_example : IsSequence (lamp_of true) 11 100 0 rig.devices (
  (set_all_dmx_addresses (lamp_of true) 11 100 rig 0).0.devices,
  (set_all_dmx_addresses (lamp_of true) 11 100 rig 0).1,
  (set_all_dmx_addresses (lamp_of true) 11 100 rig 0).2,
)
set_all_dmx_addresses-IsSequence_example =
    set_all_dmx_addresses-IsSequence (lamp_of true) (λ uid pid arguments w. refl) 11 100 rig 0
      (omega arith) (omega arith, (omega arith, (omega arith, tt)))
