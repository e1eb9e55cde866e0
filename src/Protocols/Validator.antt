-- ===== src/Protocols/Validator.antt =====
-- rdm_dmx_async/protocols/rdm_validator.py. A validation is `none` where the source returns
-- `(True, None)`, and otherwise names the error message that comes with `False`.
pub mod Accepts
use rdm_dmx_async.Base.{
  ℕ, ◌+◌, ◌/◌, ◌^◌, Option, none, some, ltb, leb, ◌==◌, if◌then◌else◌, not, ◌&&◌, length, Bool,
  true, false, List, [], ◌∷◌,
}
use rdm_dmx_async.Packets.Types.{
  Uid, Pid, CommandClass, discovery_command, discovery_command_response, get_command,
  get_command_response, set_command, set_command_response, ResponseType,
}
use rdm_dmx_async.Packets.Rdm.{RdmRequest, RdmResponse}

pub data Fault : Type 0 where
  invalid_destination_uid invalid_source_uid invalid_sub_device invalid_command_class : Fault
  data_too_long invalid_pid broadcast_get invalid_message_count bad_checksum : Fault
  transaction_mismatch source_mismatch destination_mismatch pid_mismatch class_mismatch : Fault

abbrev pub max_pdl : ℕ
max_pdl = 231

abbrev pub max_sub_device : ℕ
max_sub_device = 0x0FFF

abbrev pub broadcast_uid : Uid
broadcast_uid = 0xFFFFFFFFFFFF

abbrev pub broadcast_sub_device : ℕ
broadcast_sub_device = 0xFFFF

abbrev pub queued_message : Pid
queued_message = 0x0020

-- `_is_valid_uid`: 48 bits, and a manufacturer other than 0 unless it is the broadcast UID. The
-- test for a negative value has no counterpart, since a UID is a natural number here.
unfoldable pub is_valid_uid : Uid → Bool
is_valid_uid uid =
    if ltb 0xFFFFFFFFFFFF uid
    then false
    else if not (uid == 0xFFFFFFFFFFFF) && uid / 2 ^ 32 == 0
    then false
    else true

unfoldable pub is_valid_pid : Pid → Bool
is_valid_pid pid = leb pid 0xFFFF

unfoldable pub is_request_class : CommandClass → Bool
is_request_class get_command = true
is_request_class set_command = true
is_request_class discovery_command = true
is_request_class _ = false

unfoldable pub is_get_command : CommandClass → Bool
is_get_command get_command = true
is_get_command _ = false

-- Guards with early return, in the order of the source: the first whose test holds.
unfoldable pub first_fault : List (Bool × Fault) → Option Fault
first_fault [] = none
first_fault ((fails, fault) ∷ rest) = if fails then some fault else first_fault rest

abbrev pub request_checks : RdmRequest → List (Bool × Fault)
request_checks r =
    (not (is_valid_uid r.destination_uid), invalid_destination_uid)
    ∷ (not (is_valid_uid r.source_uid), invalid_source_uid)
    ∷ (
      ltb max_sub_device r.sub_device && not (r.sub_device == broadcast_sub_device),
      invalid_sub_device,
    )
    ∷ (not (is_request_class r.command_class), invalid_command_class)
    ∷ (ltb max_pdl (length r.payload), data_too_long)
    ∷ (not (is_valid_pid r.pid), invalid_pid)
    ∷ (r.destination_uid == broadcast_uid && is_get_command r.command_class, broadcast_get)
    ∷ []

unfoldable pub validate_request : RdmRequest → Option Fault
validate_request r = first_fault (request_checks r)

-- The test of the response type has no counterpart: a `ResponseType` is one of the four.
abbrev pub response_checks : Bool → RdmResponse → List (Bool × Fault)
response_checks strict_mode r =
    (not (is_valid_uid r.source_uid), invalid_source_uid)
    ∷ (not (is_valid_uid r.destination_uid), invalid_destination_uid)
    ∷ (
      ltb max_sub_device r.sub_device && not (r.sub_device == broadcast_sub_device),
      invalid_sub_device,
    )
    ∷ (ltb max_pdl (length r.payload), data_too_long)
    ∷ (ltb 255 r.message_count, invalid_message_count)
    ∷ (strict_mode && not r.checksum_valid, bad_checksum)
    ∷ []

unfoldable pub validate_response : Bool → RdmResponse → Option Fault
validate_response strict_mode r = first_fault (response_checks strict_mode r)

-- `_EXPECTED_RESPONSE_COMMAND_CLASS.get`
unfoldable pub expected_response_class : CommandClass → Option CommandClass
expected_response_class discovery_command = some discovery_command_response
expected_response_class get_command = some get_command_response
expected_response_class set_command = some set_command_response
expected_response_class _ = none

unfoldable pub same_class : CommandClass → CommandClass → Bool
same_class discovery_command discovery_command = true
same_class discovery_command_response discovery_command_response = true
same_class get_command get_command = true
same_class get_command_response get_command_response = true
same_class set_command set_command = true
same_class set_command_response set_command_response = true
same_class _ _ = false

unfoldable pub is_class : Option CommandClass → CommandClass → Bool
unfolding same_class
is_class none c = false
is_class (some d) c = same_class c d

abbrev pub match_checks : RdmRequest → RdmResponse → List (Bool × Fault)
match_checks q r =
    (not (q.transaction_number == r.transaction_number), transaction_mismatch)
    ∷ (not (r.source_uid == q.destination_uid), source_mismatch)
    ∷ (not (r.destination_uid == q.source_uid), destination_mismatch)
    ∷ (not (q.pid == r.pid) && not (r.pid == queued_message), pid_mismatch)
    ∷ (not (is_class (expected_response_class q.command_class) r.command_class), class_mismatch)
    ∷ []

unfoldable pub validate_request_response_match : RdmRequest → RdmResponse → Option Fault
validate_request_response_match q r = first_fault (match_checks q r)
