-- ===== src/Packets/Types.antt =====
-- rdm_dmx_async/packets/types.py. An `IntEnum` is a data type with its wire value, and with the
-- lookup by value, which raises `ValueError` on any other number.
use rdm_dmx_async.Base.{
  ℕ, ◌≡◌, refl, ◌<◌, ◌==◌, ltb, if◌then◌else◌, Result, ok, err, value_error, overflow_error, length,
  arith, ◌^◌,
}
use rdm_dmx_async.Base.Words.{Bytes, to_bytes, from_bytes, from_bytes-to_bytes, length-to_bytes}

abbrev pub Uid : Type 0
Uid = ℕ

abbrev pub Pid : Type 0
Pid = ℕ

pub data CommandClass : Type 0 where
  discovery_command discovery_command_response get_command : CommandClass
  get_command_response set_command set_command_response : CommandClass

unfoldable pub command_class_value : CommandClass → ℕ
command_class_value discovery_command = 0x10
command_class_value discovery_command_response = 0x11
command_class_value get_command = 0x20
command_class_value get_command_response = 0x21
command_class_value set_command = 0x30
command_class_value set_command_response = 0x31

-- `CommandClass(v)`
unfoldable pub command_class_of : ℕ → Result CommandClass
command_class_of v =
    if v == 0x10
    then ok discovery_command
    else if v == 0x11
    then ok discovery_command_response
    else if v == 0x20
    then ok get_command
    else if v == 0x21
    then ok get_command_response
    else if v == 0x30
    then ok set_command
    else if v == 0x31
    then ok set_command_response
    else err value_error

pub data ResponseType : Type 0 where
  ack ack_timer nak ack_overflow : ResponseType

unfoldable pub response_type_value : ResponseType → ℕ
response_type_value ack = 0x00
response_type_value ack_timer = 0x01
response_type_value nak = 0x02
response_type_value ack_overflow = 0x03

-- `ResponseType(v)`
unfoldable pub response_type_of : ℕ → Result ResponseType
response_type_of v =
    if v == 0x00
    then ok ack
    else if v == 0x01
    then ok ack_timer
    else if v == 0x02
    then ok nak
    else if v == 0x03
    then ok ack_overflow
    else err value_error

pub data NakReason : Type 0 where
  unknown_pid format_error hardware_fault proxy_reject write_protect : NakReason
  unsupported_command_class data_out_of_range buffer_full : NakReason
  packet_size_unsupported sub_device_out_of_range proxy_buffer_full : NakReason

unfoldable pub nak_reason_value : NakReason → ℕ
nak_reason_value unknown_pid = 0x0000
nak_reason_value format_error = 0x0001
nak_reason_value hardware_fault = 0x0002
nak_reason_value proxy_reject = 0x0003
nak_reason_value write_protect = 0x0004
nak_reason_value unsupported_command_class = 0x0005
nak_reason_value data_out_of_range = 0x0006
nak_reason_value buffer_full = 0x0007
nak_reason_value packet_size_unsupported = 0x0008
nak_reason_value sub_device_out_of_range = 0x0009
nak_reason_value proxy_buffer_full = 0x000A

-- `NAKReason(v)`
unfoldable pub nak_reason_of : ℕ → Result NakReason
nak_reason_of v =
    if v == 0
    then ok unknown_pid
    else if v == 1
    then ok format_error
    else if v == 2
    then ok hardware_fault
    else if v == 3
    then ok proxy_reject
    else if v == 4
    then ok write_protect
    else if v == 5
    then ok unsupported_command_class
    else if v == 6
    then ok data_out_of_range
    else if v == 7
    then ok buffer_full
    else if v == 8
    then ok packet_size_unsupported
    else if v == 9
    then ok sub_device_out_of_range
    else if v == 10
    then ok proxy_buffer_full
    else err value_error

-- `StartCode.RDM`
abbrev pub start_code_rdm : ℕ
start_code_rdm = 0xCC

pub command_class_of-value : (c : CommandClass) → command_class_of (command_class_value c) ≡ ok c
unfolding command_class_of command_class_value
command_class_of-value discovery_command = refl
command_class_of-value _ = refl

pub response_type_of-value : (t : ResponseType) → response_type_of (response_type_value t) ≡ ok t
unfolding response_type_of response_type_value
response_type_of-value ack = refl
response_type_of-value _ = refl

pub nak_reason_of-value : (r : NakReason) → nak_reason_of (nak_reason_value r) ≡ ok r
unfolding nak_reason_of nak_reason_value
nak_reason_of-value unknown_pid = refl
nak_reason_of-value _ = refl

pub command_class_value-lt : (c : CommandClass) → command_class_value c < 256
unfolding command_class_value
command_class_value-lt discovery_command = omega arith
command_class_value-lt _ = omega arith

-- `uid_from_bytes`
unfoldable pub uid_from_bytes : Bytes → Result Uid
uid_from_bytes bs = if length bs == 6 then ok (from_bytes bs) else err value_error

-- `uid_to_bytes`: `to_bytes(6, ...)` raises `OverflowError` past 48 bits
unfoldable pub uid_to_bytes : Uid → Result Bytes
uid_to_bytes uid = if ltb uid (2 ^ 48) then ok (to_bytes 6 uid) else err overflow_error

pub uid_to_bytes_ok : (uid : Uid) → uid < 2 ^ 48 → uid_to_bytes uid ≡ ok (to_bytes 6 uid)
unfolding uid_to_bytes
uid_to_bytes_ok uid h = ground arith

pub uid_from_bytes-to_bytes : (uid : Uid) → uid < 2 ^ 48 → uid_from_bytes (to_bytes 6 uid) ≡ ok uid
unfolding uid_from_bytes
uid_from_bytes-to_bytes uid h =
    ground (arith, length-to_bytes 6 uid, from_bytes-to_bytes 6 uid (omega arith))
