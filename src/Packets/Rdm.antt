-- ===== src/Packets/Rdm.antt =====
-- rdm_dmx_async/packets/rdm.py.
use rdm_dmx_async.Base.{
  ℕ, ◌+◌, ◌*◌, ◌≡◌, ◌≤◌, Option, none, some, ltb, leb, ◌&&◌, if◌then◌else◌, Result, ok, err,
  value_error, raise_if, ◌>>◌, length, take, arith, Bool, true, false,
}
use rdm_dmx_async.Base.Words.{Bytes, from_bytes}
use rdm_dmx_async.Packets.Types.{
  Uid, Pid, CommandClass, ResponseType, ack, ack_timer, nak, NakReason, nak_reason_of,
}

pub record RdmRequest : Type 0 where
  pub destination_uid : Uid
  pub source_uid : Uid
  pub transaction_number : ℕ
  pub port_address : ℕ
  pub sub_device : ℕ
  pub command_class : CommandClass
  pub pid : Pid
  pub payload : Bytes

-- `__post_init__`: the request, or the `ValueError` of its construction
unfoldable pub post_init : RdmRequest → Result RdmRequest
post_init r = do
  raise_if (ltb 255 r.transaction_number) value_error
  raise_if (ltb 0x0FFF r.sub_device) value_error
  raise_if (ltb 231 (length r.payload)) value_error
  ok r

unfoldable pub message_length : RdmRequest → ℕ
message_length r = 24 + length r.payload

pub record RdmResponse : Type 0 where
  pub source_uid : Uid
  pub destination_uid : Uid
  pub transaction_number : ℕ
  pub response_type : ResponseType
  pub message_count : ℕ
  pub sub_device : ℕ
  pub command_class : CommandClass
  pub pid : Pid
  pub payload : Bytes
  pub checksum_valid : Bool

unfoldable pub type_is_ack : ResponseType → Bool
type_is_ack ack = true
type_is_ack _ = false

unfoldable pub type_is_nak : ResponseType → Bool
type_is_nak nak = true
type_is_nak _ = false

unfoldable pub type_is_ack_timer : ResponseType → Bool
type_is_ack_timer ack_timer = true
type_is_ack_timer _ = false

unfoldable pub is_ack : RdmResponse → Bool
unfolding type_is_ack
is_ack r = type_is_ack r.response_type

unfoldable pub is_nak : RdmResponse → Bool
unfolding type_is_nak
is_nak r = type_is_nak r.response_type

unfoldable pub is_ack_timer : RdmResponse → Bool
unfolding type_is_ack_timer
is_ack_timer r = type_is_ack_timer r.response_type

-- `try: return X except ValueError: return None`
unfoldable pub or_none : Result NakReason → Option NakReason
or_none (ok r) = some r
or_none (err e) = none

-- The property `nak_reason`: the code is the first two bytes, big-endian.
unfoldable pub nak_reason : RdmResponse → Option NakReason
unfolding is_nak or_none
nak_reason r =
    if is_nak r && leb 2 (length r.payload)
    then or_none (nak_reason_of (from_bytes (take 2 r.payload)))
    else none

-- The property `ack_timer_value`, in milliseconds.
unfoldable pub ack_timer_value : RdmResponse → Option ℕ
unfolding is_ack_timer
ack_timer_value r =
    if is_ack_timer r && leb 2 (length r.payload)
    then some (from_bytes (take 2 r.payload) * 100)
    else none

-- What construction guarantees of a request.
pub record IsConstructed (r : RdmRequest) : Type 0 where
  pub transaction_fits : r.transaction_number ≤ 255
  pub sub_device_fits : r.sub_device ≤ 0x0FFF
  pub payload_fits : length r.payload ≤ 231

pub post_init-IsConstructed : (r s : RdmRequest) → post_init r ≡ ok s → IsConstructed s
unfolding post_init
post_init-IsConstructed r s h = ground arith

pub post_init_ok : (r : RdmRequest) → IsConstructed r → post_init r ≡ ok r
unfolding post_init
post_init_ok r h = ground arith
