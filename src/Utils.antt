-- ===== src/Utils.antt =====
-- rdm_dmx_async/utils.py: the controller UID from the widget's serial number. What a query returns
-- is a parameter; sleeping and logging are left out.
pub mod SerialUid
use rdm_dmx_async.Base.{
  ℕ, zero, suc, ◌+◌, ◌*◌, ◌^◌, ◌≡◌, ◌<◌, ◌≤◌, refl, Option, none, some, Result, ok, err, Bool, true,
  false, ◌==◌, if◌then◌else◌, length, [], ◌∷◌, List, arith,
}
use mathlib.Core.List.{reverse}
use rdm_dmx_async.Base.Words.{Bytes, IsBytes, from_bytes}
use rdm_dmx_async.Packets.Types.{Uid, uid_from_bytes}
use rdm_dmx_async.Transport.Enttec.{parse_widget_serial_response}

-- What one open-write-read-close cycle gives: an exception, or the bytes read (maybe none).
pub data Reply : Type 0 where
  failed : Reply
  read : Bytes → Reply

abbrev pub widget_query_attempts : ℕ
widget_query_attempts = 4

-- The UID of a serial number: the manufacturer ID 0x454E, and the four bytes reversed.
unfoldable pub uid_of_serial : Bytes → Result Uid
uid_of_serial serial_bytes = uid_from_bytes (0x45 ∷ 0x4E ∷ reverse serial_bytes)

-- `serial_bytes and len(serial_bytes) == 4`, and then the UID
unfoldable pub serial_uid : Option Bytes → Option (Result Uid)
serial_uid none = none
serial_uid (some bs) = if length bs == 4 then some (uid_of_serial bs) else none

-- `except Exception` turns an error into the next attempt.
unfoldable pub keep_uid : Option (Result Uid) → Option Uid
keep_uid none = none
keep_uid (some (ok uid)) = some uid
keep_uid (some (err e)) = none

-- What one attempt comes to: `none` is another round of the loop.
unfoldable pub attempt_uid : Reply → Option Uid
attempt_uid failed = none
attempt_uid (read []) = none
attempt_uid (read (b ∷ bs)) = keep_uid (serial_uid (parse_widget_serial_response (b ∷ bs)))

-- `return uid`, or the later attempts
unfoldable pub or_later : Option Uid → Option Uid → Option Uid
or_later (some uid) later = some uid
or_later none later = later

-- The loop, at `left` attempts to go; `reply` numbers the queries.
unfoldable pub try_serial_uid : (ℕ → Reply) → ℕ → ℕ → Option Uid
try_serial_uid reply zero attempt = none
try_serial_uid reply (suc left) attempt =
    let later = try_serial_uid reply left (suc attempt) in
    or_later (attempt_uid (reply attempt)) later

unfoldable pub get_enttec_serial_uid : (ℕ → Reply) → Option Uid
unfolding try_serial_uid
get_enttec_serial_uid reply = try_serial_uid reply widget_query_attempts 1
