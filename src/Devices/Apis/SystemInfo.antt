-- ===== src/Devices/Apis/SystemInfo.antt =====
-- services/device_apis/system_info.py
use rdm_dmx_async.Base.{
  ℕ, Option, none, some, ok, ltb, leb, ◌==◌, if◌then◌else◌, [], ◌∷◌, length, take, drop, get_or,
}
use rdm_dmx_async.Base.Words.{Bytes, from_bytes}
use rdm_dmx_async.Devices.Pids
use rdm_dmx_async.Devices.Pids.{value}
use rdm_dmx_async.Devices.Text.{Text, text_of, decode_ascii, encode_ascii}
use rdm_dmx_async.Devices.Struct.{pack, unpack}
use rdm_dmx_async.Devices.Device.{
  Value, text, described, messages, queued_message, Parameter, Query, Setting, refused,
}
use rdm_dmx_async.Devices.Parse.{
  unchanged, parse_tuple, parse_words, parse_codes, unless_empty, number_parameter, set_cleared,
  set_only,
}

abbrev pub get_supported_parameters : Parameter
get_supported_parameters = record {
  pid = Pids.supported_parameters;
  parse = parse_words;
  note = unchanged;
  otherwise = none;
}

-- The string ends at its first NUL, and a byte that is not ASCII is read as U+FFFD.
unfoldable pub until_nul : Bytes → Text
until_nul [] = []
until_nul (b ∷ bs) =
    let rest = until_nul bs in if b == 0 then [] else (if ltb b 0x80 then b else 0xFFFD) ∷ rest

-- The id, its sizes and types, without the reserved byte, and its range and default.
unfoldable pub parse_description : Bytes → Option Value
parse_description bs =
    if leb 20 (length bs)
    then some (
        described
          (from_bytes (take 2 bs)
            ∷ get_or bs 2 0
            ∷ get_or bs 3 0
            ∷ get_or bs 4 0
            ∷ get_or bs 6 0
            ∷ get_or bs 7 0
            ∷ unpack (4 ∷ 4 ∷ 4 ∷ []) (drop 8 bs))
          (until_nul (drop 20 bs)))
    else none

unfoldable pub get_parameter_description : ℕ → Query
get_parameter_description pid = record {
  pid = Pids.parameter_description;
  arguments = pack (2 ∷ []) (pid ∷ []);
  parse = parse_description;
  otherwise = none;
}

unfoldable pub get_queued_message : ℕ → Query
get_queued_message status_type = record {
  pid = Pids.queued_message;
  arguments = pack (1 ∷ []) (status_type ∷ []);
  parse = λ bs. unless_empty bs (queued_message status_type bs);
  otherwise = none;
}

unfoldable pub get_status_messages : ℕ → Query
get_status_messages status_type = record {
  pid = Pids.status_messages;
  arguments = pack (1 ∷ []) (status_type ∷ []);
  parse = λ bs.
      if leb 2 (length bs) then some (messages status_type (from_bytes (take 2 bs)) bs) else none;
  otherwise = none;
}

unfoldable pub status_text : Bytes → Option Value
status_text bs = if ltb 2 (length bs) then some (text (text_of (drop 2 bs))) else none

unfoldable pub get_status_id_description : ℕ → Query
get_status_id_description status_id = record {
  pid = Pids.status_id_description;
  arguments = pack (2 ∷ []) (status_id ∷ []);
  parse = status_text;
  otherwise = none;
}

unfoldable pub clear_status_id : ℕ → Setting
clear_status_id status_id = set_only Pids.clear_status_id (pack (2 ∷ []) (status_id ∷ []))

abbrev pub get_comms_status : Query
get_comms_status = record {
  pid = Pids.comms_status;
  arguments = ok [];
  parse = parse_tuple (2 ∷ 2 ∷ 2 ∷ []);
  otherwise = none;
}

abbrev pub clear_comms_status : Setting
clear_comms_status = set_only Pids.comms_status (ok [])

abbrev pub get_sub_device_status_report_threshold : Parameter
get_sub_device_status_report_threshold = number_parameter 1 Pids.sub_device_status_report_threshold

unfoldable pub set_sub_device_status_report_threshold : ℕ → Setting
set_sub_device_status_report_threshold status_type =
    set_cleared Pids.sub_device_status_report_threshold (pack (1 ∷ []) (status_type ∷ []))

abbrev pub get_language_capabilities : Parameter
get_language_capabilities = record {
  pid = Pids.language_capabilities;
  parse = parse_codes;
  note = unchanged;
  otherwise = none;
}

unfoldable pub language_code : Bytes → Option Value
language_code bs = if leb 2 (length bs) then some (text (decode_ascii (take 2 bs))) else none

abbrev pub get_language : Parameter
get_language = record {
  pid = Pids.language;
  parse = language_code;
  note = unchanged;
  otherwise = none;
}

unfoldable pub set_language : Text → Setting
set_language language =
    if length language == 2 then set_cleared Pids.language (encode_ascii language) else refused
