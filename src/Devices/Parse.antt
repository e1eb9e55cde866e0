-- ===== src/Devices/Parse.antt =====
-- What the parameter modules make of a response (services/device_apis): the tests of its length and
-- the fields that they read. An empty response is too short for each of them.
use rdm_dmx_async.Base.{
  ℕ, Option, none, some, Result, leb, if◌then◌else◌, List, [], ◌∷◌, length, take, drop,
}
use rdm_dmx_async.Base.Words.{Bytes, from_bytes}
use rdm_dmx_async.Devices.Pids
use rdm_dmx_async.Devices.Pids.{value}
use rdm_dmx_async.Devices.Text.{Text, text_of, decode_ascii}
use rdm_dmx_async.Devices.Struct.{unpack, calcsize}
use rdm_dmx_async.Devices.Device.{
  DeviceState, Value, number, numbers, tuple, text, texts, described, clear_cache, Parameter,
  Setting, sending,
}

abbrev pub unchanged : Value → DeviceState → DeviceState
unchanged v s = s

-- `int.from_bytes(data[:width])`, where the response is that long; `data[0]` is the width 1.
unfoldable pub parse_number : ℕ → Bytes → Option Value
parse_number width bs =
    if leb width (length bs) then some (number (from_bytes (take width bs))) else none

unfoldable pub parse_tuple : List ℕ → Bytes → Option Value
parse_tuple widths bs =
    if leb (calcsize widths) (length bs) then some (tuple (unpack widths bs)) else none

unfoldable pub parse_text : Bytes → Option Value
parse_text bs = some (text (text_of bs))

-- The two-byte pieces of a response; an odd byte at the end is skipped.
unfoldable pub pieces : Bytes → List Bytes
pieces [] = []
pieces (a ∷ []) = []
pieces (a ∷ b ∷ bs) = (a ∷ b ∷ []) ∷ pieces bs

unfoldable pub words_of : List Bytes → List ℕ
words_of [] = []
words_of (bs ∷ rest) = from_bytes bs ∷ words_of rest

unfoldable pub codes_of : List Bytes → List Text
codes_of [] = []
codes_of (bs ∷ rest) = decode_ascii bs ∷ codes_of rest

-- `if response_data:`
unfoldable pub unless_empty : Bytes → Value → Option Value
unless_empty [] v = none
unless_empty (b ∷ bs) v = some v

unfoldable pub parse_words : Bytes → Option Value
unfolding unless_empty pieces words_of
parse_words bs = unless_empty bs (numbers (words_of (pieces bs)))

unfoldable pub parse_codes : Bytes → Option Value
unfolding unless_empty pieces codes_of
parse_codes bs = unless_empty bs (texts (codes_of (pieces bs)))

-- A key of that format, and the string after it; `shortest` is the test of the length.
unfoldable pub parse_described : ℕ → List ℕ → Bytes → Option Value
parse_described shortest widths bs =
    if leb shortest (length bs)
    then some (described (unpack widths bs) (text_of (drop (calcsize widths) bs)))
    else none

-- A cached method of one number, kept only in the cache.
abbrev pub number_parameter : ℕ → Pids.StandardPid → Parameter
number_parameter width pid = record {
  pid = pid;
  parse = parse_number width;
  note = unchanged;
  otherwise = none;
}

abbrev pub tuple_parameter : List ℕ → Pids.StandardPid → Parameter
tuple_parameter widths pid = record {
  pid = pid;
  parse = parse_tuple widths;
  note = unchanged;
  otherwise = none;
}

-- `get_string_parameter(pid)`
abbrev pub string_parameter : Pids.StandardPid → Parameter
string_parameter pid = record {
  pid = pid;
  parse = parse_text;
  note = unchanged;
  otherwise = some (text []);
}

-- A SET that forgets the cached value.
abbrev pub set_cleared : Pids.StandardPid → Result Bytes → Setting
set_cleared pid arguments = sending pid arguments (clear_cache (value pid))

-- A SET that leaves the cache.
abbrev pub set_only : Pids.StandardPid → Result Bytes → Setting
set_only pid arguments = sending pid arguments (λ d. d)
