-- ===== src/Protocols/Manchester.antt =====
-- rdm_dmx_async/protocols/manchester_codec.py.
pub mod Frames
use Prim.Native.Nat.{bit_and}
use rdm_dmx_async.Base.{
  ℕ, zero, suc, ◌+◌, ◌-◌, Option, none, some, ltb, leb, ◌==◌, if◌then◌else◌, not, ◌||◌, length,
  take, drop, get_or, [], ◌∷◌,
}
use rdm_dmx_async.Base.Words.{Bytes}

abbrev pub max_preamble_bytes : ℕ
max_preamble_bytes = 7

abbrev pub manchester_data_len : ℕ
manchester_data_len = 16

-- The `while` loop: the preamble bytes at the front, at most `room` of them.
unfoldable pub preamble_length : ℕ → Bytes → ℕ
preamble_length zero buffer = 0
preamble_length (suc room) [] = 0
preamble_length (suc room) (b ∷ rest) = if b == 0xFE then suc (preamble_length room rest) else 0

-- The rest of `find_discovery_frame_length`, after the loop.
unfoldable pub frame_length_after : ℕ → Bytes → ℕ
frame_length_after preamble_len buffer =
    if preamble_len == 0
    then 0
    else if leb (length buffer) preamble_len
    then 0
    else if not (get_or buffer preamble_len 0 == 0xAA)
    then 0
    else if leb (preamble_len + 1 + manchester_data_len) (length buffer)
    then preamble_len + 1 + manchester_data_len
    else 0

unfoldable pub find_discovery_frame_length : Bytes → ℕ
unfolding preamble_length frame_length_after
find_discovery_frame_length buffer =
    frame_length_after (preamble_length max_preamble_bytes buffer) buffer

-- `for i in range(0, 16, 2): decoded.append(data[i] & data[i + 1])`
unfoldable pub decode_pairs : ℕ → Bytes → Bytes
decode_pairs (suc n) (a ∷ b ∷ rest) = bit_and a b ∷ decode_pairs n rest
decode_pairs _ _ = []

-- `ManchesterDiscoveryDecoder.decode`
unfoldable pub decode : Bytes → Option Bytes
decode bs =
    let frame_len = find_discovery_frame_length bs in
    if frame_len == 0 || not (frame_len == length bs)
    then none
    else let manchester_data = drop (frame_len - 1 - manchester_data_len + 1) bs in
      if ltb (length manchester_data) 16
      then none
      else let decoded = decode_pairs 8 manchester_data in
        if ltb (length decoded) 6 then none else some (take 6 decoded)
