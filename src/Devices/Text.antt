-- ===== src/Devices/Text.antt =====
-- `str` as the list of its code points, with the codecs and the `strip` of Python that the parameter
-- modules call.
pub mod RoundTrip
use rdm_dmx_async.Base.{
  ℕ, zero, suc, ◌+◌, ◌-◌, ◌*◌, ◌/◌, ◌%◌, ◌≤◌, ◌<◌, ◌≡◌, refl, sym, ap, ◌∙◌, Option, none, some,
  Result, ok, err, Error, value_error, ◌>>=◌, Bool, true, false, ◌&&◌, Bool-cases, inl, inr, ltb,
  leb, ◌==◌, ltb→lt, if◌then◌else◌, List, [], ◌∷◌, ◌++◌, length, arith,
}
use rdm_dmx_async.Base.Words.{Bytes}

abbrev pub Text : Type 0
Text = List ℕ

-- Between the bytes of one code point: how many are left, the bits so far, and the bounds of the
-- next byte.
pub data Utf8State : Type 0 where
  ready : Utf8State
  within : (left acc low high : ℕ) → Utf8State

unfoldable pub lead : ℕ → Option ℕ × Utf8State
lead b =
    if ltb b 0x80
    then (some b, ready)
    else if ltb b 0xC2
    then (none, ready)
    else if ltb b 0xE0
    then (none, within 1 (b - 0xC0) 0x80 0xBF)
    else if ltb b 0xF0
    then (
      none,
      within 2 (b - 0xE0) (if b == 0xE0 then 0xA0 else 0x80) (if b == 0xED then 0x9F else 0xBF),
    )
    else if ltb b 0xF5
    then (
      none,
      within 3 (b - 0xF0) (if b == 0xF0 then 0x90 else 0x80) (if b == 0xF4 then 0x8F else 0xBF),
    )
    else (none, ready)

unfoldable pub continued : ℕ → ℕ → Option ℕ × Utf8State
continued left acc =
    if left == 1 then (some acc, ready) else (none, within (left - 1) acc 0x80 0xBF)

unfoldable pub step : Utf8State → ℕ → Option ℕ × Utf8State
unfolding lead continued
step ready b = lead b
step (within left acc low high) b =
    if leb low b && leb b high then continued left (acc * 64 + (b - 0x80)) else lead b

unfoldable pub emit : Option ℕ → Text → Text
emit none rest = rest
emit (some c) rest = c ∷ rest

unfoldable pub decode_from : Utf8State → Bytes → Text
unfolding step emit
decode_from s [] = []
decode_from s (b ∷ bs) = emit (step s b).0 (decode_from (step s b).1 bs)

-- `bs.decode("utf-8", errors="ignore")`: an ill-formed sequence is skipped up to the byte that
-- makes it so.
unfoldable pub decode_utf8 : Bytes → Text
unfolding decode_from
decode_utf8 bs = decode_from ready bs

-- `UnicodeEncodeError`, for a surrogate, is a `ValueError`.
unfoldable pub encode_point : ℕ → Result Bytes
encode_point c =
    if ltb c 0x80
    then ok (c ∷ [])
    else if ltb c 0x800
    then ok ((0xC0 + c / 64) ∷ (0x80 + c % 64) ∷ [])
    else if leb 0xD800 c && leb c 0xDFFF
    then err value_error
    else if ltb c 0x10000
    then ok ((0xE0 + c / 4096) ∷ (0x80 + c / 64 % 64) ∷ (0x80 + c % 64) ∷ [])
    else if ltb c 0x110000
    then ok
        ((0xF0 + c / 262144) ∷ (0x80 + c / 4096 % 64) ∷ (0x80 + c / 64 % 64) ∷ (0x80 + c % 64) ∷ [])
    else err value_error

-- `text.encode("utf-8")`
unfoldable pub encode_utf8 : Text → Result Bytes
unfolding encode_point
encode_utf8 [] = ok []
encode_utf8 (c ∷ cs) =
    let rest = encode_utf8 cs in encode_point c >>= (λ front. rest >>= (λ tail. ok (front ++ tail)))

-- `bs.decode("ascii", errors="ignore")`
unfoldable pub decode_ascii : Bytes → Text
decode_ascii [] = []
decode_ascii (b ∷ bs) = let rest = decode_ascii bs in if ltb b 0x80 then b ∷ rest else rest

-- `text.encode("ascii")`
unfoldable pub encode_ascii : Text → Result Bytes
encode_ascii [] = ok []
encode_ascii (c ∷ cs) =
    let rest = encode_ascii cs in
    if ltb c 0x80 then rest >>= (λ tail. ok (c ∷ tail)) else err value_error

unfoldable pub lstrip : Text → Text
lstrip [] = []
lstrip (c ∷ cs) = let rest = lstrip cs in if c == 0 then rest else c ∷ cs

unfoldable pub keep_char : ℕ → Text → Text
keep_char c [] = if c == 0 then [] else c ∷ []
keep_char c (d ∷ rest) = c ∷ d ∷ rest

unfoldable pub rstrip : Text → Text
unfolding keep_char
rstrip [] = []
rstrip (c ∷ cs) = keep_char c (rstrip cs)

-- `text.strip("\x00")`
unfoldable pub strip : Text → Text
unfolding lstrip rstrip
strip t = rstrip (lstrip t)

-- The string of a response: `data.decode("utf-8", errors="ignore").strip("\x00")`.
unfoldable pub text_of : Bytes → Text
unfolding decode_utf8 strip
text_of bs = strip (decode_utf8 bs)
