-- ===== src/Devices/Text/RoundTrip.antt =====
-- Reading and writing UTF-8 text (`bytes.decode` and `str.encode` of Python).
use rdm_dmx_async.Base.{
  ok-injective, ℕ, suc, ◌+◌, ◌-◌, ◌*◌, ◌/◌, ◌%◌, ◌≤◌, ◌<◌, ◌≡◌, refl, ap, ◌∙◌, Option, none, some,
  Result, ok, err, value_error, ◌>>=◌, false, ◌&&◌, Bool-cases, inl, inr, ltb, leb, ◌==◌, ltb→lt,
  if◌then◌else◌, [], ◌∷◌, ◌++◌, length, arith, le→leb,
}
use rdm_dmx_async.Base.Words.{Bytes}
use rdm_dmx_async.Devices.Struct.{joined_tail}
use rdm_dmx_async.Devices.Text.{
  Text, Utf8State, ready, within, lead, continued, step, emit, decode_from, decode_utf8,
  encode_point, encode_utf8, strip, text_of, decode_ascii, encode_ascii,
}

step-within :
    (left acc low high b : ℕ)
    → low ≤ b
    → b ≤ high
    → step (within left acc low high) b ≡ continued left (acc * 64 + (b - 0x80))
unfolding step
step-within left acc low high b above below = rw (le→leb low b above, le→leb b high below) refl

continued_next :
    (left acc : ℕ) → continued (suc (suc left)) acc ≡ (none, within (suc left) acc 0x80 0xBF)
unfolding continued
continued_next left acc =
    let more : (suc (suc left) == 1) ≡ false = ground arith in
    let one : suc (suc left) - 1 ≡ suc left = omega arith in rw (more, one) refl

payload_bits : (acc d : ℕ) → acc * 64 + (0x80 + d - 0x80) ≡ acc * 64 + d
payload_bits acc d = omega arith

-- The next byte of a code point, and the last.
decode_next :
    (left acc low high d : ℕ) (bs : Bytes)
    → low ≤ 0x80 + d
    → 0x80 + d ≤ high
    → decode_from (within (suc (suc left)) acc low high) ((0x80 + d) ∷ bs)
      ≡ decode_from (within (suc left) (acc * 64 + d) 0x80 0xBF) bs
unfolding decode_from emit
decode_next left acc low high d bs above below =
    rw
      (
        step-within (suc (suc left)) acc low high (0x80 + d) above below,
        continued_next left (acc * 64 + (0x80 + d - 0x80)),
        payload_bits acc d,
      )
      refl

decode_last :
    (acc low high d : ℕ) (bs : Bytes)
    → low ≤ 0x80 + d
    → 0x80 + d ≤ high
    → decode_from (within 1 acc low high) ((0x80 + d) ∷ bs) ≡ (acc * 64 + d) ∷ decode_from ready bs
unfolding decode_from emit continued
decode_last acc low high d bs above below =
    rw (step-within 1 acc low high (0x80 + d) above below, payload_bits acc d) refl

decode_lead :
    (b : ℕ) (bs : Bytes) (o : Option ℕ) (s : Utf8State)
    → lead b ≡ (o, s)
    → decode_from ready (b ∷ bs) ≡ emit o (decode_from s bs)
unfolding decode_from step
decode_lead b bs o s e = rw e refl

lead_one : (b : ℕ) → b < 0x80 → lead b ≡ (some b, ready)
unfolding lead
lead_one b small = ground arith

lead_two : (d : ℕ) → 2 ≤ d → d < 32 → lead (0xC0 + d) ≡ (none, within 1 d 0x80 0xBF)
unfolding lead
lead_two d low high = ground arith

lead_three :
    (d : ℕ)
    → d < 16
    → lead (0xE0 + d)
      ≡ (none, within 2 d (if d == 0 then 0xA0 else 0x80) (if d == 13 then 0x9F else 0xBF))
unfolding lead
lead_three d high = ground arith

lead_four :
    (d : ℕ)
    → d < 5
    → lead (0xF0 + d)
      ≡ (none, within 3 d (if d == 0 then 0x90 else 0x80) (if d == 4 then 0x8F else 0xBF))
unfolding lead
lead_four d high = ground arith

decode_one : (c : ℕ) (bs : Bytes) → c < 0x80 → decode_from ready (c ∷ bs) ≡ c ∷ decode_from ready bs
unfolding emit
decode_one c bs small = decode_lead c bs (some c) ready (lead_one c small)

decode_two :
    (c : ℕ) (bs : Bytes)
    → 0x80 ≤ c
    → c < 0x800
    → decode_from ready ((0xC0 + c / 64) ∷ (0x80 + c % 64) ∷ bs) ≡ c ∷ decode_from ready bs
unfolding emit
decode_two c bs low high =
    decode_lead (0xC0 + c / 64) _ none _ (lead_two (c / 64) (omega arith) (omega arith))
    ∙ decode_last (c / 64) 0x80 0xBF (c % 64) bs (omega arith) (omega arith)
    ∙ ap (λ (v : ℕ). v ∷ decode_from ready bs) (omega arith)

three_bits : (c : ℕ) → ((c / 4096) * 64 + c / 64 % 64) * 64 + c % 64 ≡ c
three_bits c = omega arith

decode_three :
    (c : ℕ) (bs : Bytes)
    → 0x800 ≤ c
    → c < 0x10000
    → (leb 0xD800 c && leb c 0xDFFF) ≡ false
    → decode_from ready ((0xE0 + c / 4096) ∷ (0x80 + c / 64 % 64) ∷ (0x80 + c % 64) ∷ bs)
      ≡ c ∷ decode_from ready bs
unfolding emit
decode_three c bs low high scalar =
    decode_lead (0xE0 + c / 4096) _ none _ (lead_three (c / 4096) (omega arith))
    ∙ decode_next 0 (c / 4096) _ _ (c / 64 % 64) _ (ground arith) (ground arith)
    ∙ decode_last ((c / 4096) * 64 + c / 64 % 64) 0x80 0xBF (c % 64) bs (omega arith) (omega arith)
    ∙ ap (λ (v : ℕ). v ∷ decode_from ready bs) (three_bits c)

four_bits : (c : ℕ) → (((c / 262144) * 64 + c / 4096 % 64) * 64 + c / 64 % 64) * 64 + c % 64 ≡ c
four_bits c = omega arith

decode_four :
    (c : ℕ) (bs : Bytes)
    → 0x10000 ≤ c
    → c < 0x110000
    → decode_from ready
        ((0xF0 + c / 262144) ∷ (0x80 + c / 4096 % 64) ∷ (0x80 + c / 64 % 64) ∷ (0x80 + c % 64) ∷ bs)
      ≡ c ∷ decode_from ready bs
unfolding emit
decode_four c bs low high =
    decode_lead (0xF0 + c / 262144) _ none _ (lead_four (c / 262144) (omega arith))
    ∙ decode_next 1 (c / 262144) _ _ (c / 4096 % 64) _ (ground arith) (ground arith)
    ∙ decode_next 0 ((c / 262144) * 64 + c / 4096 % 64) 0x80 0xBF (c / 64 % 64) _ (omega arith)
        (omega arith)
    ∙ decode_last _ 0x80 0xBF (c % 64) bs (omega arith) (omega arith)
    ∙ ap (λ (v : ℕ). v ∷ decode_from ready bs) (four_bits c)

-- The cases of `encode_point`.
pub decode-encode_point :
    (c : ℕ) (front tail : Bytes)
    → encode_point c ≡ ok front
    → decode_from ready (front ++ tail) ≡ c ∷ decode_from ready tail
unfolding encode_point
decode-encode_point c front tail h = elim (Bool-cases (ltb c 0x80)) [
  | inl one ↦ rw⁻¹ (ok-injective (rw one at h)) (decode_one c tail (ltb→lt c 0x80 one))
  | inr more ↦ elim (Bool-cases (ltb c 0x800)) [
    | inl two ↦
        rw⁻¹ (ok-injective (rw (more, two) at h))
          (decode_two c tail (ground arith) (ltb→lt c 0x800 two))
    | inr wide ↦ elim (Bool-cases (leb 0xD800 c && leb c 0xDFFF)) [
      | inl surrogate ↦ absurd (err_ok (rw (more, wide, surrogate) at h))
      | inr scalar ↦ elim (Bool-cases (ltb c 0x10000)) [
        | inl three ↦
            rw⁻¹ (ok-injective (rw (more, wide, scalar, three) at h))
              (decode_three c tail (ground arith) (ltb→lt c 0x10000 three) scalar)
        | inr last ↦ elim (Bool-cases (ltb c 0x110000)) [
          | inl four ↦
              rw⁻¹ (ok-injective (rw (more, wide, scalar, last, four) at h))
                (decode_four c tail (ground arith) (ltb→lt c 0x110000 four))
          | inr none_left ↦ absurd (err_ok (rw (more, wide, scalar, last, none_left) at h))
        ]
      ]
    ]
  ]
]
  where
    err_ok : err value_error ≡ ok front → ⊥
    err_ok e = cc

joined_point :
    (first rest : Result Bytes) (bs : Bytes)
    → (first >>= (λ front. rest >>= (λ tail. ok (front ++ tail)))) ≡ ok bs
    → (front tail : Bytes) × (first ≡ ok front) × (rest ≡ ok tail) × (bs ≡ front ++ tail)
joined_point (err e) rest bs h = absurd (err_ok h)
  where
    err_ok : err e ≡ ok bs → ⊥
    err_ok k = cc
joined_point (ok front) rest bs h =
    let (tail, made, joined) = joined_tail front rest bs h in (front, tail, refl, made, joined)

empty_encoded : (bs : Bytes) → ok [] ≡ ok bs → [] ≡ bs
empty_encoded bs h = cc

-- Text that UTF-8 can encode is decoded to itself.
pub decode-encode_utf8 : (t : Text) (bs : Bytes) → encode_utf8 t ≡ ok bs → decode_utf8 bs ≡ t
unfolding encode_utf8 decode_utf8
decode-encode_utf8 [] bs h = rw⁻¹ (empty_encoded bs h) (unfold decode_from in refl)
decode-encode_utf8 (c ∷ cs) bs h =
    let (front, tail, point, later, joined) = joined_point (encode_point c) (encode_utf8 cs) bs h in
    ap (λ (x : Bytes). decode_from ready x) joined
    ∙ decode-encode_point c front tail point
    ∙ ap (λ (rest : Text). c ∷ rest) (decode-encode_utf8 cs tail later)

-- So the string that a response carries is the text, without the NULs at its ends.
pub text_of-encode_utf8 : (t : Text) (bs : Bytes) → encode_utf8 t ≡ ok bs → text_of bs ≡ strip t
unfolding text_of
text_of-encode_utf8 t bs h = ap strip (decode-encode_utf8 t bs h)

-- ASCII text is decoded to itself, a byte for each character.
pub decode-encode_ascii :
    (t : Text) (bs : Bytes)
    → encode_ascii t ≡ ok bs
    → (decode_ascii bs ≡ t) × (length bs ≡ length t)
unfolding encode_ascii decode_ascii
decode-encode_ascii [] bs h = rw⁻¹ (empty_encoded bs h) (refl, refl)
decode-encode_ascii (c ∷ cs) bs h = elim (Bool-cases (ltb c 0x80)) [
  | inl small ↦
      let (tail, made, joined) = joined_tail (c ∷ []) (encode_ascii cs) bs (rw small at h) in
      let (same, size) = decode-encode_ascii cs tail made in
      rw (joined, small, same) (refl, ap suc size)
  | inr large ↦ absurd (value_error_ok bs (rw large at h))
]
  where
    value_error_ok : (x : Bytes) → err value_error ≡ ok x → ⊥
    value_error_ok x e = cc
