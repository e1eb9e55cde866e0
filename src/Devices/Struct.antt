-- ===== src/Devices/Struct.antt =====
-- `struct.pack` and `struct.unpack` with a big-endian format of unsigned fields: the format is the
-- list of the fields' widths, as [2, 1] for ">HB".
use rdm_dmx_async.Base.{
  ℕ, ◌+◌, ◌^◌, ◌<◌, ◌≡◌, refl, sym, ◌∙◌, Result, ok, err, Error, struct_error, ◌>>=◌, Bool-cases,
  inl, inr, ltb, ltb→lt, if◌then◌else◌, List, [], ◌∷◌, ◌++◌, length, take, drop, length-append,
  take-append_prefix, drop-append_prefix, arith,
}
use rdm_dmx_async.Base.Words.{Bytes, to_bytes, from_bytes, from_bytes-to_bytes, length-to_bytes}

-- A value that is too large for its field raises `struct.error`; so does a wrong number of them.
unfoldable pub pack : List ℕ → List ℕ → Result Bytes
pack [] [] = ok []
pack [] (v ∷ vs) = err struct_error
pack (w ∷ ws) [] = err struct_error
pack (w ∷ ws) (v ∷ vs) =
    let rest = pack ws vs in
    if ltb v (256 ^ w) then rest >>= (λ bs. ok (to_bytes w v ++ bs)) else err struct_error

-- The fields at the front of the bytes, where there are enough bytes.
unfoldable pub unpack : List ℕ → Bytes → List ℕ
unpack [] bs = []
unpack (w ∷ ws) bs = from_bytes (take w bs) ∷ unpack ws (drop w bs)

-- `struct.calcsize`
unfoldable pub calcsize : List ℕ → ℕ
calcsize [] = 0
calcsize (w ∷ ws) = w + calcsize ws

err_ok : (e : Error) (bs : Bytes) → err e ≡ ok bs → ⊥
err_ok e bs h = cc

pub joined_tail :
    (front : Bytes) (o : Result Bytes) (bs : Bytes)
    → (o >>= (λ tail. ok (front ++ tail))) ≡ ok bs
    → (tail : Bytes) × (o ≡ ok tail) × (bs ≡ front ++ tail)
joined_tail front (err e) bs h = absurd (err_ok e bs h)
joined_tail front (ok tail) bs h = (tail, refl, cc)

field_packed :
    (w v : ℕ) (rest : Result Bytes) (bs : Bytes)
    → (if ltb v (256 ^ w) then rest >>= (λ tail. ok (to_bytes w v ++ tail)) else err struct_error)
      ≡ ok bs
    → (v < 256 ^ w) × (tail : Bytes) × (rest ≡ ok tail) × (bs ≡ to_bytes w v ++ tail)
field_packed w v rest bs h = elim (Bool-cases (ltb v (256 ^ w))) [
  | inl fits ↦
      let (tail, made, joined) = joined_tail (to_bytes w v) rest bs (sym (rw fits refl) ∙ h) in
      (ltb→lt v (256 ^ w) fits, tail, made, joined)
  | inr large ↦ absurd (err_ok struct_error bs (sym (rw large refl) ∙ h))
]

empty_packed : (bs : Bytes) → ok [] ≡ ok bs → [] ≡ bs
empty_packed bs h = cc

-- What was packed is unpacked again.
pub unpack-pack :
    (ws vs : List ℕ) (bs : Bytes)
    → pack ws vs ≡ ok bs
    → (unpack ws bs ≡ vs) × (length bs ≡ calcsize ws)
unfolding pack unpack calcsize
unpack-pack [] [] bs h = rw⁻¹ (empty_packed bs h) (refl, refl)
unpack-pack [] (v ∷ vs) bs h = absurd (err_ok struct_error bs h)
unpack-pack (w ∷ ws) [] bs h = absurd (err_ok struct_error bs h)
unpack-pack (w ∷ ws) (v ∷ vs) bs h =
    let (fits, tail, made, joined) = field_packed w v (pack ws vs) bs h in
    let later = unpack-pack ws vs tail made in
    let wide = length-to_bytes w v in
    rw
      (
        joined,
        take-append_prefix w (to_bytes w v) tail wide,
        drop-append_prefix w (to_bytes w v) tail wide,
        from_bytes-to_bytes w v fits,
        later.0,
      )
      (refl, omega (arith, length-append (to_bytes w v) tail, wide, later.1))
