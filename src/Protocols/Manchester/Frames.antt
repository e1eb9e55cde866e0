-- ===== src/Protocols/Manchester/Frames.antt =====
-- Discovery responses as a responder sends them, and what the decoder makes of them
-- (protocols/manchester_codec.py).
use Prim.Native.Nat.{bit_or}
use rdm_dmx_async.Base.{
  ℕ, zero, suc, ◌+◌, ◌-◌, ◌*◌, ◌≤◌, ◌≡◌, refl, ap, some, length, drop, get_or, [], ◌∷◌, ◌++◌,
  replicate, arith, length-append, length-replicate, ne→==, gt→leb, le→leb, ge→ltb,
  take-append_prefix, ==-refl,
}
use rdm_dmx_async.Base.Words.{Bytes, IsBytes}
use rdm_dmx_async.Base.Bytes.{manchester_pair}
use rdm_dmx_async.Protocols.Manchester.{
  preamble_length, find_discovery_frame_length, frame_length_after, decode_pairs, decode,
}

-- ANSI E1.20: each byte is sent twice, with the odd and with the even bits set.
abbrev pub pair_up : Bytes → Bytes
pair_up [] = []
pair_up (b ∷ bs) = bit_or b 0xAA ∷ bit_or b 0x55 ∷ pair_up bs

-- A response: preamble, start byte, and the UID and checksum in pairs.
abbrev pub discovery_frame : ℕ → Bytes → Bytes → Bytes
discovery_frame preamble uid checksum =
    replicate preamble 0xFE ++ (0xAA ∷ pair_up (uid ++ checksum))

pub preamble_length-frame :
    (room preamble : ℕ) (rest : Bytes)
    → preamble ≤ room
    → preamble_length room (replicate preamble 0xFE ++ (0xAA ∷ rest)) ≡ preamble
unfolding preamble_length
preamble_length-frame zero zero rest h = refl
preamble_length-frame zero (suc p) rest h = absurd (omega arith)
preamble_length-frame (suc room) zero rest h = refl
preamble_length-frame (suc room) (suc p) rest h =
    ap suc (preamble_length-frame room p rest (omega arith))

pub length-pair_up : (bs : Bytes) → length (pair_up bs) ≡ 2 * length bs
length-pair_up [] = refl
length-pair_up (b ∷ bs) = omega (arith, length-pair_up bs)

pub decode_pairs-pair_up :
    (n : ℕ) (bs : Bytes) → length bs ≡ n → IsBytes bs → decode_pairs n (pair_up bs) ≡ bs
unfolding decode_pairs
decode_pairs-pair_up zero [] e h = refl
decode_pairs-pair_up zero (b ∷ bs) e h = absurd (omega arith)
decode_pairs-pair_up (suc n) [] e h = absurd (omega arith)
decode_pairs-pair_up (suc n) (b ∷ bs) e h =
    rw (manchester_pair b h.0) (ap (λ t. b ∷ t) (decode_pairs-pair_up n bs (omega arith) h.1))

get_or-replicate : (n : ℕ) (rest : Bytes) (b : ℕ) → get_or (replicate n 0xFE ++ (b ∷ rest)) n 0 ≡ b
get_or-replicate zero rest b = refl
get_or-replicate (suc n) rest b = get_or-replicate n rest b

drop_past : (n k : ℕ) (rest : Bytes) → k ≡ suc n → drop k (replicate n 0xFE ++ (0xAA ∷ rest)) ≡ rest
drop_past n zero rest e = absurd (omega arith)
drop_past zero (suc k) rest e = let none_left : k ≡ 0 = omega arith in rw none_left
drop_past (suc n) (suc k) rest e = drop_past n k rest (omega arith)

pub find-frame :
    (preamble : ℕ) (body : Bytes)
    → 1 ≤ preamble
    → preamble ≤ 7
    → 16 ≤ length body
    → find_discovery_frame_length (replicate preamble 0xFE ++ (0xAA ∷ body)) ≡ preamble + 1 + 16
unfolding find_discovery_frame_length frame_length_after
find-frame preamble body some_bytes few full =
    let long : length (replicate preamble 0xFE ++ (0xAA ∷ body)) ≡ preamble + suc (length body) =
      omega (
        arith,
        length-append (replicate preamble 0xFE) (0xAA ∷ body),
        length-replicate {A = ℕ} preamble 0xFE,
      ) in
    rw (
      preamble_length-frame 7 preamble body few,
      ne→== preamble 0 (omega arith),
      long,
      gt→leb (preamble + suc (length body)) preamble (omega arith),
      get_or-replicate preamble body 0xAA,
      le→leb (preamble + 1 + 16) (preamble + suc (length body)) (omega arith),
    )

module _ (preamble : ℕ) (uid checksum : Bytes) (some_bytes : 1 ≤ preamble) (few : preamble ≤ 7)
    (six : length uid ≡ 6) (two : length checksum ≡ 2) where
  abbrev body : Bytes
  body = pair_up (uid ++ checksum)

  pub length-body : length body ≡ 16
  length-body = omega (arith, length-pair_up (uid ++ checksum), length-append uid checksum)

  pub length-frame : length (discovery_frame preamble uid checksum) ≡ preamble + 1 + 16
  length-frame = omega (
    arith,
    length-append (replicate preamble 0xFE) (0xAA ∷ body),
    length-replicate {A = ℕ} preamble 0xFE,
    length-body,
  )

  drop_preamble :
      drop (preamble + 1 + 16 - 1 - 16 + 1) (discovery_frame preamble uid checksum) ≡ body
  drop_preamble = drop_past preamble (preamble + 1 + 16 - 1 - 16 + 1) body (omega arith)

  -- A discovery response with one to seven preamble bytes, a UID of six bytes and a checksum of two,
  -- whatever the checksum says, decodes to the UID that it carries.
  pub decode-frame :
      IsBytes (uid ++ checksum) → decode (discovery_frame preamble uid checksum) ≡ some uid
  unfolding decode
  decode-frame bytes = rw (
    find-frame preamble body some_bytes few (omega (arith, length-body)),
    ne→== (preamble + 1 + 16) 0 (omega arith),
    length-frame,
    ==-refl (preamble + 1 + 16),
    drop_preamble,
    ge→ltb (length body) 16 (omega (arith, length-body)),
    decode_pairs-pair_up 8 (uid ++ checksum) (omega (arith, length-append uid checksum)) bytes,
    ge→ltb (length (uid ++ checksum)) 6 (omega (arith, length-append uid checksum)),
    take-append_prefix 6 uid checksum six,
  )
