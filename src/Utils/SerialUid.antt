-- ===== src/Utils/SerialUid.antt =====
-- The UID that the query loop ends with (utils.py, transport/adapters/enttec.py).
use rdm_dmx_async.Base.{
  ℕ, zero, suc, ◌+◌, ◌*◌, ◌^◌, ◌≡◌, ◌<◌, ap, ◌∙◌, none, some, ok, false, [], ◌∷◌, arith,
}
use rdm_dmx_async.Base.Words.{Bytes, from_bytes}
use rdm_dmx_async.Packets.Types.{Uid, uid_from_bytes}
use rdm_dmx_async.Transport.Enttec.{
  get_widget_serial_number, parse_widget_serial_response, is_unprogrammed, label, data_length,
}
use rdm_dmx_async.Transport.Enttec.Framing.{message_then}
use rdm_dmx_async.Utils.{
  Reply, read, uid_of_serial, serial_uid, keep_uid, or_later, attempt_uid, try_serial_uid,
  get_enttec_serial_uid,
}

-- The widget's answer with the serial number whose bytes are `a b c d`, the lowest first.
abbrev pub serial_message : ℕ → ℕ → ℕ → ℕ → Bytes
serial_message a b c d = message_then get_widget_serial_number (a ∷ b ∷ c ∷ d ∷ []) []

-- Manufacturer 0x454E, and the serial number read as a number.
abbrev pub uid_of : ℕ → ℕ → ℕ → ℕ → Uid
uid_of a b c d = 0x454E * 2 ^ 32 + (d * 2 ^ 24 + c * 2 ^ 16 + b * 2 ^ 8 + a)

module _ (a b c d : ℕ) (programmed : is_unprogrammed (a ∷ b ∷ c ∷ d ∷ []) ≡ false) where
  parse_serial : parse_widget_serial_response (serial_message a b c d) ≡ some (a ∷ b ∷ c ∷ d ∷ [])
  unfolding parse_widget_serial_response data_length label
  parse_serial = rw programmed

  uid_read : uid_of_serial (a ∷ b ∷ c ∷ d ∷ []) ≡ ok (uid_of a b c d)
  unfolding uid_of_serial uid_from_bytes from_bytes
  uid_read = ground arith

  attempt-message : attempt_uid (read (serial_message a b c d)) ≡ some (uid_of a b c d)
  unfolding attempt_uid serial_uid keep_uid
  attempt-message = rw (parse_serial, uid_read)

try-first :
    (reply : ℕ → Reply) (uid : Uid) (wasted left attempt : ℕ)
    → wasted < left
    → ((k : ℕ) → k < wasted → attempt_uid (reply (attempt + k)) ≡ none)
    → attempt_uid (reply (attempt + wasted)) ≡ some uid
    → try_serial_uid reply left attempt ≡ some uid
unfolding try_serial_uid or_later
try-first reply uid wasted zero attempt room before now = absurd (omega arith)
try-first reply uid zero (suc left) attempt room before now =
    let at_once : attempt_uid (reply attempt) ≡ some uid =
      ap (λ (k : ℕ). attempt_uid (reply k)) (omega arith) ∙ now in
    rw at_once
try-first reply uid (suc wasted) (suc left) attempt room before now =
    let not_yet : attempt_uid (reply attempt) ≡ none =
      ap (λ (k : ℕ). attempt_uid (reply k)) (omega arith) ∙ before 0 (omega arith) in
    rw not_yet (
      try-first reply uid wasted left (suc attempt) (omega arith)
        (λ k h. ap (λ (j : ℕ). attempt_uid (reply j)) (omega arith) ∙ before (suc k) (omega arith))
        (ap (λ (j : ℕ). attempt_uid (reply j)) (omega arith) ∙ now))

-- If one of the four queries brings the widget's serial number, and those before it bring no UID,
-- the controller's UID is the ENTTEC manufacturer ID followed by the serial number.
pub get_enttec_serial_uid_lem :
    (reply : ℕ → Reply) (a b c d wasted : ℕ)
    → is_unprogrammed (a ∷ b ∷ c ∷ d ∷ []) ≡ false
    → wasted < 4
    → ((k : ℕ) → k < wasted → attempt_uid (reply (1 + k)) ≡ none)
    → reply (1 + wasted) ≡ read (serial_message a b c d)
    → get_enttec_serial_uid reply ≡ some (uid_of a b c d)
unfolding get_enttec_serial_uid
get_enttec_serial_uid_lem reply a b c d wasted programmed room before now =
    try-first reply (uid_of a b c d) wasted 4 1 room before
      (ap attempt_uid now ∙ attempt-message a b c d programmed)
