-- ===== src/Protocols/Validator/Accepts.antt =====
-- What the validator accepts, said without its order of checks (protocols/rdm_validator.py).
use rdm_dmx_async.Base.{
  ℕ, ◌+◌, ◌^◌, ◌≤◌, ◌<◌, ◌≡◌, ◌≢◌, ◌⊎◌, ◌↔◌, refl, none, length, Bool, true, false, arith, not,
  ◌&&◌, ◌==◌, ltb, ok, All, List, [], ◌∷◌,
}
use rdm_dmx_async.Base.Words.{Bytes}
use rdm_dmx_async.Packets.Types.{
  Uid, CommandClass, discovery_command, get_command, set_command, discovery_command_response,
  get_command_response, set_command_response,
}
use rdm_dmx_async.Packets.Rdm.{RdmRequest, RdmResponse, IsConstructed}
use rdm_dmx_async.Packets.Encoder.{IsEncodable, encode_rdm_request}
use rdm_dmx_async.Packets.RoundTrip.{encode_total}
use rdm_dmx_async.Protocols.Validator.{
  broadcast_uid, is_valid_uid, is_valid_pid, is_request_class, is_get_command, is_class,
  validate_request, Fault, first_fault, request_checks, match_checks, max_sub_device,
  broadcast_sub_device, validate_request_response_match, expected_response_class, queued_message,
}

-- A manufacturer's UID, or the broadcast UID.
abbrev pub IsUid : Uid → Type 0
IsUid u = (u ≡ broadcast_uid) ⊎ ((2 ^ 32 ≤ u) × (u < 2 ^ 48))

abbrev pub IsSubDevice : ℕ → Type 0
IsSubDevice s = (s ≤ 0x0FFF) ⊎ (s ≡ 0xFFFF)

-- A class that a controller sends, with no GET to every device at once.
abbrev pub MaySend : CommandClass → Uid → Type 0
MaySend get_command u = u ≢ broadcast_uid
MaySend set_command u = Unit {0}
MaySend discovery_command u = Unit {0}
MaySend _ u = ⊥

-- What the validator looks at.
pub record IsRequest (r : RdmRequest) : Type 0 where
  pub destination : IsUid r.destination_uid
  pub source : IsUid r.source_uid
  pub sub_device : IsSubDevice r.sub_device
  pub class : MaySend r.command_class r.destination_uid
  pub payload : length r.payload ≤ 231
  pub pid : r.pid < 2 ^ 16

is_valid_uid_sound : (u : Uid) → is_valid_uid u ≡ true → IsUid u
unfolding is_valid_uid
is_valid_uid_sound u h = ground arith

is_valid_uid_complete : (u : Uid) → IsUid u → is_valid_uid u ≡ true
unfolding is_valid_uid
is_valid_uid_complete u h = ground arith

pub first_fault-none : (l : List (Bool × Fault)) → first_fault l ≡ none → All (λ p. p.0 ≡ false) l
unfolding first_fault
first_fault-none [] h = tt
first_fault-none ((true, fault) ∷ l) h = cc
first_fault-none ((false, fault) ∷ l) h = (refl, first_fault-none l h)

pub none-first_fault : (l : List (Bool × Fault)) → All (λ p. p.0 ≡ false) l → first_fault l ≡ none
unfolding first_fault
none-first_fault [] h = refl
none-first_fault ((true, fault) ∷ l) h = cc (h.0)
none-first_fault ((false, fault) ∷ l) h = none-first_fault l h.1

not-false : (b : Bool) → not b ≡ false → b ≡ true
not-false true h = refl
not-false false h = cc

class_sound :
    (c : CommandClass) (u : Uid)
    → not (is_request_class c) ≡ false
    → (u == broadcast_uid && is_get_command c) ≡ false
    → MaySend c u
unfolding is_request_class is_get_command
class_sound get_command u h k = ground arith
class_sound set_command u h k = tt
class_sound discovery_command u h k = tt
class_sound discovery_command_response u h k = cc
class_sound get_command_response u h k = cc
class_sound set_command_response u h k = cc

class_complete :
    (c : CommandClass) (u : Uid)
    → MaySend c u
    → (not (is_request_class c) ≡ false) × ((u == broadcast_uid && is_get_command c) ≡ false)
unfolding is_request_class is_get_command
class_complete get_command u h = ground arith
class_complete set_command u h = ground arith
class_complete discovery_command u h = ground arith
class_complete discovery_command_response u h = absurd h
class_complete get_command_response u h = absurd h
class_complete set_command_response u h = absurd h

IsSubDevice-sound :
    (s : ℕ) → (ltb max_sub_device s && not (s == broadcast_sub_device)) ≡ false → IsSubDevice s
IsSubDevice-sound s h = ground arith

IsSubDevice-complete :
    (s : ℕ) → IsSubDevice s → (ltb max_sub_device s && not (s == broadcast_sub_device)) ≡ false
IsSubDevice-complete s h = ground arith

-- A request that the validator accepts meets those conditions.
validate_request_sound : (r : RdmRequest) → validate_request r ≡ none → IsRequest r
unfolding validate_request is_valid_pid
validate_request_sound r h =
    let c = first_fault-none (request_checks r) h in
    record {
      destination = is_valid_uid_sound r.destination_uid (not-false _ c.0);
      source = is_valid_uid_sound r.source_uid (not-false _ c.1.0);
      sub_device = IsSubDevice-sound r.sub_device c.1.1.0;
      class = class_sound r.command_class r.destination_uid c.1.1.1.0 c.1.1.1.1.1.1.0;
      payload = ground (arith, c.1.1.1.1.0);
      pid = ground (arith, c.1.1.1.1.1.0);
    }

validate_request_complete : (r : RdmRequest) → IsRequest r → validate_request r ≡ none
unfolding validate_request is_valid_pid
validate_request_complete r h =
    let c = class_complete r.command_class r.destination_uid h.class in
    none-first_fault (request_checks r) (
      rw (is_valid_uid_complete r.destination_uid h.destination),
      (
        rw (is_valid_uid_complete r.source_uid h.source),
        (
          IsSubDevice-complete r.sub_device h.sub_device,
          (c.0, (ground (arith, h.payload), (ground (arith, h.pid), (c.1, tt)))),
        ),
      ),
    )

-- The validator accepts a request exactly if both its UIDs are a manufacturer's or the broadcast
-- UID, its sub-device is at most 0x0FFF or is 0xFFFF, it is a GET, a SET or a discovery command but
-- no GET to the broadcast UID, its data are at most 231 bytes, and its parameter is below 2 ^ 16. Its
-- transaction number and its port are not looked at.
pub validate_request_iff : (r : RdmRequest) → (validate_request r ≡ none) ↔ IsRequest r
validate_request_iff r = (validate_request_sound r, validate_request_complete r)

uid_fits : (u : Uid) → IsUid u → u < 2 ^ 48
uid_fits u h = omega arith

-- A constructed request that is validated is encoded without an error, as long as its port
-- address is a byte.
pub validated-encodes :
    (r : RdmRequest)
    → IsConstructed r
    → validate_request r ≡ none
    → r.port_address ≤ 255
    → (p : Bytes) × (encode_rdm_request r ≡ ok p) × (length p ≡ 26 + length r.payload)
validated-encodes r made valid port =
    let q = validate_request_sound r valid in
    let enc : IsEncodable r = record {
      constructed = made;
      destination_fits = uid_fits r.destination_uid q.destination;
      source_fits = uid_fits r.source_uid q.source;
      port_fits = port;
      pid_fits = omega (arith, q.pid);
    } in
    encode_total r enc

-- The class of an answer.
abbrev pub AnswerClass : CommandClass → CommandClass → Type 0
AnswerClass discovery_command discovery_command_response = Unit {0}
AnswerClass get_command get_command_response = Unit {0}
AnswerClass set_command set_command_response = Unit {0}
AnswerClass _ _ = ⊥

-- `r` comes from the device that `q` asked, and answers it.
pub record Answers (q : RdmRequest) (r : RdmResponse) : Type 0 where
  pub transaction : r.transaction_number ≡ q.transaction_number
  pub from_device : r.source_uid ≡ q.destination_uid
  pub to_controller : r.destination_uid ≡ q.source_uid
  pub parameter : (r.pid ≡ q.pid) ⊎ (r.pid ≡ queued_message)
  pub class : AnswerClass q.command_class r.command_class

AnswerClass-sound :
    (c d : CommandClass) → not (is_class (expected_response_class c) d) ≡ false → AnswerClass c d
unfolding is_class expected_response_class
AnswerClass-sound discovery_command discovery_command h = cc
AnswerClass-sound c d h = ground arith

AnswerClass-complete :
    (c d : CommandClass) → AnswerClass c d → not (is_class (expected_response_class c) d) ≡ false
unfolding is_class expected_response_class
AnswerClass-complete discovery_command discovery_command h = absurd h
AnswerClass-complete c d h = ground arith

match_sound :
    (q : RdmRequest) (r : RdmResponse) → validate_request_response_match q r ≡ none → Answers q r
unfolding validate_request_response_match
match_sound q r h =
    let c = first_fault-none (match_checks q r) h in
    record {
      transaction = ground (arith, c.0);
      from_device = ground (arith, c.1.0);
      to_controller = ground (arith, c.1.1.0);
      parameter = ground (arith, c.1.1.1.0);
      class = AnswerClass-sound q.command_class r.command_class c.1.1.1.1.0;
    }

match_complete :
    (q : RdmRequest) (r : RdmResponse) → Answers q r → validate_request_response_match q r ≡ none
unfolding validate_request_response_match
match_complete q r h = none-first_fault (match_checks q r) (
  ground (arith, h.transaction),
  (
    ground (arith, h.from_device),
    (
      ground (arith, h.to_controller),
      (
        ground (arith, h.parameter),
        (AnswerClass-complete q.command_class r.command_class h.class, tt),
      ),
    ),
  ),
)

-- A response matches a request exactly when it answers it.
pub match_iff :
    (q : RdmRequest) (r : RdmResponse) → (validate_request_response_match q r ≡ none) ↔ Answers q r
match_iff q r = (match_sound q r, match_complete q r)
