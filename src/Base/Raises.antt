-- ===== src/Base/Raises.antt =====
-- Calls that may raise: the exception classes of the program, as values.
use Prim.Native.Nat.{ℕ, ◌≤◌}
use mathlib.Core.Path.{◌≡◌}
use native.Mathlib.Omega.{arith}
use rdm_dmx_async.Base.Tests.{ltb, if◌then◌else◌}
use mathlib.Core.Bool.{Bool, true, false}

pub data Error : Type 0 where
  value_error runtime_error overflow_error index_error packet_decode_error : Error
  correlation_error protocol_timeout cancelled_error not_implemented not_connected : Error
  transport_error struct_error attribute_error : Error

-- What a call comes to: its value, or the exception that it raises.
pub data Result {ℓ} (A : Type ℓ) : Type ℓ where
  err : Error → Result A
  ok : A → Result A

infixl 5 ◌>>=◌ ◌>>◌
-- A statement after another that gives it nothing.
abbrev pub ◌>>◌ {κ} : {B : Type κ} → Result (Unit {0}) → Result B → Result B
err fault >> rest = err fault
ok done >> rest = rest

-- An exception skips what follows.
abbrev pub ◌>>=◌ {ℓ κ} : {A : Type ℓ} {B : Type κ} → Result A → (A → Result B) → Result B
err fault >>= rest = err fault
ok value >>= rest = rest value

-- `if test: raise error`
abbrev pub raise_if : Bool → Error → Result (Unit {0})
raise_if true e = err e
raise_if false e = ok tt

-- `packet.append(v)`: a byte, or `ValueError`
unfoldable pub byte : ℕ → Result ℕ
byte v = if ltb 255 v then err value_error else ok v

pub byte_ok : (v : ℕ) → v ≤ 255 → byte v ≡ ok v
unfolding byte
byte_ok v h = ground arith

pub ok-injective {ℓ} : {A : Type ℓ} {a b : A} → ok a ≡ ok b → a ≡ b
ok-injective h = cc
