-- ===== src/Base/Words.antt =====
-- Bytes, and big-endian integers as `int.to_bytes`, `int.from_bytes` and `struct` read them.
use native.Mathlib.Nat.{pow-suc}
use Prim.Native.Nat.{ℕ, zero, suc, ◌+◌, ◌*◌, ◌/◌, ◌%◌, ◌^◌, ◌<◌}
use mathlib.Core.Path.{◌≡◌, refl, ◌∙◌}
use mathlib.Core.List.{List, [], ◌∷◌, ◌++◌}
use native.Mathlib.Omega.{arith}
use rdm_dmx_async.Base.Lists.{length, All, All-append, length-append}

abbrev pub Bytes : Type 0
Bytes = List ℕ

abbrev pub IsBytes : Bytes → Type 0
IsBytes = All (λ b. b < 256)

-- `v.to_bytes(width, "big")` for a value that fits; higher digits are dropped.
unfoldable pub to_bytes : ℕ → ℕ → Bytes
to_bytes zero v = []
to_bytes (suc width) v = to_bytes width (v / 256) ++ (v % 256) ∷ []

pub from_digits : ℕ → Bytes → ℕ
from_digits acc [] = acc
from_digits acc (b ∷ bs) = from_digits (acc * 256 + b) bs

-- `int.from_bytes(bs, "big")`
unfoldable pub from_bytes : Bytes → ℕ
unfolding from_digits
from_bytes bs = from_digits 0 bs

from_digits-snoc :
    (acc : ℕ) (bs : Bytes) (b : ℕ) → from_digits acc (bs ++ b ∷ []) ≡ from_digits acc bs * 256 + b
unfolding from_digits
from_digits-snoc acc [] b = refl
from_digits-snoc acc (c ∷ bs) b = from_digits-snoc (acc * 256 + c) bs b

pub from_bytes-to_bytes : (width v : ℕ) → v < 256 ^ width → from_bytes (to_bytes width v) ≡ v
unfolding from_bytes to_bytes
from_bytes-to_bytes zero v h = omega arith
from_bytes-to_bytes (suc width) v h =
    from_digits-snoc 0 (to_bytes width (v / 256)) (v % 256)
    ∙ omega (arith, from_bytes-to_bytes width (v / 256) (omega (arith, pow-suc 256 width)))

pub length-to_bytes : (width v : ℕ) → length (to_bytes width v) ≡ width
unfolding to_bytes
length-to_bytes zero v = refl
length-to_bytes (suc width) v = omega (
  arith,
  length-append (to_bytes width (v / 256)) ((v % 256) ∷ []),
  length-to_bytes width (v / 256),
)

pub to_bytes-IsBytes : (width v : ℕ) → IsBytes (to_bytes width v)
unfolding to_bytes
to_bytes-IsBytes zero v = tt
to_bytes-IsBytes (suc width) v =
    All-append _ (to_bytes width (v / 256)) ((v % 256) ∷ []) (to_bytes-IsBytes width (v / 256))
      (omega arith)

-- The sum of the bytes, modulo 2 ^ 16.
unfoldable pub sum : Bytes → ℕ
sum [] = 0
sum (b ∷ bs) = b + sum bs
