-- ===== src/Base/Bytes.antt =====
-- Facts about the bits of a byte, checked at every value.
use Prim.Native.Nat.{ℕ, zero, suc, ◌+◌, ◌<◌, bit_and, bit_or}
use mathlib.Core.Path.{◌≡◌, refl}
use mathlib.Core.Bool.{Bool, true}
use native.Mathlib.Omega.{arith}
use rdm_dmx_async.Base.Tests.{◌==◌, ==→eq, if◌then◌else◌}

abbrev manchester_test : ℕ → Bool
manchester_test b = bit_and (bit_or b 0xAA) (bit_or b 0x55) == b

-- How many of the numbers below a bound fail the test.
failures : ℕ → ℕ
failures zero = 0
failures (suc b) = (if manchester_test b then 0 else 1) + failures b

passes : (bound b : ℕ) → b < bound → failures bound ≡ 0 → manchester_test b ≡ true
unfolding failures
passes zero b small none_fail = absurd (omega arith)
passes (suc bound) b small none_fail = ground (arith, passes bound b)

no_failures : failures 256 ≡ 0
unfolding failures
no_failures = refl

-- The two halves of a Manchester pair meet in the byte that they encode.
pub manchester_pair : (b : ℕ) → b < 256 → bit_and (bit_or b 0xAA) (bit_or b 0x55) ≡ b
manchester_pair b small = ==→eq _ b (passes 256 b small no_failures)
