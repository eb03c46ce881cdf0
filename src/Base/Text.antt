-- ===== src/Base/Text.antt =====
-- Text as bytes, decimal numerals and little-endian integers.
use Prim.Native.Nat.{ℕ, zero, suc, ◌+◌, ◌*◌, ◌/◌, ◌%◌, ◌<◌}
use Prim.Native.Char.{code}
use Prim.Native.String.{String}
use mathlib.Core.Path.{◌≡◌, refl, ap}
use mathlib.Core.List.{[], ◌∷◌}
use zelana.Base.Tests.{ltb, if◌then◌else◌}
use native.Mathlib.Omega.{arith}
use zelana.Base.Lists.{Bytes, length}

-- The bytes of an ASCII text.
abbrev pub codes : String → Bytes
codes String.[] = []
codes (String.◌∷◌ letter text) = code letter ∷ codes text

-- The decimal digits of a number, put before the digits so far.
unfoldable pub decimal_from : ℕ → ℕ → Bytes → Bytes
decimal_from zero n digits = digits
decimal_from (suc fuel) n digits =
    let digits' = (48 + n % 10) ∷ digits in
    let rest = decimal_from fuel (n / 10) digits' in if ltb n 10 then digits' else rest

-- `{}` of a `u64`, which has at most 20 digits.
unfoldable pub decimal : ℕ → Bytes
unfolding decimal_from
decimal n = decimal_from 20 n []

-- `to_le_bytes` of an integer of some bytes.
unfoldable pub to_le_bytes : ℕ → ℕ → Bytes
to_le_bytes zero n = []
to_le_bytes (suc k) n = n % 256 ∷ to_le_bytes k (n / 256)

decimal_u64_max : decimal 18446744073709551615 ≡ codes "18446744073709551615"
unfolding decimal
decimal_u64_max = refl

decimal_zero : decimal 0 ≡ codes "0"
unfolding decimal
decimal_zero = refl

-- `from_le_bytes`
unfoldable pub from_le_bytes : Bytes → ℕ
from_le_bytes [] = 0
from_le_bytes (b ∷ bs) = b + 256 * from_le_bytes bs

-- The number of values of an integer of some bytes.
abbrev pub values : ℕ → ℕ
values zero = 1
values (suc k) = 256 * values k

pub length-to_le_bytes : (k n : ℕ) → length (to_le_bytes k n) ≡ k
unfolding to_le_bytes
length-to_le_bytes zero n = refl
length-to_le_bytes (suc k) n = ap suc (length-to_le_bytes k (n / 256))

pub from-to_le_bytes : (k n : ℕ) → n < values k → from_le_bytes (to_le_bytes k n) ≡ n
unfolding from_le_bytes to_le_bytes
from-to_le_bytes zero n h = omega (arith, h)
from-to_le_bytes (suc k) n h = omega (arith, from-to_le_bytes k (n / 256) (omega (arith, h)))
