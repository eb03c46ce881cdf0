-- ===== src/Threshold/Gf256.antt =====
-- `mod gf256` of sdk/threshold/src/shares.rs: the field of 256 elements, on bytes.
pub mod Checked
pub mod Linear
pub mod Laws
pub mod Byte
use Prim.Native.Nat.{bit_and, bit_xor}
use zelana.Base.{ℕ, zero, suc, ◌+◌, ◌*◌, ◌/◌, ◌%◌, Bool, true, false, if◌then◌else◌, nat_beq}

-- `a <<= 1`, then `a ^= 0x1b` if the highest bit was set.
unfoldable pub shift : ℕ → ℕ
shift a =
    let hi = bit_and a 0x80 in let a = (a * 2) % 256 in if nat_beq hi 0 then a else bit_xor a 0x1b

-- The loop of `mul`, which runs while bits of `b` are left: eight times at most.
unfoldable pub mul_loop : ℕ → ℕ → ℕ → ℕ → ℕ
unfolding shift
mul_loop zero a b result = result
mul_loop (suc rounds) a b result =
    let rest =
      mul_loop rounds (shift a) (b / 2)
        (if nat_beq (bit_and b 1) 0 then result else bit_xor result a) in
    if nat_beq b 0 then result else rest

unfoldable pub mul : ℕ → ℕ → ℕ
unfolding mul_loop
mul a b = mul_loop 8 a b 0

unfoldable pub inv : ℕ → ℕ
unfolding mul
inv a =
    if nat_beq a 0
    then 0
    else let a2 = mul a a in
      let a4 = mul a2 a2 in
      let a8 = mul a4 a4 in
      let a16 = mul a8 a8 in
      let a32 = mul a16 a16 in
      let a64 = mul a32 a32 in
      let a128 = mul a64 a64 in mul (mul (mul (mul (mul (mul a128 a64) a32) a16) a8) a4) a2

unfoldable pub div : ℕ → ℕ → ℕ
unfolding mul inv
div a b = mul a (inv b)
