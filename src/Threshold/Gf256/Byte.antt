-- ===== src/Threshold/Gf256/Byte.antt =====
-- The field of the bytes, as an implementation of the interface.
use Prim.Native.Nat.{bit_xor}
use mathlib.Core.HLevel.{Σ_prop_path}
use native.Mathlib.Bridge.{le_prop}
use zelana.Base.{ℕ, ◌<◌, ◌≡◌, arith}
use zelana.Base.Xor.{xor_assoc, xor_comm, xor_zero, xor_self}
use zelana.Threshold.Field.{Field}
use zelana.Threshold.Gf256.{mul, inv}
use zelana.Threshold.Gf256.Checked.{mul-inv, inv_lt}
use zelana.Threshold.Gf256.Linear.{xor_byte, mul-xor, mul_lt}
use zelana.Threshold.Gf256.Laws.{mul_assoc, mul_comm, mul_one}

abbrev pub Byte : Type 0
Byte = (n : ℕ) × (n < 256)

pub byte_ext : {a b : Byte} → a.0 ≡ b.0 → a ≡ b
byte_ext h = Σ_prop_path (λ n. le_prop) h

abbrev pub byte_field : Field Byte
byte_field = record {
  add = λ a b. (bit_xor a.0 b.0, xor_byte a.0 b.0 a.1 b.1);
  mul = λ a b. (mul a.0 b.0, mul_lt a.0 b.0 a.1 b.1);
  inv = λ a. (inv a.0, inv_lt a.0 a.1);
  null = (0, omega arith);
  one = (1, omega arith);
  add_assoc = λ a b c. byte_ext (xor_assoc a.0 b.0 c.0);
  add_comm = λ a b. byte_ext (xor_comm a.0 b.0);
  add_self = λ a. byte_ext (xor_self a.0);
  add_null = λ a. byte_ext (xor_zero a.0);
  mul_assoc = λ a b c. byte_ext (mul_assoc a.0 b.0 c.0 a.1 b.1 c.1);
  mul_comm = λ a b. byte_ext (mul_comm a.0 b.0 a.1 b.1);
  mul_one = λ a. byte_ext (mul_one a.0 a.1);
  mul-add = λ a b c. byte_ext (mul-xor a.0 b.0 c.0 b.1 c.1);
  mul-inv = λ a ne. byte_ext (mul-inv a.0 a.1 (λ e. ne (byte_ext e)));
}
