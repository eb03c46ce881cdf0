-- ===== src/Threshold/Gf256/Checked.antt =====
-- Facts on bytes that are checked value by value.
use Prim.Native.Nat.{bit_and, bit_xor}
use zelana.Base.{
  ℕ, zero, suc, ◌%◌, ◌<◌, ◌≡◌, ◌≢◌, refl, Bool, true, ◌&&◌, ◌||◌, nat_beq, nat_beq_iff, ltb, ltb→lt,
  arith,
}
use zelana.Threshold.Gf256.{shift, mul, inv}

unfoldable pub all_bytes : ℕ → (ℕ → Bool) → Bool
all_bytes zero p = true
all_bytes (suc n) p = p n && all_bytes n p

pub all_bytes_sound : (n : ℕ) (p : ℕ → Bool) (x : ℕ) → all_bytes n p ≡ true → x < n → p x ≡ true
unfolding all_bytes
all_bytes_sound zero p x h lt = absurd (omega (arith, lt))
all_bytes_sound (suc n) p x h lt = ground (arith, all_bytes_sound n p x)

shift_table : all_bytes 256 (λ a. ltb (shift a) 256) ≡ true
unfolding all_bytes shift
shift_table = refl

inv_table : all_bytes 256 (λ a. nat_beq a 0 || nat_beq (mul a (inv a)) 1) ≡ true
unfolding all_bytes inv
inv_table = refl

shift_xor_table :
    all_bytes 256
      (λ a. all_bytes 256 (λ b. nat_beq (shift (bit_xor a b)) (bit_xor (shift a) (shift b))))
    ≡ true
unfolding all_bytes shift
shift_xor_table = refl

low_bit_table : all_bytes 256 (λ b. nat_beq (bit_and b 1) (b % 2)) ≡ true
unfolding all_bytes
low_bit_table = refl

pub shift_lt : (a : ℕ) → a < 256 → shift a < 256
shift_lt a h = ltb→lt _ _ (all_bytes_sound 256 (λ a. ltb (shift a) 256) a shift_table h)

pub low_bit : (b : ℕ) → b < 256 → bit_and b 1 ≡ b % 2
low_bit b h =
    (nat_beq_iff _ _).0 (all_bytes_sound 256 (λ b. nat_beq (bit_and b 1) (b % 2)) b low_bit_table h)

pub shift-xor : (a b : ℕ) → a < 256 → b < 256 → shift (bit_xor a b) ≡ bit_xor (shift a) (shift b)
shift-xor a b h k = (nat_beq_iff _ _).0 (
    all_bytes_sound 256 (λ b. nat_beq (shift (bit_xor a b)) (bit_xor (shift a) (shift b))) b
      (all_bytes_sound 256
        (λ a. all_bytes 256 (λ b. nat_beq (shift (bit_xor a b)) (bit_xor (shift a) (shift b)))) a
        shift_xor_table h)
      k)

pub mul-inv : (a : ℕ) → a < 256 → a ≢ 0 → mul a (inv a) ≡ 1
mul-inv a h ne =
    ground
      (arith, all_bytes_sound 256 (λ a. nat_beq a 0 || nat_beq (mul a (inv a)) 1) a inv_table h)

inv_lt_table : all_bytes 256 (λ a. ltb (inv a) 256) ≡ true
unfolding all_bytes inv
inv_lt_table = refl

pub inv_lt : (a : ℕ) → a < 256 → inv a < 256
inv_lt a h = ltb→lt _ _ (all_bytes_sound 256 (λ a. ltb (inv a) 256) a inv_lt_table h)
