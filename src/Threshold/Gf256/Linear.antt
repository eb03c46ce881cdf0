-- ===== src/Threshold/Gf256/Linear.antt =====
-- Multiplication in the field of 256 elements distributes over exclusive or, on both sides.
use Prim.Native.Nat.{bit_and, bit_xor}
use zelana.Base.{
  ℕ, zero, suc, ◌+◌, ◌/◌, ◌%◌, ◌<◌, ◌≡◌, refl, sym, ap, ◌∙◌, if◌then◌else◌, nat_beq, nat_beq_iff,
  Bool-cases, inl, inr, arith,
}
use zelana.Base.Xor.{xor_assoc, xor_comm, xor_zero, xor_self, xor_half, xor_low, xor_lt}
use zelana.Threshold.Gf256.{shift, mul_loop, mul}
use zelana.Threshold.Gf256.Checked.{shift_lt, low_bit, shift-xor}

pub xor_left_comm : (a b c : ℕ) → bit_xor a (bit_xor b c) ≡ bit_xor b (bit_xor a c)
xor_left_comm a b c = sym (xor_assoc a b c) ∙ ap (λ t. bit_xor t c) (xor_comm a b) ∙ xor_assoc b a c

-- The two sums of two sums, the inner terms exchanged.
xor_exchange :
    (a b c d : ℕ) → bit_xor (bit_xor a b) (bit_xor c d) ≡ bit_xor (bit_xor a c) (bit_xor b d)
xor_exchange a b c d = simp (xor_assoc, xor_left_comm)

pub xor_byte : (a b : ℕ) → a < 256 → b < 256 → bit_xor a b < 256
xor_byte a b h k = xor_lt 8 a b h k

-- `a` where the bit is set.
pick : ℕ → ℕ → ℕ
pick zero a = 0
pick (suc bit) a = a

-- The loop without its early end.
plain : ℕ → ℕ → ℕ → ℕ → ℕ
plain zero a b r = r
plain (suc k) a b r = plain k (shift a) (b / 2) (bit_xor r (pick (b % 2) a))

plain_zero : (k a r : ℕ) → plain k a 0 r ≡ r
unfolding plain pick
plain_zero zero a r = refl
plain_zero (suc k) a r = plain_zero k (shift a) (bit_xor r 0) ∙ xor_zero r

picked :
    (b a r : ℕ)
    → b < 256
    → (if nat_beq (bit_and b 1) 0 then r else bit_xor r a) ≡ bit_xor r (pick (b % 2) a)
unfolding pick
picked b a r h = rw (low_bit b h) (ground (arith, xor_zero r))

mul_loop-eq-plain : (k a b r : ℕ) → b < 256 → mul_loop k a b r ≡ plain k a b r
unfolding mul_loop plain
mul_loop-eq-plain zero a b r h = refl
mul_loop-eq-plain (suc k) a b r h = elim (Bool-cases (nat_beq b 0)) [
  | inl done ↦
      rw done
        (sym (ap (λ t. plain (suc k) a t r) ((nat_beq_iff b 0).0 done) ∙ plain_zero (suc k) a r))
  | inr more ↦ rw more (
      mul_loop-eq-plain k (shift a) (b / 2) _ (omega (arith, h))
      ∙ ap (plain k (shift a) (b / 2)) (picked b a r h))
]

pick_xor : (bit a c : ℕ) → pick bit (bit_xor a c) ≡ bit_xor (pick bit a) (pick bit c)
unfolding pick
pick_xor zero a c = refl
pick_xor (suc bit) a c = refl

pick_bits : (p q a : ℕ) → p < 2 → q < 2 → pick ((p + q) % 2) a ≡ bit_xor (pick p a) (pick q a)
unfolding pick
pick_bits zero zero a h j = refl
pick_bits zero (suc zero) a h j = sym (xor_comm 0 a ∙ xor_zero a)
pick_bits (suc zero) zero a h j = sym (xor_zero a)
pick_bits (suc zero) (suc zero) a h j = sym (xor_self a)
pick_bits zero (suc (suc q)) a h j = absurd (omega (arith, j))
pick_bits (suc zero) (suc (suc q)) a h j = absurd (omega (arith, j))
pick_bits (suc (suc p)) q a h j = absurd (omega (arith, h))

xor_pick : (b d a : ℕ) → pick ((b + d) % 2) a ≡ bit_xor (pick (b % 2) a) (pick (d % 2) a)
xor_pick b d a =
    ap (λ t. pick t a) (omega arith) ∙ pick_bits (b % 2) (d % 2) a (omega arith) (omega arith)

plain-xor_left :
    (k a c b r s : ℕ)
    → a < 256
    → c < 256
    → plain k (bit_xor a c) b (bit_xor r s) ≡ bit_xor (plain k a b r) (plain k c b s)
unfolding plain
plain-xor_left zero a c b r s h j = refl
plain-xor_left (suc k) a c b r s h j =
    ap (λ t. plain k (shift (bit_xor a c)) (b / 2) (bit_xor (bit_xor r s) t)) (pick_xor (b % 2) a c)
    ∙ ap (plain k (shift (bit_xor a c)) (b / 2))
        (xor_exchange r s (pick (b % 2) a) (pick (b % 2) c))
    ∙ ap
        (λ t. plain k t (b / 2) (bit_xor (bit_xor r (pick (b % 2) a)) (bit_xor s (pick (b % 2) c))))
        (shift-xor a c h j)
    ∙ plain-xor_left k (shift a) (shift c) (b / 2) (bit_xor r (pick (b % 2) a))
        (bit_xor s (pick (b % 2) c)) (shift_lt a h) (shift_lt c j)

plain-xor_right :
    (k a b d r s : ℕ)
    → plain k a (bit_xor b d) (bit_xor r s) ≡ bit_xor (plain k a b r) (plain k a d s)
unfolding plain
plain-xor_right zero a b d r s = refl
plain-xor_right (suc k) a b d r s =
    ap (λ t. plain k (shift a) t (bit_xor (bit_xor r s) (pick (bit_xor b d % 2) a))) (xor_half b d)
    ∙ ap (λ t. plain k (shift a) (bit_xor (b / 2) (d / 2)) (bit_xor (bit_xor r s) t))
        (ap (λ t. pick t a) (xor_low b d) ∙ xor_pick b d a)
    ∙ ap (plain k (shift a) (bit_xor (b / 2) (d / 2)))
        (xor_exchange r s (pick (b % 2) a) (pick (d % 2) a))
    ∙ plain-xor_right k (shift a) (b / 2) (d / 2) (bit_xor r (pick (b % 2) a))
        (bit_xor s (pick (d % 2) a))

mul-eq-plain : (a b : ℕ) → b < 256 → mul a b ≡ plain 8 a b 0
unfolding mul
mul-eq-plain a b h = mul_loop-eq-plain 8 a b 0 h

pub xor-mul :
    (a c b : ℕ) → a < 256 → c < 256 → b < 256 → mul (bit_xor a c) b ≡ bit_xor (mul a b) (mul c b)
xor-mul a c b h j l =
    rw (mul-eq-plain (bit_xor a c) b l, mul-eq-plain a b l, mul-eq-plain c b l)
      (plain-xor_left 8 a c b 0 0 h j)

pub mul-xor : (a b d : ℕ) → b < 256 → d < 256 → mul a (bit_xor b d) ≡ bit_xor (mul a b) (mul a d)
mul-xor a b d h j =
    rw (mul-eq-plain a (bit_xor b d) (xor_byte b d h j), mul-eq-plain a b h, mul-eq-plain a d j)
      (plain-xor_right 8 a b d 0 0)

plain_lt : (k a b r : ℕ) → a < 256 → r < 256 → plain k a b r < 256
unfolding plain
plain_lt zero a b r h j = j
plain_lt (suc k) a b r h j =
    plain_lt k (shift a) (b / 2) _ (shift_lt a h) (xor_byte r _ j (picks (b % 2)))
  where
    picks : (bit : ℕ) → pick bit a < 256
    picks zero = unfold pick in omega arith
    picks (suc bit) = unfold pick in h

pub mul_lt : (a b : ℕ) → a < 256 → b < 256 → mul a b < 256
mul_lt a b h j = rw (mul-eq-plain a b j) (plain_lt 8 a b 0 h (omega arith))
