-- ===== src/Base/Xor.antt =====
-- `^` on unsigned integers: the laws of exclusive or, from its recursion on binary digits.
use Prim.Native.Nat.{
  ℕ, zero, suc, ◌+◌, ◌*◌, ◌/◌, ◌%◌, ◌≤◌, ◌<◌, bit_xor, differ, digits, bit_xor-bitwise,
}
use mathlib.Core.Path.{◌≡◌, refl, sym, ap, ◌∙◌}
use native.Mathlib.Omega.{arith}

abbrev xor_digits : ℕ → ℕ → ℕ → ℕ
xor_digits rounds a b = digits (λ rest. rest) differ rounds a b

-- Any number of rounds that the first number allows gives the same.
xor_rounds : (k j a b : ℕ) → a ≤ k → a ≤ j → xor_digits k a b ≡ xor_digits j a b
xor_rounds zero zero zero b p q = refl
xor_rounds zero (suc j) zero b p q = refl
xor_rounds (suc k) zero zero b p q = refl
xor_rounds (suc k) (suc j) zero b p q = refl
xor_rounds zero j (suc a) b p q = absurd (omega (arith, p))
xor_rounds (suc k) zero (suc a) b p q = absurd (omega (arith, q))
xor_rounds (suc k) (suc j) (suc a) b p q =
    ap (λ t. t * 2 + differ (suc a % 2) (b % 2))
      (xor_rounds k j (suc a / 2) (b / 2) (omega (arith, p)) (omega (arith, q)))

zero_xor : (b : ℕ) → bit_xor 0 b ≡ b
zero_xor b = bit_xor-bitwise 0 b

xor_digit : (a b : ℕ) → bit_xor a b ≡ bit_xor (a / 2) (b / 2) * 2 + differ (a % 2) (b % 2)
xor_digit zero b = ground (arith, zero_xor b, zero_xor (b / 2))
xor_digit (suc a) b =
    bit_xor-bitwise (suc a) b
    ∙ ap (λ t. t * 2 + differ (suc a % 2) (b % 2))
        (xor_rounds a (suc a / 2) (suc a / 2) (b / 2) (omega arith) (omega arith)
          ∙ sym (bit_xor-bitwise (suc a / 2) (b / 2)))

-- On two digits, exclusive or is the sum without its carry.
differ_sum : (p q : ℕ) → p < 2 → q < 2 → differ p q ≡ (p + q) % 2
differ_sum zero q h k = omega (arith, k)
differ_sum (suc zero) zero h k = refl
differ_sum (suc zero) (suc zero) h k = refl
differ_sum (suc zero) (suc (suc q)) h k = absurd (omega (arith, k))
differ_sum (suc (suc p)) q h k = absurd (omega (arith, h))

-- The lowest digit of the result, and the others.
pub xor-digit : (a b : ℕ) → bit_xor a b ≡ bit_xor (a / 2) (b / 2) * 2 + (a + b) % 2
xor-digit a b =
    xor_digit a b ∙ omega (arith, differ_sum (a % 2) (b % 2) (omega arith) (omega arith))

pub xor_half : (a b : ℕ) → bit_xor a b / 2 ≡ bit_xor (a / 2) (b / 2)
xor_half a b = omega (arith, xor-digit a b)

pub xor_low : (a b : ℕ) → bit_xor a b % 2 ≡ (a + b) % 2
xor_low a b = omega (arith, xor-digit a b)

xor_comm_upto : (n a b : ℕ) → a + b ≤ n → bit_xor a b ≡ bit_xor b a
xor_comm_upto zero zero zero h = refl
xor_comm_upto zero (suc a) b h = absurd (omega (arith, h))
xor_comm_upto zero zero (suc b) h = absurd (omega (arith, h))
xor_comm_upto (suc n) a b h =
    omega (arith, xor-digit a b, xor-digit b a, xor_comm_upto n (a / 2) (b / 2) (omega (arith, h)))

pub xor_comm : (a b : ℕ) → bit_xor a b ≡ bit_xor b a
xor_comm a b = xor_comm_upto (a + b) a b (omega arith)

pub xor_zero : (a : ℕ) → bit_xor a 0 ≡ a
xor_zero a = xor_comm a 0 ∙ zero_xor a

xor_self_upto : (n a : ℕ) → a ≤ n → bit_xor a a ≡ 0
xor_self_upto zero zero h = refl
xor_self_upto zero (suc a) h = absurd (omega (arith, h))
xor_self_upto (suc n) a h = omega (arith, xor-digit a a, xor_self_upto n (a / 2) (omega (arith, h)))

pub xor_self : (a : ℕ) → bit_xor a a ≡ 0
xor_self a = xor_self_upto a a (omega arith)

xor_assoc_upto : (n a b c : ℕ) → a + b + c ≤ n → bit_xor (bit_xor a b) c ≡ bit_xor a (bit_xor b c)
xor_assoc_upto zero zero b c h = rw (zero_xor b, zero_xor (bit_xor b c)) refl
xor_assoc_upto zero (suc a) b c h = absurd (omega (arith, h))
xor_assoc_upto (suc n) a b c h = omega (
  arith,
  xor-digit (bit_xor a b) c
      ∙ ap (λ t. bit_xor t (c / 2) * 2 + (bit_xor a b + c) % 2) (xor_half a b),
  xor-digit a (bit_xor b c)
      ∙ ap (λ t. bit_xor (a / 2) t * 2 + (a + bit_xor b c) % 2) (xor_half b c),
  xor_low a b,
  xor_low b c,
  xor_assoc_upto n (a / 2) (b / 2) (c / 2) (omega (arith, h)),
)

pub xor_assoc : (a b c : ℕ) → bit_xor (bit_xor a b) c ≡ bit_xor a (bit_xor b c)
xor_assoc a b c = xor_assoc_upto (a + b + c) a b c (omega arith)

-- Exclusive or adds no digits.
abbrev pub doubled : ℕ → ℕ
doubled zero = 1
doubled (suc k) = 2 * doubled k

pub xor_lt : (k a b : ℕ) → a < doubled k → b < doubled k → bit_xor a b < doubled k
xor_lt zero zero zero p q = omega arith
xor_lt zero zero (suc b) p q = absurd (omega (arith, q))
xor_lt zero (suc a) b p q = absurd (omega (arith, p))
xor_lt (suc k) a b p q =
    omega (arith, xor-digit a b, xor_lt k (a / 2) (b / 2) (omega (arith, p)) (omega (arith, q)))
