-- ===== src/Threshold/Gf256/Laws.antt =====
-- The bytes are a field, under the operations of `mod gf256`.
use Prim.Native.Nat.{bit_xor}
use mathlib.Core.Path.{ap₂}
use zelana.Base.{
  ℕ, zero, suc, ◌<◌, ◌≤◌, ◌≡◌, ◌≢◌, refl, sym, ap, ◌∙◌, Bool, true, ◌&&◌, ◌||◌, if◌then◌else◌,
  nat_beq, nat_beq_iff, ltb, arith,
}
use zelana.Base.Xor.{xor_self}
use zelana.Threshold.Gf256.{mul}
use zelana.Threshold.Gf256.Checked.{all_bytes, all_bytes_sound}
use zelana.Threshold.Gf256.Linear.{xor-mul, mul-xor, mul_lt}

-- The highest bit of a byte.
top : ℕ → ℕ
top a =
    if ltb a 2
    then 1
    else if ltb a 4
    then 2
    else if ltb a 8
    then 4
    else if ltb a 16
    then 8
    else if ltb a 32
    then 16
    else if ltb a 64
    then 32
    else if ltb a 128
    then 64
    else 128

top_table :
    all_bytes 256 (λ a.
      nat_beq a 0 || (ltb (bit_xor (top a) a) a && nat_beq (bit_xor (top a) (bit_xor (top a) a)) a))
    ≡ true
unfolding all_bytes top
top_table = refl

-- A test that the eight single bits pass.
bits_pass : (ℕ → Bool) → Bool
bits_pass p = p 1 && (p 2 && (p 4 && (p 8 && (p 16 && (p 32 && (p 64 && p 128))))))

-- Additive functions that agree on the single bits agree on every byte.
-- The highest bit, and what is left, which is less.
top_split :
    (a : ℕ) → a < 256 → a ≢ 0 → (bit_xor (top a) a < a) × (bit_xor (top a) (bit_xor (top a) a) ≡ a)
top_split a h ne = ground (
  arith,
  all_bytes_sound 256
      (λ a.
        nat_beq a 0
        || (ltb (bit_xor (top a) a) a && nat_beq (bit_xor (top a) (bit_xor (top a) a)) a))
      a top_table h,
)

module _ (f g : ℕ → ℕ)
    (f_add : (a b : ℕ) → a < 256 → b < 256 → f (bit_xor a b) ≡ bit_xor (f a) (f b))
    (g_add : (a b : ℕ) → a < 256 → b < 256 → g (bit_xor a b) ≡ bit_xor (g a) (g b))
    (bits : bits_pass (λ a. nat_beq (f a) (g a)) ≡ true) where
  agree_top : (a : ℕ) → f (top a) ≡ g (top a)
  unfolding top bits_pass
  agree_top a = ground arith

  agree_zero : f 0 ≡ g 0
  agree_zero =
      f_add 0 0 (omega arith) (omega arith)
      ∙ xor_self (f 0)
      ∙ sym (g_add 0 0 (omega arith) (omega arith) ∙ xor_self (g 0))

  top_lt : (a : ℕ) → top a < 256
  unfolding top
  top_lt a = ground arith

  agree_upto : (n a : ℕ) → a ≤ n → a < 256 → f a ≡ g a
  agree_upto n zero h b = agree_zero
  agree_upto zero (suc a) h b = absurd (omega (arith, h))
  agree_upto (suc n) (suc a) h b =
      let smaller : (bit_xor (top (suc a)) (suc a) < suc a)
          × (bit_xor (top (suc a)) (bit_xor (top (suc a)) (suc a)) ≡ suc a) =
        top_split (suc a) b (omega arith) in
      ap f (sym smaller.1)
      ∙ f_add (top (suc a)) (bit_xor (top (suc a)) (suc a)) (top_lt (suc a))
          (omega (arith, smaller.0, b))
      ∙ ap₂ bit_xor (agree_top (suc a)) (
          agree_upto n (bit_xor (top (suc a)) (suc a)) (omega (arith, smaller.0, h))
            (omega (arith, smaller.0, b)))
      ∙ sym (
          ap g (sym smaller.1)
          ∙ g_add (top (suc a)) (bit_xor (top (suc a)) (suc a)) (top_lt (suc a))
              (omega (arith, smaller.0, b)))

  agree : (a : ℕ) → a < 256 → f a ≡ g a
  agree a h = agree_upto a a (omega arith) h

one_table : all_bytes 256 (λ a. nat_beq (mul a 1) a) ≡ true
unfolding all_bytes mul
one_table = refl

pub mul_one : (a : ℕ) → a < 256 → mul a 1 ≡ a
mul_one a h = (nat_beq_iff _ _).0 (all_bytes_sound 256 (λ a. nat_beq (mul a 1) a) a one_table h)

comm_table : all_bytes 256 (λ a. bits_pass (λ b. nat_beq (mul a b) (mul b a))) ≡ true
unfolding all_bytes bits_pass mul
comm_table = refl

pub mul_comm : (a b : ℕ) → a < 256 → b < 256 → mul a b ≡ mul b a
mul_comm a b h k =
    agree (mul a) (λ b. mul b a) (mul-xor a) (λ b c i j. xor-mul b c a i j h)
      (all_bytes_sound 256 (λ a. bits_pass (λ b. nat_beq (mul a b) (mul b a))) a comm_table h) b k

abbrev assoc_test : ℕ → ℕ → ℕ → Bool
assoc_test a b c = nat_beq (mul (mul a b) c) (mul a (mul b c))

assoc_table : bits_pass (λ c. bits_pass (λ b. bits_pass (λ a. assoc_test a b c))) ≡ true
unfolding bits_pass mul
assoc_table = refl

bits_pass_map :
    (p q : ℕ → Bool)
    → ((x : ℕ) → x < 256 → p x ≡ true → q x ≡ true)
    → bits_pass p ≡ true
    → bits_pass q ≡ true
unfolding bits_pass
bits_pass_map p q imp h =
    ground (arith, imp 1, imp 2, imp 4, imp 8, imp 16, imp 32, imp 64, imp 128)

assoc_left :
    (b c : ℕ)
    → b < 256
    → c < 256
    → bits_pass (λ a. assoc_test a b c) ≡ true
    → (a : ℕ) → a < 256
    → mul (mul a b) c ≡ mul a (mul b c)
assoc_left b c h k t =
    agree (λ a. mul (mul a b) c) (λ a. mul a (mul b c))
      (λ x y i j.
        ap (λ t. mul t c) (xor-mul x y b i j h)
        ∙ xor-mul (mul x b) (mul y b) c (mul_lt x b i h) (mul_lt y b j h) k)
      (λ x y i j. xor-mul x y (mul b c) i j (mul_lt b c h k)) t

assoc_middle :
    (a c : ℕ)
    → a < 256
    → c < 256
    → bits_pass (λ b. assoc_test a b c) ≡ true
    → (b : ℕ) → b < 256
    → mul (mul a b) c ≡ mul a (mul b c)
assoc_middle a c h k t =
    agree (λ b. mul (mul a b) c) (λ b. mul a (mul b c))
      (λ x y i j.
        ap (λ t. mul t c) (mul-xor a x y i j)
        ∙ xor-mul (mul a x) (mul a y) c (mul_lt a x h i) (mul_lt a y h j) k)
      (λ x y i j.
        ap (mul a) (xor-mul x y c i j k)
        ∙ mul-xor a (mul x c) (mul y c) (mul_lt x c i k) (mul_lt y c j k))
      t

assoc_right :
    (a b : ℕ)
    → a < 256
    → b < 256
    → bits_pass (λ c. assoc_test a b c) ≡ true
    → (c : ℕ) → c < 256
    → mul (mul a b) c ≡ mul a (mul b c)
assoc_right a b h k t =
    agree (λ c. mul (mul a b) c) (λ c. mul a (mul b c)) (λ x y i j. mul-xor (mul a b) x y i j)
      (λ x y i j.
        ap (mul a) (mul-xor b x y i j)
        ∙ mul-xor a (mul b x) (mul b y) (mul_lt b x k i) (mul_lt b y k j))
      t

pub mul_assoc : (a b c : ℕ) → a < 256 → b < 256 → c < 256 → mul (mul a b) c ≡ mul a (mul b c)
mul_assoc a b c h j k =
    assoc_right a b h j
      (bits_pass_map _ _
        (λ z hz. λ tz. (nat_beq_iff _ _).1 (
          assoc_middle a z h hz
            (bits_pass_map _ _ (λ y hy. λ ty. (nat_beq_iff _ _).1 (assoc_left y z hy hz ty a h)) tz)
            b j))
        assoc_table)
      c k
