-- ===== src/Threshold/Shares.antt =====
-- Shamir's secret sharing (sdk/threshold/src/shares.rs), byte by byte.
pub mod Weights
pub mod Combine
pub mod Polynomials
pub mod Recover
use Prim.Native.Nat.{bit_xor}
use zelana.Base.{
  ℕ, zero, suc, ◌+◌, ◌-◌, Bool, true, false, ◌||◌, List, [], ◌∷◌, map, Bytes, length, get_or, take,
  ltb, nat_beq, if◌then◌else◌,
}
use zelana.Threshold.Gf256.{mul, div}

pub record Share : Type 0 where
  -- from 1 to the number of shares
  pub id : ℕ
  pub value : Bytes

pub data ThresholdError : Type 0 where
  -- the number there is, the number that is needed
  insufficient_shares : ℕ → ℕ → ThresholdError
  -- k, n
  invalid_threshold : ℕ → ℕ → ThresholdError
  decryption_failed : ThresholdError

pub data Result {ℓ} (A : Type ℓ) : Type ℓ where
  ok : A → Result A
  err : ThresholdError → Result A

-- `1..=total`
unfoldable pub ids_from : ℕ → ℕ → List ℕ
ids_from id zero = []
ids_from id (suc more) = id ∷ ids_from (suc id) more

-- The loop that adds the terms after the constant: `y ^= coeff * x_pow; x_pow *= x`.
unfoldable pub add_terms : ℕ → Bytes → ℕ → ℕ → ℕ
add_terms x [] y x_pow = y
add_terms x (coeff ∷ coeffs) y x_pow =
    add_terms x coeffs (bit_xor y (mul coeff x_pow)) (mul x_pow x)

-- The random bytes of the coefficients from one on, for the byte at an index.
unfoldable pub random_coeffs : (ℕ → ℕ) → ℕ → ℕ → Bytes
random_coeffs random first zero = []
random_coeffs random first (suc more) = random first ∷ random_coeffs random (suc first) more

module _ (random : ℕ → ℕ → ℕ) where
  -- The value of a share: its polynomials of the secret's bytes at its identifier. The bytes are
  -- independent, so that each share is filled in turn and not all of them byte by byte.
  unfoldable pub share_bytes : ℕ → ℕ → ℕ → Bytes → Bytes
  unfolding add_terms random_coeffs
  share_bytes threshold id byte_idx [] = []
  share_bytes threshold id byte_idx (s ∷ secret) =
      add_terms id (random_coeffs (random byte_idx) 1 (threshold - 1)) s id
      ∷ share_bytes threshold id (suc byte_idx) secret

  abbrev pub share_of : ℕ → Bytes → ℕ → Share
  share_of threshold secret id = record { id = id; value = share_bytes threshold id 0 secret }

  unfoldable pub split_secret : Bytes → ℕ → ℕ → Result (List Share)
  unfolding ids_from share_bytes
  split_secret secret threshold total =
      if ltb total threshold || (nat_beq threshold 0 || (nat_beq total 0 || ltb 255 total))
      then err (invalid_threshold threshold total)
      else ok (map (share_of threshold secret) (ids_from 1 total))

-- The numerator and the denominator of the basis polynomial of the share at `i`, at zero.
unfoldable pub basis : ℕ → ℕ → ℕ → List Share → ℕ → ℕ → ℕ × ℕ
basis xi i j [] numerator denominator = (numerator, denominator)
basis xi i j (share_j ∷ shares) numerator denominator =
    basis xi i (suc j) shares (if nat_beq i j then numerator else mul numerator share_j.id)
      (if nat_beq i j then denominator else mul denominator (bit_xor xi share_j.id))

unfoldable pub combine_byte : ℕ → List Share → ℕ → List Share → ℕ → ℕ
unfolding basis
combine_byte byte_idx all i [] result = result
combine_byte byte_idx all i (share_i ∷ shares) result =
    let (numerator, denominator) = basis share_i.id i 0 all 1 1 in
    let li = div numerator denominator in
    combine_byte byte_idx all (suc i) shares
      (bit_xor result (mul (get_or share_i.value byte_idx 0) li))

unfoldable pub combine_bytes : List Share → ℕ → ℕ → Bytes
unfolding combine_byte
combine_bytes shares byte_idx zero = []
combine_bytes shares byte_idx (suc more) =
    combine_byte byte_idx shares 0 shares 0 ∷ combine_bytes shares (suc byte_idx) more

unfoldable pub combine_shares : List Share → ℕ → Result Bytes
unfolding combine_bytes
combine_shares shares threshold =
    if ltb (length shares) threshold
    then err (insufficient_shares (length shares) threshold)
    else ok (combine_bytes (take threshold shares) 0 32)
