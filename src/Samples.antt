-- ===== src/Samples.antt =====
-- Concrete instances of the parameters, and small values, for the tests.
use zelana.Base.{
  ℕ, zero, suc, ◌+◌, ◌*◌, ◌/◌, ◌%◌, ◌<◌, ◌≤◌, ◌^◌, ◌≡◌, refl, true, some, [], ◌∷◌, ◌++◌, Bytes,
  length, replicate, nat_beq, if◌then◌else◌, length-append, arith, Bool-cases, inl, inr,
}
use zelana.AccountTree.Codec.{BigBytes}
use zelana.Account.{AccountId, AccountState}
use zelana.Shielded.{Poseidon}
use zelana.Router.Signature.{Crypto}

-- The digits of a number to the base 256, the most significant one first, none of them for 0; fuel
-- that is at least the number is enough.
unfoldable pub digits : ℕ → ℕ → Bytes
digits zero n = []
digits (suc fuel) n =
    let rest = digits fuel (n / 256) in if nat_beq n 0 then [] else rest ++ n % 256 ∷ []

unfoldable pub read : ℕ → Bytes → ℕ
read acc [] = acc
read acc (b ∷ bs) = read (acc * 256 + b) bs

pub read-zero : (bs : Bytes) → read 0 (0 ∷ bs) ≡ read 0 bs
unfolding read
read-zero bs = refl

read-append : (acc d : ℕ) (bs : Bytes) → read acc (bs ++ d ∷ []) ≡ read acc bs * 256 + d
unfolding read
read-append acc d [] = refl
read-append acc d (b ∷ bs) = read-append (acc * 256 + b) d bs

pub read-digits : (fuel n : ℕ) → n ≤ fuel → read 0 (digits fuel n) ≡ n
unfolding read digits
read-digits zero n h = omega arith
read-digits (suc fuel) n h = elim (Bool-cases (nat_beq n 0)) [
  | inl e ↦ ground arith
  | inr e ↦ ground (
    arith,
    read-append 0 (n % 256) (digits fuel (n / 256)),
    read-digits fuel (n / 256) (ground arith),
  )
]

pub length-digits : (k fuel n : ℕ) → n < 256 ^ k → length (digits fuel n) ≤ k
unfolding digits
length-digits k zero n h = omega arith
length-digits zero (suc fuel) n h = ground arith
length-digits (suc k) (suc fuel) n h = ground (
  arith,
  length-append (digits fuel (n / 256)) (n % 256 ∷ []),
  length-digits k fuel (n / 256) (omega arith),
)

abbrev pub big_bytes : BigBytes
big_bytes = record {
  from_bytes_be = read 0;
  to_bytes_be = λ n. digits n n;
  from-to = λ n. read-digits n n (omega arith);
  from-zero = read-zero;
  to-short = λ n h. length-digits 32 n n h;
}

-- A sponge that keeps its inputs apart.
abbrev pub poseidon : Poseidon
poseidon = record { sponge = λ l r. length l ∷ (l ++ r); empty_leaf = replicate 32 0 }

-- Every signature is good, and texts and hashes are the bytes themselves.
abbrev pub crypto : Crypto
crypto = record {
  valid_key = λ k. true;
  verify = λ k m s. true;
  hex_encode = λ b. b;
  bs58_encode = λ b. b;
  serialize = λ d. some [];
  blake3 = λ b. b;
}

-- Two 32-byte identifiers that differ in the last byte.
abbrev pub alice : AccountId
alice =
    1 ∷ 2 ∷ 3 ∷ 4 ∷ 0 ∷ 0 ∷ 0 ∷ 0 ∷ 0 ∷ 0 ∷ 0 ∷ 0 ∷ 0 ∷ 0 ∷ 0 ∷ 0 ∷ 0 ∷ 0 ∷ 0 ∷ 0 ∷ 0 ∷ 0 ∷ 0 ∷ 0
    ∷ 0 ∷ 0 ∷ 0 ∷ 0 ∷ 0 ∷ 0 ∷ 0 ∷ 1 ∷ []

abbrev pub bob : AccountId
bob =
    1 ∷ 2 ∷ 3 ∷ 4 ∷ 0 ∷ 0 ∷ 0 ∷ 0 ∷ 0 ∷ 0 ∷ 0 ∷ 0 ∷ 0 ∷ 0 ∷ 0 ∷ 0 ∷ 0 ∷ 0 ∷ 0 ∷ 0 ∷ 0 ∷ 0 ∷ 0 ∷ 0
    ∷ 0 ∷ 0 ∷ 0 ∷ 0 ∷ 0 ∷ 0 ∷ 0 ∷ 2 ∷ []

abbrev pub rich : AccountState
rich = record { balance = 100; nonce = 0 }
