-- ===== src/AccountTree/Codec.antt =====
-- Field elements and 32-byte arrays (core/src/sequencer/storage/account_tree.rs). The byte
-- conversions of the big-integer library are a parameter, with their documented laws.
use zelana.Base.{
  ℕ, zero, suc, ◌-◌, ◌%◌, ◌<◌, ◌≤◌, ◌^◌, ◌≡◌, refl, ap, ◌∷◌, ◌++◌, Bytes, length, replicate,
  length-append, length-replicate, arith,
}
use zelana.AccountTree.Mimc.{bn254_modulus, modulus-lt, mimc_hash_2, hash_2-lt}
use native.Mathlib.Nat.{mod-eq_of_lt, lt_trans}

-- `BigUint::from_bytes_be` and `BigUint::to_bytes_be`: big-endian, with no superfluous zeros.
pub record BigBytes : Type 0 where
  pub from_bytes_be : Bytes → ℕ
  pub to_bytes_be : ℕ → Bytes
  pub from-to : (n : ℕ) → from_bytes_be (to_bytes_be n) ≡ n
  pub from-zero : (bs : Bytes) → from_bytes_be (0 ∷ bs) ≡ from_bytes_be bs
  pub to-short : (n : ℕ) → n < 2 ^ 256 → length (to_bytes_be n) ≤ 32

module _ (B : BigBytes) where
  unfoldable pub bytes_to_field : Bytes → ℕ
  bytes_to_field bytes = B.from_bytes_be bytes % bn254_modulus

  -- The digits, after as many zeros as fill the array.
  unfoldable pub field_to_bytes : ℕ → Bytes
  field_to_bytes field = let bytes = B.to_bytes_be field in replicate (32 - length bytes) 0 ++ bytes

  from_bytes-pad :
      (n : ℕ) (bytes : Bytes) → B.from_bytes_be (replicate n 0 ++ bytes) ≡ B.from_bytes_be bytes
  from_bytes-pad zero bytes = refl
  from_bytes-pad (suc n) bytes = rw (B.from-zero (replicate n 0 ++ bytes), from_bytes-pad n bytes)

  -- Reading back a number below the modulus that was written to bytes gives the number.
  pub bytes_to_field-field_to_bytes :
      (x : ℕ) → x < bn254_modulus → bytes_to_field (field_to_bytes x) ≡ x
  unfolding bytes_to_field field_to_bytes
  bytes_to_field-field_to_bytes x h =
      rw (from_bytes-pad _ (B.to_bytes_be x), B.from-to x) (mod-eq_of_lt h)

  -- A field element always fills its 32 bytes.
  pub length-field_to_bytes : (x : ℕ) → x < bn254_modulus → length (field_to_bytes x) ≡ 32
  unfolding field_to_bytes
  length-field_to_bytes x h = omega (
    arith,
    modulus-lt,
    B.to-short x (lt_trans h modulus-lt),
    length-append (replicate (32 - length (B.to_bytes_be x)) 0) (B.to_bytes_be x),
    length-replicate {0} {A = ℕ} (32 - length (B.to_bytes_be x)) 0,
  )

  -- The hash of two nodes as the update loop takes it.
  unfoldable pub node_hash : Bytes → Bytes → Bytes
  node_hash left right = field_to_bytes (mimc_hash_2 (bytes_to_field left) (bytes_to_field right))

  pub bytes_to_field-node_hash :
      (l r : Bytes)
      → bytes_to_field (node_hash l r) ≡ mimc_hash_2 (bytes_to_field l) (bytes_to_field r)
  unfolding node_hash
  bytes_to_field-node_hash l r = bytes_to_field-field_to_bytes _ (hash_2-lt _ _)

  -- A node's bytes are those of a field element.
  pub field_to_bytes-node_hash :
      (l r : Bytes) → field_to_bytes (bytes_to_field (node_hash l r)) ≡ node_hash l r
  unfolding node_hash
  field_to_bytes-node_hash l r = ap field_to_bytes (bytes_to_field-field_to_bytes _ (hash_2-lt _ _))
