-- ===== src/AccountTree/Mimc.antt =====
-- The MiMC hash of core/src/sequencer/storage/account_tree.rs. A `BigUint` is a natural number.
use zelana.Base.{ℕ, zero, suc, ◌+◌, ◌*◌, ◌%◌, ◌<◌, ◌^◌, ◌≡◌, refl, List, [], ◌∷◌, arith}

-- The BN254 scalar field modulus.
unfoldable pub bn254_modulus : ℕ
bn254_modulus = 21888242871839275222246405745257275088548364400416034343698204186575808495617

abbrev mimc_rounds : ℕ
mimc_rounds = 91

unfoldable pub round_constant : ℕ → ℕ
round_constant i =
    let idx = i + 1 in
    let idx_cubed = idx * idx * idx % bn254_modulus in (idx_cubed + idx) % bn254_modulus

unfoldable pub mimc_round : ℕ → ℕ → ℕ → ℕ → ℕ
mimc_round x k c modulus =
    let t = (x + k + c) % modulus in
    let t2 = t * t % modulus in
    let t4 = t2 * t2 % modulus in let t6 = t4 * t2 % modulus in t6 * t % modulus

-- The rounds `i`, `i + 1`, …, as many as are left.
unfoldable pub permute_from : ℕ → ℕ → ℕ → ℕ → ℕ
permute_from zero i state k = state
permute_from (suc left) i state k =
    permute_from left (i + 1) (mimc_round state k (round_constant i) bn254_modulus) k

unfoldable pub mimc_permute : ℕ → ℕ → ℕ
mimc_permute x k = (permute_from mimc_rounds 0 x k + k) % bn254_modulus

unfoldable pub mimc_sponge_absorb : List ℕ → ℕ → ℕ
mimc_sponge_absorb [] state = state
mimc_sponge_absorb (input ∷ inputs) state =
    mimc_sponge_absorb inputs (mimc_permute ((state + input) % bn254_modulus) 0)

unfoldable pub mimc_hash_2 : ℕ → ℕ → ℕ
mimc_hash_2 left right = mimc_sponge_absorb (2 ∷ left ∷ right ∷ []) 0

unfoldable pub mimc_hash_4 : ℕ → ℕ → ℕ → ℕ → ℕ
mimc_hash_4 a b c d = mimc_sponge_absorb (4 ∷ a ∷ b ∷ c ∷ d ∷ []) 0

abbrev domain_account : ℕ
domain_account = 1

unfoldable pub compute_account_leaf : ℕ → ℕ → ℕ → ℕ
compute_account_leaf pubkey balance nonce =
    mimc_sponge_absorb (4 ∷ domain_account ∷ pubkey ∷ balance ∷ nonce ∷ []) 0

pub modulus_pos : 0 < bn254_modulus
unfolding bn254_modulus
modulus_pos = omega arith

pub modulus-lt : bn254_modulus < 2 ^ 256
unfolding bn254_modulus
modulus-lt = omega arith

permute-lt : (x k : ℕ) → mimc_permute x k < bn254_modulus
unfolding mimc_permute
permute-lt x k = omega (arith, modulus_pos)

-- A sponge that has absorbed something ends below the modulus.
absorb-lt :
    (xs : List ℕ) (state : ℕ) → state < bn254_modulus → mimc_sponge_absorb xs state < bn254_modulus
unfolding mimc_sponge_absorb
absorb-lt [] state h = h
absorb-lt (x ∷ xs) state h = absorb-lt xs _ (permute-lt _ 0)

pub hash_2-lt : (l r : ℕ) → mimc_hash_2 l r < bn254_modulus
unfolding mimc_hash_2
hash_2-lt l r = absorb-lt _ 0 modulus_pos

pub account_leaf-lt : (k b n : ℕ) → compute_account_leaf k b n < bn254_modulus
unfolding compute_account_leaf
account_leaf-lt k b n = absorb-lt _ 0 modulus_pos

pub mimc_hash_4-lt : (a b c d : ℕ) → mimc_hash_4 a b c d < bn254_modulus
unfolding mimc_hash_4
mimc_hash_4-lt a b c d = absorb-lt _ 0 modulus_pos

-- The first round constant is 1³ + 1.
round_constant_zero : round_constant 0 ≡ 2
unfolding round_constant bn254_modulus
round_constant_zero = refl
