-- ===== src/Withdrawals/Root.antt =====
-- The Merkle root of a batch's withdrawals (core/src/sequencer/bridge/withdrawals.rs,
-- `build_withdrawal_merkle_root`). `none` stands for a panic: an index out of range.
use zelana.Base.{
  ℕ, zero, suc, ◌+◌, Option, none, some, List, [], ◌∷◌, ◌++◌, Bytes, length, map, replicate, leb,
  if◌then◌else◌, ◌-◌,
}
use zelana.Base.Text.{to_le_bytes}
use zelana.Router.Signature.{Crypto}
use zelana.Withdrawals.{TrackedWithdrawal}

-- The least power of two, from `p` on, that reaches `n`.
unfoldable pub grow_power : ℕ → ℕ → ℕ → ℕ
grow_power zero p n = p
grow_power (suc fuel) p n = let rest = grow_power fuel (p + p) n in if leb n p then p else rest

abbrev pub next_power_of_two : ℕ → ℕ
next_power_of_two n = grow_power n 1 n

abbrev pub zero_hash : Bytes
zero_hash = replicate 32 0

-- The loop that pads the leaves.
abbrev pub pad : List Bytes → List Bytes
pad leaves = leaves ++ replicate (next_power_of_two (length leaves) - length leaves) zero_hash

module _ (C : Crypto) where
  abbrev pub withdrawal_leaf : TrackedWithdrawal → Bytes
  withdrawal_leaf w = C.blake3 (w.tx_hash ++ (w.to_l1_address ++ to_le_bytes 8 w.amount))

  -- One round of the loop; a chunk of one leaf has no second one.
  unfoldable pub next_level : List Bytes → Option (List Bytes)
  next_level [] = some []
  next_level (a ∷ []) = none
  next_level (a ∷ b ∷ leaves) = elim (next_level leaves) [
    | none ↦ none
    | some level ↦ some (C.blake3 (a ++ b) ∷ level)
  ]

  -- `while leaves.len() > 1`; fuel that is the number of leaves is enough.
  unfoldable pub build_tree : ℕ → List Bytes → Option Bytes
  build_tree fuel [] = none
  build_tree fuel (a ∷ []) = some a
  build_tree zero (a ∷ b ∷ leaves) = none
  build_tree (suc fuel) (a ∷ b ∷ leaves) = elim (next_level (a ∷ b ∷ leaves)) [
    | none ↦ none
    | some level ↦ build_tree fuel level
  ]

  unfoldable pub build_withdrawal_merkle_root : List TrackedWithdrawal → Option Bytes
  build_withdrawal_merkle_root [] = some zero_hash
  build_withdrawal_merkle_root (w ∷ ws) =
      let leaves = pad (map withdrawal_leaf (w ∷ ws)) in build_tree (length leaves) leaves
