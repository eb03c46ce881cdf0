-- ===== src/AccountTree/BatchHash.antt =====
-- The withdrawal root and the hash of a batch, as the circuit computes them for a batch without
-- transactions (core/src/sequencer/storage/account_tree.rs).
use zelana.Base.{ℕ, ◌≡◌, Bytes, length}
use zelana.AccountTree.Mimc.{mimc_hash_2, mimc_hash_4-lt, mimc_hash_4, hash_2-lt}
use zelana.AccountTree.Codec.{BigBytes, field_to_bytes, length-field_to_bytes}

abbrev domain_withdrawal : ℕ
domain_withdrawal = 5

abbrev domain_batch : ℕ
domain_batch = 4

module _ (B : BigBytes) where
  unfoldable pub compute_withdrawal_root_mimc : ℕ → ℕ → Bytes
  compute_withdrawal_root_mimc batch_id num_withdrawals =
      let wd_acc = mimc_hash_2 domain_withdrawal batch_id in
      field_to_bytes B (mimc_hash_2 wd_acc num_withdrawals)

  unfoldable compute_batch_hash_mimc : ℕ → ℕ → ℕ → ℕ → Bytes
  compute_batch_hash_mimc batch_id num_transfers num_withdrawals num_shielded =
      let batch_acc = mimc_hash_2 domain_batch batch_id in
      field_to_bytes B (mimc_hash_4 batch_acc num_transfers num_withdrawals num_shielded)

  length-compute_withdrawal_root_mimc :
      (batch_id n : ℕ) → length (compute_withdrawal_root_mimc batch_id n) ≡ 32
  unfolding compute_withdrawal_root_mimc
  length-compute_withdrawal_root_mimc batch_id n = length-field_to_bytes B _ (hash_2-lt _ _)

  length-compute_batch_hash_mimc :
      (batch_id t w s : ℕ) → length (compute_batch_hash_mimc batch_id t w s) ≡ 32
  unfolding compute_batch_hash_mimc
  length-compute_batch_hash_mimc batch_id t w s = length-field_to_bytes B _ (mimc_hash_4-lt _ _ _ _)
