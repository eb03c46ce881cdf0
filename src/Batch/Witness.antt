-- ===== src/Batch/Witness.antt =====
-- The data that the prover works on (core/src/sequencer/settlement/prover.rs).
use zelana.Base.{ℕ, List, Bytes}
use zelana.Router.Types.{TransactionType, TxResult}

pub record BatchPublicInputs : Type 0 where
  pub pre_state_root : Bytes
  pub post_state_root : Bytes
  pub pre_shielded_root : Bytes
  pub post_shielded_root : Bytes
  pub withdrawal_root : Bytes
  pub batch_hash : Bytes
  pub batch_id : ℕ

pub record AccountStateSnapshot : Type 0 where
  pub account_id : Bytes
  pub balance : ℕ
  pub nonce : ℕ
  pub merkle_proof : List Bytes
  pub path_indices : List ℕ
  pub position : ℕ

pub record TransferWitnessData : Type 0 where
  pub sender_pubkey : Bytes
  pub sender_balance : ℕ
  pub sender_nonce : ℕ
  pub sender_merkle_path : List Bytes
  pub sender_path_indices : List ℕ
  pub receiver_pubkey : Bytes
  pub receiver_balance : ℕ
  pub receiver_nonce : ℕ
  pub receiver_merkle_path : List Bytes
  pub receiver_path_indices : List ℕ
  pub amount : ℕ
  pub signature : Bytes

pub record WithdrawalWitnessData : Type 0 where
  pub sender_pubkey : Bytes
  pub sender_balance : ℕ
  pub sender_nonce : ℕ
  pub sender_merkle_path : List Bytes
  pub sender_path_indices : List ℕ
  pub l1_recipient : Bytes
  pub amount : ℕ
  pub signature : Bytes

pub record BatchWitness : Type 0 where
  pub transactions : List TransactionType
  pub results : List TxResult
  pub pre_account_states : List AccountStateSnapshot
  pub transfer_witnesses : List TransferWitnessData
  pub withdrawal_witnesses : List WithdrawalWitnessData
