-- ===== src/Router/Types.antt =====
-- The transactions of sdk/transaction, and the results, the diff and the state of
-- core/src/sequencer/execution/tx_router.rs. Amounts, balances and nonces are `u64`.
use zelana.Base.{ℕ, Bool, Option, List, [], Bytes}
use zelana.Base.Dict.{Dict}
use zelana.Account.{AccountId, AccountState}
use zelana.AccountTree.{AccountTree}
use zelana.Shielded.{Commitment, Nullifier, ShieldedState}

pub record TransactionData : Type 0 where
  pub from : AccountId
  pub to : AccountId
  pub amount : ℕ
  pub nonce : ℕ
  pub chain_id : ℕ

pub record SignedTransaction : Type 0 where
  pub tx_data : TransactionData
  pub signature : Bytes
  pub signer_pubkey : Bytes

pub record DepositEvent : Type 0 where
  pub to : AccountId
  pub amount : ℕ
  pub l1_seq : ℕ

pub record WithdrawRequest : Type 0 where
  pub from : AccountId
  pub to_l1_address : Bytes
  pub amount : ℕ
  pub nonce : ℕ
  pub signature : Bytes
  pub signer_pubkey : Bytes

pub record PrivateTransaction : Type 0 where
  pub proof : Bytes
  pub nullifier : Nullifier
  pub commitment : Commitment
  pub ciphertext : Bytes
  pub ephemeral_key : Bytes
  pub nonce : Option Bytes
  pub shield_from : Option AccountId
  pub shield_amount : Option ℕ
  pub unshield_to : Option AccountId
  pub unshield_amount : Option ℕ

pub data TransactionType : Type 0 where
  shielded : PrivateTransaction → TransactionType
  transfer : SignedTransaction → TransactionType
  deposit : DepositEvent → TransactionType
  withdraw : WithdrawRequest → TransactionType

pub record EncryptedNote : Type 0 where
  pub ephemeral_pk : Bytes
  pub nonce : Bytes
  pub ciphertext : Bytes

-- The errors that `bail!` and `context` raise.
pub data Error : Type 0 where
  invalid_public_key invalid_signature_length from_mismatch serialize_failed : Error
  signature_failed insufficient_balance invalid_nonce : Error
  nullifier_spent nullifier_double_spent missing_proof shield_insufficient : Error
  nullifier_not_marked : Error

pub data TxResultType : Type 0 where
  shielded_result : Nullifier → Commitment → ℕ → TxResultType
  transfer_result : AccountId → AccountId → ℕ → TxResultType
  deposit_result : AccountId → ℕ → TxResultType
  withdrawal_result : AccountId → Bytes → ℕ → TxResultType

-- `error` is `none` exactly in a success.
pub record TxResult : Type 0 where
  pub tx_hash : Bytes
  pub tx_type : TxResultType
  pub success : Bool
  pub error : Option Error

pub record PendingWithdrawal : Type 0 where
  pub tx_hash : Bytes
  pub from : AccountId
  pub to_l1_address : Bytes
  pub amount : ℕ
  pub l2_nonce : ℕ

pub record ShieldedStateDiff : Type 0 where
  pub new_commitments : List (ℕ × Commitment × EncryptedNote)
  pub spent_nullifiers : List Nullifier

pub record BatchDiff : Type 0 where
  pub account_updates : Dict AccountId AccountState
  pub shielded_diff : ShieldedStateDiff
  pub withdrawals : List PendingWithdrawal
  pub results : List TxResult

abbrev pub default_diff : BatchDiff
default_diff = record {
  account_updates = [];
  shielded_diff = record { new_commitments = []; spent_nullifiers = [] };
  withdrawals = [];
  results = [];
}

-- The column families of `RocksDbStore` that the router reads and writes.
pub record Store : Type 0 where
  pub accounts : Dict AccountId AccountState
  pub nullifiers : List Nullifier
  pub commitments : Dict ℕ Commitment
  pub encrypted_notes : Dict Commitment EncryptedNote
  pub withdrawals : Dict Bytes PendingWithdrawal
  pub withdrawals_total : ℕ

pub record TxRouter : Type 0 where
  pub db : Store
  pub account_cache : Dict AccountId AccountState
  pub shielded_state : ShieldedState
  pub account_tree : AccountTree

-- A handler works on the router and on the diff of the batch.
pub record State : Type 0 where
  pub router : TxRouter
  pub diff : BatchDiff
