-- ===== src/Batch.antt =====
-- core/src/sequencer/execution/batch.rs: a batch and its life cycle. Times are numbers of seconds,
-- and the time of a call is an argument.
pub mod Witness
use zelana.Base.{
  ℕ, ◌+◌, ◌-◌, Bool, true, false, ◌&&◌, ◌||◌, Option, none, some, List, [], ◌∷◌, ◌++◌, Bytes,
  length, leb,
}
use zelana.Router.Types.{
  TransactionType, TxResult, BatchDiff, shielded, transfer, deposit, withdraw,
}
use Witness.{BatchWitness}

pub record BatchConfig : Type 0 where
  pub max_transactions : ℕ
  pub max_batch_age_secs : ℕ
  pub max_shielded : ℕ
  pub min_transactions : ℕ

-- `BatchConfig::default`
abbrev pub default_config : BatchConfig
default_config = record {
  max_transactions = 100;
  max_batch_age_secs = 60;
  max_shielded = 10;
  min_transactions = 1;
}

pub data BatchState : Type 0 where
  accumulating sealed proving proved settling finalized : BatchState

pub record Batch : Type 0 where
  pub id : ℕ
  pub state : BatchState
  pub transactions : List TransactionType
  pub results : List TxResult
  pub diff : Option BatchDiff
  pub started_at : ℕ
  pub shielded_count : ℕ
  pub withdrawal_count : ℕ
  pub pre_state_root : Bytes
  pub post_state_root : Option Bytes
  pub pre_shielded_root : Bytes
  pub post_shielded_root : Option Bytes
  pub proof : Option Bytes
  pub l1_tx_sig : Option Bytes
  pub committed : Bool
  pub witness : Option BatchWitness

-- `Batch::new`
abbrev pub new_batch : ℕ → Bytes → Bytes → ℕ → Batch
new_batch id pre_state_root pre_shielded_root now = record {
  id = id;
  state = accumulating;
  transactions = [];
  results = [];
  diff = none;
  started_at = now;
  shielded_count = 0;
  withdrawal_count = 0;
  pre_state_root = pre_state_root;
  post_state_root = none;
  pre_shielded_root = pre_shielded_root;
  post_shielded_root = none;
  proof = none;
  l1_tx_sig = none;
  committed = false;
  witness = none;
}

abbrev pub is_accumulating : BatchState → Bool
is_accumulating accumulating = true
is_accumulating _ = false

abbrev pub is_sealed : BatchState → Bool
is_sealed sealed = true
is_sealed _ = false

abbrev pub is_proving : BatchState → Bool
is_proving proving = true
is_proving _ = false

abbrev pub is_proved : BatchState → Bool
is_proved proved = true
is_proved _ = false

abbrev pub is_settling : BatchState → Bool
is_settling settling = true
is_settling _ = false

abbrev pub is_empty : List TransactionType → Bool
is_empty [] = true
is_empty (tx ∷ txs) = false

unfoldable pub should_seal : Batch → BatchConfig → ℕ → Bool
should_seal b config now =
    leb config.max_transactions (length b.transactions)
    || leb config.max_shielded b.shielded_count
    || leb 1 b.withdrawal_count
    || leb 1 b.shielded_count
    || (leb config.max_batch_age_secs (now - b.started_at)
        && leb config.min_transactions (length b.transactions))

abbrev pub shielded_weight : TransactionType → ℕ
shielded_weight (shielded p) = 1
shielded_weight _ = 0

abbrev pub withdraw_weight : TransactionType → ℕ
withdraw_weight (withdraw w) = 1
withdraw_weight _ = 0

-- `none` is the error of a batch that does not accept transactions.
unfoldable pub add_transaction : Batch → TransactionType → Option Batch
add_transaction b tx = elim (is_accumulating b.state) [
  | false ↦ none
  | true ↦ some (record b {
    shielded_count = b.shielded_count + shielded_weight tx;
    withdrawal_count = b.withdrawal_count + withdraw_weight tx;
    transactions = b.transactions ++ tx ∷ [];
  })
]

abbrev pub seal : Batch → Batch
seal b = record b { state = sealed }

abbrev pub set_execution_results : Batch → BatchDiff → Bytes → Bytes → Batch
set_execution_results b diff post_state_root post_shielded_root = record b {
  results = diff.results;
  diff = some diff;
  post_state_root = some post_state_root;
  post_shielded_root = some post_shielded_root;
}

abbrev pub start_proving : Batch → Batch
start_proving b = record b { state = proving }

abbrev pub set_proof : Batch → Bytes → Batch
set_proof b proof = record b { proof = some proof; state = proved }

abbrev pub start_settling : Batch → Bytes → Batch
start_settling b l1_sig = record b { l1_tx_sig = some l1_sig; state = settling }

-- `Batch::finalize`
abbrev pub finalize_batch : Batch → Batch
finalize_batch b = record b { state = finalized }
