-- ===== src/BatchManager/Summaries.antt =====
-- The summaries of executed transactions that the database keeps
-- (core/src/sequencer/execution/batch.rs, `store_tx_summaries`; core/src/sequencer/storage/db.rs).
use zelana.Base.{ℕ, Bool, Option, none, some, List, [], ◌∷◌, Bytes, bytes_eq, if◌then◌else◌}
use zelana.Base.Dict.{Dict, insert}
use zelana.Router.Types.{
  TxResult, shielded_result, transfer_result, deposit_result, withdrawal_result,
}

pub data TxStatus : Type 0 where
  pending included executed settled failed : TxStatus

pub data TxType : Type 0 where
  deposit_type transfer_type shielded_type withdrawal_type : TxType

-- The hash, which is also the key, and the two times are left out.
pub record TxSummary : Type 0 where
  pub tx_type : TxType
  pub batch_id : Option ℕ
  pub status : TxStatus
  pub amount : Option ℕ
  pub from : Option Bytes
  pub to : Option Bytes

-- `store_tx_summaries` of one result.
abbrev summary : ℕ → Bool → TxType → Option ℕ → Option Bytes → Option Bytes → TxSummary
summary batch_id success tx_type amount from to = record {
  tx_type = tx_type;
  batch_id = some batch_id;
  status = if success then executed else failed;
  amount = amount;
  from = from;
  to = to;
}

unfoldable pub summary_of : ℕ → TxResult → TxSummary
summary_of batch_id r = elim r.tx_type [
  | shielded_result nullifier commitment position ↦
      summary batch_id r.success shielded_type none none none
  | transfer_result from to amount ↦
      summary batch_id r.success transfer_type (some amount) (some from) (some to)
  | deposit_result to amount ↦ summary batch_id r.success deposit_type (some amount) none (some to)
  | withdrawal_result from to_l1 amount ↦
      summary batch_id r.success withdrawal_type (some amount) (some from) (some to_l1)
]

unfoldable pub store_tx_summaries : ℕ → List TxResult → Dict Bytes TxSummary → Dict Bytes TxSummary
store_tx_summaries batch_id [] summaries = summaries
store_tx_summaries batch_id (r ∷ rs) summaries =
    store_tx_summaries batch_id rs (insert r.tx_hash (summary_of batch_id r) summaries)
