-- ===== src/BatchManager.antt =====
-- core/src/sequencer/execution/batch.rs: the manager of the batches. The database of the manager is
-- that of its router, with the summaries of transactions beside it. The time of a call is an
-- argument; the database neither fails nor loses a write.
pub mod Summaries
pub mod Circuit
pub mod Calls
pub mod Weights
pub mod Shape
pub mod Flow
pub mod Conservation
pub mod Valid
pub mod Accepts
pub mod Preserved
pub mod Forgotten
pub mod Tests
use zelana.Base.{
  ℕ, ◌+◌, ◌-◌, ◌%◌, Bool, true, false, not, ◌&&◌, Option, none, some, List, [], ◌∷◌, ◌++◌, Bytes,
  length, nat_beq, leb, ◌==◌, bytes_eq, if◌then◌else◌, u64_mod,
}
use zelana.Base.Dict.{Dict, lookup, insert}
use zelana.Merkle.{unwrap_or}
use zelana.Account.{AccountId, AccountState, default_state}
use zelana.AccountTree.{AccountTree, insert_account}
use zelana.AccountTree.BatchHash.{compute_withdrawal_root_mimc}
use zelana.AccountTree.Codec.{BigBytes}
use zelana.Shielded.{Poseidon}
use zelana.Router.Types.{
  TransactionType, TxResult, TxResultType, TxRouter, BatchDiff, shielded, transfer, deposit,
  withdraw, shielded_result, transfer_result, deposit_result, withdrawal_result,
}
use zelana.Router.Signature.{Crypto}
use zelana.Router.Commit.{commit}
use zelana.Router.{execute_batch}
use zelana.Batch.{
  Batch, BatchConfig, new_batch, add_transaction, should_seal, is_empty, is_sealed, is_proved,
  withdraw_weight, seal, set_execution_results, start_proving, set_proof, start_settling,
  finalize_batch,
}
use zelana.Batch.Witness.{BatchPublicInputs, BatchWitness}
use zelana.Prover.{
  States, preload, state_or_default, paid, received, build_public_inputs, build_witness_with_proofs,
}
use Summaries.{TxSummary, store_tx_summaries}
use Circuit.{simulated_root}

pub record BatchManager : Type 0 where
  pub router : TxRouter
  pub tx_summaries : Dict Bytes TxSummary
  pub config : BatchConfig
  pub next_batch_id : ℕ
  pub current_batch : Option Batch
  pub proving_batches : List Batch
  pub pending_settlement : List Batch
  pub pending_states : Dict AccountId AccountState

pub data Error : Type 0 where
  not_accepting not_in_proving_queue not_in_settlement_queue no_diff : Error

pub data Result (A : Type 0) : Type 0 where
  ok : A → Result A
  err : Error → Result A

-- Pending states, else the cache of the router, else the database with its default.
unfoldable pub get_account_state_internal : BatchManager → AccountId → AccountState
get_account_state_internal m id = elim (lookup id m.pending_states) [
  | some s ↦ s
  | none ↦ elim (lookup id m.router.account_cache) [
    | some s ↦ s
    | none ↦ state_or_default id m.router.db.accounts
  ]
]

unfoldable pub get_pending_account : BatchManager → AccountId → Option AccountState
get_pending_account m id = elim (lookup id m.pending_states) [
  | some s ↦ some s
  | none ↦ lookup id m.router.account_cache
]

abbrev pub put_pending : AccountId → AccountState → BatchManager → BatchManager
put_pending id s m = record m { pending_states = insert id s m.pending_states }

-- Both states are read before either is written.
unfoldable pub update_pending_state : BatchManager → TransactionType → BatchManager
update_pending_state m (transfer t) =
    let from = t.signer_pubkey in
    let to = t.tx_data.to in
    let amount = t.tx_data.amount in
    let from_state = get_account_state_internal m from in
    let to_state = get_account_state_internal m to in
    let m' = put_pending from (paid from_state amount) m in
    if from == to then m' else put_pending to (received to_state amount) m'
update_pending_state m (withdraw w) =
    put_pending w.from (paid (get_account_state_internal m w.from) w.amount) m
update_pending_state m (deposit d) =
    put_pending d.to (received (get_account_state_internal m d.to) d.amount) m
update_pending_state m (shielded p) = m

unfoldable pub ensure_batch : BatchManager → ℕ → BatchManager
ensure_batch m now = elim m.current_batch [
  | some b ↦ m
  | none ↦ record m {
    next_batch_id = (m.next_batch_id + 1) % u64_mod;
    current_batch = some (
        new_batch m.next_batch_id m.router.account_tree.root m.router.shielded_state.tree.root now);
  }
]

module _ (B : BigBytes) where
  module _ (C : Crypto) (P : Poseidon) where
    -- The part of `seal_current_batch_inner` on a batch that is not empty: the manager without the
    -- batch, and the sealed batch.
    unfoldable pub execute_and_seal : BatchManager → Batch → Bool → BatchManager × Batch
    execute_and_seal m b immediate_commit =
        let (router, diff) = execute_batch C P m.router b.transactions in
        let post_state_root = simulated_root B router b.transactions in
        let post_shielded_root = router.shielded_state.tree.root in
        let witnessed =
          if immediate_commit
          then record b {
            witness = some (build_witness_with_proofs B b router.account_tree router.db);
            committed = true;
          }
          else b in
        (
          record m {
            router = if immediate_commit then commit B router diff else router;
            pending_states = [];
            tx_summaries = store_tx_summaries b.id diff.results m.tx_summaries;
          },
          seal (set_execution_results witnessed diff post_state_root post_shielded_root),
        )

    unfoldable pub seal_current_batch_inner : BatchManager → Bool → Option ℕ × BatchManager
    seal_current_batch_inner m immediate_commit = elim m.current_batch [
      | none ↦ (none, m)
      | some b ↦ elim (is_empty b.transactions) [
        | true ↦ (none, m)
        | false ↦
            let (m', sealed) = execute_and_seal m b immediate_commit in
            (
              some b.id,
              record m' {
                current_batch = none;
                proving_batches = m'.proving_batches ++ sealed ∷ [];
              },
            )
      ]
    ]

    abbrev pub seal_current_batch : BatchManager → Option ℕ × BatchManager
    seal_current_batch m = seal_current_batch_inner m false

    -- The batch that `ensure_batch` leaves, or made.
    unfoldable pub submit_to :
        BatchManager → Option Batch → TransactionType → ℕ → Result BatchManager
    submit_to m none tx now = err not_accepting
    submit_to m (some b) tx now = elim (add_transaction b tx) [
      | none ↦ err not_accepting
      | some b' ↦
          let m' = record m { current_batch = some b' } in
          ok (if should_seal b' m.config now then (seal_current_batch m').1 else m')
    ]

    unfoldable pub submit_transaction : BatchManager → TransactionType → ℕ → Result BatchManager
    submit_transaction m tx now =
        let m' = update_pending_state (ensure_batch m now) tx in
        submit_to m' m'.current_batch tx now

    unfoldable pub check_timeout : BatchManager → ℕ → Option ℕ × BatchManager
    check_timeout m now = elim m.current_batch [
      | none ↦ (none, m)
      | some b ↦
          if leb m.config.max_batch_age_secs (now - b.started_at) && not (is_empty b.transactions)
          then seal_current_batch m
          else (none, m)
    ]

-- `iter().find(..)`, by a test.
unfoldable pub find : (Batch → Bool) → List Batch → Option Batch
find p [] = none
find p (b ∷ bs) = let rest = find p bs in if p b then some b else rest

-- Changes the first batch that a test finds.
unfoldable pub change_first : (Batch → Bool) → (Batch → Batch) → List Batch → List Batch
change_first p f [] = []
change_first p f (b ∷ bs) = let rest = change_first p f bs in if p b then f b ∷ bs else b ∷ rest

-- `remove(position(..))`
unfoldable pub remove_first : (Batch → Bool) → List Batch → List Batch
remove_first p [] = []
remove_first p (b ∷ bs) = let rest = remove_first p bs in if p b then bs else b ∷ rest

abbrev pub has_id : ℕ → Batch → Bool
has_id batch_id b = nat_beq b.id batch_id

unfoldable pub batch_proved : BatchManager → ℕ → Bytes → Result BatchManager
batch_proved m batch_id proof = elim (find (has_id batch_id) m.proving_batches) [
  | none ↦ err not_in_proving_queue
  | some b ↦ ok (record m {
    proving_batches = remove_first (has_id batch_id) m.proving_batches;
    pending_settlement = m.pending_settlement ++ set_proof b proof ∷ [];
  })
]

abbrev pub next_for_settlement : BatchManager → Option Batch
next_for_settlement m = find (λ b. is_proved b.state) m.pending_settlement

unfoldable pub batch_settled : BatchManager → ℕ → Bytes → Result BatchManager
batch_settled m batch_id l1_sig = elim (find (has_id batch_id) m.pending_settlement) [
  | none ↦ err not_in_settlement_queue
  | some b ↦ ok (record m {
    pending_settlement =
        change_first (has_id batch_id) (λ c. start_settling c l1_sig) m.pending_settlement;
  })
]

unfoldable pub count_withdrawals : List TransactionType → ℕ
count_withdrawals [] = 0
count_withdrawals (tx ∷ txs) = withdraw_weight tx + count_withdrawals txs

module _ (B : BigBytes) where
  -- The batch leaves the queue also where it has no diff.
  unfoldable pub batch_finalized : BatchManager → ℕ → Result BatchDiff × BatchManager
  batch_finalized m batch_id = elim (find (has_id batch_id) m.pending_settlement) [
    | none ↦ (err not_in_settlement_queue, m)
    | some b ↦
        let m' = record m {
          pending_settlement = remove_first (has_id batch_id) m.pending_settlement;
        } in
        elim b.diff [
          | none ↦ (err no_diff, m')
          | some diff ↦
              (ok diff, if b.committed then m' else record m' { router = commit B m.router diff })
        ]
  ]

  unfoldable pub prepare_batch_for_proving :
      Crypto → BatchManager → Option (ℕ × Option BatchPublicInputs × BatchWitness) × BatchManager
  prepare_batch_for_proving C m = elim (find (λ b. is_sealed b.state) m.proving_batches) [
    | none ↦ (none, m)
    | some b ↦
        let withdrawal_root =
          compute_withdrawal_root_mimc B b.id (count_withdrawals b.transactions) in
        let witness =
          unwrap_or b.witness (build_witness_with_proofs B b m.router.account_tree m.router.db) in
        (
          some (b.id, build_public_inputs C b withdrawal_root, witness),
          record m {
            proving_batches = change_first (λ c. is_sealed c.state) start_proving m.proving_batches;
          },
        )
  ]

pub record BatchManagerStats : Type 0 where
  pub current_batch_txs : ℕ
  pub proving_count : ℕ
  pub pending_settlement_count : ℕ
  pub next_batch_id : ℕ

unfoldable pub current_batch_tx_count : BatchManager → ℕ
current_batch_tx_count m = elim m.current_batch [ none ↦ 0 | some b ↦ length b.transactions ]

unfoldable pub stats : BatchManager → BatchManagerStats
stats m = record {
  current_batch_txs = current_batch_tx_count m;
  proving_count = length m.proving_batches;
  pending_settlement_count = length m.pending_settlement;
  next_batch_id = m.next_batch_id;
}
