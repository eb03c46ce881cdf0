-- ===== src/Pipeline/Settle.antt =====
-- The settlement of a proved batch (core/src/sequencer/pipeline.rs, `try_settle`), with the mock
-- settler of core/src/sequencer/settlement/settler.rs. The payout of the withdrawals on L1 changes
-- no state of the pipeline.
use zelana.Base.{
  ℕ, ◌+◌, ◌-◌, ◌%◌, Bool, true, false, not, ◌||◌, Option, none, some, List, [], ◌∷◌, ◌++◌, Bytes,
  length, leb, nat_beq, if◌then◌else◌, u64_mod, u32_mod, bytes_eq, nat_eq,
}
use zelana.Base.Dict.{Dict, lookup, insert}
use zelana.Base.Text.{codes, decimal}
use zelana.Merkle.{unwrap_or}
use zelana.AccountTree.Codec.{BigBytes}
use zelana.Router.Types.{TxResult, withdrawal_result}
use zelana.Router.Signature.{Crypto}
use zelana.Batch.{Batch}
use zelana.Prover.{compute_batch_hash}
use zelana.BatchManager.{ok, err, batch_settled, batch_finalized, next_for_settlement}
use zelana.BatchManager.Summaries.{TxStatus, TxSummary, settled, failed}
use zelana.Withdrawals.{TrackedWithdrawal, in_batch}
use zelana.Withdrawals.Root.{build_withdrawal_merkle_root, zero_hash}
use zelana.Pipeline.{Pipeline, World, Attempt, BatchProof, MockSettler, is_some, is_running, paused}

-- The successful withdrawals among the results of a batch.
unfoldable pub withdrawals_of : ℕ → ℕ → List TxResult → List TrackedWithdrawal
withdrawals_of batch_id now [] = []
withdrawals_of batch_id now (r ∷ rs) =
    let rest = withdrawals_of batch_id now rs in
    elim r.tx_type [
      | withdrawal_result from to_l1 amount ↦
          if r.success
          then record {
            tx_hash = r.tx_hash;
            from = from;
            to_l1_address = to_l1;
            amount = amount;
            l2_nonce = 0;
            state = in_batch batch_id;
            created_at = now;
            batch_id = some batch_id;
          }
            ∷ rest
          else rest
      | _ ↦ rest
    ]

-- The bytes of a proof of Noir, alone or with its public witness.
abbrev pub is_noir_proof : BatchProof → Bool
is_noir_proof proof =
    nat_beq (length proof.proof_bytes) 388 || nat_beq (length proof.proof_bytes) 624

abbrev pub previous_id : ℕ → ℕ
previous_id batch_id = if leb 2 batch_id then batch_id - 1 else 0

-- The proof that is submitted, with the root of the withdrawals.
abbrev pub settled_proof : Crypto → Batch → Bytes → BatchProof
settled_proof C b withdrawal_root = record {
  public_inputs = record {
    pre_state_root = b.pre_state_root;
    post_state_root = unwrap_or b.post_state_root zero_hash;
    pre_shielded_root = b.pre_shielded_root;
    post_shielded_root = unwrap_or b.post_shielded_root zero_hash;
    withdrawal_root = withdrawal_root;
    batch_hash = compute_batch_hash C b.transactions;
    batch_id = b.id;
  };
  proof_bytes = unwrap_or b.proof [];
}

-- `none` where the root of the withdrawals panics.
unfoldable pub proof_to_settle : Crypto → Batch → List TrackedWithdrawal → Option BatchProof
proof_to_settle C b withdrawals = elim (build_withdrawal_merkle_root C withdrawals) [
  | none ↦ none
  | some withdrawal_root ↦ some (settled_proof C b withdrawal_root)
]

-- `MockSettler::submit`
unfoldable pub mock_submit : BatchProof → MockSettler → Bytes × MockSettler
mock_submit proof m =
    let inputs = proof.public_inputs in
    (
      codes "mock_sig_" ++ decimal inputs.batch_id,
      record {
        batch_id = inputs.batch_id;
        state_root = inputs.post_state_root;
        shielded_root = inputs.post_shielded_root;
      },
    )

-- The signature, or `none` for a failure, and the pipeline with its mock settler.
unfoldable pub settle_with :
    World → BatchProof → List TrackedWithdrawal → Pipeline → Option Bytes × Pipeline
settle_with W proof withdrawals p =
    let id = proof.public_inputs.batch_id in
    elim p.has_service [
      | true ↦ elim withdrawals [
        | [] ↦ (W.submit_auto proof (previous_id id), p)
        | w ∷ ws ↦
            if is_noir_proof proof
            then (W.submit_auto proof (previous_id id), p)
            else (W.submit_with_withdrawals proof (previous_id id) (w ∷ ws), p)
      ]
      | false ↦ elim p.mock_settler [
        | none ↦ (some (codes "local_" ++ decimal id), p)
        | some m ↦
            let (sig, m') = mock_submit proof m in (some sig, record p { mock_settler = some m' })
      ]
    ]

abbrev pub is_failed : TxStatus → Bool
is_failed failed = true
is_failed _ = false

-- A failed transaction keeps its status; another one that has a summary is settled.
unfoldable pub settle_status : ℕ → Bytes → Dict Bytes TxSummary → Dict Bytes TxSummary
settle_status batch_id hash summaries = elim (lookup hash summaries) [
  | none ↦ summaries
  | some s ↦
      if is_failed s.status
      then summaries
      else insert hash (record s { status = settled; batch_id = some batch_id }) summaries
]

unfoldable pub settle_statuses : ℕ → List TxResult → Dict Bytes TxSummary → Dict Bytes TxSummary
settle_statuses batch_id [] summaries = summaries
settle_statuses batch_id (r ∷ rs) summaries =
    settle_statuses batch_id rs (settle_status batch_id r.tx_hash summaries)

module _ (B : BigBytes) where
  -- The branch of a settlement that succeeds. A refusal of the manager returns at once.
  unfoldable pub record_settlement : Batch → Bytes → Pipeline → Attempt × Pipeline
  record_settlement b sig p = elim (batch_settled p.manager b.id sig) [
    | err e ↦ (Attempt.failed, p)
    | ok m₁ ↦
        let (diff, m₂) = batch_finalized B m₁ b.id in
        elim diff [
          | err e ↦ (Attempt.failed, record p { manager = m₂ })
          | ok d ↦ (
            Attempt.done,
            record p {
              manager = record m₂ { tx_summaries = settle_statuses b.id b.results m₂.tx_summaries };
              summaries =
                  insert b.id
                    (record {
                      batch_id = b.id;
                      tx_count = length b.transactions;
                      state_root = unwrap_or b.post_state_root zero_hash;
                      shielded_root = unwrap_or b.post_shielded_root zero_hash;
                      l1_tx_sig = some sig;
                    })
                    p.summaries;
              batches_settled = (p.batches_settled + 1) % u64_mod;
              last_settled_batch = some b.id;
              settling_batch = none;
              settlement_retries = 0;
            },
          )
        ]
  ]

  -- The branch of a settlement that fails; the delay before the next tick is left out.
  unfoldable pub count_failure : Bytes → Pipeline → Attempt × Pipeline
  count_failure reason p =
      let retries = (p.settlement_retries + 1) % u32_mod in
      let p' = record p { settlement_retries = retries; settling_batch = none } in
      if leb p.max_settlement_retries retries
      then (Attempt.failed, record p' { state = paused reason })
      else (Attempt.nothing, p')

  unfoldable pub finish_settlement : World → Batch → Option Bytes × Pipeline → Attempt × Pipeline
  finish_settlement W b (some sig, p) = record_settlement b sig p
  finish_settlement W b (none, p) = count_failure W.reason p

  -- A panic of the withdrawal root would end the task before the pipeline changes.
  unfoldable pub settle_batch : Crypto → World → Batch → Pipeline → Attempt × Pipeline
  settle_batch C W b p =
      let withdrawals = withdrawals_of b.id W.now b.results in
      elim (proof_to_settle C b withdrawals) [
        | none ↦ (Attempt.failed, p)
        | some proof ↦
            finish_settlement W b
              (settle_with W proof withdrawals (record p { settling_batch = some b.id }))
      ]

  unfoldable pub try_settle : Crypto → World → Pipeline → Attempt × Pipeline
  try_settle C W p =
      if is_some p.settling_batch || not (is_running p.state)
      then (Attempt.nothing, p)
      else elim (next_for_settlement p.manager) [
        | none ↦ (Attempt.nothing, p)
        | some b ↦ settle_batch C W b p
      ]
