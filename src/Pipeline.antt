-- ===== src/Pipeline.antt =====
-- core/src/sequencer/pipeline.rs: the orchestrator that proves and settles sealed batches. The
-- service takes one command or one tick at a time. The prover and the settlement service are
-- outside the model: what they answer at a tick is part of the `World` of that tick.
pub mod Settle
pub mod Service
pub mod Stalled
pub mod Retries
pub mod Settlement
pub mod Ready
pub mod Stuck
pub mod Inputs
pub mod Unproved
pub mod Runs
pub mod Tests
use zelana.Base.{
  ℕ, ◌+◌, ◌-◌, ◌%◌, Bool, true, false, not, ◌||◌, Option, none, some, List, [], ◌∷◌, Bytes, length,
  leb, nat_beq, if◌then◌else◌, u64_mod,
}
use zelana.Base.Dict.{Dict}
use zelana.AccountTree.Codec.{BigBytes}
use zelana.Shielded.{Poseidon}
use zelana.Router.Signature.{Crypto}
use zelana.Batch.Witness.{BatchPublicInputs, BatchWitness}
use zelana.BatchManager.{
  BatchManager, Result, ok, err, batch_proved, check_timeout, prepare_batch_for_proving,
}
use zelana.Withdrawals.{TrackedWithdrawal}

pub data PipelineState : Type 0 where
  running : PipelineState
  paused : Bytes → PipelineState
  stopping : PipelineState

-- The time a proof took is left out.
pub record BatchProof : Type 0 where
  pub public_inputs : BatchPublicInputs
  pub proof_bytes : Bytes

pub record BatchSummary : Type 0 where
  pub batch_id : ℕ
  pub tx_count : ℕ
  pub state_root : Bytes
  pub shielded_root : Bytes
  pub l1_tx_sig : Option Bytes

-- The state of `MockSettler`.
pub record MockSettler : Type 0 where
  pub batch_id : ℕ
  pub state_root : Bytes
  pub shielded_root : Bytes

-- `PipelineOrchestrator`: the batch summaries are those of its database.
pub record Pipeline : Type 0 where
  pub manager : BatchManager
  pub summaries : Dict ℕ BatchSummary
  pub mock_settler : Option MockSettler
  pub has_service : Bool
  pub max_settlement_retries : ℕ
  pub state : PipelineState
  pub batches_proved : ℕ
  pub batches_settled : ℕ
  pub last_proved_batch : Option ℕ
  pub last_settled_batch : Option ℕ
  pub proving_batch : Option ℕ
  pub settling_batch : Option ℕ
  pub settlement_retries : ℕ

-- What the prover makes of a batch: the bytes of a proof, an error, or a panic of its task.
pub data Proving : Type 0 where
  proof_of : Bytes → Proving
  prover_failed panicked : Proving

-- The services as a tick meets them. A settlement answers with a signature, or fails with a reason.
pub record World : Type 0 where
  pub now : ℕ
  pub prove : BatchPublicInputs → BatchWitness → Proving
  pub submit_auto : BatchProof → ℕ → Option Bytes
  pub submit_with_withdrawals : BatchProof → ℕ → List TrackedWithdrawal → Option Bytes
  pub reason : Bytes

-- `Ok(false)`, `Ok(true)` and an error.
pub data Attempt : Type 0 where
  nothing done failed : Attempt

abbrev pub is_running : PipelineState → Bool
is_running running = true
is_running _ = false

abbrev pub is_some : Option ℕ → Bool
is_some none = false
is_some (some n) = true

-- `try_prove`, from the answer of the prover on.
unfoldable pub finish_proving : ℕ → Proving → Pipeline → Attempt × Pipeline
finish_proving batch_id (proof_of bytes) p = elim (batch_proved p.manager batch_id bytes) [
  | err e ↦ (failed, p)
  | ok manager ↦ (
    done,
    record p {
      manager = manager;
      batches_proved = (p.batches_proved + 1) % u64_mod;
      last_proved_batch = some batch_id;
      proving_batch = none;
    },
  )
]
finish_proving batch_id prover_failed p = (failed, record p { proving_batch = none })
finish_proving batch_id panicked p = (failed, p)

-- `try_prove`, from the prepared batch on.
unfoldable pub prove_prepared :
    World → Option (ℕ × Option BatchPublicInputs × BatchWitness) → Pipeline → Attempt × Pipeline
prove_prepared W none p = (nothing, p)
prove_prepared W (some (batch_id, inputs, witness)) p = elim inputs [
  | none ↦ (failed, p)
  | some i ↦
      finish_proving batch_id (W.prove i witness) (record p { proving_batch = some batch_id })
]

module _ (B : BigBytes) (C : Crypto) where
  unfoldable pub try_prove : World → Pipeline → Attempt × Pipeline
  try_prove W p =
      if is_some p.proving_batch || not (is_running p.state)
      then (nothing, p)
      else let (prepared, manager) = prepare_batch_for_proving B C p.manager in
        prove_prepared W prepared (record p { manager = manager })

abbrev pub pause : Bytes → Pipeline → Pipeline
pause reason p = record p { state = paused reason }

-- `none` is the error of a pipeline that stops.
unfoldable pub resume : Pipeline → Option Pipeline
resume p = elim p.state [
  | paused reason ↦ some (record p { state = running; settlement_retries = 0 })
  | running ↦ some p
  | stopping ↦ none
]
