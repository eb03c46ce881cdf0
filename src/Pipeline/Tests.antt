-- ===== src/Pipeline/Tests.antt =====
-- The theorems on the pipeline at concrete inputs.
use zelana.Base.{
  ◌≡◌, refl, none, some, true, false, List, [], ◌∷◌, Bytes, bytes_eq, arith, replicate,
  if◌then◌else◌,
}
use zelana.Base.Dict.{Dict}
use zelana.Samples.{big_bytes, poseidon, crypto, alice, bob}
use zelana.AccountTree.BatchHash.{compute_withdrawal_root_mimc}
use zelana.Router.Types.{BatchDiff, TxResult, deposit_result}
use zelana.Router.Commit.{commit}
use zelana.Batch.Witness.{BatchPublicInputs, BatchWitness}
use zelana.Prover.{compute_batch_hash, build_public_inputs}
use zelana.BatchManager.{
  BatchManager, count_withdrawals, prepare_batch_for_proving, find, has_id, remove_first,
}
use zelana.BatchManager.Summaries.{TxSummary, executed, deposit_type}
use zelana.BatchManager.Tests.{
  manager, manager-IsValid, income, proved_batch, proving_manager, proving_manager-IsValid,
  settling_manager, settling_manager-IsValid,
}
use zelana.Pipeline.{
  Pipeline, World, Attempt, Proving, running, paused, proof_of, prover_failed, panicked, try_prove,
}
use zelana.Pipeline.Settle.{record_settlement, settle_statuses}
use zelana.Pipeline.Service.{Command, submit, seal, ticks, tick, run_service}
use zelana.Pipeline.Stalled.{IsStalled}
use zelana.Pipeline.Retries.{ticks_all, tick-Fails}
use zelana.Pipeline.Settlement.{record_settlement_lem}
use zelana.Pipeline.Ready.{IsReady}
use zelana.Pipeline.Stuck.{try_prove-panicked}
use zelana.Pipeline.Unproved.{Unproved}
use zelana.Pipeline.Runs.{run_service-IsReady, try_prove-prover_failed}

abbrev pipeline : BatchManager → Pipeline
pipeline m = record {
  manager = m;
  summaries = [];
  mock_settler = none;
  has_service = true;
  max_settlement_retries = 2;
  state = running;
  batches_proved = 0;
  batches_settled = 0;
  last_proved_batch = none;
  last_settled_batch = none;
  proving_batch = none;
  settling_batch = none;
  settlement_retries = 0;
}

-- A world whose settlement fails, and whose prover answers as it is told.
abbrev world : Proving → World
world answer = record {
  now = 7;
  prove = λ inputs witness. answer;
  submit_auto = λ proof previous. none;
  submit_with_withdrawals = λ proof previous withdrawals. none;
  reason = alice;
}

abbrev commands : List Command
commands = submit income 5 ∷ seal ∷ ticks (world (proof_of [])) ∷ []

run_service-IsReady_example :
    IsReady (run_service big_bytes crypto poseidon false (pipeline manager) commands)
run_service-IsReady_example =
    run_service-IsReady big_bytes crypto poseidon false commands (pipeline manager)
      record { managed = manager-IsValid; free = refl } (omega arith)

stalled : IsStalled (pipeline settling_manager) 2 0
stalled = record {
  limited = refl;
  runs = refl;
  free = refl;
  serviced = refl;
  counted = refl;
  waiting = (proved_batch, unfold find in refl);
}

tick-Fails_example :
    let W = world panicked in
    let p = ticks_all big_bytes crypto poseidon (W ∷ []) (pipeline settling_manager) in
    IsStalled p 2 1 × ((tick big_bytes crypto poseidon W p).state ≡ paused alice)
tick-Fails_example =
    tick-Fails big_bytes crypto poseidon (world panicked ∷ []) (world panicked)
      (pipeline settling_manager) 2 0 ((λ proof previous. refl, λ proof previous ws. refl), tt)
      (λ proof previous. refl, λ proof previous ws. refl) stalled refl (omega arith)

record_settlement_lem_example :
    let p = pipeline settling_manager in
    let b = proved_batch in
    let (attempt, p') = record_settlement big_bytes b alice p in
    (diff : BatchDiff) × (b.diff ≡ some diff)
    × (attempt ≡ Attempt.done)
    × (p'.manager.pending_settlement ≡ remove_first (has_id b.id) p.manager.pending_settlement)
    × (p'.manager.router
        ≡ (if b.committed then p.manager.router else commit big_bytes p.manager.router diff))
    × (p'.manager.tx_summaries ≡ settle_statuses b.id b.results p.manager.tx_summaries)
    × (p'.last_settled_batch ≡ some b.id)
    × (p'.settling_batch ≡ none)
    × (p'.settlement_retries ≡ 0)
record_settlement_lem_example =
    record_settlement_lem big_bytes proved_batch alice (pipeline settling_manager)
      settling_manager-IsValid (unfold find in refl)

abbrev credited : TxResult
credited = record { tx_hash = bob; tx_type = deposit_result bob 30; success = true; error = none }

abbrev kept_summaries : Dict Bytes TxSummary
kept_summaries =
    (
      bob,
      record {
        tx_type = deposit_type;
        batch_id = some 1;
        status = executed;
        amount = some 30;
        from = none;
        to = some bob;
      },
    )
    ∷ []

abbrev inputs : BatchPublicInputs
inputs = record {
  pre_state_root = replicate 32 0;
  post_state_root = alice;
  pre_shielded_root = replicate 32 0;
  post_shielded_root = bob;
  withdrawal_root = compute_withdrawal_root_mimc big_bytes 1 (count_withdrawals (income ∷ []));
  batch_hash = compute_batch_hash crypto (income ∷ []);
  batch_id = 1;
}

abbrev witness : BatchWitness
witness = record {
  transactions = [];
  results = [];
  pre_account_states = [];
  transfer_witnesses = [];
  withdrawal_witnesses = [];
}

prepared :
    (prepare_batch_for_proving big_bytes crypto proving_manager).0 ≡ some (1, some inputs, witness)
unfolding prepare_batch_for_proving build_public_inputs find
prepared = refl

try_prove-panicked_example :
    let (attempt, p') = try_prove big_bytes crypto (world panicked) (pipeline proving_manager) in
    let q = run_service big_bytes crypto poseidon false p' commands in
    (attempt ≡ Attempt.failed) × (q.proving_batch ≡ some 1) × (q.batches_proved ≡ 0)
try_prove-panicked_example =
    try_prove-panicked big_bytes crypto poseidon (world panicked) (pipeline proving_manager) 1
      inputs witness false commands refl refl prepared refl

try_prove-prover_failed_example :
    let (attempt, p') =
      try_prove big_bytes crypto (world prover_failed) (pipeline proving_manager) in
    (attempt ≡ Attempt.failed)
    × Unproved 1 (run_service big_bytes crypto poseidon false p' commands)
try_prove-prover_failed_example =
    try_prove-prover_failed big_bytes crypto poseidon (world prover_failed)
      (pipeline proving_manager) 1 inputs witness false commands
      record { managed = proving_manager-IsValid; free = refl } (omega arith) refl refl prepared
      refl
