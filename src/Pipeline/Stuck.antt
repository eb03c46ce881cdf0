-- ===== src/Pipeline/Stuck.antt =====
-- Provers that panic or fail: what the service does afterwards.
use zelana.Base.{
  ℕ, ◌≡◌, refl, ◌∙◌, Bool, not, ◌||◌, Option, none, some, List, [], ◌∷◌, Bytes, arith, Bool-cases,
  Option-cases, inl, inr, bytes_eq, nat_eq,
}
use zelana.AccountTree.Codec.{BigBytes}
use zelana.Shielded.{Poseidon}
use zelana.Router.Signature.{Crypto}
use zelana.Batch.{Batch, is_proved}
use zelana.Batch.Witness.{BatchPublicInputs, BatchWitness}
use zelana.BatchManager.{
  find, prepare_batch_for_proving, check_timeout, batch_settled, batch_finalized,
}
use zelana.Pipeline.{
  Pipeline, World, Attempt, panicked, finish_proving, prove_prepared, try_prove, is_some,
  is_running, resume, running,
}
use zelana.Pipeline.Settle.{
  record_settlement, count_failure, finish_settlement, settle_batch, settle_with, try_settle,
  settled_proof, withdrawals_of, mock_submit,
}
use zelana.Pipeline.Stalled.{proof_to_settle-some}
use zelana.Pipeline.Service.{
  Command, submit, seal, force_seal, pause_for, resumes, shutdown, ticks, tick, serve, run_service,
}

-- Nothing was proved from `p` to `p'`, and the same batch is still being proved.
abbrev pub SameProver : Pipeline → Pipeline → Type 0
SameProver p p' = (p'.batches_proved ≡ p.batches_proved) × (p'.proving_batch ≡ p.proving_batch)

-- Nor did the proving queue change, nor the number of the next batch.
abbrev pub OnlySettles : Pipeline → Pipeline → Type 0
OnlySettles p p' =
    SameProver p p'
    × (p'.manager.proving_batches ≡ p.manager.proving_batches)
    × (p'.manager.next_batch_id ≡ p.manager.next_batch_id)

module _ (B : BigBytes) (C : Crypto) (P : Poseidon) where
  record_settlement_prover :
      (b : Batch) (sig : Bytes) (p : Pipeline) → OnlySettles p (record_settlement B b sig p).1
  unfolding record_settlement batch_settled batch_finalized
  record_settlement_prover b sig p = ground arith

  settle_with_prover :
      (W : World) (b : Batch) (r : Bytes) (p : Pipeline)
      → let ws = withdrawals_of b.id W.now b.results in
        OnlySettles p (settle_with W (settled_proof C b r) ws p).1
  unfolding settle_with mock_submit
  settle_with_prover W b r p = ground arith

  finish_settlement_prover :
      (W : World) (b : Batch) (answer : Option Bytes) (p : Pipeline)
      → OnlySettles p (finish_settlement B W b (answer, p)).1
  unfolding finish_settlement count_failure
  finish_settlement_prover W b none p = ground arith
  finish_settlement_prover W b (some sig) p = record_settlement_prover b sig p

  settle_batch_prover :
      (W : World) (b : Batch) (p : Pipeline) → OnlySettles p (settle_batch B C W b p).1
  unfolding settle_batch
  settle_batch_prover W b p =
      let ws = withdrawals_of b.id W.now b.results in
      let (root, _, proof) = proof_to_settle-some C b ws in
      let started = record p { settling_batch = some b.id } in
      let (answer, p') = settle_with W (settled_proof C b root) ws started in
      ground
        (arith, proof, settle_with_prover W b root started, finish_settlement_prover W b answer p')

  pub try_settle_prover : (W : World) (p : Pipeline) → OnlySettles p (try_settle B C W p).1
  unfolding try_settle
  try_settle_prover W p = elim (Bool-cases (is_some p.settling_batch || not (is_running p.state))) [
    | inl busy ↦ ground (arith, busy)
    | inr idle ↦ elim (Option-cases (find (λ c. is_proved c.state) p.manager.pending_settlement)) [
      | inl missing ↦ ground (arith, idle, missing)
      | inr (b, there) ↦ ground (arith, idle, there, settle_batch_prover W b p)
    ]
  ]

  serve_prover :
      (dev_mode : Bool) (p : Pipeline) (c : Command) (id : ℕ)
      → p.proving_batch ≡ some id
      → SameProver p (serve B C P dev_mode p c)
  unfolding serve resume tick try_prove
  serve_prover dev_mode p (submit tx now) id e = (refl, refl)
  serve_prover dev_mode p seal id e = (refl, refl)
  serve_prover dev_mode p force_seal id e = (refl, refl)
  serve_prover dev_mode p (pause_for reason) id e = (refl, refl)
  serve_prover dev_mode p resumes id e = ground arith
  serve_prover dev_mode p shutdown id e = (refl, refl)
  serve_prover dev_mode p (ticks W) id e =
      let m = (check_timeout B C P p.manager W.now).1 in
      ground (arith, e, try_settle_prover W (record p { manager = m }))

  run_prover :
      (dev_mode : Bool) (cs : List Command) (p : Pipeline) (id : ℕ)
      → p.proving_batch ≡ some id
      → SameProver p (run_service B C P dev_mode p cs)
  unfolding run_service
  run_prover dev_mode [] p id e = (refl, refl)
  run_prover dev_mode (c ∷ cs) p id e =
      let p' = serve B C P dev_mode p c in
      let one = serve_prover dev_mode p c id e in
      ground (arith, one, run_prover dev_mode cs p' id (one.1 ∙ e))

  -- Once the task of the prover panics on a batch of a running pipeline, the service takes that
  -- batch for the one being proved for good: no command and no tick ever proves a batch again.
  pub try_prove-panicked :
      (W : World) (p : Pipeline) (id : ℕ) (i : BatchPublicInputs) (w : BatchWitness)
      (dev_mode : Bool) (cs : List Command)
      → p.state ≡ running
      → p.proving_batch ≡ none
      → (prepare_batch_for_proving B C p.manager).0 ≡ some (id, some i, w)
      → W.prove i w ≡ panicked
      → let (attempt, p') = try_prove B C W p in
        let q = run_service B C P dev_mode p' cs in
        (attempt ≡ Attempt.failed)
        × (q.proving_batch ≡ some id)
        × (q.batches_proved ≡ p.batches_proved)
  unfolding try_prove prove_prepared finish_proving
  try_prove-panicked W p id i w dev_mode cs runs free prepared panics =
      let stuck : (try_prove B C W p).1.proving_batch ≡ some id =
        ground (arith, runs, free, prepared, panics) in
      let same : (try_prove B C W p).1.batches_proved ≡ p.batches_proved =
        ground (arith, runs, free, prepared, panics) in
      let rest = run_prover dev_mode cs (try_prove B C W p).1 id stuck in
      (ground (arith, runs, free, prepared, panics), rest.1 ∙ stuck, rest.0 ∙ same)
