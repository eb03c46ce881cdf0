-- ===== src/Pipeline/Runs.antt =====
-- Whole runs of the service: any commands and ticks, one after the other.
use zelana.Base.{
  ℕ, ◌+◌, ◌≤◌, ◌<◌, ◌≡◌, refl, Bool, true, false, Option, none, some, List, [], ◌∷◌, length,
  u64_mod, arith, Bool-cases, Option-cases, inl, inr, bytes_eq, nat_eq,
}
use zelana.AccountTree.Codec.{BigBytes}
use zelana.Shielded.{Poseidon}
use zelana.Router.Signature.{Crypto}
use zelana.Batch.Witness.{BatchPublicInputs, BatchWitness}
use zelana.BatchManager.{
  BatchManager, batch_proved, prepare_batch_for_proving, check_timeout, submit_transaction,
}
use zelana.BatchManager.Calls.{after}
use zelana.Pipeline.{
  Pipeline, World, Attempt, Proving, proof_of, prover_failed, panicked, finish_proving,
  prove_prepared, try_prove, resume, running,
}
use zelana.Router.Types.{TransactionType}
use zelana.BatchManager.Preserved.{check_timeout_lem}
use zelana.Pipeline.Ready.{IsReady, serve-IsReady, try_prove-IsReady}
use zelana.Pipeline.Stuck.{try_settle_prover}
use zelana.Pipeline.Service.{
  Command, submit, seal, force_seal, pause_for, resumes, shutdown, ticks, tick, serve, run_service,
  is_shutdown,
}
use zelana.BatchManager.Valid.{seal_queues}
use zelana.BatchManager.{ensure_batch, submit_to}
use zelana.Batch.{add_transaction, should_seal}
use zelana.BatchManager.Shape.{ensured, opened, opened_only, update_pending_only}
use zelana.Pipeline.Unproved.{Unproved, serve-Unproved, prepare_proving}

opened_next :
    (m : BatchManager) (tx : TransactionType) (now : ℕ)
    → (opened m tx now).next_batch_id ≤ m.next_batch_id + 1
unfolding ensure_batch
opened_next m tx now = ground (arith, update_pending_only (ensure_batch m now) tx)

module _ (B : BigBytes) (C : Crypto) (P : Poseidon) where
  submit_next :
      (m : BatchManager) (tx : TransactionType) (now : ℕ)
      → (after m (submit_transaction B C P m tx now)).next_batch_id ≤ m.next_batch_id + 1
  unfolding submit_transaction submit_to
  submit_next m tx now =
      let o = opened m tx now in
      let (there, _, _, _) = opened_only m tx now in
      let next = opened_next m tx now in
      elim (Option-cases (add_transaction (ensured m now) tx)) [
        | inl refused ↦ ground (arith, there, refused)
        | inr (b', taken) ↦ elim (Bool-cases (should_seal b' o.config now)) [
          | inl full ↦ ground (
            arith,
            there,
            taken,
            full,
            next,
            seal_queues B C P (record o { current_batch = some b' }) false,
          )
          | inr room ↦ ground (arith, there, taken, room, next)
        ]
      ]

  finish_proving_next :
      (id : ℕ) (outcome : Proving) (p : Pipeline)
      → (finish_proving id outcome p).1.manager.next_batch_id ≡ p.manager.next_batch_id
  unfolding finish_proving batch_proved
  finish_proving_next id prover_failed p = refl
  finish_proving_next id panicked p = refl
  finish_proving_next id (proof_of bytes) p = ground arith

  prove_prepared_next :
      (W : World) (prepared : Option (ℕ × Option BatchPublicInputs × BatchWitness)) (p : Pipeline)
      → (prove_prepared W prepared p).1.manager.next_batch_id ≡ p.manager.next_batch_id
  unfolding prove_prepared
  prove_prepared_next W none p = refl
  prove_prepared_next W (some (id, none, w)) p = refl
  prove_prepared_next W (some (id, some i, w)) p =
      finish_proving_next id (W.prove i w) (record p { proving_batch = some id })

  try_prove_next :
      (W : World) (p : Pipeline)
      → (try_prove B C W p).1.manager.next_batch_id ≡ p.manager.next_batch_id
  unfolding try_prove prepare_batch_for_proving
  try_prove_next W p =
      let (prepared, m) = prepare_batch_for_proving B C p.manager in
      ground (arith, prove_prepared_next W prepared (record p { manager = m }))

  tick_next :
      (W : World) (p : Pipeline) → (tick B C P W p).manager.next_batch_id ≡ p.manager.next_batch_id
  unfolding tick
  tick_next W p =
      let m = (check_timeout B C P p.manager W.now).1 in
      let p₁ = record p { manager = m } in
      ground (
        arith,
        check_timeout_lem B C P p.manager W.now,
        seal_queues B C P p.manager false,
        try_prove_next W p₁,
        try_settle_prover B C P W (try_prove B C W p₁).1,
      )

  serve_next :
      (dev_mode : Bool) (p : Pipeline) (c : Command)
      → (serve B C P dev_mode p c).manager.next_batch_id ≤ p.manager.next_batch_id + 1
  unfolding serve resume
  serve_next dev_mode p (submit tx now) = submit_next p.manager tx now
  serve_next dev_mode p seal = omega (arith, seal_queues B C P p.manager false)
  serve_next dev_mode p force_seal = omega (arith, seal_queues B C P p.manager dev_mode)
  serve_next dev_mode p (pause_for reason) = omega arith
  serve_next dev_mode p resumes = ground arith
  serve_next dev_mode p shutdown = ground (arith, seal_queues B C P p.manager true)
  serve_next dev_mode p (ticks W) = omega (arith, tick_next W p)

  -- From a pipeline with a valid manager and no settlement under way, whatever commands and ticks
  -- the service takes, as long as batch numbers are left for them, the manager stays valid and no
  -- settlement is left half done.
  pub run_service-IsReady :
      (dev_mode : Bool) (cs : List Command) (p : Pipeline)
      → IsReady p
      → p.manager.next_batch_id + length cs < u64_mod
      → IsReady (run_service B C P dev_mode p cs)
  unfolding run_service
  run_service-IsReady dev_mode [] p r room = r
  run_service-IsReady dev_mode (c ∷ cs) p r room =
      let p' = serve B C P dev_mode p c in
      let r' = serve-IsReady B C P dev_mode p c r (omega (arith, room)) in
      elim (Bool-cases (is_shutdown c)) [
        | inl last ↦ rw last r'
        | inr more ↦
            rw more
              (run_service-IsReady dev_mode cs p' r' (omega (arith, room, serve_next dev_mode p c)))
      ]

  run-Unproved :
      (dev_mode : Bool) (cs : List Command) (p : Pipeline) (id : ℕ)
      → IsReady p
      → p.manager.next_batch_id + length cs < u64_mod
      → Unproved id p
      → Unproved id (run_service B C P dev_mode p cs)
  unfolding run_service
  run-Unproved dev_mode [] p id r room u = u
  run-Unproved dev_mode (c ∷ cs) p id r room u =
      let p' = serve B C P dev_mode p c in
      let r' = serve-IsReady B C P dev_mode p c r (omega (arith, room)) in
      let u' = serve-Unproved B C P dev_mode p c id r u in
      elim (Bool-cases (is_shutdown c)) [
        | inl last ↦ rw last u'
        | inr more ↦
            rw more
              (run-Unproved dev_mode cs p' id r' (omega (arith, room, serve_next dev_mode p c)) u')
      ]

  -- A batch whose proof the prover fails to make, in a running pipeline with a valid manager,
  -- waits for it for good: it stays in the proving queue, in the state of a batch that is being
  -- proved, whatever commands and ticks follow, as long as batch numbers are left for them.
  pub try_prove-prover_failed :
      (W : World) (p : Pipeline) (id : ℕ) (i : BatchPublicInputs) (w : BatchWitness)
      (dev_mode : Bool) (cs : List Command)
      → IsReady p
      → p.manager.next_batch_id + length cs < u64_mod
      → p.state ≡ running
      → p.proving_batch ≡ none
      → (prepare_batch_for_proving B C p.manager).0 ≡ some (id, some i, w)
      → W.prove i w ≡ prover_failed
      → let (attempt, p') = try_prove B C W p in
        (attempt ≡ Attempt.failed) × Unproved id (run_service B C P dev_mode p' cs)
  unfolding try_prove prove_prepared finish_proving
  try_prove-prover_failed W p id i w dev_mode cs r room runs free prepared refuses =
      let p' = (try_prove B C W p).1 in
      (
        ground (arith, runs, free, prepared, refuses),
        run-Unproved dev_mode cs p' id (try_prove-IsReady B C P W p r)
            (omega (arith, room, try_prove_next W p))
            (ground (
              arith,
              runs,
              free,
              prepared,
              refuses,
              prepare_proving B C P p.manager id (some i) w prepared,
            )),
      )
