-- ===== src/Pipeline/Unproved.antt =====
-- A batch whose proof failed: the service does not come back to it.
use zelana.Base.{
  ℕ, ◌≤◌, ◌≡◌, ap, Bool, true, false, not, ◌||◌, Option, none, some, Bytes, nat_beq, if◌then◌else◌,
  arith, Bool-cases, Option-cases, inl, inr, bytes_eq, nat_eq,
}
use zelana.AccountTree.Codec.{BigBytes}
use zelana.Shielded.{Poseidon}
use zelana.Router.Signature.{Crypto}
use zelana.Batch.{Batch, is_sealed, is_proving, start_proving}
use zelana.Batch.Witness.{BatchPublicInputs, BatchWitness}
use zelana.BatchManager.{
  BatchManager, find, has_id, ok, batch_proved, prepare_batch_for_proving, check_timeout,
  remove_first, submit_transaction, count_withdrawals, seal_current_batch_inner,
}
use zelana.BatchManager.Calls.{Result-cases, after}
use zelana.Pipeline.{
  Pipeline, World, Proving, proof_of, prover_failed, panicked, finish_proving, prove_prepared,
  try_prove, is_some, is_running, resume,
}
use zelana.Merkle.{unwrap_or}
use zelana.Router.Types.{TransactionType}
use zelana.AccountTree.BatchHash.{compute_withdrawal_root_mimc}
use zelana.Prover.{build_public_inputs, build_witness_with_proofs}
use zelana.BatchManager.Preserved.{check_timeout_lem, timeout-IsValid}
use zelana.BatchManager.Shape.{seal-Pushes, submit-Pushes}
use zelana.Pipeline.Ready.{IsReady}
use zelana.Pipeline.Stuck.{try_settle_prover}
use zelana.Pipeline.Service.{
  Command, submit, seal, force_seal, pause_for, resumes, shutdown, ticks, tick, serve,
}
use zelana.BatchManager.Weights.{
  sum_of, sum_of-push, sum_of-remove_first, sum_of-change_first_ge, sum_of-changed, find-test,
  sum_of-le,
}
use zelana.BatchManager.Valid.{IsValid, named}

-- One for a batch of that number that waits for its proof.
abbrev pub unproved : ℕ → Batch → ℕ
unproved id b = if is_proving b.state then named id b else 0

abbrev pub Unproved : ℕ → Pipeline → Type 0
Unproved id p = 1 ≤ sum_of (unproved id) p.manager.proving_batches

-- A sealed batch has another number than one that waits for its proof.
sealed_other :
    (m : BatchManager) (id : ℕ) (b : Batch)
    → IsValid m
    → 1 ≤ sum_of (unproved id) m.proving_batches
    → find (λ c. is_sealed c.state) m.proving_batches ≡ some b
    → nat_beq b.id id ≡ false
sealed_other m id b v waits there =
    let test = find-test (λ c. is_sealed c.state) m.proving_batches b there in
    let rest = remove_first (λ c. is_sealed c.state) m.proving_batches in
    ground (
      arith,
      test,
      v.once id,
      waits,
      sum_of-remove_first (unproved id) (λ c. is_sealed c.state) m.proving_batches b there,
      sum_of-remove_first (named id) (λ c. is_sealed c.state) m.proving_batches b there,
      sum_of-le (unproved id) (named id) rest (λ c. ground arith),
    )

module _ (B : BigBytes) (C : Crypto) (P : Poseidon) where
  batch_proved_other :
      (m : BatchManager) (id other : ℕ) (proof : Bytes) (m' : BatchManager)
      → nat_beq other id ≡ false
      → batch_proved m other proof ≡ ok m'
      → sum_of (unproved id) m.proving_batches ≤ sum_of (unproved id) m'.proving_batches
  unfolding batch_proved
  batch_proved_other m id other proof m' differ e =
      elim (Option-cases (find (has_id other) m.proving_batches)) [
        | inl missing ↦ ground (arith, missing)
        | inr (b, there) ↦ ground (
          arith,
          there,
          differ,
          find-test (has_id other) m.proving_batches b there,
          sum_of-remove_first (unproved id) (has_id other) m.proving_batches b there,
        )
      ]

  finish_proving_other :
      (id other : ℕ) (outcome : Proving) (p : Pipeline)
      → nat_beq other id ≡ false
      → Unproved id p
      → Unproved id (finish_proving other outcome p).1
  unfolding finish_proving
  finish_proving_other id other prover_failed p differ u = u
  finish_proving_other id other panicked p differ u = u
  finish_proving_other id other (proof_of bytes) p differ u =
      elim (Result-cases (batch_proved p.manager other bytes)) [
        | inl (m', e) ↦
            ground (arith, e, u, batch_proved_other p.manager id other bytes m' differ e)
        | inr (x, e) ↦ ground (arith, e, u)
      ]

  prepare_unproved :
      (m : BatchManager) (id : ℕ)
      → sum_of (unproved id) m.proving_batches
        ≤ sum_of (unproved id) (prepare_batch_for_proving B C m).1.proving_batches
  unfolding prepare_batch_for_proving
  prepare_unproved m id = ground (
    arith,
    sum_of-change_first_ge (unproved id) (λ (c : Batch). is_sealed c.state) start_proving
        m.proving_batches (λ c. ground arith),
  )

  prove_prepared_other :
      (W : World) (id other : ℕ) (inputs : Option BatchPublicInputs) (w : BatchWitness)
      (p : Pipeline)
      → nat_beq other id ≡ false
      → Unproved id p
      → Unproved id (prove_prepared W (some (other, inputs, w)) p).1
  unfolding prove_prepared
  prove_prepared_other W id other none w p differ u = u
  prove_prepared_other W id other (some i) w p differ u =
      finish_proving_other id other (W.prove i w) (record p { proving_batch = some other }) differ u

  pub prepare_nothing :
      (m : BatchManager)
      → find (λ c. is_sealed c.state) m.proving_batches ≡ none
      → (prepare_batch_for_proving B C m).0 ≡ none
  unfolding prepare_batch_for_proving
  prepare_nothing m missing = ground (arith, missing)

  pub prepare_id :
      (m : BatchManager) (b : Batch)
      → find (λ c. is_sealed c.state) m.proving_batches ≡ some b
      → (inputs : Option BatchPublicInputs) × (w : BatchWitness) × ((prepare_batch_for_proving B C
            m).0
          ≡ some (b.id, inputs, w))
  unfolding prepare_batch_for_proving
  prepare_id m b there = (
    build_public_inputs C b
        (compute_withdrawal_root_mimc B b.id (count_withdrawals b.transactions)),
    unwrap_or b.witness (build_witness_with_proofs B b m.router.account_tree m.router.db),
    ground (arith, there),
  )

  -- The prepared batch waits for its proof.
  pub prepare_proving :
      (m : BatchManager) (id : ℕ) (inputs : Option BatchPublicInputs) (w : BatchWitness)
      → (prepare_batch_for_proving B C m).0 ≡ some (id, inputs, w)
      → 1 ≤ sum_of (unproved id) (prepare_batch_for_proving B C m).1.proving_batches
  unfolding prepare_batch_for_proving
  prepare_proving m id inputs w e =
      elim (Option-cases (find (λ c. is_sealed c.state) m.proving_batches)) [
        | inl missing ↦ ground (arith, missing)
        | inr (b, there) ↦ ground (
          arith,
          there,
          sum_of-changed (unproved id) (λ (c : Batch). is_sealed c.state) start_proving
              m.proving_batches b there,
        )
      ]

  try_prove-Unproved :
      (W : World) (p : Pipeline) (id : ℕ)
      → IsValid p.manager
      → Unproved id p
      → Unproved id (try_prove B C W p).1
  unfolding try_prove prove_prepared
  try_prove-Unproved W p id v u =
      elim (Bool-cases (is_some p.proving_batch || not (is_running p.state))) [
        | inl busy ↦ ground (arith, busy, u)
        | inr idle ↦
            let m = (prepare_batch_for_proving B C p.manager).1 in
            let u' : Unproved id (record p { manager = m }) =
              omega (arith, u, prepare_unproved p.manager id) in
            elim (Option-cases (find (λ c. is_sealed c.state) p.manager.proving_batches)) [
              | inl missing ↦ ground (arith, idle, prepare_nothing p.manager missing, u')
              | inr (b, there) ↦
                  let (inputs, w, prepared) = prepare_id p.manager b there in
                  ground (
                    arith,
                    idle,
                    prepared,
                    prove_prepared_other W id b.id inputs w (record p { manager = m })
                        (sealed_other p.manager id b v u there) u',
                  )
            ]
      ]

  seal_unproved :
      (m : BatchManager) (immediate : Bool) (id : ℕ)
      → sum_of (unproved id) (seal_current_batch_inner B C P m immediate).1.proving_batches
        ≡ sum_of (unproved id) m.proving_batches
  seal_unproved m immediate id = elim (seal-Pushes B C P m immediate) [
    | inl same ↦ ap (sum_of (unproved id)) same
    | inr (b, pushed, state) ↦
        ground (arith, pushed, state, sum_of-push (unproved id) m.proving_batches b)
  ]

  tick-Unproved :
      (W : World) (p : Pipeline) (id : ℕ) → IsReady p → Unproved id p → Unproved id (tick B C P W p)
  unfolding tick
  tick-Unproved W p id r u = elim (Bool-cases (is_running p.state)) [
    | inl runs ↦
        let m = (check_timeout B C P p.manager W.now).1 in
        let p₁ = record p { manager = m } in
        let u₁ : Unproved id p₁ =
          ground
            (arith, u, check_timeout_lem B C P p.manager W.now, seal_unproved p.manager false id) in
        let u₂ = try_prove-Unproved W p₁ id (timeout-IsValid B C P p.manager W.now r.managed) u₁ in
        ground (arith, runs, u₂, try_settle_prover B C P W (try_prove B C W p₁).1)
    | inr waits ↦ ground (arith, waits, u)
  ]

  submit_unproved :
      (m : BatchManager) (tx : TransactionType) (now : ℕ) (id : ℕ)
      → sum_of (unproved id) (after m (submit_transaction B C P m tx now)).proving_batches
        ≡ sum_of (unproved id) m.proving_batches
  submit_unproved m tx now id = elim (Result-cases (submit_transaction B C P m tx now)) [
    | inr (x, failed) ↦ ground (arith, failed)
    | inl (m', e) ↦ elim (submit-Pushes B C P m tx now m' e) [
      | inl same ↦ ground (arith, e, same)
      | inr (b, pushed, state) ↦
          ground (arith, e, pushed, state, sum_of-push (unproved id) m.proving_batches b)
    ]
  ]

  pub serve-Unproved :
      (dev_mode : Bool) (p : Pipeline) (c : Command) (id : ℕ)
      → IsReady p
      → Unproved id p
      → Unproved id (serve B C P dev_mode p c)
  unfolding serve resume
  serve-Unproved dev_mode p (submit tx now) id r u =
      omega (arith, u, submit_unproved p.manager tx now id)
  serve-Unproved dev_mode p seal id r u = omega (arith, u, seal_unproved p.manager false id)
  serve-Unproved dev_mode p force_seal id r u =
      omega (arith, u, seal_unproved p.manager dev_mode id)
  serve-Unproved dev_mode p (pause_for reason) id r u = u
  serve-Unproved dev_mode p resumes id r u = ground (arith, u)
  serve-Unproved dev_mode p shutdown id r u = ground (arith, u, seal_unproved p.manager true id)
  serve-Unproved dev_mode p (ticks W) id r u = tick-Unproved W p id r u
