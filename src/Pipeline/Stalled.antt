-- ===== src/Pipeline/Stalled.antt =====
-- A pipeline whose settlements fail: what a tick does before it settles, and the failed settlement.
use zelana.Base.{
  ℕ, ◌≡◌, refl, ap, ◌∙◌, Bool, true, false, not, ◌||◌, Option, none, some, List, [], ◌∷◌, ◌++◌,
  Bytes, arith, Bool-cases, Option-cases, inl, inr,
}
use zelana.AccountTree.Codec.{BigBytes}
use zelana.Shielded.{Poseidon}
use zelana.Router.Signature.{Crypto}
use zelana.Batch.{Batch, set_proof, is_proved}
use zelana.Batch.Witness.{BatchPublicInputs, BatchWitness}
use zelana.BatchManager.{
  BatchManager, find, has_id, batch_proved, prepare_batch_for_proving, check_timeout,
}
use zelana.BatchManager.Valid.{seal_queues}
use zelana.BatchManager.Preserved.{check_timeout_lem}
use zelana.Withdrawals.{TrackedWithdrawal}
use zelana.Withdrawals.Root.{build_withdrawal_merkle_root, zero_hash}
use zelana.Withdrawals.RootShape.{build_withdrawal_merkle_root-IsRoot}
use zelana.Pipeline.{
  Pipeline, World, Proving, BatchProof, is_some, is_running, running, try_prove, finish_proving,
  prove_prepared, proof_of, prover_failed, panicked,
}
use zelana.Pipeline.Settle.{
  try_settle, settle_batch, settle_with, finish_settlement, count_failure, proof_to_settle,
  withdrawals_of, settled_proof, previous_id,
}

-- The settlement service fails at whatever it is given.
abbrev pub Fails : World → Type 0
Fails W =
    ((proof : BatchProof) (previous : ℕ) → W.submit_auto proof previous ≡ none)
    × ((proof : BatchProof) (previous : ℕ) (ws : List TrackedWithdrawal)
        → W.submit_with_withdrawals proof previous ws ≡ none)

abbrev pub AllFail : List World → Type 0
AllFail [] = Unit
AllFail (W ∷ Ws) = Fails W × AllFail Ws

-- A proved batch waits for its settlement.
abbrev pub Waits : BatchManager → Type 0
Waits m = (b : Batch) × (find (λ c. is_proved c.state) m.pending_settlement ≡ some b)

find-append :
    (p : Batch → Bool) (xs ys : List Batch) (b : Batch)
    → find p xs ≡ some b
    → find p (xs ++ ys) ≡ some b
unfolding find
find-append p [] ys b e = cc
find-append p (x ∷ xs) ys b e = ground (arith, find-append p xs ys b)

-- The root of the withdrawals never panics, so there is a proof to settle.
pub proof_to_settle-some :
    (C : Crypto) (b : Batch) (ws : List TrackedWithdrawal)
    → (r : Bytes) × (build_withdrawal_merkle_root C ws ≡ some r)
      × (proof_to_settle C b ws ≡ some (settled_proof C b r))
unfolding proof_to_settle
proof_to_settle-some C b [] =
    let built : build_withdrawal_merkle_root C [] ≡ some zero_hash =
      unfold build_withdrawal_merkle_root in refl in
    (zero_hash, built, ground (arith, built))
proof_to_settle-some C b (w ∷ ws) =
    let (h, filling, r, built, _, _, _) = build_withdrawal_merkle_root-IsRoot C w ws in
    (r, built, ground (arith, built))

settle_with-Fails :
    (W : World) (proof : BatchProof) (ws : List TrackedWithdrawal) (p : Pipeline)
    → Fails W
    → p.has_service ≡ true
    → settle_with W proof ws p ≡ (none, p)
unfolding settle_with
settle_with-Fails W proof [] p (auto, with_ws) service =
    ground (arith, service, auto proof (previous_id proof.public_inputs.batch_id))
settle_with-Fails W proof (w ∷ ws) p (auto, with_ws) service = ground (
  arith,
  service,
  auto proof (previous_id proof.public_inputs.batch_id),
  with_ws proof (previous_id proof.public_inputs.batch_id) (w ∷ ws),
)

-- What a stalled pipeline looks like after some failures.
pub record IsStalled (p : Pipeline) (n retries : ℕ) : Type 0 where
  pub limited : p.max_settlement_retries ≡ n
  pub runs : p.state ≡ running
  pub free : p.settling_batch ≡ none
  pub serviced : p.has_service ≡ true
  pub counted : p.settlement_retries ≡ retries
  pub waiting : Waits p.manager

module _ (B : BigBytes) (C : Crypto) (P : Poseidon) where
  pub try_settle-Fails :
      (W : World) (p : Pipeline) (n retries : ℕ)
      → Fails W
      → IsStalled p n retries
      → (b : Batch) × ((try_settle B C W p).1
          ≡ (count_failure B W.reason (record p { settling_batch = some b.id })).1)
  unfolding try_settle settle_batch finish_settlement
  try_settle-Fails W p n retries fails stalled =
      let (b, there) = stalled.waiting in
      let ws = withdrawals_of b.id W.now b.results in
      let (r, _, proof) = proof_to_settle-some C b ws in
      (
        b,
        ground (
          arith,
          stalled.runs,
          stalled.free,
          there,
          proof,
          settle_with-Fails W (settled_proof C b r) ws (record p { settling_batch = some b.id })
              fails stalled.serviced,
        ),
      )

  check_timeout_settlement :
      (m : BatchManager) (now : ℕ)
      → (check_timeout B C P m now).1.pending_settlement ≡ m.pending_settlement
  check_timeout_settlement m now =
      ground (arith, check_timeout_lem B C P m now, seal_queues B C P m false)

  finish_proving_keeps :
      (id : ℕ) (outcome : Proving) (p : Pipeline) (n retries : ℕ)
      → IsStalled p n retries
      → IsStalled (finish_proving id outcome p).1 n retries
  unfolding finish_proving batch_proved
  finish_proving_keeps id prover_failed p n retries s = record {
    limited = s.limited;
    runs = s.runs;
    free = s.free;
    serviced = s.serviced;
    counted = s.counted;
    waiting = s.waiting;
  }
  finish_proving_keeps id panicked p n retries s = s
  finish_proving_keeps id (proof_of bytes) p n retries s = record {
    limited = ground (arith, s.limited);
    runs = ground (arith, s.runs);
    free = ground (arith, s.free);
    serviced = ground (arith, s.serviced);
    counted = ground (arith, s.counted);
    waiting = elim (Option-cases (find (has_id id) p.manager.proving_batches)) [
      | inl missing ↦ (s.waiting.0, ground (arith, missing, s.waiting.1))
      | inr (b, there) ↦ (
        s.waiting.0,
        ground (
          arith,
          there,
          find-append (λ (c : Batch). is_proved c.state) p.manager.pending_settlement
              (set_proof b bytes ∷ []) s.waiting.0 s.waiting.1,
        ),
      )
    ];
  }

  prove_prepared_keeps :
      (W : World) (prepared : Option (ℕ × Option BatchPublicInputs × BatchWitness)) (p : Pipeline)
      (n retries : ℕ)
      → IsStalled p n retries
      → IsStalled (prove_prepared W prepared p).1 n retries
  unfolding prove_prepared
  prove_prepared_keeps W none p n retries s = s
  prove_prepared_keeps W (some (id, none, witness)) p n retries s = s
  prove_prepared_keeps W (some (id, some i, witness)) p n retries s =
      finish_proving_keeps id (W.prove i witness) (record p { proving_batch = some id }) n retries
        record {
          limited = s.limited;
          runs = s.runs;
          free = s.free;
          serviced = s.serviced;
          counted = s.counted;
          waiting = s.waiting;
        }

  prepare_settlement :
      (m : BatchManager)
      → (prepare_batch_for_proving B C m).1.pending_settlement ≡ m.pending_settlement
  unfolding prepare_batch_for_proving
  prepare_settlement m = ground arith

  with_manager :
      (p : Pipeline) (m : BatchManager) (n retries : ℕ)
      → IsStalled p n retries
      → m.pending_settlement ≡ p.manager.pending_settlement
      → IsStalled (record p { manager = m }) n retries
  with_manager p m n retries s same = record {
    limited = s.limited;
    runs = s.runs;
    free = s.free;
    serviced = s.serviced;
    counted = s.counted;
    waiting = (s.waiting.0, ap (find (λ c. is_proved c.state)) same ∙ s.waiting.1);
  }

  try_prove_keeps :
      (W : World) (p : Pipeline) (n retries : ℕ)
      → IsStalled p n retries
      → IsStalled (try_prove B C W p).1 n retries
  unfolding try_prove
  try_prove_keeps W p n retries s =
      let (prepared, m) = prepare_batch_for_proving B C p.manager in
      elim (Bool-cases (is_some p.proving_batch || not (is_running p.state))) [
        | inl busy ↦ rw busy s
        | inr free ↦ rw free (
            prove_prepared_keeps W prepared (record p { manager = m }) n retries
              (with_manager p m n retries s (prepare_settlement p.manager)))
      ]

  -- The state in which a tick settles.
  abbrev pub before_settlement : World → Pipeline → Pipeline
  before_settlement W p =
      (try_prove B C W (record p { manager = (check_timeout B C P p.manager W.now).1 })).1

  pub before_settlement_keeps :
      (W : World) (p : Pipeline) (n retries : ℕ)
      → IsStalled p n retries
      → IsStalled (before_settlement W p) n retries
  before_settlement_keeps W p n retries s =
      let m = (check_timeout B C P p.manager W.now).1 in
      try_prove_keeps W (record p { manager = m }) n retries
        (with_manager p m n retries s (check_timeout_settlement p.manager W.now))
