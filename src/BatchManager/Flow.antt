-- ===== src/BatchManager/Flow.antt =====
-- Which batches each operation adds to the manager and takes out of it.
use zelana.Base.{
  ℕ, ◌+◌, ◌≡◌, refl, ap, Bool, false, some, Bytes, arith, bytes_eq, Option-cases, Bool-cases, inl,
  inr,
}
use mathlib.Core.Path.{subst}
use zelana.AccountTree.Codec.{BigBytes}
use zelana.Shielded.{Poseidon}
use zelana.Router.Types.{TransactionType}
use zelana.Router.Signature.{Crypto}
use zelana.Batch.{
  Batch, add_transaction, is_empty, is_sealed, should_seal, start_proving, start_settling,
  set_proof,
}
use zelana.BatchManager.{
  BatchManager, ok, submit_to, submit_transaction, execute_and_seal, seal_current_batch_inner,
  check_timeout, find, has_id, batch_proved, batch_settled, batch_finalized,
  prepare_batch_for_proving,
}
use zelana.BatchManager.Weights.{
  current, total, sum_of-push, sum_of-remove_first, sum_of-change_first,
}
use zelana.BatchManager.Shape.{
  ensured, opened, opened_only, sealed_fields, seal_nonempty, seal_nothing,
}

-- A weight that only reads the number and the transactions of a batch.
abbrev pub IsStable : (Batch → ℕ) → Type 0
IsStable f = (b c : Batch) → c.id ≡ b.id → c.transactions ≡ b.transactions → f c ≡ f b

module _ (B : BigBytes) (C : Crypto) (P : Poseidon) (f : Batch → ℕ) (stable : IsStable f) where
  pub total-seal_current_batch_inner :
      (m : BatchManager) (immediate : Bool)
      → total f (seal_current_batch_inner B C P m immediate).1 ≡ total f m
  unfolding execute_and_seal
  total-seal_current_batch_inner m immediate = elim (Option-cases m.current_batch) [
    | inl missing ↦ ap (λ r. total f r.1) (seal_nothing B C P m immediate (λ b there. cc))
    | inr (b, there) ↦ elim (Bool-cases (is_empty b.transactions)) [
      | inl empty ↦
          ap (λ r. total f r.1)
            (seal_nothing B C P m immediate (λ c h. grind (arith, empty, there, h)))
      | inr full ↦
          let (m', b') = execute_and_seal B C P m b immediate in
          ground (
            arith,
            seal_nonempty B C P m immediate b there full,
            sealed_fields B C P m b immediate,
            stable b b',
            sum_of-push f m.proving_batches b',
          )
    ]
  ]

  -- What an accepted transaction changes: the current batch, that a full one is then sealed.
  pub total-submit_to :
      (m : BatchManager) (b : Batch) (tx : TransactionType) (now : ℕ)
      → m.current_batch ≡ some b
      → (m' : BatchManager) → submit_to B C P m (some b) tx now ≡ ok m'
      → (b' : Batch) × (add_transaction b tx ≡ some b') × (total f m' + f b ≡ total f m + f b')
  unfolding submit_to
  total-submit_to m b tx now there m' e = elim (Option-cases (add_transaction b tx)) [
    | inl refused ↦ ground (arith, refused)
    | inr (b', taken) ↦ (
      b',
      taken,
      elim (Bool-cases (should_seal b' m.config now)) [
        | inl full ↦ ground (
          arith,
          taken,
          full,
          e,
          there,
          total-seal_current_batch_inner (record m { current_batch = some b' }) false,
        )
        | inr room ↦ ground (arith, taken, room, e, there)
      ],
    )
  ]

  pub total-opened :
      (m : BatchManager) (tx : TransactionType) (now : ℕ)
      → total f (opened m tx now) + current f m.current_batch ≡ total f m + f (ensured m now)
  total-opened m tx now = ground (arith, opened_only m tx now)

  pub total-submit_transaction :
      (m : BatchManager) (tx : TransactionType) (now : ℕ) (m' : BatchManager)
      → submit_transaction B C P m tx now ≡ ok m'
      → let b = ensured m now in
        (b' : Batch) × (add_transaction b tx ≡ some b')
        × (total f m' + current f (some b) ≡ total f (opened m tx now) + f b')
  unfolding submit_transaction
  total-submit_transaction m tx now m' e =
      let (there, _, _, _) = opened_only m tx now in
      total-submit_to (opened m tx now) (ensured m now) tx now there m'
        (subst (λ o. submit_to B C P (opened m tx now) o tx now ≡ ok m') there e)

  pub total-check_timeout :
      (m : BatchManager) (now : ℕ) → total f (check_timeout B C P m now).1 ≡ total f m
  unfolding check_timeout
  total-check_timeout m now = ground (arith, total-seal_current_batch_inner m false)

  pub total-batch_proved :
      (m : BatchManager) (id : ℕ) (proof : Bytes) (m' : BatchManager)
      → batch_proved m id proof ≡ ok m'
      → total f m' ≡ total f m
  unfolding batch_proved
  total-batch_proved m id proof m' e = elim (Option-cases (find (has_id id) m.proving_batches)) [
    | inl missing ↦ ground (arith, missing)
    | inr (b, there) ↦ ground (
      arith,
      there,
      stable b (set_proof b proof) refl refl,
      sum_of-push f m.pending_settlement (set_proof b proof),
      sum_of-remove_first f (has_id id) m.proving_batches b there,
    )
  ]

  pub total-batch_settled :
      (m : BatchManager) (id : ℕ) (l1_sig : Bytes) (m' : BatchManager)
      → batch_settled m id l1_sig ≡ ok m'
      → total f m' ≡ total f m
  unfolding batch_settled
  total-batch_settled m id l1_sig m' e = ground (
    arith,
    sum_of-change_first f (has_id id) (λ (c : Batch). start_settling c l1_sig) m.pending_settlement
        (λ b. stable b (start_settling b l1_sig) refl refl),
  )

  pub total-prepare_batch_for_proving :
      (m : BatchManager) → total f (prepare_batch_for_proving B C m).1 ≡ total f m
  unfolding prepare_batch_for_proving
  total-prepare_batch_for_proving m = ground (
    arith,
    sum_of-change_first f (λ (c : Batch). is_sealed c.state) start_proving m.proving_batches
        (λ b. stable b (start_proving b) refl refl),
  )

  -- The batch that is finalized leaves the manager, also where its commit fails.
  pub total-batch_finalized :
      (m : BatchManager) (id : ℕ) (b : Batch)
      → find (has_id id) m.pending_settlement ≡ some b
      → total f (batch_finalized B m id).1 + f b ≡ total f m
  unfolding batch_finalized
  total-batch_finalized m id b there =
      ground (arith, there, sum_of-remove_first f (has_id id) m.pending_settlement b there)
