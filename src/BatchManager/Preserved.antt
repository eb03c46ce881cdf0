-- ===== src/BatchManager/Preserved.antt =====
-- Every call keeps a manager valid, as long as batch numbers are left.
use zelana.Base.{
  ℕ, ◌+◌, ◌≤◌, ◌<◌, ◌≡◌, sym, false, none, Bytes, arith, u64_mod, bytes_eq, Option-cases, inl, inr,
  ◌⊎◌,
}
use mathlib.Core.Path.{subst}
use zelana.AccountTree.Codec.{BigBytes}
use zelana.Shielded.{Poseidon}
use zelana.Router.Signature.{Crypto}
use zelana.Batch.{Batch, is_sealed, start_proving, start_settling, set_proof}
use zelana.BatchManager.{
  BatchManager, ok, seal_current_batch, check_timeout, find, has_id, batch_proved, batch_settled,
  batch_finalized, prepare_batch_for_proving,
}
use zelana.BatchManager.Weights.{
  sum_of, total, sum_of-push, sum_of-remove_first, sum_of-change_first_le,
}
use zelana.BatchManager.Calls.{
  Call, submits, seals, times_out, prepares, proves, settles, finalizes, step, after, Result-cases,
}
use zelana.BatchManager.Flow.{
  total-batch_proved, total-batch_settled, total-prepare_batch_for_proving, total-batch_finalized,
}
use zelana.BatchManager.Valid.{
  IsValid, not_in_proof, not_in_settlement, named, named-IsStable, seal-IsValid,
}
use zelana.BatchManager.Accepts.{submit_transaction-IsValid}

module _ (B : BigBytes) (C : Crypto) (P : Poseidon) where
  pub check_timeout_lem :
      (m : BatchManager) (now : ℕ)
      → (check_timeout B C P m now ≡ (none, m))
        ⊎ (check_timeout B C P m now ≡ seal_current_batch B C P m)
  unfolding check_timeout
  check_timeout_lem m now = ground arith

  pub timeout-IsValid :
      (m : BatchManager) (now : ℕ) → IsValid m → IsValid (check_timeout B C P m now).1
  timeout-IsValid m now v = elim (check_timeout_lem m now) [
    | inl waits ↦ subst (λ r. IsValid r.1) (sym waits) v
    | inr late ↦ subst (λ r. IsValid r.1) (sym late) (seal-IsValid B C P m false v)
  ]

  -- An operation that opens no batch, misplaces none and doubles none.
  kept :
      (m m' : BatchManager)
      → IsValid m
      → m'.next_batch_id ≡ m.next_batch_id
      → m'.current_batch ≡ m.current_batch
      → sum_of not_in_proof m'.proving_batches ≤ sum_of not_in_proof m.proving_batches
      → sum_of not_in_settlement m'.pending_settlement
        ≤ sum_of not_in_settlement m.pending_settlement
      → ((id : ℕ) → total (named id) m' ≤ total (named id) m)
      → IsValid m'
  kept m m' v next same proof settlement names = record {
    open_batch = rw same v.open_batch;
    in_proof = omega (arith, v.in_proof);
    in_settlement = omega (arith, v.in_settlement);
    once = λ id. omega (arith, v.once id, names id);
    unused = λ id h. omega (arith, v.unused id (omega arith), names id);
  }

  pub prepare-IsValid : (m : BatchManager) → IsValid m → IsValid (prepare_batch_for_proving B C m).1
  unfolding prepare_batch_for_proving
  prepare-IsValid m v =
      kept m (prepare_batch_for_proving B C m).1 v (ground arith) (ground arith)
        (ground (
          arith,
          sum_of-change_first_le not_in_proof (λ (c : Batch). is_sealed c.state) start_proving
              m.proving_batches (λ b. ground arith),
        ))
        (ground arith)
        (λ id.
          omega (arith, total-prepare_batch_for_proving B C P (named id) (named-IsStable id) m))

  pub batch_proved-IsValid :
      (m : BatchManager) (id : ℕ) (proof : Bytes) (m' : BatchManager)
      → IsValid m
      → batch_proved m id proof ≡ ok m'
      → IsValid m'
  unfolding batch_proved
  batch_proved-IsValid m id proof m' v e =
      elim (Option-cases (find (has_id id) m.proving_batches)) [
        | inl missing ↦ ground (arith, missing)
        | inr (b, there) ↦
            kept m m' v (ground (arith, there)) (ground (arith, there))
              (ground (
                arith,
                there,
                sum_of-remove_first not_in_proof (has_id id) m.proving_batches b there,
              ))
              (ground (
                arith,
                there,
                v.in_proof,
                sum_of-remove_first not_in_proof (has_id id) m.proving_batches b there,
                sum_of-push not_in_settlement m.pending_settlement (set_proof b proof),
              ))
              (λ n.
                omega
                  (arith, total-batch_proved B C P (named n) (named-IsStable n) m id proof m' e))
      ]

  pub batch_settled-IsValid :
      (m : BatchManager) (id : ℕ) (l1_sig : Bytes) (m' : BatchManager)
      → IsValid m
      → batch_settled m id l1_sig ≡ ok m'
      → IsValid m'
  unfolding batch_settled
  batch_settled-IsValid m id l1_sig m' v e =
      kept m m' v (ground arith) (ground arith) (ground arith)
        (ground (
          arith,
          sum_of-change_first_le not_in_settlement (has_id id)
              (λ (c : Batch). start_settling c l1_sig) m.pending_settlement (λ b. ground arith),
        ))
        (λ n.
          omega (arith, total-batch_settled B C P (named n) (named-IsStable n) m id l1_sig m' e))

  pub batch_finalized-IsValid :
      (m : BatchManager) (id : ℕ) → IsValid m → IsValid (batch_finalized B m id).1
  unfolding batch_finalized
  batch_finalized-IsValid m id v = elim (Option-cases (find (has_id id) m.pending_settlement)) [
    | inl missing ↦
        kept m (batch_finalized B m id).1 v (ground (arith, missing)) (ground (arith, missing))
          (ground (arith, missing)) (ground (arith, missing)) (λ n. ground (arith, missing))
    | inr (b, there) ↦
        kept m (batch_finalized B m id).1 v (ground (arith, there)) (ground (arith, there))
          (ground (arith, there))
          (ground (
            arith,
            there,
            sum_of-remove_first not_in_settlement (has_id id) m.pending_settlement b there,
          ))
          (λ n.
            omega (arith, total-batch_finalized B C P (named n) (named-IsStable n) m id b there))
  ]

  -- Every call keeps a manager valid while a number for a new batch is left.
  pub step-IsValid :
      (m : BatchManager) (call : Call)
      → IsValid m
      → m.next_batch_id + 1 < u64_mod
      → IsValid (step B C P m call)
  unfolding step
  step-IsValid m (submits tx now) v room =
      let (m', e, v') = submit_transaction-IsValid B C P m tx now v room in
      subst (λ r. IsValid (after m r)) (sym e) v'
  step-IsValid m (seals immediate) v room = seal-IsValid B C P m immediate v
  step-IsValid m (times_out now) v room = timeout-IsValid m now v
  step-IsValid m prepares v room = prepare-IsValid m v
  step-IsValid m (proves id proof) v room = elim (Result-cases (batch_proved m id proof)) [
    | inl (m', e) ↦
        subst (λ r. IsValid (after m r)) (sym e) (batch_proved-IsValid m id proof m' v e)
    | inr (e, failed) ↦ subst (λ r. IsValid (after m r)) (sym failed) v
  ]
  step-IsValid m (settles id l1_sig) v room = elim (Result-cases (batch_settled m id l1_sig)) [
    | inl (m', e) ↦
        subst (λ r. IsValid (after m r)) (sym e) (batch_settled-IsValid m id l1_sig m' v e)
    | inr (e, failed) ↦ subst (λ r. IsValid (after m r)) (sym failed) v
  ]
  step-IsValid m (finalizes id) v room = batch_finalized-IsValid m id v
