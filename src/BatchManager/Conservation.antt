-- ===== src/BatchManager/Conservation.antt =====
-- The transactions that the manager holds are those it accepted, less those of finalized batches.
use zelana.Base.{
  ℕ, ◌+◌, ◌≡◌, ap, none, some, List, [], ◌∷◌, ◌++◌, arith, Option-cases, Bool-cases, inl, inr,
}
use zelana.AccountTree.Codec.{BigBytes}
use zelana.Shielded.{Poseidon}
use zelana.Router.Types.{TransactionType}
use zelana.Router.Signature.{Crypto}
use zelana.Batch.{Batch, is_accumulating, add_transaction}
use zelana.BatchManager.{
  BatchManager, ok, err, submit_transaction, find, has_id, batch_proved, batch_settled,
  batch_finalized,
}
use zelana.BatchManager.Calls.{
  Call, submits, seals, times_out, prepares, proves, settles, finalizes, step, run, after,
  Result-cases,
}
use zelana.BatchManager.Weights.{total, current}
use zelana.BatchManager.Shape.{ensured}
use zelana.BatchManager.Flow.{
  IsStable, total-seal_current_batch_inner, total-submit_transaction, total-opened,
  total-check_timeout, total-batch_proved, total-batch_settled, total-prepare_batch_for_proving,
  total-batch_finalized,
}

module _ (g : TransactionType → ℕ) where
  unfoldable pub weigh : List TransactionType → ℕ
  weigh [] = 0
  weigh (tx ∷ txs) = g tx + weigh txs

  -- The weight of the transactions of a batch.
  abbrev pub carried : Batch → ℕ
  carried b = weigh b.transactions

  weigh-push :
      (txs : List TransactionType) (tx : TransactionType)
      → weigh (txs ++ tx ∷ []) ≡ weigh txs + g tx
  unfolding weigh
  weigh-push [] tx = omega arith
  weigh-push (t ∷ txs) tx = omega (arith, weigh-push txs tx)

  carried-IsStable : IsStable carried
  carried-IsStable b c same_id same_txs = ap weigh same_txs

  carried-add_transaction :
      (b b' : Batch) (tx : TransactionType)
      → add_transaction b tx ≡ some b'
      → carried b' ≡ carried b + g tx
  unfolding add_transaction
  carried-add_transaction b b' tx e = elim (Bool-cases (is_accumulating b.state)) [
    | inl open_ ↦ ground (arith, open_, weigh-push b.transactions tx)
    | inr shut ↦ ground (arith, shut)
  ]

  module _ (B : BigBytes) (C : Crypto) (P : Poseidon) where
    -- The weight that a call brings in: of an accepted transaction.
    unfoldable pub brought : BatchManager → Call → ℕ
    brought m (submits tx now) = elim (submit_transaction B C P m tx now) [
      | ok m' ↦ g tx
      | err e ↦ 0
    ]
    brought m _ = 0

    -- The weight that a call takes out: of the batch that is finalized.
    unfoldable pub taken : BatchManager → Call → ℕ
    taken m (finalizes id) = elim (find (has_id id) m.pending_settlement) [
      | none ↦ 0
      | some b ↦ carried b
    ]
    taken m _ = 0

    abbrev pub brought_all : BatchManager → List Call → ℕ
    brought_all m [] = 0
    brought_all m (call ∷ calls) = brought m call + brought_all (step B C P m call) calls

    abbrev pub taken_all : BatchManager → List Call → ℕ
    taken_all m [] = 0
    taken_all m (call ∷ calls) = taken m call + taken_all (step B C P m call) calls

    carried-ensured :
        (m : BatchManager) (now : ℕ) → carried (ensured m now) ≡ current carried m.current_batch
    unfolding ensured weigh
    carried-ensured m now = ground arith

    total-submits :
        (m : BatchManager) (tx : TransactionType) (now : ℕ)
        → total carried (after m (submit_transaction B C P m tx now))
          ≡ total carried m + brought m (submits tx now)
    unfolding brought
    total-submits m tx now = elim (Result-cases (submit_transaction B C P m tx now)) [
      | inl (m', e) ↦
          let (b', added, same) =
            total-submit_transaction B C P carried carried-IsStable m tx now m' e in
          ground (
            arith,
            e,
            same,
            carried-add_transaction (ensured m now) b' tx added,
            total-opened B C P carried carried-IsStable m tx now,
            carried-ensured m now,
          )
      | inr (e, failed) ↦ ground (arith, failed)
    ]

    total-step :
        (m : BatchManager) (call : Call)
        → total carried (step B C P m call) + taken m call ≡ total carried m + brought m call
    unfolding step brought taken
    total-step m (submits tx now) = omega (arith, total-submits m tx now)
    total-step m (seals immediate) =
        omega (arith, total-seal_current_batch_inner B C P carried carried-IsStable m immediate)
    total-step m (times_out now) =
        omega (arith, total-check_timeout B C P carried carried-IsStable m now)
    total-step m prepares =
        omega (arith, total-prepare_batch_for_proving B C P carried carried-IsStable m)
    total-step m (proves id proof) = elim (Result-cases (batch_proved m id proof)) [
      | inl (m', e) ↦
          ground (arith, e, total-batch_proved B C P carried carried-IsStable m id proof m' e)
      | inr (e, failed) ↦ ground (arith, failed)
    ]
    total-step m (settles id sig) = elim (Result-cases (batch_settled m id sig)) [
      | inl (m', e) ↦
          ground (arith, e, total-batch_settled B C P carried carried-IsStable m id sig m' e)
      | inr (e, failed) ↦ ground (arith, failed)
    ]
    total-step m (finalizes id) = elim (Option-cases (find (has_id id) m.pending_settlement)) [
      | inl missing ↦ unfold batch_finalized in ground (arith, missing)
      | inr (b, there) ↦
          ground (arith, there, total-batch_finalized B C P carried carried-IsStable m id b there)
    ]

    -- After any calls, the manager carries the weight that it carried before and that of the
    -- transactions accepted since, less that of the batches that were finalized, for any weight of
    -- a transaction.
    pub total-run :
        (m : BatchManager) (calls : List Call)
        → total carried (run B C P m calls) + taken_all m calls
          ≡ total carried m + brought_all m calls
    unfolding run
    total-run m [] = omega arith
    total-run m (call ∷ calls) =
        omega (arith, total-step m call, total-run (step B C P m call) calls)
