-- ===== src/BatchManager/Accepts.antt =====
-- A valid manager takes every transaction, and stays valid.
use zelana.Base.{
  ℕ, ◌+◌, ◌<◌, ◌≡◌, sym, true, false, none, some, arith, u64_mod, bytes_eq, Option-cases,
  Bool-cases, inl, inr, ◌⊎◌,
}
use mathlib.Core.Path.{subst}
use zelana.AccountTree.Codec.{BigBytes}
use zelana.Shielded.{Poseidon}
use zelana.Router.Types.{TransactionType}
use zelana.Router.Signature.{Crypto}
use zelana.Batch.{Batch, add_transaction, is_accumulating, should_seal}
use zelana.BatchManager.{
  BatchManager, ok, ensure_batch, submit_to, submit_transaction, seal_current_batch,
}
use zelana.BatchManager.Shape.{update_pending_only, ensured, opened, opened_only}
use zelana.BatchManager.Flow.{total-opened}
use zelana.BatchManager.Valid.{IsValid, named, named-IsStable, seal-IsValid}

-- The number after `ensure_batch`, and the batch that it leaves.
pub ensured_next :
    (m : BatchManager) (tx : TransactionType) (now : ℕ)
    → m.next_batch_id + 1 < u64_mod
    → let m' = opened m tx now in
      ((m.current_batch ≡ some (ensured m now)) × (m'.next_batch_id ≡ m.next_batch_id))
      ⊎ ((m.current_batch ≡ none)
          × (m'.next_batch_id ≡ m.next_batch_id + 1)
          × ((ensured m now).id ≡ m.next_batch_id)
          × (is_accumulating (ensured m now).state ≡ true))
unfolding ensured ensure_batch
ensured_next m tx now room = elim (Option-cases m.current_batch) [
  | inl missing ↦ inr (grind (arith, missing, update_pending_only (ensure_batch m now) tx))
  | inr (b, there) ↦ inl (grind (arith, there, update_pending_only (ensure_batch m now) tx))
]

add_transaction_only :
    (b b' : Batch) (tx : TransactionType)
    → add_transaction b tx ≡ some b'
    → (b'.id ≡ b.id) × (b'.state ≡ b.state)
unfolding add_transaction
add_transaction_only b b' tx e = ground arith

module _ (B : BigBytes) (C : Crypto) (P : Poseidon) where
  pub opened-IsValid :
      (m : BatchManager) (tx : TransactionType) (now : ℕ)
      → IsValid m
      → m.next_batch_id + 1 < u64_mod
      → IsValid (opened m tx now)
  opened-IsValid m tx now v room =
      let (there, proof, settlement, _) = opened_only m tx now in
      record {
        open_batch = elim (ensured_next m tx now room) [
          | inl (was, next) ↦ ground (arith, there, was, v.open_batch)
          | inr (was, next, same, open_) ↦ ground (arith, there, open_)
        ];
        in_proof = rw proof v.in_proof;
        in_settlement = rw settlement v.in_settlement;
        once = λ id. elim (ensured_next m tx now room) [
          | inl (was, next) ↦
              ground
                (arith, was, total-opened B C P (named id) (named-IsStable id) m tx now, v.once id)
          | inr (was, next, same, open_) ↦ ground (
            arith,
            was,
            same,
            v.unused id,
            total-opened B C P (named id) (named-IsStable id) m tx now,
            v.once id,
          )
        ];
        unused = λ id h. elim (ensured_next m tx now room) [
          | inl (was, next) ↦ ground (
            arith,
            was,
            next,
            h,
            total-opened B C P (named id) (named-IsStable id) m tx now,
            v.unused id,
          )
          | inr (was, next, same, open_) ↦ ground (
            arith,
            was,
            next,
            h,
            same,
            total-opened B C P (named id) (named-IsStable id) m tx now,
            v.unused id,
          )
        ];
      }

  added-IsValid :
      (m : BatchManager) (b b' : Batch) (tx : TransactionType)
      → IsValid m
      → m.current_batch ≡ some b
      → add_transaction b tx ≡ some b'
      → IsValid (record m { current_batch = some b' })
  added-IsValid m b b' tx v there added =
      let (same, state) = add_transaction_only b b' tx added in
      record {
        open_batch = ground (arith, state, there, v.open_batch);
        in_proof = v.in_proof;
        in_settlement = v.in_settlement;
        once = λ id. ground (arith, same, there, v.once id);
        unused = λ id h. ground (arith, same, there, v.unused id h);
      }

  -- In a valid manager an open batch takes every transaction.
  pub submit_to-IsValid :
      (m : BatchManager) (b : Batch) (tx : TransactionType) (now : ℕ)
      → IsValid m
      → m.current_batch ≡ some b
      → (m' : BatchManager) × (submit_to B C P m (some b) tx now ≡ ok m') × IsValid m'
  unfolding submit_to
  submit_to-IsValid m b tx now v there = elim (Option-cases (add_transaction b tx)) [
    | inl refused ↦ unfold add_transaction in ground (arith, refused, there, v.open_batch)
    | inr (b', taken) ↦
        let m₁ = record m { current_batch = some b' } in
        let v₁ = added-IsValid m b b' tx v there taken in
        elim (Bool-cases (should_seal b' m.config now)) [
          | inl full ↦ (
            (seal_current_batch B C P m₁).1,
            ground (arith, taken, full),
            seal-IsValid B C P m₁ false v₁,
          )
          | inr room ↦ (m₁, ground (arith, taken, room), v₁)
        ]
  ]

  -- A valid manager accepts every transaction while a number for a new batch is left, and is valid
  -- afterwards.
  pub submit_transaction-IsValid :
      (m : BatchManager) (tx : TransactionType) (now : ℕ)
      → IsValid m
      → m.next_batch_id + 1 < u64_mod
      → (m' : BatchManager) × (submit_transaction B C P m tx now ≡ ok m') × IsValid m'
  unfolding submit_transaction
  submit_transaction-IsValid m tx now v room =
      let (there, _, _, _) = opened_only m tx now in
      let (m', e, v') =
        submit_to-IsValid (opened m tx now) (ensured m now) tx now (opened-IsValid m tx now v room)
          there in
      (m', subst (λ o. submit_to B C P (opened m tx now) o tx now ≡ ok m') (sym there) e, v')
