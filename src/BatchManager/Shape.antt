-- ===== src/BatchManager/Shape.antt =====
-- What each operation does to the batches of the manager, whatever it does to the states.
use zelana.Base.{
  ℕ, ◌≡◌, refl, Bool, true, false, none, some, List, [], ◌∷◌, ◌++◌, if◌then◌else◌, arith, bytes_eq,
  Option-cases, Bool-cases, inl, inr, ◌⊎◌,
}
use zelana.AccountTree.Codec.{BigBytes}
use zelana.Shielded.{Poseidon}
use zelana.Router.Types.{TransactionType, shielded, transfer, deposit, withdraw}
use zelana.Router.Signature.{Crypto}
use zelana.Router.{execute_batch}
use zelana.Batch.{Batch, sealed, add_transaction, is_empty, new_batch, should_seal}
use zelana.BatchManager.{
  BatchManager, ok, ensure_batch, update_pending_state, submit_to, submit_transaction,
  execute_and_seal, seal_current_batch_inner,
}

-- Pending states change, and nothing else.
pub update_pending_only :
    (m : BatchManager) (tx : TransactionType)
    → let m' = update_pending_state m tx in
      (m'.current_batch ≡ m.current_batch)
      × (m'.proving_batches ≡ m.proving_batches)
      × (m'.pending_settlement ≡ m.pending_settlement)
      × (m'.next_batch_id ≡ m.next_batch_id)
      × (m'.router ≡ m.router)
      × (m'.config ≡ m.config)
unfolding update_pending_state
update_pending_only m (shielded p) = (refl, refl, refl, refl, refl, refl)
update_pending_only m (transfer t) = ground arith
update_pending_only m (deposit d) = (refl, refl, refl, refl, refl, refl)
update_pending_only m (withdraw w) = (refl, refl, refl, refl, refl, refl)

-- The batch that is current after `ensure_batch`: the old one, or a new one under the next number.
unfoldable pub ensured : BatchManager → ℕ → Batch
ensured m now = elim m.current_batch [
  | some b ↦ b
  | none ↦
      new_batch m.next_batch_id m.router.account_tree.root m.router.shielded_state.tree.root now
]

-- What `submit_transaction` works on.
abbrev pub opened : BatchManager → TransactionType → ℕ → BatchManager
opened m tx now = update_pending_state (ensure_batch m now) tx

-- It has a current batch, and the queues and the router as they were.
pub ensure_batch_only :
    (m : BatchManager) (now : ℕ)
    → let m' = ensure_batch m now in
      (m'.current_batch ≡ some (ensured m now))
      × (m'.proving_batches ≡ m.proving_batches)
      × (m'.pending_settlement ≡ m.pending_settlement)
      × (m'.router ≡ m.router)
unfolding ensure_batch ensured
ensure_batch_only m now = ground arith

pub opened_only :
    (m : BatchManager) (tx : TransactionType) (now : ℕ)
    → let m' = opened m tx now in
      (m'.current_batch ≡ some (ensured m now))
      × (m'.proving_batches ≡ m.proving_batches)
      × (m'.pending_settlement ≡ m.pending_settlement)
      × (m'.router ≡ m.router)
opened_only m tx now =
    grind (arith, ensure_batch_only m now, update_pending_only (ensure_batch m now) tx)

module _ (B : BigBytes) (C : Crypto) (P : Poseidon) where
  -- The sealed batch is the one that was current.
  pub sealed_fields :
      (m : BatchManager) (b : Batch) (immediate : Bool)
      → let b' = (execute_and_seal B C P m b immediate).1 in
        (b'.id ≡ b.id)
        × (b'.state ≡ sealed)
        × (b'.transactions ≡ b.transactions)
        × (b'.diff ≡ some (execute_batch C P m.router b.transactions).1)
        × (b'.committed ≡ (if immediate then true else b.committed))
  unfolding execute_and_seal
  sealed_fields m b true = (refl, refl, refl, refl, refl)
  sealed_fields m b false = (refl, refl, refl, refl, refl)

  -- A seal with something to seal moves the current batch to the end of the proving queue.
  pub seal_nonempty :
      (m : BatchManager) (immediate : Bool) (b : Batch)
      → m.current_batch ≡ some b
      → is_empty b.transactions ≡ false
      → let (m', b') = execute_and_seal B C P m b immediate in
        seal_current_batch_inner B C P m immediate ≡ (
          some b.id,
          record m' { current_batch = none; proving_batches = m'.proving_batches ++ b' ∷ [] },
        )
  unfolding seal_current_batch_inner execute_and_seal
  seal_nonempty m immediate b there full = ground (arith, there, full)

  pub seal_nothing :
      (m : BatchManager) (immediate : Bool)
      → ((b : Batch) → m.current_batch ≡ some b → is_empty b.transactions ≡ true)
      → seal_current_batch_inner B C P m immediate ≡ (none, m)
  unfolding seal_current_batch_inner
  seal_nothing m immediate h = elim (Option-cases m.current_batch) [
    | inl missing ↦ ground (arith, missing)
    | inr (b, there) ↦ ground (arith, there, h b there)
  ]

  -- A queue that stays, or gets one sealed batch.
  abbrev pub Pushes : List Batch → List Batch → Type 0
  Pushes before after =
      (after ≡ before) ⊎ ((b : Batch) × (after ≡ before ++ b ∷ []) × (b.state ≡ sealed))

  pub seal-Pushes :
      (m : BatchManager) (immediate : Bool)
      → Pushes m.proving_batches (seal_current_batch_inner B C P m immediate).1.proving_batches
  unfolding execute_and_seal
  seal-Pushes m immediate = elim (Option-cases m.current_batch) [
    | inl missing ↦ inl (ground (arith, seal_nothing m immediate (λ b there. cc)))
    | inr (b, there) ↦ elim (Bool-cases (is_empty b.transactions)) [
      | inl empty ↦
          inl (ground (arith, seal_nothing m immediate (λ c h. grind (arith, empty, there, h))))
      | inr full ↦
          let b' = (execute_and_seal B C P m b immediate).1 in
          inr (
            b',
            ground (arith, seal_nonempty m immediate b there full),
            (sealed_fields m b immediate).1,
          )
    ]
  ]

  pub submit-Pushes :
      (m : BatchManager) (tx : TransactionType) (now : ℕ) (m' : BatchManager)
      → submit_transaction B C P m tx now ≡ ok m'
      → Pushes m.proving_batches m'.proving_batches
  unfolding submit_transaction submit_to
  submit-Pushes m tx now m' e =
      let o = opened m tx now in
      let (there, queue, _, _) = opened_only m tx now in
      elim (Option-cases (add_transaction (ensured m now) tx)) [
        | inl refused ↦ ground (arith, there, refused, e)
        | inr (b', taken) ↦ elim (Bool-cases (should_seal b' o.config now)) [
          | inr room ↦ inl (ground (arith, there, taken, room, e, queue))
          | inl full ↦ elim (seal-Pushes (record o { current_batch = some b' }) false) [
            | inl same ↦ inl (ground (arith, there, taken, full, e, queue, same))
            | inr (b, pushed, state) ↦
                inr (b, ground (arith, there, taken, full, e, queue, pushed), state)
          ]
        ]
      ]
