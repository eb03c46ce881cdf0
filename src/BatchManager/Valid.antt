-- ===== src/BatchManager/Valid.antt =====
-- The batches of a manager are where their state says, each once, under numbers that are used up.
use zelana.Base.{
  ℕ, ◌≤◌, ◌≡◌, ap, Bool, true, false, none, some, if◌then◌else◌, arith, bytes_eq, nat_beq,
  Option-cases, Bool-cases, inl, inr, ◌&&◌, ◌||◌,
}
use zelana.AccountTree.Codec.{BigBytes}
use zelana.Shielded.{Poseidon}
use zelana.Router.Signature.{Crypto}
use zelana.Batch.{Batch, is_accumulating, is_empty, is_sealed, is_proving, is_proved, is_settling}
use zelana.BatchManager.{BatchManager, execute_and_seal, seal_current_batch_inner}
use zelana.BatchManager.Weights.{sum_of, current, total, sum_of-push}
use zelana.BatchManager.Shape.{seal_nonempty, seal_nothing}
use zelana.BatchManager.Flow.{IsStable, total-seal_current_batch_inner}

-- What the execution of a batch leaves in it.
abbrev pub has_results : Batch → Bool
has_results b = elim b.diff [
  | none ↦ false
  | some d ↦ elim b.post_state_root [
    | none ↦ false
    | some r ↦ elim b.post_shielded_root [ none ↦ false | some s ↦ true ]
  ]
]

-- One for a batch that does not belong in its place, else zero.
abbrev pub not_open : Batch → ℕ
not_open b = if is_accumulating b.state then 0 else 1

abbrev pub not_in_proof : Batch → ℕ
not_in_proof b = if (is_sealed b.state || is_proving b.state) && has_results b then 0 else 1

abbrev pub not_in_settlement : Batch → ℕ
not_in_settlement b = if (is_proved b.state || is_settling b.state) && has_results b then 0 else 1

abbrev pub named : ℕ → Batch → ℕ
named id b = if nat_beq b.id id then 1 else 0

pub record IsValid (m : BatchManager) : Type 0 where
  pub open_batch : current not_open m.current_batch ≡ 0
  pub in_proof : sum_of not_in_proof m.proving_batches ≡ 0
  pub in_settlement : sum_of not_in_settlement m.pending_settlement ≡ 0
  pub once : (id : ℕ) → total (named id) m ≤ 1
  pub unused : (id : ℕ) → m.next_batch_id ≤ id → total (named id) m ≡ 0

pub named-IsStable : (id : ℕ) → IsStable (named id)
named-IsStable id b c same_id same_txs = ap (λ n. if nat_beq n id then 1 else 0) same_id

module _ (B : BigBytes) (C : Crypto) (P : Poseidon) where
  -- What a seal does to the places of the batches.
  pub seal_queues :
      (m : BatchManager) (immediate : Bool)
      → let m' = (seal_current_batch_inner B C P m immediate).1 in
        (m'.next_batch_id ≡ m.next_batch_id)
        × (current not_open m'.current_batch ≤ current not_open m.current_batch)
        × (sum_of not_in_proof m'.proving_batches ≡ sum_of not_in_proof m.proving_batches)
        × (m'.pending_settlement ≡ m.pending_settlement)
  unfolding execute_and_seal
  seal_queues m immediate = elim (Option-cases m.current_batch) [
    | inl missing ↦ ground (arith, seal_nothing B C P m immediate (λ b there. cc))
    | inr (b, there) ↦ elim (Bool-cases (is_empty b.transactions)) [
      | inl empty ↦
          ground (arith, seal_nothing B C P m immediate (λ c h. grind (arith, empty, there, h)))
      | inr full ↦
          let (m', b') = execute_and_seal B C P m b immediate in
          ground (
            arith,
            seal_nonempty B C P m immediate b there full,
            there,
            sum_of-push not_in_proof m.proving_batches b',
          )
    ]
  ]

  pub seal-IsValid :
      (m : BatchManager) (immediate : Bool)
      → IsValid m
      → IsValid (seal_current_batch_inner B C P m immediate).1
  seal-IsValid m immediate v =
      let (next, opened_, proof, settlement) = seal_queues m immediate in
      record {
        open_batch = omega (arith, v.open_batch);
        in_proof = omega (arith, v.in_proof);
        in_settlement = rw settlement v.in_settlement;
        once = λ id. omega (
          arith,
          v.once id,
          total-seal_current_batch_inner B C P (named id) (named-IsStable id) m immediate,
        );
        unused = λ id h. omega (
          arith,
          v.unused id (omega arith),
          total-seal_current_batch_inner B C P (named id) (named-IsStable id) m immediate,
        );
      }
