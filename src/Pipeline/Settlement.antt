-- ===== src/Pipeline/Settlement.antt =====
-- What a settlement that the service accepts does to the pipeline.
use zelana.Base.{
  ℕ, ◌≤◌, ◌≡◌, refl, Bool, false, ◌||◌, Option, none, some, List, [], ◌∷◌, Bytes, if◌then◌else◌,
  arith, Bool-cases, Option-cases, inl, inr, bytes_eq, nat_eq, ◌==◌, ==_iff,
}
use mathlib.Core.Option as Option
use zelana.Base.Dict.{Dict, lookup, lookup-insert}
use zelana.AccountTree.Codec.{BigBytes}
use zelana.Router.Types.{BatchDiff, TxResult}
use zelana.Router.Commit.{commit}
use zelana.Batch.{Batch, is_proved, start_settling}
use zelana.BatchManager.{
  BatchManager, find, has_id, remove_first, change_first, ok, batch_settled, batch_finalized,
}
use zelana.BatchManager.Summaries.{TxSummary, settled}
use zelana.BatchManager.Weights.{sum_of, sum_of-remove_first}
use zelana.BatchManager.Valid.{IsValid, named, not_in_settlement}
use zelana.Pipeline.{Pipeline, Attempt}
use zelana.Pipeline.Settle.{record_settlement, settle_statuses, settle_status, is_failed}

-- A batch that is found by any test is the one found by its number, where no number is used twice.
pub find-named :
    (p : Batch → Bool) (bs : List Batch) (b : Batch)
    → sum_of (named b.id) bs ≤ 1
    → find p bs ≡ some b
    → find (has_id b.id) bs ≡ some b
unfolding find sum_of
find-named p [] b once e = cc
find-named p (c ∷ bs) b once e = elim (Bool-cases (p c)) [
  | inl here ↦ ground (arith, here)
  | inr further ↦
      ground
        (arith, further, find-named p bs b (ground arith), sum_of-remove_first (named b.id) p bs b)
]

module _ (p : Batch → Bool) (f : Batch → Batch) (same : (b : Batch) → p (f b) ≡ p b) where
  find-change_first :
      (bs : List Batch) (b : Batch) → find p bs ≡ some b → find p (change_first p f bs) ≡ some (f b)
  unfolding find change_first
  find-change_first [] b e = cc
  find-change_first (c ∷ bs) b e = ground (arith, same c, find-change_first bs b)

  remove_first-change_first :
      (bs : List Batch) → remove_first p (change_first p f bs) ≡ remove_first p bs
  unfolding remove_first change_first
  remove_first-change_first [] = refl
  remove_first-change_first (c ∷ bs) = ground (arith, same c, remove_first-change_first bs)

-- A batch of the settlement queue of a valid manager was executed.
settled_diff :
    (m : BatchManager) (id : ℕ) (b : Batch)
    → IsValid m
    → find (has_id id) m.pending_settlement ≡ some b
    → (diff : BatchDiff) × (b.diff ≡ some diff)
settled_diff m id b v there = elim (Option-cases b.diff) [
  | inl missing ↦ ground (
    arith,
    missing,
    v.in_settlement,
    sum_of-remove_first not_in_settlement (has_id id) m.pending_settlement b there,
  )
  | inr executed ↦ executed
]

abbrev settling_in : BatchManager → ℕ → Bytes → BatchManager
settling_in m id sig = record m {
  pending_settlement = change_first (has_id id) (λ c. start_settling c sig) m.pending_settlement;
}

batch_settled-found :
    (m : BatchManager) (id : ℕ) (sig : Bytes) (b : Batch)
    → find (has_id id) m.pending_settlement ≡ some b
    → batch_settled m id sig ≡ ok (settling_in m id sig)
unfolding batch_settled
batch_settled-found m id sig b there = ground (arith, there)

module _ (B : BigBytes) where
  abbrev finalized_in : BatchManager → ℕ → Bool → BatchDiff → BatchManager
  finalized_in m id committed diff = record m {
    pending_settlement = remove_first (has_id id) m.pending_settlement;
    router = if committed then m.router else commit B m.router diff;
  }

  batch_finalized-found :
      (m : BatchManager) (id : ℕ) (b : Batch) (diff : BatchDiff)
      → find (has_id id) m.pending_settlement ≡ some b
      → b.diff ≡ some diff
      → batch_finalized B m id ≡ (ok diff, finalized_in m id b.committed diff)
  unfolding batch_finalized
  batch_finalized-found m id b diff there executed = ground (arith, there, executed)

  -- A settlement that is accepted, of a proved batch of a valid manager, succeeds: the batch
  -- leaves the settlement queue, its diff is committed unless it was already, the results of its
  -- transactions set their statuses, and the counter of failures starts again.
  pub record_settlement_lem :
      (b : Batch) (sig : Bytes) (p : Pipeline)
      → IsValid p.manager
      → find (λ c. is_proved c.state) p.manager.pending_settlement ≡ some b
      → let (attempt, p') = record_settlement B b sig p in
        (diff : BatchDiff) × (b.diff ≡ some diff)
        × (attempt ≡ Attempt.done)
        × (p'.manager.pending_settlement ≡ remove_first (has_id b.id) p.manager.pending_settlement)
        × (p'.manager.router
            ≡ (if b.committed then p.manager.router else commit B p.manager.router diff))
        × (p'.manager.tx_summaries ≡ settle_statuses b.id b.results p.manager.tx_summaries)
        × (p'.last_settled_batch ≡ some b.id)
        × (p'.settling_batch ≡ none)
        × (p'.settlement_retries ≡ 0)
  unfolding record_settlement
  record_settlement_lem b sig p v there =
      let found =
        find-named (λ c. is_proved c.state) p.manager.pending_settlement b
          (omega (arith, v.once b.id)) there in
      let (diff, executed) = settled_diff p.manager b.id b v found in
      let m₁ = settling_in p.manager b.id sig in
      let settles = batch_settled-found p.manager b.id sig b found in
      let finalizes =
        batch_finalized-found m₁ b.id (start_settling b sig) diff
          (find-change_first (has_id b.id) (λ c. start_settling c sig) (λ c. refl)
            p.manager.pending_settlement b found)
          executed in
      let gone =
        remove_first-change_first (has_id b.id) (λ (c : Batch). start_settling c sig) (λ c. refl)
          p.manager.pending_settlement in
      (
        diff,
        executed,
        ground (arith, settles, finalizes),
        ground (arith, settles, finalizes, gone),
        ground (arith, settles, finalizes),
        ground (arith, settles, finalizes),
        ground (arith, settles, finalizes),
        ground (arith, settles, finalizes),
        ground (arith, settles, finalizes),
      )

-- The status that a settlement leaves.
abbrev pub settled_summary : ℕ → TxSummary → TxSummary
settled_summary batch_id s =
    if is_failed s.status then s else record s { status = settled; batch_id = some batch_id }

abbrev pub mentions : Bytes → List TxResult → Bool
mentions h [] = false
mentions h (r ∷ rs) = r.tx_hash == h || mentions h rs

lookup-settle_status :
    (id : ℕ) (hash h : Bytes) (summaries : Dict Bytes TxSummary)
    → lookup h (settle_status id hash summaries) ≡ (
        if hash == h
        then Option.map (settled_summary id) (lookup h summaries)
        else lookup h summaries)
unfolding settle_status
lookup-settle_status id hash h summaries = elim (Bool-cases (hash == h)) [
  | inl this ↦
      let same = (==_iff {A = Bytes} hash h).0 this in
      elim (Option-cases (lookup hash summaries)) [
        | inl missing ↦ ground (arith, missing, this, same)
        | inr (s, there) ↦ ground (
          arith,
          there,
          this,
          same,
          lookup-insert hash h (record s { status = settled; batch_id = some id }) summaries,
        )
      ]
  | inr other ↦ elim (Option-cases (lookup hash summaries)) [
    | inl missing ↦ ground (arith, missing, other)
    | inr (s, there) ↦ ground (
      arith,
      there,
      other,
      lookup-insert hash h (record s { status = settled; batch_id = some id }) summaries,
    )
  ]
]

settled_again :
    (id : ℕ) (o : Option TxSummary)
    → Option.map (settled_summary id) (Option.map (settled_summary id) o)
      ≡ Option.map (settled_summary id) o
settled_again id none = refl
settled_again id (some s) = ground arith

-- A settlement settles the summary of each transaction that a result of the batch names, except of
-- a failed one, and changes and adds no other.
pub lookup-settle_statuses :
    (id : ℕ) (rs : List TxResult) (h : Bytes) (summaries : Dict Bytes TxSummary)
    → lookup h (settle_statuses id rs summaries) ≡ (
        if mentions h rs
        then Option.map (settled_summary id) (lookup h summaries)
        else lookup h summaries)
unfolding settle_statuses
lookup-settle_statuses id [] h summaries = refl
lookup-settle_statuses id (r ∷ rs) h summaries = ground (
  arith,
  lookup-settle_statuses id rs h (settle_status id r.tx_hash summaries),
  lookup-settle_status id r.tx_hash h summaries,
  settled_again id (lookup h summaries),
)
