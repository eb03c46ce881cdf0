-- ===== src/Withdrawals/Transitions.antt =====
-- What each operation does to every withdrawal of the queue.
use zelana.Base.{
  ℕ, ◌≡◌, refl, false, Option, none, some, List, [], ◌∷◌, Bytes, ◌==◌, ==_iff, bytes_eq,
  if◌then◌else◌, arith, Option-cases, inl, inr,
}
use zelana.Base.Dict.{Dict, lookup, insert, contains, has_key, UniqueKeys, lookup-insert}
use zelana.Withdrawals.{
  TrackedWithdrawal, WithdrawalQueue, in_batch, submitted, finalized, mark_one, mark_in_batch,
  to_submit, submit_all, mark_submitted, finalize, finalize_all, finalize_batch, hashes_of_batch,
  in_this_batch,
}

abbrev pub change :
    (TrackedWithdrawal → TrackedWithdrawal) → Option TrackedWithdrawal → Option TrackedWithdrawal
change f none = none
change f (some w) = some (f w)

abbrev pub batched : ℕ → TrackedWithdrawal → TrackedWithdrawal
batched batch_id w = record w { state = in_batch batch_id; batch_id = some batch_id }

abbrev pub closed : TrackedWithdrawal → TrackedWithdrawal
closed w = record w { state = finalized }

mark_one_lem :
    (q : WithdrawalQueue) (hash h : Bytes) (batch_id : ℕ)
    → lookup h (mark_one q hash batch_id).withdrawals ≡ (
        if hash == h
        then change (batched batch_id) (lookup h q.withdrawals)
        else lookup h q.withdrawals)
unfolding mark_one
mark_one_lem q hash h batch_id = elim (Option-cases (lookup hash q.withdrawals)) [
  | inl missing ↦ ground (arith, missing, ==_iff {A = Bytes} hash h)
  | inr (w, there) ↦ ground (
    arith,
    there,
    lookup-insert hash h (batched batch_id w) q.withdrawals,
    ==_iff {A = Bytes} hash h,
  )
]

-- Marking a batch puts exactly the listed withdrawals that the queue has into the batch, whatever
-- their state was.
pub mark_in_batch_lem :
    (q : WithdrawalQueue) (hashes : List Bytes) (batch_id : ℕ) (h : Bytes)
    → lookup h (mark_in_batch q hashes batch_id).withdrawals ≡ (
        if contains h hashes
        then change (batched batch_id) (lookup h q.withdrawals)
        else lookup h q.withdrawals)
unfolding mark_in_batch contains
mark_in_batch_lem q [] batch_id h = refl
mark_in_batch_lem q (hash ∷ hashes) batch_id h = elim (Option-cases (lookup h q.withdrawals)) [
  | inl missing ↦ ground (
    arith,
    missing,
    mark_one_lem q hash h batch_id,
    mark_in_batch_lem (mark_one q hash batch_id) hashes batch_id h,
  )
  | inr (w, there) ↦ ground (
    arith,
    there,
    mark_one_lem q hash h batch_id,
    mark_in_batch_lem (mark_one q hash batch_id) hashes batch_id h,
  )
]

abbrev pub sent : ℕ → Bytes → TrackedWithdrawal → TrackedWithdrawal
sent batch_id sig w = if to_submit batch_id w then record w { state = submitted sig } else w

pub lookup-submit_all :
    (batch_id : ℕ) (sig h : Bytes) (ws db : Dict Bytes TrackedWithdrawal)
    → lookup h (submit_all batch_id sig ws db).0 ≡ change (sent batch_id sig) (lookup h ws)
unfolding submit_all lookup
lookup-submit_all batch_id sig h [] db = refl
lookup-submit_all batch_id sig h ((k, w) ∷ ws) db = ground (
  arith,
  lookup-submit_all batch_id sig h ws (
      if to_submit batch_id w
      then insert w.tx_hash (record w { state = submitted sig }) db
      else db),
)

-- Marking a batch as submitted moves exactly the withdrawals of the batch that are still in it.
pub mark_submitted_lem :
    (q : WithdrawalQueue) (batch_id : ℕ) (sig h : Bytes)
    → lookup h (mark_submitted q batch_id sig).withdrawals
      ≡ change (sent batch_id sig) (lookup h q.withdrawals)
unfolding mark_submitted
mark_submitted_lem q batch_id sig h = lookup-submit_all batch_id sig h q.withdrawals q.db

finalize_lem :
    (q : WithdrawalQueue) (hash h : Bytes)
    → lookup h (finalize q hash).1.withdrawals
      ≡ (if hash == h then change closed (lookup h q.withdrawals) else lookup h q.withdrawals)
unfolding finalize
finalize_lem q hash h = elim (Option-cases (lookup hash q.withdrawals)) [
  | inl missing ↦ ground (arith, missing, ==_iff {A = Bytes} hash h)
  | inr (w, there) ↦
      ground
        (arith, there, lookup-insert hash h (closed w) q.withdrawals, ==_iff {A = Bytes} hash h)
]

finalize_all_lem :
    (q : WithdrawalQueue) (hashes : List Bytes) (h : Bytes)
    → lookup h (finalize_all q hashes).withdrawals ≡ (
        if contains h hashes
        then change closed (lookup h q.withdrawals)
        else lookup h q.withdrawals)
unfolding finalize_all contains
finalize_all_lem q [] h = refl
finalize_all_lem q (hash ∷ hashes) h = elim (Option-cases (lookup h q.withdrawals)) [
  | inl missing ↦
      ground (arith, missing, finalize_lem q hash h, finalize_all_lem (finalize q hash).1 hashes h)
  | inr (w, there) ↦
      ground (arith, there, finalize_lem q hash h, finalize_all_lem (finalize q hash).1 hashes h)
]

hash_of_batch :
    (batch_id : ℕ) (h : Bytes) (ws : Dict Bytes TrackedWithdrawal)
    → UniqueKeys ws
    → contains h (hashes_of_batch batch_id ws)
      ≡ elim (lookup h ws) [ none ↦ false | some w ↦ in_this_batch batch_id w ]
unfolding hashes_of_batch contains lookup has_key
hash_of_batch batch_id h [] u = refl
hash_of_batch batch_id h ((k, w) ∷ ws) u =
    ground (arith, hash_of_batch batch_id h ws u.1, ==_iff {A = Bytes} k h, u.0)

-- In a queue that has each withdrawal once, finalizing a batch finalizes exactly the withdrawals
-- of the batch, submitted or not.
pub finalize_batch_lem :
    (q : WithdrawalQueue) (batch_id : ℕ) (h : Bytes)
    → UniqueKeys q.withdrawals
    → lookup h (finalize_batch q batch_id).withdrawals
      ≡ change (λ w. if in_this_batch batch_id w then closed w else w) (lookup h q.withdrawals)
unfolding finalize_batch
finalize_batch_lem q batch_id h u = elim (Option-cases (lookup h q.withdrawals)) [
  | inl missing ↦
      ground (arith, missing, finalize_all_lem q (hashes_of_batch batch_id q.withdrawals) h)
  | inr (w, there) ↦ ground (
    arith,
    there,
    finalize_all_lem q (hashes_of_batch batch_id q.withdrawals) h,
    hash_of_batch batch_id h q.withdrawals u,
  )
]
