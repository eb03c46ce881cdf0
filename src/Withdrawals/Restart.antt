-- ===== src/Withdrawals/Restart.antt =====
-- A queue that is loaded again from the database after any calls.
use zelana.Base.{ℕ, ◌≡◌, refl, ap, ◌∙◌, Option, none, some, List, [], ◌∷◌, Bytes, bytes_eq}
use zelana.Base.Dict.{Dict, lookup, put_all, lookup-put_all, or_else}
use zelana.Router.Types.{PendingWithdrawal}
use zelana.Withdrawals.Stored.{live}
use zelana.Withdrawals.{
  TrackedWithdrawal, WithdrawalQueue, add_batch, new, load, load_all, mark_in_batch, mark_submitted,
  finalize, finalize_batch, hashes_of_batch,
}
use zelana.Withdrawals.Sound.{
  IsSound, new-IsSound, add_batch-IsSound, mark_in_batch-IsSound, mark_submitted-IsSound,
  finalize-IsSound, finalize_all-IsSound,
}

-- The calls of the settlement pipeline on the queue.
pub data Call : Type 0 where
  adds : List PendingWithdrawal → ℕ → Call
  batches : List Bytes → ℕ → Call
  submits : ℕ → Bytes → Call
  finalizes : Bytes → Call
  finalizes_batch : ℕ → Call

pub run : WithdrawalQueue → List Call → WithdrawalQueue
run q [] = q
run q (adds ps now ∷ calls) = run (add_batch q ps now) calls
run q (batches hashes batch_id ∷ calls) = run (mark_in_batch q hashes batch_id) calls
run q (submits batch_id sig ∷ calls) = run (mark_submitted q batch_id sig) calls
run q (finalizes hash ∷ calls) = run (finalize q hash).1 calls
run q (finalizes_batch batch_id ∷ calls) = run (finalize_batch q batch_id) calls

run-IsSound : (q : WithdrawalQueue) (calls : List Call) → IsSound q → IsSound (run q calls)
unfolding run
run-IsSound q [] v = v
run-IsSound q (adds ps now ∷ calls) v =
    run-IsSound (add_batch q ps now) calls (add_batch-IsSound q ps now v)
run-IsSound q (batches hashes batch_id ∷ calls) v =
    run-IsSound (mark_in_batch q hashes batch_id) calls (mark_in_batch-IsSound q hashes batch_id v)
run-IsSound q (submits batch_id sig ∷ calls) v =
    run-IsSound (mark_submitted q batch_id sig) calls (mark_submitted-IsSound q batch_id sig v)
run-IsSound q (finalizes hash ∷ calls) v =
    run-IsSound (finalize q hash).1 calls (finalize-IsSound q hash v)
run-IsSound q (finalizes_batch batch_id ∷ calls) v =
    run-IsSound (finalize_batch q batch_id) calls
      (unfold finalize_batch in finalize_all-IsSound q (hashes_of_batch batch_id q.withdrawals) v)

withdrawals-load_all :
    (rows : Dict Bytes TrackedWithdrawal) (q : WithdrawalQueue)
    → (load_all rows q).withdrawals ≡ put_all rows q.withdrawals
unfolding load_all put_all
withdrawals-load_all [] q = refl
withdrawals-load_all ((hash, w) ∷ rows) q = withdrawals-load_all rows _

-- After any calls that add, batch, submit and finalize withdrawals on a new queue, a queue that is
-- loaded from the database has every withdrawal as it was, except the finalized ones, which it
-- does not have.
pub load-run :
    (calls : List Call) (h : Bytes)
    → lookup h (load (run (new []) calls).db).withdrawals
      ≡ live (lookup h (run (new []) calls).withdrawals)
unfolding load new
load-run calls h =
    let q = run (new []) calls in
    let v = run-IsSound (new []) calls new-IsSound in
    ap (λ ws. lookup h ws) (withdrawals-load_all q.db (new q.db))
    ∙ lookup-put_all h q.db [] v.unique_db
    ∙ alone (lookup h q.db)
    ∙ v.stored h
  where
    alone : (o : Option TrackedWithdrawal) → or_else o (lookup h []) ≡ o
    alone none = unfold lookup in refl
    alone (some w) = refl
