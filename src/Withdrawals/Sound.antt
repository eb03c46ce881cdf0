-- ===== src/Withdrawals/Sound.antt =====
-- Memory and database stay in step: every call keeps the queue sound.
use zelana.Base.{
  ℕ, ◌≡◌, refl, sym, none, some, List, [], ◌∷◌, Bytes, bytes_eq, if◌then◌else◌, arith, Option-cases,
  inl, inr,
}
use mathlib.Core.Path.{subst}
use zelana.Base.Dict.{
  Dict, lookup, insert, erase, has_key, UniqueKeys, insert-UniqueKeys, erase-UniqueKeys,
}
use zelana.Router.Types.{PendingWithdrawal}
use zelana.Withdrawals.Keyed.{IsKeyed, insert-IsKeyed}
use zelana.Withdrawals.Stored.{
  IsStored, add-IsStored, mark_one-IsStored, finalize-IsStored, mark_submitted-IsStored,
}
use zelana.Withdrawals.Transitions.{lookup-submit_all}
use zelana.Withdrawals.{
  TrackedWithdrawal, WithdrawalQueue, in_batch, submitted, finalized, track, add, add_batch, new,
  mark_one, mark_in_batch, to_submit, submit_all, mark_submitted, finalize, finalize_all, store,
}

-- Each withdrawal is once in memory, under its hash, and once in the database unless it is finalized.
pub record IsSound (q : WithdrawalQueue) : Type 0 where
  pub keyed : IsKeyed q.withdrawals
  pub unique : UniqueKeys q.withdrawals
  pub unique_db : UniqueKeys q.db
  pub stored : IsStored q

pub new-IsSound : IsSound (new [])
unfolding new lookup
new-IsSound = record { keyed = λ h w e. cc; unique = tt; unique_db = tt; stored = λ h. refl }

add-IsSound :
    (q : WithdrawalQueue) (p : PendingWithdrawal) (now : ℕ) → IsSound q → IsSound (add q p now)
add-IsSound q p now v = record {
  keyed = unfold add track in insert-IsKeyed p.tx_hash (track p now) q.withdrawals refl v.keyed;
  unique = unfold add track in insert-UniqueKeys p.tx_hash (track p now) q.withdrawals v.unique;
  unique_db = unfold add track in insert-UniqueKeys p.tx_hash (track p now) q.db v.unique_db;
  stored = add-IsStored q p now v.stored;
}

pub add_batch-IsSound :
    (q : WithdrawalQueue) (ps : List PendingWithdrawal) (now : ℕ)
    → IsSound q
    → IsSound (add_batch q ps now)
unfolding add_batch
add_batch-IsSound q [] now v = v
add_batch-IsSound q (p ∷ ps) now v = add_batch-IsSound (add q p now) ps now (add-IsSound q p now v)

unknown-mark_one :
    (q : WithdrawalQueue) (hash : Bytes) (batch_id : ℕ)
    → lookup hash q.withdrawals ≡ none
    → mark_one q hash batch_id ≡ q
unfolding mark_one
unknown-mark_one q hash batch_id missing = rw (missing, mark_one) refl

known-mark_one :
    (q : WithdrawalQueue) (hash : Bytes) (batch_id : ℕ) (w : TrackedWithdrawal)
    → lookup hash q.withdrawals ≡ some w
    → mark_one q hash batch_id
      ≡ store q hash (record w { state = in_batch batch_id; batch_id = some batch_id })
unfolding mark_one
known-mark_one q hash batch_id w there = rw (there, mark_one) refl

mark_one-IsSound :
    (q : WithdrawalQueue) (hash : Bytes) (batch_id : ℕ)
    → IsSound q
    → IsSound (mark_one q hash batch_id)
mark_one-IsSound q hash batch_id v = elim (Option-cases (lookup hash q.withdrawals)) [
  | inl missing ↦ subst IsSound (sym (unknown-mark_one q hash batch_id missing)) v
  | inr (w, there) ↦
      let w' = record w { state = in_batch batch_id; batch_id = some batch_id } in
      let written = known-mark_one q hash batch_id w there in
      subst IsSound (sym written) (record {
        keyed = insert-IsKeyed hash w' q.withdrawals (v.keyed hash w there) v.keyed;
        unique = insert-UniqueKeys hash w' q.withdrawals v.unique;
        unique_db = insert-UniqueKeys hash w' q.db v.unique_db;
        stored = subst (λ q'. IsStored q') written (mark_one-IsStored q hash batch_id v.stored);
      })
]

pub mark_in_batch-IsSound :
    (q : WithdrawalQueue) (hashes : List Bytes) (batch_id : ℕ)
    → IsSound q
    → IsSound (mark_in_batch q hashes batch_id)
unfolding mark_in_batch
mark_in_batch-IsSound q [] batch_id v = v
mark_in_batch-IsSound q (hash ∷ hashes) batch_id v =
    mark_in_batch-IsSound (mark_one q hash batch_id) hashes batch_id
      (mark_one-IsSound q hash batch_id v)

unknown-finalize :
    (q : WithdrawalQueue) (hash : Bytes)
    → lookup hash q.withdrawals ≡ none
    → (finalize q hash).1 ≡ q
unfolding finalize
unknown-finalize q hash missing = rw (missing, finalize) refl

known-finalize :
    (q : WithdrawalQueue) (hash : Bytes) (w : TrackedWithdrawal)
    → lookup hash q.withdrawals ≡ some w
    → (finalize q hash).1 ≡ record q {
      withdrawals = insert hash (record w { state = finalized }) q.withdrawals;
      db = erase hash q.db;
    }
unfolding finalize
known-finalize q hash w there = rw (there, finalize) refl

pub finalize-IsSound :
    (q : WithdrawalQueue) (hash : Bytes) → IsSound q → IsSound (finalize q hash).1
finalize-IsSound q hash v = elim (Option-cases (lookup hash q.withdrawals)) [
  | inl missing ↦ subst IsSound (sym (unknown-finalize q hash missing)) v
  | inr (w, there) ↦
      let w' = record w { state = finalized } in
      let written = known-finalize q hash w there in
      subst IsSound (sym written) (record {
        keyed = insert-IsKeyed hash w' q.withdrawals (v.keyed hash w there) v.keyed;
        unique = insert-UniqueKeys hash w' q.withdrawals v.unique;
        unique_db = erase-UniqueKeys hash q.db v.unique_db;
        stored = subst (λ q'. IsStored q') written (finalize-IsStored q hash v.stored);
      })
]

pub finalize_all-IsSound :
    (q : WithdrawalQueue) (hashes : List Bytes) → IsSound q → IsSound (finalize_all q hashes)
unfolding finalize_all
finalize_all-IsSound q [] v = v
finalize_all-IsSound q (hash ∷ hashes) v =
    finalize_all-IsSound (finalize q hash).1 hashes (finalize-IsSound q hash v)

unique-submit_all :
    (batch_id : ℕ) (sig : Bytes) (ws db : Dict Bytes TrackedWithdrawal)
    → UniqueKeys ws
    → UniqueKeys (submit_all batch_id sig ws db).0
unfolding submit_all
unique-submit_all batch_id sig [] db u = tt
unique-submit_all batch_id sig ((hash, w) ∷ ws) db u = (
  unfold has_key in
      ground (
        arith,
        u.0,
        lookup-submit_all batch_id sig hash ws (
            if to_submit batch_id w
            then insert w.tx_hash (record w { state = submitted sig }) db
            else db),
      ),
  unique-submit_all batch_id sig ws _ u.1,
)

db-submit_all :
    (batch_id : ℕ) (sig : Bytes) (ws db : Dict Bytes TrackedWithdrawal)
    → UniqueKeys db
    → UniqueKeys (submit_all batch_id sig ws db).1
unfolding submit_all
db-submit_all batch_id sig [] db u = u
db-submit_all batch_id sig ((hash, w) ∷ ws) db u =
    db-submit_all batch_id sig ws _
      (ground (arith, u, insert-UniqueKeys w.tx_hash (record w { state = submitted sig }) db u))

pub mark_submitted-IsSound :
    (q : WithdrawalQueue) (batch_id : ℕ) (sig : Bytes)
    → IsSound q
    → IsSound (mark_submitted q batch_id sig)
mark_submitted-IsSound q batch_id sig v = record {
  keyed = λ h w e.
      unfold mark_submitted in
      elim (Option-cases (lookup h q.withdrawals)) [
        | inl missing ↦
            absurd (ground (arith, missing, e, lookup-submit_all batch_id sig h q.withdrawals q.db))
        | inr (w₀, there) ↦ ground (
          arith,
          there,
          e,
          v.keyed h w₀ there,
          lookup-submit_all batch_id sig h q.withdrawals q.db,
        )
      ];
  unique = unfold mark_submitted in unique-submit_all batch_id sig q.withdrawals q.db v.unique;
  unique_db = unfold mark_submitted in db-submit_all batch_id sig q.withdrawals q.db v.unique_db;
  stored = mark_submitted-IsStored q batch_id sig v.unique v.keyed v.stored;
}
