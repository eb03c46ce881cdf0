-- ===== src/Withdrawals/Stored.antt =====
-- The database and the queue in memory: a restart loses nothing but the finalized withdrawals.
use zelana.Base.{
  ℕ, ◌≡◌, refl, Option, none, some, [], ◌∷◌, Bytes, ==_iff, ==_refl, bytes_eq, if◌then◌else◌, arith,
  Option-cases, inl, inr,
}
use zelana.Base.Dict.{Dict, lookup, insert, has_key, UniqueKeys, lookup-insert, lookup-erase}
use zelana.Withdrawals.Keyed.{IsKeyed}
use zelana.Withdrawals.Transitions.{lookup-submit_all}
use zelana.Router.Types.{PendingWithdrawal}
use zelana.Withdrawals.{
  TrackedWithdrawal, WithdrawalQueue, in_batch, submitted, finalized, is_finalized, track, add,
  mark_one, finalize, to_submit, submit_all, mark_submitted,
}

-- A finalized withdrawal is not stored.
abbrev pub live : Option TrackedWithdrawal → Option TrackedWithdrawal
live none = none
live (some w) = if is_finalized w.state then none else some w

-- The database holds just the withdrawals of the queue that are not finalized.
abbrev pub IsStored : WithdrawalQueue → Type 0
IsStored q = (h : Bytes) → lookup h q.db ≡ live (lookup h q.withdrawals)

pub add-IsStored :
    (q : WithdrawalQueue) (p : PendingWithdrawal) (now : ℕ) → IsStored q → IsStored (add q p now)
unfolding add track
add-IsStored q p now v h = ground (
  arith,
  v h,
  lookup-insert p.tx_hash h (track p now) q.withdrawals,
  lookup-insert p.tx_hash h (track p now) q.db,
)

pub mark_one-IsStored :
    (q : WithdrawalQueue) (hash : Bytes) (batch_id : ℕ)
    → IsStored q
    → IsStored (mark_one q hash batch_id)
unfolding mark_one
mark_one-IsStored q hash batch_id v h = elim (Option-cases (lookup hash q.withdrawals)) [
  | inl missing ↦ rw (missing, mark_one) (v h)
  | inr (w, there) ↦
      let w' = record w { state = in_batch batch_id; batch_id = some batch_id } in
      ground
        (arith, there, v h, lookup-insert hash h w' q.withdrawals, lookup-insert hash h w' q.db)
]

pub finalize-IsStored :
    (q : WithdrawalQueue) (hash : Bytes) → IsStored q → IsStored (finalize q hash).1
unfolding finalize
finalize-IsStored q hash v h = elim (Option-cases (lookup hash q.withdrawals)) [
  | inl missing ↦ rw (missing, finalize) (v h)
  | inr (w, there) ↦ ground (
    arith,
    there,
    v h,
    lookup-insert hash h (record w { state = finalized }) q.withdrawals,
    lookup-erase hash h q.db,
  )
]

abbrev resent :
    ℕ → Bytes → Option TrackedWithdrawal → Option TrackedWithdrawal → Option TrackedWithdrawal
resent batch_id sig none stored = stored
resent batch_id sig (some w) stored =
    if to_submit batch_id w then some (record w { state = submitted sig }) else stored

tail-IsKeyed :
    (hash : Bytes) (w : TrackedWithdrawal) (ws : Dict Bytes TrackedWithdrawal)
    → UniqueKeys ((hash, w) ∷ ws)
    → IsKeyed ((hash, w) ∷ ws)
    → (w.tx_hash ≡ hash) × IsKeyed ws
unfolding lookup has_key
tail-IsKeyed hash w ws u k = (
  ground (arith, k hash w, ==_refl {A = Bytes} hash),
  λ h v there. ground (arith, k h v, there, u.0, ==_iff {A = Bytes} hash h),
)

stored-submit_all :
    (batch_id : ℕ) (sig h : Bytes) (ws db : Dict Bytes TrackedWithdrawal)
    → UniqueKeys ws
    → IsKeyed ws
    → lookup h (submit_all batch_id sig ws db).1 ≡ resent batch_id sig (lookup h ws) (lookup h db)
unfolding submit_all lookup has_key
stored-submit_all batch_id sig h [] db u k = refl
stored-submit_all batch_id sig h ((hash, w) ∷ ws) db u k =
    let w' = record w { state = submitted sig } in
    let keyed = tail-IsKeyed hash w ws u k in
    ground (
      arith,
      keyed.0,
      u.0,
      ==_iff {A = Bytes} hash h,
      lookup-insert w.tx_hash h w' db,
      stored-submit_all batch_id sig h ws
          (if to_submit batch_id w then insert w.tx_hash w' db else db) u.1 keyed.1,
    )

pub mark_submitted-IsStored :
    (q : WithdrawalQueue) (batch_id : ℕ) (sig : Bytes)
    → UniqueKeys q.withdrawals
    → IsKeyed q.withdrawals
    → IsStored q
    → IsStored (mark_submitted q batch_id sig)
unfolding mark_submitted
mark_submitted-IsStored q batch_id sig u k v h = elim (Option-cases (lookup h q.withdrawals)) [
  | inl missing ↦ ground (
    arith,
    missing,
    v h,
    lookup-submit_all batch_id sig h q.withdrawals q.db,
    stored-submit_all batch_id sig h q.withdrawals q.db u k,
  )
  | inr (w, there) ↦ ground (
    arith,
    there,
    v h,
    lookup-submit_all batch_id sig h q.withdrawals q.db,
    stored-submit_all batch_id sig h q.withdrawals q.db u k,
  )
]
