-- ===== src/Withdrawals.antt =====
-- core/src/sequencer/bridge/withdrawals.rs: the queue of withdrawals that wait for settlement, in
-- memory and in the database. The database holds a withdrawal's record as it was serialized, and
-- does not fail; the time of a call is an argument.
pub mod Transitions
pub mod Stats
pub mod Keyed
pub mod Stored
pub mod Sound
pub mod Restart
pub mod Root
pub mod RootShape
pub mod Tests
use zelana.Base.{
  ℕ, suc, ◌+◌, ◌%◌, Bool, true, false, not, ◌&&◌, Option, none, some, List, [], ◌∷◌, ◌++◌, Bytes,
  length, keep_if, ◌==◌, nat_beq, bytes_eq, if◌then◌else◌, u64_mod,
}
use zelana.Base.Dict.{Dict, lookup, insert, erase}
use zelana.Merkle.{unwrap_or}
use zelana.Account.{AccountId}
use zelana.Router.Types.{PendingWithdrawal}

pub data WithdrawalState : Type 0 where
  pending : WithdrawalState
  in_batch : ℕ → WithdrawalState
  submitted : Bytes → WithdrawalState
  finalized : WithdrawalState
  failed : Bytes → WithdrawalState

pub record TrackedWithdrawal : Type 0 where
  pub tx_hash : Bytes
  pub from : AccountId
  pub to_l1_address : Bytes
  pub amount : ℕ
  pub l2_nonce : ℕ
  pub state : WithdrawalState
  pub created_at : ℕ
  pub batch_id : Option ℕ

pub record WithdrawalQueue : Type 0 where
  pub db : Dict Bytes TrackedWithdrawal
  pub withdrawals : Dict Bytes TrackedWithdrawal
  pub by_destination : Dict Bytes (List Bytes)
  pub by_source : Dict AccountId (List Bytes)

-- `TrackedWithdrawal::from`
pub track : PendingWithdrawal → ℕ → TrackedWithdrawal
track p now = record {
  tx_hash = p.tx_hash;
  from = p.from;
  to_l1_address = p.to_l1_address;
  amount = p.amount;
  l2_nonce = p.l2_nonce;
  state = pending;
  created_at = now;
  batch_id = none;
}

-- `entry(key).or_default().push(hash)`
abbrev pub push_index : Bytes → Bytes → Dict Bytes (List Bytes) → Dict Bytes (List Bytes)
push_index key hash index = insert key (unwrap_or (lookup key index) [] ++ hash ∷ []) index

pub new : Dict Bytes TrackedWithdrawal → WithdrawalQueue
new db = record { db = db; withdrawals = []; by_destination = []; by_source = [] }

-- The loop of `load` over the records of the database.
pub load_all : Dict Bytes TrackedWithdrawal → WithdrawalQueue → WithdrawalQueue
load_all [] q = q
load_all ((hash, w) ∷ rows) q = load_all rows (record q {
  by_destination = push_index w.to_l1_address hash q.by_destination;
  by_source = push_index w.from hash q.by_source;
  withdrawals = insert hash w q.withdrawals;
})

pub load : Dict Bytes TrackedWithdrawal → WithdrawalQueue
load db = load_all db (new db)

pub add : WithdrawalQueue → PendingWithdrawal → ℕ → WithdrawalQueue
add q p now =
    let w = track p now in
    record {
      by_destination = push_index w.to_l1_address w.tx_hash q.by_destination;
      by_source = push_index w.from w.tx_hash q.by_source;
      db = insert w.tx_hash w q.db;
      withdrawals = insert w.tx_hash w q.withdrawals;
    }

pub add_batch : WithdrawalQueue → List PendingWithdrawal → ℕ → WithdrawalQueue
add_batch q [] now = q
add_batch q (p ∷ ps) now = add_batch (add q p now) ps now

-- Writes a withdrawal in memory and in the database.
abbrev pub store : WithdrawalQueue → Bytes → TrackedWithdrawal → WithdrawalQueue
store q hash w = record q { withdrawals = insert hash w q.withdrawals; db = insert hash w q.db }

-- One round of the loop of `mark_in_batch`.
pub mark_one : WithdrawalQueue → Bytes → ℕ → WithdrawalQueue
mark_one q hash batch_id = elim (lookup hash q.withdrawals) [
  | none ↦ q
  | some w ↦ store q hash (record w { state = in_batch batch_id; batch_id = some batch_id })
]

pub mark_in_batch : WithdrawalQueue → List Bytes → ℕ → WithdrawalQueue
mark_in_batch q [] batch_id = q
mark_in_batch q (hash ∷ hashes) batch_id = mark_in_batch (mark_one q hash batch_id) hashes batch_id

abbrev pub is_in_batch : WithdrawalState → Bool
is_in_batch (in_batch b) = true
is_in_batch _ = false

abbrev pub is_pending : WithdrawalState → Bool
is_pending pending = true
is_pending _ = false

abbrev pub is_finalized : WithdrawalState → Bool
is_finalized finalized = true
is_finalized _ = false

abbrev pub is_failed : WithdrawalState → Bool
is_failed (failed r) = true
is_failed _ = false

-- `w.batch_id == Some(batch_id)`
abbrev pub in_this_batch : ℕ → TrackedWithdrawal → Bool
in_this_batch batch_id w = elim w.batch_id [ none ↦ false | some b ↦ nat_beq b batch_id ]

abbrev pub to_submit : ℕ → TrackedWithdrawal → Bool
to_submit batch_id w = in_this_batch batch_id w && is_in_batch w.state

-- The loop of `mark_submitted`: the entries, changed in place, and the database.
pub submit_all :
    ℕ
    → Bytes
    → Dict Bytes TrackedWithdrawal
    → Dict Bytes TrackedWithdrawal
    → Dict Bytes TrackedWithdrawal × Dict Bytes TrackedWithdrawal
submit_all batch_id sig [] db = ([], db)
submit_all batch_id sig ((hash, w) ∷ ws) db =
    let w' = record w { state = submitted sig } in
    let hit = to_submit batch_id w in
    let (rest, db') = submit_all batch_id sig ws (if hit then insert w.tx_hash w' db else db) in
    ((hash, if hit then w' else w) ∷ rest, db')

pub mark_submitted : WithdrawalQueue → ℕ → Bytes → WithdrawalQueue
mark_submitted q batch_id sig =
    let (withdrawals, db) = submit_all batch_id sig q.withdrawals q.db in
    record q { withdrawals = withdrawals; db = db }

pub finalize : WithdrawalQueue → Bytes → Option TrackedWithdrawal × WithdrawalQueue
finalize q hash = elim (lookup hash q.withdrawals) [
  | none ↦ (none, q)
  | some w ↦
      let w' = record w { state = finalized } in
      (some w', record q { withdrawals = insert hash w' q.withdrawals; db = erase hash q.db })
]

-- The hashes of a batch, in the order of the map.
pub hashes_of_batch : ℕ → Dict Bytes TrackedWithdrawal → List Bytes
hashes_of_batch batch_id [] = []
hashes_of_batch batch_id ((hash, w) ∷ ws) =
    let rest = hashes_of_batch batch_id ws in if in_this_batch batch_id w then hash ∷ rest else rest

pub finalize_all : WithdrawalQueue → List Bytes → WithdrawalQueue
finalize_all q [] = q
finalize_all q (hash ∷ hashes) = finalize_all (finalize q hash).1 hashes

-- The queue after `finalize_batch`; the withdrawals that it also returns are those it finalizes.
pub finalize_batch : WithdrawalQueue → ℕ → WithdrawalQueue
finalize_batch q batch_id = finalize_all q (hashes_of_batch batch_id q.withdrawals)

-- The withdrawals under the listed hashes that the queue has.
pub found : Dict Bytes TrackedWithdrawal → List Bytes → List TrackedWithdrawal
found ws [] = []
found ws (h ∷ hashes) =
    let rest = found ws hashes in elim (lookup h ws) [ none ↦ rest | some w ↦ w ∷ rest ]

pub get_by_source : WithdrawalQueue → AccountId → List TrackedWithdrawal
get_by_source q account = found q.withdrawals (unwrap_or (lookup account q.by_source) [])

pub get_by_destination : WithdrawalQueue → Bytes → List TrackedWithdrawal
get_by_destination q l1_address =
    found q.withdrawals (unwrap_or (lookup l1_address q.by_destination) [])

-- `values().filter(..)`
pub values_if : (TrackedWithdrawal → Bool) → Dict Bytes TrackedWithdrawal → List TrackedWithdrawal
values_if p [] = []
values_if p ((hash, w) ∷ ws) = let rest = values_if p ws in if p w then w ∷ rest else rest

pub get_pending : WithdrawalQueue → List TrackedWithdrawal
get_pending q = values_if (λ w. is_pending w.state) q.withdrawals

pub pending_count : WithdrawalQueue → ℕ
pending_count q = length (get_pending q)

pub sum_amounts : List TrackedWithdrawal → ℕ
sum_amounts [] = 0
sum_amounts (w ∷ ws) = (w.amount + sum_amounts ws) % u64_mod

pub total_pending_amount : WithdrawalQueue → ℕ
total_pending_amount q =
    sum_amounts
      (values_if (λ w. not (is_finalized w.state) && not (is_failed w.state)) q.withdrawals)

pub record WithdrawalStats : Type 0 where
  pub pending : ℕ
  pub in_batch : ℕ
  pub submitted : ℕ
  pub finalized : ℕ
  pub failed : ℕ
  pub total_pending_amount : ℕ

-- One round of the loop of `stats`.
pub tally : WithdrawalState → WithdrawalStats → WithdrawalStats
tally pending s = record s { pending = suc s.pending }
tally (in_batch b) s = record s { in_batch = suc s.in_batch }
tally (submitted sig) s = record s { submitted = suc s.submitted }
tally finalized s = record s { finalized = suc s.finalized }
tally (failed reason) s = record s { failed = suc s.failed }

pub tally_all : Dict Bytes TrackedWithdrawal → WithdrawalStats → WithdrawalStats
tally_all [] s = s
tally_all ((hash, w) ∷ ws) s = tally_all ws (tally w.state s)

pub stats : WithdrawalQueue → WithdrawalStats
stats q = tally_all q.withdrawals (record {
  pending = 0;
  in_batch = 0;
  submitted = 0;
  finalized = 0;
  failed = 0;
  total_pending_amount = total_pending_amount q;
})

-- `list.retain(|h| h != &hash)` under a key of an index.
abbrev pub unindex : Bytes → Bytes → Dict Bytes (List Bytes) → Dict Bytes (List Bytes)
unindex key hash index = elim (lookup key index) [
  | none ↦ index
  | some hashes ↦ insert key (keep_if (λ h. not (h == hash)) hashes) index
]

pub prune_one : WithdrawalQueue → Bytes → WithdrawalQueue
prune_one q hash = elim (lookup hash q.withdrawals) [
  | none ↦ q
  | some w ↦ record q {
    withdrawals = erase hash q.withdrawals;
    by_destination = unindex w.to_l1_address hash q.by_destination;
    by_source = unindex w.from hash q.by_source;
  }
]

pub prune_all : WithdrawalQueue → List Bytes → WithdrawalQueue
prune_all q [] = q
prune_all q (hash ∷ hashes) = prune_all (prune_one q hash) hashes

pub finalized_hashes : Dict Bytes TrackedWithdrawal → List Bytes
finalized_hashes [] = []
finalized_hashes ((hash, w) ∷ ws) =
    let rest = finalized_hashes ws in if is_finalized w.state then hash ∷ rest else rest

pub prune_finalized : WithdrawalQueue → WithdrawalQueue
prune_finalized q = prune_all q (finalized_hashes q.withdrawals)
