-- ===== src/Withdrawals/Tests.antt =====
-- The theorems on the queue of withdrawals at concrete inputs.
use zelana.Base.{
  ℕ, some, ◌++◌, ◌<◌, replicate, map, ◌+◌, ◌≡◌, List, [], ◌∷◌, Bytes, bytes_eq, length,
}
use zelana.Base.Dict.{lookup}
use zelana.Router.Types.{PendingWithdrawal}
use zelana.Samples.{alice, bob, crypto}
use zelana.Withdrawals.Root.{withdrawal_leaf, build_withdrawal_merkle_root, zero_hash}
use zelana.Withdrawals.RootShape.{IsRoot, leaves_of_height, build_withdrawal_merkle_root-IsRoot}
use zelana.Withdrawals.{WithdrawalQueue, track, mark_in_batch, load, new}
use zelana.Withdrawals.Stored.{live}
use zelana.Withdrawals.Restart.{Call, adds, batches, submits, finalizes, run, load-run}

abbrev waiting : PendingWithdrawal
waiting = record { tx_hash = 1 ∷ []; from = alice; to_l1_address = bob; amount = 40; l2_nonce = 0 }

abbrev queue : WithdrawalQueue
queue = record {
  db = (1 ∷ [], track waiting 5) ∷ [];
  withdrawals = (1 ∷ [], track waiting 5) ∷ [];
  by_destination = [];
  by_source = [];
}

abbrev in_batch_queue : WithdrawalQueue
in_batch_queue = mark_in_batch queue ((1 ∷ []) ∷ []) 3

abbrev calls : List Call
calls = adds (waiting ∷ []) 5 ∷ batches ((1 ∷ []) ∷ []) 3 ∷ submits 3 bob ∷ finalizes (1 ∷ []) ∷ []

load-run_example :
    lookup (1 ∷ []) (load (run (new []) calls).db).withdrawals
    ≡ live (lookup (1 ∷ []) (run (new []) calls).withdrawals)
load-run_example = load-run calls (1 ∷ [])

build_withdrawal_merkle_root-IsRoot_example :
    let w = track waiting 5 in
    let leaves = map (withdrawal_leaf crypto) (w ∷ w ∷ w ∷ []) in
    (h : ℕ) × (filling : ℕ) × (r : Bytes) × (build_withdrawal_merkle_root crypto (w ∷ w ∷ w ∷ [])
      ≡ some r)
    × (length leaves + filling ≡ leaves_of_height h)
    × (filling < length leaves)
    × IsRoot crypto h (leaves ++ replicate filling zero_hash) r
build_withdrawal_merkle_root-IsRoot_example =
    let w = track waiting 5 in build_withdrawal_merkle_root-IsRoot crypto w (w ∷ w ∷ [])
