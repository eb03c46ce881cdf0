-- ===== src/Threshold/Mempool.antt =====
-- The encrypted mempool: `EncryptedMempool` and `DecryptionCoordinator`
-- (sdk/threshold/src/encrypted_tx.rs), and the state of the sequencer around them
-- (core/src/sequencer/mempool/threshold_mempool.rs).
pub mod Order
pub mod Numbers
pub mod Valid
pub mod Duplicates
pub mod Coordinator
use zelana.Base.{
  ℕ, ◌+◌, ◌%◌, u64_mod, Bool, true, false, not, ◌&&◌, Option, none, some, List, [], ◌∷◌, ◌++◌,
  Bytes, length, keep_if, leb, nat_beq, if◌then◌else◌, ◌==◌, bytes_eq,
}
use zelana.Base.Dict.{Dict, lookup, insert, erase}
use zelana.Threshold.Shares.{Share, Result, ok, err, insufficient_shares}
use zelana.Threshold.Committee.{
  Sealing, Committee, LocalCommitteeMember, EncryptedShare, decrypt_share,
}
use zelana.Threshold.Transactions.{EncryptedTransaction, decrypt_transaction}

pub record OrderedEncryptedTx : Type 0 where
  pub encrypted_tx : EncryptedTransaction
  pub sequence : ℕ
  pub batch_id : ℕ

pub record EncryptedMempool : Type 0 where
  pub pending : List EncryptedTransaction
  pub ordered : List OrderedEncryptedTx
  pub next_sequence : ℕ

pub new_mempool : EncryptedMempool
new_mempool = record { pending = []; ordered = []; next_sequence = 0 }

unfoldable pub add : EncryptedTransaction → EncryptedMempool → EncryptedMempool
add tx m = record m { pending = m.pending ++ tx ∷ [] }

-- `sort_by_key`, which is stable: a transaction goes before the later ones of its own time.
unfoldable pub insert_by_time :
    EncryptedTransaction → List EncryptedTransaction → List EncryptedTransaction
insert_by_time tx [] = tx ∷ []
insert_by_time tx (first ∷ txs) =
    if leb tx.timestamp first.timestamp then tx ∷ first ∷ txs else first ∷ insert_by_time tx txs

unfoldable pub sort_by_time : List EncryptedTransaction → List EncryptedTransaction
unfolding insert_by_time
sort_by_time [] = []
sort_by_time (tx ∷ txs) = insert_by_time tx (sort_by_time txs)

-- The sequence number after that of each transaction, which wraps in release builds.
unfoldable pub number_from : ℕ → ℕ → List EncryptedTransaction → List OrderedEncryptedTx
number_from batch_id sequence [] = []
number_from batch_id sequence (tx ∷ txs) =
    record { encrypted_tx = tx; sequence = sequence; batch_id = batch_id }
    ∷ number_from batch_id ((sequence + 1) % u64_mod) txs

unfoldable pub number_after : ℕ → List EncryptedTransaction → ℕ
number_after sequence [] = sequence
number_after sequence (tx ∷ txs) = number_after ((sequence + 1) % u64_mod) txs

unfoldable pub order_pending : ℕ → EncryptedMempool → EncryptedMempool × List OrderedEncryptedTx
unfolding sort_by_time number_from number_after
order_pending batch_id m =
    let pending = sort_by_time m.pending in
    let ordered = number_from batch_id m.next_sequence pending in
    (
      record m {
        pending = [];
        ordered = m.ordered ++ ordered;
        next_sequence = number_after m.next_sequence pending;
      },
      ordered,
    )

unfoldable pub get_batch : ℕ → EncryptedMempool → List OrderedEncryptedTx
get_batch batch_id m = keep_if (λ tx. nat_beq tx.batch_id batch_id) m.ordered

unfoldable pub clear_batch : ℕ → EncryptedMempool → EncryptedMempool
clear_batch batch_id m = record m {
  ordered = keep_if (λ tx. not (nat_beq tx.batch_id batch_id)) m.ordered;
}

pub record DecryptionCoordinator : Type 0 where
  pub threshold : ℕ
  pub collected_shares : Dict Bytes (List Share)

abbrev pub shares_or_none : Option (List Share) → List Share
shares_or_none none = []
shares_or_none (some shares) = shares

unfoldable pub submit_share : Bytes → Share → DecryptionCoordinator → DecryptionCoordinator
submit_share tx_id share c = record c {
  collected_shares =
      insert tx_id (shares_or_none (lookup tx_id c.collected_shares) ++ share ∷ [])
        c.collected_shares;
}

unfoldable pub can_decrypt : DecryptionCoordinator → Bytes → Bool
can_decrypt c tx_id = elim (lookup tx_id c.collected_shares) [
  | none ↦ false
  | some shares ↦ leb c.threshold (length shares)
]

unfoldable pub clear : Bytes → DecryptionCoordinator → DecryptionCoordinator
clear tx_id c = record c { collected_shares = erase tx_id c.collected_shares }

pub record EncryptedMempoolConfig : Type 0 where
  pub enabled : Bool
  pub threshold : ℕ
  pub total_members : ℕ
  pub max_pending : ℕ

abbrev pub default_config : EncryptedMempoolConfig
default_config = record { enabled = false; threshold = 2; total_members = 3; max_pending = 1000 }

pub record ThresholdMempoolState : Type 0 where
  pub config : EncryptedMempoolConfig
  pub committee : Option Committee
  pub mempool : EncryptedMempool
  pub coordinator : DecryptionCoordinator
  pub local_member : Option LocalCommitteeMember

abbrev pub new_state : EncryptedMempoolConfig → ThresholdMempoolState
unfolding new_mempool
new_state config = record {
  config = config;
  committee = none;
  mempool = new_mempool;
  coordinator = record { threshold = config.threshold; collected_shares = [] };
  local_member = none;
}

pub data AddError : Type 0 where
  mempool_full : AddError
  -- expected, got
  invalid_epoch : ℕ → ℕ → AddError

pub data Added : Type 0 where
  added : ThresholdMempoolState → Added
  refused : AddError → Added

abbrev pub epoch_fits : Option Committee → ℕ → Bool
epoch_fits none epoch = true
epoch_fits (some c) epoch = nat_beq epoch c.config.epoch

abbrev pub epoch_of : Option Committee → ℕ
epoch_of none = 0
epoch_of (some c) = c.config.epoch

unfoldable pub add_encrypted_tx : EncryptedTransaction → ThresholdMempoolState → Added
unfolding add
add_encrypted_tx tx s =
    if leb s.config.max_pending (length s.mempool.pending)
    then refused mempool_full
    else if not (epoch_fits s.committee tx.epoch)
    then refused (invalid_epoch (epoch_of s.committee) tx.epoch)
    else added (record s { mempool = add tx s.mempool })

unfoldable pub is_active : ThresholdMempoolState → Bool
is_active s = elim s.committee [ none ↦ false | some _ ↦ s.config.enabled ]

unfoldable pub order_for_batch :
    ℕ → ThresholdMempoolState → ThresholdMempoolState × List OrderedEncryptedTx
unfolding order_pending
order_for_batch batch_id s =
    let (mempool, ordered) = order_pending batch_id s.mempool in
    (record s { mempool = mempool }, ordered)

-- `iter().find(|s| s.member_id == id)`
unfoldable pub find_share : ℕ → List EncryptedShare → Option EncryptedShare
find_share id [] = none
find_share id (e ∷ es) = if nat_beq e.member_id id then some e else find_share id es

module _ (S : Sealing) where
  unfoldable pub try_decrypt : DecryptionCoordinator → EncryptedTransaction → Result Bytes
  try_decrypt c tx = elim (lookup tx.tx_id c.collected_shares) [
    | none ↦ err (insufficient_shares 0 c.threshold)
    | some shares ↦ decrypt_transaction S tx shares c.threshold
  ]

  unfoldable pub decrypt_with_member : LocalCommitteeMember → EncryptedTransaction → Option Share
  unfolding find_share
  decrypt_with_member member tx = elim (find_share member.id tx.encrypted_shares) [
    | none ↦ none
    | some e ↦ decrypt_share S member e
  ]

  unfoldable pub decrypt_local_share : ThresholdMempoolState → EncryptedTransaction → Option Share
  unfolding decrypt_with_member
  decrypt_local_share s tx = elim s.local_member [
    | none ↦ none
    | some member ↦ decrypt_with_member member tx
  ]
