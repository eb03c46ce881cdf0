-- ===== src/Threshold/Tests.antt =====
-- The theorems on threshold encryption at concrete inputs.
use mathlib.Core.List.{Perm}
use zelana.Base.{
  ℕ, u64_max, suc, ◌+◌, ◌*◌, ◌%◌, ◌≡◌, inl, inr, refl, ap, Option, none, some, true, if◌then◌else◌,
  nat_beq, List, [], ◌∷◌, map, Bytes, length, replicate, bytes_beq, arith,
}
use zelana.Base.Dict.{lookup}
use zelana.Threshold.Shares.{Share, ok, share_of, share_bytes, split_secret, combine_shares}
use zelana.Threshold.Shares.Recover.{combine_shares-split_secret}
use zelana.Threshold.Committee.{
  Sealing, SealingLaws, Committee, EncryptedShare, LocalCommitteeMember, to_member, decrypt_share,
}
use zelana.Threshold.Transactions.{
  EncryptedTransaction, Draws, encrypt_for_committee, decrypt_transaction,
}
use zelana.Threshold.Delivery.{decrypt_transaction-encrypt_for_committee}
use zelana.Threshold.Mempool.{
  ThresholdMempoolState, DecryptionCoordinator, EncryptedMempoolConfig, default_config, new_state,
  submit_share, can_decrypt, try_decrypt, order_for_batch, decrypt_with_member,
}
use zelana.Threshold.Mempool.Order.{order_for_batch_lem, transactions, InTime, NumberedFrom}
use zelana.Threshold.Mempool.Valid.{Call, run, IsValid, run-IsValid}
use zelana.Threshold.Mempool.Coordinator.{try_decrypt-submit_share}
use zelana.Threshold.Mempool.Duplicates.{combine_shares-AllId}

abbrev coefficient : ℕ → ℕ → ℕ
coefficient i j = (i * 7 + j * 13 + 5) % 256

abbrev key : Bytes
key = replicate 32 7

abbrev share_at : ℕ → Share
share_at id = share_of coefficient 2 key id

three_shares : split_secret coefficient key 2 3 ≡ ok (share_at 1 ∷ share_at 2 ∷ share_at 3 ∷ [])
unfolding split_secret
three_shares = refl

combine_shares-split_secret_example : combine_shares (share_at 3 ∷ share_at 1 ∷ []) 2 ≡ ok key
combine_shares-split_secret_example =
    combine_shares-split_secret coefficient key 2 3 (share_at 1 ∷ share_at 2 ∷ share_at 3 ∷ [])
      (share_at 3 ∷ share_at 1 ∷ []) (λ i j. omega arith) refl (omega arith) three_shares
      (inr (inr (inl refl)), (inl refl, tt)) (omega arith) (omega arith)

combine_shares-AllId_example : combine_shares (share_at 2 ∷ share_at 2 ∷ []) 2 ≡ ok (replicate 32 0)
combine_shares-AllId_example =
    combine_shares-AllId 2 2 (share_at 2 ∷ share_at 2 ∷ []) (omega arith) (omega arith)
      (omega arith)

-- A cipher that marks the length of its key.
abbrev unmark : ℕ → Bytes → Option Bytes
unmark n [] = none
unmark n (k ∷ c) = if nat_beq k n then some c else none

abbrev sealing : Sealing
sealing = record {
  public_of = λ secret. 1 ∷ secret;
  diffie_hellman = λ a b. (length a + length b) ∷ [];
  encrypt = λ key nonce m. some (length key ∷ m);
  decrypt = λ key nonce c. unmark (length key) c;
  derive_key = λ m. m;
  blake3 = λ m. m;
}

unmark_lem :
    (n : ℕ) (m c : Bytes) → ◌≡◌ {A = Option Bytes} (some (n ∷ m)) (some c) → unmark n c ≡ some m
unmark_lem n m c h = ground (arith, h)

sealing_laws : SealingLaws sealing
sealing_laws = record {
  agreement = λ a b. ap (λ (n : ℕ). n ∷ []) (omega arith);
  decrypt-encrypt = λ key nonce m c h. unmark_lem (length key) m c h;
}

abbrev member : ℕ → LocalCommitteeMember
member id = record { id = id; secret_key = id ∷ [] }

abbrev three_members : List LocalCommitteeMember
three_members = member 1 ∷ member 2 ∷ member 3 ∷ []

abbrev committee : Committee
unfolding to_member
committee = record {
  config = record { threshold = 2; total_members = 3; epoch = 0 };
  members = map (to_member sealing) three_members;
  combined_pk = none;
}

abbrev draws : Draws
draws = record {
  symmetric_key = key;
  coefficient = coefficient;
  nonce = 4 ∷ [];
  ephemeral_secret = λ i. i ∷ [];
  share_nonce = λ i. [];
  now = 100;
}

abbrev message : Bytes
message = 10 ∷ 20 ∷ []

abbrev sent : ℕ → EncryptedShare
sent i = record {
  member_id = suc i;
  ephemeral_pk = 1 ∷ i ∷ [];
  nonce = [];
  ciphertext = 3 ∷ (share_at (suc i)).value;
}

abbrev sealed_tx : EncryptedTransaction
sealed_tx = record {
  tx_id = 4 ∷ 32 ∷ message;
  epoch = 0;
  nonce = 4 ∷ [];
  ciphertext = 32 ∷ message;
  encrypted_shares = sent 0 ∷ sent 1 ∷ sent 2 ∷ [];
  timestamp = 100;
  sender_hint = none;
}

sealed : encrypt_for_committee sealing draws message committee none ≡ some (ok sealed_tx)
unfolding encrypt_for_committee split_secret to_member committee
sealed = refl

read_three : decrypt_with_member sealing (member 3) sealed_tx ≡ some (share_at 3)
unfolding decrypt_with_member decrypt_share share_bytes
read_three = refl

read_one : decrypt_with_member sealing (member 1) sealed_tx ≡ some (share_at 1)
unfolding decrypt_with_member decrypt_share share_bytes
read_one = refl

decrypt_transaction-encrypt_for_committee_example :
    decrypt_transaction sealing sealed_tx (share_at 3 ∷ share_at 1 ∷ []) 2 ≡ ok message
unfolding committee
decrypt_transaction-encrypt_for_committee_example =
    decrypt_transaction-encrypt_for_committee sealing sealing_laws draws message committee none
      three_members sealed_tx (share_at 3 ∷ share_at 1 ∷ []) refl (omega arith) (λ i j. omega arith)
      refl (omega arith) sealed
      ((member 3, inr (inr (inl refl)), read_three), ((member 1, inl refl, read_one), tt))
      (omega arith) (omega arith)

abbrev open_config : EncryptedMempoolConfig
open_config = record default_config { enabled = true }

abbrev late_tx : EncryptedTransaction
late_tx = record sealed_tx { tx_id = 1 ∷ []; timestamp = 300 }

abbrev pool : ThresholdMempoolState
pool = record {
  config = open_config;
  committee = none;
  mempool = record { pending = late_tx ∷ sealed_tx ∷ []; ordered = []; next_sequence = u64_max };
  coordinator = record { threshold = 2; collected_shares = [] };
  local_member = none;
}

order_for_batch_lem_example :
    let (s', ordered) = order_for_batch 6 pool in
    Perm (transactions ordered) (late_tx ∷ sealed_tx ∷ [])
    × InTime (transactions ordered)
    × NumberedFrom 6 u64_max ordered
    × (s'.mempool.pending ≡ [])
    × (s'.mempool.ordered ≡ ordered)
    × (s'.mempool.next_sequence ≡ 1)
order_for_batch_lem_example = order_for_batch_lem 6 pool (omega arith)

run-IsValid_example : IsValid (
    run
      (Call.adds late_tx ∷ Call.adds sealed_tx ∷ Call.orders 1 ∷ Call.clears 1 ∷ [])
      (new_state open_config))
run-IsValid_example =
    run-IsValid open_config
      (Call.adds late_tx ∷ Call.adds sealed_tx ∷ Call.orders 1 ∷ Call.clears 1 ∷ []) (omega arith)

abbrev collecting : DecryptionCoordinator
collecting = record {
  threshold = 2;
  collected_shares = (sealed_tx.tx_id, share_at 1 ∷ share_at 2 ∷ []) ∷ [];
}

try_decrypt-submit_share_example :
    try_decrypt sealing (submit_share sealed_tx.tx_id (share_at 2) collecting) sealed_tx
    ≡ try_decrypt sealing collecting sealed_tx
unfolding can_decrypt lookup bytes_beq
try_decrypt-submit_share_example =
    try_decrypt-submit_share sealing collecting sealed_tx.tx_id (share_at 2) sealed_tx (λ e. refl)
