-- ===== src/Router/Commit.antt =====
-- The commit of a diff (core/src/sequencer/execution/tx_router.rs) with the atomic write of
-- core/src/sequencer/storage/db.rs. The database is a store in memory that does not fail.
use zelana.Base.{
  ℕ, ◌+◌, ◌≡◌, refl, ap, ◌∙◌, List, [], ◌∷◌, map, Bytes, ltb, bytes_eq, nat_eq, if◌then◌else◌,
  arith, u64_max, ◌||◌, ==_iff,
}
use zelana.Base.Dict.{Dict, lookup, insert, contains, put_all, UniqueKeys, lookup-put_all}
use zelana.Account.{AccountId, AccountState}
use zelana.AccountTree.{AccountTree, insert_account}
use zelana.AccountTree.Codec.{BigBytes}
use zelana.AccountTree.Insert.{IsBytes, IsValid, insert_account-IsValid}
use zelana.Shielded.{Commitment, Nullifier}
use zelana.Router.Types.{Store, TxRouter, BatchDiff, PendingWithdrawal, EncryptedNote}
use zelana.Router.Batch.{start}
use zelana.Router.{account_of}

-- `saturating_add` of two `u64`
abbrev saturating_add : ℕ → ℕ → ℕ
saturating_add a b = if ltb u64_max (a + b) then u64_max else a + b

pub record DbBatch : Type 0 where
  pub account_updates : Dict AccountId AccountState
  pub nullifiers : List Nullifier
  pub commitments : List (ℕ × Commitment)
  pub encrypted_notes : List (Commitment × EncryptedNote)

unfoldable pub add_nullifiers : List Nullifier → List Nullifier → List Nullifier
add_nullifiers [] stored = stored
add_nullifiers (n ∷ ns) stored =
    add_nullifiers ns (if contains n stored then stored else n ∷ stored)

unfoldable pub apply_batch : Store → DbBatch → Store
apply_batch db batch = record db {
  accounts = put_all batch.account_updates db.accounts;
  nullifiers = add_nullifiers batch.nullifiers db.nullifiers;
  commitments = put_all batch.commitments db.commitments;
  encrypted_notes = put_all batch.encrypted_notes db.encrypted_notes;
}

-- `store_withdrawal` and `add_withdrawal` of each queued withdrawal.
unfoldable pub store_withdrawals : List PendingWithdrawal → Store → Store
store_withdrawals [] db = db
store_withdrawals (w ∷ ws) db = store_withdrawals ws (record db {
  withdrawals = insert w.tx_hash w db.withdrawals;
  withdrawals_total = saturating_add db.withdrawals_total w.amount;
})

module _ (B : BigBytes) where
  unfoldable pub update_tree : Dict AccountId AccountState → AccountTree → AccountTree
  update_tree [] t = t
  update_tree ((id, state) ∷ updates) t = update_tree updates (insert_account B t id state).0

  unfoldable pub commit : TxRouter → BatchDiff → TxRouter
  commit router diff =
      let batch : DbBatch = record {
        account_updates = diff.account_updates;
        nullifiers = diff.shielded_diff.spent_nullifiers;
        commitments =
            map (λ (position, commitment, note). (position, commitment))
              diff.shielded_diff.new_commitments;
        encrypted_notes =
            map (λ (position, commitment, note). (commitment, note))
              diff.shielded_diff.new_commitments;
      } in
      record router {
        db = apply_batch (store_withdrawals diff.withdrawals router.db) batch;
        account_cache = [];
        account_tree = update_tree diff.account_updates router.account_tree;
      }

pub accounts-store_withdrawals :
    (ws : List PendingWithdrawal) (db : Store) → (store_withdrawals ws db).accounts ≡ db.accounts
unfolding store_withdrawals
accounts-store_withdrawals [] db = refl
accounts-store_withdrawals (w ∷ ws) db = accounts-store_withdrawals ws _

nullifiers-store_withdrawals :
    (ws : List PendingWithdrawal) (db : Store)
    → (store_withdrawals ws db).nullifiers ≡ db.nullifiers
unfolding store_withdrawals
nullifiers-store_withdrawals [] db = refl
nullifiers-store_withdrawals (w ∷ ws) db = nullifiers-store_withdrawals ws _

contains-add_nullifiers :
    (n : Nullifier) (ns stored : List Nullifier)
    → contains n (add_nullifiers ns stored) ≡ (contains n ns || contains n stored)
unfolding add_nullifiers contains
contains-add_nullifiers n [] stored = refl
contains-add_nullifiers n (x ∷ ns) stored = ground (
  arith,
  contains-add_nullifiers n ns (if contains x stored then stored else x ∷ stored),
  ==_iff {A = Bytes} x n,
)

abbrev pub AllBytes : Dict AccountId AccountState → Type 0
AllBytes [] = Unit
AllBytes ((id, state) ∷ updates) = IsBytes id × AllBytes updates

module _ (B : BigBytes) where
  -- A commit of a diff that holds the cached accounts, each once, empties the cache and changes no
  -- account that the router shows.
  pub commit_accounts :
      (router : TxRouter) (diff : BatchDiff) (id : AccountId)
      → UniqueKeys diff.account_updates
      → diff.account_updates ≡ router.account_cache
      → ((commit B router diff).account_cache ≡ [])
        × (account_of (start (commit B router diff)) id ≡ account_of (start router) id)
  unfolding commit apply_batch account_of lookup
  commit_accounts router diff id u e = (
    refl,
    ground (
      arith,
      lookup-put_all id diff.account_updates (store_withdrawals diff.withdrawals router.db).accounts
          u,
      accounts-store_withdrawals diff.withdrawals router.db,
      e,
    ),
  )

  -- After a commit the database holds a nullifier exactly if it held it before or the diff lists
  -- it.
  pub commit_nullifiers :
      (router : TxRouter) (diff : BatchDiff) (n : Nullifier)
      → contains n (commit B router diff).db.nullifiers
        ≡ (contains n diff.shielded_diff.spent_nullifiers || contains n router.db.nullifiers)
  unfolding commit apply_batch
  commit_nullifiers router diff n =
      contains-add_nullifiers n diff.shielded_diff.spent_nullifiers _
      ∙ ap (λ stored. contains n diff.shielded_diff.spent_nullifiers || contains n stored)
          (nullifiers-store_withdrawals diff.withdrawals router.db)

  pub update_tree-IsValid :
      (updates : Dict AccountId AccountState) (t : AccountTree)
      → AllBytes updates
      → IsValid B t
      → IsValid B (update_tree B updates t)
  unfolding update_tree
  update_tree-IsValid [] t b v = v
  update_tree-IsValid ((id, state) ∷ updates) t b v =
      update_tree-IsValid updates _ b.1 (insert_account-IsValid B t id state v b.0)

  -- A commit of accounts whose identifiers are bytes keeps the account tree well formed.
  pub commit-IsValid :
      (router : TxRouter) (diff : BatchDiff)
      → AllBytes diff.account_updates
      → IsValid B router.account_tree
      → IsValid B (commit B router diff).account_tree
  unfolding commit
  commit-IsValid router diff b v = update_tree-IsValid diff.account_updates router.account_tree b v
