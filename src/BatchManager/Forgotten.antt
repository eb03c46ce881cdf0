-- ===== src/BatchManager/Forgotten.antt =====
-- What a finalization leaves of the states that later batches computed.
use zelana.Base.{ℕ, ◌≡◌, refl, ap, ◌∙◌, false, none, some, [], bytes_eq, arith}
use zelana.Base.Dict.{lookup, or_else, UniqueKeys, lookup-put_all}
use zelana.Merkle.{unwrap_or}
use zelana.Account.{AccountId, default_state}
use zelana.AccountTree.Codec.{BigBytes}
use zelana.Router.Types.{BatchDiff, TxRouter}
use zelana.Router.Commit.{commit, apply_batch, store_withdrawals, accounts-store_withdrawals}
use zelana.Batch.{Batch}
use zelana.BatchManager.{BatchManager, find, has_id, batch_finalized, get_account_state_internal}

module _ (B : BigBytes) where
  accounts-commit :
      (router : TxRouter) (diff : BatchDiff) (id : AccountId)
      → UniqueKeys diff.account_updates
      → lookup id (commit B router diff).db.accounts
        ≡ or_else (lookup id diff.account_updates) (lookup id router.db.accounts)
  unfolding commit apply_batch
  accounts-commit router diff id u =
      lookup-put_all id diff.account_updates (store_withdrawals diff.withdrawals router.db).accounts
        u
      ∙ ap (λ accounts. or_else (lookup id diff.account_updates) (lookup id accounts))
          (accounts-store_withdrawals diff.withdrawals router.db)

  -- After the finalization of a batch that was not committed before, the manager shows for an
  -- account its pending state, else that of the batch, else that of the database: what the cache
  -- of the router held, also of batches that are sealed and wait for their own commit, is
  -- forgotten.
  pub get_account_state_internal-batch_finalized :
      (m : BatchManager) (batch_id : ℕ) (b : Batch) (diff : BatchDiff) (id : AccountId)
      → find (has_id batch_id) m.pending_settlement ≡ some b
      → b.diff ≡ some diff
      → b.committed ≡ false
      → UniqueKeys diff.account_updates
      → get_account_state_internal (batch_finalized B m batch_id).1 id
        ≡ unwrap_or
            (or_else
              (lookup id m.pending_states)
              (or_else (lookup id diff.account_updates) (lookup id m.router.db.accounts)))
            default_state
  unfolding get_account_state_internal batch_finalized
  get_account_state_internal-batch_finalized m batch_id b diff id there executed late u =
      let cache : (commit B m.router diff).account_cache ≡ [] = unfold commit in refl in
      let none_cached : lookup id (commit B m.router diff).account_cache ≡ none =
        ap (lookup id) cache ∙ (unfold lookup in refl) in
      ground (arith, there, executed, late, none_cached, accounts-commit m.router diff id u)
