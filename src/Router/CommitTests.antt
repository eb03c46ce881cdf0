-- ===== src/Router/CommitTests.antt =====
-- The theorems on the shielded transactions and on the commit at concrete inputs.
use zelana.Base.{◌≡◌, refl, [], ◌∷◌, bytes_eq}
use zelana.Base.Dict.{lookup, contains, has_key}
use zelana.Shielded.{
  new_state, new_tree, nullifier_exists, spend_nullifier, insert_commitment, insert_next,
}
use zelana.Samples.{big_bytes, poseidon, alice, bob, rich}
use zelana.Router.Types.{TxRouter, BatchDiff, TxResult, TxResultType}
use zelana.Router.Signature.{ok}
use zelana.Router.Batch.{start}
use zelana.Router.Commit.{commit, commit_accounts}
use zelana.Router.Tests.{router, begin, note}
use zelana.Router.{account_of, execute_shielded, success_result, debit_shield, credit_unshield}

abbrev noted : TxResult
noted = success_result [] (TxResultType.shielded_result alice bob 0)

hidden : (execute_shielded poseidon note [] begin).0 ≡ ok noted
unfolding execute_shielded new_state new_tree insert_commitment insert_next nullifier_exists
    spend_nullifier contains debit_shield credit_unshield
hidden = refl

-- The cache after a batch that credited one account and spent one nullifier.
abbrev cached : TxRouter
cached = record router { account_cache = (bob, rich) ∷ [] }

abbrev changes : BatchDiff
changes = record {
  account_updates = (bob, rich) ∷ [];
  shielded_diff = record { new_commitments = []; spent_nullifiers = alice ∷ [] };
  withdrawals = [];
  results = [];
}

commit_accounts_example :
    ((commit big_bytes cached changes).account_cache ≡ [])
    × (account_of (start (commit big_bytes cached changes)) bob ≡ account_of (start cached) bob)
commit_accounts_example =
    commit_accounts big_bytes cached changes bob (unfold has_key lookup in refl, tt) refl
