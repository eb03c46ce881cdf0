-- ===== src/Router/Load.antt =====
-- The start of the router from the database (core/src/sequencer/execution/tx_router.rs). The rows of
-- the database are listed in the order of its maps.
use zelana.Base.{[]}
use zelana.AccountTree.Codec.{BigBytes}
use zelana.AccountTree.Insert.{IsValid, new-IsValid}
use zelana.AccountTree as Tree
use zelana.Shielded.{Poseidon, ShieldedState, load_state}
use zelana.Router.Types.{Store, TxRouter}
use zelana.Router.Commit.{AllBytes, update_tree, update_tree-IsValid}

module _ (B : BigBytes) where
  -- `TxRouter::new`
  unfoldable new_router : Store → ShieldedState → TxRouter
  new_router db shielded_state = record {
    db = db;
    account_cache = [];
    shielded_state = shielded_state;
    account_tree = Tree.new B;
  }

  unfoldable load_accounts_into_tree : TxRouter → TxRouter
  load_accounts_into_tree router = record router {
    account_tree = update_tree B router.db.accounts router.account_tree;
  }

  -- `TxRouter::load`
  unfoldable load_router : Poseidon → Store → TxRouter
  unfolding new_router load_accounts_into_tree
  load_router P db =
      load_accounts_into_tree (new_router db (load_state P db.nullifiers db.commitments))

  -- A router that is loaded from accounts whose identifiers are bytes has a well-formed account tree.
  load_router-IsValid :
      (P : Poseidon) (db : Store) → AllBytes db.accounts → IsValid B (load_router P db).account_tree
  unfolding load_router
  load_router-IsValid P db b = update_tree-IsValid B db.accounts (Tree.new B) b (new-IsValid B)
