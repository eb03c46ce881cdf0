-- ===== src/BatchManager/Tests.antt =====
-- The theorems on the batch manager at concrete inputs.
use zelana.Base.{bytes_eq, ◌+◌, ◌≡◌, refl, none, some, false, List, [], ◌∷◌, arith, replicate}
use zelana.Samples.{big_bytes, poseidon, crypto, alice, bob}
use zelana.Base.Dict.{lookup, or_else}
use zelana.Merkle.{unwrap_or}
use zelana.Account.{default_state}
use zelana.Router.Types.{TransactionType, deposit, BatchDiff}
use zelana.Router.Tests.{router}
use zelana.Batch.{Batch, default_config, proved, sealed, new_batch}
use zelana.Batch.Witness.{BatchWitness}
use zelana.BatchManager.{
  BatchManager, ok, submit_transaction, find, batch_finalized, get_account_state_internal,
}
use zelana.BatchManager.Forgotten.{get_account_state_internal-batch_finalized}
use zelana.BatchManager.Weights.{total, sum_of}
use zelana.BatchManager.Calls.{Call, submits, seals, run}
use zelana.BatchManager.Conservation.{carried, brought_all, taken_all, total-run}
use zelana.BatchManager.Valid.{IsValid}
use zelana.BatchManager.Accepts.{submit_transaction-IsValid}

abbrev pub manager : BatchManager
manager = record {
  router = router;
  tx_summaries = [];
  config = default_config;
  next_batch_id = 1;
  current_batch = none;
  proving_batches = [];
  pending_settlement = [];
  pending_states = [];
}

pub manager-IsValid : IsValid manager
unfolding sum_of
manager-IsValid = record {
  open_batch = refl;
  in_proof = refl;
  in_settlement = refl;
  once = λ id. omega arith;
  unused = λ id h. refl;
}

abbrev pub income : TransactionType
income = deposit (record { to = bob; amount = 30; l1_seq = 1 })

abbrev two_calls : List Call
two_calls = submits income 5 ∷ seals false ∷ []

total-run_example :
    total (carried (λ tx. 1)) (run big_bytes crypto poseidon manager two_calls)
      + taken_all (λ tx. 1) big_bytes crypto poseidon manager two_calls
    ≡ total (carried (λ tx. 1)) manager
      + brought_all (λ tx. 1) big_bytes crypto poseidon manager two_calls
total-run_example = total-run (λ tx. 1) big_bytes crypto poseidon manager two_calls

submit_transaction-IsValid_example :
    (m' : BatchManager) × (submit_transaction big_bytes crypto poseidon manager income 5 ≡ ok m')
    × IsValid m'
submit_transaction-IsValid_example =
    submit_transaction-IsValid big_bytes crypto poseidon manager income 5 manager-IsValid
      (omega arith)

abbrev empty_witness : BatchWitness
empty_witness = record {
  transactions = [];
  results = [];
  pre_account_states = [];
  transfer_witnesses = [];
  withdrawal_witnesses = [];
}

abbrev empty_diff : BatchDiff
empty_diff = record {
  account_updates = [];
  shielded_diff = record { new_commitments = []; spent_nullifiers = [] };
  withdrawals = [];
  results = [];
}

-- A batch that was executed, before its proof and with it.
abbrev pub executed_batch : Batch
executed_batch = record (new_batch 1 (replicate 32 0) (replicate 32 0) 5) {
  state = sealed;
  transactions = income ∷ [];
  diff = some empty_diff;
  post_state_root = some alice;
  post_shielded_root = some bob;
  witness = some empty_witness;
}

abbrev pub proved_batch : Batch
proved_batch = record executed_batch { state = proved; proof = some (replicate 256 7) }

abbrev pub proving_manager : BatchManager
proving_manager = record manager { next_batch_id = 2; proving_batches = executed_batch ∷ [] }

abbrev pub settling_manager : BatchManager
settling_manager = record manager { next_batch_id = 2; pending_settlement = proved_batch ∷ [] }

pub proving_manager-IsValid : IsValid proving_manager
unfolding sum_of
proving_manager-IsValid = record {
  open_batch = refl;
  in_proof = refl;
  in_settlement = refl;
  once = λ id. ground arith;
  unused = λ id h. ground arith;
}

pub settling_manager-IsValid : IsValid settling_manager
unfolding sum_of
settling_manager-IsValid = record {
  open_batch = refl;
  in_proof = refl;
  in_settlement = refl;
  once = λ id. ground arith;
  unused = λ id h. ground arith;
}

-- The router keeps in its cache a state of a later batch.
abbrev later_manager : BatchManager
later_manager = record settling_manager {
  router = record router { account_cache = (bob, record { balance = 999; nonce = 3 }) ∷ [] };
}

get_account_state_internal-batch_finalized_example :
    get_account_state_internal (batch_finalized big_bytes later_manager 1).1 bob
    ≡ unwrap_or
        (or_else (lookup bob later_manager.pending_states) (
          or_else
            (lookup bob empty_diff.account_updates)
            (lookup bob later_manager.router.db.accounts)))
        default_state
get_account_state_internal-batch_finalized_example =
    get_account_state_internal-batch_finalized big_bytes later_manager 1 proved_batch empty_diff bob
      (unfold find in refl) refl refl tt
