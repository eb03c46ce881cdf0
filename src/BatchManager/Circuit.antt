-- ===== src/BatchManager/Circuit.antt =====
-- The state root after a batch, computed in the order of the circuit
-- (core/src/sequencer/execution/batch.rs, `seal_current_batch_inner`).
use zelana.Base.{List, [], ◌∷◌, Bytes, bytes_eq}
use zelana.Base.Dict.{insert}
use zelana.Account.{AccountId, AccountState}
use zelana.AccountTree.{AccountTree, insert_account}
use zelana.AccountTree.Codec.{BigBytes}
use zelana.Router.Types.{TransactionType, TxRouter, shielded, transfer, deposit, withdraw}
use zelana.Prover.{States, preload, state_or_default, paid, received}

-- The accounts of the transfers and the withdrawals, from the database.
unfoldable pub circuit_states : States → List TransactionType → States → States
circuit_states db [] states = states
circuit_states db (transfer t ∷ txs) states =
    circuit_states db txs (preload db t.tx_data.to (preload db t.signer_pubkey states))
circuit_states db (withdraw w ∷ txs) states = circuit_states db txs (preload db w.from states)
circuit_states db (deposit d ∷ txs) states = circuit_states db txs states
circuit_states db (shielded p ∷ txs) states = circuit_states db txs states

module _ (B : BigBytes) where
  abbrev pub circuit_update : AccountId → AccountState → AccountTree × States → AccountTree × States
  circuit_update id s (tree, states) = ((insert_account B tree id s).0, insert id s states)

  -- The simulated tree and states after a transaction, in the order of the circuit.
  unfoldable pub circuit_step : TransactionType → AccountTree × States → AccountTree × States
  circuit_step (transfer t) sim =
      let amount = t.tx_data.amount in
      let sim₁ =
        circuit_update t.signer_pubkey (paid (state_or_default t.signer_pubkey sim.1) amount) sim in
      circuit_update t.tx_data.to (received (state_or_default t.tx_data.to sim₁.1) amount) sim₁
  circuit_step (withdraw w) sim =
      circuit_update w.from (paid (state_or_default w.from sim.1) w.amount) sim
  circuit_step (deposit d) sim = sim
  circuit_step (shielded p) sim = sim

  unfoldable pub circuit_all : List TransactionType → AccountTree × States → AccountTree × States
  circuit_all [] sim = sim
  circuit_all (tx ∷ txs) sim = circuit_all txs (circuit_step tx sim)

  -- The block that computes `post_state_root`.
  unfoldable pub simulated_root : TxRouter → List TransactionType → Bytes
  simulated_root router txs =
      (circuit_all txs (router.account_tree, circuit_states router.db.accounts txs [])).0.root
