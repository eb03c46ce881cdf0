-- ===== src/Prover.antt =====
-- core/src/sequencer/settlement/prover.rs: what the prover is given for a batch, and the account
-- tree that the circuit is expected to compute. The hash of a batch is blake3, of `Crypto`.
use zelana.Base.{
  ℕ, ◌+◌, ◌-◌, ◌%◌, Option, none, some, List, [], ◌∷◌, ◌++◌, Bytes, bytes_eq, if◌then◌else◌,
  u64_mod,
}
use zelana.Base.Dict.{Dict, lookup, insert, has_key, contains}
use zelana.Base.Text.{codes, to_le_bytes}
use zelana.Merkle.{unwrap_or}
use zelana.Account.{AccountId, AccountState, default_state}
use zelana.AccountTree.{AccountTree, AccountMerklePath, insert_account, path}
use zelana.AccountTree.Codec.{BigBytes}
use zelana.Router.Types.{
  TransactionType, SignedTransaction, WithdrawRequest, DepositEvent, shielded, transfer, deposit,
  withdraw, Store,
}
use zelana.Router.Signature.{Crypto}
use zelana.Batch.{Batch}
use zelana.Batch.Witness.{
  BatchPublicInputs, AccountStateSnapshot, TransferWitnessData, WithdrawalWitnessData, BatchWitness,
}

-- What a transaction puts into the hash of the batch.
unfoldable pub hashed_bytes : TransactionType → Bytes
hashed_bytes (shielded p) = codes "shielded" ++ (p.nullifier ++ p.commitment)
hashed_bytes (transfer t) =
    codes "transfer"
    ++ (t.signer_pubkey
        ++ (t.tx_data.to ++ (to_le_bytes 8 t.tx_data.amount ++ to_le_bytes 8 t.tx_data.nonce)))
hashed_bytes (deposit d) =
    codes "deposit" ++ (d.to ++ (to_le_bytes 8 d.amount ++ to_le_bytes 8 d.l1_seq))
hashed_bytes (withdraw w) =
    codes "withdraw" ++ (w.from ++ (w.to_l1_address ++ to_le_bytes 8 w.amount))

unfoldable pub batch_bytes : List TransactionType → Bytes
batch_bytes [] = []
batch_bytes (tx ∷ txs) = hashed_bytes tx ++ batch_bytes txs

unfoldable pub compute_batch_hash : Crypto → List TransactionType → Bytes
compute_batch_hash C txs = C.blake3 (batch_bytes txs)

-- `none` is the error of a batch that was not executed.
unfoldable pub build_public_inputs : Crypto → Batch → Bytes → Option BatchPublicInputs
build_public_inputs C b withdrawal_root = elim b.post_state_root [
  | none ↦ none
  | some post_state_root ↦ elim b.post_shielded_root [
    | none ↦ none
    | some post_shielded_root ↦ some (record {
      pre_state_root = b.pre_state_root;
      post_state_root = post_state_root;
      pre_shielded_root = b.pre_shielded_root;
      post_shielded_root = post_shielded_root;
      withdrawal_root = withdrawal_root;
      batch_hash = compute_batch_hash C b.transactions;
      batch_id = b.id;
    })
  ]
]

abbrev pub States : Type 0
States = Dict AccountId AccountState

-- `db.get_account_state(id).unwrap_or_default()`, and the same of a map.
abbrev pub state_or_default : AccountId → States → AccountState
state_or_default id states = unwrap_or (lookup id states) default_state

-- Loads an account that the map does not have yet.
unfoldable pub preload : States → AccountId → States → States
preload db id states =
    if has_key id states then states else insert id (state_or_default id db) states

-- The first loop of `build_witness_with_proofs`.
unfoldable pub preload_all : States → List TransactionType → States → States
preload_all db [] states = states
preload_all db (transfer t ∷ txs) states =
    preload_all db txs (preload db t.tx_data.to (preload db t.signer_pubkey states))
preload_all db (withdraw w ∷ txs) states = preload_all db txs (preload db w.from states)
preload_all db (deposit d ∷ txs) states = preload_all db txs (preload db d.to states)
preload_all db (shielded p ∷ txs) states = preload_all db txs states

-- A sender pays: `saturating_sub`, and the next nonce.
abbrev pub paid : AccountState → ℕ → AccountState
paid s amount = record { balance = s.balance - amount; nonce = (s.nonce + 1) % u64_mod }

abbrev pub received : AccountState → ℕ → AccountState
received s amount = record s { balance = (s.balance + amount) % u64_mod }

-- `AccountMerklePath::default()`
abbrev pub default_path : AccountMerklePath
default_path = record { siblings = []; path_indices = []; position = 0 }

-- What the loop carries: the simulated tree and states, and the witnesses so far.
pub record Simulation : Type 0 where
  pub tree : AccountTree
  pub states : States
  pub snapshots : List AccountStateSnapshot
  pub transfers : List TransferWitnessData
  pub withdrawals : List WithdrawalWitnessData
  pub seen : List AccountId

abbrev pub snapshot : AccountId → AccountState → AccountMerklePath → AccountStateSnapshot
snapshot id s p = record {
  account_id = id;
  balance = s.balance;
  nonce = s.nonce;
  merkle_proof = p.siblings;
  path_indices = p.path_indices;
  position = p.position;
}

-- `if seen_accounts.insert(id) { pre_account_states.push(..) }`
abbrev pub see : AccountId → AccountState → AccountMerklePath → Simulation → Simulation
see id s p sim =
    if contains id sim.seen
    then sim
    else record sim { seen = id ∷ sim.seen; snapshots = sim.snapshots ++ snapshot id s p ∷ [] }

module _ (B : BigBytes) where
  -- Writes an account in the simulated tree and states.
  abbrev pub simulate_update : AccountId → AccountState → Simulation → Simulation
  simulate_update id s sim = record sim {
    tree = (insert_account B sim.tree id s).0;
    states = insert id s sim.states;
  }

  -- A receiver that the tree does not have is inserted as it is first.
  unfoldable pub with_receiver : AccountId → AccountState → AccountTree → AccountTree
  with_receiver id s t = elim (path t id) [ some p ↦ t | none ↦ (insert_account B t id s).0 ]

  unfoldable pub simulate_transfer : SignedTransaction → Simulation → Simulation
  simulate_transfer t sim =
      let sender = t.signer_pubkey in
      let receiver = t.tx_data.to in
      let amount = t.tx_data.amount in
      let sender_state = state_or_default sender sim.states in
      let sender_path = unwrap_or (path sim.tree sender) default_path in
      let sim₁ = simulate_update sender (paid sender_state amount) sim in
      let receiver_state = state_or_default receiver sim₁.states in
      let sim₂ = record sim₁ { tree = with_receiver receiver receiver_state sim₁.tree } in
      let receiver_path = unwrap_or (path sim₂.tree receiver) default_path in
      let sim₃ = simulate_update receiver (received receiver_state amount) sim₂ in
      let sim₄ = record sim₃ {
        transfers =
            sim₃.transfers
            ++ record {
              sender_pubkey = sender;
              sender_balance = sender_state.balance;
              sender_nonce = sender_state.nonce;
              sender_merkle_path = sender_path.siblings;
              sender_path_indices = sender_path.path_indices;
              receiver_pubkey = receiver;
              receiver_balance = receiver_state.balance;
              receiver_nonce = receiver_state.nonce;
              receiver_merkle_path = receiver_path.siblings;
              receiver_path_indices = receiver_path.path_indices;
              amount = amount;
              signature = t.signature;
            }
              ∷ [];
      } in
      see receiver receiver_state receiver_path (see sender sender_state sender_path sim₄)

  unfoldable pub simulate_withdraw : WithdrawRequest → Simulation → Simulation
  simulate_withdraw w sim =
      let sender_state = state_or_default w.from sim.states in
      let sender_path = unwrap_or (path sim.tree w.from) default_path in
      let sim₁ = simulate_update w.from (paid sender_state w.amount) sim in
      let sim₂ = record sim₁ {
        withdrawals =
            sim₁.withdrawals
            ++ record {
              sender_pubkey = w.from;
              sender_balance = sender_state.balance;
              sender_nonce = sender_state.nonce;
              sender_merkle_path = sender_path.siblings;
              sender_path_indices = sender_path.path_indices;
              l1_recipient = w.to_l1_address;
              amount = w.amount;
              signature = w.signature;
            }
              ∷ [];
      } in
      see w.from sender_state sender_path sim₂

  -- A deposit is only seen, if the tree has its account.
  unfoldable pub simulate_deposit : DepositEvent → Simulation → Simulation
  simulate_deposit d sim = if contains d.to sim.seen then sim else elim (path sim.tree d.to) [
    | none ↦ record sim { seen = d.to ∷ sim.seen }
    | some p ↦ see d.to (state_or_default d.to sim.states) p sim
  ]

  unfoldable pub simulate : TransactionType → Simulation → Simulation
  simulate (shielded p) sim = sim
  simulate (transfer t) sim = simulate_transfer t sim
  simulate (deposit d) sim = simulate_deposit d sim
  simulate (withdraw w) sim = simulate_withdraw w sim

  unfoldable pub simulate_all : List TransactionType → Simulation → Simulation
  simulate_all [] sim = sim
  simulate_all (tx ∷ txs) sim = simulate_all txs (simulate tx sim)

  abbrev pub begin_simulation : AccountTree → States → Simulation
  begin_simulation tree states = record {
    tree = tree;
    states = states;
    snapshots = [];
    transfers = [];
    withdrawals = [];
    seen = [];
  }

  unfoldable pub build_witness_with_proofs : Batch → AccountTree → Store → BatchWitness
  build_witness_with_proofs b tree db =
      let states = preload_all db.accounts b.transactions [] in
      let sim = simulate_all b.transactions (begin_simulation tree states) in
      record {
        transactions = b.transactions;
        results = b.results;
        pre_account_states = sim.snapshots;
        transfer_witnesses = sim.transfers;
        withdrawal_witnesses = sim.withdrawals;
      }
