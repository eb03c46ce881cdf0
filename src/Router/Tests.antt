-- ===== src/Router/Tests.antt =====
-- The theorems on the router at concrete inputs.
use zelana.Base.{
  ◌+◌, ◌≤◌, ◌≡◌, ◌≢◌, ◌↔◌, inl, refl, true, none, List, [], ◌∷◌, ◌++◌, bytes_eq, bytes_beq,
  replicate, ◌==◌, if◌then◌else◌, arith,
}
use zelana.Base.Dict.{lookup, contains}
use mathlib.Core.List.{reverse}
use zelana.Account.{AccountId}
use zelana.AccountTree as Tree
use zelana.Shielded.{new_state}
use zelana.Samples.{big_bytes, poseidon, crypto, alice, bob, rich}
use zelana.Router.Types.{
  State, TxRouter, SignedTransaction, WithdrawRequest, TransactionType, TxResult, transfer, deposit,
  withdraw, PrivateTransaction, shielded, invalid_nonce,
}
use zelana.Router.Signature.{ok, err, verify_transfer_signature, SignedTransfer, SignedWithdraw}
use zelana.Router.Transfer.{
  execute_transfer_iff, execute_transfer_effect, execute_transfer_replay, execute_withdraw_iff,
  debited, credited,
}
use zelana.Router.Atomic.{execute_single_atomic}
use zelana.Router.Sums.{Distinct, sum_of}
use zelana.Router.Funds.{funds}
use zelana.Router.Batch.{start, moved_in, moved_out, execute_batch_conserves}
use zelana.Router.Nullifiers.{execute_batch_nullifiers}
use zelana.Router.{account_of, execute_transfer, execute_withdraw, execute_single, execute_batch}

abbrev pub router : TxRouter
router = record {
  db = record {
    accounts = (alice, rich) ∷ [];
    nullifiers = [];
    commitments = [];
    encrypted_notes = [];
    withdrawals = [];
    withdrawals_total = 0;
  };
  account_cache = [];
  shielded_state = new_state poseidon;
  account_tree = Tree.new big_bytes;
}

abbrev pub begin : State
begin = start router

abbrev pub payment : SignedTransaction
payment = record {
  tx_data = record { from = alice; to = bob; amount = 30; nonce = 0; chain_id = 1 };
  signature = replicate 64 0;
  signer_pubkey = alice;
}

abbrev request : WithdrawRequest
request = record {
  from = alice;
  to_l1_address = bob;
  amount = 40;
  nonce = 0;
  signature = replicate 64 0;
  signer_pubkey = alice;
}

abbrev pub note : PrivateTransaction
note = record {
  proof = 1 ∷ [];
  nullifier = alice;
  commitment = bob;
  ciphertext = [];
  ephemeral_key = [];
  nonce = none;
  shield_from = none;
  shield_amount = none;
  unshield_to = none;
  unshield_amount = none;
}

abbrev txs : List TransactionType
txs =
    transfer payment ∷ withdraw request ∷ deposit (record { to = bob; amount = 5; l1_seq = 0 }) ∷ []

alice_is_rich : account_of begin alice ≡ rich
unfolding account_of lookup bytes_beq
alice_is_rich = refl

pub signed : SignedTransfer crypto payment
signed = (refl, refl, refl, inl refl)

signed_request : SignedWithdraw crypto request
signed_request = (refl, refl, refl, inl refl)

execute_transfer_iff_example :
    let sender = account_of begin alice in
    ((r : TxResult) × ((execute_transfer crypto payment [] begin).0 ≡ ok r))
    ↔ (SignedTransfer crypto payment × (30 ≤ sender.balance) × (sender.nonce ≡ 0))
execute_transfer_iff_example = execute_transfer_iff crypto payment [] begin

paid : (r : TxResult) × ((execute_transfer crypto payment [] begin).0 ≡ ok r)
paid =
    (execute_transfer_iff crypto payment [] begin).1
      (signed, rw alice_is_rich (omega arith), rw alice_is_rich refl)

execute_transfer_effect_example : account_of (execute_transfer crypto payment [] begin).1 bob ≡ (
    if alice == bob
    then (if alice == bob then debited (account_of begin alice) 0 else account_of begin bob)
    else if bob == bob
    then credited (account_of begin bob) 30
    else if alice == bob
    then debited (account_of begin alice) 30
    else account_of begin bob)
execute_transfer_effect_example = execute_transfer_effect crypto payment [] begin paid.0 bob paid.1

execute_transfer_replay_example :
    (execute_transfer crypto payment [] (execute_transfer crypto payment [] begin).1).0 ≢ ok paid.0
execute_transfer_replay_example =
    execute_transfer_replay crypto payment [] [] begin paid.0 paid.0 paid.1

withdrawn : (r : TxResult) × ((execute_withdraw crypto request [] begin).0 ≡ ok r)
withdrawn =
    (execute_withdraw_iff crypto request [] begin).1
      (signed_request, rw alice_is_rich (omega arith), rw alice_is_rich refl)

-- The transaction that asks for the wrong nonce.
abbrev early : SignedTransaction
early = record payment {
  tx_data = record { from = alice; to = bob; amount = 30; nonce = 7; chain_id = 1 };
}

refused : (execute_single crypto poseidon (transfer early) [] begin).0 ≡ err invalid_nonce
unfolding execute_single execute_transfer verify_transfer_signature account_of lookup bytes_beq
refused = refl

execute_single_atomic_example : (execute_single crypto poseidon (transfer early) [] begin).1 ≡ begin
execute_single_atomic_example =
    execute_single_atomic crypto poseidon (transfer early) [] begin invalid_nonce refused

abbrev both : List AccountId
both = alice ∷ bob ∷ []

both-Distinct : Distinct both
unfolding contains bytes_beq
both-Distinct = (refl, (refl, tt))

in_both : (contains alice both ≡ true) × (contains bob both ≡ true)
unfolding contains bytes_beq
in_both = (refl, refl)

paid_single : (execute_single crypto poseidon (transfer payment) [] begin).0 ≡ ok paid.0
unfolding execute_single
paid_single = paid.1

funds_at_first : funds both begin ≡ 100
unfolding sum_of account_of lookup bytes_beq
funds_at_first = refl

execute_batch_conserves_example :
    let (router', diff) = execute_batch crypto poseidon router txs in
    funds both (start router') + moved_out crypto poseidon txs begin
    ≡ funds both begin + moved_in crypto poseidon txs begin
execute_batch_conserves_example =
    execute_batch_conserves crypto poseidon both both-Distinct txs router
      (in_both, (in_both.0, (in_both.1, tt))) (rw funds_at_first (omega arith))

execute_batch_nullifiers_example :
    let (router', diff) =
      execute_batch crypto poseidon router (shielded note ∷ shielded note ∷ []) in
    Distinct router'.shielded_state.nullifiers
    × (router'.shielded_state.nullifiers
        ≡ reverse diff.shielded_diff.spent_nullifiers ++ router.shielded_state.nullifiers)
execute_batch_nullifiers_example =
    execute_batch_nullifiers crypto poseidon router (shielded note ∷ shielded note ∷ [])
      (unfold new_state in tt)
