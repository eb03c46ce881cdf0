-- ===== src/Router.antt =====
-- core/src/sequencer/execution/tx_router.rs: the execution of transactions. A handler is a
-- computation with state and errors, and what it wrote before an error stays written.
-- Balances and nonces wrap around at 2^64, as a release build does.
pub mod Types
pub mod Signature
pub mod Accounts
pub mod Atomic
pub mod Transfer
pub mod Sums
pub mod Shield
pub mod Funds
pub mod Batch
pub mod Report
pub mod Nullifiers
pub mod Commit
pub mod Load
pub mod Tests
pub mod CommitTests
use zelana.Base.{
  ℕ, ◌+◌, ◌-◌, ◌%◌, ◌<◌, Bool, true, false, not, Option, none, some, List, [], ◌∷◌, ◌++◌, Bytes,
  length, replicate, ◌==◌, nat_beq, ltb, bytes_eq, nat_eq, if◌then◌else◌, u64_mod,
}
use zelana.Base.Dict.{Dict, lookup, insert, contains}
use zelana.Merkle.{unwrap_or}
use zelana.Base.Text.{to_le_bytes}
use zelana.Account.{AccountId, AccountState, default_state}
use zelana.Shielded.{
  Poseidon, ShieldedState, Nullifier, Commitment, nullifier_exists, spend_nullifier,
  insert_commitment,
}
use Types.{
  TransactionData, SignedTransaction, DepositEvent, WithdrawRequest, PrivateTransaction,
  TransactionType, shielded, transfer, deposit, withdraw, EncryptedNote, Error,
  insufficient_balance, invalid_nonce, nullifier_spent, nullifier_double_spent, missing_proof,
  shield_insufficient, nullifier_not_marked, TxResultType, TxResult, PendingWithdrawal, BatchDiff,
  default_diff, TxRouter, State,
}
use Signature.{Crypto, Result, ok, err, verify_transfer_signature, verify_withdraw_signature}

abbrev pub Action : Type 0 → Type 0
Action A = State → Result A × State

infixl 5 ◌>>=◌ ◌>>◌
abbrev pub ◌>>=◌ : {A B : Type 0} → Action A → (A → Action B) → Action B
◌>>=◌ m f s = let (r, s') = m s in elim r [ ok a ↦ f a s' | err e ↦ (err e, s') ]

abbrev pub ◌>>◌ : {A B : Type 0} → Action A → Action B → Action B
m >> k = m >>= λ _. k

abbrev pub pure : {A : Type 0} → A → Action A
pure a s = (ok a, s)

abbrev pub raise_if : Bool → Error → Action (Unit {0})
raise_if c e s = (if c then err e else ok tt, s)

abbrev pub lift_result : {A : Type 0} → Result A → Action A
lift_result r s = (r, s)

-- `account_cache`, else the database, which has a default for an account that it does not hold.
unfoldable pub account_of : State → AccountId → AccountState
account_of s id = elim (lookup id s.router.account_cache) [
  | some state ↦ state
  | none ↦ elim (lookup id s.router.db.accounts) [ some state ↦ state | none ↦ default_state ]
]

abbrev pub load_account : AccountId → Action AccountState
load_account id s = (ok (account_of s id), s)

-- `self.account_cache.insert`
unfoldable pub put_account : State → AccountId → AccountState → State
put_account s id state = record s {
  router = record (s.router) { account_cache = insert id state s.router.account_cache };
}

abbrev pub cache_account : AccountId → AccountState → Action (Unit {0})
cache_account id state s = (ok tt, put_account s id state)

abbrev pub put_shielded : State → ShieldedState → State
put_shielded s shielded_state = record s {
  router = record (s.router) { shielded_state = shielded_state };
}

abbrev pub success_result : Bytes → TxResultType → TxResult
success_result tx_hash tx_type = record {
  tx_hash = tx_hash;
  tx_type = tx_type;
  success = true;
  error = none;
}

module _ (C : Crypto) where
  unfoldable pub execute_transfer : SignedTransaction → Bytes → Action TxResult
  execute_transfer tx tx_hash = do
    lift_result (verify_transfer_signature C tx)
    from_state ← load_account from
    raise_if (ltb from_state.balance amount) insufficient_balance
    raise_if (not (nat_beq from_state.nonce tx.tx_data.nonce)) invalid_nonce
    if from == to
        then cache_account from (record from_state { nonce = (from_state.nonce + 1) % u64_mod })
        else do
          to_state ← load_account to
          cache_account from (record {
            balance = from_state.balance - amount;
            nonce = (from_state.nonce + 1) % u64_mod;
          })
          cache_account to (record to_state { balance = (to_state.balance + amount) % u64_mod })
    pure (success_result tx_hash (TxResultType.transfer_result from to amount))
    where
      from : AccountId
      from = tx.signer_pubkey

      to : AccountId
      to = tx.tx_data.to

      amount : ℕ
      amount = tx.tx_data.amount

  pub execute_withdraw : WithdrawRequest → Bytes → Action TxResult
  execute_withdraw w tx_hash = do
    lift_result (verify_withdraw_signature C w)
    from_state ← load_account w.from
    raise_if (ltb from_state.balance w.amount) insufficient_balance
    raise_if (not (nat_beq from_state.nonce w.nonce)) invalid_nonce
    cache_account w.from (record {
      balance = from_state.balance - w.amount;
      nonce = (from_state.nonce + 1) % u64_mod;
    })
    queue_withdrawal (record {
      tx_hash = tx_hash;
      from = w.from;
      to_l1_address = w.to_l1_address;
      amount = w.amount;
      l2_nonce = w.nonce;
    })
    pure (success_result tx_hash (TxResultType.withdrawal_result w.from w.to_l1_address w.amount))
    where
      queue_withdrawal : PendingWithdrawal → Action (Unit {0})
      queue_withdrawal p s = (
        ok tt,
        record s { diff = record (s.diff) { withdrawals = s.diff.withdrawals ++ p ∷ [] } },
      )

pub execute_deposit : DepositEvent → Bytes → Action TxResult
execute_deposit d tx_hash = do
  to_state ← load_account d.to
  cache_account d.to (record to_state { balance = (to_state.balance + d.amount) % u64_mod })
  pure (success_result tx_hash (TxResultType.deposit_result d.to d.amount))

-- `self.shielded_state.spend_nullifier(..).context(..)?`
abbrev pub mark_nullifier : Nullifier → Action (Unit {0})
mark_nullifier nullifier s = elim (spend_nullifier s.router.shielded_state nullifier) [
  | none ↦ (err nullifier_not_marked, s)
  | some shielded_state ↦ (ok tt, put_shielded s shielded_state)
]

-- SHIELD: debits the transparent account, where both fields are given.
unfoldable pub debit_shield : Option AccountId → Option ℕ → Action (Unit {0})
debit_shield (some from) (some amount) = do
  state ← load_account from
  raise_if (ltb state.balance amount) shield_insufficient
  cache_account from
      (record { balance = state.balance - amount; nonce = (state.nonce + 1) % u64_mod })
debit_shield (some from) none = pure tt
debit_shield none amount = pure tt

-- UNSHIELD: credits the transparent account, where both fields are given.
unfoldable pub credit_unshield : Option AccountId → Option ℕ → Action (Unit {0})
credit_unshield (some to) (some amount) = do
  state ← load_account to
  cache_account to (record state { balance = (state.balance + amount) % u64_mod })
credit_unshield (some to) none = pure tt
credit_unshield none amount = pure tt

abbrev pub record_shielded : ℕ → PrivateTransaction → Action (Unit {0})
record_shielded position tx s =
    let note : EncryptedNote = record {
      ephemeral_pk = tx.ephemeral_key;
      nonce = unwrap_or tx.nonce (replicate 12 0);
      ciphertext = tx.ciphertext;
    } in
    (
      ok tt,
      record s {
        diff = record (s.diff) {
          shielded_diff = record {
            new_commitments =
                s.diff.shielded_diff.new_commitments ++ (position, tx.commitment, note) ∷ [];
            spent_nullifiers = s.diff.shielded_diff.spent_nullifiers ++ tx.nullifier ∷ [];
          };
        };
      },
    )

module _ (P : Poseidon) where
  abbrev pub add_commitment : Commitment → Action ℕ
  add_commitment commitment s =
      let (shielded_state, position) = insert_commitment P s.router.shielded_state commitment in
      (ok position, put_shielded s shielded_state)

  pub execute_shielded : PrivateTransaction → Bytes → Action TxResult
  execute_shielded tx tx_hash = do
    (λ s. raise_if (nullifier_exists s.router.shielded_state tx.nullifier) nullifier_spent s)
    (λ s.
        raise_if (contains tx.nullifier s.diff.shielded_diff.spent_nullifiers)
          nullifier_double_spent s)
    raise_if (nat_beq (length tx.proof) 0) missing_proof
    debit_shield tx.shield_from tx.shield_amount
    position ← add_commitment tx.commitment
    mark_nullifier tx.nullifier
    credit_unshield tx.unshield_to tx.unshield_amount
    record_shielded position tx
    pure (success_result tx_hash (TxResultType.shielded_result tx.nullifier tx.commitment position))

module _ (C : Crypto) (P : Poseidon) where
  pub compute_tx_hash : TransactionType → Bytes
  compute_tx_hash (shielded p) = C.blake3 (p.nullifier ++ p.commitment)
  compute_tx_hash (transfer t) = C.blake3 (t.signer_pubkey ++ to_le_bytes 8 t.tx_data.nonce)
  compute_tx_hash (deposit d) = C.blake3 (d.to ++ to_le_bytes 8 d.l1_seq)
  compute_tx_hash (withdraw w) = C.blake3 (w.from ++ to_le_bytes 8 w.nonce)

  pub execute_single : TransactionType → Bytes → Action TxResult
  execute_single (shielded p) tx_hash = execute_shielded P p tx_hash
  execute_single (transfer t) tx_hash = execute_transfer C t tx_hash
  execute_single (deposit d) tx_hash = execute_deposit d tx_hash
  execute_single (withdraw w) tx_hash = execute_withdraw C w tx_hash

  -- The result that a failed transaction leaves.
  abbrev pub result_of : Bytes → Result TxResult → TxResult
  result_of tx_hash (ok r) = r
  result_of tx_hash (err e) = record {
    tx_hash = tx_hash;
    tx_type = TxResultType.transfer_result (replicate 32 0) (replicate 32 0) 0;
    success = false;
    error = some e;
  }

  abbrev pub push_result : TxResult → State → State
  push_result r s = record s { diff = record (s.diff) { results = s.diff.results ++ r ∷ [] } }

  -- The loop of `execute_batch`.
  pub execute_all : List TransactionType → State → State
  execute_all [] s = s
  execute_all (tx ∷ txs) s =
      let tx_hash = compute_tx_hash tx in
      let (r, s') = execute_single tx tx_hash s in
      execute_all txs (push_result (result_of tx_hash r) s')

  pub execute_batch : TxRouter → List TransactionType → TxRouter × BatchDiff
  execute_batch router txs =
      let s = execute_all txs (record { router = router; diff = default_diff }) in
      (s.router, record (s.diff) { account_updates = s.router.account_cache })
