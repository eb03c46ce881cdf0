-- ===== src/Executor/Agreement.antt =====
-- The older executor and the router on the same transfer.
use zelana.Base.{◌≡◌, Option, none, some, Bytes, bytes_eq, arith}
use zelana.Router.Types.{SignedTransaction, State, Error}
use zelana.Router.Signature.{Crypto, verify_transfer_signature}
use zelana.Router.Signature as Signature
use zelana.Router.{account_of, put_account, execute_transfer}
use zelana.Executor.{Executor, ExecutionError, Result, ok, err, load_account, execute_signed_tx}

-- They have the same cache and the same accounts in their databases.
pub record SameAccounts (e : Executor) (s : State) : Type 0 where
  pub cache : e.state.accounts ≡ s.router.account_cache
  pub stored : e.db.accounts ≡ s.router.db.accounts

abbrev pub error_of : ExecutionError → Option Error
error_of ExecutionError.insufficient_balance = some Error.insufficient_balance
error_of ExecutionError.invalid_nonce = some Error.invalid_nonce
error_of ExecutionError.account_not_found = none
error_of ExecutionError.invalid_transaction = none

-- The outcomes agree: both a success, or the same error.
abbrev pub Agree : {A B : Type 0} → Result A → Signature.Result B → Type 0
Agree (ok a) (Signature.ok b) = Unit
Agree (ok a) (Signature.err error) = ⊥
Agree (err error) (Signature.ok b) = ⊥
Agree (err error) (Signature.err error') = error_of error ≡ some error'

load_account-account_of :
    (e : Executor) (s : State) (id : Bytes)
    → SameAccounts e s
    → load_account e.state e.db id ≡ account_of s id
unfolding load_account account_of
load_account-account_of e s id same = rw (same.cache, same.stored) (ground arith)

module _ (C : Crypto) where
  -- On a transfer with a valid signature the older executor and the router have the same outcome,
  -- and where they had the same accounts they have the same accounts afterwards.
  pub execute_signed_tx-execute_transfer :
      (tx : SignedTransaction) (h : Bytes) (e : Executor) (s : State)
      → verify_transfer_signature C tx ≡ Signature.ok tt
      → SameAccounts e s
      → let (r, e') = execute_signed_tx tx h e in
        let (r', s') = execute_transfer C tx h s in Agree r r' × SameAccounts e' s'
  unfolding execute_signed_tx execute_transfer put_account
  execute_signed_tx-execute_transfer tx h e s signed same = ground (
    arith,
    signed,
    same.cache,
    same.stored,
    load_account-account_of e s tx.signer_pubkey same,
    load_account-account_of e s tx.tx_data.to same,
  )
