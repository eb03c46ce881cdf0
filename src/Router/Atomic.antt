-- ===== src/Router/Atomic.antt =====
-- A transaction that fails changes neither the router nor the diff.
use zelana.Base.{◌≡◌, Bytes, bytes_eq, arith}
use zelana.Shielded.{Poseidon, nullifier_exists, spend_nullifier, insert_commitment}
use zelana.Router.Types.{
  State, Error, SignedTransaction, DepositEvent, WithdrawRequest, PrivateTransaction,
  TransactionType, shielded, transfer, deposit, withdraw,
}
use zelana.Router.Signature.{Crypto, Result, ok, err}
use zelana.Router.{
  execute_transfer, execute_withdraw, execute_deposit, execute_shielded, execute_single,
  debit_shield, credit_unshield, put_account,
}

-- What a step from `s` has done: an error leaves `s`.
abbrev pub IsAtomic : {A : Type 0} → State → Result A × State → Type 0
IsAtomic s (ok a, s') = Unit
IsAtomic s (err e, s') = s' ≡ s

module _ (C : Crypto) (P : Poseidon) where
  execute_transfer-IsAtomic :
      (tx : SignedTransaction) (h : Bytes) (s : State) → IsAtomic s (execute_transfer C tx h s)
  unfolding execute_transfer
  execute_transfer-IsAtomic tx h s = ground arith

  execute_withdraw-IsAtomic :
      (w : WithdrawRequest) (h : Bytes) (s : State) → IsAtomic s (execute_withdraw C w h s)
  unfolding execute_withdraw
  execute_withdraw-IsAtomic w h s = ground arith

  execute_deposit-IsAtomic :
      (d : DepositEvent) (h : Bytes) (s : State) → IsAtomic s (execute_deposit d h s)
  unfolding execute_deposit
  execute_deposit-IsAtomic d h s = tt

  execute_shielded-IsAtomic :
      (tx : PrivateTransaction) (h : Bytes) (s : State) → IsAtomic s (execute_shielded P tx h s)
  unfolding execute_shielded debit_shield credit_unshield nullifier_exists spend_nullifier
      insert_commitment put_account
  execute_shielded-IsAtomic tx h s = ground arith

  execute_single-IsAtomic :
      (tx : TransactionType) (h : Bytes) (s : State) → IsAtomic s (execute_single C P tx h s)
  unfolding execute_single
  execute_single-IsAtomic (shielded p) h s = execute_shielded-IsAtomic p h s
  execute_single-IsAtomic (transfer t) h s = execute_transfer-IsAtomic t h s
  execute_single-IsAtomic (deposit d) h s = execute_deposit-IsAtomic d h s
  execute_single-IsAtomic (withdraw w) h s = execute_withdraw-IsAtomic w h s

  unchanged_of :
      {A : Type 0} (s : State) (o : Result A × State) {e : Error}
      → IsAtomic s o
      → o.0 ≡ err e
      → o.1 ≡ s
  unchanged_of s (ok a, s') h f = cc
  unchanged_of s (err e, s') h f = h

  -- A transaction of any kind that ends in an error leaves the state as it was: balances, nonces,
  -- nullifiers, commitments and the diff.
  pub execute_single_atomic :
      (tx : TransactionType) (h : Bytes) (s : State) (e : Error)
      → (execute_single C P tx h s).0 ≡ err e
      → (execute_single C P tx h s).1 ≡ s
  execute_single_atomic tx h s e f = unchanged_of s _ (execute_single-IsAtomic tx h s) f
