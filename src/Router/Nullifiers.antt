-- ===== src/Router/Nullifiers.antt =====
-- No nullifier is spent twice, in a batch or against the state before it.
use zelana.Base.{
  ◌≡◌, refl, ap, false, List, [], ◌∷◌, ◌++◌, Bytes, bytes_eq, arith, ◌⊎◌, inl, inr, ◌≢◌,
}
use mathlib.Core.List.{reverse, reverse-append}
use zelana.Router.Atomic.{execute_single_atomic}
use zelana.Base.Dict.{contains}
use zelana.Shielded.{Poseidon, Nullifier, nullifier_exists, spend_nullifier, insert_commitment}
use zelana.Router.Types.{
  State, TransactionType, TxResult, TxRouter, PrivateTransaction, shielded, transfer, deposit,
  withdraw,
}
use zelana.Router.Signature.{Crypto, Result, ok, err}
use zelana.Router.Sums.{Distinct}
use zelana.Router.Batch.{start, after_one}
use zelana.Router.{
  execute_transfer, execute_withdraw, execute_deposit, execute_shielded, execute_single,
  execute_all, execute_batch, debit_shield, credit_unshield, put_account, compute_tx_hash,
}

abbrev pub spent : State → List Nullifier
spent s = s.router.shielded_state.nullifiers

abbrev pub listed : State → List Nullifier
listed s = s.diff.shielded_diff.spent_nullifiers

-- What a step does to the nullifiers: nothing, or it spends and lists one that was not spent.
abbrev Spends : State → State → Type 0
Spends s s' =
    ((spent s' ≡ spent s) × (listed s' ≡ listed s))
    ⊎ ((n : Nullifier) × (contains n (spent s) ≡ false)
        × (spent s' ≡ n ∷ spent s)
        × (listed s' ≡ listed s ++ n ∷ []))

abbrev Unspent : State → State → Type 0
Unspent s s' = (spent s' ≡ spent s) × (listed s' ≡ listed s)

module _ (C : Crypto) (P : Poseidon) where
  -- A shielded transaction succeeds only with a nullifier that neither the state nor the batch has
  -- seen, and afterwards both have it.
  pub execute_shielded_spends :
      (tx : PrivateTransaction) (h : Bytes) (s : State) (r : TxResult)
      → (execute_shielded P tx h s).0 ≡ ok r
      → let s' = (execute_shielded P tx h s).1 in
        (contains tx.nullifier (spent s) ≡ false)
        × (contains tx.nullifier (listed s) ≡ false)
        × (spent s' ≡ tx.nullifier ∷ spent s)
        × (listed s' ≡ listed s ++ tx.nullifier ∷ [])
  unfolding execute_shielded debit_shield credit_unshield put_account nullifier_exists
      spend_nullifier insert_commitment
  execute_shielded_spends tx h s r e = ground arith

  others-Unspent :
      (tx : TransactionType) (h : Bytes) (s : State)
      → ((p : PrivateTransaction) → tx ≢ shielded p)
      → Unspent s (execute_single C P tx h s).1
  unfolding execute_single execute_transfer execute_withdraw execute_deposit put_account
  others-Unspent (shielded p) h s n = absurd (n p refl)
  others-Unspent (transfer t) h s n = ground arith
  others-Unspent (deposit d) h s n = ground arith
  others-Unspent (withdraw w) h s n = ground arith

  shielded-Spends :
      (p : PrivateTransaction) (h : Bytes) (s : State) (r : Result TxResult)
      → (execute_single C P (shielded p) h s).0 ≡ r
      → Spends s (execute_single C P (shielded p) h s).1
  unfolding execute_single
  shielded-Spends p h s (ok r) e =
      let new = execute_shielded_spends p h s r e in inr (p.nullifier, new.0, new.2, new.3)
  shielded-Spends p h s (err x) e =
      let same = execute_single_atomic C P (shielded p) h s x e in inl (rw same refl, rw same refl)

  after_one-Spends : (tx : TransactionType) (s : State) → Spends s (after_one C P tx s)
  after_one-Spends (shielded p) s = shielded-Spends p (compute_tx_hash C P (shielded p)) s _ refl
  after_one-Spends (transfer t) s = inl (others-Unspent (transfer t) _ s (λ p e. cc))
  after_one-Spends (deposit d) s = inl (others-Unspent (deposit d) _ s (λ p e. cc))
  after_one-Spends (withdraw w) s = inl (others-Unspent (withdraw w) _ s (λ p e. cc))

  -- The nullifiers are those before the batch and those that it lists, each once.
  abbrev Accounts : List Nullifier → State → Type 0
  Accounts before s = Distinct (spent s) × (spent s ≡ reverse (listed s) ++ before)

  step-Accounts :
      (before : List Nullifier) (s s' : State)
      → Spends s s'
      → Accounts before s
      → Accounts before s'
  step-Accounts before s s' (inl (same, list)) a = rw (same, list) a
  step-Accounts before s s' (inr (n, new, grown, list)) (distinct, eq) =
      rw (grown, list) ((new, distinct), rw (reverse-append (listed s) (n ∷ [])) (ap (◌∷◌ n) eq))

  execute_all-Accounts :
      (before : List Nullifier) (txs : List TransactionType) (s : State)
      → Accounts before s
      → Accounts before (execute_all C P txs s)
  unfolding execute_all
  execute_all-Accounts before [] s a = a
  execute_all-Accounts before (tx ∷ txs) s a =
      execute_all-Accounts before txs (after_one C P tx s)
        (step-Accounts before s (after_one C P tx s) (after_one-Spends tx s) a)

  -- From nullifiers that are all different a batch ends with nullifiers that are all different:
  -- those before it, and those that its diff lists to be stored, the last one first.
  pub execute_batch_nullifiers :
      (router : TxRouter) (txs : List TransactionType)
      → Distinct router.shielded_state.nullifiers
      → let (router', diff) = execute_batch C P router txs in
        Distinct router'.shielded_state.nullifiers
        × (router'.shielded_state.nullifiers
            ≡ reverse diff.shielded_diff.spent_nullifiers ++ router.shielded_state.nullifiers)
  unfolding execute_batch
  execute_batch_nullifiers router txs d =
      execute_all-Accounts router.shielded_state.nullifiers txs (start router) (d, refl)
