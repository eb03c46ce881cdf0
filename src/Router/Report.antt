-- ===== src/Router/Report.antt =====
-- The results that a batch reports: one for each transaction, in order.
use zelana.Base.{◌≡◌, sym, ap, ◌∙◌, true, List, [], ◌∷◌, ◌++◌, map, Bytes, arith}
use mathlib.Core.List.{map-append, append_assoc, append-nil}
use zelana.Shielded.{Poseidon}
use zelana.Router.Types.{
  State, TransactionType, TxResult, TxRouter, shielded, transfer, deposit, withdraw,
}
use zelana.Router.Signature.{Crypto, Result, ok, err}
use zelana.Router.Batch.{start, after_one}
use zelana.Router.{
  execute_transfer, execute_withdraw, execute_deposit, execute_shielded, execute_single,
  execute_all, execute_batch, debit_shield, credit_unshield, put_account, push_result, result_of,
  compute_tx_hash,
}

-- A handler leaves the results alone, and a result that it returns is a success with the hash.
abbrev IsReport : Bytes → State → Result TxResult × State → Type 0
IsReport h s (ok r, s') = (s'.diff.results ≡ s.diff.results) × (r.tx_hash ≡ h) × (r.success ≡ true)
IsReport h s (err e, s') = s'.diff.results ≡ s.diff.results

abbrev pub hash_of : TxResult → Bytes
hash_of r = r.tx_hash

module _ (C : Crypto) (P : Poseidon) where
  execute_single-IsReport :
      (tx : TransactionType) (h : Bytes) (s : State) → IsReport h s (execute_single C P tx h s)
  unfolding execute_single execute_transfer execute_withdraw execute_deposit execute_shielded
      debit_shield credit_unshield put_account
  execute_single-IsReport (shielded p) h s = ground arith
  execute_single-IsReport (transfer t) h s = ground arith
  execute_single-IsReport (deposit d) h s = ground arith
  execute_single-IsReport (withdraw w) h s = ground arith

  pushed :
      (h : Bytes) (s : State) (o : Result TxResult × State)
      → IsReport h s o
      → map hash_of (push_result C P (result_of C P h o.0) o.1).diff.results
        ≡ map hash_of s.diff.results ++ h ∷ []
  pushed h s (ok r, s') (same, hash, good) = rw same (
      map-append hash_of s.diff.results (r ∷ [])
      ∙ ap (λ x. map hash_of s.diff.results ++ x ∷ []) hash)
  pushed h s (err e, s') same = rw same (map-append hash_of s.diff.results _)

  hashes-execute_all :
      (txs : List TransactionType) (s : State)
      → map hash_of (execute_all C P txs s).diff.results
        ≡ map hash_of s.diff.results ++ map (compute_tx_hash C P) txs
  unfolding execute_all
  hashes-execute_all [] s = sym (append-nil (map hash_of s.diff.results))
  hashes-execute_all (tx ∷ txs) s =
      let h = compute_tx_hash C P tx in
      hashes-execute_all txs (after_one C P tx s)
      ∙ ap (λ xs. xs ++ map (compute_tx_hash C P) txs)
          (pushed h s _ (execute_single-IsReport tx h s))
      ∙ append_assoc (map hash_of s.diff.results) (h ∷ []) (map (compute_tx_hash C P) txs)

  -- A batch reports one result for each of its transactions, in their order, under their hashes.
  pub execute_batch_results :
      (router : TxRouter) (txs : List TransactionType)
      → map hash_of (execute_batch C P router txs).1.results ≡ map (compute_tx_hash C P) txs
  unfolding execute_batch
  execute_batch_results router txs = hashes-execute_all txs (start router)
