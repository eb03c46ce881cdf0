-- ===== src/Router/Batch.antt =====
-- Whole batches: the funds after a batch, and the results it reports.
use zelana.Base.{ℕ, ◌+◌, ◌≤◌, ◌<◌, ◌≡◌, refl, List, [], ◌∷◌, Bytes, arith, u64_mod}
use zelana.Account.{AccountId}
use zelana.Shielded.{Poseidon}
use zelana.Router.Types.{State, TransactionType, TxResult, TxRouter, default_diff}
use zelana.Router.Signature.{Crypto, Result, ok, err}
use zelana.Router.Atomic.{execute_single_atomic}
use zelana.Router.Sums.{Distinct}
use zelana.Router.Funds.{funds, funds-diff, inflow, outflow, Touches, execute_single_conserves}
use zelana.Router.{
  execute_single, execute_all, execute_batch, push_result, result_of, compute_tx_hash,
}

abbrev pub AllTouch : List AccountId → List TransactionType → Type 0
AllTouch ids [] = Unit
AllTouch ids (tx ∷ txs) = Touches ids tx × AllTouch ids txs

abbrev pub total_inflow : List TransactionType → ℕ
total_inflow [] = 0
total_inflow (tx ∷ txs) = inflow tx + total_inflow txs

-- The state in which a batch begins.
abbrev pub start : TxRouter → State
start router = record { router = router; diff = default_diff }

module _ (C : Crypto) (P : Poseidon) where
  -- The state after one transaction of the loop.
  abbrev pub after_one : TransactionType → State → State
  after_one tx s =
      let h = compute_tx_hash C P tx in
      let (r, s') = execute_single C P tx h s in push_result C P (result_of C P h r) s'

  abbrev pub counted : Result TxResult → ℕ → ℕ
  counted (ok r) n = n
  counted (err e) n = 0

  -- The inflows and the outflows of the transactions that succeed in a run of the loop.
  pub moved_in : List TransactionType → State → ℕ
  moved_in [] s = 0
  moved_in (tx ∷ txs) s =
      counted (execute_single C P tx (compute_tx_hash C P tx) s).0 (inflow tx)
      + moved_in txs (after_one tx s)

  pub moved_out : List TransactionType → State → ℕ
  moved_out [] s = 0
  moved_out (tx ∷ txs) s =
      counted (execute_single C P tx (compute_tx_hash C P tx) s).0 (outflow tx)
      + moved_out txs (after_one tx s)

  module _ (ids : List AccountId) (distinct : Distinct ids) where
    step_funds :
        (tx : TransactionType) (s : State)
        → Touches ids tx
        → funds ids s + inflow tx < u64_mod
        → let r = (execute_single C P tx (compute_tx_hash C P tx) s).0 in
          funds ids (after_one tx s) + counted r (outflow tx) ≡ funds ids s + counted r (inflow tx)
    step_funds tx s touch small =
        rw (funds-diff ids distinct (execute_single C P tx h s).1 _) (by_result _ refl)
      where
        h : Bytes
        h = compute_tx_hash C P tx

        by_result :
            (r : Result TxResult)
            → (execute_single C P tx h s).0 ≡ r
            → funds ids (execute_single C P tx h s).1 + counted r (outflow tx)
              ≡ funds ids s + counted r (inflow tx)
        by_result (ok r) e = execute_single_conserves ids distinct C P tx h s r touch small e
        by_result (err x) e = rw (execute_single_atomic C P tx h s x e)

    counted-le : (r : Result TxResult) (n : ℕ) → counted r n ≤ n
    counted-le (ok r) n = omega arith
    counted-le (err e) n = omega arith

    execute_all_conserves :
        (txs : List TransactionType) (s : State)
        → AllTouch ids txs
        → funds ids s + total_inflow txs < u64_mod
        → funds ids (execute_all C P txs s) + moved_out txs s ≡ funds ids s + moved_in txs s
    unfolding execute_all moved_in moved_out
    execute_all_conserves [] s touch small = refl
    execute_all_conserves (tx ∷ txs) s touch small =
        let r = (execute_single C P tx (compute_tx_hash C P tx) s).0 in
        let one = step_funds tx s touch.0 (omega arith) in
        let rest =
          execute_all_conserves txs (after_one tx s) touch.1
            (omega (arith, one, counted-le r (inflow tx))) in
        omega (arith, one, rest)

    -- Over a whole batch the funds of the accounts grow by what its successful deposits and
    -- unshields bring in and shrink by what its successful withdrawals and shields take out, when
    -- the list counts every account that the batch names, each once, and the funds with all the
    -- inflow fit 64 bits.
    pub execute_batch_conserves :
        (txs : List TransactionType) (router : TxRouter)
        → AllTouch ids txs
        → funds ids (start router) + total_inflow txs < u64_mod
        → let (router', diff) = execute_batch C P router txs in
          funds ids (start router') + moved_out txs (start router)
          ≡ funds ids (start router) + moved_in txs (start router)
    unfolding execute_batch
    execute_batch_conserves txs router touch small =
        rw (funds-diff ids distinct (execute_all C P txs (start router)) default_diff)
          (execute_all_conserves txs (start router) touch small)
