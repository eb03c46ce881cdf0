-- ===== src/Executor/Applied.antt =====
-- Storing what the older executor has computed.
use zelana.Base.{
  ◌≡◌, refl, ap, ◌∙◌, Bool-cases, inl, inr, Option-cases, List, [], ◌∷◌, Bytes, ◌==◌, bytes_eq,
  arith,
}
use zelana.Base.Dict.{lookup, insert, UniqueKeys, insert-UniqueKeys, lookup-put_all}
use zelana.Account.{AccountId, AccountState}
use zelana.Router.Types.{SignedTransaction, Store}
use zelana.Executor.{
  Executor, InMemoryState, Result, ok, err, check_sender, new_executor, load_account, set_account,
  moved, execute_checked, execute_signed_tx, or_default, reset, apply_state_diff,
}

-- Transactions one after the other, with their hashes; one that fails is passed by.
pub execute_all : List (SignedTransaction × Bytes) → Executor → Executor
execute_all [] e = e
execute_all ((tx, h) ∷ txs) e = execute_all txs (execute_signed_tx tx h e).1

-- Every cached account is to be stored, and is there once.
record Tracked (s : InMemoryState) : Type 0 where
  same : s.accounts ≡ s.touched
  once : UniqueKeys s.touched

set_account-Tracked :
    (id : AccountId) (a : AccountState) (s : InMemoryState)
    → Tracked s
    → Tracked (set_account id a s)
unfolding set_account
set_account-Tracked id a s t = record {
  same = ap (insert id a) t.same;
  once = insert-UniqueKeys id a s.touched t.once;
}

moved-Tracked : (tx : SignedTransaction) (e : Executor) → Tracked e.state → Tracked (moved tx e)
unfolding moved
moved-Tracked tx e t = elim (Bool-cases (tx.signer_pubkey == tx.tx_data.to)) [
  | inl own ↦ rw own (set_account-Tracked tx.signer_pubkey _ e.state t)
  | inr other ↦
      rw other
        (set_account-Tracked tx.tx_data.to _ _ (set_account-Tracked tx.signer_pubkey _ e.state t))
]

execute_checked-Tracked :
    (tx : SignedTransaction) (h : Bytes) (e : Executor) (r : Result (Unit {0}))
    → Tracked e.state
    → Tracked (execute_checked tx h e r).1.state
unfolding execute_checked
execute_checked-Tracked tx h e (err error) t = t
execute_checked-Tracked tx h e (ok done) t = moved-Tracked tx e t

execute_all-Tracked :
    (txs : List (SignedTransaction × Bytes)) (e : Executor)
    → Tracked e.state
    → Tracked (execute_all txs e).state
unfolding execute_all
execute_all-Tracked [] e t = t
execute_all-Tracked ((tx, h) ∷ txs) e t = execute_all-Tracked txs (execute_signed_tx tx h e).1 (
    unfold execute_signed_tx in
    execute_checked-Tracked tx h e
      (check_sender (load_account e.state e.db tx.signer_pubkey) tx.tx_data.amount tx.tx_data.nonce)
      t)

shown :
    (e : Executor) (id : AccountId)
    → Tracked e.state
    → let stored = reset (apply_state_diff e) in
      load_account stored.state stored.db id ≡ load_account e.state e.db id
unfolding load_account reset apply_state_diff lookup
shown e id t =
    ap or_default (lookup-put_all id e.state.touched e.db.accounts t.once)
    ∙ elim (Option-cases (lookup id e.state.touched)) [
      | inl fresh ↦ ground (arith, fresh, t.same)
      | inr (a, there) ↦ ground (arith, there, t.same)
    ]

-- After any transactions on a new executor, storing the touched accounts and clearing the cache
-- leaves every account as the executor showed it.
pub load_account-apply_state_diff :
    (db : Store) (txs : List (SignedTransaction × Bytes)) (id : AccountId)
    → let e = execute_all txs (new_executor db) in
      let stored = reset (apply_state_diff e) in
      load_account stored.state stored.db id ≡ load_account e.state e.db id
load_account-apply_state_diff db txs id =
    let e = execute_all txs (new_executor db) in
    let t : Tracked e.state =
      execute_all-Tracked txs (new_executor db) (record { same = refl; once = tt }) in
    shown e id t
