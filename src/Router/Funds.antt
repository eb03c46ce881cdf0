-- ===== src/Router/Funds.antt =====
-- Conservation: a transaction moves funds between accounts, and brings in or takes out just what
-- it says.
use zelana.Base.{
  ℕ, ◌+◌, ◌-◌, ◌≤◌, ◌<◌, ◌≡◌, true, Option, none, some, List, [], Bytes, ◌==◌, bytes_eq, arith,
  u64_mod, Bool-cases, inl, inr, ap,
}
use zelana.Base.Dict.{contains}
use zelana.Account.{AccountId, AccountState}
use zelana.Shielded.{Poseidon}
use zelana.Router.Types.{
  State, SignedTransaction, WithdrawRequest, TransactionType, TxResult, BatchDiff, shielded,
  transfer, deposit, withdraw,
}
use zelana.Router.Signature.{Crypto, ok}
use zelana.Router.Accounts.{account_of-put_account, account_of-diff}
use zelana.Router.Transfer.{
  debited, credited, after_transfer, after_withdraw, execute_transfer_state, execute_transfer_iff,
  execute_withdraw_state, execute_withdraw_iff,
}
use zelana.Router.Sums.{Distinct, sum_of, sum_of-congr, sum_of-update, le-sum_of, add-le-sum_of}
use zelana.Router.Shield.{after_shield, after_unshield, Covers, execute_shielded_accounts}
use zelana.Router.{account_of, put_account, execute_deposit, execute_shielded, execute_single}

abbrev pub balance : State → AccountId → ℕ
balance s id = (account_of s id).balance

-- The funds that the accounts of a list hold together.
abbrev pub funds : List AccountId → State → ℕ
funds ids s = sum_of (balance s) ids

-- The amount that moves if both the account and the amount are given.
abbrev pub flow : Option AccountId → Option ℕ → ℕ
flow (some id) (some amount) = amount
flow (some id) none = 0
flow none amount = 0

-- What a transaction brings into the accounts, and what it takes out.
abbrev pub inflow : TransactionType → ℕ
inflow (shielded p) = flow p.unshield_to p.unshield_amount
inflow (transfer t) = 0
inflow (deposit d) = d.amount
inflow (withdraw w) = 0

abbrev pub outflow : TransactionType → ℕ
outflow (shielded p) = flow p.shield_from p.shield_amount
outflow (transfer t) = 0
outflow (deposit d) = 0
outflow (withdraw w) = w.amount

abbrev pub Holds : List AccountId → Option AccountId → Type 0
Holds ids none = Unit
Holds ids (some id) = contains id ids ≡ true

-- The accounts that a transaction names are in the list.
abbrev pub Touches : List AccountId → TransactionType → Type 0
Touches ids (shielded p) = Holds ids p.shield_from × Holds ids p.unshield_to
Touches ids (transfer t) =
    (contains t.signer_pubkey ids ≡ true) × (contains t.tx_data.to ids ≡ true)
Touches ids (deposit d) = contains d.to ids ≡ true
Touches ids (withdraw w) = contains w.from ids ≡ true

module _ (ids : List AccountId) (distinct : Distinct ids) where
  funds-put_account :
      (s : State) (id : AccountId) (a : AccountState)
      → contains id ids ≡ true
      → funds ids (put_account s id a) + balance s id ≡ funds ids s + a.balance
  funds-put_account s id a h =
      sum_of-update (balance s) (balance (put_account s id a)) ids id a.balance
        (λ j. ground (arith, account_of-put_account s id j a)) distinct h

  funds-after_transfer :
      (tx : SignedTransaction) (s : State)
      → Touches ids (transfer tx)
      → funds ids s < u64_mod
      → tx.tx_data.amount ≤ balance s tx.signer_pubkey
      → funds ids (after_transfer tx s) ≡ funds ids s
  funds-after_transfer tx s touch small enough = elim (Bool-cases (from == to)) [
    | inl same ↦
        rw same (omega (arith, funds-put_account s from (debited (account_of s from) 0) touch.0))
    | inr other ↦
        let paid = debited (account_of s from) amount in
        let s₁ = put_account s from paid in
        rw other (
          ground (
            arith,
            add-le-sum_of (balance s) ids from to touch.0 touch.1 other,
            funds-put_account s from paid touch.0,
            funds-put_account s₁ to (credited (account_of s to) amount) touch.1,
            account_of-put_account s from to paid,
          ))
  ]
    where
      from : AccountId
      from = tx.signer_pubkey

      to : AccountId
      to = tx.tx_data.to

      amount : ℕ
      amount = tx.tx_data.amount

  funds-after_shield :
      (from : Option AccountId) (amount : Option ℕ) (s : State)
      → Holds ids from
      → Covers from amount s
      → funds ids (after_shield from amount s) + flow from amount ≡ funds ids s
  unfolding after_shield
  funds-after_shield (some from) (some amount) s h c =
      omega (arith, funds-put_account s from (debited (account_of s from) amount) h)
  funds-after_shield (some from) none s h c = omega arith
  funds-after_shield none amount s h c = omega arith

  funds-after_unshield :
      (to : Option AccountId) (amount : Option ℕ) (s : State)
      → Holds ids to
      → funds ids s + flow to amount < u64_mod
      → funds ids (after_unshield to amount s) ≡ funds ids s + flow to amount
  unfolding after_unshield
  funds-after_unshield (some to) (some amount) s h small = omega (
    arith,
    le-sum_of (balance s) ids to h,
    funds-put_account s to (credited (account_of s to) amount) h,
  )
  funds-after_unshield (some to) none s h small = omega arith
  funds-after_unshield none amount s h small = omega arith

  pub funds-diff : (s : State) (d : BatchDiff) → funds ids (record s { diff = d }) ≡ funds ids s
  funds-diff s d =
      sum_of-congr (balance s) (balance (record s { diff = d })) ids
        (λ id. ap (λ (a : AccountState). a.balance) (account_of-diff s d id))

  funds-after_withdraw :
      (w : WithdrawRequest) (h : Bytes) (s : State)
      → Touches ids (withdraw w)
      → funds ids (after_withdraw w h s) + balance s w.from
        ≡ funds ids s + (balance s w.from - w.amount)
  funds-after_withdraw w h s touch =
      let paid = put_account s w.from (debited (account_of s w.from) w.amount) in
      rw (funds-diff paid _)
        (funds-put_account s w.from (debited (account_of s w.from) w.amount) touch)

  module _ (C : Crypto) (P : Poseidon) where
    -- A transaction of any kind that succeeds changes the funds of the accounts by its inflow and
    -- its outflow, when the accounts it names are among those counted, each once, and the funds
    -- with the inflow fit 64 bits.
    pub execute_single_conserves :
        (tx : TransactionType) (h : Bytes) (s : State) (r : TxResult)
        → Touches ids tx
        → funds ids s + inflow tx < u64_mod
        → (execute_single C P tx h s).0 ≡ ok r
        → funds ids (execute_single C P tx h s).1 + outflow tx ≡ funds ids s + inflow tx
    unfolding execute_single
    execute_single_conserves (transfer t) h s r touch small e =
        let enough = ((execute_transfer_iff C t h s).0 (r, e)).1 in
        rw (execute_transfer_state C t h s r e)
          (omega (arith, funds-after_transfer t s touch (omega arith) enough))
    execute_single_conserves (deposit d) h s r touch small e =
        unfold execute_deposit in
        omega (
          arith,
          le-sum_of (balance s) ids d.to touch,
          funds-put_account s d.to (credited (account_of s d.to) d.amount) touch,
        )
    execute_single_conserves (withdraw w) h s r touch small e =
        let enough = ((execute_withdraw_iff C w h s).0 (r, e)).1 in
        rw (execute_withdraw_state C w h s r e)
          (omega (arith, enough, funds-after_withdraw w h s touch))
    execute_single_conserves (shielded p) h s r touch small e =
        let covers = (execute_shielded_accounts P p h s r [] e).1 in
        let s₁ = after_shield p.shield_from p.shield_amount s in
        let same =
          sum_of-congr (balance (after_unshield p.unshield_to p.unshield_amount s₁))
            (balance (execute_shielded P p h s).1) ids
            (λ id.
              ap (λ (a : AccountState). a.balance) (execute_shielded_accounts P p h s r id e).0) in
        let debit = funds-after_shield p.shield_from p.shield_amount s touch.0 covers in
        let credit =
          funds-after_unshield p.unshield_to p.unshield_amount s₁ touch.1 (omega (arith, debit)) in
        omega (arith, same, debit, credit)
