-- ===== src/Router/Transfer.antt =====
-- When a transfer or a withdrawal goes through, and what it does to every account.
use zelana.Base.{
  ℕ, ◌+◌, ◌-◌, ◌%◌, ◌≤◌, ◌≡◌, ◌≢◌, ◌↔◌, refl, ap, ◌∙◌, [], ◌∷◌, ◌++◌, Bytes, ◌==◌, bytes_eq, ==_iff,
  ==_refl, if◌then◌else◌, arith, u64_mod,
}
use zelana.Account.{AccountId, AccountState}
use zelana.Router.Types.{
  State, SignedTransaction, WithdrawRequest, TxResult, TxResultType, PendingWithdrawal,
}
use zelana.Router.Signature.{
  Crypto, ok, SignedTransfer, SignedWithdraw, verify_transfer_signature_iff,
  verify_withdraw_signature_iff,
}
use zelana.Router.Accounts.{account_of-put_account, account_of-diff}
use zelana.Router.{account_of, put_account, execute_transfer, execute_withdraw, success_result}

-- The sender's state once it is debited.
abbrev pub debited : AccountState → ℕ → AccountState
debited a amount = record { balance = a.balance - amount; nonce = (a.nonce + 1) % u64_mod }

abbrev pub credited : AccountState → ℕ → AccountState
credited a amount = record a { balance = (a.balance + amount) % u64_mod }

-- The state after a transfer.
abbrev pub after_transfer : SignedTransaction → State → State
after_transfer tx s =
    let from = tx.signer_pubkey in
    let to = tx.tx_data.to in
    if from == to
    then put_account s from (debited (account_of s from) 0)
    else put_account (put_account s from (debited (account_of s from) tx.tx_data.amount)) to
        (credited (account_of s to) tx.tx_data.amount)

abbrev pub queued : WithdrawRequest → Bytes → PendingWithdrawal
queued w h = record {
  tx_hash = h;
  from = w.from;
  to_l1_address = w.to_l1_address;
  amount = w.amount;
  l2_nonce = w.nonce;
}

-- The state after a withdrawal.
abbrev pub after_withdraw : WithdrawRequest → Bytes → State → State
after_withdraw w h s =
    let paid = put_account s w.from (debited (account_of s w.from) w.amount) in
    record paid { diff = record (s.diff) { withdrawals = s.diff.withdrawals ++ queued w h ∷ [] } }

module _ (C : Crypto) where
  -- A transfer succeeds exactly if its sender signed it, holds the amount, and shows its nonce.
  pub execute_transfer_iff :
      (tx : SignedTransaction) (h : Bytes) (s : State)
      → let sender = account_of s tx.signer_pubkey in
        ((r : TxResult) × ((execute_transfer C tx h s).0 ≡ ok r)) ↔ (
          SignedTransfer C tx
          × (tx.tx_data.amount ≤ sender.balance)
          × (sender.nonce ≡ tx.tx_data.nonce))
  unfolding execute_transfer
  execute_transfer_iff tx h s = (
    λ (r, e). ((verify_transfer_signature_iff C tx).0 (ground arith), ground arith, ground arith),
    λ (signed, funds, nonce).
        let accepted = (verify_transfer_signature_iff C tx).1 signed in
        (
          success_result h
              (TxResultType.transfer_result tx.signer_pubkey tx.tx_data.to tx.tx_data.amount),
          ground arith,
        ),
  )

  pub execute_transfer_state :
      (tx : SignedTransaction) (h : Bytes) (s : State) (r : TxResult)
      → (execute_transfer C tx h s).0 ≡ ok r
      → (execute_transfer C tx h s).1 ≡ after_transfer tx s
  unfolding execute_transfer
  execute_transfer_state tx h s r e = ground arith

  -- A transfer that succeeds between two accounts moves the amount, raises the sender's nonce, and
  -- touches no third account; one to the sender itself only raises the nonce.
  pub execute_transfer_effect :
      (tx : SignedTransaction) (h : Bytes) (s : State) (r : TxResult) (id : AccountId)
      → (execute_transfer C tx h s).0 ≡ ok r
      → let from = tx.signer_pubkey in
        let to = tx.tx_data.to in
        let amount = tx.tx_data.amount in
        account_of (execute_transfer C tx h s).1 id ≡ (
          if from == to
          then (if from == id then debited (account_of s from) 0 else account_of s id)
          else if to == id
          then credited (account_of s to) amount
          else if from == id
          then debited (account_of s from) amount
          else account_of s id)
  execute_transfer_effect tx h s r id e =
      let from = tx.signer_pubkey in
      let to = tx.tx_data.to in
      let paid = debited (account_of s from) tx.tx_data.amount in
      rw (execute_transfer_state tx h s r e) (
        ground (
          arith,
          account_of-put_account s from id (debited (account_of s from) 0),
          account_of-put_account s from id paid,
          account_of-put_account (put_account s from paid) to id
              (credited (account_of s to) tx.tx_data.amount),
        ))

  -- The transfer that went through is refused when it is sent again.
  pub execute_transfer_replay :
      (tx : SignedTransaction) (h h' : Bytes) (s : State) (r r' : TxResult)
      → (execute_transfer C tx h s).0 ≡ ok r
      → (execute_transfer C tx h' (execute_transfer C tx h s).1).0 ≢ ok r'
  execute_transfer_replay tx h h' s r r' e e' =
      let from = tx.signer_pubkey in
      let to = tx.tx_data.to in
      let first = (execute_transfer_iff tx h s).0 (r, e) in
      let again = (execute_transfer_iff tx h' (execute_transfer C tx h s).1).0 (r', e') in
      let now = execute_transfer_effect tx h s r from e in
      ground (
        arith,
        first.2,
        again.2,
        ap (λ (a : AccountState). a.nonce) now,
        ==_refl {A = Bytes} from,
        ==_iff {A = Bytes} from to,
        ==_iff {A = Bytes} to from,
      )

  -- A withdrawal succeeds exactly if its account signed it, holds the amount, and shows its nonce.
  pub execute_withdraw_iff :
      (w : WithdrawRequest) (h : Bytes) (s : State)
      → let sender = account_of s w.from in
        ((r : TxResult) × ((execute_withdraw C w h s).0 ≡ ok r))
        ↔ (SignedWithdraw C w × (w.amount ≤ sender.balance) × (sender.nonce ≡ w.nonce))
  unfolding execute_withdraw
  execute_withdraw_iff w h s = (
    λ (r, e). ((verify_withdraw_signature_iff C w).0 (ground arith), ground arith, ground arith),
    λ (signed, funds, nonce).
        let accepted = (verify_withdraw_signature_iff C w).1 signed in
        (
          success_result h (TxResultType.withdrawal_result w.from w.to_l1_address w.amount),
          ground arith,
        ),
  )

  pub execute_withdraw_state :
      (w : WithdrawRequest) (h : Bytes) (s : State) (r : TxResult)
      → (execute_withdraw C w h s).0 ≡ ok r
      → (execute_withdraw C w h s).1 ≡ after_withdraw w h s
  unfolding execute_withdraw put_account
  execute_withdraw_state w h s r e = ground arith

  -- A withdrawal that succeeds debits its account, touches no other, and queues one withdrawal of
  -- the amount to the requested address.
  pub execute_withdraw_effect :
      (w : WithdrawRequest) (h : Bytes) (s : State) (r : TxResult) (id : AccountId)
      → (execute_withdraw C w h s).0 ≡ ok r
      → let s' = (execute_withdraw C w h s).1 in
        (account_of s' id
          ≡ (if w.from == id then debited (account_of s w.from) w.amount else account_of s id))
        × (s'.diff.withdrawals ≡ s.diff.withdrawals ++ queued w h ∷ [])
  execute_withdraw_effect w h s r id e =
      let paid = put_account s w.from (debited (account_of s w.from) w.amount) in
      rw (execute_withdraw_state w h s r e)
        (account_of-diff paid _ id ∙ account_of-put_account s w.from id _, refl)
