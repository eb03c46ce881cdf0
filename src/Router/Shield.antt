-- ===== src/Router/Shield.antt =====
-- What a shielded transaction does to the accounts and to the nullifiers.
use zelana.Base.{ℕ, ◌≤◌, ◌≡◌, Option, none, some, Bytes, bytes_eq, arith}
use zelana.Account.{AccountId}
use zelana.Shielded.{Poseidon}
use zelana.Router.Types.{State, PrivateTransaction, TxResult}
use zelana.Router.Signature.{ok}
use zelana.Router.Transfer.{debited, credited}
use zelana.Router.{account_of, put_account, debit_shield, credit_unshield, execute_shielded}

-- The accounts after the debit of a shield, and after the credit of an unshield.
unfoldable pub after_shield : Option AccountId → Option ℕ → State → State
after_shield (some from) (some amount) s = put_account s from (debited (account_of s from) amount)
after_shield (some from) none s = s
after_shield none amount s = s

unfoldable pub after_unshield : Option AccountId → Option ℕ → State → State
after_unshield (some to) (some amount) s = put_account s to (credited (account_of s to) amount)
after_unshield (some to) none s = s
after_unshield none amount s = s

-- The account that is debited holds the amount.
abbrev pub Covers : Option AccountId → Option ℕ → State → Type 0
Covers (some from) (some amount) s = amount ≤ (account_of s from).balance
Covers (some from) none s = Unit
Covers none amount s = Unit

module _ (P : Poseidon) where
  pub execute_shielded_accounts :
      (tx : PrivateTransaction) (h : Bytes) (s : State) (r : TxResult) (id : AccountId)
      → (execute_shielded P tx h s).0 ≡ ok r
      → (account_of (execute_shielded P tx h s).1 id
          ≡ account_of
              (after_unshield tx.unshield_to tx.unshield_amount
                (after_shield tx.shield_from tx.shield_amount s))
              id)
        × Covers tx.shield_from tx.shield_amount s
  unfolding execute_shielded debit_shield credit_unshield after_shield after_unshield account_of
      put_account
  execute_shielded_accounts tx h s r id e = ground arith
