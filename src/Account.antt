-- ===== src/Account.antt =====
-- sdk/account: the identifier of an account, its 32 bytes, and the state of an account.
use zelana.Base.{ℕ, Bytes}

abbrev pub AccountId : Type 0
AccountId = Bytes

pub record AccountState : Type 0 where
  pub balance : ℕ
  pub nonce : ℕ

-- `AccountState::default()`
abbrev pub default_state : AccountState
default_state = record { balance = 0; nonce = 0 }
