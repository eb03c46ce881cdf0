-- ===== src/Executor.antt =====
-- The older executor of transfers (core/src/sequencer/execution/executor.rs). Balances and nonces
-- wrap around at 2^64, as a release build does.
pub mod Agreement
pub mod Applied
pub mod Tests
use zelana.Base.{
  ℕ, ◌+◌, ◌-◌, ◌%◌, Bool, true, false, not, Option, none, some, List, [], ◌∷◌, ◌++◌, Bytes, ◌==◌,
  nat_beq, ltb, bytes_eq, if◌then◌else◌, u64_mod,
}
use zelana.Base.Dict.{Dict, lookup, insert, put_all}
use zelana.Base.Text.{to_le_bytes}
use zelana.Account.{AccountId, AccountState, default_state}
use zelana.Router.Types.{SignedTransaction, Store}
use mathlib.Core.List.{reverse}

pub data ExecutionError : Type 0 where
  insufficient_balance invalid_nonce account_not_found invalid_transaction : ExecutionError

pub record StateDiff : Type 0 where
  pub updates : Dict AccountId AccountState

pub record ExecutionResult : Type 0 where
  pub tx_hash : Bytes
  pub state_diff : StateDiff

pub record InMemoryState : Type 0 where
  pub accounts : Dict AccountId AccountState
  pub touched : Dict AccountId AccountState

pub record Executor : Type 0 where
  pub db : Store
  pub state : InMemoryState

pub data Result (A : Type 0) : Type 0 where
  ok : A → Result A
  err : ExecutionError → Result A

-- `unwrap_or_default`
abbrev pub or_default : Option AccountState → AccountState
or_default none = default_state
or_default (some a) = a

-- The cached state, else that of the database.
unfoldable pub load_account : InMemoryState → Store → AccountId → AccountState
load_account s db id = elim (lookup id s.accounts) [
  | some a ↦ a
  | none ↦ or_default (lookup id db.accounts)
]

unfoldable pub set_account : AccountId → AccountState → InMemoryState → InMemoryState
set_account id a s = record s { accounts = insert id a s.accounts; touched = insert id a s.touched }

unfoldable pub diff : InMemoryState → StateDiff
diff s = record { updates = s.touched }

abbrev pub new_executor : Store → Executor
new_executor db = record { db = db; state = record { accounts = []; touched = [] } }

-- What both branches check, in this order.
abbrev pub check_sender : AccountState → ℕ → ℕ → Result (Unit {0})
check_sender a amount nonce =
    if ltb a.balance amount
    then err insufficient_balance
    else if not (nat_beq a.nonce nonce)
    then err invalid_nonce
    else ok tt

-- The state once the checks have passed.
unfoldable pub moved : SignedTransaction → Executor → InMemoryState
unfolding load_account set_account
moved tx e =
    let from = tx.signer_pubkey in
    let to = tx.tx_data.to in
    let amount = tx.tx_data.amount in
    let from_state = load_account e.state e.db from in
    let to_state = load_account e.state e.db to in
    if from == to
    then set_account from (record from_state { nonce = (from_state.nonce + 1) % u64_mod }) e.state
    else set_account to (record to_state { balance = (to_state.balance + amount) % u64_mod })
        (set_account from
          (record {
            balance = from_state.balance - amount;
            nonce = (from_state.nonce + 1) % u64_mod;
          })
          e.state)

-- What follows the checks: an early return, or the writes.
unfoldable pub execute_checked :
    SignedTransaction → Bytes → Executor → Result (Unit {0}) → Result ExecutionResult × Executor
unfolding moved diff
execute_checked tx tx_hash e (err error) = (err error, e)
execute_checked tx tx_hash e (ok _) = (
  ok (record { tx_hash = tx_hash; state_diff = diff (moved tx e) }),
  record e { state = moved tx e },
)

unfoldable pub execute_signed_tx :
    SignedTransaction → Bytes → Executor → Result ExecutionResult × Executor
unfolding execute_checked load_account
execute_signed_tx tx tx_hash e =
    execute_checked tx tx_hash e
      (check_sender (load_account e.state e.db tx.signer_pubkey) tx.tx_data.amount tx.tx_data.nonce)

unfoldable pub reset : Executor → Executor
reset e = record e { state = record { accounts = []; touched = [] } }

-- `set_account_state` for every touched account.
unfoldable pub apply_state_diff : Executor → Executor
unfolding diff
apply_state_diff e =
    let updates = (diff e.state).updates in
    record e { db = record (e.db) { accounts = put_all updates e.db.accounts } }

-- The order of byte strings.
unfoldable pub bytes_leb : Bytes → Bytes → Bool
bytes_leb [] ys = true
bytes_leb (x ∷ xs) [] = false
bytes_leb (x ∷ xs) (y ∷ ys) = if ltb x y then true else if ltb y x then false else bytes_leb xs ys

-- The hexadecimal text of an identifier, and SHA-256.
module _ (hex : Bytes → Bytes) (sha256 : Bytes → Bytes) where
  unfoldable pub insert_by_hex :
      AccountId × AccountState → Dict AccountId AccountState → Dict AccountId AccountState
  unfolding bytes_leb
  insert_by_hex entry [] = entry ∷ []
  insert_by_hex entry (first ∷ entries) =
      if bytes_leb (hex entry.0) (hex first.0)
      then entry ∷ first ∷ entries
      else first ∷ insert_by_hex entry entries

  unfoldable pub sort_by_hex : Dict AccountId AccountState → Dict AccountId AccountState
  unfolding insert_by_hex
  sort_by_hex [] = []
  sort_by_hex (entry ∷ entries) = insert_by_hex entry (sort_by_hex entries)

  unfoldable pub entries_bytes : Dict AccountId AccountState → Bytes
  entries_bytes [] = []
  entries_bytes ((id, a) ∷ entries) =
      id
      ++ (reverse (to_le_bytes 8 a.balance)
          ++ (reverse (to_le_bytes 8 a.nonce) ++ entries_bytes entries))

  unfoldable pub compute_state_root : Dict AccountId AccountState → Bytes
  unfolding sort_by_hex entries_bytes
  compute_state_root base_state = sha256 (entries_bytes (sort_by_hex base_state))

  unfoldable pub state_root : Executor → Bytes
  unfolding compute_state_root
  state_root e = compute_state_root e.state.accounts
