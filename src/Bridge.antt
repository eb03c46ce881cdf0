-- ===== src/Bridge.antt =====
-- onchain-programs/bridge: the program on L1 that holds the funds and takes the batches. Accounts are
-- byte arrays under their keys. The system program, the addresses of program accounts, the rent, the
-- clock and the verifier program are outside the model: they are the `Runtime`.
pub mod Wire
pub mod Submit
pub mod Vault
pub mod Entry
pub mod Refused
pub mod Trips
pub mod Safe
pub mod Replay
pub mod Tests
use zelana.Base.{ℕ, ◌+◌, ◌-◌, Bool, true, false, Option, none, some, List, Bytes, take, drop}
use zelana.Base.Dict.{Dict, lookup}

-- The errors of `ProgramError` that the program raises, and those of its calls.
pub data Error : Type 0 where
  not_enough_account_keys missing_required_signature uninitialized_account : Error
  incorrect_authority invalid_instruction_data invalid_account_data invalid_argument : Error
  invalid_seeds account_already_initialized call_failed : Error

pub data Result (A : Type 0) : Type 0 where
  ok : A → Result A
  err : Error → Result A

infixl 20 ◌>>=◌
unfoldable pub ◌>>=◌ : {A : Type 0} {B : Type 0} → Result A → (A → Result B) → Result B
ok a >>= f = f a
err e >>= f = err e

infixl 20 ◌>>◌
unfoldable pub ◌>>◌ : {A : Type 0} → Result Unit → Result A → Result A
ok u >> r = r
err e >> r = err e

-- `if test { return Err(e) }`
unfoldable pub refuse_if : Bool → Error → Result Unit
refuse_if test e = elim test [ true ↦ err e | false ↦ ok tt ]

pub record Account : Type 0 where
  pub lamports : ℕ
  pub content : Bytes

abbrev pub Ledger : Type 0
Ledger = Dict Bytes Account

-- An account of an instruction: its key, and whether it signed.
pub record AccountMeta : Type 0 where
  pub key : Bytes
  pub is_signer : Bool

-- The program's own key is `id`. An invocation of the verifier program is given that program, the
-- sequencer, the account of the verifying key and the instruction data.
pub record Runtime : Type 0 where
  pub id : Bytes
  pub find_program_address : List Bytes → Bytes × ℕ
  pub minimum_balance : ℕ → ℕ
  pub unix_timestamp : ℕ
  -- from, to, lamports
  pub transfer : Bytes → Bytes → ℕ → Ledger → Option Ledger
  -- payer, account, lamports, space
  pub create_account : Bytes → Bytes → ℕ → ℕ → Ledger → Option Ledger
  pub invoke_verifier : Bytes → Bytes → Bytes → Bytes → Bool

abbrev pub call : Option Ledger → Result Ledger
call none = err call_failed
call (some l) = ok l

-- `&data[a..b]`
abbrev pub slice : ℕ → ℕ → Bytes → Bytes
slice a b bytes = take (b - a) (drop a bytes)
