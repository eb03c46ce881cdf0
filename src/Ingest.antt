-- ===== src/Ingest.antt =====
-- The deposit indexer, which reads the bridge's log lines and hands the deposits to the pipeline
-- (core/src/sequencer/bridge/ingest.rs, and its rows of core/src/sequencer/storage/db.rs).
pub mod Text
pub mod Keys
pub mod Marks
pub mod Once
pub mod Trace
pub mod Tests
use zelana.Base.{
  ℕ, zero, suc, ◌+◌, ◌-◌, ◌*◌, ◌<◌, Bool, true, false, ◌&&◌, ◌||◌, Option, none, some, List, [],
  ◌∷◌, ◌++◌, map, Bytes, length, ltb, leb, nat_beq, if◌then◌else◌, u64_mod, u64_max, nat_eq,
  bytes_eq,
}
use zelana.Base.Dict.{Dict, lookup, insert, has_key}
use zelana.Base.Text.{codes}
use zelana.Account.{AccountId, AccountState, default_state}
use zelana.Router.Types.{DepositEvent, TransactionType, deposit, Store}
use mathlib.Core.List.{reverse}

-- `split` at a byte.
unfoldable pub split_at : ℕ → Bytes → Bytes → List Bytes
split_at sep part [] = reverse part ∷ []
split_at sep part (c ∷ cs) =
    let rest = reverse part ∷ split_at sep [] cs in
    let longer = split_at sep (c ∷ part) cs in if nat_beq c sep then rest else longer

-- The digits of a number below a limit, after those read so far.
unfoldable pub parse_digits : ℕ → ℕ → Bytes → Option ℕ
parse_digits limit n [] = some n
parse_digits limit n (c ∷ cs) =
    let n' = n * 10 + (c - 48) in
    let rest = parse_digits limit n' cs in
    if (leb 48 c && leb c 57) && ltb n' limit then rest else none

unfoldable pub parse_some_digits : ℕ → Bytes → Option ℕ
unfolding parse_digits
parse_some_digits limit [] = none
parse_some_digits limit (c ∷ cs) = parse_digits limit 0 (c ∷ cs)

-- `parse` of an unsigned integer, which takes a plus sign.
unfoldable pub parse_uint : ℕ → Bytes → Option ℕ
unfolding parse_some_digits
parse_uint limit [] = none
parse_uint limit (c ∷ cs) =
    if nat_beq c 43 then parse_some_digits limit cs else parse_some_digits limit (c ∷ cs)

abbrev pub is_space : ℕ → Bool
is_space c = nat_beq c 32 || (leb 9 c && leb c 13)

abbrev pub is_bracket : ℕ → Bool
is_bracket c = nat_beq c 91 || nat_beq c 93

unfoldable pub trim_start : (ℕ → Bool) → Bytes → Bytes
trim_start p [] = []
trim_start p (c ∷ cs) = if p c then trim_start p cs else c ∷ cs

-- `trim` and `trim_matches`, of ASCII text.
unfoldable pub trim : (ℕ → Bool) → Bytes → Bytes
unfolding trim_start
trim p text = reverse (trim_start p (reverse (trim_start p text)))

abbrev pub cons_byte : Option ℕ → Option Bytes → Option Bytes
cons_byte none bs = none
cons_byte (some b) none = none
cons_byte (some b) (some bs) = some (b ∷ bs)

-- `collect` into a result: none if any part is none.
unfoldable pub all_bytes : List Bytes → Option Bytes
all_bytes [] = some []
all_bytes (part ∷ parts) = cons_byte (parse_uint 256 (trim is_space part)) (all_bytes parts)

unfoldable pub strip_prefix : Bytes → Bytes → Option Bytes
strip_prefix [] text = some text
strip_prefix (p ∷ ps) [] = none
strip_prefix (p ∷ ps) (c ∷ cs) = if nat_beq p c then strip_prefix ps cs else none

abbrev pub starts_with_bracket : Bytes → Bool
starts_with_bracket [] = false
starts_with_bracket (c ∷ cs) = nat_beq c 91

-- `Pubkey::from_str`, of base 58 text.
module _ (from_str : Bytes → Option Bytes) where
  abbrev pub array_or_base58 : Bytes → Option Bytes → Option Bytes
  array_or_base58 text none = from_str text
  array_or_base58 text (some bytes) =
      if nat_beq (length bytes) 32 then some bytes else from_str text

  unfoldable pub parse_log_pubkey : Bytes → Option Bytes
  parse_log_pubkey log_val =
      let text = trim is_space log_val in
      if starts_with_bracket text
      then array_or_base58 text (all_bytes (split_at 44 [] (trim is_bracket text)))
      else from_str text

  abbrev pub event_of : Option Bytes → Option ℕ → Option ℕ → Option DepositEvent
  event_of (some key) (some amount) (some seq) =
      some (record { to = key; amount = amount; l1_seq = seq })
  event_of (some key) (some amount) none = none
  event_of (some key) none seq = none
  event_of none amount seq = none

  abbrev pub event_of_parts : List Bytes → Option DepositEvent
  unfolding parse_log_pubkey parse_uint
  event_of_parts (key ∷ amount ∷ seq ∷ []) =
      event_of (parse_log_pubkey key) (parse_uint u64_mod amount) (parse_uint u64_mod seq)
  event_of_parts _ = none

  unfoldable pub parse_deposit_log : Bytes → Option DepositEvent
  unfolding split_at event_of_parts
  parse_deposit_log payload = event_of_parts (split_at 58 [] payload)

  -- The deposit of a log line, if it is one of the bridge.
  unfoldable pub deposit_of : Bytes → Option DepositEvent
  unfolding strip_prefix parse_deposit_log
  deposit_of log = elim (strip_prefix (codes "Program log: ZE_DEPOSIT:") log) [
    | none ↦ none
    | some payload ↦ parse_deposit_log payload
  ]

-- The indexer's rows of the database: processed deposits with their slots, the last slot, and the
-- sum for the statistics.
pub record IndexerStore : Type 0 where
  pub processed_deposits : Dict ℕ ℕ
  pub last_processed_slot : Option ℕ
  pub l1_deposits_total : ℕ

unfoldable pub is_deposit_processed : ℕ → IndexerStore → Bool
is_deposit_processed l1_seq s = has_key l1_seq s.processed_deposits

unfoldable pub mark_deposit_processed : ℕ → ℕ → IndexerStore → IndexerStore
mark_deposit_processed l1_seq slot s = record s {
  processed_deposits = insert l1_seq slot s.processed_deposits;
}

unfoldable pub set_last_processed_slot : ℕ → IndexerStore → IndexerStore
set_last_processed_slot slot s = record s { last_processed_slot = some slot }

unfoldable pub add_l1_deposit : ℕ → IndexerStore → IndexerStore
add_l1_deposit amount s = record s {
  l1_deposits_total =
      if ltb u64_max (s.l1_deposits_total + amount) then u64_max else s.l1_deposits_total + amount;
}

-- What follows the answer of the service.
unfoldable pub record_deposit : ℕ → DepositEvent → IndexerStore → Bool → IndexerStore
unfolding mark_deposit_processed set_last_processed_slot add_l1_deposit
record_deposit slot event s true =
    add_l1_deposit event.amount
      (set_last_processed_slot slot (mark_deposit_processed event.l1_seq slot s))
record_deposit slot event s false = s

-- The service that takes transactions: whether it accepts, and its next state.
module _ (from_str : Bytes → Option Bytes) {σ : Type 0}
    (submit : TransactionType → σ → Bool × σ) where
  unfoldable pub handle_deposit : ℕ → DepositEvent → IndexerStore × σ → IndexerStore × σ
  unfolding record_deposit is_deposit_processed
  handle_deposit slot event (s, service) =
      let (accepted, service') = submit (deposit event) service in
      if is_deposit_processed event.l1_seq s
      then (s, service)
      else (record_deposit slot event s accepted, service')

  unfoldable pub handle_log : ℕ → Bytes → IndexerStore × σ → IndexerStore × σ
  unfolding handle_deposit
  handle_log slot log state = elim (deposit_of from_str log) [
    | none ↦ state
    | some event ↦ handle_deposit slot event state
  ]

  -- The log lines of one notification, and the notifications one after the other.
  unfoldable pub handle_logs : ℕ → List Bytes → IndexerStore × σ → IndexerStore × σ
  unfolding handle_log
  handle_logs slot [] state = state
  handle_logs slot (log ∷ logs) state = handle_logs slot logs (handle_log slot log state)

  unfoldable pub run_subscription : List (ℕ × List Bytes) → IndexerStore × σ → IndexerStore × σ
  unfolding handle_logs
  run_subscription [] state = state
  run_subscription ((slot, logs) ∷ responses) state =
      run_subscription responses (handle_logs slot logs state)

-- The older indexer, which credits the account in the database.
abbrev pub stored_state : Option AccountState → AccountState
stored_state none = default_state
stored_state (some a) = a

unfoldable pub credit_directly : ℕ → DepositEvent → IndexerStore × Store → IndexerStore × Store
unfolding is_deposit_processed mark_deposit_processed set_last_processed_slot
credit_directly slot event (s, db) =
    let account = stored_state (lookup event.to db.accounts) in
    let balance =
      if ltb u64_max (account.balance + event.amount)
      then u64_max
      else account.balance + event.amount in
    if is_deposit_processed event.l1_seq s then (s, db) else (
      set_last_processed_slot slot (mark_deposit_processed event.l1_seq slot s),
      record db { accounts = insert event.to (record account { balance = balance }) db.accounts },
    )
