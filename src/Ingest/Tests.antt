-- ===== src/Ingest/Tests.antt =====
-- The theorems on the deposit indexer at concrete inputs.
use zelana.Base.{
  ℕ, List, ◌≡◌, refl, Bool, true, false, Option, none, some, [], ◌∷◌, ◌++◌, Bytes, arith, suc,
}
use zelana.Base.Text.{codes, decimal}
use zelana.Base.Dict.{has_key}
use zelana.Samples.{alice}
use zelana.Router.Types.{DepositEvent, TransactionType}
use zelana.Ingest.{
  IndexerStore, is_deposit_processed, deposit_of, record_deposit, run_subscription,
  parse_deposit_log, parse_log_pubkey, trim,
}
use zelana.Ingest.Keys.{array_text, AllBytes, parse_deposit_log-line}
use zelana.Ingest.Once.{without, run_subscription-numbered}
use zelana.Ingest.Trace.{traced, MarkedOnce, run_subscription-MarkedOnce}

-- Base 58 text that is read as one key.
abbrev from_str : Bytes → Option Bytes
from_str text = some alice

abbrev no_base58 : Bytes → Option Bytes
no_base58 text = none

-- A service that accepts everything, and counts.
abbrev submit : TransactionType → ℕ → Bool × ℕ
submit tx n = (true, suc n)

abbrev new_store : IndexerStore
new_store = record { processed_deposits = []; last_processed_slot = none; l1_deposits_total = 0 }

abbrev line : Bytes
line = codes "Program log: ZE_DEPOSIT:A:500:7"

abbrev other_line : Bytes
other_line = codes "Program log: ZE_DEPOSIT:B:900:7"

abbrev event : DepositEvent
event = record { to = alice; amount = 500; l1_seq = 7 }

abbrev next_line : Bytes
next_line = codes "Program log: ZE_DEPOSIT:B:20:8"

-- The number of another deposit, and then twice the first number again.
abbrev later : List (ℕ × List Bytes)
later = (12, next_line ∷ other_line ∷ []) ∷ (13, line ∷ []) ∷ []

read_line : deposit_of from_str line ≡ some event
unfolding deposit_of parse_log_pubkey trim
read_line = refl

alice_bytes : AllBytes alice
alice_bytes = ground arith

parse_deposit_log-line_example :
    parse_deposit_log no_base58 (array_text alice ++ 58 ∷ (decimal 500 ++ 58 ∷ decimal 7))
    ≡ some event
parse_deposit_log-line_example =
    parse_deposit_log-line no_base58 alice 500 7 refl alice_bytes (ground arith) (ground arith)

new : is_deposit_processed event.l1_seq new_store ≡ false
unfolding is_deposit_processed has_key
new = refl

run_subscription-numbered_example :
    run_subscription from_str submit ((11, line ∷ []) ∷ later) (new_store, 0)
    ≡ run_subscription from_str submit
        (without from_str 7 later)
        (record_deposit 11 event new_store true, 1)
run_subscription-numbered_example =
    run_subscription-numbered from_str submit 11 line event later new_store 0 read_line new refl

run_subscription-MarkedOnce_example :
    let (s', (_, seen)) =
      run_subscription from_str
        (traced submit)
        ((11, line ∷ other_line ∷ []) ∷ [])
        (new_store, (0, [])) in
    MarkedOnce s' seen
run_subscription-MarkedOnce_example =
    run_subscription-MarkedOnce from_str submit ((11, line ∷ other_line ∷ []) ∷ []) new_store 0
