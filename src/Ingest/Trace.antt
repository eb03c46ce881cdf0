-- ===== src/Ingest/Trace.antt =====
-- The numbers of the deposits that the service has accepted (run_subscription of
-- core/src/sequencer/bridge/ingest.rs).
use zelana.Base.{
  ℕ, ◌≡◌, refl, Bool, true, false, Option, List, [], ◌∷◌, Bytes, arith, Bool-cases, Option-cases,
  inl, inr, nat_eq, ==_iff,
}
use zelana.Base.Dict.{contains}
use zelana.Router.Types.{DepositEvent, TransactionType, deposit}
use zelana.Ingest.Marks.{is_deposit_processed-record_deposit}
use zelana.Ingest.{
  IndexerStore, is_deposit_processed, deposit_of, record_deposit, handle_deposit, handle_log,
  handle_logs, run_subscription,
}

-- The trace after an answer, the last number first.
noted : Bool → TransactionType → List ℕ → List ℕ
noted true (deposit event) seen = event.l1_seq ∷ seen
noted true _ seen = seen
noted false tx seen = seen

-- The service with the trace of what it accepted.
pub traced :
    {σ : Type 0}
    → (TransactionType → σ → Bool × σ)
    → TransactionType
    → σ × List ℕ
    → Bool × (σ × List ℕ)
traced submit tx (service, seen) =
    let (accepted, service') = submit tx service in (accepted, (service', noted accepted tx seen))

-- Numbers that are all marked as processed, and none of them twice.
abbrev pub MarkedOnce : IndexerStore → List ℕ → Type 0
MarkedOnce s [] = Unit
MarkedOnce s (seq ∷ seen) =
    (is_deposit_processed seq s ≡ true) × ((contains seq seen ≡ false) × MarkedOnce s seen)

record_deposit-MarkedOnce :
    (slot : ℕ) (event : DepositEvent) (s : IndexerStore) (seen : List ℕ)
    → MarkedOnce s seen
    → MarkedOnce (record_deposit slot event s true) seen
record_deposit-MarkedOnce slot event s [] m = tt
record_deposit-MarkedOnce slot event s (seq ∷ seen) m = (
  ground (arith, is_deposit_processed-record_deposit slot seq event s, m.0),
  (m.1.0, record_deposit-MarkedOnce slot event s seen m.1.1),
)

contains_new :
    (seq : ℕ) (s : IndexerStore) (seen : List ℕ)
    → MarkedOnce s seen
    → is_deposit_processed seq s ≡ false
    → contains seq seen ≡ false
unfolding contains
contains_new seq s [] m new = refl
contains_new seq s (first ∷ seen) m new =
    ground (arith, m.0, new, ==_iff first seq, contains_new seq s seen m.1.1 new)

answered-MarkedOnce :
    (slot : ℕ) (event : DepositEvent) (s : IndexerStore) (seen : List ℕ) (accepted : Bool)
    → MarkedOnce s seen
    → is_deposit_processed event.l1_seq s ≡ false
    → MarkedOnce (record_deposit slot event s accepted) (noted accepted (deposit event) seen)
unfolding noted record_deposit
answered-MarkedOnce slot event s seen false m new = m
answered-MarkedOnce slot event s seen true m new = (
  ground (
    arith,
    is_deposit_processed-record_deposit slot event.l1_seq event s,
    ==_iff event.l1_seq event.l1_seq,
  ),
  (contains_new event.l1_seq s seen m new, record_deposit-MarkedOnce slot event s seen m),
)

module _ (from_str : Bytes → Option Bytes) {σ : Type 0}
    (submit : TransactionType → σ → Bool × σ) where
  abbrev IsTraced : IndexerStore × (σ × List ℕ) → Type 0
  IsTraced (s, (service, seen)) = MarkedOnce s seen

  handle_deposit-IsTraced :
      (slot : ℕ) (event : DepositEvent) (state : IndexerStore × (σ × List ℕ))
      → IsTraced state
      → IsTraced (handle_deposit from_str (traced submit) slot event state)
  unfolding handle_deposit traced
  handle_deposit-IsTraced slot event (s, (service, seen)) m =
      elim (Bool-cases (is_deposit_processed event.l1_seq s)) [
        | inl known ↦ rw known m
        | inr new ↦
            rw new (answered-MarkedOnce slot event s seen (submit (deposit event) service).0 m new)
      ]

  handle_log-IsTraced :
      (slot : ℕ) (log : Bytes) (state : IndexerStore × (σ × List ℕ))
      → IsTraced state
      → IsTraced (handle_log from_str (traced submit) slot log state)
  unfolding handle_log deposit_of
  handle_log-IsTraced slot log state m = elim (Option-cases (deposit_of from_str log)) [
    | inl nothing ↦ rw nothing m
    | inr (event, is_event) ↦ rw is_event (handle_deposit-IsTraced slot event state m)
  ]

  handle_logs-IsTraced :
      (slot : ℕ) (logs : List Bytes) (state : IndexerStore × (σ × List ℕ))
      → IsTraced state
      → IsTraced (handle_logs from_str (traced submit) slot logs state)
  unfolding handle_logs
  handle_logs-IsTraced slot [] state m = m
  handle_logs-IsTraced slot (log ∷ logs) state m =
      handle_logs-IsTraced slot logs _ (handle_log-IsTraced slot log state m)

  run_subscription-IsTraced :
      (responses : List (ℕ × List Bytes)) (state : IndexerStore × (σ × List ℕ))
      → IsTraced state
      → IsTraced (run_subscription from_str (traced submit) responses state)
  unfolding run_subscription
  run_subscription-IsTraced [] state m = m
  run_subscription-IsTraced ((slot, logs) ∷ responses) state m =
      run_subscription-IsTraced responses _ (handle_logs-IsTraced slot logs state m)

  -- Whatever notifications come, and whichever deposits the service accepts, the deposits that it
  -- accepted bear different numbers, all of which are marked as processed.
  pub run_subscription-MarkedOnce :
      (responses : List (ℕ × List Bytes)) (s : IndexerStore) (service : σ)
      → let (s', (_, seen)) =
          run_subscription from_str (traced submit) responses (s, (service, [])) in
        MarkedOnce s' seen
  run_subscription-MarkedOnce responses s service =
      run_subscription-IsTraced responses (s, (service, [])) tt
