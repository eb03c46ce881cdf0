-- ===== src/Ingest/Once.antt =====
-- Deposits under a number that was accepted before (run_subscription of
-- core/src/sequencer/bridge/ingest.rs).
use mathlib.Core.Path.{subst}
use zelana.Base.{
  ℕ, ◌≡◌, refl, sym, ◌∙◌, ap, Bool, true, false, not, Option, none, some, List, [], ◌∷◌, Bytes,
  Bool-cases, Option-cases, inl, inr, nat_eq, ==_iff, ◌==◌, ==_refl, keep_if, arith,
}
use zelana.Router.Types.{DepositEvent, TransactionType, deposit}
use zelana.Ingest.{
  IndexerStore, is_deposit_processed, deposit_of, record_deposit, handle_deposit, handle_log,
  handle_logs, run_subscription,
}
use zelana.Ingest.Marks.{is_deposit_processed-record_deposit, handle_log-processed}

-- A log line that is no deposit under the number.
abbrev pub is_other : ℕ → Option DepositEvent → Bool
is_other seq none = true
is_other seq (some event) = not (event.l1_seq == seq)

is_other_same :
    (seq : ℕ) (event : DepositEvent) (s : IndexerStore)
    → is_other seq (some event) ≡ false
    → is_deposit_processed seq s ≡ true
    → is_deposit_processed event.l1_seq s ≡ true
is_other_same seq event s h done = ground (arith, h, done, ==_iff event.l1_seq seq)

module _ (from_str : Bytes → Option Bytes) where
  abbrev pub other_logs : ℕ → List Bytes → List Bytes
  other_logs seq logs = keep_if (λ log. is_other seq (deposit_of from_str log)) logs

  -- The notifications without the deposits under the number, and with all other log lines.
  abbrev pub without : ℕ → List (ℕ × List Bytes) → List (ℕ × List Bytes)
  without seq [] = []
  without seq ((slot, logs) ∷ responses) = (slot, other_logs seq logs) ∷ without seq responses

module _ (from_str : Bytes → Option Bytes) {σ : Type 0}
    (submit : TransactionType → σ → Bool × σ) where
  handle_log-known :
      (seq slot : ℕ) (log : Bytes) (state : IndexerStore × σ)
      → is_other seq (deposit_of from_str log) ≡ false
      → is_deposit_processed seq state.0 ≡ true
      → handle_log from_str submit slot log state ≡ state
  unfolding handle_log handle_deposit deposit_of
  handle_log-known seq slot log (s, service) same done =
      elim (Option-cases (deposit_of from_str log)) [
        | inl nothing ↦ rw nothing refl
        | inr (event, is_event) ↦
            rw (is_event, is_other_same seq event s (sym (ap (is_other seq) is_event) ∙ same) done)
              refl
      ]

  handle_logs-without :
      (seq slot : ℕ) (logs : List Bytes) (state : IndexerStore × σ)
      → is_deposit_processed seq state.0 ≡ true
      → (handle_logs from_str submit slot logs state
          ≡ handle_logs from_str submit slot (other_logs from_str seq logs) state)
        × (is_deposit_processed seq (handle_logs from_str submit slot logs state).0 ≡ true)
  unfolding handle_logs
  handle_logs-without seq slot [] state done = (refl, done)
  handle_logs-without seq slot (log ∷ logs) state done =
      elim (Bool-cases (is_other seq (deposit_of from_str log))) [
        | inl other ↦ rw other (
            handle_logs-without seq slot logs (handle_log from_str submit slot log state)
              (handle_log-processed from_str submit slot seq log state done))
        | inr same ↦ rw same (
            subst
              (λ after.
                (handle_logs from_str submit slot logs after
                  ≡ handle_logs from_str submit slot (other_logs from_str seq logs) state)
                × (is_deposit_processed seq (handle_logs from_str submit slot logs after).0 ≡ true))
              (sym (handle_log-known seq slot log state same done))
              (handle_logs-without seq slot logs state done))
      ]

  run_subscription-without :
      (seq : ℕ) (responses : List (ℕ × List Bytes)) (state : IndexerStore × σ)
      → is_deposit_processed seq state.0 ≡ true
      → run_subscription from_str submit responses state
        ≡ run_subscription from_str submit (without from_str seq responses) state
  unfolding run_subscription
  run_subscription-without seq [] state done = refl
  run_subscription-without seq ((slot, logs) ∷ responses) state done =
      let (same, still) = handle_logs-without seq slot logs state done in
      run_subscription-without seq responses (handle_logs from_str submit slot logs state) still
      ∙ ap (run_subscription from_str submit (without from_str seq responses)) same

  handle_log-accepted :
      (slot : ℕ) (log : Bytes) (event : DepositEvent) (s : IndexerStore) (service : σ)
      → deposit_of from_str log ≡ some event
      → is_deposit_processed event.l1_seq s ≡ false
      → (submit (deposit event) service).0 ≡ true
      → handle_log from_str submit slot log (s, service)
        ≡ (record_deposit slot event s true, (submit (deposit event) service).1)
  unfolding handle_log handle_deposit deposit_of
  handle_log-accepted slot log event s service is_event new accepted =
      rw (is_event, new, accepted) refl

  -- Once the service has accepted a new deposit, any later notifications leave the indexer's rows
  -- and the service as the same notifications without the deposits under its number do, whoever
  -- made those and of whatever amount.
  pub run_subscription-numbered :
      (slot : ℕ) (log : Bytes) (event : DepositEvent) (responses : List (ℕ × List Bytes))
      (s : IndexerStore) (service : σ)
      → deposit_of from_str log ≡ some event
      → is_deposit_processed event.l1_seq s ≡ false
      → (submit (deposit event) service).0 ≡ true
      → run_subscription from_str submit ((slot, log ∷ []) ∷ responses) (s, service)
        ≡ run_subscription from_str submit
            (without from_str event.l1_seq responses)
            (record_deposit slot event s true, (submit (deposit event) service).1)
  unfolding run_subscription handle_logs
  run_subscription-numbered slot log event responses s service is_event new accepted =
      ap (run_subscription from_str submit responses)
        (handle_log-accepted slot log event s service is_event new accepted)
      ∙ run_subscription-without event.l1_seq responses _ marked
    where
      marked : is_deposit_processed event.l1_seq (record_deposit slot event s true) ≡ true
      marked = ground (
        arith,
        is_deposit_processed-record_deposit slot event.l1_seq event s,
        ==_refl event.l1_seq,
      )
