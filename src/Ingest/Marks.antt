-- ===== src/Ingest/Marks.antt =====
-- What stays marked as processed (handling of a log line in run_subscription of
-- core/src/sequencer/bridge/ingest.rs).
use zelana.Base.{
  ℕ, ◌≡◌, Bool, true, false, ◌||◌, Option, Bytes, arith, Bool-cases, Option-cases, inl, inr, nat_eq,
  ◌==◌,
}
use zelana.Base.Dict.{has_key, lookup-insert}
use zelana.Router.Types.{DepositEvent, TransactionType, deposit}
use zelana.Ingest.{
  IndexerStore, is_deposit_processed, mark_deposit_processed, set_last_processed_slot,
  add_l1_deposit, deposit_of, record_deposit, handle_deposit, handle_log,
}

pub is_deposit_processed-record_deposit :
    (slot seq : ℕ) (event : DepositEvent) (s : IndexerStore)
    → is_deposit_processed seq (record_deposit slot event s true)
      ≡ (event.l1_seq == seq || is_deposit_processed seq s)
unfolding record_deposit is_deposit_processed mark_deposit_processed set_last_processed_slot
    add_l1_deposit has_key
is_deposit_processed-record_deposit slot seq event s =
    ground (arith, lookup-insert event.l1_seq seq slot s.processed_deposits)

record_deposit-processed :
    (slot seq : ℕ) (event : DepositEvent) (s : IndexerStore) (accepted : Bool)
    → is_deposit_processed seq s ≡ true
    → is_deposit_processed seq (record_deposit slot event s accepted) ≡ true
unfolding record_deposit
record_deposit-processed slot seq event s false done = done
record_deposit-processed slot seq event s true done =
    ground (arith, done, is_deposit_processed-record_deposit slot seq event s)

module _ (from_str : Bytes → Option Bytes) {σ : Type 0}
    (submit : TransactionType → σ → Bool × σ) where
  handle_deposit-processed :
      (slot seq : ℕ) (event : DepositEvent) (state : IndexerStore × σ)
      → is_deposit_processed seq state.0 ≡ true
      → is_deposit_processed seq (handle_deposit from_str submit slot event state).0 ≡ true
  unfolding handle_deposit
  handle_deposit-processed slot seq event (s, service) done =
      elim (Bool-cases (is_deposit_processed event.l1_seq s)) [
        | inl known ↦ rw known done
        | inr new ↦
            rw new
              (record_deposit-processed slot seq event s (submit (deposit event) service).0 done)
      ]

  pub handle_log-processed :
      (slot seq : ℕ) (log : Bytes) (state : IndexerStore × σ)
      → is_deposit_processed seq state.0 ≡ true
      → is_deposit_processed seq (handle_log from_str submit slot log state).0 ≡ true
  unfolding handle_log deposit_of
  handle_log-processed slot seq log state done = elim (Option-cases (deposit_of from_str log)) [
    | inl nothing ↦ rw nothing done
    | inr (event, is_event) ↦ rw is_event (handle_deposit-processed slot seq event state done)
  ]
