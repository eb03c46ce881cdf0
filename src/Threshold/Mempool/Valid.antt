-- ===== src/Threshold/Mempool/Valid.antt =====
-- What holds of the sequencer's encrypted mempool after any calls.
use zelana.Base.{
  ℕ, ◌+◌, u64_mod, ◌≤◌, ◌<◌, ◌≡◌, ap, ◌∙◌, not, Bool-cases, inl, inr, some, List, [], ◌∷◌, Bytes,
  length, length-append, leb, nat_beq, arith,
}
use zelana.Threshold.Shares.{Share}
use zelana.Threshold.Committee.{Committee}
use zelana.Threshold.Transactions.{EncryptedTransaction}
use zelana.Threshold.Mempool.Order.{length-sort}
use zelana.Threshold.Mempool.Numbers.{
  Rising, AllBelow, keep_if-Rising, keep_if-AllBelow, number_from-Rising, number_from-AllBelow,
  number_after_exact, append-Rising, append-AllBelow,
}
use zelana.Threshold.Mempool.{
  ThresholdMempoolState, EncryptedMempoolConfig, Added, added, refused, epoch_fits, new_state,
  add_encrypted_tx, sort_by_time, number_from, order_for_batch, clear_batch, submit_share,
}

-- The calls that change the state.
pub data Call : Type 0 where
  adds : EncryptedTransaction → Call
  orders : ℕ → Call
  clears : ℕ → Call
  submits : Bytes → Share → Call
  initializes : Committee → Call

abbrev pub kept_or : ThresholdMempoolState → Added → ThresholdMempoolState
kept_or s (added s') = s'
kept_or s (refused e) = s

pub call : Call → ThresholdMempoolState → ThresholdMempoolState
unfolding add_encrypted_tx order_for_batch clear_batch submit_share
call (adds tx) s = kept_or s (add_encrypted_tx tx s)
call (orders batch_id) s = (order_for_batch batch_id s).0
call (clears batch_id) s = record s { mempool = clear_batch batch_id s.mempool }
call (submits tx_id share) s = record s { coordinator = submit_share tx_id share s.coordinator }
call (initializes committee) s = record s { committee = some committee }

pub run : List Call → ThresholdMempoolState → ThresholdMempoolState
run [] s = s
run (c ∷ calls) s = run calls (call c s)

-- How many of the calls add a transaction, with or without success.
abbrev pub adding : Call → ℕ
adding (adds tx) = 1
adding (orders batch_id) = 0
adding (clears batch_id) = 0
adding (submits tx_id share) = 0
adding (initializes committee) = 0

abbrev pub count_adds : List Call → ℕ
count_adds [] = 0
count_adds (c ∷ calls) = adding c + count_adds calls

-- The sequence numbers that were given, and those that the pending transactions will need.
abbrev numbers_needed : ThresholdMempoolState → ℕ
numbers_needed s = s.mempool.next_sequence + length s.mempool.pending

pub record IsValid (s : ThresholdMempoolState) : Type 0 where
  pub bounded : length s.mempool.pending ≤ s.config.max_pending
  pub rising : Rising 0 s.mempool.ordered
  pub below : AllBelow s.mempool.next_sequence s.mempool.ordered

next_sequence-orders :
    (batch_id : ℕ) (s : ThresholdMempoolState)
    → numbers_needed s < u64_mod
    → (call (orders batch_id) s).mempool.next_sequence ≡ numbers_needed s
unfolding call
next_sequence-orders batch_id s h =
    number_after_exact s.mempool.next_sequence (sort_by_time s.mempool.pending)
      (omega (arith, h, length-sort s.mempool.pending))
    ∙ ap (λ n. s.mempool.next_sequence + n) (length-sort s.mempool.pending)

-- A transaction that is added, and what happens otherwise.
add-IsValid :
    (tx : EncryptedTransaction) (s : ThresholdMempoolState)
    → IsValid s
    → IsValid (kept_or s (add_encrypted_tx tx s))
unfolding add_encrypted_tx
add-IsValid tx s v = elim (Bool-cases (leb s.config.max_pending (length s.mempool.pending))) [
  | inl full ↦ rw full v
  | inr room ↦ elim (Bool-cases (epoch_fits s.committee tx.epoch)) [
    | inl fits ↦
        rw (room, fits)
          record {
            bounded = ground (arith, room, length-append s.mempool.pending (tx ∷ []));
            rising = v.rising;
            below = v.below;
          }
    | inr stale ↦ rw (room, stale) v
  ]
]

orders-IsValid :
    (batch_id : ℕ) (s : ThresholdMempoolState)
    → IsValid s
    → numbers_needed s < u64_mod
    → IsValid (call (orders batch_id) s)
unfolding call
orders-IsValid batch_id s v h =
    let txs = sort_by_time s.mempool.pending in
    let next = s.mempool.next_sequence in
    let ordered = number_from batch_id next txs in
    record {
      bounded = omega arith;
      rising =
          append-Rising 0 next s.mempool.ordered ordered (omega arith) v.rising v.below (
            number_from-Rising batch_id next txs (omega (arith, h, length-sort s.mempool.pending)));
      below = rw (next_sequence-orders batch_id s h) (
          append-AllBelow next (numbers_needed s) s.mempool.ordered ordered (omega arith) v.below (
            number_from-AllBelow batch_id next (numbers_needed s) txs
              (omega (arith, length-sort s.mempool.pending)) h));
    }

call-IsValid :
    (c : Call) (s : ThresholdMempoolState)
    → IsValid s
    → numbers_needed s < u64_mod
    → IsValid (call c s)
unfolding call
call-IsValid (adds tx) s v h = add-IsValid tx s v
call-IsValid (orders batch_id) s v h = orders-IsValid batch_id s v h
call-IsValid (clears batch_id) s v h = record {
  bounded = v.bounded;
  rising = keep_if-Rising (λ tx. not (nat_beq tx.batch_id batch_id)) 0 s.mempool.ordered v.rising;
  below =
      keep_if-AllBelow (λ tx. not (nat_beq tx.batch_id batch_id)) s.mempool.next_sequence
        s.mempool.ordered v.below;
}
call-IsValid (submits tx_id share) s v h = record {
  bounded = v.bounded;
  rising = v.rising;
  below = v.below;
}
call-IsValid (initializes committee) s v h = record {
  bounded = v.bounded;
  rising = v.rising;
  below = v.below;
}

numbers_needed-add :
    (tx : EncryptedTransaction) (s : ThresholdMempoolState)
    → numbers_needed (kept_or s (add_encrypted_tx tx s)) ≤ 1 + numbers_needed s
unfolding add_encrypted_tx
numbers_needed-add tx s = elim (Bool-cases (leb s.config.max_pending (length s.mempool.pending))) [
  | inl full ↦ rw full (omega arith)
  | inr room ↦ elim (Bool-cases (epoch_fits s.committee tx.epoch)) [
    | inl fits ↦ rw (room, fits) (omega (arith, length-append s.mempool.pending (tx ∷ [])))
    | inr stale ↦ rw (room, stale) (omega arith)
  ]
]

numbers_needed-call :
    (c : Call) (s : ThresholdMempoolState)
    → numbers_needed s < u64_mod
    → numbers_needed (call c s) ≤ adding c + numbers_needed s
unfolding call
numbers_needed-call (adds tx) s h = numbers_needed-add tx s
numbers_needed-call (orders batch_id) s h = omega (arith, next_sequence-orders batch_id s h)
numbers_needed-call (clears batch_id) s h = omega arith
numbers_needed-call (submits tx_id share) s h = omega arith
numbers_needed-call (initializes committee) s h = omega arith

run_keeps :
    (calls : List Call) (s : ThresholdMempoolState)
    → IsValid s
    → count_adds calls + numbers_needed s < u64_mod
    → IsValid (run calls s)
unfolding run
run_keeps [] s v h = v
run_keeps (c ∷ calls) s v h =
    run_keeps calls (call c s) (call-IsValid c s v (omega (arith, h)))
      (omega (arith, h, numbers_needed-call c s))

-- After any calls on a new mempool, fewer than 2^64 of which add a transaction, no more
-- transactions are pending than are allowed, and the ordered ones have strictly rising sequence
-- numbers below the next one.
pub run-IsValid :
    (config : EncryptedMempoolConfig) (calls : List Call)
    → count_adds calls < u64_mod
    → IsValid (run calls (new_state config))
unfolding new_state
run-IsValid config calls few =
    run_keeps calls (new_state config) (record { bounded = omega arith; rising = tt; below = tt })
      (omega (arith, few))
