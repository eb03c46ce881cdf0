-- ===== src/Withdrawals/Stats.antt =====
-- The statistics count every withdrawal once.
use zelana.Base.{ℕ, ◌+◌, ◌≡◌, [], ◌∷◌, Bytes, length, arith}
use zelana.Base.Dict.{Dict}
use zelana.Withdrawals.{
  TrackedWithdrawal, WithdrawalStats, WithdrawalQueue, tally, tally_all, stats, values_if,
  is_pending, get_pending, pending_count, total_pending_amount,
}

abbrev counted : WithdrawalStats → ℕ
counted s = s.pending + s.in_batch + s.submitted + s.finalized + s.failed

tally_all_lem :
    (ws : Dict Bytes TrackedWithdrawal) (s : WithdrawalStats)
    → (counted (tally_all ws s) ≡ counted s + length ws)
      × ((tally_all ws s).pending ≡ s.pending + length (values_if (λ w. is_pending w.state) ws))
      × ((tally_all ws s).total_pending_amount ≡ s.total_pending_amount)
unfolding tally_all tally values_if
tally_all_lem [] s = ground arith
tally_all_lem ((h, w) ∷ ws) s = ground (arith, tally_all_lem ws (tally w.state s))

-- The five counts of the statistics add up to the number of withdrawals in the queue, and the
-- count of the pending ones and the unpaid amount are those that the queue reports itself.
pub stats_lem :
    (q : WithdrawalQueue)
    → let s = stats q in
      (s.pending + s.in_batch + s.submitted + s.finalized + s.failed ≡ length q.withdrawals)
      × (s.pending ≡ pending_count q)
      × (s.total_pending_amount ≡ total_pending_amount q)
unfolding stats pending_count get_pending
stats_lem q = ground (
  arith,
  tally_all_lem q.withdrawals (record {
    pending = 0;
    in_batch = 0;
    submitted = 0;
    finalized = 0;
    failed = 0;
    total_pending_amount = total_pending_amount q;
  }),
)
