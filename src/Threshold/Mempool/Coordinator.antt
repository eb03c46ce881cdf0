-- ===== src/Threshold/Mempool/Coordinator.antt =====
-- Which of the shares that were submitted for a transaction decide its decryption.
use zelana.Base.{
  ℕ, zero, suc, ◌≤◌, ◌≡◌, refl, ap, Bool-cases, inl, inr, Option-cases, true, List, [], ◌∷◌, ◌++◌,
  Bytes, length, length-append, take, ◌==◌, ==_iff, bytes_eq, arith,
}
use zelana.Base.Dict.{lookup, lookup-insert}
use zelana.Threshold.Shares.{Share, combine_shares}
use zelana.Threshold.Committee.{Sealing}
use zelana.Threshold.Transactions.{EncryptedTransaction, decrypt_transaction}
use zelana.Threshold.Mempool.{
  DecryptionCoordinator, submit_share, can_decrypt, shares_or_none, try_decrypt,
}

take_enough :
    (n : ℕ) (shares : List Share) (late : Share)
    → n ≤ length shares
    → take n (shares ++ late ∷ []) ≡ take n shares
take_enough zero shares late h = refl
take_enough (suc n) [] late h = absurd (omega (arith, h))
take_enough (suc n) (s ∷ shares) late h =
    ap (λ r. s ∷ r) (take_enough n shares late (omega (arith, h)))

combine_late :
    (threshold : ℕ) (shares : List Share) (late : Share)
    → threshold ≤ length shares
    → combine_shares (shares ++ late ∷ []) threshold ≡ combine_shares shares threshold
unfolding combine_shares
combine_late threshold shares late h =
    ground (arith, take_enough threshold shares late h, length-append shares (late ∷ []))

decrypt_late :
    (S : Sealing) (tx : EncryptedTransaction) (threshold : ℕ) (shares : List Share) (late : Share)
    → threshold ≤ length shares
    → decrypt_transaction S tx (shares ++ late ∷ []) threshold
      ≡ decrypt_transaction S tx shares threshold
unfolding decrypt_transaction
decrypt_late S tx threshold shares late h = ground (arith, combine_late threshold shares late h)

-- The shares that came first decide: once there are as many for a transaction as the threshold, no
-- further share changes what it is decrypted to, and a share never changes another transaction.
pub try_decrypt-submit_share :
    (S : Sealing) (c : DecryptionCoordinator) (tx_id : Bytes) (share : Share)
    (tx : EncryptedTransaction)
    → (tx_id ≡ tx.tx_id → can_decrypt c tx_id ≡ true)
    → try_decrypt S (submit_share tx_id share c) tx ≡ try_decrypt S c tx
unfolding try_decrypt submit_share can_decrypt
try_decrypt-submit_share S c tx_id share tx enough = elim (Bool-cases (tx_id == tx.tx_id)) [
  | inl same ↦
      let e : tx_id ≡ tx.tx_id = (==_iff tx_id tx.tx_id).0 same in
      elim (Option-cases (lookup tx_id c.collected_shares)) [
        | inl fresh ↦ absurd (ground (arith, fresh, enough e))
        | inr (shares, old) ↦ ground (
          arith,
          old,
          enough e,
          e,
          same,
          lookup-insert tx_id tx.tx_id (shares ++ share ∷ []) c.collected_shares,
          decrypt_late S tx c.threshold shares share,
        )
      ]
  | inr other ↦ ground (
    arith,
    other,
    lookup-insert tx_id tx.tx_id (shares_or_none (lookup tx_id c.collected_shares) ++ share ∷ [])
        c.collected_shares,
  )
]
