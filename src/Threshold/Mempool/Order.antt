-- ===== src/Threshold/Mempool/Order.antt =====
-- The order in which encrypted transactions are executed.
use mathlib.Core.Path.{subst}
use mathlib.Core.List.Perm
use mathlib.Core.List.{Perm}
use zelana.Base.{
  ℕ, suc, ◌+◌, ◌%◌, ◌∙◌, u64_mod, ◌≤◌, ◌<◌, ◌≡◌, refl, sym, ap, Bool-cases, inl, inr, List, [], ◌∷◌,
  ◌++◌, map, length, leb, arith,
}
use zelana.Threshold.Transactions.{EncryptedTransaction}
use zelana.Threshold.Mempool.{
  OrderedEncryptedTx, ThresholdMempoolState, insert_by_time, sort_by_time, number_from,
  number_after, order_pending, order_for_batch,
}

-- No transaction of the list was submitted before the time.
abbrev pub NotBefore : ℕ → List EncryptedTransaction → Type 0
NotBefore time [] = Unit
NotBefore time (tx ∷ txs) = (time ≤ tx.timestamp) × NotBefore time txs

abbrev pub InTime : List EncryptedTransaction → Type 0
InTime [] = Unit
InTime (tx ∷ txs) = NotBefore tx.timestamp txs × InTime txs

-- The sequence numbers are the naturals from one on, modulo 2^64, and all name the batch.
abbrev pub NumberedFrom : ℕ → ℕ → List OrderedEncryptedTx → Type 0
NumberedFrom batch_id start [] = Unit
NumberedFrom batch_id start (o ∷ os) =
    (o.sequence ≡ start % u64_mod) × (o.batch_id ≡ batch_id) × NumberedFrom batch_id (suc start) os

insert-NotBefore :
    (time : ℕ) (tx : EncryptedTransaction) (txs : List EncryptedTransaction)
    → time ≤ tx.timestamp
    → NotBefore time txs
    → NotBefore time (insert_by_time tx txs)
unfolding insert_by_time
insert-NotBefore time tx [] h n = (h, tt)
insert-NotBefore time tx (first ∷ txs) h n = elim (Bool-cases (leb tx.timestamp first.timestamp)) [
  | inl before ↦ rw before (h, n)
  | inr behind ↦ rw behind (n.0, insert-NotBefore time tx txs h n.1)
]

NotBefore-le :
    (a b : ℕ) (txs : List EncryptedTransaction) → a ≤ b → NotBefore b txs → NotBefore a txs
NotBefore-le a b [] h n = tt
NotBefore-le a b (tx ∷ txs) h n = (omega (arith, h, n.0), NotBefore-le a b txs h n.1)

insert-InTime :
    (tx : EncryptedTransaction) (txs : List EncryptedTransaction)
    → InTime txs
    → InTime (insert_by_time tx txs)
unfolding insert_by_time
insert-InTime tx [] s = (tt, tt)
insert-InTime tx (first ∷ txs) s = elim (Bool-cases (leb tx.timestamp first.timestamp)) [
  | inl before ↦ rw before (
      (
        (
          ground (arith, before),
          NotBefore-le tx.timestamp first.timestamp txs (ground (arith, before)) s.0,
        ),
        s,
      ))
  | inr behind ↦ rw behind (
      (
        insert-NotBefore first.timestamp tx txs (ground (arith, behind)) s.0,
        insert-InTime tx txs s.1,
      ))
]

insert-perm :
    (tx : EncryptedTransaction) (txs : List EncryptedTransaction)
    → Perm (insert_by_time tx txs) (tx ∷ txs)
unfolding insert_by_time
insert-perm tx [] = Perm.refl (tx ∷ [])
insert-perm tx (first ∷ txs) = elim (Bool-cases (leb tx.timestamp first.timestamp)) [
  | inl before ↦ rw before (Perm.refl (tx ∷ first ∷ txs))
  | inr behind ↦
      rw behind (Perm.trans (Perm.cons first (insert-perm tx txs)) (Perm.swap tx first txs))
]

sort-InTime : (txs : List EncryptedTransaction) → InTime (sort_by_time txs)
unfolding sort_by_time
sort-InTime [] = tt
sort-InTime (tx ∷ txs) = insert-InTime tx (sort_by_time txs) (sort-InTime txs)

sort-perm : (txs : List EncryptedTransaction) → Perm (sort_by_time txs) txs
unfolding sort_by_time
sort-perm [] = Perm.refl []
sort-perm (tx ∷ txs) = Perm.trans (insert-perm tx (sort_by_time txs)) (Perm.cons tx (sort-perm txs))

abbrev pub transactions : List OrderedEncryptedTx → List EncryptedTransaction
transactions os = map (λ (o : OrderedEncryptedTx). o.encrypted_tx) os

transactions-number_from :
    (batch_id sequence : ℕ) (txs : List EncryptedTransaction)
    → transactions (number_from batch_id sequence txs) ≡ txs
unfolding number_from
transactions-number_from batch_id sequence [] = refl
transactions-number_from batch_id sequence (tx ∷ txs) =
    ap (λ r. tx ∷ r) (transactions-number_from batch_id ((sequence + 1) % u64_mod) txs)

number_from-NumberedFrom :
    (batch_id start sequence : ℕ) (txs : List EncryptedTransaction)
    → sequence ≡ start % u64_mod
    → NumberedFrom batch_id start (number_from batch_id sequence txs)
unfolding number_from
number_from-NumberedFrom batch_id start sequence [] e = tt
number_from-NumberedFrom batch_id start sequence (tx ∷ txs) e = (
  e,
  refl,
  number_from-NumberedFrom batch_id (suc start) ((sequence + 1) % u64_mod) txs (omega (arith, e)),
)

number_after_lem :
    (start sequence : ℕ) (txs : List EncryptedTransaction)
    → sequence ≡ start % u64_mod
    → number_after sequence txs ≡ (start + length txs) % u64_mod
unfolding number_after
number_after_lem start sequence [] e = omega (arith, e)
number_after_lem start sequence (tx ∷ txs) e =
    number_after_lem (suc start) ((sequence + 1) % u64_mod) txs (omega (arith, e))
    ∙ ap (λ n. n % u64_mod) (omega arith)

length-insert :
    (tx : EncryptedTransaction) (txs : List EncryptedTransaction)
    → length (insert_by_time tx txs) ≡ suc (length txs)
unfolding insert_by_time
length-insert tx [] = refl
length-insert tx (first ∷ txs) = ground (arith, length-insert tx txs)

pub length-sort : (txs : List EncryptedTransaction) → length (sort_by_time txs) ≡ length txs
unfolding sort_by_time
length-sort [] = refl
length-sort (tx ∷ txs) = length-insert tx (sort_by_time txs) ∙ ap suc (length-sort txs)

-- Where the next sequence number is one of 64 bits, ordering takes every pending transaction once,
-- in the order of their times of submission and with the sequence numbers from the next one on,
-- one after the other and modulo 2^64; it empties the pool, puts them behind those ordered before,
-- and moves the next number on by their count, modulo 2^64.
pub order_for_batch_lem :
    (batch_id : ℕ) (s : ThresholdMempoolState)
    → s.mempool.next_sequence < u64_mod
    → let (s', ordered) = order_for_batch batch_id s in
      Perm (transactions ordered) s.mempool.pending
      × InTime (transactions ordered)
      × NumberedFrom batch_id s.mempool.next_sequence ordered
      × (s'.mempool.pending ≡ [])
      × (s'.mempool.ordered ≡ s.mempool.ordered ++ ordered)
      × (s'.mempool.next_sequence ≡ (s.mempool.next_sequence + length s.mempool.pending) % u64_mod)
unfolding order_for_batch order_pending
order_for_batch_lem batch_id s fits =
    let there =
      transactions-number_from batch_id s.mempool.next_sequence (sort_by_time s.mempool.pending) in
    (
      subst (λ txs. Perm txs s.mempool.pending) (sym there) (sort-perm s.mempool.pending),
      subst InTime (sym there) (sort-InTime s.mempool.pending),
      number_from-NumberedFrom batch_id s.mempool.next_sequence s.mempool.next_sequence
          (sort_by_time s.mempool.pending) word,
      refl,
      refl,
      number_after_lem s.mempool.next_sequence s.mempool.next_sequence
            (sort_by_time s.mempool.pending) word
          ∙ ap (λ n. (s.mempool.next_sequence + n) % u64_mod) (length-sort s.mempool.pending),
    )
  where
    word : s.mempool.next_sequence ≡ s.mempool.next_sequence % u64_mod
    word = omega (arith, fits)
