-- ===== src/Threshold/Mempool/Numbers.antt =====
-- The sequence numbers of ordered transactions while none has wrapped (order_pending of
-- sdk/threshold/src/encrypted_tx.rs).
use zelana.Base.{
  ℕ, suc, ◌+◌, ◌%◌, u64_mod, ◌≤◌, ◌<◌, ◌≡◌, ◌∙◌, Bool, Bool-cases, inl, inr, List, [], ◌∷◌, ◌++◌,
  length, keep_if, arith,
}
use zelana.Threshold.Transactions.{EncryptedTransaction}
use zelana.Threshold.Mempool.{OrderedEncryptedTx, number_from, number_after}

-- The sequence numbers rise strictly, from a number on.
abbrev pub Rising : ℕ → List OrderedEncryptedTx → Type 0
Rising low [] = Unit
Rising low (o ∷ os) = (low ≤ o.sequence) × Rising (suc o.sequence) os

abbrev pub AllBelow : ℕ → List OrderedEncryptedTx → Type 0
AllBelow next [] = Unit
AllBelow next (o ∷ os) = (o.sequence < next) × AllBelow next os

Rising-le : (a b : ℕ) (os : List OrderedEncryptedTx) → a ≤ b → Rising b os → Rising a os
Rising-le a b [] h r = tt
Rising-le a b (o ∷ os) h r = (omega (arith, h, r.0), r.1)

pub keep_if-Rising :
    (p : OrderedEncryptedTx → Bool) (low : ℕ) (os : List OrderedEncryptedTx)
    → Rising low os
    → Rising low (keep_if p os)
keep_if-Rising p low [] r = tt
keep_if-Rising p low (o ∷ os) r = elim (Bool-cases (p o)) [
  | inl kept ↦ rw kept (r.0, keep_if-Rising p (suc o.sequence) os r.1)
  | inr dropped ↦
      rw dropped
        (keep_if-Rising p low os (Rising-le low (suc o.sequence) os (omega (arith, r.0)) r.1))
]

pub keep_if-AllBelow :
    (p : OrderedEncryptedTx → Bool) (next : ℕ) (os : List OrderedEncryptedTx)
    → AllBelow next os
    → AllBelow next (keep_if p os)
keep_if-AllBelow p next [] b = tt
keep_if-AllBelow p next (o ∷ os) b = elim (Bool-cases (p o)) [
  | inl kept ↦ rw kept (b.0, keep_if-AllBelow p next os b.1)
  | inr dropped ↦ rw dropped (keep_if-AllBelow p next os b.1)
]

next_number : (n : ℕ) → suc n < u64_mod → (n + 1) % u64_mod ≡ suc n
next_number n h = omega (arith, h)

pub number_from-Rising :
    (batch_id next : ℕ) (txs : List EncryptedTransaction)
    → next + length txs < u64_mod
    → Rising next (number_from batch_id next txs)
unfolding number_from
number_from-Rising batch_id next [] h = tt
number_from-Rising batch_id next (tx ∷ txs) h =
    rw (next_number next (omega (arith, h)))
      (omega arith, number_from-Rising batch_id (suc next) txs (omega (arith, h)))

pub number_from-AllBelow :
    (batch_id next end : ℕ) (txs : List EncryptedTransaction)
    → next + length txs ≤ end
    → end < u64_mod
    → AllBelow end (number_from batch_id next txs)
unfolding number_from
number_from-AllBelow batch_id next end [] h fits = tt
number_from-AllBelow batch_id next end (tx ∷ txs) h fits =
    rw (next_number next (omega (arith, h, fits)))
      (omega (arith, h), number_from-AllBelow batch_id (suc next) end txs (omega (arith, h)) fits)

pub number_after_exact :
    (next : ℕ) (txs : List EncryptedTransaction)
    → next + length txs < u64_mod
    → number_after next txs ≡ next + length txs
unfolding number_after
number_after_exact next [] h = omega arith
number_after_exact next (tx ∷ txs) h =
    rw (next_number next (omega (arith, h)))
      (number_after_exact (suc next) txs (omega (arith, h)) ∙ omega arith)

pub append-Rising :
    (low next : ℕ) (os later : List OrderedEncryptedTx)
    → low ≤ next
    → Rising low os
    → AllBelow next os
    → Rising next later
    → Rising low (os ++ later)
append-Rising low next [] later h r b l = Rising-le low next later h l
append-Rising low next (o ∷ os) later h r b l =
    (r.0, append-Rising (suc o.sequence) next os later b.0 r.1 b.1 l)

pub append-AllBelow :
    (next end : ℕ) (os later : List OrderedEncryptedTx)
    → next ≤ end
    → AllBelow next os
    → AllBelow end later
    → AllBelow end (os ++ later)
append-AllBelow next end [] later h b l = l
append-AllBelow next end (o ∷ os) later h b l =
    (omega (arith, h, b.0), append-AllBelow next end os later h b.1 l)
