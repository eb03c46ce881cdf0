-- ===== src/Dispatcher/Slices.antt =====
-- What the slices of a batch are.
use zelana.Base.{
  ℕ, zero, suc, ◌+◌, ◌≤◌, ◌<◌, ◌≡◌, refl, ap, ◌∙◌, List, [], ◌∷◌, ◌++◌, Bytes, length, get_or, take,
  drop, u32_mod, arith,
}
use zelana.Dispatcher.{
  Batch, BatchTransaction, Chunk, Hashing, chunks_from, next_root, roots_from,
  compute_intermediate_roots, slice_from, slice_batch,
}

-- The transactions of the chunks, in their order.
abbrev pub transactions_of : List Chunk → List BatchTransaction
transactions_of [] = []
transactions_of (c ∷ cs) = c.transactions ++ transactions_of cs

-- Each chunk starts from the root where the one before it ended, the first from the given one.
abbrev pub Chained : Hashing → Bytes → List Chunk → Type 0
Chained H root [] = Unit
Chained H root (c ∷ cs) =
    (c.pre_root ≡ root)
    × (c.post_root ≡ next_root H root c.transactions)
    × Chained H (next_root H root c.transactions) cs

abbrev pub IdsFrom : ℕ → List Chunk → Type 0
IdsFrom i [] = Unit
IdsFrom i (c ∷ cs) = (c.chunk_id ≡ i) × IdsFrom (suc i) cs

-- No chunk is empty, and none is larger than the size.
abbrev pub AllSized : ℕ → List Chunk → Type 0
AllSized size [] = Unit
AllSized size (c ∷ cs) =
    (0 < length c.transactions) × (length c.transactions ≤ size) × AllSized size cs

take-append-drop : (n : ℕ) (txs : List BatchTransaction) → take n txs ++ drop n txs ≡ txs
take-append-drop zero txs = refl
take-append-drop (suc n) [] = refl
take-append-drop (suc n) (tx ∷ txs) = ap (λ r. tx ∷ r) (take-append-drop n txs)

length-drop-le : (n : ℕ) (txs : List BatchTransaction) → length (drop n txs) ≤ length txs
length-drop-le zero txs = omega arith
length-drop-le (suc n) [] = omega arith
length-drop-le (suc n) (tx ∷ txs) = omega (arith, length-drop-le n txs)

length-take-le : (n : ℕ) (txs : List BatchTransaction) → length (take n txs) ≤ n
length-take-le zero txs = omega arith
length-take-le (suc n) [] = omega arith
length-take-le (suc n) (tx ∷ txs) = omega (arith, length-take-le n txs)

concat : List (List BatchTransaction) → List BatchTransaction
concat [] = []
concat (c ∷ cs) = c ++ concat cs

concat-chunks :
    (fuel size : ℕ) (txs : List BatchTransaction)
    → 0 < size
    → length txs ≤ fuel
    → concat (chunks_from fuel size txs) ≡ txs
unfolding concat chunks_from
concat-chunks fuel size [] p h = refl
concat-chunks zero size (tx ∷ txs) p h = absurd (omega (arith, h))
concat-chunks (suc fuel) zero (tx ∷ txs) p h = absurd (omega (arith, p))
concat-chunks (suc fuel) (suc size) (tx ∷ txs) p h =
    ap (λ r. (tx ∷ take size txs) ++ r)
      (concat-chunks fuel (suc size) (drop size txs) p (omega (arith, h, length-drop-le size txs)))
    ∙ ap (λ r. tx ∷ r) (take-append-drop size txs)

length-chunks :
    (fuel size : ℕ) (txs : List BatchTransaction) → length (chunks_from fuel size txs) ≤ fuel
unfolding chunks_from
length-chunks fuel size [] = omega arith
length-chunks zero size (tx ∷ txs) = omega arith
length-chunks (suc fuel) size (tx ∷ txs) =
    omega (arith, length-chunks fuel size (drop size (tx ∷ txs)))

transactions-slice :
    (roots : List Bytes) (i : ℕ) (cs : List (List BatchTransaction))
    → transactions_of (slice_from roots i cs) ≡ concat cs
unfolding slice_from concat
transactions-slice roots i [] = refl
transactions-slice roots i (c ∷ cs) = ap (λ r. c ++ r) (transactions-slice roots (suc i) cs)

slice-AllSized :
    (roots : List Bytes) (i fuel size : ℕ) (txs : List BatchTransaction)
    → 0 < size
    → AllSized size (slice_from roots i (chunks_from fuel size txs))
unfolding slice_from chunks_from
slice-AllSized roots i fuel size [] p = tt
slice-AllSized roots i zero size (tx ∷ txs) p = tt
slice-AllSized roots i (suc fuel) zero (tx ∷ txs) p = absurd (omega (arith, p))
slice-AllSized roots i (suc fuel) (suc size) (tx ∷ txs) p = (
  omega arith,
  omega (arith, length-take-le size txs),
  slice-AllSized roots (suc i) fuel (suc size) (drop size txs) p,
)

slice-IdsFrom :
    (roots : List Bytes) (i : ℕ) (cs : List (List BatchTransaction))
    → i + length cs < u32_mod
    → IdsFrom i (slice_from roots i cs)
unfolding slice_from
slice-IdsFrom roots i [] h = tt
slice-IdsFrom roots i (c ∷ cs) h =
    (omega (arith, h), slice-IdsFrom roots (suc i) cs (omega (arith, h)))

slice-Chained :
    (H : Hashing) (roots : List Bytes) (root : Bytes) (i : ℕ) (cs : List (List BatchTransaction))
    → ((j : ℕ) → get_or roots (i + j) [] ≡ get_or (root ∷ roots_from H root cs) j [])
    → Chained H root (slice_from roots i cs)
unfolding slice_from roots_from
slice-Chained H roots root i [] at = tt
slice-Chained H roots root i (c ∷ cs) at = (
  ap (λ j. get_or roots j []) (omega arith) ∙ at 0,
  ap (λ j. get_or roots j []) (omega arith) ∙ at 1,
  slice-Chained H roots (next_root H root c) (suc i) cs
      (λ j. ap (λ t. get_or roots t []) (omega arith) ∙ at (suc j)),
)

-- A batch is sliced, for a size of at least one and fewer than 2^32 transactions, into chunks that
-- are numbered from 0, have together the transactions of the batch in their order, from one to the
-- size in each, and whose roots form a chain from the initial root.
pub slice_batch_lem :
    (H : Hashing) (batch : Batch) (size : ℕ)
    → 0 < size
    → length batch.transactions < u32_mod
    → let cs = slice_batch H batch size in
      (transactions_of cs ≡ batch.transactions)
      × IdsFrom 0 cs
      × AllSized size cs
      × Chained H batch.initial_root cs
unfolding slice_batch compute_intermediate_roots
slice_batch_lem H batch size p few =
    let txs = batch.transactions in
    let roots = compute_intermediate_roots H batch.initial_root txs size in
    (
      transactions-slice roots 0 (chunks_from (length txs) size txs)
          ∙ concat-chunks (length txs) size txs p (omega arith),
      slice-IdsFrom roots 0 (chunks_from (length txs) size txs)
          (omega (arith, few, length-chunks (length txs) size txs)),
      slice-AllSized roots 0 (length txs) size txs p,
      slice-Chained H roots batch.initial_root 0 (chunks_from (length txs) size txs)
          (λ j. ap (λ t. get_or roots t []) (omega arith)),
    )
