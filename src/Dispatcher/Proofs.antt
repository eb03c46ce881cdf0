-- ===== src/Dispatcher/Proofs.antt =====
-- The proofs that a dispatch returns.
use zelana.Base.{
  ℕ, suc, ◌%◌, ◌<◌, ◌≡◌, refl, ap, ◌∙◌, false, List, [], ◌∷◌, Bytes, length, get_or, nat_beq,
  if◌then◌else◌, u32_mod, arith,
}
use zelana.Dispatcher.{
  Batch, BatchTransaction, compute_intermediate_roots, no_chunks, Chunk, ChunkProof, BatchProofs,
  Hashing, Answer, Outcome, success, Dispatched, ok, err, panic, dispatch_chunk, assign, outcomes,
  proofs_of, errors_of, insert_by_chunk, sort_by_chunk, collect, slice_batch, slice_from,
  chunks_from, count_workers, dispatch_batch,
}
use zelana.Dispatcher.Slices.{IdsFrom, slice_batch_lem}

-- The proofs bear the numbers from one on.
abbrev pub ProofsFrom : ℕ → List ChunkProof → Type 0
ProofsFrom i [] = Unit
ProofsFrom i (p ∷ ps) = (p.chunk_id ≡ i) × ProofsFrom (suc i) ps

-- Every worker answers every chunk with a proof under its number.
abbrev pub Honest : (Bytes → Chunk → Answer) → Type 0
Honest worker =
    (url : Bytes) (c : Chunk)
    → (p : ChunkProof) × (worker url c ≡ success p) × (p.chunk_id ≡ c.chunk_id)

sort_id : (i : ℕ) (ps : List ChunkProof) → ProofsFrom i ps → sort_by_chunk ps ≡ ps
unfolding sort_by_chunk insert_by_chunk
sort_id i [] h = refl
sort_id i (p ∷ []) h = refl
sort_id i (p ∷ q ∷ ps) h =
    ap (insert_by_chunk p) (sort_id (suc i) (q ∷ ps) h.1) ∙ ground (arith, h.0, h.1.0)

module _ (worker : Bytes → Chunk → Answer) (honest : Honest worker) (urls : List Bytes) where
  all_proved :
      (i k : ℕ) (cs : List Chunk)
      → IdsFrom k cs
      → (ps : List ChunkProof) × (errors_of (outcomes worker (assign urls i cs)) ≡ [])
        × (proofs_of (outcomes worker (assign urls i cs)) ≡ ps)
        × ProofsFrom k ps
        × (length ps ≡ length cs)
  unfolding outcomes assign errors_of proofs_of dispatch_chunk
  all_proved i k [] ids = ([], refl, refl, tt, refl)
  all_proved i k (c ∷ cs) ids =
      let (p, answer, numbered) = honest (get_or urls (i % length urls) []) c in
      let (ps, none_failed, there, from, len) = all_proved (suc i) (suc k) cs ids.1 in
      (
        p ∷ ps,
        ground (arith, answer, none_failed),
        ground (arith, answer, there),
        (numbered ∙ ids.0, from),
        ap suc len,
      )

some_slice :
    (roots : List Bytes) (size : ℕ) (txs : List BatchTransaction)
    → 0 < length txs
    → 0 < length (slice_from roots 0 (chunks_from (length txs) size txs))
unfolding slice_from chunks_from
some_slice roots size [] h = absurd (omega (arith, h))
some_slice roots size (tx ∷ txs) h = omega arith

some_chunk :
    (H : Hashing) (batch : Batch) (size : ℕ)
    → 0 < length batch.transactions
    → 0 < length (slice_batch H batch size)
unfolding slice_batch
some_chunk H batch size h =
    some_slice (compute_intermediate_roots H batch.initial_root batch.transactions size) size
      batch.transactions h

-- The part of a dispatch that follows the slices.
dispatch_slices :
    (worker : Bytes → Chunk → Answer) (urls : List Bytes) (time : ℕ) (id : Bytes) (cs : List Chunk)
    → 0 < length urls
    → 0 < length cs
    → elim cs as (λ x. Dispatched) [
      | [] ↦ err no_chunks
      | chunk ∷ chunks ↦
          if nat_beq (length urls) 0
          then panic
          else collect id time (outcomes worker (assign urls 0 (chunk ∷ chunks)))
    ]
      ≡ collect id time (outcomes worker (assign urls 0 cs))
dispatch_slices worker urls time id [] there some = absurd (omega (arith, some))
dispatch_slices worker urls time id (c ∷ cs) there some =
    let e : nat_beq (length urls) 0 ≡ false = ground (arith, there) in rw e

collected :
    (id : Bytes) (time : ℕ) (results : List Outcome) (ps : List ChunkProof)
    → errors_of results ≡ []
    → proofs_of results ≡ ps
    → ProofsFrom 0 ps
    → collect id time results
      ≡ ok (record {
        batch_id = id;
        proofs = ps;
        total_time_ms = time;
        workers_used = count_workers [] ps;
      })
unfolding collect
collected id time results ps none_failed proofs from =
    ground (arith, none_failed, proofs, sort_id 0 ps from)

-- Where there are workers and every one answers every chunk with a proof under its number, the
-- dispatch of a batch that has transactions, fewer than 2^32, succeeds for a chunk size of at
-- least one, with one proof for each chunk in the order of the chunks.
pub dispatch_batch-Honest :
    (H : Hashing) (worker : Bytes → Chunk → Answer) (urls : List Bytes) (time : ℕ) (batch : Batch)
    (size : ℕ)
    → Honest worker
    → 0 < length urls
    → 0 < length batch.transactions
    → 0 < size
    → length batch.transactions < u32_mod
    → (p : BatchProofs) × (dispatch_batch H worker urls time batch size ≡ ok p)
      × ProofsFrom 0 p.proofs
      × (length p.proofs ≡ length (slice_batch H batch size))
unfolding dispatch_batch
dispatch_batch-Honest H worker urls time batch size honest there some pos few =
    let ids = (slice_batch_lem H batch size pos few).1 in
    let (ps, none_failed, proofs, from, len) =
      all_proved worker honest urls 0 0 (slice_batch H batch size) ids in
    (
      record {
        batch_id = batch.batch_id;
        proofs = ps;
        total_time_ms = time;
        workers_used = count_workers [] ps;
      },
      dispatch_slices worker urls time batch.batch_id (slice_batch H batch size) there
            (some_chunk H batch size some)
          ∙ collected batch.batch_id time
              (outcomes worker (assign urls 0 (slice_batch H batch size))) ps none_failed proofs
              from,
      from,
      len,
    )
