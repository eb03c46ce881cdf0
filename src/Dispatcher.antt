-- ===== src/Dispatcher.antt =====
-- The dispatcher of the proving network, which slices a batch into chunks and has workers prove
-- them (forge/crates/prover-coordinator/src/dispatcher.rs). Texts are byte strings.
pub mod Slices
pub mod Proofs
pub mod Tests
use zelana.Base.{
  ℕ, zero, suc, ◌+◌, ◌%◌, Bool, true, false, Option, none, some, List, [], ◌∷◌, ◌++◌, map, Bytes,
  length, get_or, take, drop, ltb, leb, nat_beq, if◌then◌else◌, u32_mod, nat_eq,
}
use zelana.Base.Dict.{contains}
use zelana.Base.Text.{codes, to_le_bytes}

pub record BatchTransaction : Type 0 where
  pub sender_pubkey : Bytes
  pub receiver_pubkey : Bytes
  pub amount : ℕ
  pub signature : Bytes
  pub merkle_path : List Bytes

pub record Batch : Type 0 where
  pub batch_id : Bytes
  pub initial_root : Bytes
  pub transactions : List BatchTransaction

-- What is sent to a worker is a chunk with its transactions copied, `WorkerProveRequest`.
pub record Chunk : Type 0 where
  pub chunk_id : ℕ
  pub pre_root : Bytes
  pub post_root : Bytes
  pub transactions : List BatchTransaction

pub record ChunkProof : Type 0 where
  pub chunk_id : ℕ
  pub worker_id : ℕ
  pub proof : Bytes
  pub public_inputs : List Bytes
  pub proving_time_ms : ℕ

pub record BatchProofs : Type 0 where
  pub batch_id : Bytes
  pub proofs : List ChunkProof
  pub total_time_ms : ℕ
  pub workers_used : ℕ

-- `chunks`, with fuel: the length of the list is enough, since each chunk takes some of it.
unfoldable pub chunks_from : ℕ → ℕ → List BatchTransaction → List (List BatchTransaction)
chunks_from fuel size [] = []
chunks_from zero size (tx ∷ txs) = []
chunks_from (suc fuel) size (tx ∷ txs) =
    take size (tx ∷ txs) ∷ chunks_from fuel size (drop size (tx ∷ txs))

abbrev pub chunks : ℕ → List BatchTransaction → List (List BatchTransaction)
chunks size txs = chunks_from (length txs) size txs

-- The loop over the chunks, at an index.
unfoldable pub slice_from : List Bytes → ℕ → List (List BatchTransaction) → List Chunk
slice_from roots i [] = []
slice_from roots i (tx_chunk ∷ chunks) =
    record {
      chunk_id = i % u32_mod;
      pre_root = get_or roots i [];
      post_root = get_or roots (suc i) [];
      transactions = tx_chunk;
    }
    ∷ slice_from roots (suc i) chunks

-- The libraries: SHA-256 and hexadecimal text.
pub record Hashing : Type 0 where
  pub sha256 : Bytes → Bytes
  pub hex : Bytes → Bytes

module _ (H : Hashing) where
  unfoldable pub hashed_bytes : List BatchTransaction → Bytes
  hashed_bytes [] = []
  hashed_bytes (tx ∷ txs) =
      tx.sender_pubkey ++ (tx.receiver_pubkey ++ (to_le_bytes 8 tx.amount ++ hashed_bytes txs))

  unfoldable pub next_root : Bytes → List BatchTransaction → Bytes
  unfolding hashed_bytes
  next_root current_root chunk = codes "0x" ++ H.hex (H.sha256 (current_root ++ hashed_bytes chunk))

  unfoldable pub roots_from : Bytes → List (List BatchTransaction) → List Bytes
  unfolding next_root
  roots_from current_root [] = []
  roots_from current_root (chunk ∷ chunks) =
      next_root current_root chunk ∷ roots_from (next_root current_root chunk) chunks

  unfoldable pub compute_intermediate_roots : Bytes → List BatchTransaction → ℕ → List Bytes
  unfolding roots_from
  compute_intermediate_roots initial_root txs chunk_size =
      initial_root ∷ roots_from initial_root (chunks chunk_size txs)

  -- For a chunk size of at least one; the source panics at zero.
  unfoldable pub slice_batch : Batch → ℕ → List Chunk
  unfolding compute_intermediate_roots slice_from
  slice_batch batch chunk_size =
      slice_from (compute_intermediate_roots batch.initial_root batch.transactions chunk_size) 0
        (chunks chunk_size batch.transactions)

-- What comes back from a worker.
pub data Answer : Type 0 where
  unreachable : Answer
  status : ℕ → Answer
  unreadable : Answer
  success : ChunkProof → Answer
  error : Bytes → Answer
  -- the task that waits for it
  panicked : Answer

pub data ChunkError : Type 0 where
  failed_to_contact : Bytes → ChunkError
  error_status : Bytes → ℕ → ChunkError
  failed_to_parse : ChunkError
  worker_error : Bytes → Bytes → ChunkError
  task_panicked : ChunkError

pub data Outcome : Type 0 where
  proved : ChunkProof → Outcome
  failed : ChunkError → Outcome

pub data DispatchError : Type 0 where
  no_chunks : DispatchError
  failed_chunks : List ChunkError → DispatchError

-- `panic` is the remainder by the number of no workers.
pub data Dispatched : Type 0 where
  ok : BatchProofs → Dispatched
  err : DispatchError → Dispatched
  panic : Dispatched

unfoldable pub dispatch_chunk : (Bytes → Chunk → Answer) → Bytes → Chunk → Outcome
dispatch_chunk worker url chunk = elim (worker url chunk) [
  | unreachable ↦ failed (failed_to_contact url)
  | status code ↦ failed (error_status url code)
  | unreadable ↦ failed failed_to_parse
  | success proof ↦ proved proof
  | error message ↦ failed (worker_error url message)
  | panicked ↦ failed task_panicked
]

-- Round robin: the chunk at an index goes to the worker at the remainder.
unfoldable pub assign : List Bytes → ℕ → List Chunk → List (Bytes × Chunk)
assign urls i [] = []
assign urls i (chunk ∷ chunks) =
    (get_or urls (i % length urls) [], chunk) ∷ assign urls (suc i) chunks

unfoldable pub outcomes : (Bytes → Chunk → Answer) → List (Bytes × Chunk) → List Outcome
unfolding dispatch_chunk
outcomes worker [] = []
outcomes worker ((url, chunk) ∷ rest) = dispatch_chunk worker url chunk ∷ outcomes worker rest

unfoldable pub proofs_of : List Outcome → List ChunkProof
proofs_of [] = []
proofs_of (proved p ∷ rest) = p ∷ proofs_of rest
proofs_of (failed e ∷ rest) = proofs_of rest

unfoldable pub errors_of : List Outcome → List ChunkError
errors_of [] = []
errors_of (proved p ∷ rest) = errors_of rest
errors_of (failed e ∷ rest) = e ∷ errors_of rest

-- `sort_by_key`, which is stable.
unfoldable pub insert_by_chunk : ChunkProof → List ChunkProof → List ChunkProof
insert_by_chunk p [] = p ∷ []
insert_by_chunk p (q ∷ qs) =
    if leb p.chunk_id q.chunk_id then p ∷ q ∷ qs else q ∷ insert_by_chunk p qs

unfoldable pub sort_by_chunk : List ChunkProof → List ChunkProof
unfolding insert_by_chunk
sort_by_chunk [] = []
sort_by_chunk (p ∷ ps) = insert_by_chunk p (sort_by_chunk ps)

-- The number of different workers.
unfoldable pub count_workers : List ℕ → List ChunkProof → ℕ
count_workers seen [] = length seen
count_workers seen (p ∷ ps) =
    count_workers (if contains p.worker_id seen then seen else p.worker_id ∷ seen) ps

unfoldable pub collect : Bytes → ℕ → List Outcome → Dispatched
unfolding proofs_of errors_of sort_by_chunk count_workers
collect batch_id total_time_ms results = elim (errors_of results) [
  | [] ↦ ok (record {
    batch_id = batch_id;
    proofs = sort_by_chunk (proofs_of results);
    total_time_ms = total_time_ms;
    workers_used = count_workers [] (sort_by_chunk (proofs_of results));
  })
  | e ∷ errors ↦ err (failed_chunks (e ∷ errors))
]

unfoldable pub dispatch_batch :
    Hashing → (Bytes → Chunk → Answer) → List Bytes → ℕ → Batch → ℕ → Dispatched
unfolding slice_batch assign outcomes collect
dispatch_batch H worker worker_urls total_time_ms batch chunk_size =
    elim (slice_batch H batch chunk_size) [
      | [] ↦ err no_chunks
      | chunk ∷ chunks ↦
          if nat_beq (length worker_urls) 0
          then panic
          else collect batch.batch_id total_time_ms
              (outcomes worker (assign worker_urls 0 (chunk ∷ chunks)))
    ]
