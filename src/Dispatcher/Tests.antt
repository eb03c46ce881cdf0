-- ===== src/Dispatcher/Tests.antt =====
-- The theorems on the dispatcher at concrete inputs.
use zelana.Base.{ℕ, ◌≡◌, refl, [], ◌∷◌, Bytes, length, arith}
use zelana.Base.Text.{codes}
use zelana.Dispatcher.{
  Batch, BatchTransaction, Chunk, BatchProofs, Hashing, Answer, success, ok, slice_batch,
  dispatch_batch,
}
use zelana.Dispatcher.Slices.{transactions_of, Chained, IdsFrom, AllSized, slice_batch_lem}
use zelana.Dispatcher.Proofs.{ProofsFrom, dispatch_batch-Honest}

abbrev hashing : Hashing
hashing = record { sha256 = λ m. length m ∷ []; hex = λ m. m }

abbrev payment : ℕ → BatchTransaction
payment amount = record {
  sender_pubkey = codes "0xa";
  receiver_pubkey = codes "0xb";
  amount = amount;
  signature = codes "0xs";
  merkle_path = [];
}

abbrev batch : Batch
batch = record {
  batch_id = codes "b";
  initial_root = codes "0x0000";
  transactions = payment 100 ∷ payment 200 ∷ payment 300 ∷ [];
}

slice_batch_lem_example :
    let cs = slice_batch hashing batch 2 in
    (transactions_of cs ≡ payment 100 ∷ payment 200 ∷ payment 300 ∷ [])
    × IdsFrom 0 cs
    × AllSized 2 cs
    × Chained hashing (codes "0x0000") cs
slice_batch_lem_example = slice_batch_lem hashing batch 2 (omega arith) (omega arith)

abbrev worker : Bytes → Chunk → Answer
worker url c = success (record {
  chunk_id = c.chunk_id;
  worker_id = length url;
  proof = [];
  public_inputs = [];
  proving_time_ms = 5;
})

dispatch_batch-Honest_example :
    (p : BatchProofs) × (dispatch_batch hashing worker (codes "w" ∷ codes "ww" ∷ []) 9 batch 2
      ≡ ok p)
    × ProofsFrom 0 p.proofs
    × (length p.proofs ≡ length (slice_batch hashing batch 2))
dispatch_batch-Honest_example =
    dispatch_batch-Honest hashing worker (codes "w" ∷ codes "ww" ∷ []) 9 batch 2
      (λ url c. (
        record {
          chunk_id = c.chunk_id;
          worker_id = length url;
          proof = [];
          public_inputs = [];
          proving_time_ms = 5;
        },
        refl,
        refl,
      ))
      (omega arith) (omega arith) (omega arith) (omega arith)
