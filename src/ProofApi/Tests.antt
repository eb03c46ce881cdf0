-- ===== src/ProofApi/Tests.antt =====
-- The theorems on the proving service's interface at concrete inputs.
use zelana.Base.{List, Bytes, ◌≢◌, bytes_beq, bytes_eq, ◌≡◌, refl, none, some, [], ◌∷◌, arith}
use zelana.Base.Dict.{lookup}
use zelana.ProofApi.{
  CoreProofResult, CoreApiState, completed, new_job, state_of, success, proved, get_by_batch,
  prove_handler, get_proof_handler, cancel_handler, execute_proof_job,
}
use zelana.ProofApi.Jobs.{execute_proof_job-cancel_handler}
use zelana.ProofApi.Served.{Call, run, prove_handler-execute_proof_job}

abbrev result : CoreProofResult
result = record {
  job_id = 1 ∷ [];
  batch_id = 7;
  proof_bytes = 2 ∷ [];
  public_witness_bytes = [];
  batch_hash = [];
  withdrawal_root = [];
  proving_time_ms = 30;
}

abbrev idle : CoreApiState
idle = record {
  cache_ttl_secs = 3600;
  max_concurrent_jobs = 4;
  jobs = [];
  cache = record { proofs = []; job_to_batch = [] };
  active_jobs = 0;
}

abbrev busy : CoreApiState
busy = record idle { jobs = (1 ∷ [], new_job 100 (1 ∷ []) 7) ∷ []; active_jobs = 3 }

nothing_cached : get_by_batch 100 7 idle.cache ≡ none
unfolding get_by_batch lookup
nothing_cached = refl

there : lookup (1 ∷ []) busy.jobs ≡ some (new_job 100 (1 ∷ []) 7)
unfolding lookup bytes_beq
there = refl

-- Another job, while the first is served.
abbrev calls : List Call
calls =
    Call.asks 140 (2 ∷ []) 8
    ∷ Call.runs 141 171 (2 ∷ []) 8 (proved result)
    ∷ Call.cleans 180
    ∷ Call.cancels 190 (1 ∷ [])
    ∷ []

other_job : ◌≢◌ {A = Bytes} (2 ∷ []) (1 ∷ [])
other_job e = ground (arith, e)

prove_handler-execute_proof_job_example :
    let (answer, s₁) = prove_handler 100 (1 ∷ []) 7 idle in
    let s₂ = execute_proof_job 101 131 (1 ∷ []) 7 (proved result) s₁ in
    (answer ≡ success (1 ∷ []))
    × (lookup (1 ∷ []) s₁.jobs ≡ some (new_job 100 (1 ∷ []) 7))
    × (s₁.active_jobs ≡ 1)
    × (state_of (lookup (1 ∷ []) s₂.jobs) ≡ some completed)
    × (s₂.active_jobs ≡ 0)
    × (get_proof_handler 200 (1 ∷ []) (run calls s₂) ≡ success result)
prove_handler-execute_proof_job_example =
    prove_handler-execute_proof_job 100 101 131 200 (1 ∷ []) 7 result idle calls nothing_cached
      (ground arith) (ground arith) (ground arith)
      (other_job, (λ e. omega (arith, e)), (ground arith, tt))

execute_proof_job-cancel_handler_example :
    let s' =
      execute_proof_job 101 131 (1 ∷ []) 7 (proved result) (cancel_handler 100 (1 ∷ []) busy).1 in
    (state_of (lookup (1 ∷ []) s'.jobs) ≡ some completed) × (s'.active_jobs ≡ 1)
execute_proof_job-cancel_handler_example =
    execute_proof_job-cancel_handler 100 101 131 (1 ∷ []) 7 result busy (new_job 100 (1 ∷ []) 7)
      there refl
