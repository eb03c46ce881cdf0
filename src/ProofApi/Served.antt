-- ===== src/ProofApi/Served.antt =====
-- How long a proof is served (forge/crates/prover-coordinator/src/core_api.rs).
use zelana.Base.{
  ℕ, ◌+◌, ◌≤◌, ◌<◌, ◌≡◌, ◌≢◌, refl, ◌∙◌, false, none, some, List, [], ◌∷◌, Bytes, u64_mod, arith,
  nat_eq, bytes_eq,
}
use zelana.Base.Dict.{lookup, lookup-insert_self}
use zelana.ProofApi.{
  CoreProofResult, ProofJobStatus, pending, completed, CoreApiState, success, CachedProof,
  is_expired, get_by_batch, cleanup_expired, state_of, get_proof_handler, cancel_handler,
  prove_handler, new_job, Outcome, proved, execute_proof_job,
}
use zelana.ProofApi.Jobs.{
  begun, prove_handler-begun, state_of-execute_proof_job, active_jobs-execute_proof_job,
  cache-execute_proof_job,
}
use zelana.ProofApi.Keeps.{
  Holds, insert_proof-Holds, cleanup_expired-Holds, cache-prove_handler, cache-cancel_handler,
  execute_proof_job-Holds, get_proof_handler-Holds,
}

-- What may happen to the service, each at its time.
pub data Call : Type 0 where
  asks : ℕ → Bytes → ℕ → Call
  cancels : ℕ → Bytes → Call
  runs : ℕ → ℕ → Bytes → ℕ → Outcome → Call
  cleans : ℕ → Call

pub call : Call → CoreApiState → CoreApiState
call (asks now job_id batch_id) s = (prove_handler now job_id batch_id s).1
call (cancels now job_id) s = (cancel_handler now job_id s).1
call (runs started now job_id batch_id outcome) s =
    execute_proof_job started now job_id batch_id outcome s
call (cleans now) s = record s { cache = cleanup_expired now s.cache }

pub run : List Call → CoreApiState → CoreApiState
run [] s = s
run (c ∷ calls) s = run calls (call c s)

-- The tasks that run are of other jobs and other batches, and the cache is not cleaned after the
-- time.
abbrev pub Elsewhere : Bytes → ℕ → ℕ → List Call → Type 0
Elsewhere job_id batch_id until [] = Unit
Elsewhere job_id batch_id until (asks now j b ∷ calls) = Elsewhere job_id batch_id until calls
Elsewhere job_id batch_id until (cancels now j ∷ calls) = Elsewhere job_id batch_id until calls
Elsewhere job_id batch_id until (runs started now j b outcome ∷ calls) =
    (j ≢ job_id) × (b ≢ batch_id) × Elsewhere job_id batch_id until calls
Elsewhere job_id batch_id until (cleans now ∷ calls) =
    (now ≤ until) × Elsewhere job_id batch_id until calls

run-Holds :
    (job_id : Bytes) (batch_id until : ℕ) (p : CachedProof) (calls : List Call) (s : CoreApiState)
    → ((now : ℕ) → now ≤ until → is_expired now p ≡ false)
    → Elsewhere job_id batch_id until calls
    → Holds job_id batch_id p s.cache
    → Holds job_id batch_id p (run calls s).cache
unfolding run call
run-Holds job_id batch_id until p [] s live e h = h
run-Holds job_id batch_id until p (asks now j b ∷ calls) s live e h =
    run-Holds job_id batch_id until p calls _ live e (rw (cache-prove_handler now j b s) h)
run-Holds job_id batch_id until p (cancels now j ∷ calls) s live e h =
    run-Holds job_id batch_id until p calls _ live e (rw (cache-cancel_handler now j s) h)
run-Holds job_id batch_id until p (runs started now j b outcome ∷ calls) s live e h =
    run-Holds job_id batch_id until p calls _ live e.2
      (execute_proof_job-Holds started now j job_id b batch_id outcome p s e.0 e.1 h)
run-Holds job_id batch_id until p (cleans now ∷ calls) s live e h =
    run-Holds job_id batch_id until p calls _ live e.1
      (cleanup_expired-Holds now job_id batch_id p s.cache (live now e.0) h)

-- A request for a batch that has no proof in the cache, below the capacity, is answered with a job
-- that is stored as pending and counted as active; once its proof is made by an uninterrupted
-- task, the job is completed and no longer counted, and the proof is served until it expires,
-- whatever calls come in between, if their tasks are of other jobs and other batches, the cache is
-- not cleaned after the expiry, and the time of expiry fits 64 bits.
pub prove_handler-execute_proof_job :
    (asked started now later : ℕ) (job_id : Bytes) (batch_id : ℕ) (result : CoreProofResult)
    (s : CoreApiState) (calls : List Call)
    → get_by_batch asked batch_id s.cache ≡ none
    → s.active_jobs < s.max_concurrent_jobs
    → now + s.cache_ttl_secs < u64_mod
    → later ≤ now + s.cache_ttl_secs
    → Elsewhere job_id batch_id (now + s.cache_ttl_secs) calls
    → let (answer, s₁) = prove_handler asked job_id batch_id s in
      let s₂ = execute_proof_job started now job_id batch_id (proved result) s₁ in
      (answer ≡ success job_id)
      × (lookup job_id s₁.jobs
          ≡ some (record {
            job_id = job_id;
            batch_id = batch_id;
            state = pending;
            progress_pct = 0;
            created_at = asked;
            updated_at = asked;
            completed_at = none;
            error = none;
          }))
      × (s₁.active_jobs ≡ s.active_jobs + 1)
      × (state_of (lookup job_id s₂.jobs) ≡ some completed)
      × (s₂.active_jobs ≡ s.active_jobs)
      × (get_proof_handler later job_id (run calls s₂) ≡ success result)
prove_handler-execute_proof_job asked started now later job_id batch_id result s calls new free fits
      live e =
    rw (prove_handler-begun asked job_id batch_id s new free) (
      refl,
      stored,
      refl,
      state_of-execute_proof_job started now job_id batch_id result s₁ job stored,
      active_jobs-execute_proof_job started now job_id batch_id (proved result) s₁ job stored
          ∙ omega arith,
      get_proof_handler-Holds later job_id batch_id p _ (lives later live) (
          run-Holds job_id batch_id (now + s.cache_ttl_secs) p calls _ lives e (
            rw (cache-execute_proof_job started now job_id batch_id result s₁ job stored)
              (insert_proof-Holds now s.cache_ttl_secs job_id batch_id result s.cache))),
    )
  where
    job : ProofJobStatus
    job = new_job asked job_id batch_id

    s₁ : CoreApiState
    s₁ = begun asked job_id batch_id s

    stored : lookup job_id s₁.jobs ≡ some job
    stored = lookup-insert_self job_id job s.jobs

    p : CachedProof
    p = record { result = result; cached_at = now; ttl_secs = s.cache_ttl_secs }

    lives : (time : ℕ) → time ≤ now + s.cache_ttl_secs → is_expired time p ≡ false
    lives time h = ground (arith, h, fits)
