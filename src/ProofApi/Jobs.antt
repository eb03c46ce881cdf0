-- ===== src/ProofApi/Jobs.antt =====
-- What becomes of a job (forge/crates/prover-coordinator/src/core_api.rs).
use zelana.Base.{
  ℕ, ◌+◌, ◌-◌, ◌<◌, ◌≡◌, refl, ap, ◌∙◌, false, leb, none, some, Bytes, arith, nat_eq, bytes_eq,
}
use zelana.Base.Dict.{lookup, insert, lookup-insert_self}
use zelana.ProofApi.{
  CoreProofResult, ProofJobStatus, ProofJobState, pending, preparing, proving, completed, cancelled,
  CoreApiState, success, insert_proof, get_by_batch, put_job, changed, state_of, is_cancelled,
  update_job, cancel_handler, update_job_status, is_job_cancelled, Outcome, prove_found, proved,
  not_proved, prove_handler, new_job, cancel_found, release_slot, finish_job, execute_proof_job,
}

lookup-update_job :
    (job_id : Bytes) (f : ProofJobStatus → ProofJobStatus) (s : CoreApiState) (job : ProofJobStatus)
    → lookup job_id s.jobs ≡ some job
    → lookup job_id (update_job job_id f s).jobs ≡ some (f job)
unfolding update_job
lookup-update_job job_id f s job found =
    ap (λ o. lookup job_id (put_job job_id (changed f o) s.jobs)) found
    ∙ lookup-insert_self job_id (f job) s.jobs

lookup-update_job_status :
    (now : ℕ) (job_id : Bytes) (to : ProofJobState) (progress : ℕ) (s : CoreApiState)
    (job : ProofJobStatus)
    → lookup job_id s.jobs ≡ some job
    → lookup job_id (update_job_status now job_id to progress s).jobs
      ≡ some (record job { state = to; progress_pct = progress; updated_at = now })
unfolding update_job_status
lookup-update_job_status now job_id to progress s job found = lookup-update_job job_id _ s job found

is_job_cancelled-preparing :
    (now : ℕ) (job_id : Bytes) (progress : ℕ) (s : CoreApiState) (job : ProofJobStatus)
    → lookup job_id s.jobs ≡ some job
    → is_job_cancelled job_id (update_job_status now job_id preparing progress s) ≡ false
unfolding is_job_cancelled
is_job_cancelled-preparing now job_id progress s job found =
    ap is_cancelled (lookup-update_job_status now job_id preparing progress s job found)

-- A task that finds its job never sees that it was cancelled before.
execute_proof_job-found :
    (started now : ℕ) (job_id : Bytes) (batch_id : ℕ) (outcome : Outcome) (s : CoreApiState)
    (job : ProofJobStatus)
    → lookup job_id s.jobs ≡ some job
    → execute_proof_job started now job_id batch_id outcome s
      ≡ finish_job now job_id batch_id outcome (
          update_job_status started job_id proving 30
            (update_job_status started job_id preparing 10 s))
unfolding execute_proof_job
execute_proof_job-found started now job_id batch_id outcome s job found =
    rw (is_job_cancelled-preparing started job_id 10 s job found) refl

active_jobs-finish_job :
    (now : ℕ) (job_id : Bytes) (batch_id : ℕ) (outcome : Outcome) (s : CoreApiState)
    → (finish_job now job_id batch_id outcome s).active_jobs ≡ s.active_jobs - 1
unfolding finish_job update_job
active_jobs-finish_job now job_id batch_id (proved result) s = refl
active_jobs-finish_job now job_id batch_id (not_proved e) s = refl

pub active_jobs-execute_proof_job :
    (started now : ℕ) (job_id : Bytes) (batch_id : ℕ) (outcome : Outcome) (s : CoreApiState)
    (job : ProofJobStatus)
    → lookup job_id s.jobs ≡ some job
    → (execute_proof_job started now job_id batch_id outcome s).active_jobs ≡ s.active_jobs - 1
unfolding update_job_status update_job
active_jobs-execute_proof_job started now job_id batch_id outcome s job found =
    ap (λ s. s.active_jobs)
      (execute_proof_job-found started now job_id batch_id outcome s job found)
    ∙ active_jobs-finish_job now job_id batch_id outcome _

state_of-finish_job :
    (now : ℕ) (job_id : Bytes) (batch_id : ℕ) (result : CoreProofResult) (s : CoreApiState)
    (job : ProofJobStatus)
    → lookup job_id s.jobs ≡ some job
    → state_of (lookup job_id (finish_job now job_id batch_id (proved result) s).jobs)
      ≡ some completed
unfolding finish_job
state_of-finish_job now job_id batch_id result s job found =
    ap state_of (lookup-update_job job_id _ _ job found)

pub state_of-execute_proof_job :
    (started now : ℕ) (job_id : Bytes) (batch_id : ℕ) (result : CoreProofResult) (s : CoreApiState)
    (job : ProofJobStatus)
    → lookup job_id s.jobs ≡ some job
    → state_of
        (lookup job_id (execute_proof_job started now job_id batch_id (proved result) s).jobs)
      ≡ some completed
state_of-execute_proof_job started now job_id batch_id result s job found =
    ap (λ s. state_of (lookup job_id s.jobs))
      (execute_proof_job-found started now job_id batch_id (proved result) s job found)
    ∙ state_of-finish_job now job_id batch_id result _ _ (
        lookup-update_job_status started job_id proving 30 _ _
          (lookup-update_job_status started job_id preparing 10 s job found))

pub cache-execute_proof_job :
    (started now : ℕ) (job_id : Bytes) (batch_id : ℕ) (result : CoreProofResult) (s : CoreApiState)
    (job : ProofJobStatus)
    → lookup job_id s.jobs ≡ some job
    → (execute_proof_job started now job_id batch_id (proved result) s).cache
      ≡ insert_proof now job_id batch_id result s.cache_ttl_secs s.cache
unfolding finish_job update_job update_job_status
cache-execute_proof_job started now job_id batch_id result s job found =
    ap (λ s. s.cache)
      (execute_proof_job-found started now job_id batch_id (proved result) s job found)

abbrev pub begun : ℕ → Bytes → ℕ → CoreApiState → CoreApiState
begun now job_id batch_id s = record s {
  jobs = insert job_id (new_job now job_id batch_id) s.jobs;
  active_jobs = s.active_jobs + 1;
}

pub prove_handler-begun :
    (now : ℕ) (job_id : Bytes) (batch_id : ℕ) (s : CoreApiState)
    → get_by_batch now batch_id s.cache ≡ none
    → s.active_jobs < s.max_concurrent_jobs
    → prove_handler now job_id batch_id s ≡ (success job_id, begun now job_id batch_id s)
unfolding prove_handler
prove_handler-begun now job_id batch_id s new free =
    ap (prove_found now job_id batch_id s) new ∙ rw full refl
  where
    full : leb s.max_concurrent_jobs s.active_jobs ≡ false
    full = ground (arith, free)

abbrev stopped : ℕ → Bytes → CoreApiState → ProofJobStatus → CoreApiState
stopped now job_id s job =
    release_slot (record s {
      jobs = insert job_id (record job { state = cancelled; updated_at = now }) s.jobs;
    })

cancel_handler-stopped :
    (now : ℕ) (job_id : Bytes) (s : CoreApiState) (job : ProofJobStatus)
    → lookup job_id s.jobs ≡ some job
    → job.state ≡ pending
    → (cancel_handler now job_id s).1 ≡ stopped now job_id s job
unfolding cancel_handler
cancel_handler-stopped now job_id s job found is_pending =
    ap (λ o. (cancel_found now job_id s o).1) found ∙ rw is_pending refl

-- A job that is cancelled while it is pending is proved all the same, when its task runs
-- afterwards: it ends as completed, and the count of active jobs is lowered twice.
pub execute_proof_job-cancel_handler :
    (asked started now : ℕ) (job_id : Bytes) (batch_id : ℕ) (result : CoreProofResult)
    (s : CoreApiState) (job : ProofJobStatus)
    → lookup job_id s.jobs ≡ some job
    → job.state ≡ pending
    → let s' =
        execute_proof_job started now job_id batch_id
          (proved result)
          (cancel_handler asked job_id s).1 in
      (state_of (lookup job_id s'.jobs) ≡ some completed) × (s'.active_jobs ≡ s.active_jobs - 1 - 1)
execute_proof_job-cancel_handler asked started now job_id batch_id result s job found is_pending =
    rw (cancel_handler-stopped asked job_id s job found is_pending) (
      state_of-execute_proof_job started now job_id batch_id result s₁ _ stored,
      active_jobs-execute_proof_job started now job_id batch_id (proved result) s₁ _ stored,
    )
  where
    s₁ : CoreApiState
    s₁ = stopped asked job_id s job

    stored : lookup job_id s₁.jobs ≡ some (record job { state = cancelled; updated_at = asked })
    stored = lookup-insert_self job_id _ s.jobs
