-- ===== src/ProofApi.antt =====
-- The proving service's interface for the sequencer: its jobs and the cache of proofs
-- (forge/crates/prover-coordinator/src/core_api.rs). The clock and the new identifiers are
-- arguments; the messages and events for display are left out.
pub mod Jobs
pub mod Keeps
pub mod Served
pub mod Tests
use zelana.Base.{
  ℕ, ◌+◌, ◌-◌, ◌%◌, Bool, true, false, Option, none, some, List, [], ◌∷◌, Bytes, ltb, leb, not,
  if◌then◌else◌, u64_mod, nat_eq, bytes_eq,
}
use zelana.Base.Dict.{Dict, lookup, insert, has_key}

pub record CoreProofResult : Type 0 where
  pub job_id : Bytes
  pub batch_id : ℕ
  pub proof_bytes : Bytes
  pub public_witness_bytes : Bytes
  pub batch_hash : Bytes
  pub withdrawal_root : Bytes
  pub proving_time_ms : ℕ

pub data ProofJobState : Type 0 where
  pending : ProofJobState
  preparing : ProofJobState
  proving : ProofJobState
  completed : ProofJobState
  failed : ProofJobState
  cancelled : ProofJobState

pub record ProofJobStatus : Type 0 where
  pub job_id : Bytes
  pub batch_id : ℕ
  pub state : ProofJobState
  pub progress_pct : ℕ
  pub created_at : ℕ
  pub updated_at : ℕ
  pub completed_at : Option ℕ
  pub error : Option Bytes

pub data ErrorCode : Type 0 where
  capacity_exceeded : ErrorCode
  internal_error : ErrorCode
  proof_failed : ErrorCode
  not_ready : ErrorCode
  invalid_state : ErrorCode
  not_found : ErrorCode

pub data ApiResponse (A : Type 0) : Type 0 where
  success : A → ApiResponse A
  error_with_code : ErrorCode → ApiResponse A

pub record CachedProof : Type 0 where
  pub result : CoreProofResult
  pub cached_at : ℕ
  pub ttl_secs : ℕ

-- The sum wraps in release builds.
abbrev pub is_expired : ℕ → CachedProof → Bool
is_expired now c = ltb ((c.cached_at + c.ttl_secs) % u64_mod) now

pub record ProofCache : Type 0 where
  pub proofs : Dict ℕ CachedProof
  pub job_to_batch : Dict Bytes ℕ

unfoldable pub insert_proof : ℕ → Bytes → ℕ → CoreProofResult → ℕ → ProofCache → ProofCache
insert_proof now job_id batch_id result ttl_secs c = record {
  proofs =
      insert batch_id (record { result = result; cached_at = now; ttl_secs = ttl_secs }) c.proofs;
  job_to_batch = insert job_id batch_id c.job_to_batch;
}

abbrev pub unless_expired : ℕ → Option CachedProof → Option CoreProofResult
unless_expired now none = none
unless_expired now (some c) = if is_expired now c then none else some c.result

unfoldable pub get_by_batch : ℕ → ℕ → ProofCache → Option CoreProofResult
get_by_batch now batch_id c = unless_expired now (lookup batch_id c.proofs)

abbrev pub of_batch : ℕ → ProofCache → Option ℕ → Option CoreProofResult
of_batch now c none = none
of_batch now c (some batch_id) = get_by_batch now batch_id c

unfoldable pub get_by_job : ℕ → Bytes → ProofCache → Option CoreProofResult
get_by_job now job_id c = of_batch now c (lookup job_id c.job_to_batch)

unfoldable pub live_proofs : ℕ → Dict ℕ CachedProof → Dict ℕ CachedProof
live_proofs now [] = []
live_proofs now ((batch_id, c) ∷ proofs) =
    if is_expired now c then live_proofs now proofs else (batch_id, c) ∷ live_proofs now proofs

unfoldable pub live_jobs : Dict ℕ CachedProof → Dict Bytes ℕ → Dict Bytes ℕ
live_jobs proofs [] = []
live_jobs proofs ((job_id, batch_id) ∷ jobs) =
    if has_key batch_id proofs
    then (job_id, batch_id) ∷ live_jobs proofs jobs
    else live_jobs proofs jobs

unfoldable pub cleanup_expired : ℕ → ProofCache → ProofCache
unfolding live_proofs live_jobs
cleanup_expired now c =
    let proofs = live_proofs now c.proofs in
    record { proofs = proofs; job_to_batch = live_jobs proofs c.job_to_batch }

pub record CoreApiState : Type 0 where
  pub cache_ttl_secs : ℕ
  pub max_concurrent_jobs : ℕ
  pub jobs : Dict Bytes ProofJobStatus
  pub cache : ProofCache
  pub active_jobs : ℕ

-- Changes a job, if it is there.
abbrev pub put_job :
    Bytes → Option ProofJobStatus → Dict Bytes ProofJobStatus → Dict Bytes ProofJobStatus
put_job job_id none jobs = jobs
put_job job_id (some job) jobs = insert job_id job jobs

abbrev pub changed :
    (ProofJobStatus → ProofJobStatus) → Option ProofJobStatus → Option ProofJobStatus
changed f none = none
changed f (some job) = some (f job)

unfoldable pub update_job : Bytes → (ProofJobStatus → ProofJobStatus) → CoreApiState → CoreApiState
update_job job_id f s = record s { jobs = put_job job_id (changed f (lookup job_id s.jobs)) s.jobs }

abbrev pub release_slot : CoreApiState → CoreApiState
release_slot s = record s { active_jobs = s.active_jobs - 1 }

abbrev pub new_job : ℕ → Bytes → ℕ → ProofJobStatus
new_job now job_id batch_id = record {
  job_id = job_id;
  batch_id = batch_id;
  state = pending;
  progress_pct = 0;
  created_at = now;
  updated_at = now;
  completed_at = none;
  error = none;
}

abbrev pub prove_found :
    ℕ → Bytes → ℕ → CoreApiState → Option CoreProofResult → ApiResponse Bytes × CoreApiState
prove_found now job_id batch_id s (some cached) = (success cached.job_id, s)
prove_found now job_id batch_id s none =
    if leb s.max_concurrent_jobs s.active_jobs then (error_with_code capacity_exceeded, s) else (
      success job_id,
      record s {
        jobs = insert job_id (new_job now job_id batch_id) s.jobs;
        active_jobs = s.active_jobs + 1;
      },
    )

-- The answer is the identifier of the job.
unfoldable pub prove_handler : ℕ → Bytes → ℕ → CoreApiState → ApiResponse Bytes × CoreApiState
prove_handler now job_id batch_id s =
    prove_found now job_id batch_id s (get_by_batch now batch_id s.cache)

abbrev pub unfinished : ProofJobState → ErrorCode
unfinished completed = internal_error
unfinished failed = proof_failed
unfinished _ = not_ready

abbrev pub proof_answer :
    Option CoreProofResult → Option ProofJobStatus → ApiResponse CoreProofResult
proof_answer (some cached) job = success cached
proof_answer none none = error_with_code not_found
proof_answer none (some job) = error_with_code (unfinished job.state)

unfoldable pub get_proof_handler : ℕ → Bytes → CoreApiState → ApiResponse CoreProofResult
get_proof_handler now job_id s = proof_answer (get_by_job now job_id s.cache) (lookup job_id s.jobs)

abbrev pub can_cancel : ProofJobState → Bool
can_cancel pending = true
can_cancel preparing = true
can_cancel _ = false

abbrev pub cancel_found :
    ℕ → Bytes → CoreApiState → Option ProofJobStatus → ApiResponse Bytes × CoreApiState
cancel_found now job_id s none = (error_with_code not_found, s)
cancel_found now job_id s (some job) =
    if can_cancel job.state
    then (
      success job_id,
      release_slot (record s {
        jobs = insert job_id (record job { state = cancelled; updated_at = now }) s.jobs;
      }),
    )
    else (error_with_code invalid_state, s)

unfoldable pub cancel_handler : ℕ → Bytes → CoreApiState → ApiResponse Bytes × CoreApiState
cancel_handler now job_id s = cancel_found now job_id s (lookup job_id s.jobs)

abbrev pub state_of : Option ProofJobStatus → Option ProofJobState
state_of none = none
state_of (some job) = some job.state

unfoldable pub update_job_status : ℕ → Bytes → ProofJobState → ℕ → CoreApiState → CoreApiState
update_job_status now job_id new_state progress =
    update_job job_id
      (λ job. record job { state = new_state; progress_pct = progress; updated_at = now })

abbrev pub is_cancelled : Option ProofJobStatus → Bool
is_cancelled none = false
is_cancelled (some job) = elim job.state [ cancelled ↦ true | _ ↦ false ]

unfoldable pub is_job_cancelled : Bytes → CoreApiState → Bool
is_job_cancelled job_id s = is_cancelled (lookup job_id s.jobs)

-- What the prover returned.
pub data Outcome : Type 0 where
  proved : CoreProofResult → Outcome
  not_proved : Bytes → Outcome

unfoldable pub finish_job : ℕ → Bytes → ℕ → Outcome → CoreApiState → CoreApiState
finish_job now job_id batch_id (proved result) s =
    update_job job_id
      (λ job. record job {
        state = completed;
        progress_pct = 100;
        completed_at = some now;
        updated_at = now;
      })
      (release_slot
        (record s { cache = insert_proof now job_id batch_id result s.cache_ttl_secs s.cache }))
finish_job now job_id batch_id (not_proved e) s =
    update_job job_id (λ job. record job { state = failed; error = some e; updated_at = now })
      (release_slot s)

-- The task of a job, that nothing interrupts; it starts and ends at two times.
unfoldable pub execute_proof_job : ℕ → ℕ → Bytes → ℕ → Outcome → CoreApiState → CoreApiState
execute_proof_job started now job_id batch_id outcome s =
    let s₁ = update_job_status started job_id preparing 10 s in
    if is_job_cancelled job_id s₁
    then s₁
    else finish_job now job_id batch_id outcome (update_job_status started job_id proving 30 s₁)
