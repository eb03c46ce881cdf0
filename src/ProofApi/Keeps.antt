-- ===== src/ProofApi/Keeps.antt =====
-- What keeps a proof in the cache (forge/crates/prover-coordinator/src/core_api.rs).
use zelana.Base.{
  ℕ, ◌≡◌, ◌≢◌, refl, ap, ◌∙◌, true, false, Bool-cases, inl, inr, Option, none, some, [], ◌∷◌, Bytes,
  arith, nat_eq, bytes_eq, ==_iff,
}
use zelana.Base.Dict.{Dict, lookup, has_key, lookup-insert, lookup-insert_self}
use zelana.ProofApi.{
  CoreProofResult, ProofJobStatus, ProofJobState, preparing, proving, CoreApiState, success,
  CachedProof, is_expired, insert_proof, get_by_batch, get_by_job, ProofCache, of_batch,
  live_proofs, live_jobs, cleanup_expired, unless_expired, get_proof_handler, cancel_handler,
  cancel_found, proof_answer, prove_handler, prove_found, update_job, update_job_status,
  is_job_cancelled, Outcome, proved, not_proved, finish_job, execute_proof_job,
}

-- The cache has the proof of the job, under its batch.
pub record Holds (job_id : Bytes) (batch_id : ℕ) (p : CachedProof) (c : ProofCache) : Type 0 where
  pub proof : lookup batch_id c.proofs ≡ some p
  pub job : lookup job_id c.job_to_batch ≡ some batch_id

pub insert_proof-Holds :
    (now ttl : ℕ) (job_id : Bytes) (batch_id : ℕ) (result : CoreProofResult) (c : ProofCache)
    → Holds job_id batch_id
        (record { result = result; cached_at = now; ttl_secs = ttl })
        (insert_proof now job_id batch_id result ttl c)
unfolding insert_proof
insert_proof-Holds now ttl job_id batch_id result c = record {
  proof = lookup-insert_self batch_id _ c.proofs;
  job = lookup-insert_self job_id batch_id c.job_to_batch;
}

insert_proof-Holds_other :
    (now ttl : ℕ) (j job_id : Bytes) (b batch_id : ℕ) (result : CoreProofResult) (p : CachedProof)
    (c : ProofCache)
    → j ≢ job_id
    → b ≢ batch_id
    → Holds job_id batch_id p c
    → Holds job_id batch_id p (insert_proof now j b result ttl c)
unfolding insert_proof
insert_proof-Holds_other now ttl j job_id b batch_id result p c other other' h = record {
  proof = ground (
    arith,
    lookup-insert b batch_id (record { result = result; cached_at = now; ttl_secs = ttl }) c.proofs,
    ==_iff b batch_id,
    other',
    h.proof,
  );
  job = ground (arith, lookup-insert j job_id b c.job_to_batch, ==_iff j job_id, other, h.job);
}

lookup-live_proofs :
    (now batch_id : ℕ) (p : CachedProof) (proofs : Dict ℕ CachedProof)
    → is_expired now p ≡ false
    → lookup batch_id proofs ≡ some p
    → lookup batch_id (live_proofs now proofs) ≡ some p
unfolding lookup live_proofs
lookup-live_proofs now batch_id p [] live h = h
lookup-live_proofs now batch_id p ((b, q) ∷ proofs) live h =
    ground (arith, live, h, ==_iff b batch_id, lookup-live_proofs now batch_id p proofs live)

lookup-live_jobs :
    (job_id : Bytes) (batch_id : ℕ) (proofs : Dict ℕ CachedProof) (jobs : Dict Bytes ℕ)
    → has_key batch_id proofs ≡ true
    → lookup job_id jobs ≡ some batch_id
    → lookup job_id (live_jobs proofs jobs) ≡ some batch_id
unfolding lookup live_jobs
lookup-live_jobs job_id batch_id proofs [] there h = h
lookup-live_jobs job_id batch_id proofs ((j, b) ∷ jobs) there h =
    ground (arith, there, h, ==_iff j job_id, lookup-live_jobs job_id batch_id proofs jobs there)

has_key-lookup :
    (k : ℕ) (p : CachedProof) (m : Dict ℕ CachedProof) → lookup k m ≡ some p → has_key k m ≡ true
unfolding has_key
has_key-lookup k p m h = rw (h, has_key) refl

pub cleanup_expired-Holds :
    (now : ℕ) (job_id : Bytes) (batch_id : ℕ) (p : CachedProof) (c : ProofCache)
    → is_expired now p ≡ false
    → Holds job_id batch_id p c
    → Holds job_id batch_id p (cleanup_expired now c)
unfolding cleanup_expired
cleanup_expired-Holds now job_id batch_id p c live h = record {
  proof = kept;
  job = lookup-live_jobs job_id batch_id (live_proofs now c.proofs) c.job_to_batch there h.job;
}
  where
    kept : lookup batch_id (live_proofs now c.proofs) ≡ some p
    kept = lookup-live_proofs now batch_id p c.proofs live h.proof

    there : has_key batch_id (live_proofs now c.proofs) ≡ true
    there = has_key-lookup batch_id p (live_proofs now c.proofs) kept

pub cache-prove_handler :
    (now : ℕ) (job_id : Bytes) (batch_id : ℕ) (s : CoreApiState)
    → (prove_handler now job_id batch_id s).1.cache ≡ s.cache
unfolding prove_handler
cache-prove_handler now job_id batch_id s = go (get_by_batch now batch_id s.cache)
  where
    go : (o : Option CoreProofResult) → (prove_found now job_id batch_id s o).1.cache ≡ s.cache
    go (some cached) = refl
    go none = ground arith

pub cache-cancel_handler :
    (now : ℕ) (job_id : Bytes) (s : CoreApiState) → (cancel_handler now job_id s).1.cache ≡ s.cache
unfolding cancel_handler
cache-cancel_handler now job_id s = go (lookup job_id s.jobs)
  where
    go : (o : Option ProofJobStatus) → (cancel_found now job_id s o).1.cache ≡ s.cache
    go none = refl
    go (some job) = ground arith

finish_job-Holds :
    (now : ℕ) (j job_id : Bytes) (b batch_id : ℕ) (outcome : Outcome) (p : CachedProof)
    (s : CoreApiState)
    → j ≢ job_id
    → b ≢ batch_id
    → Holds job_id batch_id p s.cache
    → Holds job_id batch_id p (finish_job now j b outcome s).cache
unfolding finish_job update_job
finish_job-Holds now j job_id b batch_id (proved result) p s other other' h =
    insert_proof-Holds_other now s.cache_ttl_secs j job_id b batch_id result p s.cache other other'
      h
finish_job-Holds now j job_id b batch_id (not_proved e) p s other other' h = h

updated-Holds :
    (now : ℕ) (j job_id : Bytes) (batch_id : ℕ) (to : ProofJobState) (progress : ℕ)
    (p : CachedProof) (s : CoreApiState)
    → Holds job_id batch_id p s.cache
    → Holds job_id batch_id p (update_job_status now j to progress s).cache
unfolding update_job_status update_job
updated-Holds now j job_id batch_id to progress p s h = h

pub execute_proof_job-Holds :
    (started now : ℕ) (j job_id : Bytes) (b batch_id : ℕ) (outcome : Outcome) (p : CachedProof)
    (s : CoreApiState)
    → j ≢ job_id
    → b ≢ batch_id
    → Holds job_id batch_id p s.cache
    → Holds job_id batch_id p (execute_proof_job started now j b outcome s).cache
unfolding execute_proof_job
execute_proof_job-Holds started now j job_id b batch_id outcome p s other other' h =
    elim (Bool-cases (is_job_cancelled j (update_job_status started j preparing 10 s))) [
      | inl stopped ↦ rw stopped (updated-Holds started j job_id batch_id preparing 10 p s h)
      | inr on ↦ rw on (
          finish_job-Holds now j job_id b batch_id outcome p _ other other' (
            updated-Holds started j job_id batch_id proving 30 p _
              (updated-Holds started j job_id batch_id preparing 10 p s h)))
    ]

pub get_proof_handler-Holds :
    (now : ℕ) (job_id : Bytes) (batch_id : ℕ) (p : CachedProof) (s : CoreApiState)
    → is_expired now p ≡ false
    → Holds job_id batch_id p s.cache
    → get_proof_handler now job_id s ≡ success p.result
unfolding get_proof_handler get_by_job get_by_batch
get_proof_handler-Holds now job_id batch_id p s live h =
    ap (λ o. proof_answer (of_batch now s.cache o) (lookup job_id s.jobs)) h.job
    ∙ ap (λ o. proof_answer (unless_expired now o) (lookup job_id s.jobs)) h.proof
    ∙ rw live refl
