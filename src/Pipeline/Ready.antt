-- ===== src/Pipeline/Ready.antt =====
-- Whatever the service does, the manager stays valid, and no settlement is left half done.
use zelana.Base.{
  ℕ, ◌+◌, ◌<◌, ◌≡◌, sym, ap, ◌∙◌, Bool, true, false, not, ◌||◌, Option, none, some, Bytes, leb,
  u64_mod, arith, Bool-cases, Option-cases, inl, inr, bytes_eq, nat_eq,
}
use mathlib.Core.Path.{subst}
use zelana.Base.Dict.{Dict}
use zelana.AccountTree.Codec.{BigBytes}
use zelana.Shielded.{Poseidon}
use zelana.Router.Signature.{Crypto}
use zelana.Batch.{Batch, is_proved}
use zelana.Batch.Witness.{BatchPublicInputs, BatchWitness}
use zelana.BatchManager.{
  BatchManager, find, batch_settled, batch_finalized, batch_proved, prepare_batch_for_proving,
  check_timeout, current_batch_tx_count,
}
use zelana.BatchManager.Calls.{Result-cases, after}
use zelana.BatchManager.Summaries.{TxSummary}
use zelana.BatchManager.Valid.{IsValid, seal-IsValid}
use zelana.BatchManager.Accepts.{submit_transaction-IsValid}
use zelana.BatchManager.Preserved.{
  timeout-IsValid, prepare-IsValid, batch_proved-IsValid, batch_settled-IsValid,
  batch_finalized-IsValid,
}
use zelana.Pipeline.{
  Pipeline, World, Proving, proof_of, prover_failed, panicked, finish_proving, prove_prepared,
  try_prove, is_some, is_running, resume,
}
use zelana.Pipeline.Settle.{
  settle_statuses, record_settlement, count_failure, finish_settlement, settle_batch, settle_with,
  try_settle, settled_proof, withdrawals_of, mock_submit,
}
use zelana.Pipeline.Settlement.{record_settlement_lem}
use zelana.Pipeline.Stalled.{proof_to_settle-some}
use zelana.Pipeline.Service.{
  Command, submit, seal, force_seal, pause_for, resumes, shutdown, ticks, tick, serve,
}

pub record IsReady (p : Pipeline) : Type 0 where
  pub managed : IsValid p.manager
  pub free : p.settling_batch ≡ none

with_summaries :
    (m : BatchManager) (s : Dict Bytes TxSummary)
    → IsValid m
    → IsValid (record m { tx_summaries = s })
with_summaries m s v = record {
  open_batch = v.open_batch;
  in_proof = v.in_proof;
  in_settlement = v.in_settlement;
  once = v.once;
  unused = v.unused;
}

module _ (B : BigBytes) (C : Crypto) (P : Poseidon) where
  finish_proving-IsReady :
      (id : ℕ) (outcome : Proving) (p : Pipeline)
      → IsReady p
      → IsReady (finish_proving id outcome p).1
  unfolding finish_proving
  finish_proving-IsReady id prover_failed p r = record { managed = r.managed; free = r.free }
  finish_proving-IsReady id panicked p r = r
  finish_proving-IsReady id (proof_of bytes) p r =
      elim (Result-cases (batch_proved p.manager id bytes)) [
        | inl (m', e) ↦ record {
          managed =
              subst IsValid (ground (arith, e))
                (batch_proved-IsValid B C P p.manager id bytes m' r.managed e);
          free = ground (arith, e, r.free);
        }
        | inr (e, refused) ↦ record {
          managed = subst IsValid (ground (arith, refused)) r.managed;
          free = ground (arith, refused, r.free);
        }
      ]

  prove_prepared-IsReady :
      (W : World) (prepared : Option (ℕ × Option BatchPublicInputs × BatchWitness)) (p : Pipeline)
      → IsReady p
      → IsReady (prove_prepared W prepared p).1
  unfolding prove_prepared
  prove_prepared-IsReady W none p r = r
  prove_prepared-IsReady W (some (id, none, witness)) p r = r
  prove_prepared-IsReady W (some (id, some i, witness)) p r =
      finish_proving-IsReady id (W.prove i witness) (record p { proving_batch = some id })
        record { managed = r.managed; free = r.free }

  pub try_prove-IsReady : (W : World) (p : Pipeline) → IsReady p → IsReady (try_prove B C W p).1
  unfolding try_prove
  try_prove-IsReady W p r =
      let (prepared, m) = prepare_batch_for_proving B C p.manager in
      elim (Bool-cases (is_some p.proving_batch || not (is_running p.state))) [
        | inl busy ↦ rw busy r
        | inr idle ↦ rw idle (
            prove_prepared-IsReady W prepared (record p { manager = m })
              record { managed = prepare-IsValid B C P p.manager r.managed; free = r.free })
      ]

  record_settlement-IsValid :
      (b : Batch) (sig : Bytes) (p : Pipeline)
      → IsValid p.manager
      → IsValid (record_settlement B b sig p).1.manager
  unfolding record_settlement
  record_settlement-IsValid b sig p v = elim (Result-cases (batch_settled p.manager b.id sig)) [
    | inl (m₁, e) ↦
        let v₁ = batch_settled-IsValid B C P p.manager b.id sig m₁ v e in
        let m₂ = (batch_finalized B m₁ b.id).1 in
        let v₂ = batch_finalized-IsValid B C P m₁ b.id v₁ in
        elim (Result-cases (batch_finalized B m₁ b.id).0) [
          | inl (d, f) ↦
              subst IsValid (ground (arith, e, f))
                (with_summaries m₂ (settle_statuses b.id b.results m₂.tx_summaries) v₂)
          | inr (x, f) ↦ subst IsValid (ground (arith, e, f)) v₂
        ]
    | inr (x, e) ↦ subst IsValid (ground (arith, e)) v
  ]

  settle_with_only :
      (W : World) (b : Batch) (r : Bytes) (p : Pipeline)
      → let ws = withdrawals_of b.id W.now b.results in
        let p' = (settle_with W (settled_proof C b r) ws p).1 in
        (p'.manager ≡ p.manager) × (p'.settling_batch ≡ p.settling_batch)
  unfolding settle_with mock_submit
  settle_with_only W b r p = ground arith

  finish_settlement-IsReady :
      (W : World) (b : Batch) (answer : Option Bytes) (p : Pipeline)
      → IsValid p.manager
      → find (λ c. is_proved c.state) p.manager.pending_settlement ≡ some b
      → IsReady (finish_settlement B W b (answer, p)).1
  unfolding finish_settlement count_failure
  finish_settlement-IsReady W b none p v there = record {
    managed = subst IsValid (ground arith) v;
    free = ground arith;
  }
  finish_settlement-IsReady W b (some sig) p v there =
      let (_, _, _, _, _, _, _, free, _) = record_settlement_lem B b sig p v there in
      record { managed = record_settlement-IsValid b sig p v; free = free }

  settle_batch-IsReady :
      (W : World) (b : Batch) (p : Pipeline)
      → IsReady p
      → find (λ c. is_proved c.state) p.manager.pending_settlement ≡ some b
      → IsReady (settle_batch B C W b p).1
  unfolding settle_batch
  settle_batch-IsReady W b p r there =
      let ws = withdrawals_of b.id W.now b.results in
      let (root, _, proof) = proof_to_settle-some C b ws in
      let started = record p { settling_batch = some b.id } in
      let (answer, p') = settle_with W (settled_proof C b root) ws started in
      let (same, _) = settle_with_only W b root started in
      subst IsReady (ground (arith, proof)) (
        finish_settlement-IsReady W b answer p' (subst IsValid (sym same) r.managed) (
          ap (λ (m : BatchManager). find (λ c. is_proved c.state) m.pending_settlement) same
          ∙ there))

  try_settle-IsReady : (W : World) (p : Pipeline) → IsReady p → IsReady (try_settle B C W p).1
  unfolding try_settle
  try_settle-IsReady W p r =
      elim (Bool-cases (is_some p.settling_batch || not (is_running p.state))) [
        | inl busy ↦ rw busy r
        | inr idle ↦
            elim (Option-cases (find (λ c. is_proved c.state) p.manager.pending_settlement)) [
              | inl missing ↦ subst IsReady (ground (arith, idle, missing)) r
              | inr (b, there) ↦
                  subst IsReady (ground (arith, idle, there)) (settle_batch-IsReady W b p r there)
            ]
      ]

  tick-IsReady : (W : World) (p : Pipeline) → IsReady p → IsReady (tick B C P W p)
  unfolding tick
  tick-IsReady W p r = elim (Bool-cases (is_running p.state)) [
    | inl runs ↦
        let m = (check_timeout B C P p.manager W.now).1 in
        let r' : IsReady (record p { manager = m }) = record {
          managed = timeout-IsValid B C P p.manager W.now r.managed;
          free = r.free;
        } in
        let proved = (try_prove B C W (record p { manager = m })).1 in
        subst IsReady (ground (arith, runs))
          (try_settle-IsReady W proved (try_prove-IsReady W (record p { manager = m }) r'))
    | inr waits ↦ subst IsReady (ground (arith, waits)) r
  ]

  -- Every command and every tick keeps the manager valid and leaves no settlement half done, while a
  -- number for a new batch is left.
  pub serve-IsReady :
      (dev_mode : Bool) (p : Pipeline) (c : Command)
      → IsReady p
      → p.manager.next_batch_id + 1 < u64_mod
      → IsReady (serve B C P dev_mode p c)
  unfolding serve resume
  serve-IsReady dev_mode p (submit tx now) r room =
      let (m', e, v') = submit_transaction-IsValid B C P p.manager tx now r.managed room in
      record { managed = subst (λ x. IsValid (after p.manager x)) (sym e) v'; free = r.free }
  serve-IsReady dev_mode p seal r room = record {
    managed = seal-IsValid B C P p.manager false r.managed;
    free = r.free;
  }
  serve-IsReady dev_mode p force_seal r room = record {
    managed = seal-IsValid B C P p.manager dev_mode r.managed;
    free = r.free;
  }
  serve-IsReady dev_mode p (pause_for reason) r room = record { managed = r.managed; free = r.free }
  serve-IsReady dev_mode p resumes r room = record {
    managed = subst IsValid (ground arith) r.managed;
    free = ground (arith, r.free);
  }
  serve-IsReady dev_mode p shutdown r room =
      elim (Bool-cases (leb 1 (current_batch_tx_count p.manager))) [
        | inl left ↦ record {
          managed = rw left (seal-IsValid B C P p.manager true r.managed);
          free = r.free;
        }
        | inr empty ↦ record { managed = rw empty r.managed; free = r.free }
      ]
  serve-IsReady dev_mode p (ticks W) r room = tick-IsReady W p r
