-- ===== src/Pipeline/Service.antt =====
-- The loop of the pipeline service (core/src/sequencer/pipeline.rs): a tick, and the commands.
use zelana.Base.{ℕ, Bool, true, false, List, [], ◌∷◌, Bytes, leb, if◌then◌else◌}
use zelana.AccountTree.Codec.{BigBytes}
use zelana.Shielded.{Poseidon}
use zelana.Router.Types.{TransactionType}
use zelana.Router.Signature.{Crypto}
use zelana.BatchManager.{
  check_timeout, current_batch_tx_count, seal_current_batch_inner, submit_transaction,
}
use zelana.BatchManager.Calls.{after}
use zelana.Merkle.{unwrap_or}
use zelana.Pipeline.{Pipeline, World, try_prove, is_running, pause, resume, stopping}
use zelana.Pipeline.Settle.{try_settle}

-- The commands that change the pipeline, and the tick of the timer.
pub data Command : Type 0 where
  submit : TransactionType → ℕ → Command
  seal : Command
  force_seal : Command
  pause_for : Bytes → Command
  resumes : Command
  shutdown : Command
  ticks : World → Command

abbrev pub is_shutdown : Command → Bool
is_shutdown shutdown = true
is_shutdown _ = false

module _ (B : BigBytes) (C : Crypto) (P : Poseidon) where
  -- Errors of proving and settling are logged, and the tick goes on.
  unfoldable pub tick : World → Pipeline → Pipeline
  tick W p = elim (is_running p.state) [
    | false ↦ p
    | true ↦
        let (_, manager) = check_timeout B C P p.manager W.now in
        let (_, proved) = try_prove B C W (record p { manager = manager }) in
        (try_settle B C W proved).1
  ]

  unfoldable pub serve : Bool → Pipeline → Command → Pipeline
  serve dev_mode p (submit tx now) = record p {
    manager = after p.manager (submit_transaction B C P p.manager tx now);
  }
  serve dev_mode p seal = record p { manager = (seal_current_batch_inner B C P p.manager false).1 }
  serve dev_mode p force_seal = record p {
    manager = (seal_current_batch_inner B C P p.manager dev_mode).1;
  }
  serve dev_mode p (pause_for reason) = pause reason p
  serve dev_mode p resumes = unwrap_or (resume p) p
  serve dev_mode p shutdown = record p {
    state = stopping;
    manager =
        if leb 1 (current_batch_tx_count p.manager)
        then (seal_current_batch_inner B C P p.manager true).1
        else p.manager;
  }
  serve dev_mode p (ticks W) = tick W p

  -- The loop ends after a shutdown.
  unfoldable pub run_service : Bool → Pipeline → List Command → Pipeline
  run_service dev_mode p [] = p
  run_service dev_mode p (c ∷ cs) =
      let p' = serve dev_mode p c in
      let rest = run_service dev_mode p' cs in if is_shutdown c then p' else rest
