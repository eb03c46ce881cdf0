-- ===== src/Pipeline/Retries.antt =====
-- A settlement that keeps failing pauses the pipeline after the configured number of attempts.
use zelana.Base.{ℕ, ◌+◌, ◌<◌, ◌≡◌, ◌∙◌, List, [], ◌∷◌, length, u32_mod, arith}
use mathlib.Core.Path.{subst}
use zelana.AccountTree.Codec.{BigBytes}
use zelana.Shielded.{Poseidon}
use zelana.Router.Signature.{Crypto}
use zelana.Pipeline.{Pipeline, World, paused}
use zelana.Pipeline.Settle.{try_settle, count_failure}
use zelana.Pipeline.Service.{tick}
use zelana.Pipeline.Stalled.{
  Fails, AllFail, IsStalled, try_settle-Fails, before_settlement, before_settlement_keeps,
}

module _ (B : BigBytes) (C : Crypto) (P : Poseidon) where
  tick_runs :
      (W : World) (p : Pipeline) (n retries : ℕ)
      → IsStalled p n retries
      → tick B C P W p ≡ (try_settle B C W (before_settlement B C P W p)).1
  unfolding tick
  tick_runs W p n retries s = ground (arith, s.runs)

  -- A failing tick counts one more failure.
  tick_counts :
      (W : World) (p : Pipeline) (n retries : ℕ)
      → Fails W
      → IsStalled p n retries
      → retries + 1 < n
      → n < u32_mod
      → IsStalled (tick B C P W p) n (retries + 1)
  unfolding count_failure
  tick_counts W p n retries fails s more small =
      let s' = before_settlement_keeps B C P W p n retries s in
      let (b, e) = try_settle-Fails B C P W (before_settlement B C P W p) n retries fails s' in
      let tick_lem = tick_runs W p n retries s ∙ e in
      record {
        limited = ground (arith, tick_lem, s'.limited);
        runs = ground (arith, tick_lem, s'.runs, s'.limited, s'.counted, more, small);
        free = ground (arith, tick_lem);
        serviced = ground (arith, tick_lem, s'.serviced);
        counted = ground (arith, tick_lem, s'.counted, more, small);
        waiting = (s'.waiting.0, ground (arith, tick_lem, s'.waiting.1));
      }

  -- The last one pauses the pipeline.
  tick_pauses :
      (W : World) (p : Pipeline) (n retries : ℕ)
      → Fails W
      → IsStalled p n retries
      → retries + 1 ≡ n
      → n < u32_mod
      → (tick B C P W p).state ≡ paused W.reason
  unfolding count_failure
  tick_pauses W p n retries fails s last small =
      let s' = before_settlement_keeps B C P W p n retries s in
      let (b, e) = try_settle-Fails B C P W (before_settlement B C P W p) n retries fails s' in
      let tick_lem = tick_runs W p n retries s ∙ e in
      ground (arith, tick_lem, s'.limited, s'.counted, last, small)

  abbrev pub ticks_all : List World → Pipeline → Pipeline
  ticks_all [] p = p
  ticks_all (W ∷ Ws) p = ticks_all Ws (tick B C P W p)

  failing_ticks :
      (Ws : List World) (p : Pipeline) (n retries : ℕ)
      → AllFail Ws
      → IsStalled p n retries
      → retries + length Ws < n
      → n < u32_mod
      → IsStalled (ticks_all Ws p) n (retries + length Ws)
  failing_ticks [] p n retries fails s more small = subst (IsStalled p n) (omega arith) s
  failing_ticks (W ∷ Ws) p n retries (fails, rest) s more small =
      subst (IsStalled (ticks_all (W ∷ Ws) p) n) (omega arith) (
        failing_ticks Ws (tick B C P W p) n (retries + 1) rest
          (tick_counts W p n retries fails s (omega arith) small) (omega arith) small)

  -- A pipeline with a proved batch and a service that keeps failing tries at every tick; it keeps
  -- the batch waiting, and the attempt that makes up the configured number pauses the pipeline
  -- with the reason of that attempt.
  pub tick-Fails :
      (Ws : List World) (W : World) (p : Pipeline) (n retries : ℕ)
      → AllFail Ws
      → Fails W
      → IsStalled p n retries
      → retries + length Ws + 1 ≡ n
      → n < u32_mod
      → IsStalled (ticks_all Ws p) n (retries + length Ws)
        × ((tick B C P W (ticks_all Ws p)).state ≡ paused W.reason)
  tick-Fails Ws W p n retries all last s count small =
      let s' = failing_ticks Ws p n retries all s (omega arith) small in
      (s', tick_pauses W (ticks_all Ws p) n (retries + length Ws) last s' count small)
