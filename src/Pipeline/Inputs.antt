-- ===== src/Pipeline/Inputs.antt =====
-- The public inputs that are proved and those that are settled.
use zelana.Base.{◌≡◌, some, Bytes, arith, Option-cases, inl, inr}
use zelana.Router.Signature.{Crypto}
use zelana.Batch.{Batch}
use zelana.Batch.Witness.{BatchPublicInputs}
use zelana.Prover.{build_public_inputs}
use zelana.Pipeline.Settle.{settled_proof}

-- The settlement of an executed batch submits the public inputs that its proof was made for, with
-- a withdrawal root of its own in place of the one in the proof.
pub settled_proof-build_public_inputs :
    (C : Crypto) (b : Batch) (proved_root settled_root : Bytes) (i : BatchPublicInputs)
    → build_public_inputs C b proved_root ≡ some i
    → (i.withdrawal_root ≡ proved_root)
      × ((settled_proof C b settled_root).public_inputs
          ≡ record i { withdrawal_root = settled_root })
unfolding build_public_inputs
settled_proof-build_public_inputs C b proved_root settled_root i e =
    elim (Option-cases b.post_state_root) [
      | inl missing ↦ ground (arith, missing)
      | inr (s, state) ↦ elim (Option-cases b.post_shielded_root) [
        | inl missing ↦ ground (arith, state, missing)
        | inr (t, shielded) ↦ ground (arith, state, shielded)
      ]
    ]
