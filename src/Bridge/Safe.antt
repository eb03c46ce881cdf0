-- ===== src/Bridge/Safe.antt =====
-- What the bridge program has checked where an instruction succeeds.
use zelana.Base.{
  ◌+◌, ◌%◌, ◌≡◌, refl, ap, ◌∙◌, Bool, true, false, List, ◌∷◌, Bytes, length, drop, u64_mod, arith,
  ==_iff, bytes_eq,
}
use zelana.Batch.Witness.{BatchPublicInputs}
use zelana.Bridge.{Result, ok, err, Error, ◌>>=◌, ◌>>◌, refuse_if, AccountMeta, Ledger, Runtime}
use zelana.Bridge.Wire.{
  SubmitBatchHeader, Groth16Proof, parse_header_unaligned, build_verify_instruction_data,
}
use zelana.Bridge.Submit.{
  Config, check_header, commit_state, verify_and_commit, process_submit_batch, load_config,
  read_config, account_at,
}

pub bind-ok :
    {A : Type 0} (r : Result A) (f : A → Result Ledger) (l : Ledger)
    → (r >>= f) ≡ ok l
    → (a : A) × (r ≡ ok a) × (f a ≡ ok l)
unfolding ◌>>=◌
bind-ok (ok a) f l e = (a, refl, e)
bind-ok (err x) f l e = cc

pub then-ok :
    (u : Result Unit) (r : Result Ledger) (l : Ledger) → (u >> r) ≡ ok l → (u ≡ ok tt) × (r ≡ ok l)
unfolding ◌>>◌
then-ok (ok u) r l e = (refl, e)
then-ok (err x) r l e = cc

pub allowed : (t : Bool) (e : Error) → refuse_if t e ≡ ok tt → t ≡ false
unfolding refuse_if
allowed true e h = cc
allowed false e h = refl

check_header-ok :
    (h : SubmitBatchHeader) (config : Config)
    → check_header h config ≡ ok tt
    → (h.prev_batch_index ≡ config.batch_index)
      × (h.new_batch_index ≡ (config.batch_index + 1) % u64_mod)
unfolding check_header ◌>>◌ refuse_if
check_header-ok h config e = ground arith

load_config-ok :
    (bytes : Bytes) (config : Config) → load_config bytes ≡ ok config → config ≡ read_config bytes
unfolding load_config
load_config-ok bytes config e = ground arith

-- The batch that is committed was proved to the verifier program, under the number and the root that
-- are written.
abbrev pub Proved : Runtime → Bytes → Bytes → Bytes → SubmitBatchHeader → Type 0
Proved R verifier_program sequencer vk_account h =
    (proof : Groth16Proof) × (inputs : BatchPublicInputs) × (R.invoke_verifier verifier_program
        sequencer vk_account (build_verify_instruction_data proof inputs)
      ≡ true)
    × (inputs.post_state_root ≡ h.new_state_root)
    × (inputs.batch_id ≡ h.new_batch_index)

module _ (R : Runtime) where
  verify_and_commit-ok :
      (sequencer config_key verifier_program vk_account : Bytes) (recipients : List AccountMeta)
      (ix_data : Bytes) (h : SubmitBatchHeader) (l l' : Ledger)
      → verify_and_commit R sequencer config_key verifier_program vk_account recipients ix_data h l
        ≡ ok l'
      → Proved R verifier_program sequencer vk_account h
        × (length recipients ≡ h.withdrawal_count)
        × (l' ≡ commit_state config_key h l)
  unfolding verify_and_commit
  verify_and_commit-ok sequencer config_key verifier_program vk_account recipients ix_data h l l'
        e =
      let (_, e₁) = then-ok _ _ l' e in
      let (proof, _, e₂) = bind-ok _ _ l' e₁ in
      let (_, e₃) = then-ok _ _ l' e₂ in
      let (inputs, _, e₄) = bind-ok _ _ l' e₃ in
      let (root, e₅) = then-ok _ _ l' e₄ in
      let (id, e₆) = then-ok _ _ l' e₅ in
      let (verified, e₇) = then-ok _ _ l' e₆ in
      let (count, e₈) = then-ok _ _ l' e₇ in
      let (_, e₉) = then-ok _ _ l' e₈ in
      (
        (
          proof,
          inputs,
          ground (arith, allowed _ _ verified),
          ground
              (arith, allowed _ _ root, ==_iff {A = Bytes} inputs.post_state_root h.new_state_root),
          ground (arith, allowed _ _ id),
        ),
        ground (arith, allowed _ _ count),
        ground (arith, e₉),
      )

  -- A batch that the program takes was signed by the sequencer of the configuration, carries on
  -- from its last batch with the next number, and was proved to the verifier program that the
  -- instruction names; only the account of the configuration changes, to the new root and number.
  pub process_submit_batch_lem :
      (sequencer config_account verifier_program vk_account : AccountMeta)
      (recipients : List AccountMeta) (ix_data : Bytes) (l l' : Ledger)
      → process_submit_batch R
          (sequencer ∷ config_account ∷ verifier_program ∷ vk_account ∷ recipients)
          ix_data
          l
        ≡ ok l'
      → let config = read_config (account_at config_account.key l).content in
        (h : SubmitBatchHeader) × (parse_header_unaligned (drop 1 ix_data) ≡ ok h)
        × (sequencer.is_signer ≡ true)
        × (sequencer.key ≡ config.sequencer_authority)
        × (h.prev_batch_index ≡ config.batch_index)
        × (h.new_batch_index ≡ (config.batch_index + 1) % u64_mod)
        × Proved R verifier_program.key sequencer.key vk_account.key h
        × (l' ≡ commit_state config_account.key h l)
  unfolding process_submit_batch
  process_submit_batch_lem sequencer config_account verifier_program vk_account recipients ix_data l
        l' e =
      let (signed, e₁) = then-ok _ _ l' e in
      let (config, loaded, e₂) = bind-ok _ _ l' e₁ in
      let (authority, e₃) = then-ok _ _ l' e₂ in
      let (_, e₄) = then-ok _ _ l' e₃ in
      let (h, parsed, e₅) = bind-ok _ _ l' e₄ in
      let (header, e₆) = then-ok _ _ l' e₅ in
      let same = load_config-ok (account_at config_account.key l).content config loaded in
      let (prev, next) = check_header-ok h config header in
      let (proved, _, committed) =
        verify_and_commit-ok sequencer.key config_account.key verifier_program.key vk_account.key
          recipients (drop 1 ix_data) h l l' e₆ in
      (
        h,
        parsed,
        ground (arith, allowed _ _ signed),
        ground (
          arith,
          allowed _ _ authority,
          same,
          ==_iff {A = Bytes} sequencer.key config.sequencer_authority,
        ),
        prev ∙ ap (λ (c : Config). c.batch_index) same,
        next ∙ ap (λ (c : Config). (c.batch_index + 1) % u64_mod) same,
        proved,
        committed,
      )
