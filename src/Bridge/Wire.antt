-- ===== src/Bridge/Wire.antt =====
-- The instruction data of a batch: its parsing, and the data for the verifier
-- (onchain-programs/bridge/src/instruction), and what the settler sends
-- (core/src/sequencer/settlement/settler.rs).
use zelana.Base.{
  ℕ, ◌%◌, Option, none, some, List, [], ◌∷◌, ◌++◌, Bytes, length, ltb, nat_beq, u32_mod,
  if◌then◌else◌,
}
use zelana.Base.Text.{to_le_bytes, from_le_bytes}
use zelana.Bridge.{Result, ok, err, invalid_instruction_data, slice}
use zelana.Batch.Witness.{BatchPublicInputs}
use zelana.Pipeline.{BatchProof}
use zelana.Withdrawals.{TrackedWithdrawal}

pub record SubmitBatchHeader : Type 0 where
  pub prev_batch_index : ℕ
  pub new_batch_index : ℕ
  pub new_state_root : Bytes
  pub proof_len : ℕ
  pub withdrawal_count : ℕ

pub record Groth16Proof : Type 0 where
  pub pi_a : Bytes
  pub pi_b : Bytes
  pub pi_c : Bytes

pub record WithdrawalRequest : Type 0 where
  pub recipient : Bytes
  pub amount : ℕ

abbrev pub header_len : ℕ
header_len = 56

abbrev pub proof_size : ℕ
proof_size = 256

abbrev pub inputs_len : ℕ
inputs_len = 200

abbrev pub request_len : ℕ
request_len = 40

unfoldable pub parse_header_unaligned : Bytes → Result SubmitBatchHeader
parse_header_unaligned bytes =
    if ltb (length bytes) header_len
    then err invalid_instruction_data
    else ok (record {
      prev_batch_index = from_le_bytes (slice 0 8 bytes);
      new_batch_index = from_le_bytes (slice 8 16 bytes);
      new_state_root = slice 16 48 bytes;
      proof_len = from_le_bytes (slice 48 52 bytes);
      withdrawal_count = from_le_bytes (slice 52 56 bytes);
    })

unfoldable pub parse_proof_unaligned : Bytes → Result Groth16Proof
parse_proof_unaligned bytes =
    if ltb (length bytes) proof_size
    then err invalid_instruction_data
    else ok
        (record { pi_a = slice 0 64 bytes; pi_b = slice 64 192 bytes; pi_c = slice 192 256 bytes })

unfoldable pub parse_public_inputs_unaligned : Bytes → Result BatchPublicInputs
parse_public_inputs_unaligned bytes =
    if ltb (length bytes) inputs_len
    then err invalid_instruction_data
    else ok (record {
      pre_state_root = slice 0 32 bytes;
      post_state_root = slice 32 64 bytes;
      pre_shielded_root = slice 64 96 bytes;
      post_shielded_root = slice 96 128 bytes;
      withdrawal_root = slice 128 160 bytes;
      batch_hash = slice 160 192 bytes;
      batch_id = from_le_bytes (slice 192 200 bytes);
    })

unfoldable pub parse_withdrawal_unaligned : Bytes → Result WithdrawalRequest
parse_withdrawal_unaligned bytes =
    if ltb (length bytes) request_len
    then err invalid_instruction_data
    else ok (record { recipient = slice 0 32 bytes; amount = from_le_bytes (slice 32 40 bytes) })

abbrev pub verify_batch_proof_discriminator : Bytes
verify_batch_proof_discriminator = 202 ∷ 206 ∷ 243 ∷ 23 ∷ 40 ∷ 62 ∷ 66 ∷ 55 ∷ []

-- The public inputs as the program and the settler write them.
abbrev pub inputs_bytes : BatchPublicInputs → Bytes
inputs_bytes i =
    i.pre_state_root
    ++ (i.post_state_root
        ++ (i.pre_shielded_root
            ++ (i.post_shielded_root
                ++ (i.withdrawal_root ++ (i.batch_hash ++ to_le_bytes 8 i.batch_id)))))

unfoldable pub build_verify_instruction_data : Groth16Proof → BatchPublicInputs → Bytes
build_verify_instruction_data proof inputs =
    verify_batch_proof_discriminator
    ++ (proof.pi_a ++ (proof.pi_b ++ (proof.pi_c ++ inputs_bytes inputs)))

-- The settler's `WithdrawalRequest`s.
unfoldable pub request_bytes : List TrackedWithdrawal → Bytes
request_bytes [] = []
request_bytes (w ∷ ws) = w.to_l1_address ++ (to_le_bytes 8 w.amount ++ request_bytes ws)

-- The header that the settler writes after the discriminator.
abbrev pub header_bytes : BatchProof → ℕ → List TrackedWithdrawal → Bytes
header_bytes proof prev_batch_id withdrawals =
    let inputs = proof.public_inputs in
    to_le_bytes 8 prev_batch_id
    ++ (to_le_bytes 8 inputs.batch_id
        ++ (inputs.post_state_root
            ++ (to_le_bytes 4 (length proof.proof_bytes % u32_mod)
                ++ to_le_bytes 4 (length withdrawals % u32_mod))))

-- The instruction data of `submit_state_update_with_withdrawals`; `none` is its error for a proof of
-- another length.
unfoldable pub submit_data : BatchProof → ℕ → List TrackedWithdrawal → Option Bytes
submit_data proof prev_batch_id withdrawals =
    if nat_beq (length proof.proof_bytes) proof_size
    then some (
        3
        ∷ (header_bytes proof prev_batch_id withdrawals
            ++ (proof.proof_bytes
                ++ (inputs_bytes proof.public_inputs ++ request_bytes withdrawals))))
    else none
