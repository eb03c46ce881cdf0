-- ===== src/Bridge/Submit.antt =====
-- onchain-programs/bridge/src/instruction/submit_batch.rs, and the account of the configuration. The
-- logs are left out.
use zelana.Base.{
  ℕ, ◌+◌, ◌%◌, not, List, [], ◌∷◌, ◌++◌, Bytes, length, ltb, nat_beq, drop, get_or, if◌then◌else◌,
  ◌==◌, bytes_eq, u64_mod,
}
use zelana.Base.Dict.{lookup, insert}
use zelana.Base.Text.{to_le_bytes, from_le_bytes}
use zelana.Merkle.{unwrap_or}
use zelana.Bridge.{
  Result, ok, err, ◌>>=◌, ◌>>◌, refuse_if, Account, AccountMeta, Ledger, Runtime, slice,
  call_failed, not_enough_account_keys, missing_required_signature, uninitialized_account,
  incorrect_authority, invalid_instruction_data, invalid_account_data,
}
use zelana.Bridge.Wire.{
  SubmitBatchHeader, header_len, proof_size, inputs_len, request_len, parse_header_unaligned,
  parse_proof_unaligned, parse_public_inputs_unaligned, parse_withdrawal_unaligned,
  build_verify_instruction_data,
}

pub record Config : Type 0 where
  pub sequencer_authority : Bytes
  pub domain : Bytes
  pub state_root : Bytes
  pub batch_index : ℕ
  pub bump : ℕ
  pub is_initialized : ℕ

abbrev pub config_len : ℕ
config_len = 112

-- The fields of a `Config` in the memory of an account.
unfoldable pub read_config : Bytes → Config
read_config bytes = record {
  sequencer_authority = slice 0 32 bytes;
  domain = slice 32 64 bytes;
  state_root = slice 64 96 bytes;
  batch_index = from_le_bytes (slice 96 104 bytes);
  bump = get_or bytes 104 0;
  is_initialized = get_or bytes 105 0;
}

-- `load_acc` and `load_acc_mut` of the configuration. The owner of the account is not looked at.
unfoldable pub load_config : Bytes → Result Config
load_config bytes =
    if nat_beq (length bytes) config_len
    then (if nat_beq (read_config bytes).is_initialized 1
        then ok (read_config bytes)
        else err uninitialized_account)
    else err invalid_account_data

-- The memory after a write of `state_root` and of `batch_index`.
abbrev pub write_state : Bytes → ℕ → Bytes → Bytes
write_state state_root batch_index bytes =
    slice 0 64 bytes ++ (state_root ++ (to_le_bytes 8 batch_index ++ drop 104 bytes))

abbrev pub no_account : Account
no_account = record { lamports = 0; content = [] }

abbrev pub account_at : Bytes → Ledger → Account
account_at key l = unwrap_or (lookup key l) no_account

-- The loop over the withdrawal requests.
unfoldable pub check_withdrawals : List AccountMeta → Bytes → ℕ → Result Unit
check_withdrawals [] ix_data offset = ok tt
check_withdrawals (r ∷ rs) ix_data offset =
    let rest = check_withdrawals rs ix_data (offset + request_len) in
    do
      refuse_if (ltb (length ix_data) (offset + request_len)) invalid_instruction_data
      w ← parse_withdrawal_unaligned (slice offset (offset + request_len) ix_data)
      refuse_if (not (r.key == w.recipient)) invalid_account_data
      rest

-- The checks of the header against the configuration, before the proof is read.
unfoldable pub check_header : SubmitBatchHeader → Config → Result Unit
check_header h config = do
  refuse_if (not (nat_beq h.prev_batch_index config.batch_index)) invalid_instruction_data
  refuse_if (not (nat_beq h.new_batch_index ((config.batch_index + 1) % u64_mod)))
      invalid_instruction_data
  refuse_if (not (nat_beq h.proof_len proof_size)) invalid_instruction_data

-- The last two writes.
unfoldable pub commit_state : Bytes → SubmitBatchHeader → Ledger → Ledger
commit_state key h l =
    let a = account_at key l in
    insert key (record a { content = write_state h.new_state_root h.new_batch_index a.content }) l

module _ (R : Runtime) where
  -- From the header on. The data begins with the header.
  unfoldable pub verify_and_commit :
      Bytes
      → Bytes
      → Bytes
      → Bytes
      → List AccountMeta
      → Bytes
      → SubmitBatchHeader
      → Ledger
      → Result Ledger
  verify_and_commit sequencer config_account verifier_program vk_account recipients ix_data h l = do
    refuse_if (ltb (length ix_data) (header_len + proof_size)) invalid_instruction_data
    proof ← parse_proof_unaligned (slice header_len (header_len + proof_size) ix_data)
    refuse_if (ltb (length ix_data) (header_len + proof_size + inputs_len)) invalid_instruction_data
    inputs ←
        parse_public_inputs_unaligned
          (slice (header_len + proof_size) (header_len + proof_size + inputs_len) ix_data)
    refuse_if (not (inputs.post_state_root == h.new_state_root)) invalid_instruction_data
    refuse_if (not (nat_beq inputs.batch_id h.new_batch_index)) invalid_instruction_data
    refuse_if
        (not (
          R.invoke_verifier verifier_program sequencer vk_account
            (build_verify_instruction_data proof inputs)))
        call_failed
    refuse_if (not (nat_beq (length recipients) h.withdrawal_count)) invalid_account_data
    check_withdrawals recipients ix_data (header_len + proof_size + inputs_len)
    ok (commit_state config_account h l)

  unfoldable pub process_submit_batch : List AccountMeta → Bytes → Ledger → Result Ledger
  process_submit_batch (sequencer ∷ config_account ∷ verifier_program ∷ vk_account ∷ recipients)
        ix_data l =
      do
        refuse_if (not sequencer.is_signer) missing_required_signature
        config ← load_config (account_at config_account.key l).content
        refuse_if (not (sequencer.key == config.sequencer_authority)) incorrect_authority
        refuse_if (ltb (length ix_data) (1 + header_len)) invalid_instruction_data
        h ← parse_header_unaligned (drop 1 ix_data)
        check_header h config
        verify_and_commit sequencer.key config_account.key verifier_program.key vk_account.key
            recipients (drop 1 ix_data) h l
  process_submit_batch _ ix_data l = err not_enough_account_keys
