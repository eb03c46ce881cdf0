-- ===== src/Bridge/Tests.antt =====
-- The theorems on the bridge program at concrete inputs.
use zelana.Base.{
  ℕ, ◌+◌, ◌%◌, ◌≡◌, refl, some, true, false, List, [], ◌∷◌, ◌++◌, Bytes, replicate, drop, u64_mod,
  bytes_eq, bytes_beq,
}
use zelana.Base.Dict.{lookup, insert}
use zelana.Base.Text.{codes, to_le_bytes, from_le_bytes}
use zelana.Samples.{alice, bob}
use zelana.Batch.Witness.{BatchPublicInputs}
use zelana.Pipeline.{BatchProof}
use zelana.Bridge.{Result, ok, AccountMeta, Ledger, Runtime, ◌>>=◌, ◌>>◌, refuse_if}
use zelana.Bridge.Wire.{
  SubmitBatchHeader, submit_data, header_bytes, inputs_bytes, request_bytes, parse_header_unaligned,
  parse_proof_unaligned, parse_public_inputs_unaligned,
}
use zelana.Bridge.Submit.{
  account_at, read_config, load_config, check_header, check_withdrawals, commit_state,
  verify_and_commit, process_submit_batch,
}
use zelana.Bridge.Vault.{config_bytes, withdraw_attested, move_lamports}
use zelana.Bridge.Entry.{process_instruction}
use zelana.Bridge.Refused.{Refuses, process_instruction-submit_data}
use zelana.Bridge.Safe.{Proved, process_submit_batch_lem}
use zelana.Bridge.Replay.{withdraw_attested-once}

-- The first seed is the address of a program account, and every call succeeds.
abbrev first_seed : List Bytes → Bytes × ℕ
first_seed [] = ([], 255)
first_seed (seed ∷ seeds) = (seed, 255)

abbrev runtime : Runtime
runtime = record {
  id = alice;
  find_program_address = first_seed;
  minimum_balance = λ space. 1;
  unix_timestamp = 7;
  transfer = λ from to lamports l. some l;
  create_account = λ payer account lamports space l.
      some (insert account (record { lamports = lamports; content = replicate space 0 }) l);
  invoke_verifier = λ program sequencer vk instruction. true;
}

abbrev ledger : Ledger
ledger =
    (codes "config", record { lamports = 1; content = config_bytes alice bob 254 })
    ∷ (codes "vault", record { lamports = 900; content = [] })
    ∷ []

abbrev signer : AccountMeta
signer = record { key = alice; is_signer = true }

abbrev plain : Bytes → AccountMeta
plain key = record { key = key; is_signer = false }

abbrev inputs : BatchPublicInputs
inputs = record {
  pre_state_root = replicate 32 0;
  post_state_root = bob;
  pre_shielded_root = replicate 32 0;
  post_shielded_root = replicate 32 0;
  withdrawal_root = replicate 32 0;
  batch_hash = alice;
  batch_id = 1;
}

abbrev proof : BatchProof
proof = record { public_inputs = inputs; proof_bytes = replicate 256 7 }

abbrev sent : Bytes
sent =
    3
    ∷ (header_bytes proof 0 []
        ++ (proof.proof_bytes ++ (inputs_bytes proof.public_inputs ++ request_bytes [])))

sent_data : submit_data proof 0 [] ≡ some sent
unfolding submit_data
sent_data = refl

process_instruction-submit_data_example : Refuses (
    process_instruction runtime
      (signer ∷ plain (codes "config") ∷ plain (codes "verifier") ∷ plain (codes "vk") ∷ [])
      sent
      ledger)
process_instruction-submit_data_example =
    process_instruction-submit_data runtime
      (signer ∷ plain (codes "config") ∷ plain (codes "verifier") ∷ plain (codes "vk") ∷ []) ledger
      proof 0 [] sent refl sent_data

abbrev header : SubmitBatchHeader
header = record {
  prev_batch_index = 0;
  new_batch_index = 1;
  new_state_root = bob;
  proof_len = 256;
  withdrawal_count = 0;
}

-- The data with one more byte in front, which the program does take.
taken :
    process_submit_batch runtime
      (signer ∷ plain (codes "config") ∷ plain (codes "verifier") ∷ plain (codes "vk") ∷ [])
      sent
      ledger
    ≡ ok (commit_state (codes "config") header ledger)
unfolding process_submit_batch ◌>>◌ ◌>>=◌ refuse_if load_config read_config parse_header_unaligned
    from_le_bytes to_le_bytes check_header verify_and_commit parse_proof_unaligned
    parse_public_inputs_unaligned bytes_beq lookup check_withdrawals request_bytes
taken = refl

process_submit_batch_lem_example :
    let config = read_config (account_at (codes "config") ledger).content in
    (h : SubmitBatchHeader) × (parse_header_unaligned (drop 1 sent) ≡ ok h)
    × (signer.is_signer ≡ true)
    × (signer.key ≡ config.sequencer_authority)
    × (h.prev_batch_index ≡ config.batch_index)
    × (h.new_batch_index ≡ (config.batch_index + 1) % u64_mod)
    × Proved runtime (codes "verifier") alice (codes "vk") h
    × (commit_state (codes "config") header ledger ≡ commit_state (codes "config") h ledger)
process_submit_batch_lem_example =
    process_submit_batch_lem runtime signer (plain (codes "config")) (plain (codes "verifier"))
      (plain (codes "vk")) [] sent ledger (commit_state (codes "config") header ledger) taken

abbrev withdraw_once : Bytes → ℕ → Ledger → Result Ledger
withdraw_once recipient amount l =
    withdraw_attested runtime alice bob (codes "vault") recipient (codes "nullifier") amount alice l

abbrev after_withdrawal : Ledger
after_withdrawal = move_lamports (codes "vault") bob 300 (
    insert (codes "nullifier")
      (record {
        lamports = 1;
        content = bob ++ (alice ++ (bob ++ (to_le_bytes 8 300 ++ (1 ∷ 255 ∷ replicate 6 0))));
      })
      (insert (codes "nullifier") (record { lamports = 1; content = replicate 112 0 }) ledger))

withdrawn : withdraw_once bob 300 ledger ≡ ok after_withdrawal
unfolding withdraw_attested ◌>>◌ ◌>>=◌ refuse_if bytes_beq lookup insert
withdrawn = refl

withdraw_attested-once_example : Refuses (
    withdraw_attested runtime alice bob
      (codes "vault")
      alice
      (codes "nullifier")
      5
      alice
      after_withdrawal)
withdraw_attested-once_example =
    withdraw_attested-once runtime alice bob (codes "vault") bob (codes "nullifier") 300 alice
      ledger after_withdrawal after_withdrawal alice (codes "vault") alice (codes "nullifier") 5
      withdrawn refl
