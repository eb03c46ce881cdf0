-- ===== src/Bridge/Entry.antt =====
-- onchain-programs/bridge/src/entrypoint.rs: the dispatch of an instruction.
use zelana.Base.{List, [], ◌∷◌, Bytes, nat_beq, if◌then◌else◌}
use zelana.Bridge.{Result, err, AccountMeta, Ledger, Runtime, invalid_instruction_data}
use zelana.Bridge.Submit.{process_submit_batch}
use zelana.Bridge.Vault.{process_initialize, process_deposit, process_withdraw_attested}

-- The first byte is taken off before the instruction reads the others.
unfoldable pub process_instruction : Runtime → List AccountMeta → Bytes → Ledger → Result Ledger
process_instruction R accounts [] l = err invalid_instruction_data
process_instruction R accounts (discriminator ∷ ix_data) l =
    if nat_beq discriminator 0
    then process_initialize R accounts ix_data l
    else if nat_beq discriminator 1
    then process_deposit R accounts ix_data l
    else if nat_beq discriminator 2
    then process_withdraw_attested R accounts ix_data l
    else if nat_beq discriminator 3
    then process_submit_batch R accounts ix_data l
    else err invalid_instruction_data
