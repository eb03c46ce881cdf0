-- ===== src/Bridge/Vault.antt =====
-- onchain-programs/bridge/src/instruction: the creation of a bridge, deposits and attested
-- withdrawals. The logs are left out. A write of a whole account lists its fields in memory order.
use zelana.Base.{
  ℕ, ◌+◌, ◌-◌, ◌%◌, Bool, not, List, [], ◌∷◌, ◌++◌, Bytes, length, leb, nat_beq, replicate,
  if◌then◌else◌, ◌==◌, bytes_eq, u64_mod,
}
use zelana.Base.Dict.{insert}
use zelana.Base.Text.{codes, to_le_bytes, from_le_bytes}
use zelana.Bridge.{
  Result, ok, err, ◌>>=◌, ◌>>◌, refuse_if, call, AccountMeta, Ledger, Runtime, slice,
  not_enough_account_keys, missing_required_signature, incorrect_authority,
  invalid_instruction_data, invalid_account_data, invalid_argument, invalid_seeds,
  account_already_initialized,
}
use zelana.Bridge.Submit.{config_len, load_config, account_at}

abbrev pub zero_key : Bytes
zero_key = replicate 32 0

abbrev pub put_content : Bytes → Bytes → Ledger → Ledger
put_content key content l = insert key (record (account_at key l) { content = content }) l

abbrev pub is_empty : Bytes → Bool
is_empty bytes = nat_beq (length bytes) 0

-- `load_acc_mut_unchecked`, then a write of the whole account.
abbrev pub store_account : Bytes → ℕ → Bytes → Ledger → Result Ledger
store_account key len content l =
    if nat_beq (length (account_at key l).content) len
    then ok (put_content key content l)
    else err invalid_account_data

-- `Config::new`, `Vault::new`, `DepositReceipt::new` and `UsedNullifier::new`.
abbrev pub config_bytes : Bytes → Bytes → ℕ → Bytes
config_bytes authority domain bump =
    authority ++ (domain ++ (replicate 32 0 ++ (replicate 8 0 ++ (bump ∷ 1 ∷ replicate 6 0))))

abbrev pub vault_bytes : Bytes → ℕ → Bytes
vault_bytes domain bump = domain ++ (bump ∷ replicate 7 0)

abbrev pub receipt_bytes : Bytes → Bytes → ℕ → ℕ → ℕ → ℕ → Bytes
receipt_bytes depositor domain amount nonce timestamp bump =
    depositor
    ++ (domain
        ++ (to_le_bytes 8 amount
            ++ (to_le_bytes 8 nonce ++ (to_le_bytes 8 timestamp ++ (bump ∷ 1 ∷ replicate 6 0)))))

abbrev pub nullifier_bytes : Bytes → Bytes → Bytes → ℕ → ℕ → Bytes
nullifier_bytes domain nullifier recipient amount bump =
    domain ++ (nullifier ++ (recipient ++ (to_le_bytes 8 amount ++ (1 ∷ bump ∷ replicate 6 0))))

-- `load_ix_data` of the parameters of each instruction.
abbrev pub params_of : ℕ → Bytes → Result Bytes
params_of len ix_data =
    if nat_beq (length ix_data) len then ok ix_data else err invalid_instruction_data

-- `*lamports -= amount`, then `*lamports += amount`.
unfoldable pub move_lamports : Bytes → Bytes → ℕ → Ledger → Ledger
move_lamports from to amount l =
    let a = account_at from l in
    let l' = insert from (record a { lamports = (a.lamports + u64_mod - amount) % u64_mod }) l in
    let b = account_at to l' in
    insert to (record b { lamports = (b.lamports + amount) % u64_mod }) l'

module _ (R : Runtime) where
  abbrev pub derive_config_pda : Bytes → Bytes × ℕ
  derive_config_pda domain = R.find_program_address (codes "config" ∷ domain ∷ [])

  abbrev pub derive_vault_pda : Bytes → Bytes × ℕ
  derive_vault_pda domain = R.find_program_address (codes "vault" ∷ domain ∷ [])

  abbrev pub derive_deposit_receipt_pda : Bytes → Bytes → ℕ → Bytes × ℕ
  derive_deposit_receipt_pda domain depositor nonce =
      R.find_program_address (codes "receipt" ∷ domain ∷ depositor ∷ to_le_bytes 8 nonce ∷ [])

  abbrev pub derive_nullifier_pda : Bytes → Bytes → Bytes × ℕ
  derive_nullifier_pda domain nullifier =
      R.find_program_address (codes "nullifier" ∷ domain ∷ nullifier ∷ [])

  -- From the parameters on.
  unfoldable pub initialize : Bytes → Bytes → Bytes → Bytes → Bytes → Ledger → Result Ledger
  initialize payer config_key vault_key authority domain l = do
    refuse_if (domain == zero_key) invalid_instruction_data
    refuse_if (not (config_key == (derive_config_pda domain).0)) invalid_seeds
    refuse_if (not (vault_key == (derive_vault_pda domain).0)) invalid_seeds
    refuse_if (leb 1 (account_at config_key l).lamports) account_already_initialized
    refuse_if (not (is_empty (account_at config_key l).content)) account_already_initialized
    refuse_if (not (is_empty (account_at vault_key l).content)) account_already_initialized
    l₁ ← call (R.create_account payer config_key (R.minimum_balance config_len) config_len l)
    l₂ ← call (R.create_account payer vault_key (R.minimum_balance 40) 40 l₁)
    refuse_if (not (nat_beq (length (account_at config_key l₂).content) config_len))
        invalid_account_data
    refuse_if (authority == zero_key) invalid_argument
    l₃ ←
        store_account config_key config_len
          (config_bytes authority domain (derive_config_pda domain).1) l₂
    store_account vault_key 40 (vault_bytes domain (derive_vault_pda domain).1) l₃

  unfoldable pub process_initialize : List AccountMeta → Bytes → Ledger → Result Ledger
  process_initialize (payer ∷ config_account ∷ vault_account ∷ system_program ∷ []) ix_data l = do
    refuse_if (not payer.is_signer) missing_required_signature
    params ← params_of 64 ix_data
    initialize payer.key config_account.key vault_account.key (slice 0 32 params)
        (slice 32 64 params) l
  process_initialize _ ix_data l = err not_enough_account_keys

  -- From the parameters on.
  unfoldable pub deposit : Bytes → Bytes → Bytes → Bytes → ℕ → ℕ → Ledger → Result Ledger
  deposit depositor config_key vault_key receipt_key amount nonce l = do
    config ← load_config (account_at config_key l).content
    refuse_if (not (vault_key == (derive_vault_pda config.domain).0)) invalid_seeds
    refuse_if (not (receipt_key == (derive_deposit_receipt_pda config.domain depositor nonce).0))
        invalid_seeds
    refuse_if (not (is_empty (account_at receipt_key l).content)) account_already_initialized
    l₁ ← call (R.transfer depositor vault_key amount l)
    l₂ ← call (R.create_account depositor receipt_key (R.minimum_balance 96) 96 l₁)
    refuse_if (not (nat_beq (length (account_at receipt_key l₂).content) 96)) invalid_account_data
    refuse_if (depositor == zero_key) invalid_argument
    refuse_if (config.domain == zero_key) invalid_argument
    store_account receipt_key 96
        (receipt_bytes depositor config.domain amount nonce R.unix_timestamp
          (derive_deposit_receipt_pda config.domain depositor nonce).1)
        l₂

  unfoldable pub process_deposit : List AccountMeta → Bytes → Ledger → Result Ledger
  process_deposit
        (depositor ∷ config_account ∷ vault_account ∷ receipt_account ∷ system_program ∷ []) ix_data
        l =
      do
        params ← params_of 16 ix_data
        refuse_if (not depositor.is_signer) missing_required_signature
        refuse_if (nat_beq (from_le_bytes (slice 0 8 params)) 0) invalid_instruction_data
        deposit depositor.key config_account.key vault_account.key receipt_account.key
            (from_le_bytes (slice 0 8 params)) (from_le_bytes (slice 8 16 params)) l
  process_deposit _ ix_data l = err not_enough_account_keys

  -- From the checked configuration and the parameters on. The recipient is the account, whatever the
  -- parameters name.
  unfoldable pub withdraw_attested :
      Bytes → Bytes → Bytes → Bytes → Bytes → ℕ → Bytes → Ledger → Result Ledger
  withdraw_attested sequencer domain vault_key recipient nullifier_key amount nullifier l = do
    refuse_if (nat_beq amount 0) invalid_instruction_data
    refuse_if (not (vault_key == (derive_vault_pda domain).0)) invalid_seeds
    refuse_if (not (nullifier_key == (derive_nullifier_pda domain nullifier).0)) invalid_seeds
    refuse_if (not (is_empty (account_at nullifier_key l).content)) invalid_instruction_data
    l₁ ← call (R.create_account sequencer nullifier_key (R.minimum_balance 112) 112 l)
    refuse_if (not (nat_beq (length (account_at nullifier_key l₁).content) 112))
        invalid_account_data
    refuse_if (domain == zero_key) invalid_argument
    refuse_if (nullifier == zero_key) invalid_argument
    l₂ ←
        store_account nullifier_key 112
          (nullifier_bytes domain nullifier recipient amount
            (derive_nullifier_pda domain nullifier).1)
          l₁
    ok (move_lamports vault_key recipient amount l₂)

  unfoldable pub process_withdraw_attested : List AccountMeta → Bytes → Ledger → Result Ledger
  process_withdraw_attested
        (sequencer ∷ config_account ∷ vault_account ∷ recipient ∷ nullifier_account ∷ system_program
          ∷ [])
        ix_data l =
      do
        refuse_if (not sequencer.is_signer) missing_required_signature
        config ← load_config (account_at config_account.key l).content
        refuse_if (not (sequencer.key == config.sequencer_authority)) incorrect_authority
        params ← params_of 72 ix_data
        withdraw_attested sequencer.key config.domain vault_account.key recipient.key
            nullifier_account.key (from_le_bytes (slice 32 40 params)) (slice 40 72 params) l
  process_withdraw_attested _ ix_data l = err not_enough_account_keys
