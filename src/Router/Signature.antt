-- ===== src/Router/Signature.antt =====
-- The messages that clients sign and their verification
-- (core/src/sequencer/execution/tx_router.rs).
use zelana.Base.{
  ◌≡◌, Bool, true, not, Option, none, some, [], ◌∷◌, ◌++◌, Bytes, length, ◌==◌, nat_beq, nat_eq,
  bytes_eq, if◌then◌else◌, arith, Bool-cases, inl, inr, ◌⊎◌, ◌↔◌, Option-cases,
}
use zelana.Base.Text.{codes, decimal, to_le_bytes}
use zelana.Router.Types.{
  TransactionData, SignedTransaction, WithdrawRequest, Error, invalid_public_key,
  invalid_signature_length, from_mismatch, serialize_failed, signature_failed,
}

-- The libraries that the router calls: Ed25519, hexadecimal and base 58 text, the binary format of
-- a transfer, and the hash of a transaction.
pub record Crypto : Type 0 where
  pub valid_key : Bytes → Bool
  -- by a key, of a message, with a signature
  pub verify : Bytes → Bytes → Bytes → Bool
  pub hex_encode : Bytes → Bytes
  pub bs58_encode : Bytes → Bytes
  pub serialize : TransactionData → Option Bytes
  pub blake3 : Bytes → Bytes

pub data Result (A : Type 0) : Type 0 where
  ok : A → Result A
  err : Error → Result A

abbrev newline : Bytes
newline = 10 ∷ []

module _ (C : Crypto) where
  open C use {valid_key, verify, hex_encode, bs58_encode, serialize}

  pub build_transfer_message : TransactionData → Bytes
  build_transfer_message d =
      codes "Zelana L2 Transfer"
      ++ (newline
          ++ (newline
              ++ (codes "From: "
                  ++ (hex_encode d.from
                      ++ (newline
                          ++ (codes "To: "
                              ++ (hex_encode d.to
                                  ++ (newline
                                      ++ (codes "Amount: "
                                          ++ (decimal d.amount
                                              ++ (codes " lamports"
                                                  ++ (newline
                                                      ++ (codes "Nonce: "
                                                          ++ (decimal d.nonce
                                                            ++ (newline
                                                            ++ (codes "Chain ID: "
                                                            ++ (decimal d.chain_id
                                                            ++ (newline
                                                            ++ (newline
                                                            ++ codes
                                                            "Sign to authorize this L2 transfer.")))))))))))))))))))

  pub build_withdraw_message : WithdrawRequest → Bytes
  build_withdraw_message w =
      codes "Zelana L2 Withdrawal"
      ++ (newline
          ++ (newline
              ++ (codes "From: "
                  ++ (hex_encode w.from
                      ++ (newline
                          ++ (codes "To L1: "
                              ++ (bs58_encode w.to_l1_address
                                  ++ (newline
                                      ++ (codes "Amount: "
                                          ++ (decimal w.amount
                                              ++ (codes " lamports"
                                                  ++ (newline
                                                      ++ (codes "Nonce: "
                                                          ++ (decimal w.nonce
                                                            ++ (newline
                                                            ++ (newline
                                                            ++ codes
                                                            "Sign to authorize this withdrawal to Solana L1."))))))))))))))))

  pub legacy_withdraw_message : WithdrawRequest → Bytes
  legacy_withdraw_message w =
      w.from ++ (w.to_l1_address ++ (to_le_bytes 8 w.amount ++ to_le_bytes 8 w.nonce))

  abbrev pub check_from : Bytes → Bytes → Result (Unit {0})
  check_from from signer = if from == signer then ok tt else err from_mismatch

  unfoldable pub verify_transfer_signature : SignedTransaction → Result (Unit {0})
  verify_transfer_signature tx =
      if not (valid_key tx.signer_pubkey)
      then err invalid_public_key
      else if not (nat_beq (length tx.signature) 64)
      then err invalid_signature_length
      else if verify tx.signer_pubkey (build_transfer_message tx.tx_data) tx.signature
      then check_from tx.tx_data.from tx.signer_pubkey
      else elim (serialize tx.tx_data) [
        | none ↦ err serialize_failed
        | some bytes ↦
            if verify tx.signer_pubkey bytes tx.signature
            then check_from tx.tx_data.from tx.signer_pubkey
            else err signature_failed
      ]

  pub verify_withdraw_signature : WithdrawRequest → Result (Unit {0})
  verify_withdraw_signature w =
      if not (valid_key w.signer_pubkey)
      then err invalid_public_key
      else if not (nat_beq (length w.signature) 64)
      then err invalid_signature_length
      else if verify w.signer_pubkey (build_withdraw_message w) w.signature
      then check_from w.from w.signer_pubkey
      else if verify w.signer_pubkey (legacy_withdraw_message w) w.signature
      then check_from w.from w.signer_pubkey
      else err signature_failed

  -- The signer is the account that is debited, and it signed one of the two forms of the transfer.
  abbrev pub SignedTransfer : SignedTransaction → Type 0
  SignedTransfer tx =
      (valid_key tx.signer_pubkey ≡ true)
      × (length tx.signature ≡ 64)
      × (tx.tx_data.from ≡ tx.signer_pubkey)
      × ((verify tx.signer_pubkey (build_transfer_message tx.tx_data) tx.signature ≡ true)
          ⊎ ((bytes : Bytes) × (serialize tx.tx_data ≡ some bytes)
              × (verify tx.signer_pubkey bytes tx.signature ≡ true)))

  transfer_form :
      (tx : SignedTransaction)
      → verify_transfer_signature tx ≡ ok tt
      → (verify tx.signer_pubkey (build_transfer_message tx.tx_data) tx.signature ≡ true)
        ⊎ ((bytes : Bytes) × (serialize tx.tx_data ≡ some bytes)
            × (verify tx.signer_pubkey bytes tx.signature ≡ true))
  unfolding verify_transfer_signature
  transfer_form tx h =
      elim (Bool-cases (verify tx.signer_pubkey (build_transfer_message tx.tx_data) tx.signature)) [
        | inl e ↦ inl e
        | inr e ↦ elim (Option-cases (serialize tx.tx_data)) [
          | inl none_there ↦ absurd (ground arith)
          | inr (bytes, there) ↦ inr (bytes, there, ground arith)
        ]
      ]

  -- The check of a transfer's signature passes exactly for a transfer with a valid key and a
  -- signature of 64 bytes, from the account of the key, that the key signed as text or in the
  -- binary form.
  pub verify_transfer_signature_iff :
      (tx : SignedTransaction) → (verify_transfer_signature tx ≡ ok tt) ↔ SignedTransfer tx
  unfolding verify_transfer_signature
  verify_transfer_signature_iff tx = (
    λ h. (
      ground arith,
      ground arith,
      ground (arith, bytes_eq.beq_iff tx.tx_data.from tx.signer_pubkey),
      transfer_form tx h,
    ),
    λ h. ground (arith, bytes_eq.beq_iff tx.tx_data.from tx.signer_pubkey),
  )

  -- The signer is the account that is debited, and it signed one of the two forms of the request.
  abbrev pub SignedWithdraw : WithdrawRequest → Type 0
  SignedWithdraw w =
      (valid_key w.signer_pubkey ≡ true)
      × (length w.signature ≡ 64)
      × (w.from ≡ w.signer_pubkey)
      × ((verify w.signer_pubkey (build_withdraw_message w) w.signature ≡ true)
          ⊎ (verify w.signer_pubkey (legacy_withdraw_message w) w.signature ≡ true))

  -- The check of a withdrawal's signature passes exactly for a request with a valid key and a
  -- signature of 64 bytes, from the account of the key, that the key signed as text or in the
  -- older binary form.
  pub verify_withdraw_signature_iff :
      (w : WithdrawRequest) → (verify_withdraw_signature w ≡ ok tt) ↔ SignedWithdraw w
  unfolding verify_withdraw_signature
  verify_withdraw_signature_iff w = (
    λ h. ground (arith, bytes_eq.beq_iff w.from w.signer_pubkey),
    λ h. ground (arith, bytes_eq.beq_iff w.from w.signer_pubkey),
  )
