-- ===== src/Threshold/Transactions.antt =====
-- Transactions encrypted to the committee (sdk/threshold/src/encrypted_tx.rs).
use mathlib.Core.Option
use zelana.Base.{ℕ, suc, Option, none, some, List, [], ◌∷◌, ◌++◌, Bytes}
use zelana.Threshold.Shares.{
  Share, Result, ok, err, decryption_failed, split_secret, combine_shares,
}
use zelana.Threshold.Committee.{Sealing, Committee, CommitteeMember, EncryptedShare, encrypt_share}

pub record EncryptedTransaction : Type 0 where
  pub tx_id : Bytes
  pub epoch : ℕ
  pub nonce : Bytes
  pub ciphertext : Bytes
  pub encrypted_shares : List EncryptedShare
  pub timestamp : ℕ
  pub sender_hint : Option Bytes

-- What the generator of random numbers and the clock give.
pub record Draws : Type 0 where
  pub symmetric_key : Bytes
  -- the coefficient of a power, for a byte of the key
  pub coefficient : ℕ → ℕ → ℕ
  pub nonce : Bytes
  -- of the share that is sent at an index
  pub ephemeral_secret : ℕ → Bytes
  pub share_nonce : ℕ → Bytes
  pub now : ℕ

module _ (S : Sealing) where
  open S use {encrypt, decrypt, blake3}

  unfoldable pub compute_id : Bytes → Bytes → Bytes
  compute_id ciphertext nonce = blake3 (nonce ++ ciphertext)

  -- The shares and the members in pairs, as many as there are of both.
  unfoldable pub encrypt_shares :
      Draws → ℕ → List Share → List CommitteeMember → Option (List EncryptedShare)
  unfolding encrypt_share
  encrypt_shares d i [] members = some []
  encrypt_shares d i (share ∷ shares) [] = some []
  encrypt_shares d i (share ∷ shares) (member ∷ members) =
      elim (encrypt_share S (d.ephemeral_secret i) (d.share_nonce i) share member.public_key) [
        | none ↦ none
        | some e ↦ Option.map (λ es. e ∷ es) (encrypt_shares d (suc i) shares members)
      ]

  unfoldable pub seal_transaction :
      Draws → Bytes → Committee → Option Bytes → List EncryptedShare → Result EncryptedTransaction
  unfolding compute_id
  seal_transaction d plaintext committee sender_hint encrypted_shares =
      elim (encrypt d.symmetric_key d.nonce plaintext) [
        | none ↦ err decryption_failed
        | some ciphertext ↦ ok (record {
          tx_id = compute_id ciphertext d.nonce;
          epoch = committee.config.epoch;
          nonce = d.nonce;
          ciphertext = ciphertext;
          encrypted_shares = encrypted_shares;
          timestamp = d.now;
          sender_hint = sender_hint;
        })
      ]

  -- `none` is the panic of a share that cannot be encrypted.
  unfoldable pub encrypt_for_committee :
      Draws → Bytes → Committee → Option Bytes → Option (Result EncryptedTransaction)
  unfolding encrypt_shares seal_transaction
  encrypt_for_committee d plaintext committee sender_hint =
      elim (split_secret d.coefficient d.symmetric_key committee.config.threshold
        committee.config.total_members) [
          | err e ↦ some (err e)
          | ok shares ↦
              Option.map (seal_transaction d plaintext committee sender_hint)
                (encrypt_shares d 0 shares committee.members)
        ]

  unfoldable pub decrypt_with : EncryptedTransaction → Bytes → Result Bytes
  decrypt_with tx symmetric_key = elim (decrypt symmetric_key tx.nonce tx.ciphertext) [
    | none ↦ err decryption_failed
    | some plaintext ↦ ok plaintext
  ]

  unfoldable pub decrypt_transaction : EncryptedTransaction → List Share → ℕ → Result Bytes
  unfolding decrypt_with
  decrypt_transaction tx shares threshold = elim (combine_shares shares threshold) [
    | err e ↦ err e
    | ok symmetric_key ↦ decrypt_with tx symmetric_key
  ]
