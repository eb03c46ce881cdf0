-- ===== src/Threshold/Committee.antt =====
-- The committee and the shares sent to its members (sdk/threshold/src/committee.rs).
use mathlib.Core.Option
use zelana.Base.{
  ℕ, ◌≡◌, Bool, ◌&&◌, Option, none, some, List, ◌++◌, Bytes, length, ltb, leb, nat_beq,
  if◌then◌else◌,
}
use zelana.Threshold.Shares.{Share}

-- The libraries: X25519, ChaCha20-Poly1305 and the two uses of BLAKE3.
pub record Sealing : Type 0 where
  pub public_of : Bytes → Bytes
  -- of a secret key and a public one
  pub diffie_hellman : Bytes → Bytes → Bytes
  -- under a key and a nonce
  pub encrypt : Bytes → Bytes → Bytes → Option Bytes
  pub decrypt : Bytes → Bytes → Bytes → Option Bytes
  pub derive_key : Bytes → Bytes
  pub blake3 : Bytes → Bytes

-- What the documentation of these libraries promises: both sides agree on a shared secret, and
-- decryption undoes encryption.
pub record SealingLaws (S : Sealing) : Type 0 where
  pub agreement :
      (a b : Bytes) → S.diffie_hellman a (S.public_of b) ≡ S.diffie_hellman b (S.public_of a)
  pub decrypt-encrypt :
      (key nonce plaintext ciphertext : Bytes)
      → S.encrypt key nonce plaintext ≡ some ciphertext
      → S.decrypt key nonce ciphertext ≡ some plaintext

pub record CommitteeConfig : Type 0 where
  pub threshold : ℕ
  pub total_members : ℕ
  pub epoch : ℕ

unfoldable pub config_is_valid : CommitteeConfig → Bool
config_is_valid c =
    ltb 0 c.threshold && (leb c.threshold c.total_members && leb c.total_members 255)

pub record CommitteeMember : Type 0 where
  pub id : ℕ
  pub public_key : Bytes
  pub endpoint : Option Bytes

pub record Committee : Type 0 where
  pub config : CommitteeConfig
  pub members : List CommitteeMember
  pub combined_pk : Option Bytes

-- `none` is the failed assertion on the number of members.
unfoldable pub new_committee : CommitteeConfig → List CommitteeMember → Option Committee
new_committee config members =
    if nat_beq (length members) config.total_members
    then some (record { config = config; members = members; combined_pk = none })
    else none

pub record EncryptedShare : Type 0 where
  pub member_id : ℕ
  pub ephemeral_pk : Bytes
  pub nonce : Bytes
  pub ciphertext : Bytes

pub record LocalCommitteeMember : Type 0 where
  pub id : ℕ
  pub secret_key : Bytes

module _ (S : Sealing) where
  open S use {public_of, diffie_hellman, encrypt, decrypt, derive_key}

  unfoldable pub to_member : LocalCommitteeMember → CommitteeMember
  to_member m = record { id = m.id; public_key = public_of m.secret_key; endpoint = none }

  unfoldable pub derive_share_key : Bytes → Bytes → Bytes
  derive_share_key shared_secret ephemeral_pk = derive_key (shared_secret ++ ephemeral_pk)

  -- With the ephemeral secret and the nonce that are drawn; `none` is the panic of `expect`.
  unfoldable pub encrypt_share : Bytes → Bytes → Share → Bytes → Option EncryptedShare
  unfolding derive_share_key
  encrypt_share ephemeral_secret nonce share member_pk =
      let ephemeral_pk = public_of ephemeral_secret in
      let key = derive_share_key (diffie_hellman ephemeral_secret member_pk) ephemeral_pk in
      Option.map
        (λ ciphertext. record {
          member_id = share.id;
          ephemeral_pk = ephemeral_pk;
          nonce = nonce;
          ciphertext = ciphertext;
        })
        (encrypt key nonce share.value)

  unfoldable pub received : ℕ → Bytes → Option Share
  received id plaintext =
      if nat_beq (length plaintext) 32 then some (record { id = id; value = plaintext }) else none

  unfoldable pub decrypt_share : LocalCommitteeMember → EncryptedShare → Option Share
  unfolding derive_share_key received
  decrypt_share m e =
      let key = derive_share_key (diffie_hellman m.secret_key e.ephemeral_pk) e.ephemeral_pk in
      elim (decrypt key e.nonce e.ciphertext) [
        | none ↦ none
        | some plaintext ↦ received m.id plaintext
      ]
