-- ===== src/Threshold/Delivery.antt =====
-- From the encryption for the committee to the decryption by some of its members.
use mathlib.Core.Path.{subst}
use zelana.Base.{
  ℕ, zero, suc, ◌≤◌, ◌<◌, ◌≡◌, ◌⊎◌, inl, inr, refl, sym, ap, ◌∙◌, Option, Option-cases, none, some,
  List, [], ◌∷◌, map, Bytes, length, arith,
}
use zelana.Threshold.Shares.{
  Share, ThresholdError, Result, ok, err, ids_from, share_of, share_bytes, split_secret,
  combine_shares,
}
use zelana.Threshold.Shares.Polynomials.{AllBytes}
use zelana.Threshold.Shares.Recover.{
  Among, AllAmong, DistinctIds, split_ok, combine_shares-split_secret,
}
use zelana.Threshold.Committee.{
  Sealing, SealingLaws, Committee, LocalCommitteeMember, EncryptedShare, to_member, encrypt_share,
  received, decrypt_share, derive_share_key,
}
use zelana.Threshold.Transactions.{
  EncryptedTransaction, Draws, encrypt_shares, seal_transaction, encrypt_for_committee,
  decrypt_with, decrypt_transaction,
}
use zelana.Threshold.Mempool.{find_share, decrypt_with_member}

length-share_bytes :
    (random : ℕ → ℕ → ℕ) (threshold id first : ℕ) (secret : Bytes)
    → length (share_bytes random threshold id first secret) ≡ length secret
unfolding share_bytes
length-share_bytes random threshold id first [] = refl
length-share_bytes random threshold id first (s ∷ secret) =
    ap suc (length-share_bytes random threshold id (suc first) secret)

id_of : LocalCommitteeMember → ℕ
id_of m = m.id

-- The identifiers of members are those from a number on.
abbrev pub Numbered : ℕ → List LocalCommitteeMember → Type 0
Numbered first [] = Unit
Numbered first (m ∷ locals) = (m.id ≡ first) × Numbered (suc first) locals

Numbered-le :
    (first : ℕ) (locals : List LocalCommitteeMember) (m : LocalCommitteeMember)
    → Numbered first locals
    → Among locals m
    → first ≤ m.id
Numbered-le first [] m n h = absurd h
Numbered-le first (l ∷ locals) m n (inl e) =
    omega (arith, ap (λ (l : LocalCommitteeMember). l.id) e, n.0)
Numbered-le first (l ∷ locals) m n (inr h) = omega (arith, Numbered-le (suc first) locals m n.1 h)

Result-cases :
    {A : Type 0} (r : Result A) → ((e : ThresholdError) × (r ≡ err e)) ⊎ ((a : A) × (r ≡ ok a))
Result-cases (ok a) = inr (a, refl)
Result-cases (err e) = inl (e, refl)

module _ (S : Sealing) (laws : SealingLaws S) where
  -- A member reads the share that was encrypted to it.
  decrypt-encrypt_share :
      (ephemeral_secret nonce : Bytes) (share : Share) (m : LocalCommitteeMember)
      (e : EncryptedShare)
      → length share.value ≡ 32
      → m.id ≡ share.id
      → encrypt_share S ephemeral_secret nonce share (S.public_of m.secret_key) ≡ some e
      → (e.member_id ≡ share.id) × (decrypt_share S m e ≡ some share)
  unfolding encrypt_share decrypt_share derive_share_key received
  decrypt-encrypt_share ephemeral_secret nonce share m e len same sent =
      let key =
        derive_share_key S (S.diffie_hellman ephemeral_secret (S.public_of m.secret_key))
          (S.public_of ephemeral_secret) in
      elim (Option-cases (S.encrypt key nonce share.value)) [
        | inl fails ↦ ground (arith, fails, sent)
        | inr (c, sealed) ↦ ground (
          arith,
          sealed,
          sent,
          len,
          same,
          laws.agreement m.secret_key ephemeral_secret,
          laws.decrypt-encrypt key nonce share.value c sealed,
        )
      ]

  module _ (d : Draws) (make : ℕ → Share) (make_id : (i : ℕ) → (make i).id ≡ i)
      (make_len : (i : ℕ) → length (make i).value ≡ 32) where
    first_share :
        (k : ℕ) (share : Share) (shares : List Share) (l : LocalCommitteeMember)
        (locals : List LocalCommitteeMember) (es : List EncryptedShare)
        → encrypt_shares S d k (share ∷ shares) (map (to_member S) (l ∷ locals)) ≡ some es
        → (e : EncryptedShare) × (rest : List EncryptedShare) × (es ≡ e ∷ rest)
          × (encrypt_share S
                (d.ephemeral_secret k)
                (d.share_nonce k)
                share
                (S.public_of l.secret_key)
              ≡ some e)
          × (encrypt_shares S d (suc k) shares (map (to_member S) locals) ≡ some rest)
    unfolding encrypt_shares to_member
    first_share k share shares l locals es sent =
        elim (Option-cases (
          encrypt_share S (d.ephemeral_secret k) (d.share_nonce k) share
            (S.public_of l.secret_key))) [
              | inl fails ↦ absurd (ground (arith, fails, sent))
              | inr (e, sealed) ↦
                  elim (Option-cases
                    (encrypt_shares S d (suc k) shares (map (to_member S) locals))) [
                      | inl fails ↦ absurd (ground (arith, sealed, fails, sent))
                      | inr (rest, more) ↦
                          (e, rest, ground (arith, sealed, more, sent), sealed, more)
                    ]
            ]

    read_share :
        (k first n : ℕ) (locals : List LocalCommitteeMember) (es : List EncryptedShare)
        (m : LocalCommitteeMember) (s : Share)
        → Numbered first locals
        → encrypt_shares S d k (map make (ids_from first n)) (map (to_member S) locals) ≡ some es
        → Among locals m
        → elim (find_share m.id es) [ none ↦ none | some e ↦ decrypt_share S m e ] ≡ some s
        → Among (map make (ids_from first n)) s
    unfolding encrypt_shares ids_from find_share
    read_share k first zero locals es m s num sent there read = ground (arith, sent, read)
    read_share k first (suc n) [] es m s num sent there read = absurd there
    read_share k first (suc n) (l ∷ locals) es m s num sent there read =
        let (e, rest, es_eq, sealed, more) =
          first_share k (make first) (map make (ids_from (suc first) n)) l locals es sent in
        let own =
          decrypt-encrypt_share (d.ephemeral_secret k) (d.share_nonce k) (make first) l e
            (make_len first) (num.0 ∙ sym (make_id first)) sealed in
        elim there [
          | inl same ↦ inl (ground (arith, read, es_eq, own.0, own.1, same, num.0, make_id first))
          | inr later ↦ inr (
              read_share (suc k) (suc first) n locals rest m s num.1 more later (
                ground (
                  arith,
                  read,
                  es_eq,
                  own.0,
                  make_id first,
                  Numbered-le (suc first) locals m num.1 later,
                )))
        ]

  -- A share that some member of a list reads out of the transaction.
  abbrev pub ReadBy : List LocalCommitteeMember → EncryptedTransaction → Share → Type 0
  ReadBy locals tx s =
      (m : LocalCommitteeMember) × Among locals m × (decrypt_with_member S m tx ≡ some s)

  abbrev pub AllReadBy : List LocalCommitteeMember → EncryptedTransaction → List Share → Type 0
  AllReadBy locals tx [] = Unit
  AllReadBy locals tx (s ∷ shares) = ReadBy locals tx s × AllReadBy locals tx shares

  -- What an encryption for the committee that succeeds has done.
  encrypted :
      (d : Draws) (plaintext : Bytes) (committee : Committee) (hint : Option Bytes)
      (tx : EncryptedTransaction)
      → encrypt_for_committee S d plaintext committee hint ≡ some (ok tx)
      → (shares : List Share) × (split_secret d.coefficient d.symmetric_key
            committee.config.threshold committee.config.total_members
          ≡ ok shares)
        × (encrypt_shares S d 0 shares committee.members ≡ some tx.encrypted_shares)
        × (S.encrypt d.symmetric_key tx.nonce plaintext ≡ some tx.ciphertext)
  unfolding encrypt_for_committee seal_transaction
  encrypted d plaintext committee hint tx done =
      elim (Result-cases (
        split_secret d.coefficient d.symmetric_key committee.config.threshold
          committee.config.total_members)) [
            | inl (e, fails) ↦ absurd (ground (arith, fails, done))
            | inr (shares, split) ↦
                elim (Option-cases (encrypt_shares S d 0 shares committee.members)) [
                  | inl fails ↦ absurd (ground (arith, split, fails, done))
                  | inr (es, sent) ↦
                      elim (Option-cases (S.encrypt d.symmetric_key d.nonce plaintext)) [
                        | inl fails ↦ absurd (ground (arith, split, sent, fails, done))
                        | inr (c, sealed) ↦ (
                          shares,
                          split,
                          ground (arith, split, sent, sealed, done),
                          ground (arith, split, sent, sealed, done),
                        )
                      ]
                ]
          ]

  all_sent :
      (d : Draws) (threshold total : ℕ) (locals : List LocalCommitteeMember)
      (tx : EncryptedTransaction) (chosen : List Share)
      → length d.symmetric_key ≡ 32
      → Numbered 1 locals
      → encrypt_shares S d 0
          (map (share_of d.coefficient threshold d.symmetric_key) (ids_from 1 total))
          (map (to_member S) locals)
        ≡ some tx.encrypted_shares
      → AllReadBy locals tx chosen
      → AllAmong (map (share_of d.coefficient threshold d.symmetric_key) (ids_from 1 total)) chosen
  unfolding decrypt_with_member
  all_sent d threshold total locals tx [] len num sent reads = tt
  all_sent d threshold total locals tx (s ∷ chosen) len num sent (first, reads) = (
    read_share d (share_of d.coefficient threshold d.symmetric_key) (λ i. refl)
        (λ i. length-share_bytes d.coefficient threshold i 0 d.symmetric_key ∙ len) 0 1 total locals
        tx.encrypted_shares first.0 s num sent first.1 first.2,
    all_sent d threshold total locals tx chosen len num sent reads,
  )

  -- A transaction that was encrypted for a committee, whose members are numbered from 1, under a
  -- key of 32 bytes is decrypted to its plaintext by shares that its members have read, as many as
  -- the threshold and no two under one identifier, if the libraries agree on shared secrets and
  -- decrypt what they encrypted.
  pub decrypt_transaction-encrypt_for_committee :
      (d : Draws) (plaintext : Bytes) (committee : Committee) (hint : Option Bytes)
      (locals : List LocalCommitteeMember) (tx : EncryptedTransaction) (chosen : List Share)
      → length d.symmetric_key ≡ 32
      → AllBytes d.symmetric_key
      → ((i j : ℕ) → d.coefficient i j < 256)
      → committee.members ≡ map (to_member S) locals
      → Numbered 1 locals
      → encrypt_for_committee S d plaintext committee hint ≡ some (ok tx)
      → AllReadBy locals tx chosen
      → DistinctIds chosen
      → committee.config.threshold ≤ length chosen
      → decrypt_transaction S tx chosen committee.config.threshold ≡ ok plaintext
  unfolding decrypt_transaction decrypt_with
  decrypt_transaction-encrypt_for_committee d plaintext committee hint locals tx chosen len bytes
        bound keys num done reads distinct enough =
      let (shares, split, sent, sealed) = encrypted d plaintext committee hint tx done in
      let (pos, few, made) =
        split_ok d.coefficient d.symmetric_key committee.config.threshold
          committee.config.total_members shares split in
      let among : AllAmong shares chosen =
        subst (λ t. AllAmong t chosen) (sym made)
          (all_sent d committee.config.threshold committee.config.total_members locals tx chosen len
            num
            (subst
              (λ t. encrypt_shares S d 0 t (map (to_member S) locals) ≡ some tx.encrypted_shares)
              made
              (subst (λ t. encrypt_shares S d 0 shares t ≡ some tx.encrypted_shares) keys sent))
            reads) in
      let key : combine_shares chosen committee.config.threshold ≡ ok d.symmetric_key =
        combine_shares-split_secret d.coefficient d.symmetric_key committee.config.threshold
          committee.config.total_members shares chosen bound len bytes split among distinct
          enough in
      ground
        (arith, key, laws.decrypt-encrypt d.symmetric_key tx.nonce plaintext tx.ciphertext sealed)
