-- ===== src/Bridge/Replay.antt =====
-- Attested withdrawals: a nullifier is used once, and the funds move from the vault to the recipient.
use zelana.Base.{
  ℕ, ◌+◌, ◌-◌, ◌%◌, ◌≤◌, ◌<◌, ◌≡◌, refl, sym, ap, ◌∙◌, Bool, true, false, [], ◌∷◌, ◌++◌, Bytes,
  length, nat_beq, if◌then◌else◌, u64_mod, arith, Bool-cases, inl, inr, ◌==◌, ==_iff, ==_refl,
  replicate, bytes_eq,
}
use zelana.Base.Dict.{insert, lookup-insert}
use zelana.Base.Text.{to_le_bytes}
use zelana.Bridge.{
  ok, err, Error, refuse_if, Ledger, Runtime, invalid_instruction_data, invalid_seeds,
}
use zelana.Bridge.Submit.{account_at}
use zelana.Bridge.Vault.{
  withdraw_attested, move_lamports, store_account, put_content, nullifier_bytes,
  derive_nullifier_pda, derive_vault_pda, is_empty,
}
use zelana.Bridge.Refused.{Refuses, Refuses-then, refused-then}
use zelana.Bridge.Safe.{bind-ok, then-ok, allowed}

content-put_content :
    (key k content : Bytes) (l : Ledger)
    → (account_at k (put_content key content l)).content
      ≡ (if key == k then content else (account_at k l).content)
content-put_content key k content l =
    ground
      (arith, lookup-insert {K = Bytes} key k (record (account_at key l) { content = content }) l)

-- The contents of accounts stay when lamports move.
content-move_lamports :
    (from to : Bytes) (amount : ℕ) (l : Ledger) (k : Bytes)
    → (account_at k (move_lamports from to amount l)).content ≡ (account_at k l).content
unfolding move_lamports
content-move_lamports from to amount l k =
    let a = account_at from l in
    let a' = record a { lamports = (a.lamports + u64_mod - amount) % u64_mod } in
    let l' = insert from a' l in
    let b = account_at to l' in
    ground (
      arith,
      ==_iff {A = Bytes} from k,
      ==_iff {A = Bytes} to k,
      lookup-insert {K = Bytes} from k a' l,
      lookup-insert {K = Bytes} to k (record b { lamports = (b.lamports + amount) % u64_mod }) l',
    )

-- Where the recipient is not the vault, which holds enough, the amount moves and nothing else does.
pub lamports-move_lamports :
    (from to : Bytes) (amount : ℕ) (l : Ledger) (k : Bytes)
    → (from == to) ≡ false
    → amount ≤ (account_at from l).lamports
    → (account_at from l).lamports < u64_mod
    → (account_at to l).lamports + amount < u64_mod
    → (account_at k (move_lamports from to amount l)).lamports ≡ (
        if to == k
        then (account_at k l).lamports + amount
        else (if from == k then (account_at k l).lamports - amount else (account_at k l).lamports))
unfolding move_lamports
lamports-move_lamports from to amount l k other enough small room =
    let a = account_at from l in
    let a' = record a { lamports = (a.lamports + u64_mod - amount) % u64_mod } in
    let l' = insert from a' l in
    let b = account_at to l' in
    ground (
      arith,
      ==_iff {A = Bytes} from k,
      ==_iff {A = Bytes} to k,
      lookup-insert {K = Bytes} from to a' l,
      lookup-insert {K = Bytes} from k a' l,
      lookup-insert {K = Bytes} to k (record b { lamports = (b.lamports + amount) % u64_mod }) l',
    )

append-nonempty : (xs ys : Bytes) → is_empty ys ≡ false → is_empty (xs ++ ys) ≡ false
append-nonempty [] ys h = h
append-nonempty (x ∷ xs) ys h = ground arith

nullifier_bytes-nonempty :
    (domain nullifier recipient : Bytes) (amount bump : ℕ)
    → is_empty (nullifier_bytes domain nullifier recipient amount bump) ≡ false
nullifier_bytes-nonempty domain nullifier recipient amount bump = append-nonempty domain _ (
    append-nonempty nullifier _ (
      append-nonempty recipient _
        (append-nonempty (to_le_bytes 8 amount) (1 ∷ bump ∷ replicate 6 0) refl)))

refused : (t : Bool) (e : Error) → t ≡ true → refuse_if t e ≡ err e
unfolding refuse_if
refused t e h = ground (arith, h)

store_account-ok :
    (key : Bytes) (len : ℕ) (content : Bytes) (l l' : Ledger)
    → store_account key len content l ≡ ok l'
    → l' ≡ put_content key content l
store_account-ok key len content l l' e =
    ground (arith, Bool-cases (nat_beq (length (account_at key l).content) len))

module _ (R : Runtime) where
  -- A withdrawal marks its nullifier, and moves its amount out of the vault of the domain.
  pub withdraw_attested-ok :
      (sequencer domain vault_key recipient nullifier_key : Bytes) (amount : ℕ) (nullifier : Bytes)
      (l l' : Ledger)
      → withdraw_attested R sequencer domain vault_key recipient nullifier_key amount nullifier l
        ≡ ok l'
      → (vault_key ≡ (derive_vault_pda R domain).0)
        × (nullifier_key ≡ (derive_nullifier_pda R domain nullifier).0)
        × (is_empty (account_at nullifier_key l).content ≡ true)
        × (is_empty (account_at nullifier_key l').content ≡ false)
  unfolding withdraw_attested
  withdraw_attested-ok sequencer domain vault_key recipient nullifier_key amount nullifier l l' e =
      let (_, e₁) = then-ok _ _ l' e in
      let (vault, e₂) = then-ok _ _ l' e₁ in
      let (address, e₃) = then-ok _ _ l' e₂ in
      let (fresh, e₄) = then-ok _ _ l' e₃ in
      let (l₁, _, e₅) = bind-ok _ _ l' e₄ in
      let (_, e₆) = then-ok _ _ l' e₅ in
      let (_, e₇) = then-ok _ _ l' e₆ in
      let (_, e₈) = then-ok _ _ l' e₇ in
      let (l₂, stored, e₉) = bind-ok _ _ l' e₈ in
      let bump = (derive_nullifier_pda R domain nullifier).1 in
      let mark = nullifier_bytes domain nullifier recipient amount bump in
      let put = store_account-ok nullifier_key 112 mark l₁ l₂ stored in
      let moved : l' ≡ move_lamports vault_key recipient amount l₂ = ground (arith, e₉) in
      let marked : (account_at nullifier_key l').content ≡ mark =
        ap (λ (x : Ledger). (account_at nullifier_key x).content) moved
        ∙ content-move_lamports vault_key recipient amount l₂ nullifier_key
        ∙ ap (λ (x : Ledger). (account_at nullifier_key x).content) put
        ∙ ground (
          arith,
          content-put_content nullifier_key nullifier_key mark l₁,
          ==_refl {A = Bytes} nullifier_key,
        ) in
      (
        ground
            (arith, allowed _ _ vault, ==_iff {A = Bytes} vault_key (derive_vault_pda R domain).0),
        ground (
          arith,
          allowed _ _ address,
          ==_iff {A = Bytes} nullifier_key (derive_nullifier_pda R domain nullifier).0,
        ),
        ground (arith, allowed _ _ fresh),
        ap is_empty marked ∙ nullifier_bytes-nonempty domain nullifier recipient amount bump,
      )

  -- A withdrawal is not repeated: once it succeeded, every later one under the same nullifier and
  -- domain is refused, whatever its other accounts and its amount are, while the account of the
  -- nullifier keeps its content.
  pub withdraw_attested-once :
      (sequencer domain vault_key recipient nullifier_key : Bytes) (amount : ℕ) (nullifier : Bytes)
      (l l' : Ledger) (later : Ledger) (sequencer' vault_key' recipient' nullifier_key' : Bytes)
      (amount' : ℕ)
      → withdraw_attested R sequencer domain vault_key recipient nullifier_key amount nullifier l
        ≡ ok l'
      → (account_at nullifier_key later).content ≡ (account_at nullifier_key l').content
      → Refuses (
          withdraw_attested R sequencer' domain vault_key' recipient' nullifier_key' amount'
            nullifier later)
  unfolding withdraw_attested
  withdraw_attested-once sequencer domain vault_key recipient nullifier_key amount nullifier l l'
        later sequencer' vault_key' recipient' nullifier_key' amount' e kept =
      let pda = (derive_nullifier_pda R domain nullifier).0 in
      let (_, address, _, marked) =
        withdraw_attested-ok sequencer domain vault_key recipient nullifier_key amount nullifier l
          l' e in
      Refuses-then _ _ (
        Refuses-then _ _ (elim (Bool-cases (nullifier_key' == pda)) [
          | inr elsewhere ↦
              refused-then _ _ invalid_seeds (refused _ invalid_seeds (ground (arith, elsewhere)))
          | inl here ↦
              let same : nullifier_key' ≡ nullifier_key =
                (==_iff {A = Bytes} nullifier_key' pda).0 here ∙ sym address in
              let used : is_empty (account_at nullifier_key' later).content ≡ false =
                ap (λ (k : Bytes). is_empty (account_at k later).content) same
                ∙ ap is_empty kept
                ∙ marked in
              Refuses-then _ _ (
                refused-then _ _ invalid_instruction_data
                  (refused _ invalid_instruction_data (ground (arith, used))))
        ]))
