-- ===== src/Bridge/Refused.antt =====
-- The batches that the settler sends, as the bridge program reads them.
use zelana.Base.{
  ℕ, zero, suc, ◌/◌, ◌%◌, ◌≡◌, refl, sym, ap, ◌∙◌, false, some, List, [], ◌∷◌, ◌++◌, Bytes, length,
  nat_beq, drop, take, u32_mod, arith, Bool-cases, inl, inr,
}
use mathlib.Core.Path.{subst}
use mathlib.Core.List.{append_assoc}
use zelana.Base.Text.{to_le_bytes, from_le_bytes}
use zelana.Pipeline.{BatchProof}
use zelana.Withdrawals.{TrackedWithdrawal}
use zelana.Bridge.{
  Result, ok, err, Error, ◌>>=◌, ◌>>◌, refuse_if, AccountMeta, Ledger, Runtime, slice,
  not_enough_account_keys, invalid_instruction_data,
}
use zelana.Bridge.Wire.{
  SubmitBatchHeader, proof_size, parse_header_unaligned, submit_data, header_bytes, inputs_bytes,
  request_bytes,
}
use zelana.Bridge.Submit.{Config, check_header, process_submit_batch}
use zelana.Bridge.Entry.{process_instruction}

abbrev pub Refuses : Result Ledger → Type 0
Refuses r = (e : Error) × (r ≡ err e)

pub Refuses-bind :
    {A : Type 0} (r : Result A) (f : A → Result Ledger)
    → ((a : A) → r ≡ ok a → Refuses (f a))
    → Refuses (r >>= f)
unfolding ◌>>=◌
Refuses-bind (ok a) f h = h a refl
Refuses-bind (err e) f h = (e, refl)

pub Refuses-then : (u : Result Unit) (r : Result Ledger) → Refuses r → Refuses (u >> r)
unfolding ◌>>◌
Refuses-then (ok a) r h = h
Refuses-then (err e) r h = (e, refl)

pub refused-then : (u : Result Unit) (r : Result Ledger) (e : Error) → u ≡ err e → Refuses (u >> r)
unfolding ◌>>◌
refused-then u r e h = (e, ground (arith, h))

-- A header of another proof length is refused, whatever the configuration.
check_header_len :
    (h : SubmitBatchHeader) (config : Config)
    → nat_beq h.proof_len proof_size ≡ false
    → check_header h config ≡ err invalid_instruction_data
unfolding check_header ◌>>◌ refuse_if
check_header_len h config other = ground (arith, other)

parse_header_len :
    (bytes : Bytes) (h : SubmitBatchHeader)
    → parse_header_unaligned bytes ≡ ok h
    → h.proof_len ≡ from_le_bytes (slice 48 52 bytes)
unfolding parse_header_unaligned
parse_header_len bytes h e = ground arith

drop-past : (n : ℕ) (xs ys : Bytes) (y : ℕ) → length xs ≡ n → drop (suc n) (xs ++ y ∷ ys) ≡ ys
drop-past zero [] ys y e = refl
drop-past zero (x ∷ xs) ys y e = ground (arith, e)
drop-past (suc n) [] ys y e = ground (arith, e)
drop-past (suc n) (x ∷ xs) ys y e = drop-past n xs ys y (omega (arith, e))

-- The length of the proof, as it is read one byte too late.
misread_len :
    (proof : BatchProof) (prev : ℕ) (ws : List TrackedWithdrawal) (rest : Bytes)
    → length proof.public_inputs.post_state_root ≡ 32
    → length proof.proof_bytes ≡ 256
    → nat_beq (from_le_bytes (slice 48 52 (drop 1 (header_bytes proof prev ws ++ rest)))) proof_size
      ≡ false
unfolding to_le_bytes from_le_bytes
misread_len proof prev ws rest root_len proof_len =
    let root = proof.public_inputs.post_state_root in
    let n = length proof.proof_bytes % u32_mod in
    let k = length ws % u32_mod in
    let later = n / 256 % 256 ∷ to_le_bytes 2 (n / 256 / 256) ++ to_le_bytes 4 k in
    ap (λ (t : Bytes). nat_beq (from_le_bytes (take 4 t)) proof_size)
      (ap (drop 33) (append_assoc root (n % 256 ∷ later) rest)
        ∙ drop-past 32 root (later ++ rest) (n % 256) root_len)
    ∙ ground (arith, proof_len)

submit-Refuses :
    (R : Runtime) (accounts : List AccountMeta) (ix_data : Bytes) (l : Ledger)
    → nat_beq (from_le_bytes (slice 48 52 (drop 1 ix_data))) proof_size ≡ false
    → Refuses (process_submit_batch R accounts ix_data l)
unfolding process_submit_batch
submit-Refuses R [] ix_data l other = (not_enough_account_keys, refl)
submit-Refuses R (a ∷ []) ix_data l other = (not_enough_account_keys, refl)
submit-Refuses R (a ∷ b ∷ []) ix_data l other = (not_enough_account_keys, refl)
submit-Refuses R (a ∷ b ∷ c ∷ []) ix_data l other = (not_enough_account_keys, refl)
submit-Refuses R (a ∷ b ∷ c ∷ d ∷ rs) ix_data l other = Refuses-then _ _ (
    Refuses-bind _ _ (λ config loaded. Refuses-then _ _ (
      Refuses-then _ _ (
        Refuses-bind _ _ (λ h parsed.
          let len : nat_beq h.proof_len proof_size ≡ false =
            ap (λ (n : ℕ). nat_beq n proof_size) (parse_header_len (drop 1 ix_data) h parsed)
            ∙ other in
          refused-then _ _ invalid_instruction_data (check_header_len h config len))))))

-- Whatever the settler makes of a batch with a root of 32 bytes, the bridge program refuses it:
-- the entry point takes the discriminator off, process_submit_batch takes off one more byte, and
-- the length of the proof that it then reads is never that of a proof.
pub process_instruction-submit_data :
    (R : Runtime) (accounts : List AccountMeta) (l : Ledger) (proof : BatchProof) (prev : ℕ)
    (ws : List TrackedWithdrawal) (bytes : Bytes)
    → length proof.public_inputs.post_state_root ≡ 32
    → submit_data proof prev ws ≡ some bytes
    → Refuses (process_instruction R accounts bytes l)
unfolding submit_data process_instruction
process_instruction-submit_data R accounts l proof prev ws bytes root_len e =
    elim (Bool-cases (nat_beq (length proof.proof_bytes) proof_size)) [
      | inr wrong ↦ ground (arith, wrong)
      | inl right ↦
          let rest = proof.proof_bytes ++ (inputs_bytes proof.public_inputs ++ request_bytes ws) in
          let data_ = header_bytes proof prev ws ++ rest in
          let sent : bytes ≡ 3 ∷ data_ = ground (arith, right, e) in
          let len : length proof.proof_bytes ≡ 256 = ground (arith, right) in
          subst (λ (b : Bytes). Refuses (process_instruction R accounts b l)) (sym sent)
            (submit-Refuses R accounts data_ l (misread_len proof prev ws rest root_len len))
    ]
