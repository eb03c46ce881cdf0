-- ===== src/Bridge/Trips.antt =====
-- What the settler writes is what the program's parser reads, from the header on.
use zelana.Base.{
  ℕ, zero, suc, ◌+◌, ◌-◌, ◌%◌, ◌≤◌, ◌<◌, ◌≡◌, refl, sym, ap, ◌∙◌, false, List, [], ◌∷◌, ◌++◌, Bytes,
  length, ltb, drop, take, u32_mod, u64_mod, arith, drop-append, take-append, length-append,
}
use mathlib.Core.List.{append_assoc}
use zelana.Base.Text.{to_le_bytes, from_le_bytes, length-to_le_bytes, from-to_le_bytes}
use zelana.Batch.Witness.{BatchPublicInputs}
use zelana.Pipeline.{BatchProof}
use zelana.Withdrawals.{TrackedWithdrawal}
use zelana.Bridge.{ok, slice}
use zelana.Bridge.Wire.{
  parse_header_unaligned, parse_public_inputs_unaligned, header_bytes, inputs_bytes, inputs_len,
  header_len,
}

drop-nil : (n : ℕ) → ◌≡◌ {A = Bytes} (drop n []) []
drop-nil zero = refl
drop-nil (suc n) = refl

drop-add : (m n : ℕ) (xs : Bytes) → drop (m + n) xs ≡ drop n (drop m xs)
drop-add zero n xs = let e : 0 + n ≡ n = omega arith in ap (λ (k : ℕ). drop k xs) e
drop-add (suc m) n [] = drop-nil (suc m + n) ∙ sym (drop-nil n)
drop-add (suc m) n (x ∷ xs) =
    let e : suc m + n ≡ suc (m + n) = omega arith in
    ap (λ (k : ℕ). drop k (x ∷ xs)) e ∙ drop-add m n xs

not_short : (a b : ℕ) → b ≤ a → ltb a b ≡ false
not_short a b h = ground arith

-- A slice behind a first part.
slice-skip :
    (n a b : ℕ) (xs ys : Bytes)
    → length xs ≡ n
    → take (b - a) (drop (n + a) (xs ++ ys)) ≡ slice a b ys
slice-skip n a b xs ys e =
    ap (take (b - a)) (drop-add n a (xs ++ ys) ∙ ap (drop a) (drop-append n xs ys e))

abbrev pub IsInputs : BatchPublicInputs → Type 0
IsInputs i =
    (length i.pre_state_root ≡ 32)
    × (length i.post_state_root ≡ 32)
    × (length i.pre_shielded_root ≡ 32)
    × (length i.post_shielded_root ≡ 32)
    × (length i.withdrawal_root ≡ 32)
    × (length i.batch_hash ≡ 32)
    × (i.batch_id < u64_mod)

-- Public inputs whose roots and hash have 32 bytes and whose number fits 64 bits are read back
-- from what the settler writes, whatever follows.
pub parse_public_inputs-inputs_bytes :
    (i : BatchPublicInputs) (rest : Bytes)
    → IsInputs i
    → parse_public_inputs_unaligned (inputs_bytes i ++ rest) ≡ ok i
unfolding parse_public_inputs_unaligned
parse_public_inputs-inputs_bytes i rest (l₁, l₂, l₃, l₄, l₅, l₆, small) =
    let r₆ = i.batch_hash ++ (to_le_bytes 8 i.batch_id ++ rest) in
    let r₅ = i.withdrawal_root ++ r₆ in
    let r₄ = i.post_shielded_root ++ r₅ in
    let r₃ = i.pre_shielded_root ++ r₄ in
    let r₂ = i.post_state_root ++ r₃ in
    let all = i.pre_state_root ++ r₂ in
    let joined : inputs_bytes i ++ rest ≡ all = simp append_assoc in
    let s₁ = λ (a b : ℕ). slice-skip 32 a b i.pre_state_root r₂ l₁ in
    let s₂ = λ (a b : ℕ). slice-skip 32 a b i.post_state_root r₃ l₂ in
    let s₃ = λ (a b : ℕ). slice-skip 32 a b i.pre_shielded_root r₄ l₃ in
    let s₄ = λ (a b : ℕ). slice-skip 32 a b i.post_shielded_root r₅ l₄ in
    let s₅ = λ (a b : ℕ). slice-skip 32 a b i.withdrawal_root r₆ l₅ in
    let f₁ : slice 0 32 all ≡ i.pre_state_root = take-append 32 i.pre_state_root r₂ l₁ in
    let f₂ : slice 32 64 all ≡ i.post_state_root =
      s₁ 0 32 ∙ take-append 32 i.post_state_root r₃ l₂ in
    let f₃ : slice 64 96 all ≡ i.pre_shielded_root =
      s₁ 32 64 ∙ s₂ 0 32 ∙ take-append 32 i.pre_shielded_root r₄ l₃ in
    let f₄ : slice 96 128 all ≡ i.post_shielded_root =
      s₁ 64 96 ∙ s₂ 32 64 ∙ s₃ 0 32 ∙ take-append 32 i.post_shielded_root r₅ l₄ in
    let f₅ : slice 128 160 all ≡ i.withdrawal_root =
      s₁ 96 128 ∙ s₂ 64 96 ∙ s₃ 32 64 ∙ s₄ 0 32 ∙ take-append 32 i.withdrawal_root r₆ l₅ in
    let f₆ : slice 160 192 all ≡ i.batch_hash =
      s₁ 128 160
      ∙ s₂ 96 128
      ∙ s₃ 64 96
      ∙ s₄ 32 64
      ∙ s₅ 0 32
      ∙ take-append 32 i.batch_hash (to_le_bytes 8 i.batch_id ++ rest) l₆ in
    let f₇ : from_le_bytes (slice 192 200 all) ≡ i.batch_id =
      ap from_le_bytes (
        s₁ 160 168
        ∙ s₂ 128 136
        ∙ s₃ 96 104
        ∙ s₄ 64 72
        ∙ s₅ 32 40
        ∙ slice-skip 32 0 8 i.batch_hash (to_le_bytes 8 i.batch_id ++ rest) l₆
        ∙ take-append 8 (to_le_bytes 8 i.batch_id) rest (length-to_le_bytes 8 i.batch_id))
      ∙ from-to_le_bytes 8 i.batch_id small in
    let long : ltb (length all) inputs_len ≡ false = not_short (length all) inputs_len (
      omega (
        arith,
        l₁,
        l₂,
        l₃,
        l₄,
        l₅,
        l₆,
        length-to_le_bytes 8 i.batch_id,
        length-append i.pre_state_root r₂,
        length-append i.post_state_root r₃,
        length-append i.pre_shielded_root r₄,
        length-append i.post_shielded_root r₅,
        length-append i.withdrawal_root r₆,
        length-append i.batch_hash (to_le_bytes 8 i.batch_id ++ rest),
        length-append (to_le_bytes 8 i.batch_id) rest,
      )) in
    ap parse_public_inputs_unaligned joined
    ∙ rw long (λ j. ok (record {
      pre_state_root = f₁ j;
      post_state_root = f₂ j;
      pre_shielded_root = f₃ j;
      post_shielded_root = f₄ j;
      withdrawal_root = f₅ j;
      batch_hash = f₆ j;
      batch_id = f₇ j;
    }))

-- The header that the settler writes is read back where the parser starts at its first byte, if
-- its root has 32 bytes and its numbers fit their words.
pub parse_header-header_bytes :
    (proof : BatchProof) (prev : ℕ) (ws : List TrackedWithdrawal) (rest : Bytes)
    → length proof.public_inputs.post_state_root ≡ 32
    → prev < u64_mod
    → proof.public_inputs.batch_id < u64_mod
    → length proof.proof_bytes < u32_mod
    → length ws < u32_mod
    → parse_header_unaligned (header_bytes proof prev ws ++ rest)
      ≡ ok (record {
        prev_batch_index = prev;
        new_batch_index = proof.public_inputs.batch_id;
        new_state_root = proof.public_inputs.post_state_root;
        proof_len = length proof.proof_bytes;
        withdrawal_count = length ws;
      })
unfolding parse_header_unaligned
parse_header-header_bytes proof prev ws rest root_len small_prev small_id small_proof small_ws =
    let id = proof.public_inputs.batch_id in
    let root = proof.public_inputs.post_state_root in
    let n = length proof.proof_bytes % u32_mod in
    let k = length ws % u32_mod in
    let r₄ = to_le_bytes 4 k ++ rest in
    let r₃ = to_le_bytes 4 n ++ r₄ in
    let r₂ = root ++ r₃ in
    let r₁ = to_le_bytes 8 id ++ r₂ in
    let all = to_le_bytes 8 prev ++ r₁ in
    let joined : header_bytes proof prev ws ++ rest ≡ all = simp append_assoc in
    let s₁ = λ (a b : ℕ). slice-skip 8 a b (to_le_bytes 8 prev) r₁ (length-to_le_bytes 8 prev) in
    let s₂ = λ (a b : ℕ). slice-skip 8 a b (to_le_bytes 8 id) r₂ (length-to_le_bytes 8 id) in
    let s₃ = λ (a b : ℕ). slice-skip 32 a b root r₃ root_len in
    let f₁ : from_le_bytes (slice 0 8 all) ≡ prev =
      ap from_le_bytes (take-append 8 (to_le_bytes 8 prev) r₁ (length-to_le_bytes 8 prev))
      ∙ from-to_le_bytes 8 prev small_prev in
    let f₂ : from_le_bytes (slice 8 16 all) ≡ id =
      ap from_le_bytes (s₁ 0 8 ∙ take-append 8 (to_le_bytes 8 id) r₂ (length-to_le_bytes 8 id))
      ∙ from-to_le_bytes 8 id small_id in
    let f₃ : slice 16 48 all ≡ root = s₁ 8 40 ∙ s₂ 0 32 ∙ take-append 32 root r₃ root_len in
    let f₄ : from_le_bytes (slice 48 52 all) ≡ length proof.proof_bytes =
      ap from_le_bytes
        (s₁ 40 44 ∙ s₂ 32 36 ∙ s₃ 0 4 ∙ take-append 4 (to_le_bytes 4 n) r₄ (length-to_le_bytes 4 n))
      ∙ from-to_le_bytes 4 n (omega arith)
      ∙ omega (arith, small_proof) in
    let f₅ : from_le_bytes (slice 52 56 all) ≡ length ws =
      ap from_le_bytes (
        s₁ 44 48
        ∙ s₂ 36 40
        ∙ s₃ 4 8
        ∙ slice-skip 4 0 4 (to_le_bytes 4 n) r₄ (length-to_le_bytes 4 n)
        ∙ take-append 4 (to_le_bytes 4 k) rest (length-to_le_bytes 4 k))
      ∙ from-to_le_bytes 4 k (omega arith)
      ∙ omega (arith, small_ws) in
    let long : ltb (length all) header_len ≡ false = not_short (length all) header_len (
      omega (
        arith,
        root_len,
        length-to_le_bytes 8 prev,
        length-to_le_bytes 8 id,
        length-to_le_bytes 4 n,
        length-to_le_bytes 4 k,
        length-append (to_le_bytes 8 prev) r₁,
        length-append (to_le_bytes 8 id) r₂,
        length-append root r₃,
        length-append (to_le_bytes 4 n) r₄,
        length-append (to_le_bytes 4 k) rest,
      )) in
    ap parse_header_unaligned joined
    ∙ rw long (λ j. ok (record {
      prev_batch_index = f₁ j;
      new_batch_index = f₂ j;
      new_state_root = f₃ j;
      proof_len = f₄ j;
      withdrawal_count = f₅ j;
    }))
