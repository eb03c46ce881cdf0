-- ===== src/Threshold/Mempool/Duplicates.antt =====
-- Shares of one member in the place of those of several.
use Prim.Native.Nat.{bit_xor}
use mathlib.Core.Path.{ap₂}
use zelana.Base.{
  ℕ, zero, suc, ◌/◌, ◌≤◌, ◌≡◌, refl, sym, ap, ◌∙◌, Bool-cases, inl, inr, false, List, [], ◌∷◌,
  length, get_or, take, replicate, ltb, nat_beq, nat_beq_iff, arith,
}
use zelana.Base.Xor.{xor_self}
use zelana.Threshold.Gf256.{mul, mul_loop, div}
use zelana.Threshold.Shares.Weights.{basis_own, basis_other}
use zelana.Threshold.Shares.{Share, ok, basis, combine_byte, combine_bytes, combine_shares}

abbrev pub AllId : ℕ → List Share → Type 0
AllId id [] = Unit
AllId id (s ∷ shares) = (s.id ≡ id) × AllId id shares

mul_zero : (a : ℕ) → mul a 0 ≡ 0
unfolding mul
mul_zero a = refl

zero_mul_loop : (k b : ℕ) → mul_loop k 0 b 0 ≡ 0
unfolding mul_loop
zero_mul_loop zero b = refl
zero_mul_loop (suc k) b = ground (arith, zero_mul_loop k (b / 2))

zero_mul : (b : ℕ) → mul 0 b ≡ 0
unfolding mul
zero_mul b = zero_mul_loop 8 b

div_zero : (a : ℕ) → div a 0 ≡ 0
unfolding div
div_zero a = mul_zero a

-- A denominator that is zero stays so.
basis_zero : (xi i j : ℕ) (shares : List Share) (num : ℕ) → (basis xi i j shares num 0).1 ≡ 0
basis_zero xi i j [] num = unfold basis in refl
basis_zero xi i j (s ∷ shares) num = elim (Bool-cases (nat_beq i j)) [
  | inl own ↦
      ap (λ (p : ℕ × ℕ). p.1) (basis_own xi i j s shares num 0 ((nat_beq_iff i j).0 own))
      ∙ basis_zero xi i (suc j) shares num
  | inr other ↦
      ap (λ (p : ℕ × ℕ). p.1)
        (basis_other xi i j s shares num 0 other
          ∙ ap (basis xi i (suc j) shares (mul num s.id)) (zero_mul (bit_xor xi s.id)))
      ∙ basis_zero xi i (suc j) shares (mul num s.id)
]

-- Another share under the identifier makes it zero.
basis_other_zero :
    (xi i j : ℕ) (s : Share) (shares : List Share) (num den : ℕ)
    → s.id ≡ xi
    → nat_beq i j ≡ false
    → (basis xi i j (s ∷ shares) num den).1 ≡ 0
basis_other_zero xi i j s shares num den e other =
    ap (λ (p : ℕ × ℕ). p.1)
      (basis_other xi i j s shares num den other
        ∙ ap (basis xi i (suc j) shares (mul num s.id))
            (ap (λ t. mul den (bit_xor xi t)) e ∙ ap (mul den) (xor_self xi) ∙ mul_zero den))
    ∙ basis_zero xi i (suc j) shares (mul num s.id)

basis_two :
    (xi i : ℕ) (a b : Share) (shares : List Share)
    → a.id ≡ xi
    → b.id ≡ xi
    → (basis xi i 0 (a ∷ b ∷ shares) 1 1).1 ≡ 0
basis_two xi i a b shares ha hb = elim (Bool-cases (nat_beq i 0)) [
  | inr other ↦ basis_other_zero xi i 0 a (b ∷ shares) 1 1 ha other
  | inl own ↦
      ap (λ (p : ℕ × ℕ). p.1) (basis_own xi i 0 a (b ∷ shares) 1 1 ((nat_beq_iff i 0).0 own))
      ∙ basis_other_zero xi i 1 b shares 1 1 hb (ground (arith, own))
]

combine_byte_zero :
    (byte_idx id : ℕ) (a b : Share) (all shares : List Share) (i : ℕ)
    → a.id ≡ id
    → b.id ≡ id
    → AllId id shares
    → combine_byte byte_idx (a ∷ b ∷ all) i shares 0 ≡ 0
unfolding combine_byte
combine_byte_zero byte_idx id a b all [] i ha hb h = refl
combine_byte_zero byte_idx id a b all (s ∷ shares) i ha hb h =
    let next : ℕ → ℕ = λ t. combine_byte byte_idx (a ∷ b ∷ all) (suc i) shares t in
    let p = basis s.id i 0 (a ∷ b ∷ all) 1 1 in
    let y = get_or s.value byte_idx 0 in
    ap (λ den. next (bit_xor 0 (mul y (div p.0 den))))
      (basis_two s.id i a b all (ha ∙ sym h.0) (hb ∙ sym h.0))
    ∙ ap (λ t. next (bit_xor 0 t)) (ap (mul y) (div_zero p.0) ∙ mul_zero y)
    ∙ combine_byte_zero byte_idx id a b all shares (suc i) ha hb h.1

combine_bytes_zero :
    (first n id : ℕ) (a b : Share) (shares : List Share)
    → AllId id (a ∷ b ∷ shares)
    → combine_bytes (a ∷ b ∷ shares) first n ≡ replicate n 0
unfolding combine_bytes
combine_bytes_zero first zero id a b shares h = refl
combine_bytes_zero first (suc n) id a b shares h =
    ap₂ (λ byte bytes. byte ∷ bytes)
      (combine_byte_zero first id a b shares (a ∷ b ∷ shares) 0 h.0 h.1.0 h)
      (combine_bytes_zero (suc first) n id a b shares h)

take-AllId : (n id : ℕ) (shares : List Share) → AllId id shares → AllId id (take n shares)
take-AllId zero id shares h = tt
take-AllId (suc n) id [] h = tt
take-AllId (suc n) id (s ∷ shares) h = (h.0, take-AllId n id shares h.1)

-- With a threshold of two or more, enough shares that all bear one identifier are combined to a
-- key of zeros, whatever their values are: nothing asks for different members.
pub combine_shares-AllId :
    (threshold id : ℕ) (shares : List Share)
    → 2 ≤ threshold
    → threshold ≤ length shares
    → AllId id shares
    → combine_shares shares threshold ≡ ok (replicate 32 0)
unfolding combine_shares
combine_shares-AllId zero id shares k h same = absurd (omega (arith, k))
combine_shares-AllId (suc zero) id shares k h same = absurd (omega (arith, k))
combine_shares-AllId (suc (suc n)) id [] k h same = absurd (omega (arith, h))
combine_shares-AllId (suc (suc n)) id (a ∷ []) k h same = absurd (omega (arith, h))
combine_shares-AllId (suc (suc n)) id (a ∷ b ∷ shares) k h same =
    elim (Bool-cases (ltb (length (a ∷ b ∷ shares)) (suc (suc n)))) [
      | inl short ↦ absurd (ground (arith, short, h))
      | inr there ↦ rw there (
          ap ok (
            combine_bytes_zero 0 32 id a b (take n shares)
              (same.0, (same.1.0, take-AllId n id shares same.1.1))))
    ]
