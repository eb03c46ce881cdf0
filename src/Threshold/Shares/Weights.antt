-- ===== src/Threshold/Shares/Weights.antt =====
-- What the loops over the shares compute, in the field of the bytes.
use Prim.Native.Nat.{bit_xor}
use mathlib.Core.Path.{ap₂}
use mathlib.Core.List.{append-nil, map-append}
use zelana.Base.{
  ℕ, suc, ◌+◌, ◌<◌, ◌≤◌, ◌≡◌, ◌≢◌, ◌⊎◌, inl, inr, refl, sym, ap, ◌∙◌, false, List, [], ◌∷◌, ◌++◌,
  map, length, nat_beq, nat_beq_iff, if◌then◌else◌, arith,
}
use zelana.Threshold.Field.{Field, mul_ne, inv-mul, ne_of_add, mul_left_comm, one_mul}
use zelana.Threshold.Interpolate.{product, ratio, Differ, Distinct}
use zelana.Threshold.Gf256.{mul}
use zelana.Threshold.Gf256.Byte.{Byte, byte_field}
use zelana.Threshold.Shares.{Share, basis}

module _ {ℓ} {A : Type ℓ} (F : Field A) where
  open F use {add, mul, inv, null, one, mul_assoc, mul_comm, mul_one, mul-inv}

  pub product-append :
      (g : A → A) (xs ys : List A) → product F g (xs ++ ys) ≡ mul (product F g xs) (product F g ys)
  product-append g [] ys = sym (one_mul F (product F g ys))
  product-append g (x ∷ xs) ys =
      ap (mul (g x)) (product-append g xs ys)
      ∙ sym (mul_assoc (g x) (product F g xs) (product F g ys))

  sums_ne : (x : A) (xs : List A) → one ≢ null → Differ F x xs → product F (add x) xs ≢ null
  sums_ne x [] o d = o
  sums_ne x (y ∷ ys) o d =
      mul_ne F (add x y) (product F (add x) ys) (ne_of_add F x y (λ e. d.0 (sym e)))
        (sums_ne x ys o d.1)

  inv_one : one ≢ null → inv one ≡ one
  inv_one o = sym (one_mul F (inv one)) ∙ mul-inv one o

  -- A quotient of products is the product of the quotients.
  pub product-ratio :
      (x : A) (xs : List A)
      → one ≢ null
      → Differ F x xs
      → mul (product F (λ y. y) xs) (inv (product F (add x) xs)) ≡ product F (ratio F x) xs
  product-ratio x [] o d = ap (mul one) (inv_one o) ∙ mul_one one
  product-ratio x (y ∷ ys) o d =
      ap (mul (mul y (product F (λ y. y) ys))) (
        inv-mul F (add x y) (product F (add x) ys) (ne_of_add F x y (λ e. d.0 (sym e)))
          (sums_ne x ys o d.1))
      ∙ regroup y (product F (λ y. y) ys) (inv (add x y)) (inv (product F (add x) ys))
      ∙ ap (mul (ratio F x y)) (product-ratio x ys o d.1)
    where
      regroup : (a b c d : A) → mul (mul a b) (mul c d) ≡ mul (mul a c) (mul b d)
      regroup a b c d = simp (mul_assoc, mul_left_comm F)

  pub Differ-append :
      (x : A) (xs ys : List A) → Differ F x xs → Differ F x ys → Differ F x (xs ++ ys)
  Differ-append x [] ys d e = e
  Differ-append x (y ∷ xs) ys d e = (d.0, Differ-append x xs ys d.1 e)

  -- A point stands apart from those before it and from those behind it.
  pub Distinct-split :
      (before : List A) (x : A) (behind : List A)
      → Distinct F (before ++ x ∷ behind)
      → Differ F x before × Differ F x behind
  Distinct-split [] x behind d = (tt, d.0)
  Distinct-split (y ∷ before) x behind d =
      let rest = Distinct-split before x behind d.1 in
      ((λ e. apart before d.0 (sym e), rest.0), rest.1)
    where
      apart : (ys : List A) → Differ F y (ys ++ x ∷ behind) → x ≢ y
      apart [] e = e.0
      apart (z ∷ ys) e = apart ys e.1

-- The loop passes its own share by, and takes every other one in.
pub basis_own :
    (xi i j : ℕ) (share : Share) (shares : List Share) (num den : ℕ)
    → i ≡ j
    → basis xi i j (share ∷ shares) num den ≡ basis xi i (suc j) shares num den
unfolding basis
basis_own xi i j share shares num den e =
    ap
      (λ b.
        basis xi i (suc j) shares (if b then num else mul num share.id)
          (if b then den else mul den (bit_xor xi share.id)))
      ((nat_beq_iff i j).1 e)

pub basis_other :
    (xi i j : ℕ) (share : Share) (shares : List Share) (num den : ℕ)
    → nat_beq i j ≡ false
    → basis xi i j (share ∷ shares) num den
      ≡ basis xi i (suc j) shares (mul num share.id) (mul den (bit_xor xi share.id))
unfolding basis
basis_other xi i j share shares num den e =
    ap
      (λ b.
        basis xi i (suc j) shares (if b then num else mul num share.id)
          (if b then den else mul den (bit_xor xi share.id)))
      e

-- The shares whose identifiers are the given bytes.
module _ (mk : Byte → Share) (mk_id : (x : Byte) → (mk x).id ≡ x.0) where
  open byte_field use {add, one}

  elsewhere : (i j n : ℕ) → (i < j) ⊎ (j + suc n ≤ i) → nat_beq i j ≡ false
  elsewhere i j n (inl before) = ground arith
  elsewhere i j n (inr behind) = ground arith

  onward : (i j n : ℕ) → (i < j) ⊎ (j + suc n ≤ i) → (i < suc j) ⊎ (suc j + n ≤ i)
  onward i j n (inl before) = inl (omega (arith, before))
  onward i j n (inr behind) = inr (omega (arith, behind))

  -- The loop over shares of which none is the one at `i`.
  basis-append :
      (x : Byte) (i j : ℕ) (xs : List Byte) (rest : List Share) (num den : Byte)
      → (i < j) ⊎ (j + length xs ≤ i)
      → basis x.0 i j (map mk xs ++ rest) num.0 den.0
        ≡ basis x.0 i
            (j + length xs)
            rest
            (byte_field.mul num (product byte_field (λ y. y) xs)).0
            (byte_field.mul den (product byte_field (add x) xs)).0
  basis-append x i j [] rest num den h =
      ap (λ t. basis x.0 i t rest num.0 den.0) (omega arith)
      ∙ ap (λ (t : Byte). basis x.0 i (j + 0) rest t.0 den.0) (sym (byte_field.mul_one num))
      ∙ ap (λ (t : Byte). basis x.0 i (j + 0) rest (byte_field.mul num one).0 t.0)
          (sym (byte_field.mul_one den))
  basis-append x i j (y ∷ ys) rest num den h =
      basis_other x.0 i j (mk y) (map mk ys ++ rest) num.0 den.0 (elsewhere i j (length ys) h)
      ∙ ap (λ t. basis x.0 i (suc j) (map mk ys ++ rest) (mul num.0 t) (mul den.0 (bit_xor x.0 t)))
          (mk_id y)
      ∙ basis-append x i (suc j) ys rest (byte_field.mul num y) (byte_field.mul den (add x y))
          (onward i j (length ys) h)
      ∙ ap
          (λ t.
            basis x.0 i t rest
              (byte_field.mul (byte_field.mul num y) (product byte_field (λ y. y) ys)).0
              (byte_field.mul (byte_field.mul den (add x y)) (product byte_field (add x) ys)).0)
          (omega arith)
      ∙ ap₂ (λ (a b : Byte). basis x.0 i (j + suc (length ys)) rest a.0 b.0)
          (byte_field.mul_assoc num y (product byte_field (λ y. y) ys))
          (byte_field.mul_assoc den (add x y) (product byte_field (add x) ys))

  unfoldable pub all_points : (F : Byte → Byte) (before behind : List Byte) → Byte
  all_points F before behind =
      byte_field.mul (byte_field.mul one (product byte_field F before))
        (product byte_field F behind)

  -- The whole loop, for the share that stands between two lists of others.
  pub basis_lem :
      (before : List Byte) (x : Byte) (behind : List Byte)
      → basis x.0 (length before) 0 (map mk (before ++ x ∷ behind)) 1 1
        ≡ ((all_points (λ y. y) before behind).0, (all_points (add x) before behind).0)
  unfolding all_points
  basis_lem before x behind =
      ap (λ t. basis x.0 (length before) 0 t 1 1)
        (map-append mk before (x ∷ behind)
          ∙ ap (λ t. map mk before ++ (mk x ∷ t)) (sym (append-nil (map mk behind))))
      ∙ basis-append x (length before) 0 before (mk x ∷ (map mk behind ++ [])) one one
          (inr (omega arith))
      ∙ basis_own x.0 (length before) (0 + length before) (mk x) (map mk behind ++ []) _ _
          (omega arith)
      ∙ basis-append x (length before) (suc (0 + length before)) behind []
          (byte_field.mul one (product byte_field (λ y. y) before))
          (byte_field.mul one (product byte_field (add x) before)) (inl (omega arith))
      ∙ (unfold basis in refl)
