-- ===== src/Threshold/Shares/Combine.antt =====
-- `combine_byte` interpolates at zero.
use Prim.Native.Nat.{bit_xor}
use mathlib.Core.Path.{ap₂, fun_ext, subst}
use mathlib.Core.List.{append_assoc}
use zelana.Base.{
  ℕ, suc, ◌≡◌, ◌≢◌, refl, sym, ap, ◌∙◌, List, [], ◌∷◌, ◌++◌, map, length, length-append, get_or,
  arith,
}
use zelana.Threshold.Field.{one_mul, null_add}
use zelana.Threshold.Interpolate.{interpolate, product, ratio, Differ, Distinct}
use zelana.Threshold.Gf256.{mul, div}
use zelana.Threshold.Gf256.Byte.{Byte, byte_field}
use zelana.Threshold.Shares.{Share, basis, combine_byte}
use zelana.Threshold.Shares.Weights.{
  all_points, basis_lem, product-append, product-ratio, Differ-append, Distinct-split,
}

module _ (mk : Byte → Share) (mk_id : (x : Byte) → (mk x).id ≡ x.0) where
  open byte_field use {add, one, null, inv, mul_assoc, mul_comm, mul_one, add_assoc, add_null}

  one_ne : one ≢ null
  one_ne e = absurd (omega (arith, ap (λ (t : Byte). t.0) e))

  all_points_lem :
      (g : Byte → Byte) (before behind : List Byte)
      → all_points mk mk_id g before behind ≡ product byte_field g (before ++ behind)
  unfolding all_points
  all_points_lem g before behind =
      ap (λ t. byte_field.mul t (product byte_field g behind))
        (one_mul byte_field (product byte_field g before))
      ∙ sym (product-append byte_field g before behind)

  -- The weight of a share is the product of its ratios to the others.
  weight_lem :
      (before : List Byte) (x : Byte) (behind : List Byte)
      → Differ byte_field x before
      → Differ byte_field x behind
      → div
          (all_points mk mk_id (λ y. y) before behind).0
          (all_points mk mk_id (add x) before behind).0
        ≡ (byte_field.mul
            (product byte_field (ratio byte_field x) before)
            (product byte_field (ratio byte_field x) behind)).0
  unfolding div
  weight_lem before x behind d e =
      ap (λ (t : Byte). t.0)
        (ap₂ (λ a b. byte_field.mul a (inv b)) (all_points_lem (λ y. y) before behind)
            (all_points_lem (add x) before behind)
          ∙ product-ratio byte_field x (before ++ behind) one_ne
              (Differ-append byte_field x before behind d e)
          ∙ product-append byte_field (ratio byte_field x) before behind)

  module _ (f : Byte → Byte) (byte_idx : ℕ)
      (value : (x : Byte) → get_or (mk x).value byte_idx 0 ≡ (f x).0) where
    abbrev weighted : List Byte → Byte → Byte
    weighted before y = byte_field.mul (f y) (product byte_field (ratio byte_field y) before)

    weighted_next :
        (before : List Byte) (x y : Byte)
        → weighted (before ++ x ∷ []) y ≡ byte_field.mul (weighted before y) (ratio byte_field y x)
    weighted_next before x y =
        ap (byte_field.mul (f y)) (
          product-append byte_field (ratio byte_field y) before (x ∷ [])
          ∙ ap (byte_field.mul (product byte_field (ratio byte_field y) before))
              (mul_one (ratio byte_field y x)))
        ∙ sym (
            mul_assoc (f y) (product byte_field (ratio byte_field y) before) (ratio byte_field y x))

    combine_step :
        (before : List Byte) (x : Byte) (behind : List Byte) (r : Byte)
        → Differ byte_field x before
        → Differ byte_field x behind
        → combine_byte byte_idx
            (map mk (before ++ x ∷ behind))
            (length before)
            (map mk (x ∷ behind))
            r.0
          ≡ combine_byte byte_idx
              (map mk (before ++ x ∷ behind))
              (suc (length before))
              (map mk behind)
              (add r (
                byte_field.mul
                  (weighted before x)
                  (product byte_field (ratio byte_field x) behind))).0
    unfolding combine_byte
    combine_step before x behind r d e =
        let all = map mk (before ++ x ∷ behind) in
        let next : ℕ → ℕ = λ t. combine_byte byte_idx all (suc (length before)) (map mk behind) t in
        ap
          (λ i. next (
            bit_xor r.0 (
              mul (get_or (mk x).value byte_idx 0)
                (div (basis i (length before) 0 all 1 1).0 (basis i (length before) 0 all 1 1).1))))
          (mk_id x)
        ∙ ap
            (λ (p : ℕ × ℕ). next (bit_xor r.0 (mul (get_or (mk x).value byte_idx 0) (div p.0 p.1))))
            (basis_lem mk mk_id before x behind)
        ∙ ap₂ (λ v w. next (bit_xor r.0 (mul v w))) (value x) (weight_lem before x behind d e)
        ∙ ap (λ (t : Byte). next (add r t).0)
            (sym (
              mul_assoc (f x) (product byte_field (ratio byte_field x) before)
                (product byte_field (ratio byte_field x) behind)))

    combine_rest :
        (before rest : List Byte) (r : Byte)
        → Distinct byte_field (before ++ rest)
        → combine_byte byte_idx (map mk (before ++ rest)) (length before) (map mk rest) r.0
          ≡ (add r (interpolate byte_field (weighted before) rest)).0
    combine_rest before [] r d =
        let done : combine_byte byte_idx (map mk (before ++ [])) (length before) [] r.0 ≡ r.0 =
          unfold combine_byte in refl in
        done ∙ ap (λ (t : Byte). t.0) (sym (add_null r))
    combine_rest before (x ∷ behind) r d =
        let apart = Distinct-split byte_field before x behind d in
        let r' =
          add r
            (byte_field.mul (weighted before x) (product byte_field (ratio byte_field x) behind)) in
        combine_step before x behind r apart.0 apart.1
        ∙ ap₂ (λ all i. combine_byte byte_idx (map mk all) i (map mk behind) r'.0)
            (sym (append_assoc before (x ∷ []) behind))
            (sym (length-append before (x ∷ []) ∙ omega arith))
        ∙ combine_rest (before ++ x ∷ []) behind r'
            (subst (Distinct byte_field) (sym (append_assoc before (x ∷ []) behind)) d)
        ∙ ap (λ h. (add r' (interpolate byte_field h behind)).0) (fun_ext (weighted_next before x))
        ∙ ap (λ (t : Byte). t.0)
            (add_assoc r
              (byte_field.mul (weighted before x) (product byte_field (ratio byte_field x) behind))
              (interpolate byte_field
                (λ y. byte_field.mul (weighted before y) (ratio byte_field y x)) behind))

    -- The byte that the shares give is the interpolation of their values at zero.
    pub combine_byte_lem :
        (xs : List Byte)
        → Distinct byte_field xs
        → combine_byte byte_idx (map mk xs) 0 (map mk xs) 0 ≡ (interpolate byte_field f xs).0
    combine_byte_lem xs d =
        combine_rest [] xs null d
        ∙ ap (λ h. (add null (interpolate byte_field h xs)).0) (fun_ext (λ y. mul_one (f y)))
        ∙ ap (λ (t : Byte). t.0) (null_add byte_field (interpolate byte_field f xs))
