-- ===== src/Threshold/Interpolate.antt =====
-- Lagrange's interpolation at zero over a field of characteristic two.
use zelana.Base.{◌≡◌, ◌≢◌, refl, sym, ap, ◌∙◌, List, [], ◌∷◌, length}
use mathlib.Core.Path.{ap₂, fun_ext}
use zelana.Threshold.Field.{
  Field, null_add, add_left_comm, mul_left_comm, add_twice, mul_null, null_mul, add_mul, ne_of_add,
  mul_cancel,
}
use zelana.Threshold.Polynomial.{IsPoly, divide}

module _ {ℓ} {A : Type ℓ} (F : Field A) where
  open F use {
    add, mul, inv, null, one, add_assoc, add_comm, add_self, add_null, mul_assoc, mul_comm, mul_one,
    mul-add, mul-inv,
  }

  -- The factor that the point `y` brings to the weight of the point `x`.
  abbrev pub ratio : A → A → A
  ratio x y = mul y (inv (add x y))

  abbrev pub product : (A → A) → List A → A
  product g [] = one
  product g (x ∷ xs) = mul (g x) (product g xs)

  -- The weighted sum of the values at the points: the weight of each is the product of its ratios
  -- to the others, those to the points before it being taken into the function.
  abbrev pub interpolate : (A → A) → List A → A
  interpolate h [] = null
  interpolate h (x ∷ xs) =
      add (mul (h x) (product (ratio x) xs)) (interpolate (λ y. mul (h y) (ratio y x)) xs)

  abbrev pub Differ : A → List A → Type ℓ
  Differ z [] = Unit
  Differ z (x ∷ xs) = (x ≢ z) × Differ z xs

  abbrev pub Distinct : List A → Type ℓ
  Distinct [] = Unit
  Distinct (x ∷ xs) = Differ x xs × Distinct xs

  -- Two functions that agree wherever the point is not `z`.
  interpolate_ext :
      (z : A) (h g : A → A) (xs : List A)
      → ((x : A) → x ≢ z → h x ≡ g x)
      → Differ z xs
      → interpolate h xs ≡ interpolate g xs
  interpolate_ext z h g [] same d = refl
  interpolate_ext z h g (x ∷ xs) same d =
      ap (λ t. add (mul t (product (ratio x) xs)) (interpolate (λ y. mul (h y) (ratio y x)) xs))
        (same x d.0)
      ∙ ap (add (mul (g x) (product (ratio x) xs))) (
          interpolate_ext z (λ y. mul (h y) (ratio y x)) (λ y. mul (g y) (ratio y x)) xs
            (λ y ne. ap (λ t. mul t (ratio y x)) (same y ne)) d.1)

  interpolate_add :
      (h g : A → A) (xs : List A)
      → interpolate (λ x. add (h x) (g x)) xs ≡ add (interpolate h xs) (interpolate g xs)
  interpolate_add h g [] = sym (add_null null)
  interpolate_add h g (x ∷ xs) =
      ap (λ f. add (mul (add (h x) (g x)) (product (ratio x) xs)) (interpolate f xs))
        (fun_ext (λ y. add_mul F (h y) (g y) (ratio y x)))
      ∙ ap (add (mul (add (h x) (g x)) (product (ratio x) xs)))
          (interpolate_add (λ y. mul (h y) (ratio y x)) (λ y. mul (g y) (ratio y x)) xs)
      ∙ regroup (h x) (g x) (product (ratio x) xs) _ _
    where
      regroup :
          (a b p c d : A)
          → add (mul (add a b) p) (add c d) ≡ add (add (mul a p) c) (add (mul b p) d)
      regroup a b p c d = simp (add_mul F, add_assoc, add_left_comm F)

  interpolate_scale :
      (k : A) (h : A → A) (xs : List A)
      → interpolate (λ x. mul k (h x)) xs ≡ mul k (interpolate h xs)
  interpolate_scale k h [] = sym (mul_null F k)
  interpolate_scale k h (x ∷ xs) =
      ap (λ f. add (mul (mul k (h x)) (product (ratio x) xs)) (interpolate f xs))
        (fun_ext (λ y. mul_assoc k (h y) (ratio y x)))
      ∙ ap (add (mul (mul k (h x)) (product (ratio x) xs)))
          (interpolate_scale k (λ y. mul (h y) (ratio y x)) xs)
      ∙ ap (λ t. add t (mul k (interpolate (λ y. mul (h y) (ratio y x)) xs)))
          (mul_assoc k (h x) (product (ratio x) xs))
      ∙ sym (
          mul-add k (mul (h x) (product (ratio x) xs))
            (interpolate (λ y. mul (h y) (ratio y x)) xs))

  mul-ratio : (x z : A) → x ≢ z → mul (add x z) (ratio x z) ≡ z
  mul-ratio x z ne =
      mul_left_comm F (add x z) z (inv (add x z))
      ∙ ap (mul z) (mul-inv (add x z) (ne_of_add F x z ne))
      ∙ mul_one z

  -- A root at the first point takes that point out of the interpolation.
  interpolate_root :
      (z : A) (g : A → A) (xs : List A)
      → Differ z xs
      → interpolate (λ x. mul (add x z) (g x)) (z ∷ xs) ≡ mul z (interpolate g xs)
  interpolate_root z g xs d =
      ap
        (λ t.
          add (mul (mul t (g z)) (product (ratio z) xs))
            (interpolate (λ x. mul (mul (add x z) (g x)) (ratio x z)) xs))
        (add_self z)
      ∙ ap
          (λ t.
            add (mul t (product (ratio z) xs))
              (interpolate (λ x. mul (mul (add x z) (g x)) (ratio x z)) xs))
          (null_mul F (g z))
      ∙ ap (λ t. add t (interpolate (λ x. mul (mul (add x z) (g x)) (ratio x z)) xs))
          (null_mul F (product (ratio z) xs))
      ∙ null_add F _
      ∙ interpolate_ext z (λ x. mul (mul (add x z) (g x)) (ratio x z)) (λ x. mul z (g x)) xs
          (λ x ne.
            ap (λ t. mul t (ratio x z)) (mul_comm (add x z) (g x))
            ∙ mul_assoc (g x) (add x z) (ratio x z)
            ∙ ap (mul (g x)) (mul-ratio x z ne)
            ∙ mul_comm (g x) z)
          d
      ∙ interpolate_scale z g xs

  -- The order of the first two points makes no difference.
  interpolate_swap :
      (h : A → A) (z w : A) (xs : List A) → interpolate h (z ∷ w ∷ xs) ≡ interpolate h (w ∷ z ∷ xs)
  interpolate_swap h z w xs =
      ap
        (λ f.
          add (mul (h z) (mul (ratio z w) (product (ratio z) xs)))
            (add (mul (mul (h w) (ratio w z)) (product (ratio w) xs)) (interpolate f xs)))
        (fun_ext (λ y. exchange (h y) (ratio y z) (ratio y w)))
      ∙ reorder (h z) (ratio z w) (product (ratio z) xs) (h w) (ratio w z) (product (ratio w) xs) _
    where
      exchange : (a b c : A) → mul (mul a b) c ≡ mul (mul a c) b
      exchange a b c = simp (mul_assoc, mul_comm)

      reorder :
          (a b c d e f t : A)
          → add (mul a (mul b c)) (add (mul (mul d e) f) t)
            ≡ add (mul d (mul e f)) (add (mul (mul a b) c) t)
      reorder a b c d e f t = simp (mul_assoc, add_left_comm F)

  -- The weights of distinct points add up to one.
  interpolate_one :
      (z : A) (xs : List A) → Distinct (z ∷ xs) → interpolate (λ x. one) (z ∷ xs) ≡ one
  interpolate_one z [] d = add_null (mul one one) ∙ mul_one one
  interpolate_one z (w ∷ xs) (d, e) =
      mul_cancel F (add z w) _ (ne_of_add F z w (λ h. d.0 (sym h))) (
        sym (interpolate_scale (add z w) (λ x. one) (z ∷ w ∷ xs))
        ∙ ap (λ f. interpolate f (z ∷ w ∷ xs)) (fun_ext between)
        ∙ interpolate_add (λ x. mul (add x z) one) (λ x. mul (add x w) one) (z ∷ w ∷ xs)
        ∙ ap₂ add (interpolate_root z (λ x. one) (w ∷ xs) d ∙ ap (mul z) (interpolate_one w xs e)) (
            interpolate_swap (λ x. mul (add x w) one) z w xs
            ∙ interpolate_root w (λ x. one) (z ∷ xs) (λ h. d.0 (sym h), e.0)
            ∙ ap (mul w) (interpolate_one z xs (d.1, e.1)))
        ∙ simp mul_one)
    where
      between : (x : A) → mul (add z w) one ≡ add (mul (add x z) one) (mul (add x w) one)
      between x = simp (mul_one, add_assoc, add_left_comm F, add_twice F)

  -- As many points as coefficients give the value at zero.
  pub interpolate_lem :
      (f : A → A) (xs : List A) → IsPoly F (length xs) f → Distinct xs → interpolate f xs ≡ f null
  interpolate_lem f [] p d = sym (p null)
  interpolate_lem f (z ∷ xs) p d =
      let (g, pg, split) = divide F (length xs) z f p in
      ap (λ k. interpolate k (z ∷ xs))
        (fun_ext (λ x. split x ∙ ap (λ t. add t (mul (add x z) (g x))) (sym (mul_one (f z)))))
      ∙ interpolate_add (λ x. mul (f z) one) (λ x. mul (add x z) (g x)) (z ∷ xs)
      ∙ ap₂ add
          (interpolate_scale (f z) (λ x. one) (z ∷ xs)
            ∙ ap (mul (f z)) (interpolate_one z xs d)
            ∙ mul_one (f z))
          (interpolate_root z g xs d.0
            ∙ ap (mul z) (interpolate_lem g xs pg d.1)
            ∙ ap (λ t. mul t (g null)) (sym (null_add F z)))
      ∙ sym (split null)
