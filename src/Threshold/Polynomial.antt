-- ===== src/Threshold/Polynomial.antt =====
-- Polynomials of bounded degree over a field of characteristic two, as functions.
use zelana.Base.{ℕ, zero, suc, ◌≡◌, refl, sym, ap, ◌∙◌}
use zelana.Threshold.Field.{
  Field, null_add, add_left_comm, mul_left_comm, add_twice, mul_null, add_mul,
}

module _ {ℓ} {A : Type ℓ} (F : Field A) where
  open F use {add, mul, null, add_assoc, add_comm, add_self, add_null, mul_assoc, mul_comm, mul-add}

  -- A polynomial with so many coefficients.
  abbrev pub IsPoly : ℕ → (A → A) → Type ℓ
  IsPoly zero f = (x : A) → f x ≡ null
  IsPoly (suc n) f = (c : A) × (g : A → A) × IsPoly n g × ((x : A) → f x ≡ add c (mul x (g x)))

  scale-IsPoly : (n : ℕ) (k : A) (f : A → A) → IsPoly n f → IsPoly n (λ x. mul k (f x))
  scale-IsPoly zero k f p = λ x. ap (mul k) (p x) ∙ mul_null F k
  scale-IsPoly (suc n) k f (c, g, p, e) = (
    mul k c,
    λ x. mul k (g x),
    scale-IsPoly n k g p,
    λ x. ap (mul k) (e x) ∙ simp (mul-add, mul_left_comm F),
  )

  add-IsPoly : (n : ℕ) (f f' : A → A) → IsPoly n f → IsPoly n f' → IsPoly n (λ x. add (f x) (f' x))
  add-IsPoly zero f f' p p' = λ x. ap (λ t. add t (f' x)) (p x) ∙ null_add F (f' x) ∙ p' x
  add-IsPoly (suc n) f f' (c, g, p, e) (c', g', p', e') = (
    add c c',
    λ x. add (g x) (g' x),
    add-IsPoly n g g' p p',
    λ x. simp (e, e', mul-add, add_assoc, add_left_comm F),
  )

  grow-IsPoly : (n : ℕ) (f : A → A) → IsPoly n f → IsPoly (suc n) f
  grow-IsPoly zero f p = (
    null,
    λ x. null,
    λ x. refl,
    λ x. p x ∙ sym (add_null null) ∙ ap (add null) (sym (mul_null F x)),
  )
  grow-IsPoly (suc n) f (c, g, p, e) = (c, g, grow-IsPoly n g p, e)

  -- What is left of a polynomial when its value at a point is taken off and the root divided out.
  pub divide :
      (n : ℕ) (z : A) (f : A → A)
      → IsPoly (suc n) f
      → (g : A → A) × IsPoly n g × ((x : A) → f x ≡ add (f z) (mul (add x z) (g x)))
  divide zero z f (c, g, p, e) = (
    λ x. null,
    λ x. refl,
    λ x. same x ∙ sym (same z) ∙ sym (add_null (f z)) ∙ ap (add (f z)) (sym (mul_null F (add x z))),
  )
    where
      same : (x : A) → f x ≡ c
      same x = e x ∙ ap (add c) (ap (mul x) (p x) ∙ mul_null F x) ∙ add_null c
  divide (suc n) z f (c, g, p, e) =
      let (q, pq, eq) = divide n z g p in
      (
        λ x. add (g x) (mul z (q x)),
        add-IsPoly (suc n) g (λ x. mul z (q x)) p
            (grow-IsPoly n (λ x. mul z (q x)) (scale-IsPoly n z q pq)),
        λ x. simp (e, eq x, mul-add, add_mul F, mul_left_comm F, add_assoc, add_comm, add_twice F),
      )
