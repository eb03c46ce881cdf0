-- ===== src/Threshold/Field.antt =====
-- Fields of characteristic two, of which the bytes of sdk/threshold/src/shares.rs are one: the laws
-- that the secret sharing stands on, behind an interface.
use zelana.Base.{◌≡◌, ◌≢◌, sym, ap, ◌∙◌}

pub record Field {ℓ} (A : Type ℓ) : Type ℓ where
  pub add : A → A → A
  pub mul : A → A → A
  pub inv : A → A
  pub null : A
  pub one : A
  pub add_assoc : (a b c : A) → add (add a b) c ≡ add a (add b c)
  pub add_comm : (a b : A) → add a b ≡ add b a
  pub add_self : (a : A) → add a a ≡ null
  pub add_null : (a : A) → add a null ≡ a
  pub mul_assoc : (a b c : A) → mul (mul a b) c ≡ mul a (mul b c)
  pub mul_comm : (a b : A) → mul a b ≡ mul b a
  pub mul_one : (a : A) → mul a one ≡ a
  pub mul-add : (a b c : A) → mul a (add b c) ≡ add (mul a b) (mul a c)
  pub mul-inv : (a : A) → a ≢ null → mul a (inv a) ≡ one

module _ {ℓ} {A : Type ℓ} (F : Field A) where
  open F use {
    add, mul, inv, null, one, add_assoc, add_comm, add_self, add_null, mul_assoc, mul_comm, mul_one,
    mul-add, mul-inv,
  }

  pub null_add : (a : A) → add null a ≡ a
  null_add a = add_comm null a ∙ add_null a

  pub one_mul : (a : A) → mul one a ≡ a
  one_mul a = mul_comm one a ∙ mul_one a

  pub add_left_comm : (a b c : A) → add a (add b c) ≡ add b (add a c)
  add_left_comm a b c = sym (add_assoc a b c) ∙ ap (λ t. add t c) (add_comm a b) ∙ add_assoc b a c

  pub mul_left_comm : (a b c : A) → mul a (mul b c) ≡ mul b (mul a c)
  mul_left_comm a b c = sym (mul_assoc a b c) ∙ ap (λ t. mul t c) (mul_comm a b) ∙ mul_assoc b a c

  pub add_twice : (a b : A) → add a (add a b) ≡ b
  add_twice a b = sym (add_assoc a a b) ∙ ap (λ t. add t b) (add_self a) ∙ null_add b

  pub mul_null : (a : A) → mul a null ≡ null
  mul_null a = ap (mul a) (sym (add_self null)) ∙ mul-add a null null ∙ add_self (mul a null)

  pub null_mul : (a : A) → mul null a ≡ null
  null_mul a = mul_comm null a ∙ mul_null a

  pub add_mul : (a b c : A) → mul (add a b) c ≡ add (mul a c) (mul b c)
  add_mul a b c = simp (mul_comm, mul-add)

  -- What differs has a sum that can be divided by.
  pub ne_of_add : (a b : A) → a ≢ b → add a b ≢ null
  ne_of_add a b ne e = ne (sym (add_twice b a) ∙ ap (add b) (add_comm b a ∙ e) ∙ add_null b)

  pub mul_cancel : (a b : A) → a ≢ null → mul a b ≡ a → b ≡ one
  mul_cancel a b ne e =
      sym (mul_one b)
      ∙ ap (mul b) (sym (mul-inv a ne))
      ∙ sym (mul_assoc b a (inv a))
      ∙ ap (λ t. mul t (inv a)) (mul_comm b a ∙ e)
      ∙ mul-inv a ne

  -- There are no divisors of zero, and inverses multiply.
  pub mul_ne : (a b : A) → a ≢ null → b ≢ null → mul a b ≢ null
  mul_ne a b p q e = q (
      sym (one_mul b)
      ∙ ap (λ t. mul t b) (sym (mul-inv a p) ∙ mul_comm a (inv a))
      ∙ mul_assoc (inv a) a b
      ∙ ap (mul (inv a)) e
      ∙ mul_null (inv a))

  pub inv-mul : (a b : A) → a ≢ null → b ≢ null → inv (mul a b) ≡ mul (inv a) (inv b)
  inv-mul a b p q =
      sym (mul_one (inv (mul a b)))
      ∙ ap (mul (inv (mul a b))) (sym units)
      ∙ sym (mul_assoc (inv (mul a b)) (mul a b) (mul (inv a) (inv b)))
      ∙ ap (λ t. mul t (mul (inv a) (inv b)))
          (mul_comm (inv (mul a b)) (mul a b) ∙ mul-inv (mul a b) (mul_ne a b p q))
      ∙ one_mul (mul (inv a) (inv b))
    where
      units : mul (mul a b) (mul (inv a) (inv b)) ≡ one
      units =
          mul_assoc a b (mul (inv a) (inv b))
          ∙ ap (mul a)
              (mul_left_comm b (inv a) (inv b) ∙ ap (mul (inv a)) (mul-inv b q) ∙ mul_one (inv a))
          ∙ mul-inv a p
