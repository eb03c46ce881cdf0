-- ===== src/Threshold/Shares/Polynomials.antt =====
-- The polynomials that `split_secret` evaluates.
use zelana.Base.{
  ℕ, zero, suc, ◌+◌, ◌-◌, ◌<◌, ◌≡◌, refl, sym, ap, ◌∙◌, List, [], ◌∷◌, map, Bytes, length, get_or,
  arith,
}
use zelana.Threshold.Field.{mul_null, null_mul}
use zelana.Threshold.Polynomial.{IsPoly}
use zelana.Threshold.Gf256.Byte.{Byte, byte_field}
use zelana.Threshold.Shares.{add_terms, random_coeffs, share_bytes}
open byte_field use {add, null, mul_comm, mul_assoc, mul-add, add_assoc, add_null}

abbrev pub AllBytes : Bytes → Type 0
AllBytes [] = Unit
AllBytes (b ∷ bs) = (b < 256) × AllBytes bs

horner : List Byte → Byte → Byte
horner [] x = null
horner (c ∷ cs) x = add c (byte_field.mul x (horner cs x))

horner-IsPoly : (cs : List Byte) → IsPoly byte_field (length cs) (horner cs)
unfolding horner
horner-IsPoly [] = λ x. refl
horner-IsPoly (c ∷ cs) = (c, horner cs, horner-IsPoly cs, λ x. refl)

-- The polynomial with a constant and further coefficients.
pub poly : Byte → List Byte → Byte → Byte
poly s cs x = add s (byte_field.mul x (horner cs x))

pub poly-IsPoly : (s : Byte) (cs : List Byte) → IsPoly byte_field (suc (length cs)) (poly s cs)
unfolding poly
poly-IsPoly s cs = (s, horner cs, horner-IsPoly cs, λ x. refl)

pub poly_null : (s : Byte) (cs : List Byte) → poly s cs null ≡ s
unfolding poly
poly_null s cs = ap (add s) (null_mul byte_field (horner cs null)) ∙ add_null s

abbrev pub numbers : List Byte → Bytes
numbers cs = map (λ (c : Byte). c.0) cs

add_terms_lem :
    (x : Byte) (cs : List Byte) (y p : Byte)
    → add_terms x.0 (numbers cs) y.0 p.0 ≡ (add y (byte_field.mul p (horner cs x))).0
unfolding add_terms horner
add_terms_lem x [] y p =
    ap (λ (t : Byte). t.0) (sym (ap (add y) (mul_null byte_field p) ∙ add_null y))
add_terms_lem x (c ∷ cs) y p =
    add_terms_lem x cs (add y (byte_field.mul c p)) (byte_field.mul p x)
    ∙ ap (λ (t : Byte). t.0) (regroup y c p x (horner cs x))
  where
    regroup :
        (y c p x h : Byte)
        → add (add y (byte_field.mul c p)) (byte_field.mul (byte_field.mul p x) h)
          ≡ add y (byte_field.mul p (add c (byte_field.mul x h)))
    regroup y c p x h =
        add_assoc y (byte_field.mul c p) (byte_field.mul (byte_field.mul p x) h)
        ∙ ap (λ t. add y (add t (byte_field.mul (byte_field.mul p x) h))) (mul_comm c p)
        ∙ ap (λ t. add y (add (byte_field.mul p c) t)) (mul_assoc p x h)
        ∙ ap (add y) (sym (mul-add p c (byte_field.mul x h)))

-- The loop of `split_secret` evaluates the polynomial.
pub add_terms-eq-poly :
    (x : Byte) (cs : List Byte) (s : Byte) → add_terms x.0 (numbers cs) s.0 x.0 ≡ (poly s cs x).0
unfolding poly
add_terms-eq-poly x cs s = add_terms_lem x cs s x

module _ (random : ℕ → ℕ) (bound : (j : ℕ) → random j < 256) where
  pub coeffs : ℕ → ℕ → List Byte
  coeffs first zero = []
  coeffs first (suc more) = (random first, bound first) ∷ coeffs (suc first) more

  pub length-coeffs : (first more : ℕ) → length (coeffs first more) ≡ more
  unfolding coeffs
  length-coeffs first zero = refl
  length-coeffs first (suc more) = ap suc (length-coeffs (suc first) more)

  pub numbers-coeffs :
      (first more : ℕ) → random_coeffs random first more ≡ numbers (coeffs first more)
  unfolding coeffs random_coeffs
  numbers-coeffs first zero = refl
  numbers-coeffs first (suc more) = ap (λ t. random first ∷ t) (numbers-coeffs (suc first) more)

pub get_or-share_bytes :
    (random : ℕ → ℕ → ℕ) (threshold id first i : ℕ) (secret : Bytes)
    → i < length secret
    → get_or (share_bytes random threshold id first secret) i 0
      ≡ add_terms id (random_coeffs (random (first + i)) 1 (threshold - 1)) (get_or secret i 0) id
unfolding share_bytes
get_or-share_bytes random threshold id first i [] h = absurd (omega (arith, h))
get_or-share_bytes random threshold id first zero (s ∷ secret) h =
    ap (λ t. add_terms id (random_coeffs (random t) 1 (threshold - 1)) s id) (omega arith)
get_or-share_bytes random threshold id first (suc i) (s ∷ secret) h =
    get_or-share_bytes random threshold id (suc first) i secret (omega (arith, h))
    ∙ ap (λ t. add_terms id (random_coeffs (random t) 1 (threshold - 1)) (get_or secret i 0) id)
        (omega arith)

pub get_or-lt : (secret : Bytes) (i : ℕ) → AllBytes secret → get_or secret i 0 < 256
get_or-lt [] i a = omega arith
get_or-lt (b ∷ bs) zero a = a.0
get_or-lt (b ∷ bs) (suc i) a = get_or-lt bs i a.1
