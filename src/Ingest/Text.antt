-- ===== src/Ingest/Text.antt =====
-- Numbers and separators in the text of a log line (parse_deposit_log of
-- core/src/sequencer/bridge/ingest.rs).
use mathlib.Core.List.{reverse, reverse-cons, append-nil, append_assoc, cons≢nil}
use zelana.Base.{
  false, ℕ, zero, suc, ◌+◌, ◌-◌, ◌*◌, ◌^◌, ◌<◌, ◌≤◌, ◌/◌, ◌%◌, ◌≡◌, refl, ap, ◌∙◌, ◌≢◌, some, Bool,
  [], ◌∷◌, ◌++◌, Bytes, u64_mod, arith, Bool-cases, inl, inr, ltb, nat_beq,
}
use zelana.Base.Text.{decimal, decimal_from}
use zelana.Ingest.{split_at, parse_digits, parse_some_digits, parse_uint}

-- Bytes that are all digits.
pub AllDigits : Bytes → Type 0
AllDigits [] = Unit
AllDigits (c ∷ cs) = (48 ≤ c) × (c < 58) × AllDigits cs

-- Bytes that a test refuses.
abbrev pub Lacks : (ℕ → Bool) → Bytes → Type 0
Lacks p [] = Unit
Lacks p (c ∷ cs) = (p c ≡ false) × Lacks p cs

abbrev pub is_sep : ℕ → ℕ → Bool
is_sep sep c = nat_beq c sep

decimal_from-AllDigits : (f n : ℕ) (ds : Bytes) → AllDigits ds → AllDigits (decimal_from f n ds)
unfolding decimal_from AllDigits
decimal_from-AllDigits zero n ds h = h
decimal_from-AllDigits (suc f) n ds h = elim (Bool-cases (ltb n 10)) [
  | inl small ↦ rw small more
  | inr large ↦ rw large (decimal_from-AllDigits f (n / 10) ((48 + n % 10) ∷ ds) more)
]
  where
    more : AllDigits ((48 + n % 10) ∷ ds)
    more = (omega arith, omega arith, h)

parse_digits_step :
    (limit m d : ℕ) (ds : Bytes)
    → d < 10
    → m * 10 + d < limit
    → parse_digits limit m ((48 + d) ∷ ds) ≡ parse_digits limit (m * 10 + d) ds
unfolding parse_digits
parse_digits_step limit m d ds small fits = ground (arith, small, fits, digit)
  where
    digit : m * 10 + (48 + d - 48) ≡ m * 10 + d
    digit = omega arith

parse_digits-decimal_from :
    (f limit n : ℕ) (ds : Bytes)
    → n < 10 ^ f
    → n < limit
    → parse_digits limit 0 (decimal_from f n ds) ≡ parse_digits limit n ds
unfolding decimal_from
parse_digits-decimal_from zero limit n ds digits fits = rw (zero_only) refl
  where
    zero_only : n ≡ 0
    zero_only = omega (arith, digits)
parse_digits-decimal_from (suc f) limit n ds digits fits = elim (Bool-cases (ltb n 10)) [
  | inl small ↦ rw small (
      parse_digits_step limit 0 (n % 10) ds (omega arith) (ground (arith, small, fits))
      ∙ ap (λ m. parse_digits limit m ds) (ground (arith, small)))
  | inr large ↦ rw large (
      parse_digits-decimal_from f limit (n / 10) ((48 + n % 10) ∷ ds) (omega (arith, digits))
        (omega (arith, fits))
      ∙ parse_digits_step limit (n / 10) (n % 10) ds (omega arith) (omega (arith, fits))
      ∙ ap (λ m. parse_digits limit m ds) (omega arith))
]

parse_uint-AllDigits :
    (limit : ℕ) (cs : Bytes)
    → cs ≢ []
    → AllDigits cs
    → parse_uint limit cs ≡ parse_digits limit 0 cs
unfolding parse_uint parse_some_digits AllDigits
parse_uint-AllDigits limit [] nonempty h = absurd (nonempty refl)
parse_uint-AllDigits limit (c ∷ cs) nonempty h = ground (arith, h.0, h.1)

pub split_at-append :
    (sep : ℕ) (part a b : Bytes)
    → Lacks (is_sep sep) a
    → split_at sep part (a ++ sep ∷ b) ≡ (reverse part ++ a) ∷ split_at sep [] b
unfolding split_at
split_at-append sep part [] b h = ground (arith, append-nil (reverse part))
split_at-append sep part (c ∷ a) b h = elim (Bool-cases (nat_beq c sep)) [
  | inl same ↦ ground (arith, same, h.0)
  | inr other ↦ rw other (
      split_at-append sep (c ∷ part) a b h.1
      ∙ ap (λ r. r ∷ split_at sep [] b)
          (ap (λ q. q ++ a) (reverse-cons c part) ∙ append_assoc (reverse part) (c ∷ []) a))
]

pub split_at-Lacks :
    (sep : ℕ) (part a : Bytes)
    → Lacks (is_sep sep) a
    → split_at sep part a ≡ (reverse part ++ a) ∷ []
unfolding split_at
split_at-Lacks sep part [] h = ground (arith, append-nil (reverse part))
split_at-Lacks sep part (c ∷ a) h = elim (Bool-cases (nat_beq c sep)) [
  | inl same ↦ ground (arith, same, h.0)
  | inr other ↦ rw other (
      split_at-Lacks sep (c ∷ part) a h.1
      ∙ ap (λ r. r ∷ [])
          (ap (λ q. q ++ a) (reverse-cons c part) ∙ append_assoc (reverse part) (c ∷ []) a))
]

-- No digit passes the test.
abbrev pub NoDigit : (ℕ → Bool) → Type 0
NoDigit p = (c : ℕ) → 48 ≤ c → c < 58 → p c ≡ false

AllDigits-Lacks : (p : ℕ → Bool) (a : Bytes) → NoDigit p → AllDigits a → Lacks p a
unfolding AllDigits
AllDigits-Lacks p [] n h = tt
AllDigits-Lacks p (c ∷ a) n h = (n c h.0 h.1, AllDigits-Lacks p a n h.2)

decimal_from-nonempty : (f n c : ℕ) (ds : Bytes) → decimal_from f n (c ∷ ds) ≢ []
unfolding decimal_from
decimal_from-nonempty zero n c ds = λ e. cons≢nil e
decimal_from-nonempty (suc f) n c ds = elim (Bool-cases (ltb n 10)) [
  | inl small ↦ rw small (λ e. cons≢nil e)
  | inr large ↦ rw large (decimal_from-nonempty f (n / 10) (48 + n % 10) (c ∷ ds))
]

decimal_from-nonempty_suc : (f n : ℕ) (ds : Bytes) → decimal_from (suc f) n ds ≢ []
unfolding decimal_from
decimal_from-nonempty_suc f n ds = elim (Bool-cases (ltb n 10)) [
  | inl small ↦ rw small (λ e. cons≢nil e)
  | inr large ↦ rw large (decimal_from-nonempty f (n / 10) (48 + n % 10) ds)
]

decimal-nonempty : (n : ℕ) → decimal n ≢ []
unfolding decimal
decimal-nonempty n = decimal_from-nonempty_suc 19 n []

decimal-AllDigits : (n : ℕ) → AllDigits (decimal n)
unfolding decimal AllDigits
decimal-AllDigits n = decimal_from-AllDigits 20 n [] tt

pub decimal-Lacks : (p : ℕ → Bool) (n : ℕ) → NoDigit p → Lacks p (decimal n)
decimal-Lacks p n none_digit = AllDigits-Lacks p (decimal n) none_digit (decimal-AllDigits n)

pub parse_uint-decimal :
    (limit n : ℕ) → n < u64_mod → n < limit → parse_uint limit (decimal n) ≡ some n
unfolding decimal parse_digits
parse_uint-decimal limit n h fits =
    parse_uint-AllDigits limit (decimal n) (decimal-nonempty n) (decimal-AllDigits n)
    ∙ parse_digits-decimal_from 20 limit n [] (omega (arith, h)) fits
