-- ===== src/Ingest/Keys.antt =====
-- Keys that are logged as arrays of bytes (parse_log_pubkey and parse_deposit_log of
-- core/src/sequencer/bridge/ingest.rs).
use mathlib.Core.List.{reverse, reverse-cons, reverse-append, reverse-reverse, append-nil}
use zelana.Base.{
  ℕ, ◌<◌, ◌≡◌, refl, ap, ◌∙◌, Bool, true, false, Option, some, [], ◌∷◌, ◌++◌, map, Bytes, length,
  u64_mod, arith,
}
use zelana.Base.Text.{decimal}
use zelana.Ingest.{
  split_at, is_space, is_bracket, trim_start, trim, all_bytes, parse_log_pubkey, event_of_parts,
  parse_deposit_log,
}
use zelana.Ingest.Text.{
  Lacks, is_sep, NoDigit, split_at-append, split_at-Lacks, decimal-Lacks, parse_uint-decimal,
}

Lacks-append : (p : ℕ → Bool) (a b : Bytes) → Lacks p a → Lacks p b → Lacks p (a ++ b)
Lacks-append p [] b h h' = h'
Lacks-append p (c ∷ a) b h h' = (h.0, Lacks-append p a b h.1 h')

Lacks-reverse : (p : ℕ → Bool) (a : Bytes) → Lacks p a → Lacks p (reverse a)
Lacks-reverse p [] h = tt
Lacks-reverse p (c ∷ a) h =
    rw (reverse-cons c a) (Lacks-append p (reverse a) (c ∷ []) (Lacks-reverse p a h.1) (h.0, tt))

trim_start-Lacks : (p : ℕ → Bool) (a : Bytes) → Lacks p a → trim_start p a ≡ a
unfolding trim_start
trim_start-Lacks p [] h = refl
trim_start-Lacks p (c ∷ a) h = rw (h.0) refl

trim-Lacks : (p : ℕ → Bool) (a : Bytes) → Lacks p a → trim p a ≡ a
unfolding trim
trim-Lacks p a h =
    rw (trim_start-Lacks p a h, trim_start-Lacks p (reverse a) (Lacks-reverse p a h))
      (reverse-reverse a)

trim-cons : (p : ℕ → Bool) (c : ℕ) (a : Bytes) → p c ≡ true → Lacks p a → trim p (c ∷ a) ≡ a
unfolding trim trim_start
trim-cons p c a first h = rw first (trim-Lacks p a h)

trim-enclosed :
    (p : ℕ → Bool) (x y : ℕ) (a : Bytes)
    → p x ≡ true
    → p y ≡ true
    → Lacks p a
    → trim p (x ∷ (a ++ y ∷ [])) ≡ a
unfolding trim trim_start
trim-enclosed p x y [] first last h = rw (first, last) refl
trim-enclosed p x y (c ∷ a) first last h =
    rw
      (
        first,
        h.0,
        reverse-append (c ∷ a) (y ∷ []),
        last,
        trim_start-Lacks p (reverse (c ∷ a)) (Lacks-reverse p (c ∷ a) h),
      )
      (reverse-reverse (c ∷ a))

trim-solid :
    (p : ℕ → Bool) (x y : ℕ) (a : Bytes)
    → p x ≡ false
    → p y ≡ false
    → trim p (x ∷ (a ++ y ∷ [])) ≡ x ∷ (a ++ y ∷ [])
unfolding trim trim_start
trim-solid p x y a first last =
    rw (first, reverse-append (x ∷ a) (y ∷ []), last)
      (reverse-cons y (reverse (x ∷ a)) ∙ ap (λ r. r ++ y ∷ []) (reverse-reverse (x ∷ a)))

-- The text of an array of bytes: [1, 2, 3].
rest_text : Bytes → Bytes
rest_text [] = []
rest_text (b ∷ bs) = 44 ∷ 32 ∷ (decimal b ++ rest_text bs)

inner_text : Bytes → Bytes
inner_text [] = []
inner_text (b ∷ bs) = decimal b ++ rest_text bs

pub array_text : Bytes → Bytes
array_text bs = 91 ∷ (inner_text bs ++ 93 ∷ [])

abbrev pub AllBytes : Bytes → Type 0
AllBytes [] = Unit
AllBytes (b ∷ bs) = (b < 256) × AllBytes bs

spaced : ℕ → Bytes
spaced b = 32 ∷ decimal b

split_at-rest_text :
    (a bs : Bytes) → Lacks (is_sep 44) a → split_at 44 [] (a ++ rest_text bs) ≡ a ∷ map spaced bs
unfolding rest_text spaced
split_at-rest_text a [] h = rw (append-nil a) (split_at-Lacks 44 [] a h)
split_at-rest_text a (b ∷ bs) h =
    split_at-append 44 [] a (32 ∷ (decimal b ++ rest_text bs)) h
    ∙ ap (λ r. a ∷ r)
        (split_at-rest_text (32 ∷ decimal b) bs
          (refl, decimal-Lacks (is_sep 44) b (λ c low high. ground (arith, low))))

not_space : NoDigit is_space
not_space c low high = ground (arith, low, high)

all_bytes-spaced : (bs : Bytes) → AllBytes bs → all_bytes (map spaced bs) ≡ some bs
unfolding all_bytes spaced
all_bytes-spaced [] h = refl
all_bytes-spaced (b ∷ bs) h =
    rw
      (
        trim-cons is_space 32 (decimal b) refl (decimal-Lacks is_space b not_space),
        parse_uint-decimal 256 b (omega (arith, h.0)) h.0,
        all_bytes-spaced bs h.1,
      )
      refl

Lacks-rest_text :
    (p : ℕ → Bool) (bs : Bytes) → NoDigit p → p 44 ≡ false → p 32 ≡ false → Lacks p (rest_text bs)
unfolding rest_text
Lacks-rest_text p [] n comma space = tt
Lacks-rest_text p (b ∷ bs) n comma space = (
  comma,
  (
    space,
    Lacks-append p (decimal b) (rest_text bs) (decimal-Lacks p b n)
        (Lacks-rest_text p bs n comma space),
  ),
)

Lacks-inner_text :
    (p : ℕ → Bool) (bs : Bytes) → NoDigit p → p 44 ≡ false → p 32 ≡ false → Lacks p (inner_text bs)
unfolding inner_text
Lacks-inner_text p [] n comma space = tt
Lacks-inner_text p (b ∷ bs) n comma space =
    Lacks-append p (decimal b) (rest_text bs) (decimal-Lacks p b n)
      (Lacks-rest_text p bs n comma space)

not_bracket : NoDigit is_bracket
not_bracket c low high = ground (arith, low, high)

all_bytes-inner_text :
    (b : ℕ) (bs : Bytes)
    → AllBytes (b ∷ bs)
    → all_bytes (split_at 44 [] (inner_text (b ∷ bs))) ≡ some (b ∷ bs)
unfolding inner_text all_bytes
all_bytes-inner_text b bs h =
    ap all_bytes (
      split_at-rest_text (decimal b) bs
        (decimal-Lacks (is_sep 44) b (λ c low high. ground (arith, low))))
    ∙ parsed
  where
    parsed : all_bytes (decimal b ∷ map spaced bs) ≡ some (b ∷ bs)
    parsed =
        rw
          (
            trim-Lacks is_space (decimal b) (decimal-Lacks is_space b not_space),
            parse_uint-decimal 256 b (omega (arith, h.0)) h.0,
            all_bytes-spaced bs h.1,
          )
          refl

not_colon : NoDigit (is_sep 58)
not_colon c low high = ground (arith, high)

array_text-Lacks : (key : Bytes) → Lacks (is_sep 58) (array_text key)
unfolding array_text
array_text-Lacks key = (
  refl,
  Lacks-append (is_sep 58) (inner_text key) (93 ∷ [])
      (Lacks-inner_text (is_sep 58) key not_colon refl refl) (refl, tt),
)

module _ (from_str : Bytes → Option Bytes) where
  parse_log_pubkey-array_text :
      (key : Bytes)
      → length key ≡ 32
      → AllBytes key
      → parse_log_pubkey from_str (array_text key) ≡ some key
  unfolding parse_log_pubkey array_text
  parse_log_pubkey-array_text [] len h = ground (arith, len)
  parse_log_pubkey-array_text (b ∷ bs) len h =
      rw
        (
          trim-solid is_space 91 93 (inner_text (b ∷ bs)) refl refl,
          trim-enclosed is_bracket 91 93 (inner_text (b ∷ bs)) refl refl
              (Lacks-inner_text is_bracket (b ∷ bs) not_bracket refl refl),
          all_bytes-inner_text b bs h,
        )
        (ground (arith, len))

  -- A log line with the key as an array of 32 bytes, and an amount and a number of 64 bits, is
  -- read as the deposit of that amount under that number for that key.
  pub parse_deposit_log-line :
      (key : Bytes) (amount seq : ℕ)
      → length key ≡ 32
      → AllBytes key
      → amount < u64_mod
      → seq < u64_mod
      → parse_deposit_log from_str (array_text key ++ 58 ∷ (decimal amount ++ 58 ∷ decimal seq))
        ≡ some (record { to = key; amount = amount; l1_seq = seq })
  unfolding parse_deposit_log event_of_parts
  parse_deposit_log-line key amount seq len bytes fits fits' =
      ap (event_of_parts from_str) (
        split_at-append 58 [] (array_text key) (decimal amount ++ 58 ∷ decimal seq)
          (array_text-Lacks key)
        ∙ ap (λ r. array_text key ∷ r)
            (split_at-append 58 [] (decimal amount) (decimal seq)
                (decimal-Lacks (is_sep 58) amount not_colon)
              ∙ ap (λ r. decimal amount ∷ r)
                  (split_at-Lacks 58 [] (decimal seq) (decimal-Lacks (is_sep 58) seq not_colon))))
      ∙ parts
    where
      parts :
          event_of_parts from_str (array_text key ∷ decimal amount ∷ decimal seq ∷ [])
          ≡ some (record { to = key; amount = amount; l1_seq = seq })
      parts =
          rw
            (
              parse_log_pubkey-array_text key len bytes,
              parse_uint-decimal u64_mod amount fits fits,
              parse_uint-decimal u64_mod seq fits' fits',
            )
            refl
