-- ===== src/Threshold/Shares/Recover.antt =====
-- Splitting a secret and combining enough of its shares.
use mathlib.Core.Path.{ap₂, subst}
use zelana.Base.{
  ℕ, zero, suc, ◌+◌, ◌≤◌, ◌<◌, ◌≡◌, ◌≢◌, ◌⊎◌, inl, inr, refl, sym, ap, ◌∙◌, Bool-cases, List, [],
  ◌∷◌, map, Bytes, length, get_or, take, ltb, arith,
}
use zelana.Threshold.Interpolate.{Differ, Distinct, interpolate_lem}
use zelana.Threshold.Polynomial.{IsPoly}
use zelana.Threshold.Gf256.Byte.{Byte, byte_field}
use zelana.Threshold.Shares.{
  Share, ok, ids_from, share_of, add_terms, random_coeffs, split_secret, combine_byte,
  combine_bytes, combine_shares,
}
use zelana.Threshold.Shares.Combine.{combine_byte_lem}
use zelana.Threshold.Shares.Polynomials.{
  AllBytes, poly, poly-IsPoly, poly_null, add_terms-eq-poly, coeffs, length-coeffs, numbers-coeffs,
  get_or-share_bytes, get_or-lt,
}

abbrev pub Among : {A : Type 0} → List A → A → Type 0
Among [] a = ⊥
Among (x ∷ xs) a = (a ≡ x) ⊎ Among xs a

abbrev pub AllAmong : {A : Type 0} → List A → List A → Type 0
AllAmong xs [] = Unit
AllAmong xs (a ∷ more) = Among xs a × AllAmong xs more

abbrev pub NotId : ℕ → List Share → Type 0
NotId id [] = Unit
NotId id (s ∷ shares) = (s.id ≢ id) × NotId id shares

-- No identifier stands twice.
abbrev pub DistinctIds : List Share → Type 0
DistinctIds [] = Unit
DistinctIds (s ∷ shares) = NotId s.id shares × DistinctIds shares

Among-made :
    (make : ℕ → Share) (id total : ℕ) (s : Share)
    → Among (map make (ids_from id total)) s
    → (i : ℕ) × (i < id + total) × (s ≡ make i)
unfolding ids_from
Among-made make id zero s h = absurd h
Among-made make id (suc more) s (inl e) = (id, omega arith, e)
Among-made make id (suc more) s (inr h) =
    let (i, lt, e) = Among-made make (suc id) more s h in (i, omega (arith, lt), e)

combine_bytes_lem :
    (shares : List Share) (first : ℕ) (secret : Bytes)
    → ((i : ℕ) → i < length secret → combine_byte (first + i) shares 0 shares 0 ≡ get_or secret i 0)
    → combine_bytes shares first (length secret) ≡ secret
unfolding combine_bytes
combine_bytes_lem shares first [] h = refl
combine_bytes_lem shares first (s ∷ secret) h =
    ap₂ (λ b bs. b ∷ bs)
      (ap (λ t. combine_byte t shares 0 shares 0) (omega arith) ∙ h 0 (omega arith))
      (combine_bytes_lem shares (suc first) secret (λ i lt.
        ap (λ t. combine_byte t shares 0 shares 0) (omega arith) ∙ h (suc i) (omega (arith, lt))))

module _ (random : ℕ → ℕ → ℕ) (bound : (i j : ℕ) → random i j < 256) (secret : Bytes)
    (bytes : AllBytes secret) (more : ℕ) where
  abbrev made : Byte → Share
  made x = share_of random (suc more) secret x.0

  abbrev value_poly : ℕ → Byte → Byte
  value_poly i =
      poly (get_or secret i 0, get_or-lt secret i bytes) (coeffs (random i) (bound i) 1 more)

  value_lem :
      (i : ℕ) → i < length secret → (x : Byte) → get_or (made x).value i 0 ≡ (value_poly i x).0
  value_lem i lt x =
      get_or-share_bytes random (suc more) x.0 0 i secret lt
      ∙ ap₂ (λ a b. add_terms x.0 (random_coeffs (random a) 1 b) (get_or secret i 0) x.0)
          (omega arith) (omega arith)
      ∙ ap (λ cs. add_terms x.0 cs (get_or secret i 0) x.0)
          (numbers-coeffs (random i) (bound i) 1 more)
      ∙ add_terms-eq-poly x (coeffs (random i) (bound i) 1 more)
          (get_or secret i 0, get_or-lt secret i bytes)

  combine_made :
      (xs : List Byte)
      → length xs ≡ suc more
      → Distinct byte_field xs
      → combine_bytes (map made xs) 0 (length secret) ≡ secret
  combine_made xs len d = combine_bytes_lem (map made xs) 0 secret λ i lt.
      ap (λ t. combine_byte t (map made xs) 0 (map made xs) 0) (omega arith)
      ∙ combine_byte_lem made (λ x. refl) (value_poly i) i (value_lem i lt) xs d
      ∙ ap (λ (t : Byte). t.0)
          (interpolate_lem byte_field (value_poly i) xs
              (subst (λ n. IsPoly byte_field n (value_poly i))
                (ap suc (length-coeffs (random i) (bound i) 1 more) ∙ sym len)
                (poly-IsPoly (get_or secret i 0, get_or-lt secret i bytes)
                  (coeffs (random i) (bound i) 1 more)))
              d
            ∙ poly_null (get_or secret i 0, get_or-lt secret i bytes)
                (coeffs (random i) (bound i) 1 more))

  -- The identifiers of shares that were made, as bytes.
  abbrev MadeAll : List Share → Type 0
  MadeAll [] = Unit
  MadeAll (s ∷ shares) = ((x : Byte) × (s ≡ made x)) × MadeAll shares

  points : (shares : List Share) → MadeAll shares → List Byte
  points [] m = []
  points (s ∷ shares) m = m.0.0 ∷ points shares m.1

  points_lem : (shares : List Share) (m : MadeAll shares) → shares ≡ map made (points shares m)
  unfolding points
  points_lem [] m = refl
  points_lem (s ∷ shares) m = ap₂ (λ a b. a ∷ b) m.0.1 (points_lem shares m.1)

  points-Differ :
      (x : Byte) (shares : List Share) (m : MadeAll shares)
      → NotId x.0 shares
      → Differ byte_field x (points shares m)
  unfolding points
  points-Differ x [] m d = tt
  points-Differ x (s ∷ shares) m d = (
    λ e. d.0 (ap (λ (t : Share). t.id) m.0.1 ∙ ap (λ (t : Byte). t.0) e),
    points-Differ x shares m.1 d.1,
  )

  points-Distinct :
      (shares : List Share) (m : MadeAll shares)
      → DistinctIds shares
      → Distinct byte_field (points shares m)
  unfolding points
  points-Distinct [] m d = tt
  points-Distinct (s ∷ shares) m d = (
    points-Differ m.0.0 shares m.1
        (subst (λ i. NotId i shares) (ap (λ (t : Share). t.id) m.0.1) d.0),
    points-Distinct shares m.1 d.1,
  )

  length-points :
      (shares : List Share) (m : MadeAll shares) → length (points shares m) ≡ length shares
  unfolding points
  length-points [] m = refl
  length-points (s ∷ shares) m = ap suc (length-points shares m.1)

  combine_all :
      (shares : List Share)
      → MadeAll shares
      → DistinctIds shares
      → length shares ≡ suc more
      → combine_bytes shares 0 (length secret) ≡ secret
  combine_all shares m d len =
      ap (λ t. combine_bytes t 0 (length secret)) (points_lem shares m)
      ∙ combine_made (points shares m) (length-points shares m ∙ len) (points-Distinct shares m d)

  take-MadeAll : (n : ℕ) (shares : List Share) → MadeAll shares → MadeAll (take n shares)
  take-MadeAll zero shares m = tt
  take-MadeAll (suc n) [] m = tt
  take-MadeAll (suc n) (s ∷ shares) m = (m.0, take-MadeAll n shares m.1)

  made_of_among :
      (total : ℕ) (chosen : List Share)
      → total < 256
      → AllAmong (map (share_of random (suc more) secret) (ids_from 1 total)) chosen
      → MadeAll chosen
  made_of_among total [] b m = tt
  made_of_among total (s ∷ chosen) b m =
      let (i, lt, e) = Among-made (share_of random (suc more) secret) 1 total s m.0 in
      (((i, omega (arith, lt, b)), e), made_of_among total chosen b m.1)

take-NotId : (n id : ℕ) (shares : List Share) → NotId id shares → NotId id (take n shares)
take-NotId zero id shares d = tt
take-NotId (suc n) id [] d = tt
take-NotId (suc n) id (s ∷ shares) d = (d.0, take-NotId n id shares d.1)

take-DistinctIds : (n : ℕ) (shares : List Share) → DistinctIds shares → DistinctIds (take n shares)
take-DistinctIds zero shares d = tt
take-DistinctIds (suc n) [] d = tt
take-DistinctIds (suc n) (s ∷ shares) d =
    (take-NotId n s.id shares d.0, take-DistinctIds n shares d.1)

length-take : (n : ℕ) (shares : List Share) → n ≤ length shares → length (take n shares) ≡ n
length-take zero shares h = refl
length-take (suc n) [] h = absurd (omega (arith, h))
length-take (suc n) (s ∷ shares) h = ap suc (length-take n shares (omega (arith, h)))

pub split_ok :
    (random : ℕ → ℕ → ℕ) (secret : Bytes) (threshold total : ℕ) (shares : List Share)
    → split_secret random secret threshold total ≡ ok shares
    → (threshold ≢ 0)
      × (total < 256)
      × (shares ≡ map (share_of random threshold secret) (ids_from 1 total))
unfolding split_secret
split_ok random secret threshold total shares e = (ground arith, ground arith, ground arith)

combined :
    (chosen : List Share) (more : ℕ) (secret : Bytes)
    → length secret ≡ 32
    → suc more ≤ length chosen
    → combine_bytes (take (suc more) chosen) 0 (length secret) ≡ secret
    → combine_shares chosen (suc more) ≡ ok secret
unfolding combine_shares
combined chosen more secret len enough e = elim (Bool-cases (ltb (length chosen) (suc more))) [
  | inl short ↦ absurd (ground (arith, short, enough))
  | inr there ↦
      rw there (ap (λ n. ok (combine_bytes (take (suc more) chosen) 0 n)) (sym len) ∙ ap ok e)
]

-- Any choice of as many shares as the threshold, from a secret of 32 bytes that was split and
-- without one identifier twice, gives the secret back, whatever the random coefficients were.
pub combine_shares-split_secret :
    (random : ℕ → ℕ → ℕ) (secret : Bytes) (threshold total : ℕ) (shares chosen : List Share)
    → ((i j : ℕ) → random i j < 256)
    → length secret ≡ 32
    → AllBytes secret
    → split_secret random secret threshold total ≡ ok shares
    → AllAmong shares chosen
    → DistinctIds chosen
    → threshold ≤ length chosen
    → combine_shares chosen threshold ≡ ok secret
combine_shares-split_secret random secret zero total shares chosen bound len bytes split among d
      enough =
    absurd ((split_ok random secret zero total shares split).0 refl)
combine_shares-split_secret random secret (suc more) total shares chosen bound len bytes split among
      d enough =
    let (pos, few, e) = split_ok random secret (suc more) total shares split in
    let m =
      made_of_among random bound secret bytes more total chosen few
        (subst (λ t. AllAmong t chosen) e among) in
    combined chosen more secret len enough (
      combine_all random bound secret bytes more (take (suc more) chosen)
        (take-MadeAll random bound secret bytes more (suc more) chosen m)
        (take-DistinctIds (suc more) chosen d) (length-take (suc more) chosen enough))
