-- ===== src/Base/Dict.antt =====
-- A hash map as an association list: `insert` replaces the value of a key in its place. A hash
-- set is the list of its members.
use zelana.Base.Tests.{if◌then◌else◌, Bool-cases}
use zelana.Base.Keys.{Eq, ◌==◌, ==_iff, ==_refl}
use mathlib.Core.Path.{◌≡◌, refl}
use mathlib.Core.Logic.{inl, inr}
use mathlib.Core.Bool.{Bool, true, false, ◌||◌}
use mathlib.Core.Option.{Option, none, some}
use mathlib.Core.List.{List, [], ◌∷◌}
use native.Mathlib.Omega.{arith}

abbrev pub Dict {ℓ κ} : Type ℓ → Type κ → Type (ℓ ⊔ κ)
Dict K V = List (K × V)

module _ {ℓ κ} {K : Type ℓ} {V : Type κ} ⦃e : Eq K⦄ where
  unfoldable pub lookup : K → Dict K V → Option V
  lookup k [] = none
  lookup k ((j, v) ∷ m) = if j == k then some v else lookup k m

  unfoldable pub insert : K → V → Dict K V → Dict K V
  insert k v [] = (k, v) ∷ []
  insert k v ((j, w) ∷ m) = if j == k then (j, v) ∷ m else (j, w) ∷ insert k v m

  -- `remove`, of every entry under the key.
  unfoldable pub erase : K → Dict K V → Dict K V
  erase k [] = []
  erase k ((j, w) ∷ m) = if j == k then erase k m else (j, w) ∷ erase k m

  unfoldable pub has_key : K → Dict K V → Bool
  unfolding lookup
  has_key k m = elim (lookup k m) [ none ↦ false | some _ ↦ true ]

  -- The key that was written has the new value, and every other key its old one.
  pub lookup-insert :
      (k wanted : K) (v : V) (m : Dict K V)
      → lookup wanted (insert k v m) ≡ (if k == wanted then some v else lookup wanted m)
  unfolding lookup insert
  lookup-insert k wanted v [] = refl
  lookup-insert k wanted v ((first, w) ∷ m) =
      ground
        (arith, lookup-insert k wanted v m, ==_iff first wanted, ==_iff k wanted, ==_iff first k)

  pub lookup-insert_self : (k : K) (v : V) (m : Dict K V) → lookup k (insert k v m) ≡ some v
  lookup-insert_self k v m = rw (lookup-insert k k v m, ==_refl k)

  pub lookup-erase :
      (k j : K) (m : Dict K V) → lookup j (erase k m) ≡ (if k == j then none else lookup j m)
  unfolding lookup erase
  lookup-erase k j [] = ground arith
  lookup-erase k j ((i, w) ∷ m) =
      ground (arith, ==_iff k j, ==_iff i k, ==_iff i j, lookup-erase k j m)

module _ {ℓ} {K : Type ℓ} ⦃e : Eq K⦄ where
  unfoldable pub contains : K → List K → Bool
  contains k [] = false
  contains k (x ∷ xs) = x == k || contains k xs

module _ {ℓ κ} {K : Type ℓ} {V : Type κ} ⦃e : Eq K⦄ where
  -- No key stands twice: so it is in every map that `insert` has built.
  abbrev pub UniqueKeys : Dict K V → Type 0
  UniqueKeys [] = Unit
  UniqueKeys ((k, v) ∷ m) = (has_key k m ≡ false) × UniqueKeys m

  -- Puts the entries of the first map into the second, one after the other.
  unfoldable pub put_all : Dict K V → Dict K V → Dict K V
  unfolding insert
  put_all [] m = m
  put_all ((k, v) ∷ entries) m = put_all entries (insert k v m)

  has_key-insert_ne :
      (k j : K) (v : V) (m : Dict K V)
      → (k == j) ≡ false
      → has_key j m ≡ false
      → has_key j (insert k v m) ≡ false
  unfolding has_key
  has_key-insert_ne k j v m ne h = rw (lookup-insert k j v m, ne, has_key) h

  pub insert-UniqueKeys : (k : K) (v : V) (m : Dict K V) → UniqueKeys m → UniqueKeys (insert k v m)
  unfolding insert
  insert-UniqueKeys k v [] u = (unfold has_key lookup in refl, tt)
  insert-UniqueKeys k v ((j, w) ∷ m) u = elim (Bool-cases (j == k)) [
    | inl same ↦ rw same u
    | inr other ↦ rw other (has_key-insert_ne k j v m (flip other) u.0, insert-UniqueKeys k v m u.1)
  ]
    where
      flip : (j == k) ≡ false → (k == j) ≡ false
      flip h = ground (arith, ==_iff k j, ==_iff j k)

module _ {ℓ κ} {K : Type ℓ} {V : Type κ} ⦃e : Eq K⦄ where
  has_key-erase : (k j : K) (m : Dict K V) → has_key j m ≡ false → has_key j (erase k m) ≡ false
  unfolding has_key
  has_key-erase k j m h = elim (Bool-cases (k == j)) [
    | inl same ↦ rw (lookup-erase k j m, same, has_key) refl
    | inr other ↦ rw (lookup-erase k j m, other, has_key) h
  ]

  pub erase-UniqueKeys : (k : K) (m : Dict K V) → UniqueKeys m → UniqueKeys (erase k m)
  unfolding erase
  erase-UniqueKeys k [] u = tt
  erase-UniqueKeys k ((j, v) ∷ m) u = elim (Bool-cases (j == k)) [
    | inl same ↦ rw same (erase-UniqueKeys k m u.1)
    | inr other ↦ rw other (has_key-erase k j m u.0, erase-UniqueKeys k m u.1)
  ]

-- The first of two optional values that there is.
abbrev pub or_else {ℓ} : {A : Type ℓ} → Option A → Option A → Option A
or_else (some a) o = some a
or_else none o = o

module _ {K V : Type 0} ⦃e : Eq K⦄ where
  -- In the result an entry of the first map covers one of the second.
  pub lookup-put_all :
      (k : K) (entries m : Dict K V)
      → UniqueKeys entries
      → lookup k (put_all entries m) ≡ or_else (lookup k entries) (lookup k m)
  unfolding put_all lookup has_key
  lookup-put_all k [] m u = refl
  lookup-put_all k ((j, v) ∷ entries) m u =
      ground
        (arith, lookup-put_all k entries (insert j v m) u.1, lookup-insert j k v m, ==_iff j k, u.0)
