-- ===== src/Router/Sums.antt =====
-- Sums over a duplicate-free list of accounts.
use zelana.Base.{
  ℕ, ◌+◌, ◌≤◌, ◌≡◌, refl, true, false, List, [], ◌∷◌, Bytes, ◌==◌, bytes_eq, ==_iff, ==_refl,
  if◌then◌else◌, arith, Bool-cases, inl, inr,
}
use zelana.Base.Dict.{contains}
use zelana.Account.{AccountId}

-- No account stands twice in the list.
abbrev pub Distinct : List Bytes → Type 0
Distinct [] = Unit
Distinct (x ∷ xs) = (contains x xs ≡ false) × Distinct xs

unfoldable pub sum_of : (AccountId → ℕ) → List AccountId → ℕ
sum_of f [] = 0
sum_of f (x ∷ xs) = f x + sum_of f xs

pub sum_of-congr :
    (f g : AccountId → ℕ) (ids : List AccountId)
    → ((id : AccountId) → g id ≡ f id)
    → sum_of g ids ≡ sum_of f ids
unfolding sum_of
sum_of-congr f g [] h = refl
sum_of-congr f g (x ∷ xs) h = omega (arith, h x, sum_of-congr f g xs h)

sum_of-absent :
    (f g : AccountId → ℕ) (ids : List AccountId) (id : AccountId) (v : ℕ)
    → ((j : AccountId) → g j ≡ (if id == j then v else f j))
    → contains id ids ≡ false
    → sum_of g ids ≡ sum_of f ids
unfolding sum_of contains
sum_of-absent f g [] id v h e = refl
sum_of-absent f g (x ∷ xs) id v h e =
    ground (arith, h x, ==_iff id x, ==_iff x id, sum_of-absent f g xs id v h)

-- To change one value changes the sum by the difference.
pub sum_of-update :
    (f g : AccountId → ℕ) (ids : List AccountId) (id : AccountId) (v : ℕ)
    → ((j : AccountId) → g j ≡ (if id == j then v else f j))
    → Distinct ids
    → contains id ids ≡ true
    → sum_of g ids + f id ≡ sum_of f ids + v
unfolding sum_of contains
sum_of-update f g [] id v h d e = cc
sum_of-update f g (x ∷ xs) id v h d e = elim (Bool-cases (x == id)) [
  | inl here ↦
      let same = (==_iff x id).0 here in
      ground
        (arith, same, h x, ==_refl {A = Bytes} id, sum_of-absent f g xs id v h (rw (← same) d.0))
  | inr there ↦ ground (
    arith,
    h x,
    ==_iff {A = Bytes} id x,
    ==_iff {A = Bytes} x id,
    sum_of-update f g xs id v h d.1,
  )
]

pub le-sum_of :
    (f : AccountId → ℕ) (ids : List AccountId) (a : AccountId)
    → contains a ids ≡ true
    → f a ≤ sum_of f ids
unfolding sum_of contains
le-sum_of f [] a e = cc
le-sum_of f (x ∷ xs) a e = ground (arith, ==_iff {A = Bytes} x a, le-sum_of f xs a)

pub add-le-sum_of :
    (f : AccountId → ℕ) (ids : List AccountId) (a b : AccountId)
    → contains a ids ≡ true
    → contains b ids ≡ true
    → (a == b) ≡ false
    → f a + f b ≤ sum_of f ids
unfolding sum_of contains
add-le-sum_of f [] a b e e' ne = cc
add-le-sum_of f (x ∷ xs) a b e e' ne = ground (
  arith,
  ==_iff {A = Bytes} x a,
  ==_iff {A = Bytes} x b,
  ==_iff {A = Bytes} a b,
  le-sum_of f xs a,
  le-sum_of f xs b,
  add-le-sum_of f xs a b,
)
