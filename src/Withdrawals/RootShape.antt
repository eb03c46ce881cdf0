-- ===== src/Withdrawals/RootShape.antt =====
-- The root of the withdrawals is that of a complete tree over the padded leaves.
use zelana.Base.{
  ℕ, zero, suc, ◌+◌, ◌-◌, ◌≤◌, ◌<◌, ◌≡◌, refl, ap, ◌∙◌, some, List, [], ◌∷◌, ◌++◌, Bytes, length,
  map, replicate, leb, arith, Bool-cases, inl, inr, length-append, length-replicate, Option-cases,
}
use zelana.Router.Signature.{Crypto}
use zelana.Withdrawals.{TrackedWithdrawal}
use zelana.Withdrawals.Root.{
  grow_power, next_power_of_two, pad, zero_hash, withdrawal_leaf, next_level, build_tree,
  build_withdrawal_merkle_root,
}

-- The number of leaves of a complete tree.
abbrev pub leaves_of_height : ℕ → ℕ
leaves_of_height zero = 1
leaves_of_height (suc h) = leaves_of_height h + leaves_of_height h

height-le : (h : ℕ) → h < leaves_of_height h
height-le zero = omega arith
height-le (suc h) = omega (arith, height-le h)

grow_power_enough : (fuel p n : ℕ) → 1 ≤ p → n ≤ p + fuel → n ≤ grow_power fuel p n
unfolding grow_power
grow_power_enough zero p n h e = omega arith
grow_power_enough (suc fuel) p n h e =
    ground (arith, grow_power_enough fuel (p + p) n (omega arith) (omega arith))

grow_power_least : (fuel p n : ℕ) → p < n + n → grow_power fuel p n < n + n
unfolding grow_power
grow_power_least zero p n h = h
grow_power_least (suc fuel) p n h = elim (Bool-cases (leb n p)) [
  | inl reached ↦ ground (arith, reached)
  | inr short ↦ ground (arith, short, grow_power_least fuel (p + p) n (ground (arith, short)))
]

grow_power_power :
    (fuel k n : ℕ) → (h : ℕ) × (grow_power fuel (leaves_of_height k) n ≡ leaves_of_height h)
unfolding grow_power
grow_power_power zero k n = (k, refl)
grow_power_power (suc fuel) k n =
    let (h, e) = grow_power_power fuel (suc k) n in
    elim (Bool-cases (leb n (leaves_of_height k))) [
      | inl reached ↦ (k, ground (arith, reached))
      | inr short ↦ (h, ground (arith, short, e))
    ]

module _ (C : Crypto) where
  -- `IsRoot h leaves r`: `r` is the root of the complete tree of height `h` over the leaves.
  pub data IsRoot : ℕ → List Bytes → Bytes → Type 0 where
    leaf : (a : Bytes) (leaves : List Bytes) → leaves ≡ a ∷ [] → IsRoot 0 leaves a
    node :
        (h : ℕ) (left right leaves : List Bytes) (a b r : Bytes)
        → IsRoot h left a
        → IsRoot h right b
        → leaves ≡ left ++ right
        → r ≡ C.blake3 (a ++ b)
        → IsRoot (suc h) leaves r

  next_level-append :
      (left right zs : List Bytes)
      → next_level C zs ≡ some (left ++ right)
      → (xs : List Bytes) × (ys : List Bytes) × (zs ≡ xs ++ ys)
        × (next_level C xs ≡ some left)
        × (next_level C ys ≡ some right)
  unfolding next_level
  next_level-append [] right zs e = ([], zs, refl, refl, e)
  next_level-append (r ∷ left) right [] e = cc
  next_level-append (r ∷ left) right (a ∷ []) e = cc
  next_level-append (r ∷ left) right (a ∷ b ∷ zs) e = elim (Option-cases (next_level C zs)) [
    | inl short ↦ ground (arith, short)
    | inr (level, there) ↦
        let (xs, ys, split, first, second) =
          next_level-append left right zs (ground (arith, there)) in
        (a ∷ b ∷ xs, ys, cc, ground (arith, there, first), second)
  ]

  one_pair :
      (leaves : List Bytes) (r : Bytes) → next_level C leaves ≡ some (r ∷ []) → IsRoot 1 leaves r
  unfolding next_level
  one_pair [] r e = cc
  one_pair (a ∷ []) r e = cc
  one_pair (a ∷ b ∷ c ∷ []) r e = cc
  one_pair (a ∷ b ∷ c ∷ d ∷ leaves) r e = ground (arith, Option-cases (next_level C leaves))
  one_pair (a ∷ b ∷ []) r e =
      node 0 (a ∷ []) (b ∷ []) (a ∷ b ∷ []) a b r (leaf a (a ∷ []) refl) (leaf b (b ∷ []) refl) refl
        cc

  -- A tree over the next level is a tree over the leaves, one higher.
  IsRoot-next_level :
      (h : ℕ) (level leaves : List Bytes) (r : Bytes)
      → IsRoot h level r
      → next_level C leaves ≡ some level
      → IsRoot (suc h) leaves r
  IsRoot-next_level _ _ leaves _ (leaf a level one) e = one_pair leaves a (e ∙ ap some one)
  IsRoot-next_level _ _ leaves _ (node h left right level a b r left_root right_root split hash) e =
      let (xs, ys, parts, first, second) =
        next_level-append left right leaves (e ∙ ap some split) in
      node (suc h) xs ys leaves a b r (IsRoot-next_level h left xs a left_root first)
        (IsRoot-next_level h right ys b right_root second) parts hash

  next_level-some :
      (n : ℕ) (leaves : List Bytes)
      → length leaves ≡ n + n
      → (level : List Bytes) × (next_level C leaves ≡ some level) × (length level ≡ n)
  unfolding next_level
  next_level-some zero [] e = ([], refl, refl)
  next_level-some zero (a ∷ leaves) e = ground (arith, e)
  next_level-some (suc n) [] e = ground (arith, e)
  next_level-some (suc n) (a ∷ []) e = ground (arith, e)
  next_level-some (suc n) (a ∷ b ∷ leaves) e =
      let (level, there, same) = next_level-some n leaves (omega (arith, e)) in
      (C.blake3 (a ++ b) ∷ level, ground (arith, there), ap suc same)

  -- The loop ends on a power of two of leaves, within fuel that is the height.
  build_tree-IsRoot :
      (h fuel : ℕ) (leaves : List Bytes)
      → length leaves ≡ leaves_of_height h
      → h ≤ fuel
      → (r : Bytes) × (build_tree C fuel leaves ≡ some r) × IsRoot h leaves r
  unfolding build_tree
  build_tree-IsRoot zero fuel [] e enough = ground (arith, e)
  build_tree-IsRoot zero fuel (a ∷ []) e enough = (a, refl, leaf a (a ∷ []) refl)
  build_tree-IsRoot zero fuel (a ∷ b ∷ leaves) e enough = ground (arith, e)
  build_tree-IsRoot (suc h) zero leaves e enough = ground (arith, enough)
  build_tree-IsRoot (suc h) (suc fuel) [] e enough = ground (arith, e, height-le h)
  build_tree-IsRoot (suc h) (suc fuel) (a ∷ []) e enough = ground (arith, e, height-le h)
  build_tree-IsRoot (suc h) (suc fuel) (a ∷ b ∷ leaves) e enough =
      let (level, there, same) = next_level-some (leaves_of_height h) (a ∷ b ∷ leaves) e in
      let (r, built, root) = build_tree-IsRoot h fuel level same (omega (arith, enough)) in
      (r, ground (arith, there, built), IsRoot-next_level h level (a ∷ b ∷ leaves) r root there)

  -- The root of a nonempty list of withdrawals is computed with no index out of range, and it is
  -- the root of a complete tree over the hashes of the withdrawals, filled up with fewer zero
  -- hashes than there are withdrawals.
  pub build_withdrawal_merkle_root-IsRoot :
      (w : TrackedWithdrawal) (ws : List TrackedWithdrawal)
      → let leaves = map (withdrawal_leaf C) (w ∷ ws) in
        (h : ℕ) × (filling : ℕ) × (r : Bytes) × (build_withdrawal_merkle_root C (w ∷ ws) ≡ some r)
        × (length leaves + filling ≡ leaves_of_height h)
        × (filling < length leaves)
        × IsRoot h (leaves ++ replicate filling zero_hash) r
  unfolding build_withdrawal_merkle_root
  build_withdrawal_merkle_root-IsRoot w ws =
      let leaves = map (withdrawal_leaf C) (w ∷ ws) in
      let n = length leaves in
      let (h, power) = grow_power_power n 0 n in
      let enough = grow_power_enough n 1 n (omega arith) (omega arith) in
      let least = grow_power_least n 1 n (omega arith) in
      let filling = next_power_of_two n - n in
      let sum : n + filling ≡ leaves_of_height h = omega (arith, power, enough) in
      let padded : length (pad leaves) ≡ leaves_of_height h =
        length-append leaves (replicate filling zero_hash)
        ∙ ap (λ (k : ℕ). n + k) (length-replicate filling zero_hash)
        ∙ sum in
      let (r, built, root) =
        build_tree-IsRoot h (length (pad leaves)) (pad leaves) padded
          (omega (arith, padded, height-le h)) in
      (h, filling, r, built, sum, omega (arith, least, sum, power), root)
