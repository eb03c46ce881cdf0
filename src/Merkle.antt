-- ===== src/Merkle.antt =====
-- The sparse Merkle tree that core/src/sequencer/storage/account_tree.rs and
-- sdk/privacy/src/merkle.rs both write out: the loops over the levels, over any type of node,
-- hash of a pair and table of empty subtree roots. Each tree brings its own.
pub mod Settled
pub mod Paths
use zelana.Base.{
  ℕ, zero, suc, ◌+◌, ◌-◌, ◌*◌, ◌/◌, ◌%◌, ◌<◌, ◌≡◌, Bool, Option, none, some, List, [], ◌∷◌, nat_beq,
  pair_eq, if◌then◌else◌,
}
use zelana.Base.Dict.{Dict, lookup, insert}

-- `unwrap_or`
abbrev pub unwrap_or {ℓ} : {A : Type ℓ} → Option A → A → A
unwrap_or none d = d
unwrap_or (some a) d = a

-- `HashMap<(usize, u64), _>`: level and index.
abbrev pub Nodes {ℓ} : Type ℓ → Type ℓ
Nodes A = Dict (ℕ × ℕ) A

-- `current_index & 1 == 1`
abbrev pub is_right : ℕ → Bool
is_right index = nat_beq (index % 2) 1

abbrev pub sibling_index : ℕ → ℕ
sibling_index index = if is_right index then index - 1 else index + 1

-- The position bits of an index, from the leaf up.
unfoldable pub bits_from : ℕ → ℕ → List Bool
bits_from zero index = []
bits_from (suc rounds) index = is_right index ∷ bits_from rounds (index / 2)

module _ {ℓ} {A : Type ℓ} (empty : ℕ → A) where
  -- `nodes.get(&(level, index)).copied().unwrap_or(empty_roots[level])`
  unfoldable pub node : Nodes A → ℕ → ℕ → A
  node nodes level index = unwrap_or (lookup (level, index) nodes) (empty level)

  -- The siblings that a path collects, over the rounds that are left.
  unfoldable pub siblings_from : ℕ → ℕ → ℕ → Nodes A → List A
  unfolding node
  siblings_from zero level index nodes = []
  siblings_from (suc rounds) level index nodes =
      node nodes level (sibling_index index) ∷ siblings_from rounds (suc level) (index / 2) nodes

module _ {ℓ} {A : Type ℓ} (hash : A → A → A) where
  -- One step towards the root: the current node is the right or the left child.
  abbrev pub join : Bool → A → A → A
  join right sibling current = if right then hash sibling current else hash current sibling

  unfoldable pub fold_path : List A → List Bool → A → A
  fold_path (s ∷ ss) (b ∷ bs) current = fold_path ss bs (join b s current)
  fold_path (s ∷ ss) [] current = current
  fold_path [] bits current = current

module _ {ℓ} {A : Type ℓ} (hash : A → A → A) (empty : ℕ → A) where
  -- The update loop, over the rounds that are left: writes each parent, returns the last hash.
  unfoldable pub climb : ℕ → ℕ → ℕ → A → Nodes A → A × Nodes A
  unfolding node
  climb zero level index current nodes = (current, nodes)
  climb (suc rounds) level index current nodes =
      let parent =
        join hash (is_right index) (node empty nodes level (sibling_index index)) current in
      climb rounds (suc level) (index / 2) parent (insert (suc level, index / 2) parent nodes)

-- The root of the subtree over the leaves, as a definition by recursion on the level.
module _ {ℓ} {A : Type ℓ} (hash : A → A → A) where
  pub subtree : (ℕ → A) → ℕ → ℕ → A
  subtree leaf zero index = leaf index
  subtree leaf (suc level) index =
      hash (subtree leaf level (2 * index)) (subtree leaf level (2 * index + 1))
