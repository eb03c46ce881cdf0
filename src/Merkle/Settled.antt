-- ===== src/Merkle/Settled.antt =====
-- The update loop settles the tree: each node it leaves is the hash of its children, and the hash
-- that it returns is the root of the tree over the leaves.
use zelana.Base.{
  ℕ, zero, suc, ◌+◌, ◌*◌, ◌/◌, ◌^◌, ◌≤◌, ◌<◌, ◌≡◌, ◌≢◌, refl, sym, ap, ◌∙◌, true, Bool-cases, inl,
  inr, nat_beq, pair_eq, ◌&&◌, if◌then◌else◌, arith,
}
use zelana.Base.Dict.{lookup, insert, lookup-insert}
use zelana.Merkle.{Nodes, node, climb, is_right, sibling_index, join, subtree}
use mathlib.Core.Path.{ap₂}
use native.Mathlib.Nat.{pow-suc}

module _ {A : Type 0} (empty : ℕ → A) where
  pub node-insert :
      (nodes : Nodes A) (v : A) (a b l i : ℕ)
      → node empty (insert (a, b) v nodes) l i
        ≡ (if nat_beq a l && nat_beq b i then v else node empty nodes l i)
  unfolding node
  node-insert nodes v a b l i = ground (arith, lookup-insert (a, b) (l, i) v nodes)

  pub node-insert_self :
      (nodes : Nodes A) (v : A) (a b : ℕ) → node empty (insert (a, b) v nodes) a b ≡ v
  node-insert_self nodes v a b = ground (arith, node-insert nodes v a b a b)

  pub node-insert_level :
      (nodes : Nodes A) (v : A) (a b l i : ℕ)
      → a ≢ l
      → node empty (insert (a, b) v nodes) l i ≡ node empty nodes l i
  node-insert_level nodes v a b l i h = ground (arith, node-insert nodes v a b l i)

  pub node-insert_index :
      (nodes : Nodes A) (v : A) (a b l i : ℕ)
      → b ≢ i
      → node empty (insert (a, b) v nodes) l i ≡ node empty nodes l i
  node-insert_index nodes v a b l i h = ground (arith, node-insert nodes v a b l i)

module _ {A : Type 0} (hash : A → A → A) (empty : ℕ → A) where
  abbrev pub IsParent : Nodes A → ℕ → ℕ → Type 0
  IsParent nodes l i =
      node empty nodes (suc l) i
      ≡ hash (node empty nodes l (2 * i)) (node empty nodes l (2 * i + 1))

  -- All parents below the depth are right, but for the one above the current node.
  abbrev pub IsPending : Nodes A → ℕ → ℕ → ℕ → Type 0
  IsPending nodes depth level index =
      (l i : ℕ) → l < depth → (l ≡ level → i ≢ index / 2) → IsParent nodes l i

  -- The loop's parent is the hash of the two children, whichever side the current node is on.
  pub parent_step :
      (nodes : Nodes A) (level index : ℕ) (current : A)
      → node empty nodes level index ≡ current
      → join hash (is_right index) (node empty nodes level (sibling_index index)) current
        ≡ hash
            (node empty nodes level (2 * (index / 2)))
            (node empty nodes level (2 * (index / 2) + 1))
  parent_step nodes level index current h = elim (Bool-cases (is_right index)) [
    | inl e ↦
        rw (e, ← h)
          (ap₂ hash (ap (node empty nodes level) (ground arith))
            (ap (node empty nodes level) (ground arith)))
    | inr e ↦
        rw (e, ← h)
          (ap₂ hash (ap (node empty nodes level) (ground arith))
            (ap (node empty nodes level) (ground arith)))
  ]

  IsParent-of_children :
      (nodes : Nodes A) (parent : A) (level index : ℕ)
      → parent ≡ hash (node empty nodes level (2 * index)) (node empty nodes level (2 * index + 1))
      → IsParent (insert (suc level, index) parent nodes) level index
  IsParent-of_children nodes parent level index e =
      rw
        (
          node-insert_self empty nodes parent (suc level) index,
          node-insert_level empty nodes parent (suc level) index level (2 * index) (omega arith),
          node-insert_level empty nodes parent (suc level) index level (2 * index + 1)
              (omega arith),
        )
        e

  -- A write elsewhere keeps a parent: not at its own place, nor at a child's.
  pub IsParent-insert :
      (nodes : Nodes A) (v : A) (a b l i : ℕ)
      → (a ≡ suc l → b ≢ i)
      → (a ≡ l → i ≢ b / 2)
      → IsParent nodes l i
      → IsParent (insert (a, b) v nodes) l i
  IsParent-insert nodes v a b l i p q h = ground (
    arith,
    h,
    node-insert empty nodes v a b (suc l) i,
    node-insert empty nodes v a b l (2 * i),
    node-insert empty nodes v a b l (2 * i + 1),
  )

  IsPending-step :
      (nodes : Nodes A) (depth level index : ℕ) (current : A)
      → node empty nodes level index ≡ current
      → IsPending nodes depth level index
      → IsPending
          (insert
            (suc level, index / 2)
            (join hash (is_right index) (node empty nodes level (sibling_index index)) current)
            nodes)
          depth
          (suc level)
          (index / 2)
  IsPending-step nodes depth level index current h pending l i below away =
      elim (Bool-cases (nat_beq l level && nat_beq i (index / 2))) [
        | inl e ↦
            rw (level_of e, index_of e)
              (IsParent-of_children nodes _ level (index / 2)
                (parent_step nodes level index current h))
        | inr e ↦
            IsParent-insert nodes _ (suc level) (index / 2) l i (ground arith) (λ e. away (sym e))
              (pending l i below (ground arith))
      ]
    where
      level_of : (nat_beq l level && nat_beq i (index / 2)) ≡ true → l ≡ level
      level_of e = ground arith

      index_of : (nat_beq l level && nat_beq i (index / 2)) ≡ true → i ≡ index / 2
      index_of e = ground arith

  -- The loop from `level` up to the depth: the returned hash is the root, every parent is right,
  -- and the nodes at the start level and below keep their values.
  pub climb_settles :
      (rounds depth level index : ℕ) (current : A) (nodes : Nodes A)
      → level + rounds ≡ depth
      → index < 2 ^ rounds
      → node empty nodes level index ≡ current
      → IsPending nodes depth level index
      → let (root, nodes') = climb hash empty rounds level index current nodes in
        (node empty nodes' depth 0 ≡ root)
        × ((l i : ℕ) → l < depth → IsParent nodes' l i)
        × ((l i : ℕ) → l ≤ level → node empty nodes' l i ≡ node empty nodes l i)
  unfolding climb
  climb_settles zero depth level index current nodes total small h pending = (
    rw (sym top, ← start) h,
    λ l i below. pending l i below (λ e. absurd (omega arith)),
    λ l i b. refl,
  )
    where
      top : level ≡ depth
      top = omega arith

      start : index ≡ 0
      start = omega arith
  climb_settles (suc rounds) depth level index current nodes total small h pending =
      let parent =
        join hash (is_right index) (node empty nodes level (sibling_index index)) current in
      let nodes' = insert (suc level, index / 2) parent nodes in
      let rest =
        climb_settles rounds depth (suc level) (index / 2) parent nodes' (omega arith)
          (omega (arith, pow-suc 2 rounds))
          (node-insert_self empty nodes parent (suc level) (index / 2))
          (IsPending-step nodes depth level index current h pending) in
      (
        rest.0,
        rest.1,
        λ l i b.
            rest.2 l i (omega arith)
            ∙ node-insert_level empty nodes parent (suc level) (index / 2) l i (omega arith),
      )

  -- In a settled tree each node is the hash over the leaves below it.
  pub node-subtree :
      (depth : ℕ) (nodes : Nodes A)
      → ((l i : ℕ) → l < depth → IsParent nodes l i)
      → (level index : ℕ) → level ≤ depth
      → node empty nodes level index ≡ subtree hash (node empty nodes 0) level index
  unfolding subtree
  node-subtree depth nodes settled zero index b = refl
  node-subtree depth nodes settled (suc level) index b = rw (
    settled level index b,
    node-subtree depth nodes settled level (2 * index) (omega arith),
    node-subtree depth nodes settled level (2 * index + 1) (omega arith),
  )

  -- The loop stores nothing at its start level or below.
  pub lookup-climb :
      (rounds level index : ℕ) (current : A) (nodes : Nodes A) (l i : ℕ)
      → l ≤ level
      → lookup (l, i) (climb hash empty rounds level index current nodes).1 ≡ lookup (l, i) nodes
  unfolding climb
  lookup-climb zero level index current nodes l i h = refl
  lookup-climb (suc rounds) level index current nodes l i h =
      let parent =
        join hash (is_right index) (node empty nodes level (sibling_index index)) current in
      lookup-climb rounds (suc level) (index / 2) parent
        (insert (suc level, index / 2) parent nodes) l i (omega arith)
      ∙ ground (arith, lookup-insert (suc level, index / 2) (l, i) parent nodes)
