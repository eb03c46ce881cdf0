-- ===== src/Shielded/Tree.antt =====
-- The commitment tree: insertion keeps it well formed, and its paths verify.
use zelana.Base.{
  ℕ, zero, suc, ◌+◌, ◌^◌, ◌≤◌, ◌<◌, ◌≡◌, refl, sym, ◌∙◌, true, some, List, [], Bytes, get_or,
  nat_beq, lt→ltb, pair_eq, bytes_eq, ==_refl, if◌then◌else◌, arith,
}
use zelana.Base.Dict.{lookup, insert}
use zelana.Merkle.{node, subtree, bits_from, siblings_from, fold_path, climb}
use zelana.Merkle.Settled.{
  IsParent, IsParent-insert, climb_settles, node-insert, node-insert_self, node-subtree,
}
use zelana.Merkle.Paths.{fold_path-siblings}
use zelana.Shielded.{
  Poseidon, Commitment, MerklePath, MerkleTree, tree_depth, roots_from, empty_root, new_tree,
  insert_at, insert_next, tree_path, verify_path,
}

module _ (P : Poseidon) where
  -- The node at a level and an index, the root of an empty subtree where none is stored.
  abbrev pub at : MerkleTree → ℕ → ℕ → Bytes
  at t = node (empty_root P) t.nodes

  -- Every parent is the hash of its children, and the root is the top node.
  pub record IsValid (t : MerkleTree) : Type 0 where
    pub settled : (l i : ℕ) → l < tree_depth → IsParent P.sponge (empty_root P) t.nodes l i
    pub top : t.root ≡ at t tree_depth 0

  abbrev from_roots : List Bytes → ℕ → Bytes
  from_roots roots l = get_or roots l []

  empty_root-suc :
      (l : ℕ) → l < tree_depth → empty_root P (suc l) ≡ P.sponge (empty_root P l) (empty_root P l)
  unfolding empty_root
  empty_root-suc l h = go tree_depth l P.empty_leaf h
    where
      go :
          (levels l : ℕ) (prev : Bytes)
          → l < levels
          → from_roots (roots_from P levels prev) (suc l)
            ≡ P.sponge
                (from_roots (roots_from P levels prev) l)
                (from_roots (roots_from P levels prev) l)
      go zero l prev h = elim h [ ]
      go (suc zero) zero prev h = refl
      go (suc (suc levels)) zero prev h = refl
      go (suc levels) (suc l) prev h = go levels l (P.sponge prev prev) (omega arith)

  pub new_tree-IsValid : IsValid (new_tree P)
  unfolding new_tree node lookup
  new_tree-IsValid = record { settled = λ l i h. empty_root-suc l h; top = refl }

  climbed :
      (t : MerkleTree) (position : ℕ) (c : Commitment)
      → IsValid t
      → position < 2 ^ 32
      → let nodes₀ = insert (0, position) c t.nodes in
        let (root, nodes) = climb P.sponge (empty_root P) tree_depth 0 position c nodes₀ in
        (node (empty_root P) nodes tree_depth 0 ≡ root)
        × ((l i : ℕ) → l < tree_depth → IsParent P.sponge (empty_root P) nodes l i)
        × ((l i : ℕ) → l ≤ 0 → node (empty_root P) nodes l i ≡ node (empty_root P) nodes₀ l i)
  climbed t position c v h =
      climb_settles P.sponge (empty_root P) tree_depth tree_depth 0 position c _ refl h
        (node-insert_self (empty_root P) t.nodes c 0 position)
        (λ l i below away.
          IsParent-insert P.sponge (empty_root P) t.nodes c 0 position l i
            (λ e. absurd (omega arith)) (λ e. away (sym e)) (v.settled l i below))

  pub insert_at-IsValid :
      (t : MerkleTree) (position : ℕ) (c : Commitment)
      → IsValid t
      → position < 2 ^ 32
      → IsValid (insert_at P t position c)
  unfolding insert_at
  insert_at-IsValid t position c v h = record {
    settled = (climbed t position c v h).1;
    top = sym (climbed t position c v h).0;
  }

  -- Of the leaves, a write changes the one at its position.
  pub at-insert_at :
      (t : MerkleTree) (position i : ℕ) (c : Commitment)
      → IsValid t
      → position < 2 ^ 32
      → at (insert_at P t position c) 0 i ≡ (if nat_beq position i then c else at t 0 i)
  unfolding insert_at
  at-insert_at t position i c v h =
      (climbed t position c v h).2 0 i (omega arith)
      ∙ node-insert (empty_root P) t.nodes c 0 position 0 i

  pub root-subtree : (t : MerkleTree) → IsValid t → t.root ≡ subtree P.sponge (at t 0) tree_depth 0
  root-subtree t v =
      v.top
      ∙ node-subtree P.sponge (empty_root P) tree_depth t.nodes v.settled tree_depth 0 (omega arith)

  -- Below the next position each path exists and proves the leaf there.
  pub tree_path-verify :
      (t : MerkleTree) (position : ℕ)
      → IsValid t
      → position < t.next_index
      → t.next_index ≤ 2 ^ 32
      → (p : MerklePath) × (tree_path P t position ≡ some p)
        × (verify_path P p (at t 0 position) t.root ≡ true)
  unfolding tree_path verify_path
  tree_path-verify t position v h b = (
    record {
      siblings = siblings_from (empty_root P) tree_depth 0 position t.nodes;
      path_bits = bits_from tree_depth position;
      position = position;
    },
    rw (lt→ltb position t.next_index h),
    rw (folded ∙ sym v.top) (==_refl t.root),
  )
    where
      folded :
          fold_path P.sponge
            (siblings_from (empty_root P) tree_depth 0 position t.nodes)
            (bits_from tree_depth position)
            (at t 0 position)
          ≡ at t tree_depth 0
      folded =
          fold_path-siblings P.sponge (empty_root P) tree_depth tree_depth 0 position t.nodes refl
            (omega arith) v.settled

  insert_next-IsValid :
      (t : MerkleTree) (c : Commitment)
      → IsValid t
      → t.next_index < 2 ^ 32
      → IsValid (insert_next P t c).0
  unfolding insert_next
  insert_next-IsValid t c v h =
      let v' = insert_at-IsValid t t.next_index c v h in
      record { settled = v'.settled; top = v'.top }

  -- A commitment inserted into a well-formed tree of fewer than 2^32 takes the next position and
  -- leaves a well-formed tree, in which it and each earlier position have a path that proves the
  -- leaf there.
  pub insert_next-verify :
      (t : MerkleTree) (c : Commitment) (position : ℕ)
      → IsValid t
      → t.next_index < 2 ^ 32
      → position ≤ t.next_index
      → let (t', new) = insert_next P t c in
        (new ≡ t.next_index)
        × IsValid t'
        × (p : MerklePath) × (tree_path P t' position ≡ some p)
        × (verify_path P p (if nat_beq new position then c else at t 0 position) t'.root ≡ true)
  insert_next-verify t c position v small below = (
    new_position,
    insert_next-IsValid t c v small,
    found.0,
    found.1,
    rw (new_position, ← leaf_there) found.2,
  )
    where
      new_position : (insert_next P t c).1 ≡ t.next_index
      new_position = unfold insert_next in refl

      next : (insert_next P t c).0.next_index ≡ t.next_index + 1
      next = unfold insert_next in omega arith

      leaf_there :
          at (insert_next P t c).0 0 position
          ≡ (if nat_beq t.next_index position then c else at t 0 position)
      leaf_there = unfold insert_next in at-insert_at t t.next_index position c v small

      found :
          (p : MerklePath) × (tree_path P (insert_next P t c).0 position ≡ some p)
          × (verify_path P p (at (insert_next P t c).0 0 position) (insert_next P t c).0.root
              ≡ true)
      found =
          tree_path-verify (insert_next P t c).0 position (insert_next-IsValid t c v small)
            (omega (arith, next)) (omega (arith, next))
