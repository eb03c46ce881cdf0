-- ===== src/Shielded/Restart.antt =====
-- The state that `load` rebuilds from the database.
use zelana.Base.{ℕ, ◌≡◌, refl, ◌∙◌, none, some, List, [], ◌∷◌, pair_eq, arith}
use mathlib.Core.Path.{subst}
use zelana.Base.Dict.{insert, lookup-insert_self}
use zelana.Merkle.Settled.{lookup-climb}
use zelana.Shielded.{
  Poseidon, Commitment, Nullifier, MerkleTree, ShieldedState, empty_root, tree_depth, insert_at,
  insert_next, get_leaf, tree_path, insert_commitment, load_commitments, load_state, new_state,
  new_tree,
}

module _ (P : Poseidon) where
  next_index-insert_at :
      (t : MerkleTree) (position : ℕ) (c : Commitment)
      → (insert_at P t position c).next_index ≡ t.next_index
  unfolding insert_at
  next_index-insert_at t position c = refl

  next_index-load_commitments :
      (cs : List (ℕ × Commitment)) (s : ShieldedState)
      → (load_commitments P cs s).tree.next_index ≡ s.tree.next_index
  unfolding load_commitments
  next_index-load_commitments [] s = refl
  next_index-load_commitments ((position, c) ∷ cs) s =
      next_index-load_commitments cs _ ∙ next_index-insert_at s.tree position c

  next_index-load_state :
      (ns : List Nullifier) (cs : List (ℕ × Commitment)) → (load_state P ns cs).tree.next_index ≡ 0
  unfolding load_state new_state new_tree
  next_index-load_state ns cs = next_index-load_commitments cs _

  get_leaf-insert_next :
      (t : MerkleTree) (c : Commitment) → get_leaf (insert_next P t c).0 t.next_index ≡ some c
  unfolding get_leaf insert_next insert_at
  get_leaf-insert_next t c =
      lookup-climb P.sponge (empty_root P) tree_depth 0 t.next_index c
        (insert (0, t.next_index) c t.nodes) 0 t.next_index (omega arith)
      ∙ lookup-insert_self (0, t.next_index) c t.nodes

  no_path : (t : MerkleTree) (position : ℕ) → t.next_index ≡ 0 → tree_path P t position ≡ none
  unfolding tree_path
  no_path t position e = ground arith

  -- Whatever commitments were loaded from the database, none of them has a path, and the next
  -- commitment is written to position 0.
  pub load_state-insert_commitment :
      (ns : List Nullifier) (cs : List (ℕ × Commitment)) (c : Commitment) (position : ℕ)
      → let s = load_state P ns cs in
        let (s', new) = insert_commitment P s c in
        (tree_path P s.tree position ≡ none) × (new ≡ 0) × (get_leaf s'.tree 0 ≡ some c)
  unfolding insert_commitment insert_next
  load_state-insert_commitment ns cs c position =
      let e = next_index-load_state ns cs in
      (
        no_path (load_state P ns cs).tree position e,
        omega arith,
        subst (λ n. get_leaf (insert_next P (load_state P ns cs).tree c).0 n ≡ some c) e
            (get_leaf-insert_next (load_state P ns cs).tree c),
      )
