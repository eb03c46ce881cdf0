-- ===== src/AccountTree/Proof.antt =====
-- Paths verify: the root that a path computes is the root of the tree.
use zelana.Base.{
  ℕ, ◌^◌, ◌<◌, ◌≡◌, refl, sym, ap, ◌∙◌, Bool, true, false, some, List, [], ◌∷◌, map, Bytes, pair_eq,
  bytes_eq, ==_refl, arith,
}
use zelana.Base.Dict.{lookup, insert, lookup-insert_self}
use zelana.Merkle.Settled.{lookup-climb}
use mathlib.Core.Path.{subst}
use zelana.Account.{AccountId, AccountState}
use zelana.Merkle.{bits_from, siblings_from, fold_path}
use zelana.Merkle.Paths.{fold_path-siblings}
use zelana.AccountTree.Codec.{
  BigBytes, bytes_to_field, field_to_bytes, node_hash, bytes_to_field-node_hash,
  field_to_bytes-node_hash,
}
use zelana.AccountTree.{
  AccountTree, AccountMerklePath, tree_depth, empty_at, bit, fold_fields, compute_root, verify,
  path_at_position, path, leaf, insert_leaf_at, insert_account, account_leaf,
  get_or_create_position,
}
use zelana.AccountTree.Insert.{
  at, IsBytes, IsValid, insert_leaf_at-IsValid, at-insert_leaf_at, get_or_create_position_lem,
}

module _ (B : BigBytes) where
  -- The loop over field elements follows the fold over byte arrays.
  fold_fields-fold_path :
      (ss : List Bytes) (bits : List Bool) (c : Bytes)
      → fold_fields B ss (map bit bits) (bytes_to_field B c)
        ≡ bytes_to_field B (fold_path (node_hash B) ss bits c)
  unfolding fold_fields fold_path bit
  fold_fields-fold_path [] bits c = refl
  fold_fields-fold_path (s ∷ ss) [] c = refl
  fold_fields-fold_path (s ∷ ss) (true ∷ bits) c =
      rw (← bytes_to_field-node_hash B s c) (fold_fields-fold_path ss bits (node_hash B s c))
  fold_fields-fold_path (s ∷ ss) (false ∷ bits) c =
      rw (← bytes_to_field-node_hash B c s) (fold_fields-fold_path ss bits (node_hash B c s))

  -- In a well-formed tree the path at any position below 2^32, written or not, computes the root
  -- of the tree from the leaf there.
  pub compute_root-path_at_position :
      (t : AccountTree) (position : ℕ)
      → IsValid B t
      → position < 2 ^ 32
      → compute_root B (path_at_position t position) (at t 0 position) ≡ t.root
  unfolding compute_root path_at_position
  compute_root-path_at_position t position v h =
      ap (field_to_bytes B) (
        fold_fields-fold_path (siblings_from (empty_at t.empty_roots) tree_depth 0 position t.nodes)
          (bits_from tree_depth position) (at t 0 position)
        ∙ ap (bytes_to_field B) folded)
      ∙ read_back
    where
      folded :
          fold_path
            (node_hash B)
            (siblings_from (empty_at t.empty_roots) tree_depth 0 position t.nodes)
            (bits_from tree_depth position)
            (at t 0 position)
          ≡ t.root
      folded =
          fold_path-siblings (node_hash B) (empty_at t.empty_roots) tree_depth tree_depth 0 position
            t.nodes refl h v.settled
          ∙ sym v.top

      read_back : field_to_bytes B (bytes_to_field B t.root) ≡ t.root
      read_back = rw (v.top ∙ v.settled 31 0 (omega arith)) (field_to_bytes-node_hash B _ _)

  path_of :
      (t : AccountTree) (id : AccountId) (pos : ℕ)
      → lookup id t.positions ≡ some pos
      → path t id ≡ some (path_at_position t pos)
  unfolding path
  path_of t id pos e = rw (e, path)

  pub leaf_of :
      (t : AccountTree) (id : AccountId) (pos : ℕ)
      → lookup id t.positions ≡ some pos
      → leaf t id ≡ lookup (0, pos) t.nodes
  unfolding leaf
  leaf_of t id pos e = rw (e, leaf)

  pub stored-insert_leaf_at :
      (t : AccountTree) (pos : ℕ) (lf : Bytes)
      → lookup (0, pos) (insert_leaf_at B t pos lf).nodes ≡ some lf
  unfolding insert_leaf_at
  stored-insert_leaf_at t pos lf =
      lookup-climb (node_hash B) (empty_at t.empty_roots) tree_depth 0 pos lf
        (insert (0, pos) lf t.nodes) 0 pos (omega arith)
      ∙ lookup-insert_self (0, pos) lf t.nodes

  pub positions-insert_leaf_at :
      (t : AccountTree) (pos : ℕ) (lf : Bytes) → (insert_leaf_at B t pos lf).positions ≡ t.positions
  unfolding insert_leaf_at
  positions-insert_leaf_at t pos lf = refl

  -- The path at a position that was just written computes the new root from the new leaf.
  compute_root-insert_leaf_at :
      (t : AccountTree) (pos : ℕ) (lf : Bytes)
      → IsValid B t
      → pos < 2 ^ 32
      → let t' = insert_leaf_at B t pos lf in compute_root B (path_at_position t' pos) lf ≡ t'.root
  compute_root-insert_leaf_at t pos lf v h =
      subst
        (λ l.
          compute_root B (path_at_position (insert_leaf_at B t pos lf) pos) l
          ≡ (insert_leaf_at B t pos lf).root)
        written
        (compute_root-path_at_position (insert_leaf_at B t pos lf) pos
          (insert_leaf_at-IsValid B t pos lf v h) h)
    where
      written : at (insert_leaf_at B t pos lf) 0 pos ≡ lf
      written = ground (arith, at-insert_leaf_at B t pos pos lf v h)

  -- After an account is inserted into a well-formed tree, under an identifier of bytes, it has a
  -- path and the leaf of its state, and the path proves that leaf against the new root.
  pub verify-insert_account :
      (t : AccountTree) (id : AccountId) (state : AccountState)
      → IsValid B t
      → IsBytes id
      → let t' = (insert_account B t id state).0 in
        (p : AccountMerklePath) × (path t' id ≡ some p)
        × (leaf t' id ≡ some (account_leaf B id state))
        × (verify B p (account_leaf B id state) t'.root ≡ true)
  unfolding insert_account verify
  verify-insert_account t id state v h =
      let (pos, t₁) = get_or_create_position t id in
      let lf = account_leaf B id state in
      let known = get_or_create_position_lem B t id v h in
      let t' = insert_leaf_at B t₁ pos lf in
      let found = ap (lookup id) (positions-insert_leaf_at t₁ pos lf) ∙ known.2 in
      (
        path_at_position t' pos,
        path_of t' id pos found,
        leaf_of t' id pos found ∙ stored-insert_leaf_at t₁ pos lf,
        rw (compute_root-insert_leaf_at t₁ pos lf known.1 known.0) (==_refl t'.root),
      )
