-- ===== src/AccountTree.antt =====
-- core/src/sequencer/storage/account_tree.rs: the sparse Merkle tree of the transparent accounts.
-- Levels count from the leaves (0) to the root (32); `BigBytes` is the big-integer library's
-- conversion to bytes, over which every function here is a function.
pub mod Mimc
pub mod Codec
pub mod BatchHash
pub mod Insert
pub mod Proof
pub mod Collision
pub mod Tests
use zelana.Base.{
  ℕ, zero, suc, ◌+◌, ◌*◌, ◌/◌, Bool, Option, none, some, List, [], ◌∷◌, map, Bytes, length, get_or,
  replicate, ◌==◌, nat_beq, pair_eq, bytes_eq, if◌then◌else◌,
}
use zelana.Base.Dict.{Dict, lookup, insert, has_key}
use zelana.Account.{AccountId, AccountState}
use zelana.Merkle.{Nodes, is_right, bits_from, siblings_from, climb}
use zelana.AccountTree.Mimc.{mimc_hash_2, compute_account_leaf}
use zelana.AccountTree.Codec.{BigBytes, bytes_to_field, field_to_bytes, node_hash}

abbrev pub tree_depth : ℕ
tree_depth = 32

pub record AccountTree : Type 0 where
  pub nodes : Nodes Bytes
  pub positions : Dict AccountId ℕ
  pub root : Bytes
  pub empty_roots : List Bytes

pub record AccountMerklePath : Type 0 where
  pub siblings : List Bytes
  pub path_indices : List ℕ
  pub position : ℕ

-- `empty_roots[level]`
abbrev pub empty_at : List Bytes → ℕ → Bytes
empty_at roots level = get_or roots level []

-- `u32::from_be_bytes` of the first four bytes.
unfoldable pub position_of : AccountId → ℕ
position_of id = ((get_or id 0 0 * 256 + get_or id 1 0) * 256 + get_or id 2 0) * 256 + get_or id 3 0

-- The position that an identifier has, or else takes, with the table that records it.
unfoldable pub get_or_create_position : AccountTree → AccountId → ℕ × AccountTree
unfolding position_of
get_or_create_position t id = elim (lookup id t.positions) [
  | some pos ↦ (pos, t)
  | none ↦ (position_of id, record t { positions = insert id (position_of id) t.positions })
]

unfoldable pub bit : Bool → ℕ
bit right = if right then 1 else 0

unfoldable pub path_at_position : AccountTree → ℕ → AccountMerklePath
path_at_position t position = record {
  siblings = siblings_from (empty_at t.empty_roots) tree_depth 0 position t.nodes;
  path_indices = map bit (bits_from tree_depth position);
  position = position;
}

unfoldable pub path : AccountTree → AccountId → Option AccountMerklePath
path t id = elim (lookup id t.positions) [
  | some position ↦ some (path_at_position t position)
  | none ↦ none
]

unfoldable pub leaf : AccountTree → AccountId → Option Bytes
leaf t id = elim (lookup id t.positions) [
  | some position ↦ lookup (0, position) t.nodes
  | none ↦ none
]

module _ (B : BigBytes) where
  -- Pushes the roots of the remaining levels; `prev` is the last one pushed.
  unfoldable pub roots_from : ℕ → Bytes → List Bytes
  roots_from zero prev = prev ∷ []
  roots_from (suc levels) prev = prev ∷ roots_from levels (node_hash B prev prev)

  unfoldable pub compute_empty_roots : List Bytes
  unfolding roots_from
  compute_empty_roots = roots_from tree_depth (replicate 32 0)

  unfoldable pub new : AccountTree
  unfolding compute_empty_roots
  new = record {
    nodes = [];
    positions = [];
    root = empty_at (compute_empty_roots) tree_depth;
    empty_roots = compute_empty_roots;
  }

  unfoldable pub insert_leaf_at : AccountTree → ℕ → Bytes → AccountTree
  insert_leaf_at t position leaf =
      let (root, nodes) =
        climb (node_hash B) (empty_at t.empty_roots) tree_depth 0 position leaf
          (insert (0, position) leaf t.nodes) in
      record t { nodes = nodes; root = root }

  unfoldable pub account_leaf : AccountId → AccountState → Bytes
  account_leaf id state =
      field_to_bytes B (compute_account_leaf (bytes_to_field B id) state.balance state.nonce)

  -- Returns the position too.
  unfoldable pub insert_account : AccountTree → AccountId → AccountState → AccountTree × ℕ
  unfolding insert_leaf_at account_leaf
  insert_account t id state =
      let (position, t') = get_or_create_position t id in
      (insert_leaf_at t' position (account_leaf id state), position)

  -- The loop of `compute_root`: the current node stays a field element.
  unfoldable pub fold_fields : List Bytes → List ℕ → ℕ → ℕ
  fold_fields (s ∷ ss) (i ∷ is) current =
      let sibling = bytes_to_field B s in
      fold_fields ss is
        (if nat_beq i 1 then mimc_hash_2 sibling current else mimc_hash_2 current sibling)
  fold_fields (s ∷ ss) [] current = current
  fold_fields [] is current = current

  unfoldable pub compute_root : AccountMerklePath → Bytes → Bytes
  unfolding fold_fields
  compute_root p leaf =
      field_to_bytes B (fold_fields p.siblings p.path_indices (bytes_to_field B leaf))

  unfoldable pub verify : AccountMerklePath → Bytes → Bytes → Bool
  unfolding compute_root
  verify p leaf root = compute_root p leaf == root
