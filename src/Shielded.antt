-- ===== src/Shielded.antt =====
-- The shielded pool: sdk/privacy/src/merkle.rs (the tree of note commitments, the recent roots)
-- and core/src/sequencer/storage/shielded_state.rs (the frontier, the state of the pool).
-- A commitment, a nullifier and a node are 32 bytes.
pub mod Tree
pub mod Frontier
pub mod Restart
pub mod History
pub mod Tests
use zelana.Base.{
  ℕ, zero, suc, ◌+◌, ◌%◌, ◌/◌, Bool, true, false, Option, none, some, List, [], ◌∷◌, Bytes, length,
  get_or, take, replicate, ◌==◌, ltb, pair_eq, bytes_eq, nat_beq, if◌then◌else◌, u64_mod, u32_mod,
  ◌-◌,
}
use zelana.Base.Dict.{Dict, lookup, insert, contains}
use zelana.Merkle.{Nodes, is_right, bits_from, siblings_from, fold_path, climb, unwrap_or}

abbrev pub Commitment : Type 0
Commitment = Bytes

abbrev pub Nullifier : Type 0
Nullifier = Bytes

abbrev pub tree_depth : ℕ
tree_depth = 32

abbrev pub root_history_size : ℕ
root_history_size = 100

-- The Poseidon sponge of the cryptography library, over 32-byte arrays: of two nodes, and of the
-- zero element, which is the empty leaf.
pub record Poseidon : Type 0 where
  pub sponge : Bytes → Bytes → Bytes
  pub empty_leaf : Bytes

pub record MerklePath : Type 0 where
  pub siblings : List Bytes
  pub path_bits : List Bool
  pub position : ℕ

pub record MerkleTree : Type 0 where
  pub nodes : Nodes Bytes
  pub next_index : ℕ
  pub root : Bytes

pub record RootHistory : Type 0 where
  pub roots : List Bytes
  pub max_size : ℕ

pub record TreeFrontier : Type 0 where
  pub frontier : List (Option Bytes)
  pub next_position : ℕ

pub record ShieldedState : Type 0 where
  pub tree : MerkleTree
  pub frontier : TreeFrontier
  pub nullifiers : List Nullifier
  pub root_history : RootHistory

-- `RootHistory::new`, `push` and `is_valid`: the newest root comes first.
abbrev pub new_history : ℕ → RootHistory
new_history max_size = record { roots = []; max_size = max_size }

-- `Vec::pop`
unfoldable pub drop_last : List Bytes → List Bytes
drop_last [] = []
drop_last (r ∷ []) = []
drop_last (r ∷ s ∷ rs) = r ∷ drop_last (s ∷ rs)

unfoldable pub push_root : RootHistory → Bytes → RootHistory
push_root h root =
    let roots = root ∷ h.roots in
    record h { roots = if ltb h.max_size (length roots) then drop_last roots else roots }

unfoldable pub is_valid : RootHistory → Bytes → Bool
is_valid h root = contains root h.roots

-- `self.nodes.get(&(0, position))`
unfoldable pub get_leaf : MerkleTree → ℕ → Option Commitment
get_leaf t position = lookup (0, position) t.nodes

module _ (P : Poseidon) where
  -- Pushes the roots of the remaining levels; `prev` is the last one pushed.
  unfoldable pub roots_from : ℕ → Bytes → List Bytes
  roots_from zero prev = prev ∷ []
  roots_from (suc levels) prev = prev ∷ roots_from levels (P.sponge prev prev)

  unfoldable pub empty_root : ℕ → Bytes
  unfolding roots_from
  empty_root level = get_or (roots_from tree_depth P.empty_leaf) level []

  -- `compute_root_from_path`, on the siblings and the bits of a path.
  unfoldable pub verify_path : MerklePath → Commitment → Bytes → Bool
  verify_path p leaf root = fold_path P.sponge p.siblings p.path_bits leaf == root

  unfoldable pub new_tree : MerkleTree
  new_tree = record { nodes = []; next_index = 0; root = empty_root tree_depth }

  unfoldable pub insert_at : MerkleTree → ℕ → Commitment → MerkleTree
  insert_at t position commitment =
      let (root, nodes) =
        climb P.sponge empty_root tree_depth 0 position commitment
          (insert (0, position) commitment t.nodes) in
      record t { nodes = nodes; root = root }

  -- `MerkleTree::insert`
  unfoldable pub insert_next : MerkleTree → Commitment → MerkleTree × ℕ
  insert_next t commitment =
      let t' = insert_at t t.next_index commitment in
      (record t' { next_index = (t.next_index + 1) % u64_mod }, t.next_index)

  -- `MerkleTree::path`
  unfoldable pub tree_path : MerkleTree → ℕ → Option MerklePath
  tree_path t position =
      if ltb position t.next_index
      then some (record {
        siblings = siblings_from empty_root tree_depth 0 position t.nodes;
        path_bits = bits_from tree_depth position;
        position = position;
      })
      else none

  -- The loop of `TreeFrontier::insert` over the levels that are left: the frontier from this level
  -- up, and the new root.
  unfoldable pub frontier_from : ℕ → ℕ → Bytes → List (Option Bytes) → List (Option Bytes) × Bytes
  frontier_from level index current [] = ([], current)
  frontier_from level index current (left ∷ frontier) =
      let right = is_right index in
      let parent =
        if right
        then P.sponge (unwrap_or left (empty_root level)) current
        else P.sponge current (empty_root level) in
      let (rest, root) = frontier_from (suc level) (index / 2) parent frontier in
      ((if right then none else some current) ∷ rest, root)

  unfoldable pub frontier_insert : TreeFrontier → Bytes → TreeFrontier × Bytes
  frontier_insert f leaf =
      let (frontier, root) = frontier_from 0 f.next_position leaf f.frontier in
      (record { frontier = frontier; next_position = (f.next_position + 1) % u64_mod }, root)

  unfoldable pub new_frontier : TreeFrontier
  new_frontier = record { frontier = replicate tree_depth none; next_position = 0 }

  -- `ShieldedState::new`
  unfoldable pub new_state : ShieldedState
  new_state = record {
    tree = new_tree;
    frontier = new_frontier;
    nullifiers = [];
    root_history = push_root (new_history root_history_size) (new_tree.root);
  }

  unfoldable pub insert_commitment : ShieldedState → Commitment → ShieldedState × ℕ
  insert_commitment s commitment =
      let (tree, position) = insert_next s.tree commitment in
      (
        record s {
          tree = tree;
          frontier = (frontier_insert s.frontier commitment).0;
          root_history = push_root s.root_history tree.root;
        },
        position % u32_mod,
      )

  -- The loop of `load` over the stored commitments.
  unfoldable pub load_commitments : List (ℕ × Commitment) → ShieldedState → ShieldedState
  load_commitments [] s = s
  load_commitments ((position, commitment) ∷ cs) s = load_commitments cs (record s {
    tree = insert_at s.tree position commitment;
    frontier = record { frontier = s.frontier.frontier; next_position = (position + 1) % u32_mod };
  })

  -- `ShieldedState::load`, from the nullifiers and the commitments that the database returns.
  unfoldable pub load_state : List Nullifier → List (ℕ × Commitment) → ShieldedState
  load_state nullifiers commitments =
      let s = load_commitments commitments (record (new_state) { nullifiers = nullifiers }) in
      record s { root_history = push_root s.root_history s.tree.root }

  unfoldable pub verify_inclusion : ShieldedState → Commitment → MerklePath → Bytes → Bool
  verify_inclusion s commitment path claimed_root =
      if is_valid s.root_history claimed_root
      then verify_path path commitment claimed_root
      else false

unfoldable pub nullifier_exists : ShieldedState → Nullifier → Bool
nullifier_exists s nullifier = contains nullifier s.nullifiers

-- `none` is the error of a double spend.
unfoldable pub spend_nullifier : ShieldedState → Nullifier → Option ShieldedState
spend_nullifier s nullifier =
    if contains nullifier s.nullifiers
    then none
    else some (record s { nullifiers = nullifier ∷ s.nullifiers })
