-- ===== src/Merkle/Paths.antt =====
-- A path of a settled tree folds its leaf up to the root.
use zelana.Base.{ℕ, zero, suc, ◌+◌, ◌/◌, ◌^◌, ◌<◌, ◌≡◌, refl, arith}
use zelana.Merkle.{Nodes, node, bits_from, siblings_from, fold_path}
use zelana.Merkle.Settled.{IsParent, parent_step}
use native.Mathlib.Nat.{pow-suc}

module _ {A : Type 0} (hash : A → A → A) (empty : ℕ → A) where
  pub fold_path-siblings :
      (rounds depth level index : ℕ) (nodes : Nodes A)
      → level + rounds ≡ depth
      → index < 2 ^ rounds
      → ((l i : ℕ) → l < depth → IsParent hash empty nodes l i)
      → fold_path hash
          (siblings_from empty rounds level index nodes)
          (bits_from rounds index)
          (node empty nodes level index)
        ≡ node empty nodes depth 0
  unfolding fold_path siblings_from bits_from
  fold_path-siblings zero depth level index nodes total small settled = rw (top, start)
    where
      top : level ≡ depth
      top = omega arith

      start : index ≡ 0
      start = omega arith
  fold_path-siblings (suc rounds) depth level index nodes total small settled =
      rw
        (
          parent_step hash empty nodes level index (node empty nodes level index) refl,
          ← settled level (index / 2) (omega arith),
        )
        (fold_path-siblings rounds depth (suc level) (index / 2) nodes (omega arith)
          (omega (arith, pow-suc 2 rounds)) settled)
