-- ===== src/Shielded/Frontier.antt =====
-- The frontier against the tree that it stands for.
use zelana.Base.{◌≡◌, refl, Bytes}
use zelana.Shielded.{
  Poseidon, new_frontier, frontier_insert, frontier_from, new_tree, insert_next, insert_at,
}
use zelana.Merkle.{climb, node}
use zelana.Base.Dict.{lookup, insert}

module _ (P : Poseidon) where
  -- The root that the frontier returns for the fourth of four leaves.
  abbrev pub fourth_root : Bytes → Bytes → Bytes → Bytes → Bytes
  fourth_root a b c d =
      let f₁ = (frontier_insert P (new_frontier P) a).0 in
      let f₂ = (frontier_insert P f₁ b).0 in
      let f₃ = (frontier_insert P f₂ c).0 in (frontier_insert P f₃ d).1

  -- The root that the frontier returns for the fourth leaf does not depend on the first two
  -- leaves.
  pub fourth_root_forgets : (a b a' b' c d : Bytes) → fourth_root a b c d ≡ fourth_root a' b' c d
  unfolding new_frontier frontier_insert frontier_from
  fourth_root_forgets a b a' b' c d = refl

  -- The roots that the frontier returns for the first three leaves are those of the tree.
  pub three_roots_agree :
      (a b c : Bytes)
      → let t₁ = (insert_next P (new_tree P) a).0 in
        let t₂ = (insert_next P t₁ b).0 in
        let t₃ = (insert_next P t₂ c).0 in
        let (f₁, r₁) = frontier_insert P (new_frontier P) a in
        let (f₂, r₂) = frontier_insert P f₁ b in
        let (f₃, r₃) = frontier_insert P f₂ c in (r₁ ≡ t₁.root) × (r₂ ≡ t₂.root) × (r₃ ≡ t₃.root)
  unfolding new_frontier frontier_insert frontier_from new_tree insert_next insert_at climb node
      lookup insert
  three_roots_agree a b c = (refl, refl, refl)
