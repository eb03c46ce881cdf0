-- ===== src/AccountTree/Collision.antt =====
-- Identifiers that share their first four bytes share a leaf.
use zelana.Base.{◌≡◌, ◌∙◌, none, some, ◌==◌, bytes_eq, pair_eq, false, arith}
use zelana.Base.Dict.{lookup, insert, lookup-insert, lookup-insert_self}
use zelana.Account.{AccountId, AccountState}
use zelana.AccountTree.Codec.{BigBytes}
use zelana.AccountTree.{
  AccountTree, leaf, insert_account, account_leaf, position_of, get_or_create_position,
}
use zelana.AccountTree.Proof.{leaf_of, stored-insert_leaf_at, positions-insert_leaf_at}

module _ (B : BigBytes) where
  -- A new account takes the position of its first four bytes, and its leaf is stored there.
  insert_account_new :
      (t : AccountTree) (a : AccountId) (s : AccountState)
      → lookup a t.positions ≡ none
      → let t' = (insert_account B t a s).0 in
        (t'.positions ≡ insert a (position_of a) t.positions)
        × (lookup (0, position_of a) t'.nodes ≡ some (account_leaf B a s))
  unfolding insert_account get_or_create_position
  insert_account_new t a s new =
      let t₁ = record t { positions = insert a (position_of a) t.positions } in
      rw (new, get_or_create_position)
        (
          positions-insert_leaf_at B t₁ (position_of a) (account_leaf B a s),
          stored-insert_leaf_at B t₁ (position_of a) (account_leaf B a s),
        )

  -- Of two new accounts whose identifiers differ but begin with the same four bytes, the second
  -- replaces the leaf of the first.
  pub leaf-insert_account_collision :
      (t : AccountTree) (a b : AccountId) (s r : AccountState)
      → lookup a t.positions ≡ none
      → lookup b t.positions ≡ none
      → (a == b) ≡ false
      → position_of a ≡ position_of b
      → leaf (insert_account B (insert_account B t a s).0 b r).0 a ≡ some (account_leaf B b r)
  leaf-insert_account_collision t a b s r new_a new_b differ same =
      leaf_of B t₂ a (position_of b) at_a ∙ second.1
    where
      t₁ : AccountTree
      t₁ = (insert_account B t a s).0

      t₂ : AccountTree
      t₂ = (insert_account B t₁ b r).0

      first : t₁.positions ≡ insert a (position_of a) t.positions
      first = (insert_account_new t a s new_a).0

      still_new : lookup b t₁.positions ≡ none
      still_new = rw (first, lookup-insert a b (position_of a) t.positions, differ) new_b

      second :
          (t₂.positions ≡ insert b (position_of b) t₁.positions)
          × (lookup (0, position_of b) t₂.nodes ≡ some (account_leaf B b r))
      second = insert_account_new t₁ b r still_new

      at_a : lookup a t₂.positions ≡ some (position_of b)
      at_a =
          rw (second.0, first)
            (ground (
              arith,
              lookup-insert b a (position_of b) (insert a (position_of a) t.positions),
              lookup-insert_self a (position_of a) t.positions,
            ))
