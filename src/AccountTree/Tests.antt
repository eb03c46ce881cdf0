-- ===== src/AccountTree/Tests.antt =====
-- The theorems on the account tree at concrete inputs.
use zelana.Base.{◌≡◌, refl, none, some, true, false, Bytes, ◌==◌, bytes_eq, bytes_beq, arith}
use zelana.Base.Dict.{lookup}
use zelana.Account.{default_state}
use zelana.AccountTree.{
  AccountTree, AccountMerklePath, new, insert_account, path, leaf, account_leaf, verify,
  position_of,
}
use zelana.AccountTree.Insert.{new-IsValid}
use zelana.AccountTree.Proof.{verify-insert_account}
use zelana.AccountTree.Collision.{leaf-insert_account_collision}
use zelana.Samples.{big_bytes, alice, bob, rich}

abbrev empty_tree : AccountTree
empty_tree = new big_bytes

verify-insert_account_example :
    let t' = (insert_account big_bytes empty_tree alice rich).0 in
    (p : AccountMerklePath) × (path t' alice ≡ some p)
    × (leaf t' alice ≡ some (account_leaf big_bytes alice rich))
    × (verify big_bytes p (account_leaf big_bytes alice rich) t'.root ≡ true)
verify-insert_account_example =
    verify-insert_account big_bytes empty_tree alice rich (new-IsValid big_bytes) (ground arith)

leaf-insert_account_collision_example :
    leaf
      (insert_account big_bytes
        (insert_account big_bytes empty_tree alice rich).0
        bob
        default_state).0
      alice
    ≡ some (account_leaf big_bytes bob default_state)
leaf-insert_account_collision_example =
    leaf-insert_account_collision big_bytes empty_tree alice bob rich default_state (nobody alice)
      (nobody bob) differ positions
  where
    differ : (alice == bob) ≡ false
    differ = unfold bytes_beq in refl

    nobody : (id : Bytes) → lookup id empty_tree.positions ≡ none
    nobody id = unfold new lookup in refl

    positions : position_of alice ≡ position_of bob
    positions = unfold position_of in refl
