-- ===== src/Shielded/Tests.antt =====
-- The theorems on the shielded pool at concrete inputs.
use zelana.Base.{◌≡◌, true, some, nat_beq, if◌then◌else◌, arith}
use zelana.Shielded.{MerkleTree, MerklePath, new_tree, insert_next, tree_path, verify_path}
use zelana.Shielded.Tree.{IsValid, at, new_tree-IsValid, insert_next-verify}
use zelana.Samples.{poseidon, alice}

abbrev tree : MerkleTree
tree = new_tree poseidon

insert_next-verify_example :
    let (t', new) = insert_next poseidon tree alice in
    (new ≡ 0)
    × IsValid poseidon t'
    × (p : MerklePath) × (tree_path poseidon t' 0 ≡ some p)
    × (verify_path poseidon p (if nat_beq new 0 then alice else at poseidon tree 0 0) t'.root
        ≡ true)
unfolding new_tree
insert_next-verify_example =
    insert_next-verify poseidon tree alice 0 (new_tree-IsValid poseidon) (omega arith) (omega arith)
