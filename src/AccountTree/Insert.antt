-- ===== src/AccountTree/Insert.antt =====
-- Insertion keeps the tree well formed and changes one leaf; the root is the root of the leaves.
use zelana.Base.{
  ℕ, zero, suc, ◌^◌, ◌≤◌, ◌<◌, ◌≡◌, ◌≢◌, refl, sym, ap, ◌∙◌, some, [], ◌∷◌, Bytes, get_or,
  replicate, nat_beq, pair_eq, bytes_eq, if◌then◌else◌, arith, Option-cases, inl, inr,
}
use zelana.Base.Dict.{lookup, insert, lookup-insert, lookup-insert_self}
use mathlib.Core.Path.{fun_ext}
use zelana.Account.{AccountId, AccountState}
use zelana.Merkle.{node, climb, subtree}
use zelana.Merkle.Settled.{
  IsParent, climb_settles, node-subtree, node-insert, node-insert_self, IsParent-insert,
}
use zelana.AccountTree.Codec.{BigBytes, node_hash}
use zelana.AccountTree.{
  AccountTree, tree_depth, empty_at, roots_from, compute_empty_roots, new, get_or_create_position,
  insert_leaf_at, insert_account, account_leaf, position_of,
}

-- The node at a level and an index, the root of an empty subtree where none is stored.
abbrev pub at : AccountTree → ℕ → ℕ → Bytes
at t = node (empty_at t.empty_roots) t.nodes

abbrev pub IsBytes : Bytes → Type 0
IsBytes [] = Unit
IsBytes (b ∷ bs) = (b < 256) × IsBytes bs

module _ (B : BigBytes) where
  -- Every parent is the hash of its children, the root is the top node, and positions fit 32 bits.
  pub record IsValid (t : AccountTree) : Type 0 where
    pub settled :
        (l i : ℕ) → l < tree_depth → IsParent (node_hash B) (empty_at t.empty_roots) t.nodes l i
    pub top : t.root ≡ at t tree_depth 0
    pub placed : (id : AccountId) (pos : ℕ) → lookup id t.positions ≡ some pos → pos < 2 ^ 32

  empty_at-roots_from :
      (levels l : ℕ) (prev : Bytes)
      → l < levels
      → empty_at (roots_from B levels prev) (suc l)
        ≡ node_hash B
            (empty_at (roots_from B levels prev) l)
            (empty_at (roots_from B levels prev) l)
  unfolding roots_from
  empty_at-roots_from zero l prev h = elim h [ ]
  empty_at-roots_from (suc zero) zero prev h = refl
  empty_at-roots_from (suc (suc levels)) zero prev h = refl
  empty_at-roots_from (suc levels) (suc l) prev h =
      empty_at-roots_from levels l (node_hash B prev prev) (omega arith)

  -- The empty tree is well formed.
  pub new-IsValid : IsValid (new B)
  unfolding new compute_empty_roots node lookup
  new-IsValid = record {
    settled = λ l i h. empty_at-roots_from tree_depth l (replicate 32 0) h;
    top = refl;
    placed = λ id pos e. cc;
  }

  climbed :
      (t : AccountTree) (position : ℕ) (lf : Bytes)
      → IsValid t
      → position < 2 ^ 32
      → let nodes₀ = insert (0, position) lf t.nodes in
        let (root, nodes) =
          climb (node_hash B) (empty_at t.empty_roots) tree_depth 0 position lf nodes₀ in
        (node (empty_at t.empty_roots) nodes tree_depth 0 ≡ root)
        × ((l i : ℕ) → l < tree_depth → IsParent (node_hash B) (empty_at t.empty_roots) nodes l i)
        × ((l i : ℕ)
            → l ≤ 0
            → node (empty_at t.empty_roots) nodes l i ≡ node (empty_at t.empty_roots) nodes₀ l i)
  climbed t position lf v h =
      climb_settles (node_hash B) (empty_at t.empty_roots) tree_depth tree_depth 0 position lf _
        refl h (node-insert_self (empty_at t.empty_roots) t.nodes lf 0 position)
        (λ l i below away.
          IsParent-insert (node_hash B) (empty_at t.empty_roots) t.nodes lf 0 position l i
            (λ e. absurd (omega arith)) (λ e. away (sym e)) (v.settled l i below))

  pub insert_leaf_at-IsValid :
      (t : AccountTree) (position : ℕ) (lf : Bytes)
      → IsValid t
      → position < 2 ^ 32
      → IsValid (insert_leaf_at B t position lf)
  unfolding insert_leaf_at
  insert_leaf_at-IsValid t position lf v h = record {
    settled = (climbed t position lf v h).1;
    top = sym (climbed t position lf v h).0;
    placed = v.placed;
  }

  -- Of the leaves, a write changes the one at its position.
  pub at-insert_leaf_at :
      (t : AccountTree) (position i : ℕ) (lf : Bytes)
      → IsValid t
      → position < 2 ^ 32
      → at (insert_leaf_at B t position lf) 0 i ≡ (if nat_beq position i then lf else at t 0 i)
  unfolding insert_leaf_at
  at-insert_leaf_at t position i lf v h =
      (climbed t position lf v h).2 0 i (omega arith)
      ∙ node-insert (empty_at t.empty_roots) t.nodes lf 0 position 0 i

  -- The root is the hash over all 2^32 leaves, those never written included.
  pub root-subtree :
      (t : AccountTree) → IsValid t → t.root ≡ subtree (node_hash B) (at t 0) tree_depth 0
  root-subtree t v =
      v.top
      ∙ node-subtree (node_hash B) (empty_at t.empty_roots) tree_depth t.nodes v.settled tree_depth
          0 (omega arith)

  -- Writes at two different positions of a well-formed tree give one root, whichever comes first.
  pub insert_leaf_at_comm :
      (t : AccountTree) (p q : ℕ) (a b : Bytes)
      → IsValid t
      → p < 2 ^ 32
      → q < 2 ^ 32
      → p ≢ q
      → (insert_leaf_at B (insert_leaf_at B t p a) q b).root
        ≡ (insert_leaf_at B (insert_leaf_at B t q b) p a).root
  insert_leaf_at_comm t p q a b v hp hq ne =
      root-subtree tpq vpq
      ∙ ap (λ leaves. subtree (node_hash B) leaves tree_depth 0) (fun_ext leaves)
      ∙ sym (root-subtree tqp vqp)
    where
      tp : AccountTree
      tp = insert_leaf_at B t p a

      tq : AccountTree
      tq = insert_leaf_at B t q b

      vp : IsValid tp
      vp = insert_leaf_at-IsValid t p a v hp

      vq : IsValid tq
      vq = insert_leaf_at-IsValid t q b v hq

      tpq : AccountTree
      tpq = insert_leaf_at B tp q b

      tqp : AccountTree
      tqp = insert_leaf_at B tq p a

      vpq : IsValid tpq
      vpq = insert_leaf_at-IsValid tp q b vp hq

      vqp : IsValid tqp
      vqp = insert_leaf_at-IsValid tq p a vq hp

      leaves : (i : ℕ) → at tpq 0 i ≡ at tqp 0 i
      leaves i = ground (
        arith,
        at-insert_leaf_at tp q i b vp hq,
        at-insert_leaf_at t p i a v hp,
        at-insert_leaf_at tq p i a vq hp,
        at-insert_leaf_at t q i b v hq,
      )

  byte-lt : (bs : Bytes) (i : ℕ) → IsBytes bs → get_or bs i 0 < 256
  byte-lt [] i h = omega arith
  byte-lt (b ∷ bs) zero h = h.0
  byte-lt (b ∷ bs) (suc i) h = byte-lt bs i h.1

  position_of-lt : (id : AccountId) → IsBytes id → position_of id < 2 ^ 32
  unfolding position_of
  position_of-lt id h =
      omega (arith, byte-lt id 0 h, byte-lt id 1 h, byte-lt id 2 h, byte-lt id 3 h)

  -- The table of positions grows, and nothing else changes.
  pub get_or_create_position_lem :
      (t : AccountTree) (id : AccountId)
      → IsValid t
      → IsBytes id
      → let (pos, t') = get_or_create_position t id in
        (pos < 2 ^ 32) × IsValid t' × (lookup id t'.positions ≡ some pos)
  unfolding get_or_create_position
  get_or_create_position_lem t id v h = elim (Option-cases (lookup id t.positions)) [
    | inr (pos, e) ↦ rw (e, get_or_create_position) (v.placed id pos e, v, e)
    | inl e ↦
        rw (e, get_or_create_position)
          (
            position_of-lt id h,
            record {
              settled = v.settled;
              top = v.top;
              placed = λ j pos found. ground (
                arith,
                v.placed j pos,
                position_of-lt id h,
                lookup-insert id j (position_of id) t.positions,
              );
            },
            lookup-insert_self id (position_of id) t.positions,
          )
  ]

  -- Inserting an account under an identifier of bytes keeps the tree well formed: every parent is
  -- the hash of its children, the root is the top node, and positions fit 32 bits.
  pub insert_account-IsValid :
      (t : AccountTree) (id : AccountId) (state : AccountState)
      → IsValid t
      → IsBytes id
      → IsValid (insert_account B t id state).0
  unfolding insert_account
  insert_account-IsValid t id state v h =
      let known = get_or_create_position_lem t id v h in
      insert_leaf_at-IsValid _ _ (account_leaf B id state) known.1 known.0
