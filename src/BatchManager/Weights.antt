-- ===== src/BatchManager/Weights.antt =====
-- Sums over the batches of a manager, and what each operation does to them.
use zelana.Base.{ℕ, ◌+◌, ◌≤◌, ◌≡◌, refl, Bool, true, Option, none, some, List, [], ◌∷◌, ◌++◌, arith}
use zelana.Batch.{Batch}
use zelana.BatchManager.{BatchManager, find, change_first, remove_first}

module _ (f : Batch → ℕ) where
  unfoldable pub sum_of : List Batch → ℕ
  sum_of [] = 0
  sum_of (b ∷ bs) = f b + sum_of bs

  abbrev pub current : Option Batch → ℕ
  current none = 0
  current (some b) = f b

  -- Over the current batch and both queues.
  abbrev pub total : BatchManager → ℕ
  total m = current m.current_batch + sum_of m.proving_batches + sum_of m.pending_settlement

  pub sum_of-push : (bs : List Batch) (b : Batch) → sum_of (bs ++ b ∷ []) ≡ sum_of bs + f b
  unfolding sum_of
  sum_of-push [] b = omega arith
  sum_of-push (c ∷ bs) b = omega (arith, sum_of-push bs b)

  pub sum_of-remove_first :
      (p : Batch → Bool) (bs : List Batch) (b : Batch)
      → find p bs ≡ some b
      → sum_of (remove_first p bs) + f b ≡ sum_of bs
  unfolding sum_of find remove_first
  sum_of-remove_first p [] b e = cc
  sum_of-remove_first p (c ∷ bs) b e = ground (arith, sum_of-remove_first p bs b)

  -- A change that keeps the weight of each batch keeps the sum.
  pub sum_of-change_first :
      (p : Batch → Bool) (g : Batch → Batch) (bs : List Batch)
      → ((b : Batch) → f (g b) ≡ f b)
      → sum_of (change_first p g bs) ≡ sum_of bs
  unfolding sum_of change_first
  sum_of-change_first p g [] same = refl
  sum_of-change_first p g (c ∷ bs) same = ground (arith, same c, sum_of-change_first p g bs same)

  -- A change that makes no batch heavier.
  pub sum_of-change_first_le :
      (p : Batch → Bool) (g : Batch → Batch) (bs : List Batch)
      → ((b : Batch) → f (g b) ≤ f b)
      → sum_of (change_first p g bs) ≤ sum_of bs
  unfolding sum_of change_first
  sum_of-change_first_le p g [] lighter = omega arith
  sum_of-change_first_le p g (c ∷ bs) lighter =
      ground (arith, lighter c, sum_of-change_first_le p g bs lighter)

  -- A change that makes no batch lighter.
  pub sum_of-change_first_ge :
      (p : Batch → Bool) (g : Batch → Batch) (bs : List Batch)
      → ((b : Batch) → f b ≤ f (g b))
      → sum_of bs ≤ sum_of (change_first p g bs)
  unfolding sum_of change_first
  sum_of-change_first_ge p g [] heavier = omega arith
  sum_of-change_first_ge p g (c ∷ bs) heavier =
      ground (arith, heavier c, sum_of-change_first_ge p g bs heavier)

  -- The changed batch is there.
  pub sum_of-changed :
      (p : Batch → Bool) (g : Batch → Batch) (bs : List Batch) (b : Batch)
      → find p bs ≡ some b
      → f (g b) ≤ sum_of (change_first p g bs)
  unfolding sum_of find change_first
  sum_of-changed p g [] b e = cc
  sum_of-changed p g (c ∷ bs) b e = ground (arith, sum_of-changed p g bs b)

-- What a search finds passes its test.
pub find-test : (p : Batch → Bool) (bs : List Batch) (b : Batch) → find p bs ≡ some b → p b ≡ true
unfolding find
find-test p [] b e = cc
find-test p (c ∷ bs) b e = ground (arith, find-test p bs b)

pub sum_of-le :
    (f g : Batch → ℕ) (bs : List Batch) → ((b : Batch) → f b ≤ g b) → sum_of f bs ≤ sum_of g bs
unfolding sum_of
sum_of-le f g [] below = omega arith
sum_of-le f g (b ∷ bs) below = omega (arith, below b, sum_of-le f g bs below)
