-- ===== src/Shielded/History.antt =====
-- The recent roots: how many are kept, and for how long one stays valid.
use zelana.Base.{
  ℕ, zero, suc, ◌+◌, ◌≤◌, ◌<◌, ◌≡◌, refl, true, List, [], ◌∷◌, Bytes, length, take, ==_refl,
  bytes_eq, ltb, Bool-cases, inl, inr, arith,
}
use zelana.Base.Dict.{contains}
use zelana.Shielded.{RootHistory, drop_last, push_root, is_valid}

-- The roots of several insertions, the oldest first.
abbrev pub push_all : RootHistory → List Bytes → RootHistory
push_all h [] = h
push_all h (r ∷ rs) = push_all (push_root h r) rs

contains_of_take :
    (n : ℕ) (r : Bytes) (xs : List Bytes) → contains r (take n xs) ≡ true → contains r xs ≡ true
unfolding contains
contains_of_take zero r xs h = cc
contains_of_take (suc n) r [] h = cc
contains_of_take (suc n) r (x ∷ xs) h = ground (arith, contains_of_take n r xs)

take-drop_last : (n : ℕ) (xs : List Bytes) → n < length xs → take n (drop_last xs) ≡ take n xs
unfolding drop_last
take-drop_last zero xs h = refl
take-drop_last (suc n) [] h = elim h [ ]
take-drop_last (suc n) (x ∷ []) h = absurd (omega arith)
take-drop_last (suc n) (x ∷ y ∷ xs) h = rw (take-drop_last n (y ∷ xs) (omega arith))

length-drop_last : (x : Bytes) (xs : List Bytes) → length (drop_last (x ∷ xs)) ≡ length xs
unfolding drop_last
length-drop_last x [] = refl
length-drop_last x (y ∷ xs) = omega (arith, length-drop_last y xs)

-- The history never holds more roots than its limit.
pub length-push_root :
    (h : RootHistory) (r : Bytes)
    → length h.roots ≤ h.max_size
    → length (push_root h r).roots ≤ (push_root h r).max_size
unfolding push_root
length-push_root h r b = ground (arith, length-drop_last r h.roots)

max_size-push_root : (h : RootHistory) (r : Bytes) → (push_root h r).max_size ≡ h.max_size
unfolding push_root
max_size-push_root h r = refl

kept_step :
    (h : RootHistory) (r new : Bytes) (n : ℕ)
    → contains r (take n h.roots) ≡ true
    → n < h.max_size
    → contains r (take (suc n) (push_root h new).roots) ≡ true
unfolding push_root
kept_step h r new n found b = elim (Bool-cases (ltb h.max_size (suc (length h.roots)))) [
  | inl e ↦ rw e (rw (take-drop_last (suc n) (new ∷ h.roots) (ground arith)) kept)
  | inr e ↦ rw e kept
]
  where
    kept : contains r (take (suc n) (new ∷ h.roots)) ≡ true
    kept = unfold contains in ground arith

kept :
    (rs : List Bytes) (h : RootHistory) (r : Bytes) (n : ℕ)
    → contains r (take n h.roots) ≡ true
    → n + length rs ≤ h.max_size
    → is_valid (push_all h rs) r ≡ true
unfolding is_valid
kept [] h r n found b = contains_of_take n r h.roots found
kept (new ∷ rs) h r n found b =
    kept rs (push_root h new) r (suc n) (kept_step h r new n found (omega arith))
      (omega (arith, max_size-push_root h new))

newest_kept :
    (h : RootHistory) (r : Bytes)
    → 0 < h.max_size
    → contains r (take 1 (push_root h r).roots) ≡ true
unfolding push_root
newest_kept h r b = elim (Bool-cases (ltb h.max_size (suc (length h.roots)))) [
  | inl e ↦ rw e (rw (take-drop_last 1 (r ∷ h.roots) (ground arith)) newest)
  | inr e ↦ rw e newest
]
  where
    newest : contains r (take 1 (r ∷ h.roots)) ≡ true
    newest = unfold contains in ground (arith, ==_refl r)

-- A root that was pushed is accepted while fewer later roots than the limit have been pushed.
pub is_valid-push_all :
    (h : RootHistory) (r : Bytes) (rs : List Bytes)
    → length rs < h.max_size
    → is_valid (push_all (push_root h r) rs) r ≡ true
is_valid-push_all h r rs b =
    kept rs (push_root h r) r 1 (newest_kept h r (omega arith))
      (omega (arith, max_size-push_root h r))
