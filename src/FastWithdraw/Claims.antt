-- ===== src/FastWithdraw/Claims.antt =====
-- The life of a claim.
use zelana.Base.{ℕ, ◌≤◌, ◌≡◌, ◌↔◌, some, [], ◌∷◌, Bytes, bytes_eq, arith, Option-cases, inl, inr}
use zelana.Base.Dict.{Dict, lookup, insert, lookup-insert_self}
use zelana.FastWithdraw.{
  Claim, pending, claimable, claimed, invalidated, Service, ok, err, already_processed, claim,
  invalidate_claim, update_claimable_states, update_all, updated, restore_lp,
}

-- For a claim that is stored, the provider is paid exactly if the claim is still pending and its
-- challenge period is over.
pub claim_iff :
    (s : Service) (id : Bytes) (now : ℕ) (c : Claim)
    → lookup id s.claims ≡ some c
    → ((r : Claim × Service) × (claim s id now ≡ ok r))
      ↔ ((c.state ≡ pending) × (c.claimable_at ≤ now))
unfolding claim
claim_iff s id now c e = (
  λ (r, paid). ground (arith, e),
  λ (p, due). (
    (
      record c { state = claimable },
      record s {
        lps = restore_lp c s.lps;
        claims = insert id (record c { state = claimed }) s.claims;
      },
    ),
    ground (arith, e),
  ),
)

-- After a claim is paid it can be neither paid again nor invalidated.
pub claim_once :
    (s : Service) (id : Bytes) (now later : ℕ) (r : Claim × Service)
    → claim s id now ≡ ok r
    → (claim r.1 id later ≡ err already_processed)
      × (invalidate_claim r.1 id ≡ err already_processed)
unfolding claim invalidate_claim
claim_once s id now later r e = elim (Option-cases (lookup id s.claims)) [
  | inl missing ↦ absurd (ground (arith, missing))
  | inr (c, found) ↦
      let there = lookup-insert_self id (record c { state = claimed }) s.claims in
      ground (arith, found, there)
]

-- A claim that is invalidated is never paid.
pub invalidate_claim-claim :
    (s s' : Service) (id : Bytes) (later : ℕ)
    → invalidate_claim s id ≡ ok s'
    → claim s' id later ≡ err already_processed
unfolding claim invalidate_claim
invalidate_claim-claim s s' id later e = elim (Option-cases (lookup id s.claims)) [
  | inl missing ↦ absurd (ground (arith, missing))
  | inr (c, found) ↦
      let there = lookup-insert_self id (record c { state = invalidated }) s.claims in
      ground (arith, found, there)
]

lookup-update_all :
    (now : ℕ) (id : Bytes) (claims : Dict Bytes Claim) (c : Claim)
    → lookup id claims ≡ some c
    → lookup id (update_all now claims) ≡ some (updated now c)
unfolding lookup update_all
lookup-update_all now id [] c e = cc
lookup-update_all now id ((j, d) ∷ claims) c e = ground (arith, lookup-update_all now id claims c)

-- Once the periodic update has seen a pending claim whose challenge period is over, paying and
-- invalidating it are refused at any later time.
pub update_claimable_states-claim :
    (s : Service) (id : Bytes) (now later : ℕ) (c : Claim)
    → lookup id s.claims ≡ some c
    → c.state ≡ pending
    → c.claimable_at ≤ now
    → let s' = update_claimable_states s now in
      (claim s' id later ≡ err already_processed) × (invalidate_claim s' id ≡ err already_processed)
unfolding claim invalidate_claim update_claimable_states
update_claimable_states-claim s id now later c e p due =
    ground (arith, lookup-update_all now id s.claims c e)
