-- ===== src/FastWithdraw/Liquidity.antt =====
-- The books of the providers: what a provider has available and what is tied up in its claims
-- make up its collateral.
use zelana.Base.{
  ℕ, ◌+◌, ◌≤◌, ◌≡◌, refl, Bool, true, false, Option, none, some, [], ◌∷◌, Bytes, ◌==◌, ==_iff,
  ==_refl, bytes_eq, if◌then◌else◌, arith, u64_max, Option-cases, inl, inr, ap, Bool-cases, ltb,
}
use zelana.Base.Dict.{Dict, lookup, insert, has_key, lookup-insert}
use zelana.FastWithdraw.{
  LiquidityProvider, Claim, ClaimState, pending, claimed, invalidated, Service, Result, ok, err,
  can_fulfill, register_lp, deactivate_lp, execute_fast_withdraw, claim, invalidate_claim,
  update_claimable_states, update_all, new_claim, record_claim, restore_lp, saturating_add,
  is_pending,
}

-- A claim ties up its amount until it is paid; one that is invalidated does so for good.
abbrev pub ties : ClaimState → Bool
ties claimed = false
ties _ = true

abbrev pub weight : Bytes → Claim → ℕ
weight a c = if c.lp_address == a then (if ties c.state then c.original_amount else 0) else 0

unfoldable pub locked : Bytes → Dict Bytes Claim → ℕ
locked a [] = 0
locked a ((id, c) ∷ claims) = weight a c + locked a claims

locked-insert_new :
    (a id : Bytes) (c : Claim) (claims : Dict Bytes Claim)
    → lookup id claims ≡ none
    → locked a (insert id c claims) ≡ locked a claims + weight a c
unfolding locked insert lookup
locked-insert_new a id c [] e = omega arith
locked-insert_new a id c ((j, d) ∷ claims) e = ground (arith, locked-insert_new a id c claims)

locked-insert_old :
    (a id : Bytes) (c old : Claim) (claims : Dict Bytes Claim)
    → lookup id claims ≡ some old
    → locked a (insert id c claims) + weight a old ≡ locked a claims + weight a c
unfolding locked insert lookup
locked-insert_old a id c old [] e = cc
locked-insert_old a id c old ((j, d) ∷ claims) e = elim (Bool-cases (j == id)) [
  | inl here ↦ let same = ap (weight a) (found here e) in rw here (omega (arith, same))
  | inr there ↦
      rw there (omega (arith, locked-insert_old a id c old claims (ground (arith, there, e))))
]
  where
    found : (j == id) ≡ true → (if j == id then some d else lookup id claims) ≡ some old → d ≡ old
    found here e = ground arith

locked-update_all :
    (a : Bytes) (now : ℕ) (claims : Dict Bytes Claim)
    → locked a (update_all now claims) ≡ locked a claims
unfolding locked update_all
locked-update_all a now [] = refl
locked-update_all a now ((j, d) ∷ claims) = ground (arith, locked-update_all a now claims)

pub record IsBacked (s : Service) : Type 0 where
  pub backed :
      (a : Bytes) (lp : LiquidityProvider)
      → lookup a s.lps ≡ some lp
      → (lp.available + locked a s.claims ≡ lp.collateral) × (lp.collateral ≤ u64_max)
  pub unused : (a : Bytes) → lookup a s.lps ≡ none → locked a s.claims ≡ 0

-- The calls that change the service.
pub data Call : Type 0 where
  registers : Bytes → Bytes → ℕ → Option ℕ → Call
  deactivates : Bytes → Call
  withdraws : Bytes → Bytes → ℕ → Bytes → Bytes → Call
  claims_back invalidates : Bytes → Call
  updates : Call

abbrev after : Service → Result Service → Service
after s (ok s') = s'
after s (err e) = s

abbrev after_claim : Service → Result (Claim × Service) → Service
after_claim s (ok (c, s')) = s'
after_claim s (err e) = s

-- A call at a time; one that fails changes nothing.
pub step : Service → ℕ → Call → Service
step s now (registers l1 l2 collateral fee) = after s (register_lp s l1 l2 collateral fee now)
step s now (deactivates a) = after s (deactivate_lp s a)
step s now (withdraws tx_hash user amount a id) =
    after_claim s (execute_fast_withdraw s tx_hash user amount a id now)
step s now (claims_back id) = after_claim s (claim s id now)
step s now (invalidates id) = after s (invalidate_claim s id)
step s now updates = update_claimable_states s now

-- A collateral is a `u64`, and the identifier of a new claim is not in use.
abbrev pub Allowed : Service → Call → Type 0
Allowed s (registers l1 l2 collateral fee) = collateral ≤ u64_max
Allowed s (withdraws tx_hash user amount a id) = lookup id s.claims ≡ none
Allowed s (deactivates a) = Unit
Allowed s (claims_back id) = Unit
Allowed s (invalidates id) = Unit
Allowed s updates = Unit

-- A change of one provider's entry, and of the claims on it alone.
put-IsBacked :
    (s s' : Service) (a : Bytes) (lp : LiquidityProvider)
    → IsBacked s
    → s'.lps ≡ insert a lp s.lps
    → ((b : Bytes) → (a == b) ≡ false → locked b s'.claims ≡ locked b s.claims)
    → lp.available + locked a s'.claims ≡ lp.collateral
    → lp.collateral ≤ u64_max
    → IsBacked s'
put-IsBacked s s' a lp v lps others here small = record {
  backed = λ b other e. elim (Bool-cases (a == b)) [
    | inl same ↦ ground (arith, same, (==_iff {A = Bytes} a b).0 same, lookup-insert a b lp s.lps)
    | inr apart ↦
        ground (arith, apart, lookup-insert a b lp s.lps, others b apart, v.backed b other)
  ];
  unused = λ b e. elim (Bool-cases (a == b)) [
    | inl same ↦ absurd (ground (arith, same, lookup-insert a b lp s.lps))
    | inr apart ↦ ground (arith, apart, lookup-insert a b lp s.lps, others b apart, v.unused b)
  ];
}

-- A change of the claims that ties up no more and no less of any provider.
keep-IsBacked :
    (s s' : Service)
    → IsBacked s
    → s'.lps ≡ s.lps
    → ((b : Bytes) → locked b s'.claims ≡ locked b s.claims)
    → IsBacked s'
keep-IsBacked s s' v lps same = record {
  backed = λ b lp e. rw (same b) (v.backed b lp (ground (arith, lps, e)));
  unused = λ b e. rw (same b) (v.unused b (ground (arith, lps, e)));
}

register_lp-IsBacked :
    (s : Service) (l1 l2 : Bytes) (collateral : ℕ) (fee : Option ℕ) (now : ℕ)
    → collateral ≤ u64_max
    → IsBacked s
    → IsBacked (after s (register_lp s l1 l2 collateral fee now))
unfolding register_lp has_key
register_lp-IsBacked s l1 l2 collateral fee now small v = elim (Option-cases (lookup l1 s.lps)) [
  | inr (lp, there) ↦ rw (there, has_key) v
  | inl new ↦
      rw (new, has_key)
        (elim (Bool-cases (ltb collateral s.config.required_collateral)) [
          | inl little ↦ rw little v
          | inr enough ↦ rw enough (
              put-IsBacked s _ l1 _ v refl (λ b apart. refl) (omega (arith, v.unused l1 new)) small)
        ])
]

deactivate_lp-IsBacked :
    (s : Service) (a : Bytes) → IsBacked s → IsBacked (after s (deactivate_lp s a))
unfolding deactivate_lp
deactivate_lp-IsBacked s a v = elim (Option-cases (lookup a s.lps)) [
  | inl missing ↦ rw (missing, deactivate_lp) v
  | inr (lp, there) ↦
      rw (there, deactivate_lp)
        (put-IsBacked s _ a _ v refl (λ b apart. refl) (v.backed a lp there).0
          (v.backed a lp there).1)
]

record_claim-IsBacked :
    (s : Service) (lp : LiquidityProvider) (c : Claim)
    → lookup c.lp_address s.lps ≡ some lp
    → lookup c.claim_id s.claims ≡ none
    → c.original_amount ≤ lp.available
    → c.state ≡ pending
    → IsBacked s
    → IsBacked (record_claim s lp c)
record_claim-IsBacked s lp c there new enough fresh v =
    put-IsBacked s _ c.lp_address _ v refl
      (λ b apart. ground (arith, apart, locked-insert_new b c.claim_id c s.claims new))
      (ground (
        arith,
        fresh,
        ==_refl {A = Bytes} c.lp_address,
        locked-insert_new c.lp_address c.claim_id c s.claims new,
        v.backed c.lp_address lp there,
      ))
      (v.backed c.lp_address lp there).1

execute_fast_withdraw-IsBacked :
    (s : Service) (tx_hash user : Bytes) (amount : ℕ) (a id : Bytes) (now : ℕ)
    → lookup id s.claims ≡ none
    → IsBacked s
    → IsBacked (after_claim s (execute_fast_withdraw s tx_hash user amount a id now))
unfolding execute_fast_withdraw can_fulfill
execute_fast_withdraw-IsBacked s tx_hash user amount a id now new v =
    elim (Bool-cases (ltb s.config.max_amount amount)) [
      | inl large ↦ rw large v
      | inr fits ↦ rw fits (elim (Option-cases (lookup a s.lps)) [
        | inl missing ↦ rw (missing, execute_fast_withdraw) v
        | inr (lp, there) ↦
            rw (there, execute_fast_withdraw)
              (elim (Bool-cases (can_fulfill lp amount)) [
                | inr unable ↦ rw (unable, can_fulfill) v
                | inl able ↦
                    rw (able, can_fulfill)
                      (record_claim-IsBacked s lp (new_claim s lp tx_hash user amount a id now)
                        there new (ground (arith, able)) refl v)
              ])
      ])
    ]

-- The books after a claim on a registered provider is paid.
paid-IsBacked :
    (s : Service) (id : Bytes) (c : Claim)
    → lookup id s.claims ≡ some c
    → c.state ≡ pending
    → IsBacked s
    → IsBacked (record s {
      lps = restore_lp c s.lps;
      claims = insert id (record c { state = claimed }) s.claims;
    })
paid-IsBacked s id c there fresh v = elim (Option-cases (lookup c.lp_address s.lps)) [
  | inl missing ↦ keep-IsBacked s _ v (ground (arith, missing)) (λ b.
      ground (arith, freed b, v.unused c.lp_address missing, ==_iff {A = Bytes} c.lp_address b))
  | inr (lp, found) ↦
      let books = v.backed c.lp_address lp found in
      put-IsBacked s _ c.lp_address
        (record lp { available = saturating_add lp.available c.original_amount }) v
        (ground (arith, found)) (λ b apart. ground (arith, freed b, apart))
        (ground (arith, fresh, freed c.lp_address, books, ==_refl {A = Bytes} c.lp_address)) books.1
]
  where
    freed :
        (b : Bytes)
        → locked b (insert id (record c { state = claimed }) s.claims) + weight b c
          ≡ locked b s.claims + weight b (record c { state = claimed })
    freed b = locked-insert_old b id (record c { state = claimed }) c s.claims there

claim-IsBacked :
    (s : Service) (id : Bytes) (now : ℕ) → IsBacked s → IsBacked (after_claim s (claim s id now))
unfolding claim
claim-IsBacked s id now v = elim (Option-cases (lookup id s.claims)) [
  | inl missing ↦ rw (missing, claim) v
  | inr (c, there) ↦
      rw (there, claim)
        (elim (Bool-cases (is_pending c.state)) [
          | inr done ↦ rw done v
          | inl fresh ↦ rw fresh (elim (Bool-cases (ltb now c.claimable_at)) [
            | inl early ↦ rw early v
            | inr due ↦ rw due (paid-IsBacked s id c there (ground (arith, fresh)) v)
          ])
        ])
]

invalidate_claim-IsBacked :
    (s : Service) (id : Bytes) → IsBacked s → IsBacked (after s (invalidate_claim s id))
unfolding invalidate_claim
invalidate_claim-IsBacked s id v = elim (Option-cases (lookup id s.claims)) [
  | inl missing ↦ rw (missing, invalidate_claim) v
  | inr (c, there) ↦
      rw (there, invalidate_claim)
        (elim (Bool-cases (is_pending c.state)) [
          | inr done ↦ rw done v
          | inl fresh ↦ rw fresh (
              keep-IsBacked s _ v refl (λ b. ground (
                arith,
                fresh,
                locked-insert_old b id (record c { state = invalidated }) c s.claims there,
              )))
        ])
]

-- Every call keeps the books of every provider, where a new collateral fits 64 bits and a new
-- claim has an unused identifier: what the provider has available and what its unpaid claims tie
-- up are together its collateral.
pub step-IsBacked :
    (s : Service) (now : ℕ) (call : Call) → Allowed s call → IsBacked s → IsBacked (step s now call)
unfolding step
step-IsBacked s now (registers l1 l2 collateral fee) h v =
    register_lp-IsBacked s l1 l2 collateral fee now h v
step-IsBacked s now (deactivates a) h v = deactivate_lp-IsBacked s a v
step-IsBacked s now (withdraws tx_hash user amount a id) h v =
    execute_fast_withdraw-IsBacked s tx_hash user amount a id now h v
step-IsBacked s now (claims_back id) h v = claim-IsBacked s id now v
step-IsBacked s now (invalidates id) h v = invalidate_claim-IsBacked s id v
step-IsBacked s now updates h v =
    unfold update_claimable_states in
    keep-IsBacked s _ v refl (λ b. locked-update_all b now s.claims)
