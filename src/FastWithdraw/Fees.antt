-- ===== src/FastWithdraw/Fees.antt =====
-- The fee, the quote, and the withdrawal that follows a quote.
use zelana.Base.{
  ℕ, ◌*◌, ◌/◌, ◌≤◌, ◌≡◌, true, false, none, some, [], ◌∷◌, Bytes, bytes_eq, arith, Option-cases,
  inl, inr, ==_iff,
}
use zelana.Base.Dict.{Dict, lookup, has_key}
use zelana.FastWithdraw.{
  LiquidityProvider, Claim, Quote, Service, ok, can_fulfill, fee_rate, calculate_fee, best_lp,
  get_quote, execute_fast_withdraw, new_claim, record_claim,
}

share : (amount bps : ℕ) → bps ≤ 10000 → amount * bps / 10000 ≤ amount
share amount bps h = grind arith

-- At a rate of at most 100% and an amount of at least the minimum fee, the fee is at least the
-- minimum and at most the amount.
pub calculate_fee_bounds :
    (s : Service) (amount bps : ℕ)
    → bps ≤ 10000
    → s.config.min_fee ≤ amount
    → (s.config.min_fee ≤ calculate_fee s amount bps) × (calculate_fee s amount bps ≤ amount)
unfolding calculate_fee
calculate_fee_bounds s amount bps h m = ground (arith, share amount bps h)

-- Each provider is stored under its address.
abbrev pub Keyed : Dict Bytes LiquidityProvider → Type 0
Keyed [] = Unit
Keyed ((address, lp) ∷ lps) = (lp.l1_address ≡ address) × (has_key address lps ≡ false) × Keyed lps

module _ (s : Service) (amount : ℕ) where
  best_lp_found :
      (lps : Dict Bytes LiquidityProvider) (lp : LiquidityProvider)
      → Keyed lps
      → best_lp s amount lps ≡ some lp
      → (lookup lp.l1_address lps ≡ some lp) × (can_fulfill lp amount ≡ true)
  unfolding best_lp lookup has_key
  best_lp_found [] lp k e = cc
  best_lp_found ((address, first) ∷ lps) lp k e = elim (Option-cases (best_lp s amount lps)) [
    | inl nobody ↦ ground (arith, nobody, k, ==_iff {A = Bytes} address lp.l1_address)
    | inr (rest, found) ↦ ground (
      arith,
      found,
      k,
      best_lp_found lps rest k.2 found,
      ==_iff {A = Bytes} address lp.l1_address,
      ==_iff {A = Bytes} address rest.l1_address,
    )
  ]

  best_lp-none :
      (lps : Dict Bytes LiquidityProvider) (other : LiquidityProvider) (address : Bytes)
      → best_lp s amount lps ≡ none
      → lookup address lps ≡ some other
      → can_fulfill other amount ≡ false
  unfolding best_lp lookup
  best_lp-none [] other address e l = cc
  best_lp-none ((j, first) ∷ lps) other address e l = elim (Option-cases (best_lp s amount lps)) [
    | inl nobody ↦ ground (arith, nobody, best_lp-none lps other address)
    | inr (rest, found) ↦ absurd (ground (arith, found))
  ]

  -- No provider that can pay the amount asks a lower rate than the one that is chosen.
  best_lp_least :
      (lps : Dict Bytes LiquidityProvider) (lp other : LiquidityProvider) (address : Bytes)
      → best_lp s amount lps ≡ some lp
      → lookup address lps ≡ some other
      → can_fulfill other amount ≡ true
      → fee_rate s lp ≤ fee_rate s other
  unfolding best_lp lookup
  best_lp_least [] lp other address e l c = cc
  best_lp_least ((j, first) ∷ lps) lp other address e l c =
      elim (Option-cases (best_lp s amount lps)) [
        | inl nobody ↦ ground (arith, nobody, best_lp-none lps other address)
        | inr (rest, found) ↦ ground (arith, found, best_lp_least lps rest other address found)
      ]

module _ (s : Service) (amount : ℕ) (q : Quote) where
  -- A quote is honoured, where each provider is stored under its address: the withdrawal with it
  -- succeeds, at its fee and its amount.
  pub get_quote-execute :
      (tx_hash user claim_id : Bytes) (now : ℕ)
      → Keyed s.lps
      → get_quote s amount ≡ some q
      → (c : Claim) × (s' : Service) × (execute_fast_withdraw s tx_hash user amount q.lp_address
            claim_id now
          ≡ ok (c, s'))
        × (c.fee ≡ q.fee)
        × (c.amount_fronted ≡ q.amount_received)
        × (c.original_amount ≡ q.amount)
  unfolding get_quote execute_fast_withdraw
  get_quote-execute tx_hash user claim_id now keyed e =
      elim (Option-cases (best_lp s amount s.lps)) [
        | inl nobody ↦ absurd (ground (arith, nobody))
        | inr (lp, found) ↦
            let c = new_claim s lp tx_hash user amount q.lp_address claim_id now in
            let known = best_lp_found s amount s.lps lp keyed found in
            (
              c,
              record_claim s lp c,
              ground (arith, found, known),
              ground (arith, found),
              ground (arith, found),
              ground (arith, found),
            )
      ]

  -- No provider that can pay the amount asks a lower rate than the quote.
  pub get_quote_least :
      (other : LiquidityProvider) (address : Bytes)
      → get_quote s amount ≡ some q
      → lookup address s.lps ≡ some other
      → can_fulfill other amount ≡ true
      → q.fee_bps ≤ fee_rate s other
  unfolding get_quote
  get_quote_least other address e l c = elim (Option-cases (best_lp s amount s.lps)) [
    | inl nobody ↦ absurd (ground (arith, nobody))
    | inr (lp, found) ↦
        ground (arith, found, best_lp_least s amount s.lps lp other address found l c)
  ]
