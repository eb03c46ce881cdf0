-- ===== src/FastWithdraw/Tests.antt =====
-- The theorems on fast withdrawals at concrete inputs.
use zelana.Base.{◌≤◌, ◌≡◌, refl, true, none, some, [], ◌∷◌, bytes_eq, bytes_beq, arith}
use zelana.Base.Dict.{lookup}
use zelana.FastWithdraw.{
  Claim, LiquidityProvider, Quote, Service, pending, invalidated, default_config, calculate_fee,
  can_fulfill, fee_rate, get_quote, best_lp,
}
use zelana.FastWithdraw.Fees.{calculate_fee_bounds}
use zelana.FastWithdraw.Claims.{claim_iff}
use zelana.FastWithdraw.Liquidity.{IsBacked, step, registers, step-IsBacked, locked}

abbrev provider : LiquidityProvider
provider = record {
  l1_address = 1 ∷ [];
  l2_address = 2 ∷ [];
  collateral = 5000000;
  available = 4000000;
  custom_fee_bps = some 30;
  active = true;
  registered_at = 0;
}

abbrev fronted : Claim
fronted = record {
  claim_id = 9 ∷ [];
  withdrawal_tx_hash = 8 ∷ [];
  lp_address = 1 ∷ [];
  user_l1_address = 7 ∷ [];
  amount_fronted = 990000;
  fee = 10000;
  original_amount = 1000000;
  claimable_at = 100;
  state = pending;
}

abbrev service : Service
service = record {
  config = default_config;
  lps = (1 ∷ [], provider) ∷ [];
  claims = (9 ∷ [], fronted) ∷ [];
  challenge_period = 100;
}

abbrev no_providers : Service
no_providers = record { config = default_config; lps = []; claims = []; challenge_period = 100 }

abbrev offer : Quote
offer = record {
  amount = 4000000;
  fee = 12000;
  amount_received = 3988000;
  fee_bps = 30;
  lp_address = 1 ∷ [];
  expires_in_secs = 60;
}

offered : get_quote service 4000000 ≡ some offer
unfolding get_quote best_lp can_fulfill fee_rate calculate_fee
offered = refl

found : lookup (9 ∷ []) service.claims ≡ some fronted
unfolding lookup bytes_beq
found = refl

calculate_fee_bounds_example :
    (10000 ≤ calculate_fee service 4000000 30) × (calculate_fee service 4000000 30 ≤ 4000000)
calculate_fee_bounds_example = calculate_fee_bounds service 4000000 30 (omega arith) (omega arith)

abbrev paid : Claim × Service
paid = ((claim_iff service (9 ∷ []) 100 fronted found).1 (refl, omega arith)).0

abbrev void : Service
void = record service { claims = (9 ∷ [], record fronted { state = invalidated }) ∷ [] }

no_providers-IsBacked : IsBacked no_providers
unfolding locked lookup
no_providers-IsBacked = record { backed = λ a lp e. cc; unused = λ a e. refl }

step-IsBacked_example : IsBacked (step no_providers 7 (registers (1 ∷ []) (2 ∷ []) 3000000000 none))
step-IsBacked_example =
    step-IsBacked no_providers 7 (registers (1 ∷ []) (2 ∷ []) 3000000000 none) (omega arith)
      no_providers-IsBacked
