-- ===== src/FastWithdraw.antt =====
-- core/src/sequencer/bridge/fast_withdrawals.rs: liquidity providers pay withdrawals in advance.
-- Times are numbers of seconds, and the time of a call is an argument; the identifier of a claim,
-- a hash over the clock, is an argument too. The product of `max_amount` with the floating-point
-- `collateral_ratio`, cut to an integer, is a field of the configuration.
pub mod Fees
pub mod Claims
pub mod Liquidity
pub mod Tests
use zelana.Base.{
  ℕ, zero, suc, ◌+◌, ◌-◌, ◌*◌, ◌/◌, ◌%◌, Bool, true, false, not, ◌&&◌, Option, none, some, List, [],
  ◌∷◌, Bytes, ◌==◌, nat_beq, ltb, leb, bytes_eq, if◌then◌else◌, u64_mod, u64_max,
}
use zelana.Base.Dict.{Dict, lookup, insert, has_key}
use zelana.Merkle.{unwrap_or}

pub record Config : Type 0 where
  pub base_fee_bps : ℕ
  pub min_fee : ℕ
  pub max_amount : ℕ
  -- `(max_amount as f64 * collateral_ratio) as u64`
  pub required_collateral : ℕ

-- `FastWithdrawConfig::default`
abbrev pub default_config : Config
default_config = record {
  base_fee_bps = 50;
  min_fee = 10000;
  max_amount = 1000000000;
  required_collateral = 2000000000;
}

pub record LiquidityProvider : Type 0 where
  pub l1_address : Bytes
  pub l2_address : Bytes
  pub collateral : ℕ
  pub available : ℕ
  pub custom_fee_bps : Option ℕ
  pub active : Bool
  pub registered_at : ℕ

pub data ClaimState : Type 0 where
  pending claimable claimed invalidated : ClaimState

pub record Claim : Type 0 where
  pub claim_id : Bytes
  pub withdrawal_tx_hash : Bytes
  pub lp_address : Bytes
  pub user_l1_address : Bytes
  pub amount_fronted : ℕ
  pub fee : ℕ
  pub original_amount : ℕ
  pub claimable_at : ℕ
  pub state : ClaimState

pub record Quote : Type 0 where
  pub amount : ℕ
  pub fee : ℕ
  pub amount_received : ℕ
  pub fee_bps : ℕ
  pub lp_address : Bytes
  pub expires_in_secs : ℕ

pub record Service : Type 0 where
  pub config : Config
  pub lps : Dict Bytes LiquidityProvider
  pub claims : Dict Bytes Claim
  pub challenge_period : ℕ

pub data Error : Type 0 where
  already_registered insufficient_collateral lp_not_found amount_too_large : Error
  cannot_fulfill claim_not_found already_processed challenge_period_open : Error

pub data Result (A : Type 0) : Type 0 where
  ok : A → Result A
  err : Error → Result A

abbrev pub is_pending : ClaimState → Bool
is_pending pending = true
is_pending _ = false

abbrev pub saturating_add : ℕ → ℕ → ℕ
saturating_add a b = if ltb u64_max (a + b) then u64_max else a + b

pub can_fulfill : LiquidityProvider → ℕ → Bool
can_fulfill lp amount = lp.active && leb amount lp.available

pub fee_rate : Service → LiquidityProvider → ℕ
fee_rate s lp = unwrap_or lp.custom_fee_bps s.config.base_fee_bps

-- The 128-bit product does not overflow; the quotient is cut to 64 bits.
pub calculate_fee : Service → ℕ → ℕ → ℕ
calculate_fee s amount fee_bps =
    let fee = amount * fee_bps / 10000 % u64_mod in
    if ltb fee s.config.min_fee then s.config.min_fee else fee

pub register_lp : Service → Bytes → Bytes → ℕ → Option ℕ → ℕ → Result Service
register_lp s l1_address l2_address collateral custom_fee_bps now =
    if has_key l1_address s.lps
    then err already_registered
    else if ltb collateral s.config.required_collateral
    then err insufficient_collateral
    else ok (record s {
      lps =
          insert l1_address
            (record {
              l1_address = l1_address;
              l2_address = l2_address;
              collateral = collateral;
              available = collateral;
              custom_fee_bps = custom_fee_bps;
              active = true;
              registered_at = now;
            })
            s.lps;
    })

pub deactivate_lp : Service → Bytes → Result Service
deactivate_lp s l1_address = elim (lookup l1_address s.lps) [
  | none ↦ err lp_not_found
  | some lp ↦ ok (record s { lps = insert l1_address (record lp { active = false }) s.lps })
]

-- `min_by_key` over the providers that can pay: the first with the lowest rate.
pub best_lp : Service → ℕ → Dict Bytes LiquidityProvider → Option LiquidityProvider
best_lp s amount [] = none
best_lp s amount ((address, lp) ∷ lps) =
    let rest = best_lp s amount lps in
    if can_fulfill lp amount
    then elim rest [
      | none ↦ some lp
      | some other ↦ if ltb (fee_rate s other) (fee_rate s lp) then some other else some lp
    ]
    else rest

pub get_quote : Service → ℕ → Option Quote
get_quote s amount =
    if ltb s.config.max_amount amount then none else elim (best_lp s amount s.lps) [
      | none ↦ none
      | some lp ↦
          let fee = calculate_fee s amount (fee_rate s lp) in
          some (record {
            amount = amount;
            fee = fee;
            amount_received = amount - fee;
            fee_bps = fee_rate s lp;
            lp_address = lp.l1_address;
            expires_in_secs = 60;
          })
    ]

-- The claim that a provider gets for a withdrawal, and the service that has recorded it.
abbrev pub new_claim : Service → LiquidityProvider → Bytes → Bytes → ℕ → Bytes → Bytes → ℕ → Claim
new_claim s lp tx_hash user amount lp_address claim_id now =
    let fee = calculate_fee s amount (fee_rate s lp) in
    record {
      claim_id = claim_id;
      withdrawal_tx_hash = tx_hash;
      lp_address = lp_address;
      user_l1_address = user;
      amount_fronted = amount - fee;
      fee = fee;
      original_amount = amount;
      claimable_at = now + s.challenge_period;
      state = pending;
    }

abbrev pub record_claim : Service → LiquidityProvider → Claim → Service
record_claim s lp c = record s {
  lps = insert c.lp_address (record lp { available = lp.available - c.original_amount }) s.lps;
  claims = insert c.claim_id c s.claims;
}

-- The withdrawal, the user, the amount, the provider, the identifier of the claim, the time.
pub execute_fast_withdraw :
    Service → Bytes → Bytes → ℕ → Bytes → Bytes → ℕ → Result (Claim × Service)
execute_fast_withdraw s tx_hash user amount lp_address claim_id now =
    if ltb s.config.max_amount amount
    then err amount_too_large
    else elim (lookup lp_address s.lps) [
      | none ↦ err lp_not_found
      | some lp ↦
          if not (can_fulfill lp amount)
          then err cannot_fulfill
          else let c = new_claim s lp tx_hash user amount lp_address claim_id now in
            ok (c, record_claim s lp c)
    ]

-- Gives back to the provider what it fronted, if it is still registered.
abbrev pub restore_lp : Claim → Dict Bytes LiquidityProvider → Dict Bytes LiquidityProvider
restore_lp c lps = elim (lookup c.lp_address lps) [
  | none ↦ lps
  | some lp ↦
      insert c.lp_address (record lp { available = saturating_add lp.available c.original_amount })
        lps
]

-- The claim is returned as claimable, and stored as claimed.
pub claim : Service → Bytes → ℕ → Result (Claim × Service)
claim s claim_id now = elim (lookup claim_id s.claims) [
  | none ↦ err claim_not_found
  | some c ↦
      if not (is_pending c.state)
      then err already_processed
      else if ltb now c.claimable_at
      then err challenge_period_open
      else ok (
        record c { state = claimable },
        record s {
          lps = restore_lp c s.lps;
          claims = insert claim_id (record c { state = claimed }) s.claims;
        },
      )
]

pub invalidate_claim : Service → Bytes → Result Service
invalidate_claim s claim_id = elim (lookup claim_id s.claims) [
  | none ↦ err claim_not_found
  | some c ↦
      if not (is_pending c.state)
      then err already_processed
      else ok (record s { claims = insert claim_id (record c { state = invalidated }) s.claims })
]

abbrev pub updated : ℕ → Claim → Claim
updated now c =
    if is_pending c.state && leb c.claimable_at now then record c { state = claimable } else c

pub update_all : ℕ → Dict Bytes Claim → Dict Bytes Claim
update_all now [] = []
update_all now ((id, c) ∷ claims) = (id, updated now c) ∷ update_all now claims

pub update_claimable_states : Service → ℕ → Service
update_claimable_states s now = record s { claims = update_all now s.claims }
