-- ===== src/BatchManager/Calls.antt =====
-- The calls that change the manager, one at a time.
use zelana.Base.{ℕ, ◌≡◌, ◌⊎◌, inl, inr, refl, Bool, List, [], ◌∷◌, Bytes}
use zelana.AccountTree.Codec.{BigBytes}
use zelana.Shielded.{Poseidon}
use zelana.Router.Types.{TransactionType}
use zelana.Router.Signature.{Crypto}
use zelana.BatchManager.{
  BatchManager, Result, Error, ok, err, submit_transaction, seal_current_batch_inner, check_timeout,
  batch_proved, batch_settled, batch_finalized, prepare_batch_for_proving,
}

pub data Call : Type 0 where
  submits : TransactionType → ℕ → Call
  seals : Bool → Call
  times_out : ℕ → Call
  prepares : Call
  proves : ℕ → Bytes → Call
  settles : ℕ → Bytes → Call
  finalizes : ℕ → Call

pub Result-cases :
    {A : Type 0} (r : Result A) → ((a : A) × (r ≡ ok a)) ⊎ ((e : Error) × (r ≡ err e))
Result-cases (ok a) = inl (a, refl)
Result-cases (err e) = inr (e, refl)

abbrev pub after : BatchManager → Result BatchManager → BatchManager
after m (ok m') = m'
after m (err e) = m

module _ (B : BigBytes) (C : Crypto) (P : Poseidon) where
  -- A call that fails leaves the manager to the next one; only `finalizes` changes it all the same.
  unfoldable pub step : BatchManager → Call → BatchManager
  step m (submits tx now) = after m (submit_transaction B C P m tx now)
  step m (seals immediate) = (seal_current_batch_inner B C P m immediate).1
  step m (times_out now) = (check_timeout B C P m now).1
  step m prepares = (prepare_batch_for_proving B C m).1
  step m (proves id proof) = after m (batch_proved m id proof)
  step m (settles id sig) = after m (batch_settled m id sig)
  step m (finalizes id) = (batch_finalized B m id).1

  unfoldable pub run : BatchManager → List Call → BatchManager
  run m [] = m
  run m (call ∷ calls) = run (step m call) calls
