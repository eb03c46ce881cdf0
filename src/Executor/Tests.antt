-- ===== src/Executor/Tests.antt =====
-- The theorems on the older executor at concrete inputs.
use zelana.Base.{◌≡◌, refl, [], ◌∷◌}
use zelana.Samples.{crypto, alice}
use zelana.Router.{execute_transfer}
use zelana.Router.Signature.{verify_transfer_signature_iff}
use zelana.Router.Tests.{begin, router, payment, signed}
use zelana.Executor.{
  Executor, new_executor, load_account, execute_signed_tx, reset, apply_state_diff,
}
use zelana.Executor.Agreement.{SameAccounts, Agree, execute_signed_tx-execute_transfer}
use zelana.Executor.Applied.{execute_all, load_account-apply_state_diff}

abbrev executor : Executor
executor = new_executor router.db

same_start : SameAccounts executor begin
same_start = record { cache = refl; stored = refl }

execute_signed_tx-execute_transfer_example :
    let (r, e') = execute_signed_tx payment [] executor in
    let (r', s') = execute_transfer crypto payment [] begin in Agree r r' × SameAccounts e' s'
execute_signed_tx-execute_transfer_example =
    execute_signed_tx-execute_transfer crypto payment [] executor begin
      ((verify_transfer_signature_iff crypto payment).1 signed) same_start

load_account-apply_state_diff_example :
    let e = execute_all ((payment, []) ∷ (payment, 1 ∷ []) ∷ []) executor in
    let stored = reset (apply_state_diff e) in
    load_account stored.state stored.db alice ≡ load_account e.state e.db alice
load_account-apply_state_diff_example =
    load_account-apply_state_diff router.db ((payment, []) ∷ (payment, 1 ∷ []) ∷ []) alice
