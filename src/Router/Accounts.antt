-- ===== src/Router/Accounts.antt =====
-- The account that a state shows, after each way to write one.
use zelana.Base.{◌≡◌, refl, ◌==◌, bytes_eq, if◌then◌else◌, arith}
use zelana.Base.Dict.{lookup-insert}
use zelana.Account.{AccountId, AccountState}
use zelana.Shielded.{ShieldedState}
use zelana.Router.Types.{State, BatchDiff}
use zelana.Router.{account_of, put_account, put_shielded}

pub account_of-put_account :
    (s : State) (id j : AccountId) (a : AccountState)
    → account_of (put_account s id a) j ≡ (if id == j then a else account_of s j)
unfolding account_of put_account
account_of-put_account s id j a = ground (arith, lookup-insert id j a s.router.account_cache)

-- The diff and the shielded state have no part in it.
pub account_of-diff :
    (s : State) (d : BatchDiff) (id : AccountId)
    → account_of (record s { diff = d }) id ≡ account_of s id
unfolding account_of
account_of-diff s d id = refl

pub account_of-put_shielded :
    (s : State) (p : ShieldedState) (id : AccountId)
    → account_of (put_shielded s p) id ≡ account_of s id
unfolding account_of
account_of-put_shielded s p id = refl
