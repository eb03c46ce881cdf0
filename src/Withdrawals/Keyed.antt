-- ===== src/Withdrawals/Keyed.antt =====
-- Each withdrawal of the queue stands under its hash.
use zelana.Base.{◌≡◌, some, Bytes, ==_iff, bytes_eq, arith}
use zelana.Base.Dict.{Dict, lookup, insert, lookup-insert}
use zelana.Withdrawals.{TrackedWithdrawal}

abbrev pub IsKeyed : Dict Bytes TrackedWithdrawal → Type 0
IsKeyed ws = (h : Bytes) (w : TrackedWithdrawal) → lookup h ws ≡ some w → w.tx_hash ≡ h

pub insert-IsKeyed :
    (h : Bytes) (w : TrackedWithdrawal) (ws : Dict Bytes TrackedWithdrawal)
    → w.tx_hash ≡ h
    → IsKeyed ws
    → IsKeyed (insert h w ws)
insert-IsKeyed h w ws e k j v there =
    ground (arith, lookup-insert h j w ws, ==_iff {A = Bytes} h j, k j v, there, e)
