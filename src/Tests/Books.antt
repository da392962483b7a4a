-- ===== src/Tests/Books.antt =====
-- The properties of the money calls together at the small bank.
use hypitoken.Prelude.{refl, ◌+ℤ◌, arith}
use hypitoken.Store.Sql.{all_up}
use hypitoken.Store.Ledger.{IsBalanced, sum_where}
use hypitoken.Books.{MoneyCall, start, after, step, Extends, reached-IsBalanced, reached-Extends}
use hypitoken.Tests.{gift, bank}

bank-IsBalanced : IsBalanced bank
unfolding sum_where ◌+ℤ◌
bank-IsBalanced = record {
  sums = (refl, (refl, tt));
  issued = (omega arith, (omega arith, tt));
  known = (omega arith, tt);
}

reached-IsBalanced_example :
    IsBalanced
      (step (MoneyCall.claim "G1" 2 "") (all_up 9) (step (MoneyCall.send gift "") (all_up 8) bank))
reached-IsBalanced_example =
    reached-IsBalanced
      (after (MoneyCall.claim "G1" 2 "") (all_up 9)
        (after (MoneyCall.send gift "") (all_up 8) start))
      bank-IsBalanced

reached-Extends_example :
    Extends bank
      (step (MoneyCall.claim "G1" 2 "") (all_up 9) (step (MoneyCall.send gift "") (all_up 8) bank))
reached-Extends_example =
    reached-Extends (
      after (MoneyCall.claim "G1" 2 "") (all_up 9)
        (after (MoneyCall.send gift "") (all_up 8) start))
