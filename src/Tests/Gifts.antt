-- ===== src/Tests/Gifts.antt =====
-- The properties of gift cards at the small bank.
use hypitoken.Prelude.{
  ◌≡◌, refl, some, pos, ◌+ℤ◌, ◌-ℤ◌, neg_ℤ, arith, count_where, first_where, exists_where,
}
use hypitoken.Store.Sql.{all_up, ok, run, ◌>>=◌}
use hypitoken.Store.Ledger.{select_balance, set_balance, insert_tx}
use hypitoken.Wallet.{select_home, personal_workspace_id, add_workspace_balance_tx}
use hypitoken.Gifts.{gift_send_tx, gift_claim_tx, gift_refund_tx}
use hypitoken.Gifts.Settle.{
  SendEnds, gift_send_tx-ends, ClaimEnds, gift_claim_tx-ends, RefundEnds, gift_refund_tx-ends,
}
use hypitoken.Gifts.Escrow.{UniqueCodes, money, calls, gifts_conserve_money}
use hypitoken.Wallet.Reports.{headroom}
use hypitoken.Gifts.Headroom.{send_lowers_headroom, claim_raises_headroom}
use hypitoken.Wallet.{add_balance_tx}
use hypitoken.Gifts.{insert_gift, update_gifts}
use hypitoken.Gifts.Complete.{claim_completes, refund_completes}
use hypitoken.Gifts.{is_gift, claimed_by, refunded_gift}
use hypitoken.Tests.{
  gift, bank, wallet_found, with_gift, history, claimed_gift, bob_home, bob_balance, alice_home,
}

gift_send_example : SendEnds gift "" (all_up 5) bank (run (gift_send_tx gift "") (all_up 5) bank)
gift_send_example = gift_send_tx-ends gift "" (all_up 5) bank

gift_claim_example :
    ClaimEnds "G1" 2 "" (all_up 5) with_gift (run (gift_claim_tx "G1" 2 "") (all_up 5) with_gift)
gift_claim_example = gift_claim_tx-ends "G1" 2 "" (all_up 5) with_gift

gift_refund_example :
    RefundEnds "G1" "" (all_up 5) with_gift (run (gift_refund_tx "G1" "") (all_up 5) with_gift)
gift_refund_example = gift_refund_tx-ends "G1" "" (all_up 5) with_gift

no_codes : UniqueCodes bank
unfolding count_where
no_codes code = omega arith

gifts_conserve_money_example :
    (money (calls history bank) ≡ money bank) × UniqueCodes (calls history bank)
gifts_conserve_money_example = gifts_conserve_money history bank no_codes

sends :
    run (gift_send_tx gift "") (all_up 5) bank
    ≡ (ok (pos 460), (run (gift_send_tx gift "") (all_up 5) bank).1)
unfolding run gift_send_tx ◌>>=◌ add_balance_tx personal_workspace_id select_home first_where
    add_workspace_balance_tx select_balance ◌+ℤ◌ ◌-ℤ◌ insert_tx exists_where set_balance insert_gift
sends = refl

send_lowers_headroom_example :
    headroom 1 (run (gift_send_tx gift "") (all_up 5) bank).1 ≡ headroom 1 bank +ℤ neg_ℤ (pos 40)
send_lowers_headroom_example = send_lowers_headroom gift "" (all_up 5) bank _ (pos 460) sends

claims :
    run (gift_claim_tx "G1" 2 "") (all_up 5) with_gift
    ≡ (ok (claimed_gift, pos 40), (run (gift_claim_tx "G1" 2 "") (all_up 5) with_gift).1)
unfolding run gift_claim_tx ◌>>=◌ first_where update_gifts count_where add_balance_tx
    personal_workspace_id select_home add_workspace_balance_tx select_balance ◌+ℤ◌ insert_tx
    exists_where set_balance
claims = refl

claim_raises_headroom_example :
    headroom 2 (run (gift_claim_tx "G1" 2 "") (all_up 5) with_gift).1
    ≡ headroom 2 with_gift +ℤ pos 40
claim_raises_headroom_example =
    claim_raises_headroom "G1" 2 "" (all_up 5) with_gift _ claimed_gift (pos 40) claims

gift_stored : first_where (is_gift "G1") with_gift.gift_cards.rows ≡ some gift
unfolding first_where
gift_stored = refl

claim_completes_example :
    (run (gift_claim_tx "G1" 2 "") (all_up 5) with_gift).0
    ≡ ok (claimed_by 2 5 gift, pos 0 +ℤ pos 40)
unfolding select_home select_balance
claim_completes_example =
    claim_completes "G1" "" 5 with_gift gift 2 2 (pos 0) gift_stored refl bob_home (omega arith)
      bob_balance

refund_completes_example :
    (run (gift_refund_tx "G1" "") (all_up 5) with_gift).0 ≡ ok (refunded_gift gift)
unfolding select_home select_balance
refund_completes_example =
    refund_completes "G1" "" 5 with_gift gift 1 1 (pos 500) gift_stored refl alice_home
      (omega arith) wallet_found
