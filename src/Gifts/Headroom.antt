-- ===== src/Gifts/Headroom.antt =====
-- How gifts move the giftable headroom of a user.
use hypitoken.Prelude.{
  ℕ, ◌+◌, ◌≡◌, refl, true, Option, String, concat, ℤ, ◌+ℤ◌, neg_ℤ, arith, subst, like_prefix-concat,
}
use hypitoken.Store.Schema.{Db, GiftCard, WalletTx}
use hypitoken.Store.Sql.{Env, ok, run}
use hypitoken.Store.Ledger.{LedgerRow, to_tx, set_balance}
use hypitoken.Wallet.{select_home}
use hypitoken.Wallet.Post.{Posts, sum_where-append}
use hypitoken.Wallet.Reports.{headroom, is_headroom}
use hypitoken.Gifts.{gift_send_tx, gift_claim_tx}
use hypitoken.Gifts.Settle.{SendEnds, gift_send_tx-ends, ClaimEnds, gift_claim_tx-ends}

-- a movement of a user that headroom counts changes it by its amount
Posts-headroom :
    {row : LedgerRow} {bal : ℤ} {d d' : Db}
    → Posts row bal d d'
    → ((home : Option ℕ) (t : WalletTx) → t.ref ≡ row.ref → is_headroom t.user_id home t ≡ true)
    → headroom row.user_id d' ≡ headroom row.user_id d +ℤ row.amount_usd
unfolding headroom set_balance select_home
Posts-headroom {row} {bal} {d} p counts = rw p.after (
    rw
      (sum_where-append (is_headroom row.user_id (select_home row.user_id d)) d.wallet_tx.rows
        (to_tx (d.wallet_tx.seq + 1) row))
      (rw (counts (select_home row.user_id d) (to_tx (d.wallet_tx.seq + 1) row) refl) refl))

sent_counts :
    (home : Option ℕ) (t : WalletTx) (code : String)
    → t.ref ≡ concat "gift_send:" code
    → is_headroom t.user_id home t ≡ true
sent_counts home t code h = rw h (ground (arith, like_prefix-concat "gift_send:" code))

claimed_counts :
    (home : Option ℕ) (t : WalletTx) (code : String)
    → t.ref ≡ concat "gift_claim:" code
    → is_headroom t.user_id home t ≡ true
claimed_counts home t code h = rw h (ground (arith, like_prefix-concat "gift_claim:" code))

-- A gift that is sent lowers the headroom of its sender by its amount.
pub send_lowers_headroom :
    (g : GiftCard) (note : String) (env : Env) (d d' : Db) (new : ℤ)
    → run (gift_send_tx g note) env d ≡ (ok new, d')
    → headroom g.sender_user_id d' ≡ headroom g.sender_user_id d +ℤ neg_ℤ g.amount_usd
unfolding headroom select_home
send_lowers_headroom g note env d d' new e =
    let (_, _, mid, _, _, _, posts, _, after) =
      subst (SendEnds g note env d) e (gift_send_tx-ends g note env d) in
    rw after (Posts-headroom posts (λ home t h. sent_counts home t g.code h))

-- A gift that is claimed raises the headroom of its recipient by the amount of the gift.
pub claim_raises_headroom :
    (code : String) (user : ℕ) (note : String) (env : Env) (d d' : Db) (g : GiftCard) (new : ℤ)
    → run (gift_claim_tx code user note) env d ≡ (ok (g, new), d')
    → headroom user d' ≡ headroom user d +ℤ g.amount_usd
unfolding headroom select_home
claim_raises_headroom code user note env d d' g new e =
    let (h, same, c) =
      subst (ClaimEnds code user note env d) e (gift_claim_tx-ends code user note env d) in
    rw same (Posts-headroom c.posts (λ home t h. claimed_counts home t code h))
