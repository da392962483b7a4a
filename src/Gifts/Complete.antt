-- ===== src/Gifts/Complete.antt =====
-- A claim and a refund complete when the database does.
use hypitoken.Prelude.{
  ℕ, ◌≤◌, ◌≡◌, refl, true, false, some, List, [], ◌∷◌, String, concat, ℤ, pos, ◌+ℤ◌, arith, ltb_ℤ,
  first_where, count_where, ◌==◌,
}
use hypitoken.Store.Schema.{Db, GiftCard, GiftStatus, adjust, refund}
use hypitoken.Store.Sql.{all_up, ok, run, ◌>>=◌}
use hypitoken.Store.Ledger.{select_balance, set_balance}
use hypitoken.Wallet.{select_home, personal_workspace_id, add_workspace_balance_tx, add_balance_tx}
use hypitoken.Wallet.Rules.{plain_row}
use hypitoken.Wallet.Complete.{insert_plain, home_known, unguarded}
use hypitoken.Gifts.{
  is_gift, has_status, is_open, claimed_by, refunded_gift, gift_claim_tx, gift_refund_tx,
  update_gifts,
}
use hypitoken.Gifts.Settle.{closed}

open_counted :
    (code : String) (gs : List GiftCard) (g : GiftCard)
    → first_where (is_gift code) gs ≡ some g
    → has_status GiftStatus.pending g ≡ true
    → (count_where (is_open code) gs == 0) ≡ false
unfolding first_where count_where
open_counted code [] g found is_pending = cc
open_counted code (h ∷ gs) g found is_pending = ground (arith, open_counted code gs g)

module _ (code note : String) (now : ℕ) (d : Db) (g : GiftCard) (user home : ℕ) (bal : ℤ) where
  -- When every statement runs, the claim of a pending gift by a user whose home workspace exists
  -- returns the gift as claimed and the balance with its amount.
  pub claim_completes :
      first_where (is_gift code) d.gift_cards.rows ≡ some g
      → has_status GiftStatus.pending g ≡ true
      → select_home user d ≡ some home
      → 1 ≤ home
      → select_balance home d ≡ some bal
      → (run (gift_claim_tx code user note) (all_up now) d).0
        ≡ ok (claimed_by user now g, bal +ℤ g.amount_usd)
  unfolding gift_claim_tx update_gifts add_balance_tx personal_workspace_id add_workspace_balance_tx
      run ◌>>=◌ set_balance select_home select_balance
  claim_completes stored is_pending has_home real found =
      let not_zero : (home == 0) ≡ false = ground arith in
      let row = plain_row home user adjust g.amount_usd (concat "gift_claim:" code) note now in
      let inserted =
        insert_plain row
          (set_balance home (bal +ℤ g.amount_usd) now (closed code (claimed_by user now) d))
          (home_known user home d has_home) refl in
      rw
        (
          stored,
          is_pending,
          open_counted code d.gift_cards.rows g stored is_pending,
          has_home,
          not_zero,
          not_zero,
          found,
          unguarded (ltb_ℤ (bal +ℤ g.amount_usd) (pos 0)),
          inserted,
        )
        refl

  -- When every statement runs, the refund of a pending gift, whose sender's home workspace exists,
  -- returns the gift as refunded.
  pub refund_completes :
      first_where (is_gift code) d.gift_cards.rows ≡ some g
      → has_status GiftStatus.pending g ≡ true
      → select_home g.sender_user_id d ≡ some home
      → 1 ≤ home
      → select_balance home d ≡ some bal
      → (run (gift_refund_tx code note) (all_up now) d).0 ≡ ok (refunded_gift g)
  unfolding gift_refund_tx update_gifts add_balance_tx personal_workspace_id
      add_workspace_balance_tx run ◌>>=◌ set_balance select_home select_balance
  refund_completes stored is_pending has_home real found =
      let not_zero : (home == 0) ≡ false = ground arith in
      let row =
        plain_row home g.sender_user_id refund g.amount_usd (concat "gift_refund:" code) note now in
      let inserted =
        insert_plain row (set_balance home (bal +ℤ g.amount_usd) now (closed code refunded_gift d))
          (home_known g.sender_user_id home d has_home) refl in
      rw
        (
          stored,
          is_pending,
          open_counted code d.gift_cards.rows g stored is_pending,
          has_home,
          not_zero,
          not_zero,
          found,
          unguarded (ltb_ℤ (bal +ℤ g.amount_usd) (pos 0)),
          inserted,
        )
        refl
