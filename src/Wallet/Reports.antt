-- ===== src/Wallet/Reports.antt =====
-- internal/saas/db/wallet.go: the pages of the ledger, the fleet's totals, and how much of a wallet
-- may be given away.
use hypitoken.Prelude.{
  ℕ, ◌==◌, Bool, true, false, Option, none, some, List, [], ◌∷◌, String, ◌&&◌, ◌||◌, ℤ, neg_ℤ, ltb,
  like_prefix, if◌then◌else◌, first_where, rows_where, count_where, sort_by, take, drop,
}
use hypitoken.Store.Schema.{Db, User, WalletTx, TxKind, topup, charge, adjust, kind_rank}
use hypitoken.Store.Sql.{Sql, query, pure, ◌>>=◌}
use hypitoken.Store.Ledger.{sum_where}
use hypitoken.Wallet.{select_home}

abbrev is_kind : TxKind → WalletTx → Bool
is_kind k t = kind_rank t.kind == kind_rank k

abbrev is_at : Option ℕ → ℕ → Bool
is_at none ws = false
is_at (some home) ws = ws == home

-- the rows that GiftableHeadroom adds up
abbrev pub is_headroom : ℕ → Option ℕ → WalletTx → Bool
is_headroom user home t =
    (t.user_id == user || is_at home t.workspace_id)
    && (is_kind topup t
        || like_prefix "gift_claim:" t.ref
        || like_prefix "gift_send:" t.ref
        || like_prefix "gift_refund:" t.ref)

unfoldable pub headroom : ℕ → Db → ℤ
headroom user d = sum_where (is_headroom user (select_home user d)) d.wallet_tx.rows

-- GiftableHeadroom
unfoldable pub giftable_headroom : ℕ → Sql ℤ
giftable_headroom user = query (headroom user)

abbrev is_one_of : List TxKind → WalletTx → Bool
is_one_of [] t = false
is_one_of (k ∷ ks) t = is_kind k t || is_one_of ks t

-- no kinds ask for all of them
abbrev of_kinds : List TxKind → WalletTx → Bool
of_kinds [] t = true
of_kinds (k ∷ ks) t = is_one_of (k ∷ ks) t

abbrev page : {A : Type 0} → ℕ → ℕ → List A → List A
page limit offset xs = take (if limit == 0 then 50 else limit) (drop offset xs)

abbrev by_id_desc : WalletTx → WalletTx → Bool
by_id_desc a b = ltb a.id b.id

-- ListWalletTx. A limit or an offset below zero has become 0.
unfoldable pub list_wallet_tx : ℕ → List TxKind → ℕ → ℕ → Sql (List WalletTx × ℕ)
list_wallet_tx user kinds limit offset = do
  total ← query (λ d. count_where (λ t. t.user_id == user && of_kinds kinds t) d.wallet_tx.rows)
  rows ← query (λ d. rows_where (λ t. t.user_id == user && of_kinds kinds t) d.wallet_tx.rows)
  pure (page limit offset (sort_by by_id_desc rows), total)

-- an adjustment with the address of its user, which is empty when there is no such user
pub record FleetAdjustment : Type 0 where
  pub id : ℕ
  pub user_id : ℕ
  pub email : String
  pub amount_usd : ℤ
  pub ref : String
  pub note : String
  pub created_at : ℕ

abbrev email_or_empty : Option User → String
email_or_empty none = ""
email_or_empty (some u) = u.email

unfoldable pub with_emails : Db → List WalletTx → List FleetAdjustment
with_emails d [] = []
with_emails d (t ∷ ts) =
    record {
      id = t.id;
      user_id = t.user_id;
      email = email_or_empty (first_where (λ (u : User). u.id == t.user_id) d.users.rows);
      amount_usd = t.amount_usd;
      ref = t.ref;
      note = t.note;
      created_at = t.created_at;
    }
    ∷ with_emails d ts

-- ListFleetAdjustments
unfoldable pub list_fleet_adjustments : ℕ → ℕ → Sql (List FleetAdjustment × ℕ)
list_fleet_adjustments limit offset = do
  total ← query (λ d. count_where (is_kind adjust) d.wallet_tx.rows)
  rows ← query (λ d.
      with_emails d
        (page limit offset (sort_by by_id_desc (rows_where (is_kind adjust) d.wallet_tx.rows))))
  pure (rows, total)

pub record FleetWalletTotals : Type 0 where
  pub user_paid_usd : ℤ
  pub charge_count : ℕ
  pub topups_usd : ℤ

abbrev charged_in_all : Db → ℤ × ℕ
charged_in_all d = (
  neg_ℤ (sum_where (is_kind charge) d.wallet_tx.rows),
  count_where (is_kind charge) d.wallet_tx.rows,
)

-- FleetTotals
unfoldable pub fleet_totals : Sql FleetWalletTotals
fleet_totals = do
  paid ← query charged_in_all
  topups ← query (λ d. sum_where (is_kind topup) d.wallet_tx.rows)
  pure (record { user_paid_usd = paid.0; charge_count = paid.1; topups_usd = topups })
