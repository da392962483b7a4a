-- ===== src/Shop/Schema.antt =====
-- internal/shop/db.go: the tables of the shop's own database as its migrations leave them. Amounts
-- are integers of the smallest unit of money; times are Unix seconds, with 0 for none.
use hypitoken.Prelude.{
  ℕ, Bool, List, [], ◌∷◌, String, ℤ, str_eq, trim_space, exists_where, if◌then◌else◌,
}
use hypitoken.Store.Schema.{Table}
use hypitoken.Store.Engine.{SqlOn}

-- the Order constants
pub data ShopStatus : Type 0 where
  pending paid expired await_manual : ShopStatus

abbrev pub status_rank : ShopStatus → ℕ
status_rank pending = 0
status_rank paid = 1
status_rank expired = 2
status_rank await_manual = 3

pub record Product : Type 0 where
  pub id : ℕ
  pub name : String
  pub description : String
  pub price_cny : ℤ
  pub currency : String
  pub delivery_type : String
  pub delivery_template : String
  pub stock_available : ℕ
  pub active : Bool
  pub sort_order : ℤ
  pub created_at : ℕ
  pub updated_at : ℕ

pub record CardSecret : Type 0 where
  pub id : ℕ
  pub product_id : ℕ
  pub content : String
  pub consumed : Bool
  pub consumed_by_order : String
  pub consumed_at : ℕ
  pub created_at : ℕ

pub record ShopOrder : Type 0 where
  pub out_trade_no : String
  pub product_id : ℕ
  pub product_name : String
  pub email : String
  pub query_pass_hash : String
  pub amount_cny : ℤ
  pub currency : String
  pub status : ShopStatus
  pub pay_method : String
  pub trade_no : String
  pub pay_url : String
  pub qr_code : String
  pub pay_session_id : String
  pub fulfillment : String
  pub created_at : ℕ
  pub paid_at : ℕ
  pub email_sent : Bool
  pub remote_ip : String

pub record Shop : Type 0 where
  pub shop_products : Table Product
  pub shop_card_secrets : Table CardSecret
  pub shop_orders : List ShopOrder

abbrev pub ShopSql : Type 0 → Type 0
ShopSql A = SqlOn Shop A

abbrev pub set_products : List Product → Shop → Shop
set_products rows d = record d { shop_products = record (d.shop_products) { rows = rows } }

abbrev pub set_cards : List CardSecret → Shop → Shop
set_cards rows d = record d { shop_card_secrets = record (d.shop_card_secrets) { rows = rows } }

abbrev pub set_orders : List ShopOrder → Shop → Shop
set_orders rows d = record d { shop_orders = rows }

-- What strings.EqualFold takes for usd: it folds U+017F, the long s, to s.
abbrev usd_spellings : List String
usd_spellings =
    "usd" ∷ "Usd" ∷ "uSd" ∷ "USd" ∷ "usD" ∷ "UsD" ∷ "uSD" ∷ "USD" ∷ "uſd" ∷ "Uſd" ∷ "uſD" ∷ "UſD"
    ∷ []

-- NormalizeCurrency
unfoldable pub normalize_currency : String → String
normalize_currency c = if exists_where (str_eq (trim_space c)) usd_spellings then "usd" else "cny"
