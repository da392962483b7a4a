-- ===== src/Shop/Orders.antt =====
-- internal/shop/db.go: orders, from their creation to the delivery that a payment brings.
use hypitoken.Prelude.{
  ℕ, ◌==◌, Bool, true, false, not, Option, none, some, List, [], ◌∷◌, ◌++◌, map, String, ◌&&◌, ◌||◌,
  ltb, leb, str_eq, if◌then◌else◌, first_where, rows_where, update_where, count_where, exists_where,
  take, sort_by,
}
use hypitoken.Store.Engine.{
  not_found, unique_violation, order_not_pending, Result, ok, err, pure, gets, or_raise, raise_if,
  branch, query, exec, exec_, autocommit, transact, commit, ◌>>=◌, ◌>>◌,
}
use hypitoken.Shop.Schema.{
  Product, CardSecret, ShopOrder, Shop, ShopSql, ShopStatus, pending, paid, expired, await_manual,
  status_rank, set_cards, set_orders, normalize_currency,
}
use hypitoken.Shop.Products.{is_product, is_card, unstocked, change_stock}

-- WHERE out_trade_no = ?
abbrev pub is_shop_order : String → ShopOrder → Bool
is_shop_order out o = str_eq o.out_trade_no out

abbrev pub has_order_status : ShopStatus → ShopOrder → Bool
has_order_status st o = status_rank o.status == status_rank st

abbrev pub fresh_order : ℕ → ShopOrder → ShopOrder
fresh_order now o = record o {
  currency = normalize_currency o.currency;
  status = pending;
  trade_no = "";
  fulfillment = "";
  created_at = now;
  paid_at = 0;
  email_sent = false;
}

-- INSERT INTO shop_orders, whose key is out_trade_no
unfoldable pub insert_order : ShopOrder → Shop → Result (Unit {0} × Shop)
insert_order o d =
    if exists_where (is_shop_order o.out_trade_no) d.shop_orders
    then err unique_violation
    else ok (tt, set_orders (d.shop_orders ++ o ∷ []) d)

-- CreateOrder
unfoldable pub create_shop_order : ShopOrder → ShopSql (Unit {0})
create_shop_order o = do
  now ← gets (λ s. s.env.now)
  autocommit (exec (insert_order (fresh_order now o)))

-- scanOrder: a row as it is read
abbrev pub scan_order : ShopOrder → ShopOrder
scan_order o = record o { currency = normalize_currency o.currency }

-- GetOrder
unfoldable pub get_shop_order : String → ShopSql ShopOrder
get_shop_order out = do
  found ← query (λ d. first_where (is_shop_order out) d.shop_orders)
  o ← or_raise found not_found
  pure (scan_order o)

-- settleable, in handlers_public.go: pending or expired
abbrev pub settleable : ShopOrder → Bool
settleable o = has_order_status pending o || has_order_status expired o

-- lockPendingOrder
unfoldable pub lock_pending_order : String → ShopSql ShopOrder
lock_pending_order out = do
  found ← query (λ d. first_where (is_shop_order out) d.shop_orders)
  o ← or_raise found not_found
  raise_if (not (settleable o)) order_not_pending
  pure (scan_order o)

-- WHERE product_id = ? AND consumed = 0
abbrev pub is_free : ℕ → CardSecret → Bool
is_free product c = c.product_id == product && not c.consumed

abbrev pub lower_id : CardSecret → Option CardSecret → Option CardSecret
lower_id c none = some c
lower_id c (some d) = if leb c.id d.id then some c else some d

-- ORDER BY id ASC LIMIT 1
unfoldable pub lowest : List CardSecret → Option CardSecret
lowest [] = none
lowest (c ∷ cs) = lower_id c (lowest cs)

unfoldable pub free_card : ℕ → Shop → Option CardSecret
free_card product d = lowest (rows_where (is_free product) d.shop_card_secrets.rows)

abbrev pub consumed_by : String → ℕ → CardSecret → CardSecret
consumed_by out now c = record c { consumed = true; consumed_by_order = out; consumed_at = now }

-- UPDATE shop_card_secrets SET consumed = 1, … WHERE id = ?
unfoldable pub consume_card : String → ℕ → ℕ → Shop → Shop
consume_card out now id d =
    set_cards (update_where (is_card id) (consumed_by out now) d.shop_card_secrets.rows) d

-- The card that the pool has, if any, is handed over.
unfoldable pub hand_over : Option CardSecret → String → ℕ → ℕ → ShopSql (ShopStatus × String)
hand_over none out product now = pure (await_manual, "")
hand_over (some c) out product now = do
  exec_ (consume_card out now c.id)
  exec_ (change_stock product (unstocked now))
  pure (paid, c.content)

unfoldable pub pop_card : String → ℕ → ℕ → ShopSql (ShopStatus × String)
pop_card out product now = do card ← query (free_card product); hand_over card out product now

-- the switch of MarkOrderPaidAndFulfil, with no row when the product was deleted
unfoldable pub deliver : Option Product → String → ℕ → ℕ → ShopSql (ShopStatus × String)
deliver none out product now = pure (await_manual, "")
deliver (some p) out product now =
    branch (str_eq p.delivery_type "auto") (pure (paid, p.delivery_template))
      (branch (str_eq p.delivery_type "card") (pop_card out product now) (pure (await_manual, "")))

abbrev pub settled : ShopStatus → String → String → ℕ → ShopOrder → ShopOrder
settled st trade_no text now o = record o {
  status = st;
  trade_no = trade_no;
  fulfillment = text;
  paid_at = now;
}

-- UPDATE shop_orders SET status = ?, … WHERE out_trade_no = ?
unfoldable pub settle_order : String → (ShopOrder → ShopOrder) → Shop → Shop
settle_order out f d = set_orders (update_where (is_shop_order out) f d.shop_orders) d

-- the end of MarkOrderPaidAndFulfil, which stores what was given
unfoldable pub store_settled :
    String → String → ShopOrder → ℕ → ShopStatus × String → ShopSql ShopOrder
store_settled out trade_no o now given = do
  exec_ (settle_order out (settled given.0 trade_no given.1 now))
  commit
  pure (settled given.0 trade_no given.1 now o)

-- MarkOrderPaidAndFulfil
unfoldable pub mark_order_paid_and_fulfil : String → String → ShopSql ShopOrder
mark_order_paid_and_fulfil out trade_no = transact do
  o ← lock_pending_order out
  product ← query (λ d. first_where (is_product o.product_id) d.shop_products.rows)
  now ← gets (λ s. s.env.now)
  given ← deliver product out o.product_id now
  store_settled out trade_no o now given

-- MarkEmailSent
unfoldable pub mark_email_sent : String → ShopSql (Unit {0})
mark_email_sent out =
    autocommit (exec_ (settle_order out (λ (o : ShopOrder). record o { email_sent = true })))

-- WHERE out_trade_no = ? AND status IN ('await_manual', 'paid')
abbrev pub is_fulfillable : String → ShopOrder → Bool
is_fulfillable out o =
    is_shop_order out o && (has_order_status await_manual o || has_order_status paid o)

unfoldable pub update_shop_orders : (ShopOrder → Bool) → (ShopOrder → ShopOrder) → Shop → ℕ × Shop
update_shop_orders p f d =
    (count_where p d.shop_orders, set_orders (update_where p f d.shop_orders) d)

-- SetFulfillment
unfoldable pub set_fulfillment : String → String → ShopSql (Unit {0})
set_fulfillment out text = do
  n ← autocommit (
      exec (λ d. ok (
        update_shop_orders (is_fulfillable out)
          (λ (o : ShopOrder). record o { fulfillment = text; status = paid }) d)))
  raise_if (n == 0) not_found

-- ExpirePendingBefore
unfoldable pub expire_pending_before : ℕ → ShopSql ℕ
expire_pending_before cutoff = autocommit (
    exec (λ d. ok (
      update_shop_orders (λ (o : ShopOrder). has_order_status pending o && ltb o.created_at cutoff)
        (λ (o : ShopOrder). record o { status = expired }) d)))

-- ListOrders: a filter of none returns everything, a limit of zero or below has become 0.
unfoldable pub list_shop_orders : Option ShopStatus → ℕ → ShopSql (List ShopOrder)
list_shop_orders filter limit = do
  rows ← query (λ d. rows_where (matches filter) d.shop_orders)
  pure (
      map scan_order (
        take (if limit == 0 then 200 else limit)
          (sort_by (λ (a b : ShopOrder). ltb a.created_at b.created_at) rows)))
  where
    matches : Option ShopStatus → ShopOrder → Bool
    matches none o = true
    matches (some st) o = has_order_status st o
