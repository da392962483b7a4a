-- ===== src/Shop/Moves.antt =====
-- What each call of the shop does to its tables.
use hypitoken.Prelude.{
  ℕ, ◌≡◌, sym, subst, Bool, true, false, if◌then◌else◌, Option, some, List, [], ◌∷◌, String, length,
  first_where,
}
use hypitoken.Store.Engine.{
  Error, unique_violation, Env, Result, ok, err, SessionOn, run, leave, follow, pure, exec_, commit,
}
use hypitoken.Store.Rules.{
  Undone, last, pure_end, raise_if_step, gets_step, or_raise_step, query_step, exec__step,
  exec_step, branch_step, commit_step, transact_step, bind_step,
}
use hypitoken.Store.Autocommit.{autocommit_step, autocommit_ok_step}
use hypitoken.Shop.Schema.{Product, CardSecret, ShopOrder, Shop, ShopStatus, set_orders}
use hypitoken.Shop.Products.{
  is_card, insert_product, create_product, edited, update_products, update_product, drop_product,
  delete_product, clean_lines, insert_card, insert_cards, stocked, unstocked, change_stock,
  append_end, append_card_secrets, drop_card, delete_unconsumed_secret,
}
use hypitoken.Shop.Orders.{
  create_shop_order, insert_order, settle_order, mark_email_sent, set_fulfillment,
  update_shop_orders, expire_pending_before,
}
use hypitoken.Shop.Calls.{
  ShopCall, shop_step, create, edit, remove, append_cards, delete_card, place, pay, mark_sent,
  fulfil, expire_before,
}
use hypitoken.Shop.Deliver.{Given, DeliverEnds, mark_order_paid_and_fulfil-ends}

-- The cards were inserted one after the other.
pub data Inserted (product now : ℕ) : List String → Shop → Shop → Type 0 where
  none_left : {d : Shop} → Inserted product now [] d d
  one_more :
      {l : String} {ls : List String} {d e f : Shop}
      → insert_card product now l d ≡ ok (tt, e)
      → Inserted product now ls e f
      → Inserted product now (l ∷ ls) d f

-- What a call does to the tables.
pub data ShopMoves (d : Shop) : Shop → Type 0 where
  nothing : ShopMoves d d
  creates : (p : Product) (now : ℕ) → ShopMoves d (insert_product p now d).1
  edits : (p : Product) (now : ℕ) → ShopMoves d (update_products p.id (edited p now) d).1
  removes : (id : ℕ) → ShopMoves d (drop_product id d).1
  stocks :
      (product now : ℕ) (clean : List String) (e : Shop)
      → Inserted product now clean d e
      → ShopMoves d (change_stock product (stocked (length clean) now) e)
  discards :
      (id now : ℕ) (c : CardSecret)
      → first_where (is_card id) d.shop_card_secrets.rows ≡ some c
      → c.consumed ≡ false
      → ShopMoves d (change_stock c.product_id (unstocked now) (drop_card id d))
  orders : (os : List ShopOrder) → ShopMoves d (set_orders os d)
  gives :
      (out : String) (now product : ℕ) (p : Option Product) (st : ShopStatus) (text : String)
      (w : Shop) (f : ShopOrder → ShopOrder)
      → Given out now d product p st text w
      → ShopMoves d (settle_order out f w)

-- The loop that inserts cards ends early, or with all of them inserted.
insert_cards_end :
    (Q : Result (Unit {0}) × SessionOn Shop → Type 0) (product now : ℕ) (ls : List String)
    (s : SessionOn Shop)
    → ((n : ℕ) (e : Shop)
        → Inserted product now ls s.work e
        → Q (ok tt, record s { clock = n; work = e }))
    → ((e : Error) (n : ℕ) (w : Shop) → Q (err e, record s { clock = n; work = w }))
    → Q (insert_cards product now ls s)
unfolding insert_cards
insert_cards_end Q product now [] s good failed = pure_end Q _ _ (good _ _ none_left)
insert_cards_end Q product now (l ∷ ls) s good failed =
    exec_step Q _ _ _
      (λ _ e inserted.
        insert_cards_end Q product now ls _ (λ n f more. good n f (one_more inserted more)) failed)
      (λ e. failed e _ _)

module _ (env : Env) (d : Shop) where
  abbrev Moved : {A : Type 0} → Result A × SessionOn Shop → Type 0
  Moved x = ShopMoves d (leave x).1

  create_product-Moves : (p : Product) → ShopMoves d (run (create_product p) env d).1
  unfolding create_product run
  create_product-Moves p = gets_step Moved _ _ _ (
      last Moved _ _
        (autocommit_ok_step Moved _ _ _ (pure_end Moved _ _ (creates p env.now)) (λ e. nothing)))

  update_product-Moves : (p : Product) → ShopMoves d (run (update_product p) env d).1
  unfolding update_product run
  update_product-Moves p = gets_step Moved _ _ _ (
      autocommit_ok_step Moved _ _ _
        (last Moved _ _ (
          raise_if_step Moved _ _ _ _ (λ _. pure_end Moved _ _ (edits p env.now))
            (edits p env.now)))
        (λ e. nothing))

  delete_product-Moves : (id : ℕ) → ShopMoves d (run (delete_product id) env d).1
  unfolding delete_product run
  delete_product-Moves id =
      autocommit_ok_step Moved _ _ _
        (last Moved _ _
          (raise_if_step Moved _ _ _ _ (λ _. pure_end Moved _ _ (removes id)) (removes id)))
        (λ e. nothing)

  append_card_secrets-Moves :
      (product : ℕ) (lines : List String)
      → ShopMoves d (run (append_card_secrets product lines) env d).1
  unfolding append_card_secrets append_end run
  append_card_secrets-Moves product lines =
      branch_step Moved _ _ _ _ (λ _. pure_end Moved _ _ nothing)
        (λ _.
          transact_step Moved _ _
            (gets_step (Undone Moved) _ _ _ (
              bind_step (Undone Moved) _ (append_end product (clean_lines lines) env.now) _ (
                insert_cards_end
                  (λ x. Undone Moved (follow (append_end product (clean_lines lines) env.now) x))
                  product env.now (clean_lines lines) _
                  (λ n e inserted.
                    exec__step (Undone Moved) _ _ _
                      (commit_step (Undone Moved) _ _
                        (pure_end (Undone Moved) _ _ (stocks _ _ _ e inserted)) nothing)
                      nothing)
                  (λ e n w. nothing))))
            nothing)

  delete_unconsumed_secret-Moves :
      (id : ℕ) → ShopMoves d (run (delete_unconsumed_secret id) env d).1
  unfolding delete_unconsumed_secret run
  delete_unconsumed_secret-Moves id =
      transact_step Moved _ _
        (query_step (Undone Moved) _ _ _
          (or_raise_step (Undone Moved) _ _ _ _
            (λ c found.
              raise_if_step (Undone Moved) _ _ _ _
                (λ unsold.
                  exec__step (Undone Moved) _ _ _
                    (gets_step (Undone Moved) _ _ _ (
                      exec__step (Undone Moved) _ _ _
                        (last (Undone Moved) commit _ (
                          commit_step (Undone Moved) pure _
                            (pure_end (Undone Moved) _ _ (discards id env.now c found unsold))
                            nothing))
                        nothing))
                    nothing)
                nothing)
            nothing)
          nothing)
        nothing

  placed :
      (taken : Bool) (os : List ShopOrder) (e : Shop)
      → if◌then◌else◌ {A = Result (Unit {0} × Shop)} taken
          (err unique_violation)
          (ok (tt, set_orders os d))
        ≡ ok (tt, e)
      → ShopMoves d e
  placed true os e h = cc
  placed false os e h = let same : set_orders os d ≡ e = cc in subst (ShopMoves d) same (orders os)

  create_shop_order-Moves : (o : ShopOrder) → ShopMoves d (run (create_shop_order o) env d).1
  unfolding create_shop_order insert_order run
  create_shop_order-Moves o = gets_step Moved _ _ _ (
      last Moved _ _ (
        autocommit_step Moved _ _ _ (λ a e done. pure_end Moved _ _ (placed _ _ e done))
          (λ e. nothing)))

  mark_email_sent-Moves : (out : String) → ShopMoves d (run (mark_email_sent out) env d).1
  unfolding mark_email_sent run exec_ settle_order
  mark_email_sent-Moves out =
      last Moved _ _ (autocommit_ok_step Moved _ _ _ (pure_end Moved _ _ (orders _)) (λ e. nothing))

  set_fulfillment-Moves : (out text : String) → ShopMoves d (run (set_fulfillment out text) env d).1
  unfolding set_fulfillment run update_shop_orders
  set_fulfillment-Moves out text =
      autocommit_ok_step Moved _ _ _
        (last Moved _ _
          (raise_if_step Moved _ _ _ _ (λ _. pure_end Moved _ _ (orders _)) (orders _)))
        (λ e. nothing)

  expire_pending_before-Moves :
      (cutoff : ℕ) → ShopMoves d (run (expire_pending_before cutoff) env d).1
  unfolding expire_pending_before run update_shop_orders
  expire_pending_before-Moves cutoff =
      last Moved _ _ (autocommit_ok_step Moved _ _ _ (pure_end Moved _ _ (orders _)) (λ e. nothing))

  paid-Moves :
      (out trade_no : String) (end : Result ShopOrder × Shop)
      → DeliverEnds out trade_no env d end
      → ShopMoves d end.1
  paid-Moves out trade_no (err e, d') same = subst (ShopMoves d) (sym same) nothing
  paid-Moves out trade_no (ok o', d') (o, _, _, st, text, w, given, _, after) =
      subst (ShopMoves d) (sym after) (gives _ _ _ _ _ _ _ _ given)

-- Whatever a call of the shop is and whichever statements fail, it does one of these to the tables.
pub shop_step-Moves : (c : ShopCall) (env : Env) (d : Shop) → ShopMoves d (shop_step c env d)
unfolding shop_step
shop_step-Moves (create p) env d = create_product-Moves env d p
shop_step-Moves (edit p) env d = update_product-Moves env d p
shop_step-Moves (remove id) env d = delete_product-Moves env d id
shop_step-Moves (append_cards product lines) env d = append_card_secrets-Moves env d product lines
shop_step-Moves (delete_card id) env d = delete_unconsumed_secret-Moves env d id
shop_step-Moves (place o) env d = create_shop_order-Moves env d o
shop_step-Moves (pay out trade_no) env d =
    paid-Moves env d out trade_no _ (mark_order_paid_and_fulfil-ends out trade_no env d)
shop_step-Moves (mark_sent out) env d = mark_email_sent-Moves env d out
shop_step-Moves (fulfil out text) env d = set_fulfillment-Moves env d out text
shop_step-Moves (expire_before cutoff) env d = expire_pending_before-Moves env d cutoff
