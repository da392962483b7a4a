-- ===== src/Shop/Shut.antt =====
-- An order that no payment would settle stays so through the calls on orders.
use hypitoken.Prelude.{
  ℕ, ◌≡◌, refl, subst, ◌∙◌, Bool, true, false, ◌&&◌, if◌then◌else◌, Bool-cases, inl, inr, Option,
  List, [], ◌∷◌, ◌++◌, String, str_eq, eq_iff, arith, update_where, exists_where, count_where,
  count_where-append, count_where-update_le, exists_where-update, exists_where-append_true,
}
use hypitoken.Store.Engine.{unique_violation, Result, ok, err}
use hypitoken.Store.Keeps.{
  Keeps, gets-Keeps, raise_if-Keeps, exec-Keeps, exec_ok-Keeps, exec_-Keeps, autocommit-Keeps,
  bind-Keeps,
}
use hypitoken.Shop.Schema.{Product, ShopOrder, Shop, ShopStatus, set_orders}
use hypitoken.Shop.Products.{change_stock}
use hypitoken.Shop.Orders.{
  is_shop_order, settleable, insert_order, create_shop_order, consume_card, settle_order,
  mark_email_sent, set_fulfillment, update_shop_orders, expire_pending_before,
}
use hypitoken.Shop.Deliver.{Given, card, template, drained, by_hand, deleted}

pub Given-orders :
    {out : String} {now product : ℕ} {d w : Shop} {p : Option Product} {st : ShopStatus}
    {text : String}
    → Given out now d product p st text w
    → (w.shop_orders ≡ d.shop_orders)
      × ((f : ShopOrder) → settleable (record f { status = st }) ≡ false)
unfolding change_stock consume_card
Given-orders (card p c _ _ _) = (refl, λ f. refl)
Given-orders (template p _) = (refl, λ f. refl)
Given-orders (drained p _ _ _) = (refl, λ f. refl)
Given-orders (by_hand p _ _) = (refl, λ f. refl)
Given-orders deleted = (refl, λ f. refl)

-- an order of this number that a payment would settle
abbrev pub is_due : String → ShopOrder → Bool
is_due out o = is_shop_order out o && settleable o

-- the order is there, and no payment would settle it
abbrev pub IsShutIn : String → List ShopOrder → Type 0
IsShutIn out os = (exists_where (is_shop_order out) os ≡ true) × (count_where (is_due out) os ≡ 0)

abbrev pub IsShut : String → Shop → Type 0
IsShut out d = IsShutIn out d.shop_orders

module _ (out : String) where
  abbrev I : Shop → Type 0
  I d = IsShut out d

  -- The orders that a statement changes keep their numbers, and none becomes due.
  pub update_where-IsShut :
      (p : ShopOrder → Bool) (f : ShopOrder → ShopOrder)
      → ((o : ShopOrder) → is_shop_order out (f o) ≡ is_shop_order out o)
      → ((o : ShopOrder) → p o ≡ true → is_due out (f o) ≡ true → is_due out o ≡ true)
      → (os : List ShopOrder) → IsShutIn out os
      → IsShutIn out (update_where p f os)
  update_where-IsShut p f same shut os (there, none_due) =
      let fewer = count_where-update_le p (is_due out) f shut os in
      (exists_where-update (is_shop_order out) p f same os ∙ there, omega arith)

  insert_order-IsShut :
      (o : ShopOrder) (d : Shop) (a : Unit {0}) (e : Shop)
      → I d
      → insert_order o d ≡ ok (a, e)
      → I e
  unfolding insert_order count_where
  insert_order-IsShut o d a e (there, none_due) done =
      go (exists_where (is_shop_order o.out_trade_no) d.shop_orders) refl done
    where
      another :
          exists_where (is_shop_order o.out_trade_no) d.shop_orders ≡ false
          → str_eq o.out_trade_no out ≡ false
      another fresh = elim (Bool-cases (str_eq o.out_trade_no out)) [
        | inl same ↦ absurd (
            let missing : exists_where (is_shop_order out) d.shop_orders ≡ false =
              subst (λ (n : String). exists_where (is_shop_order n) d.shop_orders ≡ false)
                ((eq_iff o.out_trade_no out).0 same) fresh in
            cc)
        | inr other ↦ other
      ]

      go :
          (taken : Bool)
          → exists_where (is_shop_order o.out_trade_no) d.shop_orders ≡ taken
          → if◌then◌else◌ {A = Result (Unit {0} × Shop)} taken
              (err unique_violation)
              (ok (tt, set_orders (d.shop_orders ++ o ∷ []) d))
            ≡ ok (a, e)
          → I e
      go true test h = cc
      go false test h =
          let same : set_orders (d.shop_orders ++ o ∷ []) d ≡ e = cc in
          let more = count_where-append (is_due out) d.shop_orders (o ∷ []) in
          let other = another test in
          subst I same (
            exists_where-append_true (is_shop_order out) d.shop_orders (o ∷ []) there,
            ground arith,
          )

  pub create_shop_order-Keeps : (o : ShopOrder) → Keeps I (create_shop_order o)
  unfolding create_shop_order
  create_shop_order-Keeps o =
      bind-Keeps I _ _ (gets-Keeps I _)
        (λ now. autocommit-Keeps I _ (exec-Keeps I _ (insert_order-IsShut _)))

  pub mark_email_sent-Keeps : (n : String) → Keeps I (mark_email_sent n)
  unfolding mark_email_sent settle_order
  mark_email_sent-Keeps n =
      autocommit-Keeps I _
        (exec_-Keeps I _ (λ d. update_where-IsShut _ _ (λ o. refl) (λ o h k. k) d.shop_orders))

  pub set_fulfillment-Keeps : (n text : String) → Keeps I (set_fulfillment n text)
  unfolding set_fulfillment update_shop_orders
  set_fulfillment-Keeps n text =
      bind-Keeps I _ _
        (autocommit-Keeps I _ (
          exec_ok-Keeps I _
            (λ d. update_where-IsShut _ _ (λ o. refl) (λ o h k. ground arith) d.shop_orders)))
        (λ changed. raise_if-Keeps I _ _)

  pub expire_pending_before-Keeps : (cutoff : ℕ) → Keeps I (expire_pending_before cutoff)
  unfolding expire_pending_before update_shop_orders
  expire_pending_before-Keeps cutoff = autocommit-Keeps I _ (
      exec_ok-Keeps I _
        (λ d. update_where-IsShut _ _ (λ o. refl) (λ o h k. ground arith) d.shop_orders))
