-- ===== src/Orders/Once.antt =====
-- An order is credited once, by whatever rail and however often its settlement is delivered.
use hypitoken.Prelude.{
  ℕ, ◌≤◌, ◌≡◌, refl, subst, Bool, true, false, List, [], ◌∷◌, String, ℤ, arith, count_where,
  update_where,
}
use hypitoken.Store.Schema.{Db, AlipayOrder}
use hypitoken.Store.Sql.{Env, Result, ok, run}
use hypitoken.Store.Ledger.{set_balance}
use hypitoken.Orders.{
  is_order, settled, is_pending_order, is_unpaid_order, credit_paid_order, credit_stripe_order,
}
use hypitoken.Orders.Settle.{CreditEnds, credit_order-ends, nothing_to_flip}

-- out_trade_no is the primary key.
abbrev pub UniqueOrder : String → Db → Type 0
UniqueOrder out d = count_where (is_order out) d.alipay_orders.rows ≤ 1

-- No order of that number is waiting for money.
abbrev pub NoneUnpaid : String → Db → Type 0
NoneUnpaid out d = count_where (is_unpaid_order out) d.alipay_orders.rows ≡ 0

-- a rail: Stripe also rescues expired orders
abbrev pub rail : Bool → String → AlipayOrder → Bool
rail true out = is_unpaid_order out
rail false out = is_pending_order out

abbrev pub credit_by : Bool → String → String → ℕ → ℤ → String → String → Env → Db → Result ℤ × Db
credit_by true out trade_no user usd ref note =
    run (credit_stripe_order out trade_no user usd ref note)
credit_by false out trade_no user usd ref note =
    run (credit_paid_order out trade_no user usd ref note)

none_of_order :
    (stripe : Bool) (out : String) (rows : List AlipayOrder)
    → count_where (is_order out) rows ≡ 0
    → (count_where (is_unpaid_order out) rows ≡ 0) × (count_where (rail stripe out) rows ≡ 0)
unfolding count_where
none_of_order stripe out [] h = (refl, ground arith)
none_of_order true out (o ∷ rows) h = ground (arith, none_of_order true out rows)
none_of_order false out (o ∷ rows) h = ground (arith, none_of_order false out rows)

none_of_order-update :
    (stripe : Bool) (out trade_no : String) (now : ℕ) (rows : List AlipayOrder)
    → count_where (is_order out) rows ≡ 0
    → count_where (is_unpaid_order out) (update_where (rail stripe out) (settled trade_no now) rows)
      ≡ 0
unfolding count_where update_where
none_of_order-update stripe out trade_no now [] h = refl
none_of_order-update true out trade_no now (o ∷ rows) h =
    ground (arith, none_of_order-update true out trade_no now rows)
none_of_order-update false out trade_no now (o ∷ rows) h =
    ground (arith, none_of_order-update false out trade_no now rows)

flip_leaves_none :
    (stripe : Bool) (out trade_no : String) (now : ℕ) (rows : List AlipayOrder)
    → count_where (is_order out) rows ≤ 1
    → 1 ≤ count_where (rail stripe out) rows
    → count_where (is_unpaid_order out) (update_where (rail stripe out) (settled trade_no now) rows)
      ≡ 0
unfolding count_where update_where
flip_leaves_none stripe out trade_no now [] u h = refl
flip_leaves_none true out trade_no now (o ∷ rows) u h = ground (
  arith,
  flip_leaves_none true out trade_no now rows,
  none_of_order-update true out trade_no now rows,
  none_of_order true out rows,
)
flip_leaves_none false out trade_no now (o ∷ rows) u h = ground (
  arith,
  flip_leaves_none false out trade_no now rows,
  none_of_order-update false out trade_no now rows,
  none_of_order false out rows,
)

pending-le-unpaid :
    (out : String) (rows : List AlipayOrder)
    → count_where (is_pending_order out) rows ≤ count_where (is_unpaid_order out) rows
unfolding count_where
pending-le-unpaid out [] = omega arith
pending-le-unpaid out (o ∷ rows) = ground (arith, pending-le-unpaid out rows)

module _ (stripe : Bool) (out trade_no : String) (user : ℕ) (usd_credit : ℤ) (ref note : String)
    (env : Env) (d : Db) where
  pub credit_by-ends :
      CreditEnds
        (rail stripe out)
        trade_no
        user
        usd_credit
        ref
        note
        env
        d
        (credit_by stripe out trade_no user usd_credit ref note env d)
  unfolding credit_paid_order credit_stripe_order
  credit_by-ends = go stripe
    where
      go :
          (b : Bool)
          → CreditEnds
              (rail b out)
              trade_no
              user
              usd_credit
              ref
              note
              env
              d
              (credit_by b out trade_no user usd_credit ref note env d)
      go true = credit_order-ends _ trade_no user usd_credit ref note env d
      go false = credit_order-ends _ trade_no user usd_credit ref note env d

  -- A settlement of an order that is not waiting for money changes nothing and reports no credit.
  pub paid_order_not_credited :
      NoneUnpaid out d
      → ((credit_by stripe out trade_no user usd_credit ref note env d).1 ≡ d)
        × ((new : ℤ)
            → (credit_by stripe out trade_no user usd_credit ref note env d).0 ≡ ok new
            → ⊥)
  paid_order_not_credited none_left =
      nothing_to_flip _ trade_no user usd_credit ref note env d (none_on_rail stripe) _
        credit_by-ends
    where
      none_on_rail : (b : Bool) → count_where (rail b out) d.alipay_orders.rows ≡ 0
      none_on_rail true = none_left
      none_on_rail false = omega (arith, pending-le-unpaid out d.alipay_orders.rows)

  -- A settlement that credits leaves no order of that number waiting for money.
  pub credit_leaves_none :
      (new : ℤ) (d' : Db)
      → UniqueOrder out d
      → credit_by stripe out trade_no user usd_credit ref note env d ≡ (ok new, d')
      → NoneUnpaid out d'
  unfolding set_balance
  credit_leaves_none new d' unique e =
      let (home, bal, _, some_flip, _, posts) =
        subst (CreditEnds (rail stripe out) trade_no user usd_credit ref note env d) e
          credit_by-ends in
      rw posts.after
        (flip_leaves_none stripe out trade_no env.now d.alipay_orders.rows unique some_flip)

-- Whatever two settlements of one order number are delivered, by Alipay's notification or by Stripe,
-- with whatever amounts and in whatever environments: once the first has credited, the second
-- changes nothing and reports no credit.
pub credited_once :
    (first second : Bool) (out t t' : String) (user user' : ℕ) (usd usd' : ℤ)
    (ref ref' note note' : String) (env env' : Env) (d d' : Db) (new : ℤ)
    → UniqueOrder out d
    → credit_by first out t user usd ref note env d ≡ (ok new, d')
    → ((credit_by second out t' user' usd' ref' note' env' d').1 ≡ d')
      × ((new' : ℤ) → (credit_by second out t' user' usd' ref' note' env' d').0 ≡ ok new' → ⊥)
credited_once first second out t t' user user' usd usd' ref ref' note note' env env' d d' new unique
      e =
    paid_order_not_credited second out t' user' usd' ref' note' env' d'
      (credit_leaves_none first out t user usd ref note env d new d' unique e)
