-- ===== src/Books.antt =====
-- The money operations of internal/saas/db together: the calls that the server makes on the database
-- in any order, each in its own environment, and what holds of every database that they reach.
pub mod Retry
use hypitoken.Prelude.{ℕ, ◌≡◌, refl, ap, ◌∙◌, Bool, List, [], ◌∷◌, ◌++◌, String, ℤ, inl, inr, ◌+◌}
use hypitoken.Store.Schema.{Db, TxKind, ChargeMeta, GiftCard, WalletTx, AlipayOrder}
use hypitoken.Store.Sql.{Env, Result, ok, err, run}
use hypitoken.Store.Ledger.{IsBalanced, LedgerRow, to_tx, set_balance}
use hypitoken.Wallet.{charge_workspace_with_floor, add_balance}
use hypitoken.Wallet.Add.{AddEnds, add_balance-ends}
use hypitoken.Wallet.Post.{Posts, Posts-IsBalanced}
use hypitoken.Wallet.Charge.{ChargeEnds, charge_workspace_with_floor-ends}
use hypitoken.Wallet.Idem.{IdemChargeReq, IdemChargeResult, wallet_idem}
use hypitoken.Wallet.Idem.Settle.{IdemEnds, wallet_idem-ends}
use hypitoken.Orders.Settle.{CreditEnds}
use hypitoken.Orders.Once.{credit_by, credit_by-ends}
use hypitoken.Gifts.Settle.{
  SendEnds, ClaimEnds, RefundEnds, gift_send_tx-ends, gift_claim_tx-ends, gift_refund_tx-ends,
}
use hypitoken.Gifts.{gift_send_tx, gift_claim_tx, gift_refund_tx}
use hypitoken.Workspaces.{set_home, create_personal_workspace, adjust_workspace_balance}
use hypitoken.Workspaces.Create.{
  CreateEnds, create_personal_workspace-ends, CreateEnds-IsBalanced, AdjustEnds,
  adjust_workspace_balance-ends,
}

-- A call that moves money or opens a wallet.
pub data MoneyCall : Type 0 where
  charge_floor : ℕ → ℕ → TxKind → ℤ → String → String → ℤ → ChargeMeta → MoneyCall
  signed : ℕ → TxKind → ℤ → String → String → Bool → MoneyCall
  move_once : IdemChargeReq → TxKind → MoneyCall
  credit : Bool → String → String → ℕ → ℤ → String → String → MoneyCall
  send : GiftCard → String → MoneyCall
  claim : String → ℕ → String → MoneyCall
  refund : String → String → MoneyCall
  adjust : ℕ → ℕ → ℤ → String → String → MoneyCall
  open_wallet : ℕ → String → ℕ → MoneyCall

-- the database that a call leaves
unfoldable pub step : MoneyCall → Env → Db → Db
step (charge_floor ws user kind amount ref note floor meta) env d =
    (run (charge_workspace_with_floor ws user kind amount ref note floor meta) env d).1
step (signed user kind delta ref note allow) env d =
    (run (add_balance user kind delta ref note allow) env d).1
step (move_once req kind) env d = (run (wallet_idem req kind) env d).1
step (credit stripe out trade_no user usd ref note) env d =
    (credit_by stripe out trade_no user usd ref note env d).1
step (send g note) env d = (run (gift_send_tx g note) env d).1
step (claim code user note) env d = (run (gift_claim_tx code user note) env d).1
step (refund code note) env d = (run (gift_refund_tx code note) env d).1
step (adjust ws operator delta ref note) env d =
    (run (adjust_workspace_balance ws operator delta ref note) env d).1
step (open_wallet user email group) env d =
    (run (create_personal_workspace user email group) env d).1

-- What calls reach, in any order and in any environments.
pub data Reach (d : Db) : Db → Type 0 where
  start : Reach d d
  after : {e : Db} (c : MoneyCall) (env : Env) → Reach d e → Reach d (step c env e)

-- neither a workspace nor a movement changes
pub record Quiet (d d' : Db) : Type 0 where
  pub workspaces : d'.workspaces ≡ d.workspaces
  pub ledger : d'.wallet_tx ≡ d.wallet_tx

-- What a call does to the books: nothing, one balanced movement, or a new empty workspace.
pub data Moves (d d' : Db) : Type 0 where
  nothing : Quiet d d' → Moves d d'
  posts :
      (row : LedgerRow) (bal : ℤ) (a b : Db)
      → Quiet d a
      → Posts row bal a b
      → Quiet b d'
      → Moves d d'
  opens :
      (user : ℕ) (email : String) (group : ℕ) (env : Env) (ws : ℕ)
      → CreateEnds user email group env d (ok ws, d')
      → Moves d d'

same_books : {d d' : Db} → d' ≡ d → Moves d d'
same_books same = nothing (record {
  workspaces = ap (λ (x : Db). x.workspaces) same;
  ledger = ap (λ (x : Db). x.wallet_tx) same;
})

still : (d : Db) → Quiet d d
still d = record { workspaces = refl; ledger = refl }

one_post : {row : LedgerRow} {bal : ℤ} {d d' : Db} → Posts row bal d d' → Moves d d'
one_post {row} {bal} {d} {d'} p = posts row bal d d' (still d) p (still d')

credit-Moves :
    (f : AlipayOrder → Bool) (t : String) (user : ℕ) (usd : ℤ) (ref note : String) (env : Env)
    (d : Db) (end : Result ℤ × Db)
    → CreditEnds f t user usd ref note env d end
    → Moves d end.1
credit-Moves f t user usd ref note env d (err e, d') same = same_books same
credit-Moves f t user usd ref note env d (ok new, d') (home, bal, _, _, _, p) =
    posts _ bal _ d' (record { workspaces = refl; ledger = refl }) p (still d')

charge-Moves :
    (ws user : ℕ) (kind : TxKind) (amount : ℤ) (ref note : String) (floor : ℤ) (meta : ChargeMeta)
    (env : Env) (d : Db) (end : Result (ℤ × ℤ) × Db)
    → ChargeEnds ws user kind amount ref note floor meta env d end
    → Moves d end.1
charge-Moves ws user kind amount ref note floor meta env d (err e, d') same = same_books same
charge-Moves ws user kind amount ref note floor meta env d (ok (new, charged), d')
      (bal, found, _, inl (_, same)) =
    same_books same
charge-Moves ws user kind amount ref note floor meta env d (ok (new, charged), d')
      (bal, found, _, inr (_, _, p)) =
    one_post p

add-Moves :
    (user : ℕ) (kind : TxKind) (delta : ℤ) (ref note : String) (allow : Bool) (env : Env) (d : Db)
    (end : Result ℤ × Db)
    → AddEnds user kind delta ref note allow env d end
    → Moves d end.1
add-Moves user kind delta ref note allow env d (err e, d') same = same_books same
add-Moves user kind delta ref note allow env d (ok new, d') (_, _, _, _, _, p) = one_post p

idem-Moves :
    (req : IdemChargeReq) (kind : TxKind) (env : Env) (d : Db) (end : Result IdemChargeResult × Db)
    → IdemEnds req kind env d end
    → Moves d end.1
idem-Moves req kind env d (err e, d') same = same_books same
idem-Moves req kind env d (ok res, d') (inl r) = same_books r.unchanged
idem-Moves req kind env d (ok res, d') (inr s) = elim s.effect [
  | inl (_, _, same) ↦ same_books same
  | inr (_, _, p) ↦ one_post p
]

send-Moves :
    (g : GiftCard) (note : String) (env : Env) (d : Db) (end : Result ℤ × Db)
    → SendEnds g note env d end
    → Moves d end.1
send-Moves g note env d (err e, d') same = same_books same
send-Moves g note env d (ok new, d') (home, bal, mid, _, _, _, p, _, last) =
    posts _ bal d mid (still d) p (record {
      workspaces = ap (λ (x : Db). x.workspaces) last;
      ledger = ap (λ (x : Db). x.wallet_tx) last;
    })

claim-Moves :
    (code : String) (user : ℕ) (note : String) (env : Env) (d : Db)
    (end : Result (GiftCard × ℤ) × Db)
    → ClaimEnds code user note env d end
    → Moves d end.1
claim-Moves code user note env d (err e, d') same = same_books same
claim-Moves code user note env d (ok (h, new), d') (g, _, c) =
    posts _ c.bal _ d' (record { workspaces = refl; ledger = refl }) c.posts (still d')

refund-Moves :
    (code note : String) (env : Env) (d : Db) (end : Result GiftCard × Db)
    → RefundEnds code note env d end
    → Moves d end.1
refund-Moves code note env d (err e, d') same = same_books same
refund-Moves code note env d (ok h, d') (g, new, _, c) =
    posts _ c.bal _ d' (record { workspaces = refl; ledger = refl }) c.posts (still d')

adjust-Moves :
    (ws operator : ℕ) (delta : ℤ) (ref note : String) (env : Env) (d : Db) (end : Result ℤ × Db)
    → AdjustEnds ws operator delta ref note env d end
    → Moves d end.1
adjust-Moves ws operator delta ref note env d (err e, d') same = same_books same
adjust-Moves ws operator delta ref note env d (ok new, d') (bal, _, p) = one_post p

open-Moves :
    (user : ℕ) (email : String) (group : ℕ) (env : Env) (d : Db) (end : Result ℕ × Db)
    → CreateEnds user email group env d end
    → Moves d end.1
open-Moves user email group env d (err e, d') same = same_books same
open-Moves user email group env d (ok ws, d') h = opens user email group env ws h

-- Every call makes no movement, makes one balanced movement, or opens an empty workspace.
pub step-Moves : (c : MoneyCall) (env : Env) (d : Db) → Moves d (step c env d)
unfolding step
step-Moves (charge_floor ws user kind amount ref note floor meta) env d =
    charge-Moves ws user kind amount ref note floor meta env d _
      (charge_workspace_with_floor-ends ws user kind amount ref note floor meta env d)
step-Moves (signed user kind delta ref note allow) env d =
    add-Moves user kind delta ref note allow env d _
      (add_balance-ends user kind delta ref note allow env d)
step-Moves (move_once req kind) env d =
    idem-Moves req kind env d _ (wallet_idem-ends req kind env d)
step-Moves (credit stripe out trade_no user usd ref note) env d =
    credit-Moves _ trade_no user usd ref note env d _
      (credit_by-ends stripe out trade_no user usd ref note env d)
step-Moves (send g note) env d = send-Moves g note env d _ (gift_send_tx-ends g note env d)
step-Moves (claim code user note) env d =
    claim-Moves code user note env d _ (gift_claim_tx-ends code user note env d)
step-Moves (refund code note) env d =
    refund-Moves code note env d _ (gift_refund_tx-ends code note env d)
step-Moves (adjust ws operator delta ref note) env d =
    adjust-Moves ws operator delta ref note env d _
      (adjust_workspace_balance-ends ws operator delta ref note env d)
step-Moves (open_wallet user email group) env d =
    open-Moves user email group env d _ (create_personal_workspace-ends user email group env d)

Quiet-IsBalanced : {d d' : Db} → Quiet d d' → IsBalanced d → IsBalanced d'
Quiet-IsBalanced q v = record {
  sums = rw (q.workspaces, q.ledger) v.sums;
  issued = rw q.workspaces v.issued;
  known = rw (q.workspaces, q.ledger) v.known;
}

Moves-IsBalanced : {d d' : Db} → Moves d d' → IsBalanced d → IsBalanced d'
Moves-IsBalanced (nothing q) v = Quiet-IsBalanced q v
Moves-IsBalanced (posts row bal a b q p r) v =
    Quiet-IsBalanced r (Posts-IsBalanced p (Quiet-IsBalanced q v))
Moves-IsBalanced {d} {d'} (opens user email group env ws h) v =
    CreateEnds-IsBalanced user email group env d (ok ws, d') h v

-- From balanced books, every database that calls reach, in any order and whichever statements fail,
-- has balanced books: each workspace's balance is the sum of its movements.
pub reached-IsBalanced : {d d' : Db} → Reach d d' → IsBalanced d → IsBalanced d'
reached-IsBalanced start v = v
reached-IsBalanced (after {e} c env r) v =
    Moves-IsBalanced (step-Moves c env e) (reached-IsBalanced r v)

-- the ledger has grown at its end only
abbrev pub Extends : Db → Db → Type 0
Extends d d' = (more : List WalletTx) × (d'.wallet_tx.rows ≡ d.wallet_tx.rows ++ more)

append_nil : {A : Type 0} (xs : List A) → xs ≡ xs ++ []
append_nil [] = refl
append_nil (x ∷ xs) = ap (λ (ys : List _). x ∷ ys) (append_nil xs)

append_assoc : {A : Type 0} (xs ys zs : List A) → (xs ++ ys) ++ zs ≡ xs ++ (ys ++ zs)
append_assoc [] ys zs = refl
append_assoc (x ∷ xs) ys zs = ap (λ (ws : List _). x ∷ ws) (append_assoc xs ys zs)

Moves-Extends : {d d' : Db} → Moves d d' → Extends d d'
unfolding set_balance set_home
Moves-Extends {d} (nothing q) = ([], rw q.ledger (append_nil d.wallet_tx.rows))
Moves-Extends {d} (posts row bal a b q p r) =
    (to_tx (a.wallet_tx.seq + 1) row ∷ [], rw r.ledger (rw p.after (rw q.ledger refl)))
Moves-Extends {d} (opens user email group env ws (inl (_, _, same))) =
    ([], rw same (append_nil d.wallet_tx.rows))
Moves-Extends {d} (opens user email group env ws (inr (_, _, last))) =
    ([], rw last (append_nil d.wallet_tx.rows))

-- The ledger is append-only: in every database that calls reach, the movements of before stand
-- unchanged at its front.
pub reached-Extends : {d d' : Db} → Reach d d' → Extends d d'
reached-Extends {d} start = ([], append_nil d.wallet_tx.rows)
reached-Extends {d} (after {e} c env r) =
    let (before, h) = reached-Extends r in
    let (more, g) = Moves-Extends (step-Moves c env e) in
    (
      before ++ more,
      g ∙ ap (λ (xs : List WalletTx). xs ++ more) h ∙ append_assoc d.wallet_tx.rows before more,
    )
