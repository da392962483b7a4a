-- ===== src/Wallet/Idem/Once.antt =====
-- A key moves money at most once while the ledger only grows.
use hypitoken.Prelude.{
  ◌+◌, ◌≡◌, sym, ap, subst, ◌∙◌, true, false, not, ◌&&◌, none, some, ℤ, pos, neg_ℤ, ◌-ℤ◌, ◌≤ℤ◌,
  ◌<ℤ◌, abs_ℤ, inl, inr, arith, trim_space, str_eq, eq_refl, if◌then◌else◌, first_where-append,
  first_where-longer, List, ◌++◌, String, ◌≢◌,
}
use hypitoken.Store.Schema.{Db, WalletTx, TxKind}
use hypitoken.Store.Sql.{Env, Result, ok, err, run}
use hypitoken.Store.Ledger.{LedgerRow, to_tx, has_key, set_balance}
use hypitoken.Wallet.Clamp.{clamp_charge-bounds}
use hypitoken.Wallet.Post.{Posts}
use hypitoken.Wallet.Idem.{
  IdemChargeReq, IdemChargeResult, select_key, wallet_idem, idem_moved, idem_delta, idem_row,
}
use hypitoken.Wallet.Idem.Settle.{IdemEnds, wallet_idem-ends}

-- A movement that is found on its key reports that row.
abbrev Reports : WalletTx → Db → Result IdemChargeResult × Db → Type 0
Reports t d (err e, d') = d' ≡ d
Reports t d (ok res, d') =
    (d' ≡ d) × (res.replayed ≡ true) × (res.tx_id ≡ t.id) × (res.charged_usd ≡ abs_ℤ t.amount_usd)

some_inj : {t u : WalletTx} → some t ≡ some u → t ≡ u
some_inj h = cc

settled-Reports :
    (req : IdemChargeReq) (kind : TxKind) (env : Env) (d : Db) (t : WalletTx)
    → select_key (trim_space req.idempotency_key) d ≡ some t
    → Reports t d (run (wallet_idem req kind) env d)
settled-Reports req kind env d t h =
    go (run (wallet_idem req kind) env d) (wallet_idem-ends req kind env d)
  where
    go : (end : Result IdemChargeResult × Db) → IdemEnds req kind env d end → Reports t d end
    go (err e, d') same = same
    go (ok res, d') (inl r) =
        let same : r.row ≡ t = some_inj (sym r.settled ∙ h) in
        (
          r.unchanged,
          r.replayed,
          r.tx_id ∙ ap (λ (u : WalletTx). u.id) same,
          r.charged ∙ ap (λ (u : WalletTx). abs_ℤ u.amount_usd) same,
        )
    go (ok res, d') (inr s) = cc (s.fresh, h)

-- What is moved is never negative.
idem_moved_nonneg :
    (kind : TxKind) (bal amount floor : ℤ)
    → pos 0 <ℤ amount
    → pos 0 ≤ℤ idem_moved kind bal amount floor
idem_moved_nonneg kind bal amount floor h = ground (arith, clamp_charge-bounds bal amount floor h)

abs-neg : (a : ℤ) → pos 0 ≤ℤ a → abs_ℤ (neg_ℤ a) ≡ a
unfolding ◌-ℤ◌
abs-neg a h = ground arith

abs-pos : (a : ℤ) → pos 0 ≤ℤ a → abs_ℤ a ≡ a
abs-pos a h = ground arith

abs-idem_delta : (kind : TxKind) (a : ℤ) → pos 0 ≤ℤ a → abs_ℤ (idem_delta kind a) ≡ a
abs-idem_delta kind a h = ground (arith, abs-neg a h, abs-pos a h)

-- The key of a posted row is settled, by that row.
Posts-select_key :
    (row : LedgerRow) {bal : ℤ} {d d' : Db}
    → Posts row bal d d'
    → str_eq row.idem_key "" ≡ false
    → select_key row.idem_key d ≡ none
    → select_key row.idem_key d' ≡ some (to_tx (d.wallet_tx.seq + 1) row)
unfolding select_key set_balance
Posts-select_key row {d = d} p named fresh = rw p.after (
    first_where-append (has_key row.idem_key) d.wallet_tx.rows (to_tx (d.wallet_tx.seq + 1) row)
      fresh
    ∙ hit)
  where
    hit :
        (if str_eq row.idem_key row.idem_key && not (str_eq row.idem_key "")
          then some (to_tx (d.wallet_tx.seq + 1) row)
          else none)
        ≡ some (to_tx (d.wallet_tx.seq + 1) row)
    hit = rw (eq_refl row.idem_key, named)

abbrev pub Agrees : IdemChargeResult → Db → Result IdemChargeResult × Db → Type 0
Agrees res d end =
    (end.1 ≡ d)
    × ((res' : IdemChargeResult)
        → end.0 ≡ ok res'
        → (res'.replayed ≡ true) × (res'.tx_id ≡ res.tx_id) × (res'.charged_usd ≡ res.charged_usd))

Reports-Agrees :
    (t : WalletTx) (res : IdemChargeResult) (d : Db) (end : Result IdemChargeResult × Db)
    → res.tx_id ≡ t.id
    → res.charged_usd ≡ abs_ℤ t.amount_usd
    → Reports t d end
    → Agrees res d end
Reports-Agrees t res d (err e, d') i a same = (same, λ res' h. cc)
Reports-Agrees t res d (ok res', d') i a (same, r, i', a') =
    (same, λ res'' h. (ground arith, ground arith, ground arith))

-- A key that is settled stays settled, by the same row, while the ledger only grows.
select_key-longer :
    (key : String) (d e : Db) (more : List WalletTx) (t : WalletTx)
    → e.wallet_tx.rows ≡ d.wallet_tx.rows ++ more
    → select_key key d ≡ some t
    → select_key key e ≡ some t
unfolding select_key
select_key-longer key d e more t longer h =
    rw longer (first_where-longer (has_key key) d.wallet_tx.rows more t h)

-- Once a call with a key has moved money, a call with that key leaves any database whose ledger
-- extends the one of then as it is, and if it succeeds it reports the row and the magnitude of that
-- first call.
pub retry_in_longer_ledger :
    (req retry : IdemChargeReq) (kind again : TxKind) (env later : Env) (d d' e : Db)
    (res : IdemChargeResult) (more : List WalletTx)
    → e.wallet_tx.rows ≡ d'.wallet_tx.rows ++ more
    → run (wallet_idem req kind) env d ≡ (ok res, d')
    → res.replayed ≡ false
    → res.charged_usd ≢ pos 0
    → trim_space retry.idempotency_key ≡ trim_space req.idempotency_key
    → Agrees res e (run (wallet_idem retry again) later e)
retry_in_longer_ledger req retry kind again env later d d' e res more longer done first moved same =
    elim (subst (IdemEnds req kind env d) done (wallet_idem-ends req kind env d)) [
      | inl r ↦ cc (r.replayed, first)
      | inr s ↦ elim s.effect [
        | inl (z, _, _) ↦ absurd (moved z)
        | inr (_, id, posts) ↦
            let delta = idem_delta kind (idem_moved kind s.bal s.amount req.max_overdraft_usd) in
            let row = idem_row req (trim_space req.idempotency_key) kind delta env.now in
            Reports-Agrees (to_tx (d.wallet_tx.seq + 1) row) res e _ id
              (s.charged
                ∙ sym (
                    abs-idem_delta kind _
                      (idem_moved_nonneg kind s.bal s.amount req.max_overdraft_usd s.positive)))
              (settled-Reports retry again later e (to_tx (d.wallet_tx.seq + 1) row) (
                rw same (
                  select_key-longer (trim_space req.idempotency_key) d' e more _ longer
                    (Posts-select_key row posts s.named s.fresh))))
      ]
    ]
