-- ===== src/Books/Retry.antt =====
-- internal/saas/db/wallet_idem.go among the other money calls: a retry moves nothing.
use hypitoken.Prelude.{◌≡◌, true, false, pos, ◌≢◌, trim_space}
use hypitoken.Store.Schema.{Db, TxKind}
use hypitoken.Store.Sql.{Env, ok, run}
use hypitoken.Wallet.Idem.{IdemChargeReq, IdemChargeResult, wallet_idem}
use hypitoken.Wallet.Idem.Once.{retry_in_longer_ledger}
use hypitoken.Books.{Reach, reached-Extends}

-- Once a call with a key has moved money, every later call with that key, after any money calls in
-- any order and whichever of their statements fail, and with whatever amount, leaves the database
-- as it is, and if it succeeds it reports the row and the magnitude of that first call.
pub retry_moves_nothing :
    (req retry : IdemChargeReq) (kind again : TxKind) (env later : Env) (d d' e : Db)
    (res : IdemChargeResult)
    → run (wallet_idem req kind) env d ≡ (ok res, d')
    → res.replayed ≡ false
    → res.charged_usd ≢ pos 0
    → Reach d' e
    → trim_space retry.idempotency_key ≡ trim_space req.idempotency_key
    → ((run (wallet_idem retry again) later e).1 ≡ e)
      × ((res' : IdemChargeResult)
          → (run (wallet_idem retry again) later e).0 ≡ ok res'
          → (res'.replayed ≡ true)
            × (res'.tx_id ≡ res.tx_id)
            × (res'.charged_usd ≡ res.charged_usd))
retry_moves_nothing req retry kind again env later d d' e res done first moved reach same =
    let (more, longer) = reached-Extends reach in
    retry_in_longer_ledger req retry kind again env later d d' e res more longer done first moved
      same
