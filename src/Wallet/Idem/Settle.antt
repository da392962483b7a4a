-- ===== src/Wallet/Idem/Settle.antt =====
-- What an idempotent movement does: it replays the row of its key, settles the key, or fails.
use hypitoken.Prelude.{
  ℕ, ◌+◌, ◌≡◌, refl, true, false, Option, none, some, String, ℤ, pos, ◌+ℤ◌, ◌<ℤ◌, ◌≤ℤ◌, abs_ℤ, ◌⊎◌,
  inl, inr, arith, trim_space, str_eq, ◌≢◌,
}
use hypitoken.Store.Schema.{Db, WalletTx, TxKind}
use hypitoken.Store.Sql.{
  Env, Error, Result, ok, err, Session, Sql, run, leave, follow, recover, ◌>>=◌, unique_violation,
  enter, raise, pure,
}
use hypitoken.Store.Rules.{
  Undone, pure_end, catch_end, or_raise_end, bind_step, branch_step, raise_if_step, gets_step,
  or_raise_step, query_step, exec__step, exec_step, commit_step, transact_step,
}
use hypitoken.Store.Ledger.{select_balance, set_balance, IsBalanced}
use hypitoken.Wallet.{insert_ledger_tx}
use hypitoken.Wallet.Post.{Posts, Posts-IsBalanced}
use hypitoken.Wallet.Rules.{insert_tx-ok, insert_tx-id}
use hypitoken.Wallet.Idem.{
  Amount, finite, not_a_number, infinite, IdemChargeReq, IdemChargeResult, mismatches, replay_of,
  describe_row, select_key, find_idem_row, idem_moved, idem_delta, idem_row, settle_or_replay,
  wallet_idem_once, after_race, wallet_idem_finite, wallet_idem, max_idem_amount, finite_or,
}

module _ (req : IdemChargeReq) (kind : TxKind) (d : Db) (res : IdemChargeResult) (d' : Db) where
  -- The key has a row, which describes the same movement: its identifier and magnitude come back,
  -- and nothing is written.
  pub record Replays : Type 0 where
    pub row : WalletTx
    pub settled : select_key (trim_space req.idempotency_key) d ≡ some row
    pub same : mismatches req kind row ≡ false
    pub replayed : res.replayed ≡ true
    pub tx_id : res.tx_id ≡ row.id
    pub charged : res.charged_usd ≡ abs_ℤ row.amount_usd
    pub unchanged : d' ≡ d

  -- The key has no row: the movement is made now, with the key on its row. A movement that is
  -- clamped to nothing writes nothing.
  pub record Settles (now : ℕ) : Type 0 where
    pub amount : ℤ
    pub bal : ℤ
    pub asked : req.amount_usd ≡ finite amount
    pub positive : pos 0 <ℤ amount
    pub bounded : amount ≤ℤ max_idem_amount
    pub named : str_eq (trim_space req.idempotency_key) "" ≡ false
    pub fresh : select_key (trim_space req.idempotency_key) d ≡ none
    pub found : select_balance req.workspace_id d ≡ some bal
    pub replayed : res.replayed ≡ false
    pub charged : res.charged_usd ≡ idem_moved kind bal amount req.max_overdraft_usd
    pub new_balance :
        res.new_balance_usd
        ≡ bal +ℤ idem_delta kind (idem_moved kind bal amount req.max_overdraft_usd)
    pub effect :
        ((res.charged_usd ≡ pos 0) × (res.tx_id ≡ 0) × (d' ≡ d))
        ⊎ ((res.charged_usd ≢ pos 0)
            × (res.tx_id ≡ d.wallet_tx.seq + 1)
            × Posts
                (idem_row req
                  (trim_space req.idempotency_key)
                  kind
                  (idem_delta kind (idem_moved kind bal amount req.max_overdraft_usd))
                  now)
                bal
                d
                d')

abbrev pub IdemEnds : IdemChargeReq → TxKind → Env → Db → Result IdemChargeResult × Db → Type 0
IdemEnds req kind env d (err e, d') = d' ≡ d
IdemEnds req kind env d (ok res, d') = Replays req kind d res d' ⊎ Settles req kind d res d' env.now

module _ {B : Type 0} (P : Result B × Session → Type 0) (req : IdemChargeReq) (key : String)
    (amount : ℤ) (kind : TxKind) where
  find_idem_row_step :
      (k : Option IdemChargeResult → Sql B) (s : Session)
      → ((c : ℕ) → select_key key s.work ≡ none → P (k none (record s { clock = c })))
      → ((row : WalletTx) (live : Option ℤ) (c : ℕ)
          → select_key key s.work ≡ some row
          → mismatches req kind row ≡ false
          → P (k (some (replay_of amount kind row live)) (record s { clock = c })))
      → ((e : Error) (c : ℕ) → P (err e, record s { clock = c }))
      → P ((find_idem_row req key amount kind >>= k) s)
  unfolding find_idem_row describe_row
  find_idem_row_step k s unused used failed =
      bind_step P _ k s (query_step F _ _ s (go (select_key key s.work) refl _) (failed _ _))
    where
      F : Result (Option IdemChargeResult) × Session → Type 0
      F rt = P (follow k rt)

      go :
          (o : Option WalletTx)
          → select_key key s.work ≡ o
          → (c : ℕ) → F (describe_row req amount kind o (record s { clock = c }))
      go none e c = pure_end F _ _ (unused c e)
      go (some row) e c =
          raise_if_step F _ _ _ _
            (λ same.
              query_step F _ _ _
                (pure_end F _ _ (used row (select_balance row.workspace_id s.work) _ e same))
                (failed _ _))
            (failed _ _)

module _ (req : IdemChargeReq) (kind : TxKind) (env : Env) (d : Db) (amount : ℤ)
    (asked : req.amount_usd ≡ finite amount) (R : Result IdemChargeResult × Session → Type 0)
    (done : (res : IdemChargeResult) (d' : Db) (c : ℕ)
      → Settles req kind d res d' env.now
      → R (ok res, record (enter env d') { clock = c }))
    (failed : (e : Error) (c : ℕ) → R (err e, record (enter env d) { clock = c })) where
  settle_or_replay-ends :
      str_eq (trim_space req.idempotency_key) "" ≡ false
      → pos 0 <ℤ amount
      → amount ≤ℤ max_idem_amount
      → select_key (trim_space req.idempotency_key) d ≡ none
      → (c : ℕ)
      → Undone R (
          settle_or_replay req
            (trim_space req.idempotency_key)
            amount
            kind
            none
            (record (enter env d) { clock = c }))
  unfolding settle_or_replay insert_ledger_tx set_balance
  settle_or_replay-ends named positive bounded fresh c =
      query_step T _ _ _
        (or_raise_step T _ _ _ _
          (λ bal found.
            branch_step T _ _ _ _
              (λ is_zero. pure_end T _ _ (
                done _ _ _ (record {
                  amount = amount;
                  bal = bal;
                  asked = asked;
                  positive = positive;
                  bounded = bounded;
                  named = named;
                  fresh = fresh;
                  found = found;
                  replayed = refl;
                  charged = ground arith;
                  new_balance = refl;
                  effect = inl (refl, refl, refl);
                })))
              (λ nonzero. gets_step T _ _ _ (
                exec__step T _ _ _
                  (exec_step T _ _ _
                    (λ id d' inserted.
                      commit_step T _ _
                        (pure_end T _ _ (
                          done _ _ _ (record {
                            amount = amount;
                            bal = bal;
                            asked = asked;
                            positive = positive;
                            bounded = bounded;
                            named = named;
                            fresh = fresh;
                            found = found;
                            replayed = refl;
                            charged = refl;
                            new_balance = refl;
                            effect = inr (
                              ground arith,
                              insert_tx-id _ _ d' id inserted,
                              record { found = found; after = insert_tx-ok _ _ d' id inserted },
                            );
                          })))
                        (failed _ _))
                    (λ e. failed _ _))
                  (failed _ _))))
          (failed _ _))
        (failed _ _)
    where
      T : Result IdemChargeResult × Session → Type 0
      T = Undone R

module _ (req : IdemChargeReq) (kind : TxKind) (env : Env) (d : Db) where
  Ends : Result IdemChargeResult × Session → Type 0
  Ends rt = IdemEnds req kind env d (leave rt)

  race :
      (amount : ℤ) (e : Error) (c : ℕ)
      → Ends (
          after_race req
            (trim_space req.idempotency_key)
            amount
            kind
            e
            (record (enter env d) { clock = c }))
  unfolding Ends after_race raise
  race amount unique_violation c =
      find_idem_row_step Ends req (trim_space req.idempotency_key) amount kind _ _
        (λ c' _. or_raise_end Ends none _ _ (λ b e. cc) refl)
        (λ row live c' settled same.
          or_raise_end Ends (some (replay_of amount kind row live)) _ _
            (λ b e. inl (record {
              row = row;
              settled = settled;
              same = same;
              replayed = ground arith;
              tx_id = ground arith;
              charged = ground arith;
              unchanged = refl;
            }))
            refl)
        (λ e c'. refl)
  race amount _ c = refl

  once_or_race :
      (amount : ℤ)
      → str_eq (trim_space req.idempotency_key) "" ≡ false
      → req.amount_usd ≡ finite amount
      → (c : ℕ) → Ends (wallet_idem_finite req kind amount (record (enter env d) { clock = c }))
  unfolding Ends wallet_idem_finite wallet_idem_once settle_or_replay pure
  once_or_race amount named asked c =
      raise_if_step Ends _ _ _ _
        (λ positive.
          raise_if_step Ends _ _ _ _
            (λ bounded. catch_end Ends _ _ _ (
              transact_step R _ _
                (find_idem_row_step (Undone R) req (trim_space req.idempotency_key) amount kind _ _
                  (λ c' fresh.
                    settle_or_replay-ends req kind env d amount asked R (λ res d' c s. inr s)
                      (race amount) named (ground arith) (ground arith) fresh c')
                  (λ row live c' settled same.
                    let replay : Replays req kind d (replay_of amount kind row live) d = record {
                      row = row;
                      settled = settled;
                      same = same;
                      replayed = refl;
                      tx_id = refl;
                      charged = refl;
                      unchanged = refl;
                    } in
                    inl replay)
                  (race amount))
                (race amount _ _)))
            refl)
        refl
    where
      R : Result IdemChargeResult × Session → Type 0
      R rt = Ends (recover (after_race req (trim_space req.idempotency_key) amount kind) rt)

  -- Whatever statement fails, an idempotent movement fails and leaves the database as it was,
  -- reports the row that has its key and leaves the database as it was, or settles a key that had
  -- no row, of a finite positive amount within the ceiling, by one balanced movement that carries
  -- the key (none, if the movement is clamped to nothing).
  pub wallet_idem-ends : IdemEnds req kind env d (run (wallet_idem req kind) env d)
  unfolding wallet_idem run Ends raise
  wallet_idem-ends =
      raise_if_step Ends _ _ _ _
        (λ named. raise_if_step Ends _ _ _ _ (λ _. go named req.amount_usd refl) refl) refl
    where
      go :
          str_eq (trim_space req.idempotency_key) "" ≡ false
          → (a : Amount) → req.amount_usd ≡ a
          → Ends (finite_or req kind a (enter env d))
      go named (finite a) e = once_or_race a named e 0
      go named not_a_number e = refl
      go named infinite e = refl

-- An idempotent movement keeps every balance equal to the sum of its ledger rows.
pub wallet_idem-IsBalanced :
    (req : IdemChargeReq) (kind : TxKind) (env : Env) (d : Db)
    → IsBalanced d
    → IsBalanced (run (wallet_idem req kind) env d).1
wallet_idem-IsBalanced req kind env d v =
    go (run (wallet_idem req kind) env d) (wallet_idem-ends req kind env d)
  where
    go : (end : Result IdemChargeResult × Db) → IdemEnds req kind env d end → IsBalanced end.1
    go (err e, d') same = rw same v
    go (ok res, d') (inl r) = rw r.unchanged v
    go (ok res, d') (inr s) = elim s.effect [
      | inl (_, _, same) ↦ rw same v
      | inr (_, _, posts) ↦ Posts-IsBalanced posts v
    ]
