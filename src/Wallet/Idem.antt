-- ===== src/Wallet/Idem.antt =====
-- internal/saas/db/wallet_idem.go: wallet movements that a caller in another process may retry.
pub mod Settle
pub mod Once
pub mod Complete
use hypitoken.Prelude.{
  ℕ, ◌*◌, Bool, true, false, Option, none, some, List, [], ◌∷◌, String, ◌&&◌, ◌||◌, not, ℤ, pos,
  ◌+ℤ◌, neg_ℤ, ltb_ℤ, leb_ℤ, eq_ℤ, abs_ℤ, ◌==◌, str_eq, trim_space, if◌then◌else◌, first_where,
  rows_where,
}
use hypitoken.Store.Schema.{Db, WalletTx, TxKind, charge, refund, kind_rank, ChargeMeta}
use hypitoken.Store.Sql.{
  Error, unique_violation, not_found, idem_conflict, key_required, workspace_required,
  amount_not_positive, amount_over_ceiling, Result, ok, err, Sql, pure, raise, gets, or_raise,
  query, branch, ◌>>=◌, ◌>>◌, raise_if, catch, exec, exec_, commit, transact,
}
use hypitoken.Store.Ledger.{LedgerRow, select_balance, set_balance, has_key}
use hypitoken.Wallet.{clamp_charge, insert_ledger_tx}

-- A float64 that a caller sent: the checks tell the finite ones from the others.
pub data Amount : Type 0 where
  finite : ℤ → Amount
  not_a_number infinite : Amount

abbrev pub usd : ℕ → ℤ
usd n = pos (n * 100_000_000)

-- maxIdemAmountUSD
abbrev pub max_idem_amount : ℤ
max_idem_amount = usd 1000

pub record IdemChargeReq : Type 0 where
  pub idempotency_key : String
  pub product : String
  pub workspace_id : ℕ
  pub user_id : ℕ
  pub amount_usd : Amount
  pub ref : String
  pub note : String
  pub max_overdraft_usd : ℤ
  pub meta : ChargeMeta

pub record IdemChargeResult : Type 0 where
  pub tx_id : ℕ
  pub charged_usd : ℤ
  pub new_balance_usd : ℤ
  pub clamped : Bool
  pub replayed : Bool

abbrev pub is_charge : TxKind → Bool
is_charge k = kind_rank k == kind_rank charge

-- A replay must describe the same movement.
abbrev pub mismatches : IdemChargeReq → TxKind → WalletTx → Bool
mismatches req kind t =
    not (kind_rank t.kind == kind_rank kind)
    || not (t.workspace_id == req.workspace_id)
    || (not (req.user_id == 0) && not (t.user_id == req.user_id))

abbrev pub balance_or_zero : Option ℤ → ℤ
balance_or_zero none = pos 0
balance_or_zero (some b) = b

abbrev pub replay_of : ℤ → TxKind → WalletTx → Option ℤ → IdemChargeResult
replay_of amount kind t live = record {
  tx_id = t.id;
  charged_usd = abs_ℤ t.amount_usd;
  new_balance_usd = balance_or_zero live;
  clamped = is_charge kind && ltb_ℤ (abs_ℤ t.amount_usd) amount;
  replayed = true;
}

-- The second half of findIdemRow, on the row that the first query found.
unfoldable pub describe_row :
    IdemChargeReq → ℤ → TxKind → Option WalletTx → Sql (Option IdemChargeResult)
describe_row req amount kind none = pure none
describe_row req amount kind (some t) = do
  raise_if (mismatches req kind t) idem_conflict
  live ← query (select_balance t.workspace_id)
  pure (some (replay_of amount kind t live))

-- SELECT … FROM wallet_tx WHERE idem_key = ? AND idem_key <> ''
unfoldable pub select_key : String → Db → Option WalletTx
select_key key d = first_where (has_key key) d.wallet_tx.rows

-- findIdemRow; `key` is the trimmed key and `amount` the amount that passed the checks.
unfoldable pub find_idem_row : IdemChargeReq → String → ℤ → TxKind → Sql (Option IdemChargeResult)
find_idem_row req key amount kind = do
  row ← query (select_key key)
  describe_row req amount kind row

abbrev pub idem_moved : TxKind → ℤ → ℤ → ℤ → ℤ
idem_moved kind bal amount max_overdraft =
    if is_charge kind then clamp_charge bal amount max_overdraft else amount

abbrev pub idem_delta : TxKind → ℤ → ℤ
idem_delta kind moved = if is_charge kind then neg_ℤ moved else moved

abbrev pub idem_row : IdemChargeReq → String → TxKind → ℤ → ℕ → LedgerRow
idem_row req key kind delta now = record {
  user_id = req.user_id;
  workspace_id = req.workspace_id;
  kind = kind;
  amount_usd = delta;
  ref = req.ref;
  note = req.note;
  created_at = now;
  meta = req.meta;
  idem_key = key;
  product = req.product;
}

-- The rest of walletIdemOnce, after the replay lookup.
unfoldable pub settle_or_replay :
    IdemChargeReq → String → ℤ → TxKind → Option IdemChargeResult → Sql IdemChargeResult
settle_or_replay req key amount kind (some replay) = pure replay
settle_or_replay req key amount kind none = do
  found ← query (select_balance req.workspace_id)
  bal ← or_raise found not_found
  let moved = idem_moved kind bal amount req.max_overdraft_usd
  let clamped = is_charge kind && ltb_ℤ moved amount
  let new_bal = bal +ℤ idem_delta kind moved
  branch (eq_ℤ moved (pos 0))
      (pure (record {
        tx_id = 0;
        charged_usd = pos 0;
        new_balance_usd = new_bal;
        clamped = clamped;
        replayed = false;
      }))
      do
        now ← gets (λ s. s.env.now)
        exec_ (set_balance req.workspace_id new_bal now)
        tx_id ← insert_ledger_tx (idem_row req key kind (idem_delta kind moved) now)
        commit
        pure (record {
          tx_id = tx_id;
          charged_usd = moved;
          new_balance_usd = new_bal;
          clamped = clamped;
          replayed = false;
        })

-- walletIdemOnce
unfoldable pub wallet_idem_once : IdemChargeReq → String → ℤ → TxKind → Sql IdemChargeResult
wallet_idem_once req key amount kind =
    transact
      do replay ← find_idem_row req key amount kind; settle_or_replay req key amount kind replay

-- The end of walletIdem: a caller that lost the insert race reads the winner's row back.
unfoldable pub after_race : IdemChargeReq → String → ℤ → TxKind → Error → Sql IdemChargeResult
after_race req key amount kind unique_violation = do
  replay ← find_idem_row req key amount kind
  or_raise replay unique_violation
after_race req key amount kind e = raise e

-- walletIdem on an amount that passed math.IsNaN and math.IsInf
unfoldable pub wallet_idem_finite : IdemChargeReq → TxKind → ℤ → Sql IdemChargeResult
wallet_idem_finite req kind amount = do
  let key = trim_space req.idempotency_key
  raise_if (leb_ℤ amount (pos 0)) amount_not_positive
  raise_if (ltb_ℤ max_idem_amount amount) amount_over_ceiling
  catch (wallet_idem_once req key amount kind) (after_race req key amount kind)

abbrev pub finite_or : IdemChargeReq → TxKind → Amount → Sql IdemChargeResult
finite_or req kind (finite a) = wallet_idem_finite req kind a
finite_or req kind not_a_number = raise amount_not_positive
finite_or req kind infinite = raise amount_not_positive

-- walletIdem
unfoldable pub wallet_idem : IdemChargeReq → TxKind → Sql IdemChargeResult
wallet_idem req kind = do
  raise_if (str_eq (trim_space req.idempotency_key) "") key_required
  raise_if (req.workspace_id == 0) workspace_required
  finite_or req kind req.amount_usd

-- ChargeWorkspaceIdem
unfoldable pub charge_workspace_idem : IdemChargeReq → Sql IdemChargeResult
charge_workspace_idem req = wallet_idem req charge

-- CreditWorkspaceIdem
unfoldable pub credit_workspace_idem : IdemChargeReq → Sql IdemChargeResult
credit_workspace_idem req = wallet_idem req refund

abbrev is_wanted : List String → WalletTx → Bool
is_wanted [] t = false
is_wanted (k ∷ ks) t = (not (str_eq (trim_space k) "") && has_key k t) || is_wanted ks t

abbrev settled_entries : List WalletTx → List (String × ℤ)
settled_entries [] = []
settled_entries (t ∷ ts) = (t.idem_key, abs_ℤ t.amount_usd) ∷ settled_entries ts

-- SettledIdemKeys: the map as its entries.
unfoldable pub settled_idem_keys : List String → Sql (List (String × ℤ))
settled_idem_keys keys = query (λ d. settled_entries (rows_where (is_wanted keys) d.wallet_tx.rows))
