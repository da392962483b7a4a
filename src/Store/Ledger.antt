-- ===== src/Store/Ledger.antt =====
-- The statements on workspaces and wallet_tx, and the sums over the ledger.
use hypitoken.Prelude.{
  ℕ, ◌+◌, ◌≤◌, ◌≡◌, Bool, Option, none, some, List, [], ◌∷◌, ◌++◌, String, ◌&&◌, not, ℤ, pos, ◌+ℤ◌,
  ◌==◌, str_eq, if◌then◌else◌, first_where, update_where, exists_where, All,
}
use hypitoken.Store.Schema.{Db, Workspace, WalletTx, TxKind, ChargeMeta, User}
use hypitoken.Store.Sql.{Result, ok, err, unique_violation, foreign_key_violation}

-- One wallet_tx insert, wallet.go's ledgerRow: the amount is signed.
pub record LedgerRow : Type 0 where
  pub user_id : ℕ
  pub workspace_id : ℕ
  pub kind : TxKind
  pub amount_usd : ℤ
  pub ref : String
  pub note : String
  pub created_at : ℕ
  pub meta : ChargeMeta
  pub idem_key : String
  pub product : String

abbrev pub no_meta : ChargeMeta
no_meta = record {
  token_id = 0;
  model = "";
  input_tokens = 0;
  output_tokens = 0;
  cache_read_tokens = 0;
  cache_create_tokens = 0;
}

abbrev pub to_tx : ℕ → LedgerRow → WalletTx
to_tx id r = record {
  id = id;
  user_id = r.user_id;
  workspace_id = r.workspace_id;
  kind = r.kind;
  amount_usd = r.amount_usd;
  ref = r.ref;
  note = r.note;
  created_at = r.created_at;
  meta = r.meta;
  idem_key = r.idem_key;
  product = r.product;
}

abbrev balance_row : Option Workspace → Option ℤ
balance_row none = none
balance_row (some w) = some w.balance_usd

-- SELECT balance_usd FROM workspaces WHERE id = ?
unfoldable pub select_balance : ℕ → Db → Option ℤ
select_balance ws d = balance_row (first_where (λ w. w.id == ws) d.workspaces.rows)

-- UPDATE workspaces SET balance_usd = ?, updated_at = ? WHERE id = ?
unfoldable pub set_balance : ℕ → ℤ → ℕ → Db → Db
set_balance ws bal now d = record d {
  workspaces = record (d.workspaces) {
    rows =
        update_where (λ w. w.id == ws) (λ w. record w { balance_usd = bal; updated_at = now })
          d.workspaces.rows;
  };
}

-- The partial unique index idx_wallet_tx_idem.
abbrev pub has_key : String → WalletTx → Bool
has_key k t = str_eq t.idem_key k && not (str_eq t.idem_key "")

abbrev pub append_tx : LedgerRow → Db → Db
append_tx r d = record d {
  wallet_tx = record {
    rows = d.wallet_tx.rows ++ to_tx (d.wallet_tx.seq + 1) r ∷ [];
    seq = d.wallet_tx.seq + 1;
  };
}

-- INSERT INTO wallet_tx, with its foreign key to users and its unique index; the result is the
-- identifier of the row.
unfoldable pub insert_tx : LedgerRow → Db → Result (ℕ × Db)
insert_tx r d =
    if not (exists_where (λ (u : User). u.id == r.user_id) d.users.rows)
    then err foreign_key_violation
    else if exists_where (has_key r.idem_key) d.wallet_tx.rows
    then err unique_violation
    else ok (d.wallet_tx.seq + 1, append_tx r d)

-- SELECT SUM(amount_usd) FROM wallet_tx WHERE p
unfoldable pub sum_where : (WalletTx → Bool) → List WalletTx → ℤ
sum_where p [] = pos 0
sum_where p (t ∷ ts) = (if p t then t.amount_usd else pos 0) +ℤ sum_where p ts

-- The movements of one workspace.
abbrev pub of_workspace : ℕ → WalletTx → Bool
of_workspace ws t = t.workspace_id == ws

-- Every workspace's balance is the sum of its ledger rows; the ledger names issued workspaces only.
pub record IsBalanced (d : Db) : Type 0 where
  pub sums :
      All
        (λ (w : Workspace). w.balance_usd ≡ sum_where (of_workspace w.id) d.wallet_tx.rows)
        d.workspaces.rows
  pub issued : All (λ (w : Workspace). w.id ≤ d.workspaces.seq) d.workspaces.rows
  pub known : All (λ (t : WalletTx). t.workspace_id ≤ d.workspaces.seq) d.wallet_tx.rows
