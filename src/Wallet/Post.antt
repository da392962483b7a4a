-- ===== src/Wallet/Post.antt =====
-- One balanced movement of the ledger: a workspace's balance and one row, and what it keeps.
use hypitoken.Prelude.{
  ℕ, ◌+◌, ◌≤◌, ◌≡◌, refl, ap, Bool, some, List, [], ◌∷◌, ◌++◌, arith, ℤ, pos, ◌+ℤ◌, int_laws, ◌==◌,
  if◌then◌else◌, first_where, update_where, All, All-append, inl, inr, Option-cases, sym, ◌∙◌,
}
use hypitoken.Store.Schema.{Db, Workspace, WalletTx}
use hypitoken.Store.Ledger.{
  LedgerRow, to_tx, append_tx, select_balance, set_balance, sum_where, of_workspace, IsBalanced,
}

-- `d'` is `d` after the workspace of `row`, which had `bal`, has moved by the row's amount, and
-- `row` is recorded.
pub record Posts (row : LedgerRow) (bal : ℤ) (d d' : Db) : Type 0 where
  pub found : select_balance row.workspace_id d ≡ some bal
  pub after :
      d' ≡ append_tx row (set_balance row.workspace_id (bal +ℤ row.amount_usd) row.created_at d)

pub sum_where-append :
    (p : WalletTx → Bool) (ts : List WalletTx) (t : WalletTx)
    → sum_where p (ts ++ t ∷ []) ≡ sum_where p ts +ℤ (if p t then t.amount_usd else pos 0)
unfolding sum_where
sum_where-append p [] t = omega int_laws
sum_where-append p (u ∷ ts) t = rw (sum_where-append p ts t) (omega int_laws)

abbrev Sums : List WalletTx → List Workspace → Type 0
Sums ts = All (λ (w : Workspace). w.balance_usd ≡ sum_where (of_workspace w.id) ts)

abbrev Issued : ℕ → List Workspace → Type 0
Issued n = All (λ (w : Workspace). w.id ≤ n)

abbrev set_row : ℤ → ℕ → Workspace → Workspace
set_row bal now w = record w { balance_usd = bal; updated_at = now }

-- the row that was found has the sum of the ledger
first_where-sum :
    (ws : ℕ) (w : Workspace) (ts : List WalletTx) (rows : List Workspace)
    → Sums ts rows
    → first_where (λ v. v.id == ws) rows ≡ some w
    → w.balance_usd ≡ sum_where (of_workspace ws) ts
unfolding first_where
first_where-sum ws w ts [] h e = cc
first_where-sum ws w ts (x ∷ rows) h e = ground (arith, first_where-sum ws w ts rows h.1)

module _ (ws : ℕ) (bal δ : ℤ) (now : ℕ) (ts : List WalletTx) (t : WalletTx)
    (here : t.workspace_id ≡ ws) (amount : t.amount_usd ≡ δ)
    (old : bal ≡ sum_where (of_workspace ws) ts) where
  update-Sums :
      (rows : List Workspace)
      → Sums ts rows
      → Sums (ts ++ t ∷ []) (update_where (λ v. v.id == ws) (set_row (bal +ℤ δ) now) rows)
  unfolding update_where
  update-Sums [] h = tt
  update-Sums (x ∷ rows) h = (
    ground (
      arith,
      sum_where-append (of_workspace x.id) ts t,
      ap (λ (z : ℤ). z +ℤ pos 0) h.0,
      zero_r (sum_where (of_workspace x.id) ts),
    ),
    update-Sums rows h.1,
  )
    where
      zero_r : (z : ℤ) → z +ℤ pos 0 ≡ z
      zero_r z = omega int_laws

update-Issued :
    (ws n : ℕ) (bal : ℤ) (now : ℕ) (rows : List Workspace)
    → Issued n rows
    → Issued n (update_where (λ v. v.id == ws) (set_row bal now) rows)
unfolding update_where
update-Issued ws n bal now [] h = tt
update-Issued ws n bal now (x ∷ rows) h = (ground arith, update-Issued ws n bal now rows h.1)

-- the workspace of a found balance has been issued
first_where-Issued :
    (ws n : ℕ) (w : Workspace) (rows : List Workspace)
    → Issued n rows
    → first_where (λ v. v.id == ws) rows ≡ some w
    → ws ≤ n
unfolding first_where
first_where-Issued ws n w [] h e = cc
first_where-Issued ws n w (x ∷ rows) h e = ground (arith, first_where-Issued ws n w rows h.1)

-- A balanced movement keeps every balance equal to the sum of its ledger rows.
pub Posts-IsBalanced :
    {row : LedgerRow} {bal : ℤ} {d d' : Db} → Posts row bal d d' → IsBalanced d → IsBalanced d'
unfolding select_balance set_balance
Posts-IsBalanced {row} {bal} {d} p v =
    elim (Option-cases (first_where (λ w. w.id == row.workspace_id) d.workspaces.rows)) [
      | inl missing ↦ absurd (ground (arith, p.found))
      | inr (w, e) ↦
          let same : w.balance_usd ≡ bal = ground (arith, p.found) in
          let old : bal ≡ sum_where (of_workspace row.workspace_id) d.wallet_tx.rows =
            sym same ∙ first_where-sum _ w _ d.workspaces.rows v.sums e in
          rw p.after (record {
            sums =
                update-Sums row.workspace_id bal row.amount_usd row.created_at d.wallet_tx.rows
                  (to_tx (d.wallet_tx.seq + 1) row) refl refl old d.workspaces.rows v.sums;
            issued = update-Issued row.workspace_id d.workspaces.seq _ _ d.workspaces.rows v.issued;
            known =
                All-append (λ (t : WalletTx). t.workspace_id ≤ d.workspaces.seq) d.wallet_tx.rows _
                  v.known (first_where-Issued _ _ w d.workspaces.rows v.issued e, tt);
          })
    ]
