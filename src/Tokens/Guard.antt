-- ===== src/Tokens/Guard.antt =====
-- An administrator of a workspace changes the tokens of that workspace only.
use hypitoken.Prelude.{
  ℕ, ◌==◌, ◌≡◌, refl, false, List, String, ℤ, arith, first_where, first_where-update, update_where,
  some,
}
use hypitoken.Store.Schema.{Db, UserToken}
use hypitoken.Store.Sql.{Env, Result, Session, run, leave}
use hypitoken.Store.Rules.{pure_end, raise_if_step, last}
use hypitoken.Store.Autocommit.{autocommit_ok_step}
use hypitoken.Tokens.{is_token, is_bound, set_token_admin_monthly_cap, set_token_tags}

-- What an administrator of a workspace asks for.
pub data AdminCall : Type 0 where
  cap_token : ℕ → ℤ → AdminCall
  tag_token : ℕ → List String → AdminCall

unfoldable pub admin_step : ℕ → AdminCall → Env → Db → Db
admin_step ws (cap_token id cap) env d = (run (set_token_admin_monthly_cap id ws cap) env d).1
admin_step ws (tag_token id tags) env d = (run (set_token_tags id ws tags) env d).1

module _ (ws : ℕ) (env : Env) (d : Db) (id : ℕ) (t : UserToken)
    (there : first_where (is_token id) d.user_tokens.rows ≡ some t)
    (elsewhere : (t.workspace_id == ws) ≡ false) where
  abbrev Kept : {A : Type 0} → Result A × Session → Type 0
  Kept x = first_where (is_token id) (leave x).1.user_tokens.rows ≡ some t

  kept_by :
      (other : ℕ) (f : UserToken → UserToken)
      → ((u : UserToken) → (f u).id ≡ u.id)
      → first_where (is_token id) (update_where (is_bound other ws) f d.user_tokens.rows) ≡ some t
  kept_by other f same =
      first_where-update (is_token id) (is_bound other ws) f (λ u h. let e = same u in ground arith)
        d.user_tokens.rows t there (ground arith)

  -- Whatever an administrator of a workspace asks for and whichever statements fail, a token that is
  -- bound to another workspace keeps its row.
  pub other_tokens_kept :
      (c : AdminCall) → first_where (is_token id) (admin_step ws c env d).user_tokens.rows ≡ some t
  unfolding admin_step set_token_admin_monthly_cap set_token_tags run
  other_tokens_kept (cap_token other cap) =
      autocommit_ok_step Kept _ _ _
        (last Kept _ _ (
          raise_if_step Kept _ _ _ _ (λ _. pure_end Kept _ _ (kept_by other _ (λ u. refl)))
            (kept_by other _ (λ u. refl))))
        (λ e. there)
  other_tokens_kept (tag_token other tags) =
      autocommit_ok_step Kept _ _ _
        (last Kept _ _ (
          raise_if_step Kept _ _ _ _ (λ _. pure_end Kept _ _ (kept_by other _ (λ u. refl)))
            (kept_by other _ (λ u. refl))))
        (λ e. there)
