-- ===== src/Tests/Accounts.antt =====
-- The properties of handoff codes, tokens and invitations at the small bank.
use hypitoken.Prelude.{
  ◌≤◌, ◌≡◌, refl, true, ◌||◌, some, List, [], ◌∷◌, String, arith, length, All, str_eq, trim_space,
  first_where, count_where, exists_where, if◌then◌else◌,
}
use hypitoken.Store.Schema.{WorkspaceInvite}
use hypitoken.Store.Sql.{all_up, Env, ok, run, ◌>>=◌}
use hypitoken.Sso.{redeem_sso_code, redeem_hashed, use_code}
use hypitoken.Sso.Redeem.{RedeemEnds, redeem_sso_code-ends}
use hypitoken.Sso.Once.{SsoCall, mints, prunes, sso_after, IsOther, redeemed_once}
use hypitoken.Tokens.{is_token, max_token_tags, sanitize_tags, rune_count, rune_prefix}
use hypitoken.Tokens.Tags.{IsTag, sanitize_tags-bounds}
use hypitoken.Tokens.Guard.{admin_step, tag_token, other_tokens_kept}
use hypitoken.Invites.{granted_role, is_invite, accepted_by, accept_workspace_invite}
use hypitoken.Invites.Accept.{role_of, accepted_is_member}
use hypitoken.Workspaces.{upsert_member_row}
use hypitoken.Tests.{bank, token, invite}

-- a hash for the examples, which forgets nothing but the name of the stored code
abbrev hash : String → String
hash s = if str_eq s "raw" then "h" else s

redeems_raw :
    run (redeem_sso_code hash "raw") (all_up 5) bank
    ≡ (ok (1, "https://hub"), (run (redeem_sso_code hash "raw") (all_up 5) bank).1)
unfolding run redeem_sso_code ◌>>=◌ trim_space redeem_hashed first_where use_code count_where
redeems_raw = refl

redeem_example :
    RedeemEnds hash "other" (all_up 5) bank (run (redeem_sso_code hash "other") (all_up 5) bank)
redeem_example = redeem_sso_code-ends hash "other" (all_up 5) bank

abbrev later : List (SsoCall × Env)
later = (prunes 3, all_up 7) ∷ (mints (some "new") 1 "https://hub" 0, all_up 6) ∷ []

later-All : All (IsOther hash (hash (trim_space "raw"))) later
unfolding trim_space
later-All = (tt, (refl, tt))

redeemed_once_example :
    (run
        (redeem_sso_code hash "raw")
        (all_up 8)
        (sso_after hash later (run (redeem_sso_code hash "raw") (all_up 5) bank).1)).0
      ≡ ok (1, "https://hub")
    → ⊥
redeemed_once_example =
    redeemed_once hash "raw" (all_up 5) (all_up 8) bank _ (1, "https://hub") (1, "https://hub")
      later (omega arith) redeems_raw later-All

tags_example :
    (length (sanitize_tags ("a" ∷ " a " ∷ "" ∷ [])) ≤ max_token_tags)
    × All IsTag (sanitize_tags ("a" ∷ " a " ∷ "" ∷ []))
tags_example = sanitize_tags-bounds ("a" ∷ " a " ∷ "" ∷ [])

-- two tags that share their first 32 characters are stored as the same tag twice
same_tag_twice :
    sanitize_tags ("0123456789012345678901234567890123" ∷ "0123456789012345678901234567890145" ∷ [])
    ≡ "01234567890123456789012345678901" ∷ "01234567890123456789012345678901" ∷ []
unfolding sanitize_tags trim_space exists_where rune_count rune_prefix
same_tag_twice = refl

second_token : first_where (is_token 2) bank.user_tokens.rows ≡ some (token 2 2)
unfolding first_where
second_token = refl

kept_example :
    first_where
      (is_token 2)
      (admin_step 1 (tag_token 2 ("x" ∷ [])) (all_up 5) bank).user_tokens.rows
    ≡ some (token 2 2)
kept_example =
    other_tokens_kept 1 (all_up 5) bank 2 (token 2 2) second_token refl (tag_token 2 ("x" ∷ []))

accepts :
    run (accept_workspace_invite invite 2) (all_up 5) bank
    ≡ (ok tt, (run (accept_workspace_invite invite 2) (all_up 5) bank).1)
unfolding run accept_workspace_invite ◌>>=◌ upsert_member_row exists_where
accepts = refl

accepted_example :
    (role_of 2 2 (run (accept_workspace_invite invite 2) (all_up 5) bank).1
      ≡ some (granted_role "admin"))
    × ((str_eq (granted_role "admin") "admin" || str_eq (granted_role "admin") "member") ≡ true)
    × ((i : WorkspaceInvite)
        → first_where (is_invite 1) bank.workspace_invites.rows ≡ some i
        → first_where
            (is_invite 1)
            (run (accept_workspace_invite invite 2) (all_up 5) bank).1.workspace_invites.rows
          ≡ some (accepted_by 2 i))
accepted_example = accepted_is_member invite 2 (all_up 5) bank _ accepts
