-- ===== src/Tests/Referral.antt =====
-- A redeem code that is minted from one draw of bytes, and a reward that is owed.
use hypitoken.Prelude.{
  map, rows_where, String, ℕ, ◌≡◌, refl, Option, some, List, [], ◌∷◌, exists_where, ◌⊎◌, pos, ◌+ℤ◌,
  false, first_where, update_where, count_where, sort_by,
}
use hypitoken.Store.Sql.{Env, Result, err, all_up, ok, run, query, ◌>>=◌}
use hypitoken.Referral.Codes.{
  new_redeem_code, format_redeem, normalize_redeem_code, mint_redeem_code, gift_code_taken,
  rand_string, char_at, char_count, has_prefix, grouped,
}
use hypitoken.Referral.RoundTrip.{shown_code_is_found}
use hypitoken.Referral.Rewards.{
  release_inviter_reward, reward_open, settle_reward, pay_inviter, reward_limits,
}
use hypitoken.Referral.Conversions.{mark_paid, cap_tripped}
use hypitoken.Referral.Live.{active_campaign, pick_campaign, list_tiers}
use hypitoken.Referral.Campaigns.{
  CampaignParams, create_campaign, insert_campaign, list_campaigns, get_campaign, edited_campaign,
}
use hypitoken.Referral.Once.{RewardCall, reward_after, released_once}
use hypitoken.Store.Schema.{Db, Conversion, Campaign, Tier}
use hypitoken.Store.Ledger.{select_balance, set_balance, insert_tx}
use hypitoken.Wallet.{
  add_balance, add_balance_tx, personal_workspace_id, select_home, add_workspace_balance_tx,
}
use hypitoken.Tests.{bank, table}

abbrev drawn : ℕ → Option (List ℕ)
drawn left = some (0 ∷ 33 ∷ 2 ∷ 3 ∷ 4 ∷ 5 ∷ 6 ∷ 7 ∷ 8 ∷ 9 ∷ 10 ∷ 11 ∷ 12 ∷ 13 ∷ 14 ∷ 255 ∷ [])

minted : run (new_redeem_code drawn) (all_up 5) bank ≡ (ok "HYPIABCDEFGHJKLMNPQ9", bank)
unfolding run new_redeem_code mint_redeem_code ◌>>=◌ gift_code_taken exists_where rand_string
    char_at char_count
minted = refl

shown : format_redeem "HYPIABCDEFGHJKLMNPQ9" ≡ "HYPI-ABCD-EFGH-JKLM-NPQ9"
unfolding format_redeem has_prefix char_count grouped
shown = refl

shown_code_is_found_example :
    normalize_redeem_code (λ c. c) (format_redeem "HYPIABCDEFGHJKLMNPQ9") ≡ "HYPIABCDEFGHJKLMNPQ9"
shown_code_is_found_example =
    shown_code_is_found (λ c. c) (λ c h. refl) drawn (all_up 5) bank bank "HYPIABCDEFGHJKLMNPQ9"
      minted

-- user 1 is owed 30 for user 2
abbrev owed : Conversion
owed = record {
  id = 1;
  campaign_id = 0;
  code = "abc";
  inviter_user_id = 1;
  invitee_user_id = 2;
  inviter_bonus_usd = pos 30;
  invitee_bonus_usd = pos 10;
  fraud = false;
  inviter_paid = false;
  created_at = 1;
}

abbrev owing : Db
owing = record bank { referral_conversions = table (owed ∷ []) 1 }

-- a release that is due pays the inviter
pays : select_balance 1 (run (release_inviter_reward 2) (all_up 5) owing).1 ≡ some (pos 530)
unfolding run release_inviter_reward ◌>>=◌ first_where reward_open reward_limits active_campaign
    pick_campaign sort_by cap_tripped settle_reward mark_paid count_where update_where pay_inviter
    add_balance add_balance_tx personal_workspace_id select_home add_workspace_balance_tx
    select_balance ◌+ℤ◌ insert_tx exists_where set_balance
pays = refl

abbrev between : List (RewardCall × Env)
between =
    (RewardCall.releases 2, all_up 7)
    ∷ (RewardCall.signs_up 0 "abc" 1 2 (pos 0) (pos 30) false false, all_up 6)
    ∷ []

released_once_example :
    ((run (release_inviter_reward 2) (all_up 5) owing).1 ≡ owing)
    ⊎ ((run
          (release_inviter_reward 2)
          (all_up 8)
          (reward_after between (run (release_inviter_reward 2) (all_up 5) owing).1)).1
        ≡ reward_after between (run (release_inviter_reward 2) (all_up 5) owing).1)
released_once_example = released_once 2 (all_up 5) (all_up 8) owing between

abbrev params : String → String → CampaignParams
params slug status = record {
  slug = slug;
  name = "";
  kind = "any";
  status = status;
  invitee_bonus_usd = pos 10;
  inviter_bonus_usd = pos 30;
  inviter_reward_on = "first_spend";
  gift_expiry_days = 0;
  max_gift_usd = pos 0;
  max_rewarded_invites = 0;
  daily_budget_usd = pos 0;
  min_invitee_spend_usd = pos 0;
  daily_invite_cap = 0;
  starts_at = 0;
  ends_at = 0;
  headline = "";
  subcopy = "";
  variant_b = "";
}

abbrev two_campaigns : Db
two_campaigns =
    (run (create_campaign (pos 1000) (params "b" "odd")) (all_up 2)
      (run (create_campaign (pos 1000) (params "a" "paused")) (all_up 1) bank).1).1

abbrev slugs : Result (List Campaign) → List String
slugs (ok cs) = map (λ (c : Campaign). c.slug) cs
slugs (err e) = []

-- the newest first
newest_first : slugs (run list_campaigns (all_up 3) two_campaigns).0 ≡ "b" ∷ "a" ∷ []
unfolding run list_campaigns create_campaign ◌>>=◌ insert_campaign exists_where sort_by get_campaign
    first_where edited_campaign query
newest_first = refl

abbrev tier : ℕ → Tier
tier threshold = record {
  id = threshold;
  campaign_id = 1;
  threshold = threshold;
  tier_name = "";
  card_style_unlock = "";
  bonus_usd = pos 0;
  badge = "";
  created_at = 0;
}

abbrev thresholds : Result (List Tier) → List ℕ
thresholds (ok ts) = map (λ (t : Tier). t.threshold) ts
thresholds (err e) = []

-- the lowest threshold first
lowest_first :
    thresholds
      (run
        (list_tiers 1)
        (all_up 3)
        (record bank { referral_tiers = table (tier 10 ∷ tier 1 ∷ tier 3 ∷ []) 3 })).0
    ≡ 1 ∷ 3 ∷ 10 ∷ []
unfolding run list_tiers rows_where sort_by query
lowest_first = refl
