-- ===== src/Referral/Campaigns.antt =====
-- internal/saas/referral/campaigns.go: the edits of campaigns and of their milestone tiers.
use hypitoken.Prelude.{
  ℕ, ◌+◌, ◌==◌, Bool, not, List, [], ◌∷◌, ◌++◌, String, ◌||◌, ℤ, pos, leb_ℤ, ltb, str_eq,
  if◌then◌else◌, first_where, rows_where, update_where, exists_where, count_where, sort_by,
}
use hypitoken.Store.Schema.{Db, Campaign, Tier}
use hypitoken.Store.Sql.{
  driver, not_found, unique_violation, foreign_key_violation, Result, ok, err, Sql, gets, or_raise,
  raise_if, query, exec, exec_, autocommit, ◌>>=◌, ◌>>◌,
}

abbrev pub is_campaign : ℕ → Campaign → Bool
is_campaign id c = c.id == id

-- GetCampaign
unfoldable pub get_campaign : ℕ → Sql Campaign
get_campaign id = do
  found ← query (λ d. first_where (is_campaign id) d.referral_campaigns.rows)
  or_raise found not_found

-- ListCampaigns, the newest first
unfoldable pub list_campaigns : Sql (List Campaign)
list_campaigns = query (λ d. sort_by (λ (a b : Campaign). ltb a.id b.id) d.referral_campaigns.rows)

-- CampaignParams; the days of expiry are at zero or above
pub record CampaignParams : Type 0 where
  pub slug : String
  pub name : String
  pub kind : String
  pub status : String
  pub invitee_bonus_usd : ℤ
  pub inviter_bonus_usd : ℤ
  pub inviter_reward_on : String
  pub gift_expiry_days : ℕ
  pub max_gift_usd : ℤ
  pub max_rewarded_invites : ℕ
  pub daily_budget_usd : ℤ
  pub min_invitee_spend_usd : ℤ
  pub daily_invite_cap : ℕ
  pub starts_at : ℕ
  pub ends_at : ℕ
  pub headline : String
  pub subcopy : String
  pub variant_b : String

-- normalizeKind
unfoldable pub normalize_kind : String → String
normalize_kind k = if str_eq k "invite" || str_eq k "gift" || str_eq k "both" then k else "both"

-- normalizeStatus
unfoldable pub normalize_status : String → String
normalize_status st =
    if str_eq st "active" || str_eq st "paused" || str_eq st "ended" then st else "active"

-- normalizeRewardOn
unfoldable pub normalize_reward_on : String → String
normalize_reward_on r = if str_eq r "first_spend" then "first_spend" else "signup"

-- The default expiry, of 30 days.
abbrev pub expiry_or_default : ℕ → ℕ
expiry_or_default days = if days == 0 then 30 else days

-- The default largest gift, of `hundred` dollars.
abbrev pub max_or_default : ℤ → ℤ → ℤ
max_or_default hundred max = if leb_ℤ max (pos 0) then hundred else max

-- The fields that an edit sets, with one hundred dollars in the smallest unit.
unfoldable pub edited_campaign : ℤ → CampaignParams → ℕ → Campaign → Campaign
edited_campaign hundred p now old = record old {
  name = p.name;
  kind = normalize_kind p.kind;
  status = normalize_status p.status;
  invitee_bonus_usd = p.invitee_bonus_usd;
  inviter_bonus_usd = p.inviter_bonus_usd;
  inviter_reward_on = normalize_reward_on p.inviter_reward_on;
  gift_expiry_days = expiry_or_default p.gift_expiry_days;
  max_gift_usd = max_or_default hundred p.max_gift_usd;
  max_rewarded_invites = p.max_rewarded_invites;
  daily_budget_usd = p.daily_budget_usd;
  min_invitee_spend_usd = p.min_invitee_spend_usd;
  daily_invite_cap = p.daily_invite_cap;
  starts_at = p.starts_at;
  ends_at = p.ends_at;
  headline = p.headline;
  subcopy = p.subcopy;
  variant_b = p.variant_b;
  updated_at = now;
}

-- INSERT INTO referral_campaigns: the slug is unique.
unfoldable pub insert_campaign : (ℕ → Campaign) → Db → Result (ℕ × Db)
insert_campaign make d =
    let c = make (d.referral_campaigns.seq + 1) in
    if exists_where (λ (x : Campaign). str_eq x.slug c.slug) d.referral_campaigns.rows
    then err unique_violation
    else ok (
      c.id,
      record d {
        referral_campaigns = record { rows = d.referral_campaigns.rows ++ c ∷ []; seq = c.id };
      },
    )

-- what an edit sets the rest of
abbrev pub blank_campaign : String → ℕ → ℕ → Campaign
blank_campaign slug now id = record {
  id = id;
  slug = slug;
  name = "";
  kind = "";
  status = "";
  invitee_bonus_usd = pos 0;
  inviter_bonus_usd = pos 0;
  inviter_reward_on = "";
  gift_expiry_days = 0;
  max_gift_usd = pos 0;
  max_rewarded_invites = 0;
  daily_budget_usd = pos 0;
  min_invitee_spend_usd = pos 0;
  daily_invite_cap = 0;
  starts_at = 0;
  ends_at = 0;
  headline = "";
  subcopy = "";
  variant_b = "";
  created_at = now;
  updated_at = now;
}

-- CreateCampaign
unfoldable pub create_campaign : ℤ → CampaignParams → Sql Campaign
create_campaign hundred p = do
  now ← gets (λ s. s.env.now)
  id ←
      autocommit (
        exec (insert_campaign (λ id. edited_campaign hundred p now (blank_campaign p.slug now id))))
  get_campaign id

-- UpdateCampaign
unfoldable pub update_campaign : ℤ → ℕ → CampaignParams → Sql Campaign
update_campaign hundred id p = do
  get_campaign id
  now ← gets (λ s. s.env.now)
  autocommit (
      exec_ (λ d. record d {
        referral_campaigns = record (d.referral_campaigns) {
          rows =
              update_where (is_campaign id) (edited_campaign hundred p now)
                d.referral_campaigns.rows;
        };
      }))
  get_campaign id

abbrev pub is_tier : ℕ → Tier → Bool
is_tier id t = t.id == id

-- INSERT INTO referral_tiers: the campaign must be there.
unfoldable pub insert_tier : (ℕ → Tier) → Db → Result (ℕ × Db)
insert_tier make d =
    let t = make (d.referral_tiers.seq + 1) in
    if exists_where (is_campaign t.campaign_id) d.referral_campaigns.rows
    then ok (
      t.id,
      record d { referral_tiers = record { rows = d.referral_tiers.rows ++ t ∷ []; seq = t.id } },
    )
    else err foreign_key_violation

-- CreateTier
unfoldable pub create_tier : ℕ → ℕ → String → String → ℤ → String → Sql Tier
create_tier campaign threshold name card_style bonus badge = do
  now ← gets (λ s. s.env.now)
  id ← autocommit (
      exec (
        insert_tier (λ id. record {
          id = id;
          campaign_id = campaign;
          threshold = threshold;
          tier_name = name;
          card_style_unlock = card_style;
          bonus_usd = bonus;
          badge = badge;
          created_at = now;
        })))
  found ← query (λ d. first_where (is_tier id) d.referral_tiers.rows)
  or_raise found driver

-- DeleteTier
unfoldable pub delete_tier : ℕ → Sql (Unit {0})
delete_tier id = do
  n ← autocommit (
      exec (λ d. ok (
        count_where (is_tier id) d.referral_tiers.rows,
        record d {
          referral_tiers = record (d.referral_tiers) {
            rows = rows_where (λ t. not (is_tier id t)) d.referral_tiers.rows;
          };
        },
      )))
  raise_if (n == 0) not_found
