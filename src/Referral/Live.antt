-- ===== src/Referral/Live.antt =====
-- internal/saas/referral/campaigns.go: the campaign that is live, and its tiers.
use hypitoken.Prelude.{
  ℕ, ◌==◌, Bool, not, Option, none, some, List, [], ◌∷◌, ◌&&◌, ltb, str_eq, if◌then◌else◌,
  rows_where, sort_by,
}
use hypitoken.Store.Schema.{Campaign, Tier}
use hypitoken.Store.Sql.{not_found, Sql, gets, or_raise, query, ◌>>=◌}

-- activeNow
unfoldable pub active_now : ℕ → Campaign → Bool
active_now now c =
    str_eq c.status "active"
    && not (ltb 0 c.starts_at && ltb now c.starts_at)
    && not (ltb 0 c.ends_at && ltb c.ends_at now)

-- The loop of ActiveCampaign over the campaigns, the newest first.
unfoldable pub pick_campaign : ℕ → Option Campaign → List Campaign → Option Campaign
pick_campaign now fallback [] = fallback
pick_campaign now none (c ∷ cs) =
    let rest = pick_campaign now (some c) cs in if active_now now c then some c else rest
pick_campaign now (some f) (c ∷ cs) =
    let rest = pick_campaign now (some (if str_eq c.slug "default" then c else f)) cs in
    if active_now now c then some c else rest

-- ActiveCampaign
unfoldable pub active_campaign : Sql Campaign
active_campaign = do
  rows ← query (λ d. sort_by (λ (a b : Campaign). ltb a.id b.id) d.referral_campaigns.rows)
  now ← gets (λ s. s.env.now)
  or_raise (pick_campaign now none rows) not_found

-- ListTiers
unfoldable pub list_tiers : ℕ → Sql (List Tier)
list_tiers campaign = query (λ d.
    sort_by (λ (a b : Tier). ltb b.threshold a.threshold)
      (rows_where (λ (t : Tier). t.campaign_id == campaign) d.referral_tiers.rows))
