-- ===== src/Referral/Rewards.antt =====
-- internal/saas/referral/grant.go: the milestones, and the bonus of an inviter that waits for the
-- spending of the invitee.
use Prim.Native.String.{◌++◌ as append_text}
use hypitoken.Prelude.{
  ℕ, ◌==◌, Bool, true, false, not, List, [], ◌∷◌, ◌++◌, ◌&&◌, ℤ, pos, ltb_ℤ, ltb, if◌then◌else◌,
  first_where, exists_where,
}
use hypitoken.Store.Schema.{Db, Campaign, Tier, Conversion, MilestoneGrant, adjust}
use hypitoken.Store.Sql.{
  not_found, ok, Sql, pure, gets, or_raise, branch, attempt, query, exec, autocommit, ◌>>=◌, ◌>>◌,
}
use hypitoken.Wallet.{add_balance}
use hypitoken.Referral.Live.{active_now, active_campaign, list_tiers}
use hypitoken.Referral.Conversions.{
  is_owed, mark_paid, cap_tripped, count_qualified_invites, invitee_spend,
}

-- the primary key of referral_milestone_grants
abbrev pub is_grant : ℕ → ℕ → MilestoneGrant → Bool
is_grant user threshold g = g.user_id == user && g.threshold == threshold

abbrev pub granted : MilestoneGrant → Db → Db
granted g d = record d {
  referral_milestone_grants = record (d.referral_milestone_grants) {
    rows = d.referral_milestone_grants.rows ++ g ∷ [];
  };
}

-- INSERT OR IGNORE INTO referral_milestone_grants: whether a row was added.
unfoldable pub insert_grant_row : MilestoneGrant → Db → Bool × Db
insert_grant_row g d =
    if exists_where (is_grant g.user_id g.threshold) d.referral_milestone_grants.rows
    then (false, d)
    else (true, granted g d)

-- What checkMilestones does with a tier that is reached and not deferred; an error ends it.
unfoldable pub grant_tier : ℕ → Tier → Sql (Unit {0})
grant_tier inviter t = do
  now ← gets (λ s. s.env.now)
  is_new ← autocommit (
      exec (λ d. ok (
        insert_grant_row
          (record {
            user_id = inviter;
            threshold = t.threshold;
            tier_id = t.id;
            bonus_usd = t.bonus_usd;
            granted_at = now;
          })
          d)))
  branch (is_new && ltb_ℤ (pos 0) t.bonus_usd)
      (do
        add_balance inviter adjust t.bonus_usd (append_text "ref_tier:" t.tier_name)
            (append_text "邀请里程碑奖励: " t.tier_name) true
        pure tt)
      (pure tt)

-- The loop of checkMilestones.
unfoldable pub grant_tiers : ℕ → ℕ → ℤ → List Tier → Sql (Unit {0})
grant_tiers inviter reached budget [] = pure tt
grant_tiers inviter reached budget (t ∷ ts) = do
  branch (ltb reached t.threshold) (pure tt) (do
    deferred ← branch (ltb_ℤ (pos 0) t.bonus_usd) (cap_tripped budget) (pure false)
    branch deferred (pure tt) (attempt tt (grant_tier inviter t)))
  grant_tiers inviter reached budget ts

-- checkMilestones
unfoldable pub check_milestones : ℕ → Campaign → Sql (Unit {0})
check_milestones inviter camp = do
  reached ← count_qualified_invites inviter
  attempt tt do tiers ← list_tiers camp.id; grant_tiers inviter reached camp.daily_budget_usd tiers

abbrev limits_of : Campaign → ℤ × ℤ
limits_of camp = (camp.daily_budget_usd, camp.min_invitee_spend_usd)

-- The budget of the day and the spending of an invitee that is asked for; without a campaign there
-- is no limit.
unfoldable pub reward_limits : Sql (ℤ × ℤ)
reward_limits = attempt (pos 0, pos 0) (active_campaign >>= λ camp. pure (limits_of camp))

-- The gate of ReleaseInviterReward, for a bonus above zero: the budget of the day is not used up and
-- the invitee spent enough.
unfoldable pub reward_open : ℕ → Sql Bool
reward_open invitee = do
  limits ← reward_limits
  tripped ← cap_tripped limits.0
  branch tripped (pure false) (
      branch (ltb_ℤ (pos 0) limits.1)
        (invitee_spend invitee >>= λ spent. pure (not (ltb_ℤ spent limits.1))) (pure true))

-- ReleaseInviterReward after its update, when a row was changed; an error ends it.
unfoldable pub pay_inviter : Conversion → Sql (Unit {0})
pay_inviter c = do
  branch (ltb_ℤ (pos 0) c.inviter_bonus_usd)
      (do
        add_balance c.inviter_user_id adjust c.inviter_bonus_usd (append_text "ref_inviter:" c.code)
            "邀请好友首次消费奖励" true
        pure tt)
      (pure tt)
  camp ← active_campaign
  now ← gets (λ s. s.env.now)
  branch (active_now now camp) (check_milestones c.inviter_user_id camp) (pure tt)

-- ReleaseInviterReward from its update on
unfoldable pub settle_reward : ℕ → Conversion → Sql (Unit {0})
settle_reward invitee c = do
  changed ← autocommit (exec (λ d. ok (mark_paid invitee d)))
  branch (changed == 0) (pure tt) (pay_inviter c)

-- ReleaseInviterReward, which reports nothing: an error ends it.
unfoldable pub release_inviter_reward : ℕ → Sql (Unit {0})
release_inviter_reward invitee = attempt tt do
  found ←
      query (λ d. first_where (λ c. is_owed invitee c && not c.fraud) d.referral_conversions.rows)
  c ← or_raise found not_found
  is_open ← branch (ltb_ℤ (pos 0) c.inviter_bonus_usd) (reward_open invitee) (pure true)
  branch is_open (settle_reward invitee c) (pure tt)
