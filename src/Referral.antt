-- ===== src/Referral.antt =====
-- internal/saas/referral: the codes of gifts, and the rewards of inviters.
pub mod Codes
pub mod RoundTrip
pub mod Campaigns
pub mod Live
pub mod Conversions
pub mod Rewards
pub mod Apart
pub mod Released
pub mod Once
