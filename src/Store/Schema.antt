-- ===== src/Store/Schema.antt =====
-- internal/saas/db: the tables as migrations.go leaves them, a record for a row and a list for a
-- table. Amounts are integers of the smallest unit of money; times are Unix seconds; identifiers are
-- natural numbers, with 0 for none, as in the columns' defaults.
use hypitoken.Prelude.{ℕ, String, ℤ, Bool, List}

-- wallet.go, the TxKind constants
pub data TxKind : Type 0 where
  topup charge adjust refund : TxKind

abbrev pub kind_rank : TxKind → ℕ
kind_rank topup = 0
kind_rank charge = 1
kind_rank adjust = 2
kind_rank refund = 3

-- orders.go, the Order constants
pub data OrderStatus : Type 0 where
  pending paid expired failed : OrderStatus

abbrev pub order_rank : OrderStatus → ℕ
order_rank pending = 0
order_rank paid = 1
order_rank expired = 2
order_rank failed = 3

-- gifts.go, the Gift constants
pub data GiftStatus : Type 0 where
  pending claimed expired refunded : GiftStatus

abbrev pub gift_rank : GiftStatus → ℕ
gift_rank GiftStatus.pending = 0
gift_rank GiftStatus.claimed = 1
gift_rank GiftStatus.expired = 2
gift_rank GiftStatus.refunded = 3

-- workspaces.go, the WorkspaceType and WSRole constants
pub data WorkspaceType : Type 0 where
  personal enterprise : WorkspaceType

abbrev pub type_rank : WorkspaceType → ℕ
type_rank personal = 0
type_rank enterprise = 1

pub record Workspace : Type 0 where
  pub id : ℕ
  pub name : String
  pub type : WorkspaceType
  pub balance_usd : ℤ
  pub daily_usd_cap : ℤ
  pub monthly_usd_cap : ℤ
  pub group_id : ℕ
  pub claude_multiplier : ℤ
  pub codex_multiplier : ℤ
  pub created_by : ℕ
  pub disabled : Bool
  pub created_at : ℕ
  pub updated_at : ℕ

pub record WorkspaceMember : Type 0 where
  pub id : ℕ
  pub workspace_id : ℕ
  pub user_id : ℕ
  pub role : String
  pub monthly_usd_cap : ℤ
  pub created_at : ℕ

pub record User : Type 0 where
  pub id : ℕ
  pub email : String
  pub pw_hash : String
  pub role : String
  pub group_id : ℕ
  pub email_verified : Bool
  pub disabled : Bool
  pub created_at : ℕ
  pub updated_at : ℕ
  pub personal_workspace_id : ℕ

pub record ChargeMeta : Type 0 where
  pub token_id : ℕ
  pub model : String
  pub input_tokens : ℕ
  pub output_tokens : ℕ
  pub cache_read_tokens : ℕ
  pub cache_create_tokens : ℕ

-- a row of wallet_tx
pub record WalletTx : Type 0 where
  pub id : ℕ
  pub user_id : ℕ
  pub workspace_id : ℕ
  pub kind : TxKind
  pub amount_usd : ℤ
  pub ref : String
  pub note : String
  pub created_at : ℕ
  pub meta : ChargeMeta
  pub idem_key : String
  pub product : String

-- a row of alipay_orders; the rate is in the same fixed point as the amounts
pub record AlipayOrder : Type 0 where
  pub out_trade_no : String
  pub user_id : ℕ
  pub cny_amount : ℤ
  pub usd_credit : ℤ
  pub rate : ℤ
  pub status : OrderStatus
  pub trade_no : String
  pub qr_code : String
  pub created_at : ℕ
  pub paid_at : ℕ

-- a row of gift_cards; an `expires_at` or `claimed_at` of 0 is the zero time
pub record GiftCard : Type 0 where
  pub id : ℕ
  pub sender_user_id : ℕ
  pub code : String
  pub recipient_email : String
  pub amount_usd : ℤ
  pub message : String
  pub card_style : String
  pub card_tone : String
  pub status : GiftStatus
  pub claimed_by_user_id : ℕ
  pub claimed_at : ℕ
  pub expires_at : ℕ
  pub created_at : ℕ

-- a row of email_codes
pub record EmailCode : Type 0 where
  pub email : String
  pub code : String
  pub purpose : String
  pub expires_at : ℕ
  pub attempts : ℕ
  pub created_at : ℕ

-- a row of sso_codes; a `used_at` of 0 is not used
pub record SsoCode : Type 0 where
  pub code : String
  pub user_id : ℕ
  pub return_url : String
  pub created_at : ℕ
  pub expires_at : ℕ
  pub used_at : ℕ

-- a row of user_tokens; the lists, which are columns of JSON, are lists here
pub record UserToken : Type 0 where
  pub id : ℕ
  pub user_id : ℕ
  pub token : String
  pub name : String
  pub daily_usd_cap : ℤ
  pub monthly_usd_cap : ℤ
  pub max_concurrent : ℤ
  pub rpm : ℤ
  pub disabled : Bool
  pub last_used_at : ℕ
  pub created_at : ℕ
  pub groups : List String
  pub workspace_id : ℕ
  pub admin_monthly_cap : ℤ
  pub tags : List String

-- workspace_invites.go, the Invite constants
pub data InviteStatus : Type 0 where
  pending accepted revoked expired : InviteStatus

abbrev pub invite_rank : InviteStatus → ℕ
invite_rank InviteStatus.pending = 0
invite_rank InviteStatus.accepted = 1
invite_rank InviteStatus.revoked = 2
invite_rank InviteStatus.expired = 3

-- a row of workspace_invites
pub record WorkspaceInvite : Type 0 where
  pub id : ℕ
  pub workspace_id : ℕ
  pub email : String
  pub role : String
  pub token : String
  pub status : InviteStatus
  pub invited_by : ℕ
  pub accepted_user_id : ℕ
  pub expires_at : ℕ
  pub created_at : ℕ

-- a row of referral_campaigns; `starts_at` and `ends_at` of 0 are no bounds
pub record Campaign : Type 0 where
  pub id : ℕ
  pub slug : String
  pub name : String
  pub kind : String
  pub status : String
  pub invitee_bonus_usd : ℤ
  pub inviter_bonus_usd : ℤ
  pub inviter_reward_on : String
  pub gift_expiry_days : ℕ
  pub max_gift_usd : ℤ
  pub max_rewarded_invites : ℕ
  pub daily_budget_usd : ℤ
  pub min_invitee_spend_usd : ℤ
  pub daily_invite_cap : ℕ
  pub starts_at : ℕ
  pub ends_at : ℕ
  pub headline : String
  pub subcopy : String
  pub variant_b : String
  pub created_at : ℕ
  pub updated_at : ℕ

-- a row of referral_tiers; the threshold is at zero or above
pub record Tier : Type 0 where
  pub id : ℕ
  pub campaign_id : ℕ
  pub threshold : ℕ
  pub tier_name : String
  pub card_style_unlock : String
  pub bonus_usd : ℤ
  pub badge : String
  pub created_at : ℕ

-- a row of referral_conversions
pub record Conversion : Type 0 where
  pub id : ℕ
  pub campaign_id : ℕ
  pub code : String
  pub inviter_user_id : ℕ
  pub invitee_user_id : ℕ
  pub inviter_bonus_usd : ℤ
  pub invitee_bonus_usd : ℤ
  pub fraud : Bool
  pub inviter_paid : Bool
  pub created_at : ℕ

-- a row of referral_milestone_grants
pub record MilestoneGrant : Type 0 where
  pub user_id : ℕ
  pub threshold : ℕ
  pub tier_id : ℕ
  pub bonus_usd : ℤ
  pub granted_at : ℕ

-- A table with its AUTOINCREMENT sequence: the largest identifier that was ever issued.
pub record Table (A : Type 0) : Type 0 where
  pub rows : List A
  pub seq : ℕ

pub record Db : Type 0 where
  pub users : Table User
  pub workspaces : Table Workspace
  pub workspace_members : Table WorkspaceMember
  pub wallet_tx : Table WalletTx
  pub alipay_orders : Table AlipayOrder
  pub gift_cards : Table GiftCard
  pub email_codes : Table EmailCode
  pub sso_codes : Table SsoCode
  pub user_tokens : Table UserToken
  pub workspace_invites : Table WorkspaceInvite
  pub referral_campaigns : Table Campaign
  pub referral_tiers : Table Tier
  pub referral_conversions : Table Conversion
  pub referral_milestone_grants : Table MilestoneGrant
