-- ===== src/Tests.antt =====
-- A small bank, at which the modules below it state the properties.
mod Books
mod Wallet
mod Orders
mod Gifts
mod Access
mod Shop
mod Server
mod Accounts
mod Referral
use hypitoken.Prelude.{
  none, Option, str_eq, if◌then◌else◌, ◌*◌, ℕ, ◌≤◌, ◌≡◌, refl, true, false, some, List, [], ◌∷◌,
  String, ℤ, pos, ◌+ℤ◌, ◌-ℤ◌, neg_ℤ, ◌≤ℤ◌, ◌<ℤ◌, ◌⊎◌, arith, count_where, first_where, exists_where,
  update_where, trim_space, ◌==◌,
}
use hypitoken.Store.Schema.{
  Db, Table, User, Workspace, WalletTx, AlipayOrder, GiftCard, GiftStatus, EmailCode, SsoCode,
  UserToken, WorkspaceInvite, InviteStatus, topup, charge, pending, personal,
}
use hypitoken.Store.Sql.{all_up, Env, ok, run, ◌>>=◌}
use hypitoken.Store.Ledger.{IsBalanced, no_meta, select_balance, set_balance, insert_tx, sum_where}
use hypitoken.Wallet.{
  clamp_charge, charge_workspace_with_floor, select_home, personal_workspace_id,
  add_workspace_balance_tx, insert_ledger_tx,
}
use hypitoken.Wallet.Clamp.{clamp_charge-floor}
use hypitoken.Wallet.Charge.{ChargeEnds, charge_workspace_with_floor-ends}
use hypitoken.Wallet.Complete.{charge_completes}
use hypitoken.Wallet.Idem.{
  IdemChargeReq, IdemChargeResult, finite, wallet_idem, wallet_idem_finite, wallet_idem_once,
  find_idem_row, describe_row, select_key, settle_or_replay,
}
use hypitoken.Wallet.Idem.Settle.{IdemEnds, wallet_idem-ends}
use hypitoken.Orders.{credit_order, is_unpaid_order, is_order, credit_stripe_order, update_orders}
use hypitoken.Orders.Settle.{CreditEnds, credit_order-ends}
use hypitoken.Orders.Once.{credit_by, credited_once}
use hypitoken.Gifts.{gift_send_tx, gift_claim_tx, gift_refund_tx}
use hypitoken.Gifts.Settle.{
  SendEnds, gift_send_tx-ends, ClaimEnds, gift_claim_tx-ends, RefundEnds, gift_refund_tx-ends,
}
use hypitoken.Gifts.Escrow.{UniqueCodes, money, calls, gifts_conserve_money, GiftCall}
use hypitoken.Workspaces.{
  create_personal_workspace, open_personal, insert_member, set_home, insert_workspace,
}
use hypitoken.Workspaces.Create.{created_is_home}
use hypitoken.EmailCodes.{is_code, consume_email_code}
use hypitoken.EmailCodes.Attempts.{ConsumeEnds, consume_email_code-ends}
use hypitoken.Wallet.Reports.{headroom}
use hypitoken.Gifts.Headroom.{send_lowers_headroom, claim_raises_headroom}
use hypitoken.Wallet.{add_balance_tx}
use hypitoken.Gifts.{insert_gift, update_gifts}
use hypitoken.Orders.Complete.{credit_completes}
use hypitoken.Gifts.Complete.{claim_completes, refund_completes}
use hypitoken.Gifts.{is_gift, claimed_by, refunded_gift}
use hypitoken.EmailCodes.{delete_code}
use hypitoken.EmailCodes.Attempts.{consume_completes}
use hypitoken.Wallet.Idem.{replay_of}
use hypitoken.Wallet.Idem.Complete.{replay_completes}
use hypitoken.Billing.{
  Notification, Handler, apply_notification, apply_to_order, same_money, settled_already,
}
use hypitoken.Orders.{get_order, credit_paid_order}
use hypitoken.Billing.Apply.{ApplyEnds, apply_notification-ends}
use hypitoken.Limits.{minute, allow}
use hypitoken.Limits.Claim.{new_claim_limiter, claim_allow}
use hypitoken.Limits.Bound.{Limited, allow-Limited}
use hypitoken.Books.{MoneyCall, start, after, step, Extends, reached-IsBalanced, reached-Extends}

abbrev pub user : ℕ → String → ℕ → User
user id email home = record {
  id = id;
  email = email;
  pw_hash = "";
  role = "user";
  group_id = 0;
  email_verified = true;
  disabled = false;
  created_at = 0;
  updated_at = 0;
  personal_workspace_id = home;
}

abbrev pub wallet : ℕ → ℤ → Workspace
wallet id balance = record {
  id = id;
  name = "";
  type = personal;
  balance_usd = balance;
  daily_usd_cap = pos 0;
  monthly_usd_cap = pos 0;
  group_id = 0;
  claude_multiplier = pos 0;
  codex_multiplier = pos 0;
  created_by = id;
  disabled = false;
  created_at = 0;
  updated_at = 0;
}

abbrev pub opening : WalletTx
opening = record {
  id = 1;
  user_id = 1;
  workspace_id = 1;
  kind = topup;
  amount_usd = pos 500;
  ref = "";
  note = "";
  created_at = 1;
  meta = no_meta;
  idem_key = "";
  product = "";
}

abbrev pub order : AlipayOrder
order = record {
  out_trade_no = "A1";
  user_id = 2;
  cny_amount = pos 700;
  usd_credit = pos 100;
  rate = pos 7;
  status = pending;
  trade_no = "";
  qr_code = "";
  created_at = 1;
  paid_at = 0;
}

abbrev pub gift : GiftCard
gift = record {
  id = 0;
  sender_user_id = 1;
  code = "G1";
  recipient_email = "b@x";
  amount_usd = pos 40;
  message = "";
  card_style = "";
  card_tone = "";
  status = GiftStatus.pending;
  claimed_by_user_id = 0;
  claimed_at = 0;
  expires_at = 0;
  created_at = 0;
}

abbrev pub email_code : ℕ → EmailCode
email_code attempts = record {
  email = "a@x";
  code = "123456";
  purpose = "verify";
  expires_at = 600;
  attempts = attempts;
  created_at = 0;
}

abbrev pub table : {A : Type 0} → List A → ℕ → Table A
table rows seq = record { rows = rows; seq = seq }

-- Two users with a wallet each, and a third without; the first wallet holds 500.
abbrev pub sso_code : SsoCode
sso_code = record {
  code = "h";
  user_id = 1;
  return_url = "https://hub";
  created_at = 1;
  expires_at = 121;
  used_at = 0;
}

abbrev pub token : ℕ → ℕ → UserToken
token id ws = record {
  id = id;
  user_id = 1;
  token = if id == 1 then "sk-1" else "sk-2";
  name = "";
  daily_usd_cap = pos 0;
  monthly_usd_cap = pos 0;
  max_concurrent = pos 0;
  rpm = pos 0;
  disabled = false;
  last_used_at = 0;
  created_at = 1;
  groups = [];
  workspace_id = ws;
  admin_monthly_cap = pos 0;
  tags = [];
}

abbrev pub invite : WorkspaceInvite
invite = record {
  id = 1;
  workspace_id = 2;
  email = "b@x";
  role = "admin";
  token = "it";
  status = InviteStatus.pending;
  invited_by = 1;
  accepted_user_id = 0;
  expires_at = 100;
  created_at = 1;
}

abbrev pub bank : Db
bank = record {
  users = table (user 1 "a@x" 1 ∷ user 2 "b@x" 2 ∷ user 3 "c@x" 0 ∷ []) 3;
  workspaces = table (wallet 1 (pos 500) ∷ wallet 2 (pos 0) ∷ []) 2;
  workspace_members = table [] 0;
  wallet_tx = table (opening ∷ []) 1;
  alipay_orders = table (order ∷ []) 0;
  gift_cards = table [] 0;
  email_codes = table (email_code 0 ∷ []) 0;
  sso_codes = table (sso_code ∷ []) 0;
  user_tokens = table (token 1 1 ∷ token 2 2 ∷ []) 2;
  workspace_invites = table (invite ∷ []) 1;
  referral_campaigns = table [] 0;
  referral_tiers = table [] 0;
  referral_conversions = table [] 0;
  referral_milestone_grants = table [] 0;
}

pub wallet_found : select_balance 1 bank ≡ some (pos 500)
unfolding select_balance first_where
wallet_found = refl

abbrev pub request : IdemChargeReq
request = record {
  idempotency_key = " k1 ";
  product = "shop";
  workspace_id = 1;
  user_id = 1;
  amount_usd = finite (pos 60);
  ref = "r";
  note = "";
  max_overdraft_usd = pos 0;
  meta = no_meta;
}

abbrev pub answer : IdemChargeResult
answer = record {
  tx_id = 2;
  charged_usd = pos 60;
  new_balance_usd = pos 440;
  clamped = false;
  replayed = false;
}

abbrev pub with_gift : Db
with_gift = record bank { gift_cards = table (gift ∷ []) 1 }

abbrev pub history : List (GiftCall × Env)
history =
    (GiftCall.send gift "", all_up 5)
    ∷ (GiftCall.claim "G1" 2 "", all_up 6)
    ∷ (GiftCall.refund "G1" "", all_up 7)
    ∷ []

abbrev pub locked : Db
locked = record bank { email_codes = table (email_code 5 ∷ []) 0 }

abbrev pub claimed_gift : GiftCard
claimed_gift = record gift { status = GiftStatus.claimed; claimed_by_user_id = 2; claimed_at = 5 }

pub bob_home : select_home 2 bank ≡ some 2
unfolding select_home first_where
bob_home = refl

pub bob_balance : select_balance 2 bank ≡ some (pos 0)
unfolding select_balance first_where
bob_balance = refl

pub alice_home : select_home 1 bank ≡ some 1
unfolding select_home first_where
alice_home = refl

abbrev pub settled_row : WalletTx
settled_row = record opening { id = 2; kind = charge; amount_usd = neg_ℤ (pos 60); idem_key = "k1" }

abbrev pub with_key : Db
with_key = record bank { wallet_tx = table (opening ∷ settled_row ∷ []) 2 }

abbrev pub two_prices : String → Option ℤ
two_prices s = if str_eq s "7.00" then some (pos 700) else none

abbrev pub notification : Notification
notification = record {
  out_trade_no = "A1";
  trade_no = "T";
  trade_status = "TRADE_SUCCESS";
  total_amount = "7.00";
  app_id = "app";
}

abbrev pub handler : Handler
handler = record { app_id = "app"; order_ttl = 900 }
