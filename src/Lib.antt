-- ===== src/Lib.antt =====
-- The money side of hypitoken: the wallet, the orders that fill it, the gifts and rewards that move
-- it, the workspaces that hold it, and the codes, tokens and rate limiters in front of it; the shop,
-- and the state that the server keeps of its accounts. The server
-- (internal/server, internal/saas/adapter) charges a workspace per request; the payment callbacks
-- (internal/saas/billing) settle orders; the referral pages send and claim gifts. All of them meet
-- in the SQLite store of internal/saas/db, whose Go functions are modelled here one by one.
--
--   Prelude       shared names: Boolean tests, queries on lists, integers, texts
--   Store         the tables of internal/saas/db/migrations.go as records (Schema); database/sql
--                 (Engine, and Sql on these tables): a session holds the database that a transaction
--                 works on and the one that is committed, and each statement fails or not as the
--                 environment says; rules to prove how a call ends whatever fails (Rules,
--                 Autocommit), and that it keeps a property of the database (Keeps); the statements
--                 on balances and on the ledger (Ledger)
--   Wallet        internal/saas/db/wallet.go: AddBalance, ChargeWorkspaceWithFloor, clampCharge, the
--                 sums that the caps read, and the pages of the ledger (Reports)
--   Wallet.Idem   internal/saas/db/wallet_idem.go: movements with an idempotency key
--   Orders        internal/saas/db/orders.go: top-up orders and their settlement on two rails
--   Gifts         internal/saas/db/gifts.go: gift cards as escrow
--   Workspaces    internal/saas/db/workspaces.go: workspaces and members
--   EmailCodes    internal/saas/db/email_codes.go: one-time codes
--   Sso           internal/saas/db/sso.go: one-time codes that hand a session to another origin; the
--                 hash of a code is a parameter
--   Tokens        internal/saas/db/tokens.go: API tokens and their tags
--   Invites       internal/saas/db/workspace_invites.go: invitations to a workspace
--   Limits        internal/saas/auth/ratelimit.go, internal/saas/support/ratelimit.go and
--                 internal/saas/referral/ratelimit.go: sliding windows in memory
--   Billing       internal/saas/billing/handlers.go: applyNotification, which checks a payment
--                 notification and settles its order; strings.EqualFold and strconv.ParseFloat
--                 are its parameters
--   Referral      internal/saas/referral: codes.go, redeem codes of gifts, with unicode.ToUpper as a
--                 parameter (Codes); grant.go, conversions (Conversions), the reward that waits for
--                 the spending of an invitee, and milestones (Rewards); campaigns.go, the
--                 live campaign (Live) and the edits of campaigns and tiers (Campaigns)
--   Shop          internal/shop/db.go: the shop's own database, with its products, cards and orders,
--                 and all its calls as a step relation (Calls)
--   Server        internal/server: apikey_health.go, the recovery of API keys, over the health that
--                 cc-core keeps (Health); codex_session.go, the account of a Codex response (Sticky)
--   Books         the money calls together, as a step relation on the database, and a retry among
--                 them (Retry)
--   Tests         a small database and each property at it
--
-- A call of the store is a function of the Sql type, and `run` gives its result and the database
-- that it leaves. Amounts are float64 dollars in the source; here they are integers of a smallest
-- unit, so rounding of floats is outside of the model. Times are whole Unix seconds in the store, also where
-- the source compares times of a finer precision, and nanoseconds in the limiters. Transactions run
-- one after the other, as SQLite has one writer, and so do the calls of Books; internal/saas/db opens
-- its transactions with BEGIN IMMEDIATE, and internal/shop with the default. There is no fuel: every loop
-- runs over a list, or over the six tries that newRedeemCode has.
--
-- The random codes and secrets that a call draws are its arguments, and so is the failure to draw
-- one. A milestone threshold is at zero or above. A group of Sticky is a name without a bar where a
-- theorem says so.
--
-- Not modelled: HTTP handlers, the proxy and its cc-core library, mail, the pages of the shop, the
-- panels, the reports, and the sign-up by an invitation with its checks of devices. The order of
-- rows that ORDER BY leaves open is the order of insertion. Limits and offsets below zero, which the
-- source turns to zero, arrive as zero. An address arrives at EmailCodes as the source's first line
-- leaves it: trimmed and in lower case.
pub mod Prelude
pub mod Store
pub mod Wallet
pub mod Orders
pub mod Gifts
pub mod Workspaces
pub mod EmailCodes
pub mod Sso
pub mod Tokens
pub mod Invites
pub mod Referral
pub mod Limits
pub mod Billing
pub mod Shop
pub mod Server
pub mod Books
mod Tests
