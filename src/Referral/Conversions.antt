-- ===== src/Referral/Conversions.antt =====
-- internal/saas/referral/grant.go: the conversions of invited users and the sums that gate rewards.
use Prim.Native.Nat.{◌/◌}
use hypitoken.Prelude.{
  ℕ, ◌+◌, ◌*◌, ◌==◌, Bool, true, false, not, List, [], ◌∷◌, ◌++◌, String, ◌&&◌, ◌||◌, ℤ, pos, ltb_ℤ,
  leb_ℤ, neg_ℤ, leb, if◌then◌else◌, update_where, exists_where, count_where, like_prefix,
}
use hypitoken.Store.Schema.{Db, WalletTx, Conversion, adjust, charge, kind_rank}
use hypitoken.Store.Sql.{ok, Sql, pure, gets, branch, attempt, query, exec, autocommit, ◌>>=◌}
use hypitoken.Store.Ledger.{sum_where}

-- the start of the day in UTC
abbrev pub day_start : ℕ → ℕ
day_start now = now / 86400 * 86400

abbrev pub is_bonus : ℕ → WalletTx → Bool
is_bonus now t =
    kind_rank t.kind == kind_rank adjust
    && leb (day_start now) t.created_at
    && (like_prefix "ref_invitee:" t.ref
        || like_prefix "ref_inviter:" t.ref
        || like_prefix "ref_tier:" t.ref)

-- todayBonusSpend
unfoldable pub today_bonus_spend : Sql ℤ
today_bonus_spend = do
  now ← gets (λ s. s.env.now)
  attempt (pos 0) (query (λ d. sum_where (is_bonus now) d.wallet_tx.rows))

-- capTripped
unfoldable pub cap_tripped : ℤ → Sql Bool
cap_tripped cap =
    branch (leb_ℤ cap (pos 0)) (pure false) (today_bonus_spend >>= λ spent. pure (leb_ℤ cap spent))

abbrev pub is_invitee : ℕ → Conversion → Bool
is_invitee invitee c = c.invitee_user_id == invitee

-- WHERE invitee_user_id = ? AND inviter_paid = 0
abbrev pub is_owed : ℕ → Conversion → Bool
is_owed invitee c = is_invitee invitee c && not c.inviter_paid

abbrev pub set_conversions : List Conversion → Db → Db
set_conversions rows d = record d {
  referral_conversions = record (d.referral_conversions) { rows = rows };
}

abbrev pub added : Conversion → Db → Db
added c d = record d {
  referral_conversions = record {
    rows = d.referral_conversions.rows ++ record c { id = d.referral_conversions.seq + 1 } ∷ [];
    seq = d.referral_conversions.seq + 1;
  };
}

-- INSERT OR IGNORE INTO referral_conversions: whether a row was added.
unfoldable pub insert_conversion_row : Conversion → Db → Bool × Db
insert_conversion_row c d =
    if exists_where (is_invitee c.invitee_user_id) d.referral_conversions.rows
    then (false, d)
    else (true, added c d)

-- insertConversion
unfoldable pub insert_conversion : ℕ → String → ℕ → ℕ → ℤ → ℤ → Bool → Bool → Sql Bool
insert_conversion campaign code inviter invitee invitee_bonus inviter_bonus fraud inviter_paid = do
  now ← gets (λ s. s.env.now)
  autocommit (
      exec (λ d. ok (
        insert_conversion_row
          (record {
            id = 0;
            campaign_id = campaign;
            code = code;
            inviter_user_id = inviter;
            invitee_user_id = invitee;
            inviter_bonus_usd = inviter_bonus;
            invitee_bonus_usd = invitee_bonus;
            fraud = fraud;
            inviter_paid = inviter_paid;
            created_at = now;
          })
          d)))

abbrev pub is_confirmed : ℕ → Conversion → Bool
is_confirmed inviter c = c.inviter_user_id == inviter && not c.fraud

-- countConfirmedInvites
unfoldable pub count_confirmed_invites : ℕ → Sql ℕ
count_confirmed_invites inviter =
    attempt 0 (query (λ d. count_where (is_confirmed inviter) d.referral_conversions.rows))

-- countQualifiedInvites
unfoldable pub count_qualified_invites : ℕ → Sql ℕ
count_qualified_invites inviter = attempt 0 (
    query (λ d.
      count_where
        (λ (c : Conversion).
          is_confirmed inviter c && c.inviter_paid && ltb_ℤ (pos 0) c.inviter_bonus_usd)
        d.referral_conversions.rows))

-- countRecentInvites, of conversions since a time
unfoldable pub count_recent_invites : ℕ → ℕ → Sql ℕ
count_recent_invites inviter since = attempt 0 (
    query (λ d.
      count_where (λ (c : Conversion). is_confirmed inviter c && leb since c.created_at)
        d.referral_conversions.rows))

-- inviteeSpend
unfoldable pub invitee_spend : ℕ → Sql ℤ
invitee_spend invitee = attempt (pos 0) (
    query (λ d. neg_ℤ (
      sum_where (λ (t : WalletTx). t.user_id == invitee && kind_rank t.kind == kind_rank charge)
        d.wallet_tx.rows)))

abbrev pub paid : Conversion → Conversion
paid c = record c { inviter_paid = true }

-- UPDATE referral_conversions SET inviter_paid = 1: how many rows were changed.
unfoldable pub mark_paid : ℕ → Db → ℕ × Db
mark_paid invitee d = (
  count_where (is_owed invitee) d.referral_conversions.rows,
  set_conversions (update_where (is_owed invitee) paid d.referral_conversions.rows) d,
)
