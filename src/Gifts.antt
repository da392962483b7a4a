-- ===== src/Gifts.antt =====
-- internal/saas/db/gifts.go: gift cards, which hold money in escrow between a sender's wallet and
-- the wallet of whoever claims them.
pub mod Settle
pub mod Escrow
pub mod Headroom
pub mod Complete
use hypitoken.Prelude.{
  ℕ, ◌+◌, Bool, true, false, Option, none, some, List, [], ◌∷◌, ◌++◌, String, ◌&&◌, ◌||◌, not, ℤ,
  pos, ◌+ℤ◌, neg_ℤ, ◌==◌, ltb, leb, str_eq, if◌then◌else◌, first_where, rows_where, update_where,
  count_where, exists_where, take, drop, concat,
}
use hypitoken.Store.Schema.{Db, GiftCard, GiftStatus, gift_rank, adjust, refund, User}
use hypitoken.Store.Sql.{
  Error, not_found, gift_not_claimable, unique_violation, foreign_key_violation, Result, ok, err,
  Sql, pure, gets, or_raise, raise_if, query, exec, commit, transact, ◌>>=◌, ◌>>◌,
}
use hypitoken.Wallet.{add_balance_tx}

abbrev pub is_gift : String → GiftCard → Bool
is_gift code g = str_eq g.code code

abbrev pub has_status : GiftStatus → GiftCard → Bool
has_status st g = gift_rank g.status == gift_rank st

abbrev pub set_gifts : List GiftCard → Db → Db
set_gifts rows d = record d { gift_cards = record (d.gift_cards) { rows = rows } }

abbrev pub append_gift : GiftCard → Db → Db
append_gift g d = record d {
  gift_cards = record {
    rows = d.gift_cards.rows ++ record g { id = d.gift_cards.seq + 1 } ∷ [];
    seq = d.gift_cards.seq + 1;
  };
}

-- INSERT INTO gift_cards: sender_user_id refers to users and code is unique.
unfoldable pub insert_gift : GiftCard → Db → Result (Unit {0} × Db)
insert_gift g d =
    if not (exists_where (λ (u : User). u.id == g.sender_user_id) d.users.rows)
    then err foreign_key_violation
    else if exists_where (is_gift g.code) d.gift_cards.rows
    then err unique_violation
    else ok (tt, append_gift g d)

-- the row that GiftSendTx writes
abbrev pub sent : GiftCard → ℕ → GiftCard
sent g now = record g {
  status = GiftStatus.pending;
  claimed_by_user_id = 0;
  claimed_at = 0;
  created_at = now;
}

-- GiftSendTx. The notes of the ledger rows, which are in Chinese, are arguments here.
unfoldable pub gift_send_tx : GiftCard → String → Sql ℤ
gift_send_tx g note = transact do
  bal ←
      add_balance_tx g.sender_user_id adjust (neg_ℤ g.amount_usd) (concat "gift_send:" g.code) note
        false
  now ← gets (λ s. s.env.now)
  exec (insert_gift (sent g now))
  commit
  pure bal

-- WHERE code = ? AND status = 'pending'
abbrev pub is_open : String → GiftCard → Bool
is_open code g = is_gift code g && has_status GiftStatus.pending g

-- UPDATE gift_cards SET … WHERE p, with the number of rows affected
unfoldable pub update_gifts : (GiftCard → Bool) → (GiftCard → GiftCard) → Db → ℕ × Db
update_gifts p f d =
    (count_where p d.gift_cards.rows, set_gifts (update_where p f d.gift_cards.rows) d)

abbrev pub claimed_by : ℕ → ℕ → GiftCard → GiftCard
claimed_by user now g = record g {
  status = GiftStatus.claimed;
  claimed_by_user_id = user;
  claimed_at = now;
}

abbrev pub refunded_gift : GiftCard → GiftCard
refunded_gift g = record g { status = GiftStatus.refunded }

-- GiftClaimTx
unfoldable pub gift_claim_tx : String → ℕ → String → Sql (GiftCard × ℤ)
gift_claim_tx code recipient note = transact do
  found ← query (λ d. first_where (is_gift code) d.gift_cards.rows)
  g ← or_raise found not_found
  raise_if (not (has_status GiftStatus.pending g)) gift_not_claimable
  now ← gets (λ s. s.env.now)
  n ← exec (λ d. ok (update_gifts (is_open code) (claimed_by recipient now) d))
  raise_if (n == 0) gift_not_claimable
  bal ← add_balance_tx recipient adjust g.amount_usd (concat "gift_claim:" code) note true
  commit
  pure (claimed_by recipient now g, bal)

-- GiftRefundTx
unfoldable pub gift_refund_tx : String → String → Sql GiftCard
gift_refund_tx code note = transact do
  found ← query (λ d. first_where (is_gift code) d.gift_cards.rows)
  g ← or_raise found not_found
  raise_if (not (has_status GiftStatus.pending g)) gift_not_claimable
  n ← exec (λ d. ok (update_gifts (is_open code) refunded_gift d))
  raise_if (n == 0) gift_not_claimable
  add_balance_tx g.sender_user_id refund g.amount_usd (concat "gift_refund:" code) note true
  commit
  pure (refunded_gift g)

-- GetGiftByCode
unfoldable pub get_gift_by_code : String → Sql GiftCard
get_gift_by_code code = do
  found ← query (λ d. first_where (is_gift code) d.gift_cards.rows)
  or_raise found not_found

-- ORDER BY id DESC
unfoldable pub insert_by_id : GiftCard → List GiftCard → List GiftCard
insert_by_id g [] = g ∷ []
insert_by_id g (h ∷ hs) = if leb h.id g.id then g ∷ h ∷ hs else h ∷ insert_by_id g hs

unfoldable pub by_id_desc : List GiftCard → List GiftCard
unfolding insert_by_id
by_id_desc [] = []
by_id_desc (g ∷ gs) = insert_by_id g (by_id_desc gs)

abbrev page_size : ℕ → ℕ
page_size limit = if limit == 0 || ltb 200 limit then 50 else limit

-- The page of the gifts that satisfy a condition, with the number of all of them. A limit or an
-- offset below zero has become 0.
unfoldable pub gift_page : (GiftCard → Bool) → ℕ → ℕ → Sql (List GiftCard × ℕ)
unfolding by_id_desc
gift_page p limit offset = do
  total ← query (λ d. count_where p d.gift_cards.rows)
  rows ← query (λ d. rows_where p d.gift_cards.rows)
  pure (take (page_size limit) (drop offset (by_id_desc rows)), total)

-- ListGiftsBySender
unfoldable pub list_gifts_by_sender : ℕ → ℕ → ℕ → Sql (List GiftCard × ℕ)
list_gifts_by_sender sender = gift_page (λ g. g.sender_user_id == sender)

-- ListGiftsForRecipientEmail
unfoldable pub list_gifts_for_recipient_email : String → ℕ → ℕ → Sql (List GiftCard × ℕ)
list_gifts_for_recipient_email email = gift_page (λ g. str_eq g.recipient_email email)

-- ListPendingGiftsForEmail
unfoldable pub list_pending_gifts_for_email : String → Sql (List GiftCard)
list_pending_gifts_for_email email = query (λ d.
    rows_where (λ g. str_eq g.recipient_email email && has_status GiftStatus.pending g)
      d.gift_cards.rows)

-- ListExpiredPendingGifts
unfoldable pub list_expired_pending_gifts : ℕ → Sql (List GiftCard)
list_expired_pending_gifts now = query (λ d.
    rows_where
      (λ g. has_status GiftStatus.pending g && (ltb 0 g.expires_at && leb g.expires_at now))
      d.gift_cards.rows)

-- SUM(CASE WHEN p THEN amount_usd ELSE 0 END)
unfoldable pub gift_sum : (GiftCard → Bool) → List GiftCard → ℤ
gift_sum p [] = pos 0
gift_sum p (g ∷ gs) = (if p g then g.amount_usd else pos 0) +ℤ gift_sum p gs

pub record GiftTotals : Type 0 where
  pub sent_count : ℕ
  pub sent_usd : ℤ
  pub claimed_count : ℕ
  pub claimed_usd : ℤ
  pub pending_count : ℕ
  pub pending_usd : ℤ
  pub refunded_count : ℕ
  pub refunded_usd : ℤ

-- the row that GiftTotalsAll's statement computes
unfoldable pub gift_totals : List GiftCard → GiftTotals
gift_totals gs = record {
  sent_count = count_where (λ _. true) gs;
  sent_usd = gift_sum (λ _. true) gs;
  claimed_count = count_where (has_status GiftStatus.claimed) gs;
  claimed_usd = gift_sum (has_status GiftStatus.claimed) gs;
  pending_count = count_where (has_status GiftStatus.pending) gs;
  pending_usd = gift_sum (has_status GiftStatus.pending) gs;
  refunded_count = count_where (has_status GiftStatus.refunded) gs;
  refunded_usd = gift_sum (has_status GiftStatus.refunded) gs;
}

-- GiftTotalsAll
unfoldable pub gift_totals_all : Sql GiftTotals
gift_totals_all = query (λ d. gift_totals d.gift_cards.rows)
