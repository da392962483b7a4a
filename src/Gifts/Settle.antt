-- ===== src/Gifts/Settle.antt =====
-- What sending, claiming and refunding a gift do.
use hypitoken.Prelude.{
  ℕ, ◌≡◌, refl, true, false, not, String, concat, ℤ, pos, ◌+ℤ◌, neg_ℤ, ltb_ℤ, ◌&&◌, some, arith, ap,
  subst, first_where, update_where, count_where, exists_where-count, ◌≤ℤ◌,
}
use hypitoken.Store.Schema.{Db, GiftCard, GiftStatus, TxKind, adjust, refund}
use hypitoken.Store.Sql.{Env, Result, ok, err, Session, run, leave}
use hypitoken.Store.Rules.{
  Undone, pure_end, raise_if_step, gets_step, or_raise_step, query_step, exec_step, commit_step,
  transact_step,
}
use hypitoken.Wallet.Home.{IsHome, IsHome-same}
use hypitoken.Wallet.Post.{Posts}
use hypitoken.Wallet.Rules.{plain_row, add_balance_tx_step}
use hypitoken.Gifts.{
  is_gift, has_status, set_gifts, append_gift, insert_gift, sent, gift_send_tx, is_open,
  update_gifts, claimed_by, refunded_gift, gift_claim_tx, gift_refund_tx,
}

-- the database with the gifts of a code changed, and no money moved yet
abbrev pub closed : String → (GiftCard → GiftCard) → Db → Db
closed code change d = set_gifts (update_where (is_open code) change d.gift_cards.rows) d

-- The pending gift of a code is closed by `change`, and its amount moves into the home workspace of
-- a user.
pub record Closes (code : String) (change : GiftCard → GiftCard) (user : ℕ) (kind : TxKind)
    (ref note : String) (now : ℕ) (g : GiftCard) (new : ℤ) (d d' : Db) : Type 0 where
  pub home : ℕ
  pub bal : ℤ
  pub is_home : IsHome user d home
  pub found : first_where (is_gift code) d.gift_cards.rows ≡ some g
  pub is_pending : has_status GiftStatus.pending g ≡ true
  pub result : new ≡ bal +ℤ g.amount_usd
  pub posts :
      Posts (plain_row home user kind g.amount_usd ref note now) bal (closed code change d) d'

insert_gift-ok :
    (g : GiftCard) (d d' : Db)
    → insert_gift g d ≡ ok (tt, d')
    → (count_where (is_gift g.code) d.gift_cards.rows ≡ 0) × (d' ≡ append_gift g d)
unfolding insert_gift
insert_gift-ok g d d' h = ground (arith, exists_where-count (is_gift g.code) d.gift_cards.rows)

module _ (g : GiftCard) (note : String) (env : Env) (d : Db) where
  -- A send fails and changes nothing, or debits a sender who can cover the gift and records it as
  -- pending, both at once.
  abbrev pub SendEnds : Result ℤ × Db → Type 0
  SendEnds (err e, d') = d' ≡ d
  SendEnds (ok new, d') =
      (home : ℕ) × (bal : ℤ) × (mid : Db) × IsHome g.sender_user_id d home
      × (pos 0 ≤ℤ new)
      × (new ≡ bal +ℤ neg_ℤ g.amount_usd)
      × Posts
          (plain_row home g.sender_user_id adjust (neg_ℤ g.amount_usd) (concat "gift_send:" g.code)
            note env.now)
          bal d mid
      × (count_where (is_gift g.code) mid.gift_cards.rows ≡ 0)
      × (d' ≡ append_gift (sent g env.now) mid)

  SendDone : Result ℤ × Session → Type 0
  SendDone rt = SendEnds (leave rt)

  -- Whatever statement fails, a send fails and leaves the database as it was, or it debits the home
  -- workspace of the sender, whose balance stays at zero or above, by one balanced movement and
  -- records the gift as pending under a code that no gift had.
  pub gift_send_tx-ends : SendEnds (run (gift_send_tx g note) env d)
  unfolding gift_send_tx run SendDone
  gift_send_tx-ends =
      transact_step SendDone _ _
        (add_balance_tx_step T g.sender_user_id adjust (neg_ℤ g.amount_usd)
          (concat "gift_send:" g.code) note false _ _
          (λ home bal c mid its allowed posts. gets_step T _ _ _ (
            exec_step T _ _ _
              (λ u d' inserted.
                commit_step T _ _
                  (pure_end T _ _ (
                    home,
                    bal,
                    mid,
                    its,
                    covers (bal +ℤ neg_ℤ g.amount_usd) allowed,
                    refl,
                    posts,
                    (insert_gift-ok _ mid d' inserted).0,
                    (insert_gift-ok _ mid d' inserted).1,
                  ))
                  refl)
              (λ e. refl)))
          (λ e c d'. refl))
        refl
    where
      T : Result ℤ × Session → Type 0
      T = Undone SendDone

      covers : (z : ℤ) → ltb_ℤ z (pos 0) && not false ≡ false → pos 0 ≤ℤ z
      covers z h = ground arith

module _ (code : String) (recipient : ℕ) (note : String) (env : Env) (d : Db) where
  -- A claim fails and changes nothing, or closes a pending gift and pays it to the recipient.
  abbrev pub ClaimEnds : Result (GiftCard × ℤ) × Db → Type 0
  ClaimEnds (err e, d') = d' ≡ d
  ClaimEnds (ok (h, new), d') =
      (g : GiftCard) × (h ≡ claimed_by recipient env.now g)
      × Closes code (claimed_by recipient env.now) recipient adjust (concat "gift_claim:" code) note
          env.now g new d d'

  ClaimDone : Result (GiftCard × ℤ) × Session → Type 0
  ClaimDone rt = ClaimEnds (leave rt)

  -- Whatever statement fails, a claim fails and leaves the database as it was, or it found a
  -- pending gift of the code, marks it as claimed and moves its amount into the home workspace of
  -- the recipient by one balanced movement.
  pub gift_claim_tx-ends : ClaimEnds (run (gift_claim_tx code recipient note) env d)
  unfolding gift_claim_tx run ClaimDone update_gifts
  gift_claim_tx-ends =
      transact_step ClaimDone _ _
        (query_step T _ _ _
          (or_raise_step T _ _ _ _
            (λ g found.
              raise_if_step T _ _ _ _
                (λ is_pending. gets_step T _ _ _ (
                  exec_step T _ _ _
                    (λ n d' updated.
                      raise_if_step T _ _ _ _
                        (λ _.
                          add_balance_tx_step T recipient adjust g.amount_usd
                            (concat "gift_claim:" code) note true _ _
                            (λ home bal c d'' its _ posts.
                              commit_step T _ _
                                (pure_end T _ _ (
                                  g,
                                  refl,
                                  record {
                                    home = home;
                                    bal = bal;
                                    is_home =
                                        IsHome-same recipient home d d'
                                          (ap (λ (x : Db). x.users) (moved updated))
                                          (ap (λ (x : Db). x.workspaces) (moved updated)) its;
                                    found = found;
                                    is_pending = ground arith;
                                    result = refl;
                                    posts =
                                        subst
                                          (λ (x : Db).
                                            Posts
                                              (plain_row home recipient adjust g.amount_usd
                                                (concat "gift_claim:" code) note env.now)
                                              bal x d'')
                                          (moved updated) posts;
                                  },
                                ))
                                refl)
                            (λ e c d''. refl))
                        refl)
                    (λ e. refl)))
                refl)
            refl)
          refl)
        refl
    where
      T : Result (GiftCard × ℤ) × Session → Type 0
      T = Undone ClaimDone

      moved :
          {n : ℕ} {d' : Db}
          → ok (update_gifts (is_open code) (claimed_by recipient env.now) d) ≡ ok (n, d')
          → d' ≡ closed code (claimed_by recipient env.now) d
      moved h = ground arith

module _ (code note : String) (env : Env) (d : Db) where
  -- A refund fails and changes nothing, or closes a pending gift and pays it back to its sender.
  abbrev pub RefundEnds : Result GiftCard × Db → Type 0
  RefundEnds (err e, d') = d' ≡ d
  RefundEnds (ok h, d') =
      (g : GiftCard) × (new : ℤ) × (h ≡ refunded_gift g)
      × Closes code refunded_gift g.sender_user_id refund (concat "gift_refund:" code) note env.now
          g new d d'

  RefundDone : Result GiftCard × Session → Type 0
  RefundDone rt = RefundEnds (leave rt)

  -- Whatever statement fails, a refund fails and leaves the database as it was, or it found a
  -- pending gift of the code, marks it as refunded and moves its amount into the home workspace
  -- of its sender by one balanced movement.
  pub gift_refund_tx-ends : RefundEnds (run (gift_refund_tx code note) env d)
  unfolding gift_refund_tx run RefundDone update_gifts
  gift_refund_tx-ends =
      transact_step RefundDone _ _
        (query_step T _ _ _
          (or_raise_step T _ _ _ _
            (λ g found.
              raise_if_step T _ _ _ _
                (λ is_pending.
                  exec_step T _ _ _
                    (λ n d' updated.
                      raise_if_step T _ _ _ _
                        (λ _.
                          add_balance_tx_step T g.sender_user_id refund g.amount_usd
                            (concat "gift_refund:" code) note true _ _
                            (λ home bal c d'' its _ posts.
                              commit_step T _ _
                                (pure_end T _ _ (
                                  g,
                                  bal +ℤ g.amount_usd,
                                  refl,
                                  record {
                                    home = home;
                                    bal = bal;
                                    is_home =
                                        IsHome-same g.sender_user_id home d d'
                                          (ap (λ (x : Db). x.users) (moved updated))
                                          (ap (λ (x : Db). x.workspaces) (moved updated)) its;
                                    found = found;
                                    is_pending = ground arith;
                                    result = refl;
                                    posts =
                                        subst
                                          (λ (x : Db).
                                            Posts
                                              (plain_row home g.sender_user_id refund g.amount_usd
                                                (concat "gift_refund:" code) note env.now)
                                              bal x d'')
                                          (moved updated) posts;
                                  },
                                ))
                                refl)
                            (λ e c d''. refl))
                        refl)
                    (λ e. refl))
                refl)
            refl)
          refl)
        refl
    where
      T : Result GiftCard × Session → Type 0
      T = Undone RefundDone

      moved :
          {n : ℕ} {d' : Db}
          → ok (update_gifts (is_open code) refunded_gift d) ≡ ok (n, d')
          → d' ≡ closed code refunded_gift d
      moved h = ground arith
