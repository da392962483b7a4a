-- ===== src/Gifts/Escrow.antt =====
-- What gifts do with the money in the system: the movements of the ledger and the pending gifts
-- together are constant, and a gift is closed once.
use hypitoken.Prelude.{
  ℕ, ◌+◌, ◌≤◌, ◌≡◌, refl, sym, ap, ◌∙◌, Bool, true, false, String, ℤ, pos, ◌+ℤ◌, neg_ℤ, some, arith,
  subst, inl, inr, Bool-cases, first_where, update_where, count_where, count_where-append, int_laws,
  +ℤ_assoc, List, [], ◌∷◌, ◌++◌, str_eq, eq_iff, if◌then◌else◌,
}
use hypitoken.Store.Schema.{Db, GiftCard, GiftStatus, TxKind}
use hypitoken.Store.Sql.{Env, Result, ok, err, run}
use hypitoken.Store.Ledger.{LedgerRow, sum_where, set_balance, to_tx}
use hypitoken.Wallet.Post.{Posts, sum_where-append}
use hypitoken.Gifts.{
  is_gift, has_status, append_gift, sent, gift_send_tx, is_open, gift_claim_tx, gift_refund_tx,
  gift_sum,
}
use hypitoken.Gifts.Settle.{
  Closes, SendEnds, gift_send_tx-ends, ClaimEnds, gift_claim_tx-ends, RefundEnds,
  gift_refund_tx-ends,
}

-- the sum of all movements of all workspaces
unfoldable pub ledger_total : Db → ℤ
ledger_total d = sum_where (λ _. true) d.wallet_tx.rows

-- the money in pending gifts
unfoldable pub held : Db → ℤ
held d = gift_sum (has_status GiftStatus.pending) d.gift_cards.rows

unfoldable pub money : Db → ℤ
money d = ledger_total d +ℤ held d

-- gift_cards.code is unique
abbrev pub UniqueCodes : Db → Type 0
UniqueCodes d = (code : String) → count_where (is_gift code) d.gift_cards.rows ≤ 1

gift_sum-append :
    (p : GiftCard → Bool) (gs : List GiftCard) (g : GiftCard)
    → gift_sum p (gs ++ g ∷ []) ≡ gift_sum p gs +ℤ (if p g then g.amount_usd else pos 0)
unfolding gift_sum
gift_sum-append p [] g = omega int_laws
gift_sum-append p (h ∷ gs) g = rw (gift_sum-append p gs g) (omega int_laws)

zero_l : (z : ℤ) → pos 0 +ℤ z ≡ z
zero_l z = omega int_laws

swap : (a b c : ℤ) → a +ℤ (b +ℤ c) ≡ b +ℤ (a +ℤ c)
swap a b c = omega int_laws

module _ (code : String) (change : GiftCard → GiftCard)
    (closes : (g : GiftCard) → has_status GiftStatus.pending (change g) ≡ false) where
  not_there :
      (gs : List GiftCard)
      → count_where (is_gift code) gs ≡ 0
      → gift_sum (has_status GiftStatus.pending) (update_where (is_open code) change gs)
        ≡ gift_sum (has_status GiftStatus.pending) gs
  unfolding count_where update_where gift_sum
  not_there [] h = refl
  not_there (g ∷ gs) h = ground (arith, not_there gs)

  -- closing the one gift of a code releases its amount
  release :
      (gs : List GiftCard) (g : GiftCard)
      → count_where (is_gift code) gs ≤ 1
      → first_where (is_gift code) gs ≡ some g
      → has_status GiftStatus.pending g ≡ true
      → g.amount_usd
          +ℤ gift_sum (has_status GiftStatus.pending) (update_where (is_open code) change gs)
        ≡ gift_sum (has_status GiftStatus.pending) gs
  unfolding count_where update_where gift_sum first_where
  release [] g u found is_pending = cc
  release (h ∷ gs) g u found is_pending = elim (Bool-cases (is_gift code h)) [
    | inl here ↦
        ground (arith, closes h, not_there gs, zero_l (gift_sum (has_status GiftStatus.pending) gs))
    | inr elsewhere ↦
        let rest = release gs g (ground arith) (ground arith) is_pending in
        ground (
          arith,
          rest,
          swap g.amount_usd h.amount_usd
              (gift_sum (has_status GiftStatus.pending) (update_where (is_open code) change gs)),
          swap g.amount_usd (pos 0)
              (gift_sum (has_status GiftStatus.pending) (update_where (is_open code) change gs)),
        )
  ]

  keep_count :
      (other : String) (gs : List GiftCard)
      → ((g : GiftCard) → (change g).code ≡ g.code)
      → count_where (is_gift other) (update_where (is_open code) change gs)
        ≡ count_where (is_gift other) gs
  unfolding count_where update_where
  keep_count other [] same = refl
  keep_count other (g ∷ gs) same = ground (arith, keep_count other gs same, same g)

-- a movement adds its amount to the ledger
Posts-ledger_total :
    {row : LedgerRow} {bal : ℤ} {d d' : Db}
    → Posts row bal d d'
    → ledger_total d' ≡ ledger_total d +ℤ row.amount_usd
unfolding ledger_total set_balance
Posts-ledger_total {row} {bal} {d} p =
    rw p.after (sum_where-append (λ _. true) d.wallet_tx.rows (to_tx (d.wallet_tx.seq + 1) row))

Posts-held : {row : LedgerRow} {bal : ℤ} {d d' : Db} → Posts row bal d d' → held d' ≡ held d
unfolding held set_balance
Posts-held p = rw p.after refl

-- closing a gift moves its amount from the held money to the ledger
module _ {code : String} {change : GiftCard → GiftCard} {user : ℕ} {kind : TxKind}
    {ref note : String} {now : ℕ} {g : GiftCard} {new : ℤ} {d d' : Db}
    (closes : (h : GiftCard) → has_status GiftStatus.pending (change h) ≡ false)
    (same : (h : GiftCard) → (change h).code ≡ h.code) where
  Closes-money :
      Closes code change user kind ref note now g new d d' → UniqueCodes d → money d' ≡ money d
  unfolding money held ledger_total set_balance
  Closes-money c unique = rw (Posts-ledger_total c.posts) (
      rw (Posts-held c.posts) (
        +ℤ_assoc (ledger_total d) g.amount_usd _
        ∙ ap (λ (z : ℤ). ledger_total d +ℤ z)
            (release code change closes d.gift_cards.rows g (unique code) c.found c.is_pending)))

  Closes-UniqueCodes :
      Closes code change user kind ref note now g new d d' → UniqueCodes d → UniqueCodes d'
  unfolding set_balance
  Closes-UniqueCodes c unique =
      rw c.posts.after
        (λ other. rw (keep_count code change closes other d.gift_cards.rows same) (unique other))

-- the operations on gifts
pub data GiftCall : Type 0 where
  send : GiftCard → String → GiftCall
  claim : String → ℕ → String → GiftCall
  refund : String → String → GiftCall

abbrev pub call : GiftCall → Env → Db → Db
call (send g note) env d = (run (gift_send_tx g note) env d).1
call (claim code user note) env d = (run (gift_claim_tx code user note) env d).1
call (refund code note) env d = (run (gift_refund_tx code note) env d).1

-- A history of calls, each in its own environment.
unfoldable pub calls : List (GiftCall × Env) → Db → Db
calls [] d = d
calls ((c, env) ∷ cs) d = calls cs (call c env d)

append_gift-UniqueCodes :
    (g : GiftCard) (d : Db)
    → count_where (is_gift g.code) d.gift_cards.rows ≡ 0
    → UniqueCodes d
    → UniqueCodes (append_gift g d)
unfolding count_where
append_gift-UniqueCodes g d fresh unique code = elim (Bool-cases (str_eq g.code code)) [
  | inl same ↦
      let here : count_where (is_gift code) d.gift_cards.rows ≡ 0 =
        subst (λ (c : String). count_where (is_gift c) d.gift_cards.rows ≡ 0)
          ((eq_iff g.code code).0 same) fresh in
      rw
        (count_where-append (is_gift code) d.gift_cards.rows
          (record g { id = d.gift_cards.seq + 1 } ∷ []))
        (ground arith)
  | inr other ↦
      rw
        (count_where-append (is_gift code) d.gift_cards.rows
          (record g { id = d.gift_cards.seq + 1 } ∷ []))
        (ground (arith, unique code))
]

append_gift-money :
    (g : GiftCard) (now : ℕ) (d : Db) → money (append_gift (sent g now) d) ≡ money d +ℤ g.amount_usd
unfolding money held ledger_total
append_gift-money g now d =
    rw
      (gift_sum-append (has_status GiftStatus.pending) d.gift_cards.rows
        (record (sent g now) { id = d.gift_cards.seq + 1 }))
      (sym (+ℤ_assoc (ledger_total d) (held d) g.amount_usd))

Posts-money :
    {row : LedgerRow} {bal : ℤ} {d d' : Db}
    → Posts row bal d d'
    → money d' ≡ money d +ℤ row.amount_usd
unfolding money
Posts-money {row} {bal} {d} p =
    rw (Posts-ledger_total p) (rw (Posts-held p) (regroup (ledger_total d) row.amount_usd (held d)))
  where
    regroup : (a b c : ℤ) → a +ℤ b +ℤ c ≡ a +ℤ c +ℤ b
    regroup a b c = omega int_laws

module _ (env : Env) (d : Db) (unique : UniqueCodes d) where
  send_keeps :
      (g : GiftCard) (note : String) (end : Result ℤ × Db)
      → SendEnds g note env d end
      → (money end.1 ≡ money d) × UniqueCodes end.1
  unfolding set_balance
  send_keeps g note (err e, d') same = rw same (refl, unique)
  send_keeps g note (ok new, d') (home, bal, mid, _, _, _, posts, fresh, after) = rw after (
    append_gift-money g env.now mid
        ∙ ap (λ (z : ℤ). z +ℤ g.amount_usd) (Posts-money posts)
        ∙ cancel (money d) g.amount_usd,
    append_gift-UniqueCodes (sent g env.now) mid fresh (rw posts.after unique),
  )
    where
      cancel : (a b : ℤ) → a +ℤ neg_ℤ b +ℤ b ≡ a
      cancel a b = omega int_laws

  claim_keeps :
      (code : String) (user : ℕ) (note : String) (end : Result (GiftCard × ℤ) × Db)
      → ClaimEnds code user note env d end
      → (money end.1 ≡ money d) × UniqueCodes end.1
  claim_keeps code user note (err e, d') same = rw same (refl, unique)
  claim_keeps code user note (ok (h, new), d') (g, _, c) = (
    Closes-money (λ h. refl) (λ h. refl) c unique,
    Closes-UniqueCodes (λ h. refl) (λ h. refl) c unique,
  )

  refund_keeps :
      (code note : String) (end : Result GiftCard × Db)
      → RefundEnds code note env d end
      → (money end.1 ≡ money d) × UniqueCodes end.1
  refund_keeps code note (err e, d') same = rw same (refl, unique)
  refund_keeps code note (ok h, d') (g, new, _, c) = (
    Closes-money (λ h. refl) (λ h. refl) c unique,
    Closes-UniqueCodes (λ h. refl) (λ h. refl) c unique,
  )

  call_keeps : (c : GiftCall) → (money (call c env d) ≡ money d) × UniqueCodes (call c env d)
  call_keeps (send g note) = send_keeps g note _ (gift_send_tx-ends g note env d)
  call_keeps (claim code user note) =
      claim_keeps code user note _ (gift_claim_tx-ends code user note env d)
  call_keeps (refund code note) = refund_keeps code note _ (gift_refund_tx-ends code note env d)

-- Whatever history of sends, claims and refunds runs from a database whose gift codes are unique,
-- whichever of its statements fail: the sum of the ledger and the pending gifts is what it was, and
-- the codes are still unique.
pub gifts_conserve_money :
    (cs : List (GiftCall × Env)) (d : Db)
    → UniqueCodes d
    → (money (calls cs d) ≡ money d) × UniqueCodes (calls cs d)
unfolding calls
gifts_conserve_money [] d unique = (refl, unique)
gifts_conserve_money ((c, env) ∷ cs) d unique =
    let (same, unique') = call_keeps env d unique c in
    let (rest, last_unique) = gifts_conserve_money cs (call c env d) unique' in
    (rest ∙ same, last_unique)
