-- ===== src/Wallet/Add.antt =====
-- What AddBalance does.
use hypitoken.Prelude.{
  ℕ, ◌≡◌, refl, Bool, true, false, not, ◌&&◌, String, ℤ, pos, ◌+ℤ◌, ◌≤ℤ◌, ltb_ℤ, ◌⊎◌, inl, inr,
  arith,
}
use hypitoken.Store.Schema.{Db, TxKind}
use hypitoken.Store.Sql.{Env, Result, ok, err, Session, run, leave}
use hypitoken.Store.Rules.{Undone, pure_end, commit_step, transact_step}
use hypitoken.Wallet.{add_balance}
use hypitoken.Wallet.Home.{IsHome}
use hypitoken.Wallet.Post.{Posts}
use hypitoken.Wallet.Rules.{plain_row, add_balance_tx_step}

guarded :
    (allow : Bool) (z : ℤ) → ltb_ℤ z (pos 0) && not allow ≡ false → (allow ≡ true) ⊎ (pos 0 ≤ℤ z)
guarded true z h = inl refl
guarded false z h = inr (ground arith)

module _ (user : ℕ) (kind : TxKind) (delta : ℤ) (ref note : String) (allow : Bool) (env : Env)
    (d : Db) where
  abbrev pub AddEnds : Result ℤ × Db → Type 0
  AddEnds (err e, d') = d' ≡ d
  AddEnds (ok new, d') =
      (home : ℕ) × (bal : ℤ) × IsHome user d home
      × (new ≡ bal +ℤ delta)
      × ((allow ≡ true) ⊎ (pos 0 ≤ℤ new))
      × Posts (plain_row home user kind delta ref note env.now) bal d d'

  Ends : Result ℤ × Session → Type 0
  Ends rt = AddEnds (leave rt)

  -- Whatever statement fails, a signed move fails and leaves the database as it was, or it makes one
  -- balanced movement in the home workspace of the user, which stays at zero or above unless the
  -- caller allows less, and returns the balance after it.
  pub add_balance-ends : AddEnds (run (add_balance user kind delta ref note allow) env d)
  unfolding add_balance run Ends
  add_balance-ends =
      transact_step Ends _ _
        (add_balance_tx_step (Undone Ends) user kind delta ref note allow _ _
          (λ home bal c d' its allowed posts.
            commit_step (Undone Ends) _ _
              (pure_end (Undone Ends) _ _
                (home, bal, its, refl, guarded allow (bal +ℤ delta) allowed, posts))
              refl)
          (λ e c d'. refl))
        refl
