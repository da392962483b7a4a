-- ===== src/Referral/Released.antt =====
-- The bonus of an inviter is released once.
use hypitoken.Prelude.{
  ◌⊎◌, inl, inr, ℕ, ◌+◌, ◌≡◌, refl, sym, subst, Bool, true, false, not, ◌&&◌, ◌==◌, some, [], ◌∷◌,
  arith, if_cases, first_where, count_where, exists_where, exists_where-update,
  exists_where-append_true, exists_where-first, Bool-cases, ◌∙◌, count_where-append,
  count_where-update_le, count_where-cleared, first_where-stronger,
}
use hypitoken.Store.Schema.{Db, Conversion, Table}
use hypitoken.Store.Sql.{Env, Result, Session, run, enter}
use hypitoken.Store.Rules.{pure_end, query_step, or_raise_step, branch_step}
use hypitoken.Store.Autocommit.{autocommit_ok_step}
use hypitoken.Store.Keeps.{
  Both, Keeps, exec_ok-Keeps, pure-Keeps, or_raise-Keeps, branch-Keeps, attempt-Keeps, query-Keeps,
  autocommit-Keeps, bind-Keeps, keeps_step, attempt_end,
}
use hypitoken.Referral.Rewards.{settle_reward, release_inviter_reward}
use hypitoken.Referral.Conversions.{is_invitee, is_owed, paid, mark_paid, insert_conversion_row}
use hypitoken.Referral.Apart.{reward_open-Keeps, pay_inviter-Keeps}

-- the conversion of the invitee is there, and nothing is owed for it
abbrev pub IsPaid : ℕ → Table Conversion → Type 0
IsPaid i t = (exists_where (is_invitee i) t.rows ≡ true) × (count_where (is_owed i) t.rows ≡ 0)

abbrev pub IsReleased : ℕ → Db → Type 0
IsReleased i d = IsPaid i d.referral_conversions

module _ (i : ℕ) where
  mark_paid_keeps : (j : ℕ) (d : Db) → IsReleased i d → IsReleased i (mark_paid j d).1
  unfolding mark_paid
  mark_paid_keeps j d (there, none_owed) =
      let fewer =
        count_where-update_le (is_owed j) (is_owed i) paid (λ c h k. ground arith)
          d.referral_conversions.rows in
      (
        exists_where-update (is_invitee i) (is_owed j) paid (λ c. refl) d.referral_conversions.rows
            ∙ there,
        omega arith,
      )

  -- After the update, nothing is owed.
  mark_paid-IsReleased :
      (c : Conversion) (d : Db)
      → first_where (λ c. is_owed i c && not c.fraud) d.referral_conversions.rows ≡ some c
      → IsReleased i (mark_paid i d).1
  unfolding mark_paid
  mark_paid-IsReleased c d found = (
    exists_where-update (is_invitee i) (is_owed i) paid (λ c. refl) d.referral_conversions.rows
        ∙ exists_where-first (is_invitee i) (λ c. is_owed i c && not c.fraud) (λ c h. ground arith)
            d.referral_conversions.rows c found,
    count_where-cleared (is_owed i) paid (λ c h. ground arith) d.referral_conversions.rows,
  )

  settle_reward-Keeps : (j : ℕ) (c : Conversion) → Keeps (IsReleased i) (settle_reward j c)
  unfolding settle_reward
  settle_reward-Keeps j c =
      bind-Keeps (IsReleased i) _ _
        (autocommit-Keeps (IsReleased i) _
          (exec_ok-Keeps (IsReleased i) (mark_paid j) (mark_paid_keeps j)))
        (λ changed.
          branch-Keeps (IsReleased i) _ _ _ (pure-Keeps (IsReleased i) tt)
            (pay_inviter-Keeps (IsPaid i) c))

  pub release_inviter_reward-Keeps : (j : ℕ) → Keeps (IsReleased i) (release_inviter_reward j)
  unfolding release_inviter_reward
  release_inviter_reward-Keeps j = attempt-Keeps (IsReleased i) _ _ (
      bind-Keeps (IsReleased i) _ _ (query-Keeps (IsReleased i) _) (λ found.
        bind-Keeps (IsReleased i) _ _ (or_raise-Keeps (IsReleased i) _ _) (λ c.
          bind-Keeps (IsReleased i) _ _
            (branch-Keeps (IsReleased i) _ _ _ (reward_open-Keeps (IsReleased i) j)
              (pure-Keeps (IsReleased i) true))
            (λ is_open.
              branch-Keeps (IsReleased i) _ _ _ (settle_reward-Keeps j c)
                (pure-Keeps (IsReleased i) tt)))))

  pub insert_conversion_row_keeps :
      (c : Conversion) (d : Db) → IsReleased i d → IsReleased i (insert_conversion_row c d).1
  unfolding insert_conversion_row count_where
  insert_conversion_row_keeps c d (there, none_owed) =
      if_cases (λ (x : Bool × Db). IsReleased i x.1) _ (λ _. (there, none_owed))
        (λ fresh.
          let row : Conversion = record c { id = d.referral_conversions.seq + 1 } in
          let more = count_where-append (is_owed i) d.referral_conversions.rows (row ∷ []) in
          let other = not_invitee fresh in
          (
            exists_where-append_true (is_invitee i) d.referral_conversions.rows (row ∷ []) there,
            ground arith,
          ))
    where
      not_invitee :
          exists_where (is_invitee c.invitee_user_id) d.referral_conversions.rows ≡ false
          → (c.invitee_user_id == i) ≡ false
      not_invitee fresh = elim (Bool-cases (c.invitee_user_id == i)) [
        | inl same ↦
            let itself : c.invitee_user_id ≡ i = ground arith in
            absurd (
              let missing : exists_where (is_invitee i) d.referral_conversions.rows ≡ false =
                subst (λ (n : ℕ). exists_where (is_invitee n) d.referral_conversions.rows ≡ false)
                  itself fresh in
              cc)
        | inr other ↦ other
      ]

  -- With the database as it was, the update releases the reward or does nothing.
  settle_reward_ends :
      (c : Conversion) (d : Db) (t : Session)
      → first_where (λ c. is_owed i c && not c.fraud) d.referral_conversions.rows ≡ some c
      → Both (λ x. x ≡ d) t
      → ((settle_reward i c t).1.saved ≡ d) ⊎ IsReleased i (settle_reward i c t).1.saved
  unfolding settle_reward
  settle_reward_ends c d t found same =
      autocommit_ok_step
        (λ (rt : Result (Unit {0}) × Session). (rt.1.saved ≡ d) ⊎ IsReleased i rt.1.saved)
        (mark_paid i) _ t
        (inr
          (branch-Keeps (IsReleased i) _ _ _ (pure-Keeps (IsReleased i) tt)
            (pay_inviter-Keeps (IsPaid i) c) _ (released, released)).1)
        (λ e. inl same.0)
    where
      released : IsReleased i (mark_paid i t.work).1
      released =
          subst (λ (x : Db). IsReleased i (mark_paid i x).1) (sym same.0)
            (mark_paid-IsReleased c d found)

  -- What a release leaves: nothing new, or a reward that is released.
  pub release_inviter_reward-ends :
      (env : Env) (d : Db)
      → ((run (release_inviter_reward i) env d).1 ≡ d)
        ⊎ IsReleased i (run (release_inviter_reward i) env d).1
  unfolding release_inviter_reward run
  release_inviter_reward-ends env d =
      attempt_end (λ t. (t.saved ≡ d) ⊎ IsReleased i t.saved) tt _ (enter env d)
        (query_step P _ _ _
          (or_raise_step P _ _ _ _
            (λ c found.
              keeps_step (λ x. x ≡ d) P _ _ _
                (branch-Keeps (λ x. x ≡ d) _ _ _ (reward_open-Keeps (λ x. x ≡ d) i)
                  (pure-Keeps (λ x. x ≡ d) true))
                (refl, refl)
                (λ is_open t same.
                  branch_step P is_open _ _ t (λ _. settle_reward_ends c d t found same)
                    (λ _. pure_end P _ _ (inl same.1)))
                (λ e t same. inl same.1))
            (inl refl))
          (inl refl))
    where
      P : Result (Unit {0}) × Session → Type 0
      P rt = (rt.1.saved ≡ d) ⊎ IsReleased i rt.1.saved

  pub release_inviter_reward-idle :
      (env : Env) (d : Db) → IsReleased i d → (run (release_inviter_reward i) env d).1 ≡ d
  unfolding release_inviter_reward run
  release_inviter_reward-idle env d released =
      attempt_end (λ t. t.saved ≡ d) tt _ (enter env d)
        (query_step P _ _ _
          (or_raise_step P _ _ _ _
            (λ c found. absurd (
              first_where-stronger (is_owed i) (λ c. is_owed i c && not c.fraud)
                d.referral_conversions.rows c (λ b more. ground arith) released.1 found))
            refl)
          refl)
    where
      P : Result (Unit {0}) × Session → Type 0
      P rt = rt.1.saved ≡ d
