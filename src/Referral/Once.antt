-- ===== src/Referral/Once.antt =====
-- Calls around a reward: users sign up, rewards are released, and money moves.
use hypitoken.Prelude.{◌⊎◌, inl, inr, ℕ, ◌≡◌, Bool, List, [], ◌∷◌, String, ℤ}
use hypitoken.Store.Schema.{Db, TxKind}
use hypitoken.Store.Sql.{Env, run}
use hypitoken.Store.Keeps.{gets-Keeps, exec_ok-Keeps, autocommit-Keeps, run-Keeps, bind-Keeps}
use hypitoken.Wallet.{add_balance}
use hypitoken.Referral.Rewards.{release_inviter_reward}
use hypitoken.Referral.Conversions.{insert_conversion, insert_conversion_row}
use hypitoken.Referral.Apart.{add_balance-Keeps}
use hypitoken.Referral.Released.{
  IsPaid, IsReleased, release_inviter_reward-Keeps, insert_conversion_row_keeps,
  release_inviter_reward-ends, release_inviter_reward-idle,
}

pub data RewardCall : Type 0 where
  signs_up : ℕ → String → ℕ → ℕ → ℤ → ℤ → Bool → Bool → RewardCall
  releases : ℕ → RewardCall
  moves : ℕ → TxKind → ℤ → String → String → Bool → RewardCall

-- the database that a call leaves
unfoldable pub reward_step : RewardCall → Env → Db → Db
reward_step (signs_up campaign code inviter invitee invitee_bonus inviter_bonus fraud paid) env d =
    (run (insert_conversion campaign code inviter invitee invitee_bonus inviter_bonus fraud paid)
      env d).1
reward_step (releases invitee) env d = (run (release_inviter_reward invitee) env d).1
reward_step (moves user kind delta ref note allow) env d =
    (run (add_balance user kind delta ref note allow) env d).1

-- the database after calls, the latest first
unfoldable pub reward_after : List (RewardCall × Env) → Db → Db
reward_after [] d = d
reward_after ((c, env) ∷ cs) d = reward_step c env (reward_after cs d)

reward_step-IsReleased :
    (i : ℕ) (c : RewardCall) (env : Env) (d : Db)
    → IsReleased i d
    → IsReleased i (reward_step c env d)
unfolding reward_step insert_conversion
reward_step-IsReleased i
      (signs_up campaign code inviter invitee invitee_bonus inviter_bonus fraud paid) env d =
    run-Keeps (IsReleased i) _ env d (
      bind-Keeps (IsReleased i) _ _ (gets-Keeps (IsReleased i) _) (λ now.
        autocommit-Keeps (IsReleased i) _ (
          exec_ok-Keeps (IsReleased i) (insert_conversion_row _)
            (insert_conversion_row_keeps i _))))
reward_step-IsReleased i (releases invitee) env d =
    run-Keeps (IsReleased i) _ env d (release_inviter_reward-Keeps i invitee)
reward_step-IsReleased i (moves user kind delta ref note allow) env d =
    run-Keeps (IsReleased i) _ env d (add_balance-Keeps (IsPaid i) user kind delta ref note allow)

reward_after-IsReleased :
    (i : ℕ) (cs : List (RewardCall × Env)) (d : Db)
    → IsReleased i d
    → IsReleased i (reward_after cs d)
unfolding reward_after
reward_after-IsReleased i [] d h = h
reward_after-IsReleased i ((c, env) ∷ cs) d h =
    reward_step-IsReleased i c env (reward_after cs d) (reward_after-IsReleased i cs d h)

-- The reward for an invitee is released once: a release that changes anything makes every later
-- release for that invitee change nothing, whichever statements fail, and whatever sign-ups,
-- releases for any invitee and movements of money come between the two.
pub released_once :
    (invitee : ℕ) (env env' : Env) (d : Db) (cs : List (RewardCall × Env))
    → ((run (release_inviter_reward invitee) env d).1 ≡ d)
      ⊎ ((run
            (release_inviter_reward invitee)
            env'
            (reward_after cs (run (release_inviter_reward invitee) env d).1)).1
          ≡ reward_after cs (run (release_inviter_reward invitee) env d).1)
released_once invitee env env' d cs = elim (release_inviter_reward-ends invitee env d) [
  | inl same ↦ inl same
  | inr released ↦
      inr
        (release_inviter_reward-idle invitee env' _ (reward_after-IsReleased invitee cs _ released))
]
