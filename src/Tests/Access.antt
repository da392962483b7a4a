-- ===== src/Tests/Access.antt =====
-- The properties of workspaces, codes and limiters at the small bank.
use hypitoken.Prelude.{List, ◌*◌, ◌≡◌, refl, some, [], ◌∷◌, first_where, exists_where, update_where}
use hypitoken.Store.Sql.{Env, all_up, ok, run, ◌>>=◌}
use hypitoken.Wallet.{select_home}
use hypitoken.Workspaces.{
  create_personal_workspace, open_personal, insert_member, set_home, insert_workspace,
}
use hypitoken.Workspaces.Create.{created_is_home}
use hypitoken.EmailCodes.{consume_email_code}
use hypitoken.EmailCodes.Attempts.{ConsumeEnds, consume_email_code-ends}
use hypitoken.EmailCodes.Once.{CodeCall, codes_after, accepted_once}
use hypitoken.Limits.{Events, minute, allow}
use hypitoken.Limits.Claim.{new_claim_limiter, claim_allow}
use hypitoken.Limits.Bound.{Limited, allow-Limited}
use hypitoken.Limits.Maps.{IsMap}
use hypitoken.Limits.ClaimBound.{ClaimLimited, claim_allow-ClaimLimited}
use hypitoken.Tests.{bank}

opens_home :
    run (create_personal_workspace 3 "c@x" 0) (all_up 5) bank
    ≡ (ok 3, (run (create_personal_workspace 3 "c@x" 0) (all_up 5) bank).1)
unfolding run create_personal_workspace ◌>>=◌ select_home first_where open_personal insert_member
    exists_where set_home insert_workspace update_where
opens_home = refl

created_is_home_example :
    select_home 3 (run (create_personal_workspace 3 "c@x" 0) (all_up 5) bank).1 ≡ some 3
created_is_home_example = created_is_home 3 "c@x" 0 (all_up 5) bank _ 3 opens_home

consume_example :
    ConsumeEnds "a@x" "000000" "verify"
      (all_up 5)
      bank
      (run (consume_email_code "a@x" "000000" "verify") (all_up 5) bank)
consume_example = consume_email_code-ends "a@x" "000000" "verify" (all_up 5) bank

accepts :
    run (consume_email_code "a@x" "123456" "verify") (all_up 5) bank
    ≡ (ok tt, (run (consume_email_code "a@x" "123456" "verify") (all_up 5) bank).1)
unfolding run consume_email_code ◌>>=◌ first_where
accepts = refl

abbrev checks : List (CodeCall × Env)
checks =
    (CodeCall.consumes "a@x" "000000" "verify", all_up 7)
    ∷ (CodeCall.puts "b@x" "111111" "verify" 600, all_up 6)
    ∷ []

accepted_once_example :
    (run
        (consume_email_code "a@x" "123456" "verify")
        (all_up 8)
        (codes_after checks (run (consume_email_code "a@x" "123456" "verify") (all_up 5) bank).1)).0
      ≡ ok tt
    → ⊥
accepted_once_example =
    accepted_once "a@x" "verify" "123456" "123456" (all_up 5) (all_up 8) bank _ checks accepts
      (tt, (refl, tt))

abbrev seen : Events
seen = ("e:a@x", minute ∷ []) ∷ []

allow_example :
    Limited "a@x" "10.0.0.1" (2 * minute) seen (allow "a@x" "10.0.0.1" (2 * minute) seen)
    × IsMap (allow "a@x" "10.0.0.1" (2 * minute) seen).1
allow_example = allow-Limited "a@x" "10.0.0.1" (2 * minute) seen (tt, tt)

claim_allow_example :
    ClaimLimited "k" minute new_claim_limiter (claim_allow "k" minute new_claim_limiter)
claim_allow_example = claim_allow-ClaimLimited "k" minute new_claim_limiter
