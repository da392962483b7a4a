-- ===== src/Wallet/Home.antt =====
-- The home workspace of a user, which personalWorkspaceIDTx finds.
use hypitoken.Prelude.{
  ℕ, ◌==◌, ◌≡◌, refl, Bool, true, false, ◌&&◌, ◌⊎◌, inl, inr, Option-cases, some, List, [], ◌∷◌,
  arith, first_where, exists_where,
}
use hypitoken.Store.Schema.{Db, User, Workspace, type_rank}
use hypitoken.Wallet.{select_home, lowest_personal}

-- a personal workspace of this identifier that the user created
abbrev pub is_own : ℕ → ℕ → Workspace → Bool
is_own user ws w = w.id == ws && (w.created_by == user && type_rank w.type == 0)

-- The user is there, and the workspace is the one that the user's row names; where it names none,
-- it is a personal workspace that the user created.
pub record IsHome (user : ℕ) (d : Db) (ws : ℕ) : Type 0 where
  pub row : User
  pub found : first_where (λ (u : User). u.id == user) d.users.rows ≡ some row
  pub real : (ws == 0) ≡ false
  pub chosen :
      (row.personal_workspace_id ≡ ws)
      ⊎ ((row.personal_workspace_id ≡ 0) × (exists_where (is_own user ws) d.workspaces.rows ≡ true))

-- the row behind a home pointer
row_of :
    (user ws : ℕ) (d : Db)
    → select_home user d ≡ some ws
    → (u : User) × (first_where (λ (u : User). u.id == user) d.users.rows ≡ some u)
      × (u.personal_workspace_id ≡ ws)
unfolding select_home
row_of user ws d h = elim (Option-cases (first_where (λ (u : User). u.id == user) d.users.rows)) [
  | inl missing ↦ absurd (ground (arith, h))
  | inr (u, there) ↦ (u, there, ground (arith, h))
]

pub stored-IsHome :
    (user ws : ℕ) (d : Db) → select_home user d ≡ some ws → (ws == 0) ≡ false → IsHome user d ws
stored-IsHome user ws d h real =
    let (u, there, same) = row_of user ws d h in
    record { row = u; found = there; real = real; chosen = inl same }

lowest_personal_own :
    (user ws : ℕ) (rows : List Workspace)
    → lowest_personal user rows ≡ ws
    → (ws == 0) ≡ false
    → exists_where (is_own user ws) rows ≡ true
unfolding lowest_personal exists_where
lowest_personal_own user ws [] h real = absurd (ground arith)
lowest_personal_own user ws (w ∷ rows) h real = ground (arith, lowest_personal_own user ws rows)

pub fallback-IsHome :
    (user ws : ℕ) (d : Db)
    → select_home user d ≡ some ws
    → (ws == 0) ≡ true
    → (lowest_personal user d.workspaces.rows == 0) ≡ false
    → IsHome user d (lowest_personal user d.workspaces.rows)
fallback-IsHome user ws d h unset real =
    let (u, there, same) = row_of user ws d h in
    record {
      row = u;
      found = there;
      real = real;
      chosen = inr (ground (arith, same), lowest_personal_own user _ d.workspaces.rows refl real);
    }

-- What leaves users and workspaces alone leaves homes alone.
pub IsHome-same :
    (user ws : ℕ) (d e : Db)
    → e.users ≡ d.users
    → e.workspaces ≡ d.workspaces
    → IsHome user e ws
    → IsHome user d ws
IsHome-same user ws d e us spaces h = record {
  row = h.row;
  found = rw (← us) h.found;
  real = h.real;
  chosen = rw (← spaces) h.chosen;
}
