-- ===== src/Auth/Tests.antt =====
-- Runs of signing in.
use lcs_system.Shared.{
  length, ◌≡◌, ◌≤◌, ◌<◌, refl, arith, none, some, [], ◌∷◌, pos, All, List, ℕ, Option, Text, codes,
  text_eqb, false,
}
use lcs_system.Auth.{
  User, UserCredential, Accounts, SecuritySettings, lockout_policy, Login, signed_in, refused,
  locked, Attempt, answers, authenticate,
}
use lcs_system.Auth.Sessions.{UserSession, Sessions, AccessPolicy, rotated, rotate_refresh_token}
use lcs_system.Auth.Sessions.Replay.{IsReplay, rotate_refresh_token-IsReplay}
use lcs_system.Auth.Lockout.{count_refused, IsTurnedAway, IsGuess, guesses-bounded}

abbrev user : User
user = record {
  id = 1;
  user_code = codes "U1";
  username = codes "ANN";
  email = codes "A@B";
  status = codes "active";
  is_system_admin = false;
  token_version = 0;
}

abbrev credential : UserCredential
credential = record {
  user_id = 1;
  password_hash = codes "SECRET";
  failed_attempt_count = 1;
  locked_until = none;
}

abbrev accounts : Accounts
accounts = record { users = user ∷ []; credentials = credential ∷ [] }

-- Three attempts, and a lock of one minute.
abbrev settings : Option SecuritySettings
settings = some (record { max_login_attempts = some (pos 1); account_lock_minutes = some (pos 1) })

abbrev attempt : Text → ℕ → Attempt
attempt password now = record { login = codes "ANN"; password = password; now = now }

abbrev guesses : List Attempt
guesses =
    attempt (codes "A") 100
    ∷ attempt (codes "B") 300
    ∷ attempt (codes "C") 200
    ∷ attempt (codes "D") 400
    ∷ []

-- The second wrong password locks the account, and the right one does not open it until a minute
-- later.
runs :
    answers text_eqb settings
      (attempt (codes "A") 100
        ∷ attempt (codes "B") 300
        ∷ attempt (codes "SECRET") 400
        ∷ attempt (codes "SECRET") 60000300
        ∷ [])
      accounts
    ≡ refused ∷ refused ∷ locked ∷ signed_in 1 ∷ []
unfolding answers lcs_system.Auth.count_failure lockout_policy
runs = refl

is_guess :
    (password : Text) (now : ℕ)
    → text_eqb password (codes "SECRET") ≡ false
    → 100 ≤ now
    → now < 500
    → IsGuess text_eqb settings (codes "ANN") (codes "SECRET") 100 (attempt password now)
unfolding lockout_policy
is_guess password now wrong after before = record {
  login_given = refl;
  wrong = wrong;
  after = after;
  before = omega (arith, before);
}

guesses-bounded_example :
    All IsTurnedAway (answers text_eqb settings guesses accounts)
    × (count_refused (answers text_eqb settings guesses accounts) ≤ (lockout_policy settings).0)
guesses-bounded_example =
    guesses-bounded text_eqb settings (codes "ANN") 100 user guesses accounts credential refl refl (
      is_guess (codes "A") 100 refl (omega arith) (omega arith),
      (
        is_guess (codes "B") 300 refl (omega arith) (omega arith),
        (
          is_guess (codes "C") 200 refl (omega arith) (omega arith),
          (is_guess (codes "D") 400 refl (omega arith) (omega arith), tt),
        ),
      ),
    )

-- A session, with the length of a token for its digest.
abbrev signed_session : UserSession
signed_session = record {
  id = 5;
  user_id = 1;
  refresh_token_hash = 3;
  expires_at = 600000000;
  created_at = 0;
  last_activity_at = none;
  revoked_at = none;
}

abbrev sessions : Sessions
sessions = record { users = user ∷ []; sessions = signed_session ∷ []; used = [] }

abbrev access_policy : AccessPolicy
access_policy = record { session_absolute_minutes = 10; session_timeout_minutes = 5 }

abbrev renewed_sessions : Sessions
renewed_sessions = record sessions {
  sessions = record signed_session { refresh_token_hash = 4 } ∷ [];
  used = record { token_hash = 3; session_id = 5; used_at = 100 } ∷ [];
}

is_renewed :
    rotate_refresh_token length access_policy (codes "OLD") (codes "NEXT") 100 sessions
    ≡ (renewed_sessions, rotated 1)
unfolding rotate_refresh_token
is_renewed = refl

-- Six seconds later the old token revokes the session.
rotate_refresh_token-IsReplay_example : IsReplay 100 6000100 signed_session renewed_sessions (
    rotate_refresh_token length access_policy
      (codes "OLD")
      (codes "OTHER")
      6000100
      renewed_sessions)
rotate_refresh_token-IsReplay_example =
    rotate_refresh_token-IsReplay length access_policy (codes "OLD") (codes "NEXT") 100
      signed_session sessions refl (record { own = refl; unique = (λ _. refl, tt) })
      (λ e. omega (arith, e)) is_renewed (codes "OTHER") 6000100
