-- ===== src/Auth/Sessions.antt =====
-- The sessions of users: `rotate_refresh_token`, `validate_session` and `_refresh_record` of
-- backend/app/modules/auth/service.py. The digest of a token is an argument, with a number for the
-- digest; so is the new token. The lock on a session makes calls on it take turns.
pub mod Replay
use lcs_system.Shared.{
  ℕ, ◌+◌, ◌*◌, leb, ◌==◌, if◌then◌else◌, Bool, true, false, ◌||◌, not, Option, none, some, or_else,
  List, [], ◌∷◌, map, first_row, is_found, Text, codes, upper, text_eqb,
}
use lcs_system.Auth.{User}

pub record UserSession : Type 0 where
  pub id : ℕ
  pub user_id : ℕ
  pub refresh_token_hash : ℕ
  pub expires_at : ℕ
  pub created_at : ℕ
  pub last_activity_at : Option ℕ
  pub revoked_at : Option ℕ

pub record UsedRefreshToken : Type 0 where
  pub token_hash : ℕ
  pub session_id : ℕ
  pub used_at : ℕ

pub record Sessions : Type 0 where
  pub users : List User
  pub sessions : List UserSession
  pub used : List UsedRefreshToken

-- The settings of `get_access_policy` that a session is measured by.
pub record AccessPolicy : Type 0 where
  pub session_absolute_minutes : ℕ
  pub session_timeout_minutes : ℕ

pub data Rotation : Type 0 where
  rotated : ℕ → Rotation
  session_invalid refresh_conflict session_revoked session_expired : Rotation

abbrev pub minutes : ℕ → ℕ
minutes n = n * 60000000

abbrev pub grace : ℕ
grace = 5000000

abbrev pub session_by_hash : ℕ → List UserSession → Option UserSession
session_by_hash digest = first_row (λ r. r.refresh_token_hash == digest)

abbrev pub session_by_id : ℕ → List UserSession → Option UserSession
session_by_id key = first_row (λ r. r.id == key)

abbrev pub used_token : ℕ → List UsedRefreshToken → Option UsedRefreshToken
used_token digest = first_row (λ t. t.token_hash == digest)

abbrev pub is_over : AccessPolicy → ℕ → UserSession → Bool
is_over policy now r =
    leb r.expires_at now
    || leb (r.created_at + minutes policy.session_absolute_minutes) now
    || leb (or_else r.last_activity_at r.created_at + minutes policy.session_timeout_minutes) now

abbrev pub modify_session : ℕ → (UserSession → UserSession) → List UserSession → List UserSession
modify_session key f = map (λ r. if r.id == key then f r else r)

abbrev pub active_user : ℕ → List User → Bool
active_user key [] = false
active_user key (u ∷ us) =
    let rest = active_user key us in
    if u.id == key then text_eqb (upper u.status) (codes "ACTIVE") else rest

-- A session that its current token renews.
abbrev pub renew : AccessPolicy → ℕ → ℕ → UserSession → Sessions → Sessions × Rotation
renew policy now fresh r s =
    if not (active_user r.user_id s.users)
    then (s, session_revoked)
    else if is_found r.revoked_at
    then (s, session_revoked)
    else if is_over policy now r
    then (s, session_expired)
    else (
      record s {
        sessions = modify_session r.id (λ x. record x { refresh_token_hash = fresh }) s.sessions;
        used =
            record { token_hash = r.refresh_token_hash; session_id = r.id; used_at = now } ∷ s.used;
      },
      rotated r.user_id,
    )

-- A session that is presented a token it has used up.
abbrev pub reuse : ℕ → UsedRefreshToken → UserSession → Sessions → Sessions × Rotation
reuse now t r s =
    if is_found r.revoked_at
    then (s, session_revoked)
    else if leb now (t.used_at + grace)
    then (s, refresh_conflict)
    else (
      record s {
        sessions = modify_session r.id (λ x. record x { revoked_at = some now }) s.sessions;
      },
      session_revoked,
    )

module _ (hash_token : Text → ℕ) (policy : AccessPolicy) where
  -- A token is presented at a time, with the one that would take its place.
  unfoldable pub rotate_refresh_token : Text → Text → ℕ → Sessions → Sessions × Rotation
  rotate_refresh_token token fresh now s = elim (session_by_hash (hash_token token) s.sessions) [
    | some r ↦ renew policy now (hash_token fresh) r s
    | none ↦ elim (used_token (hash_token token) s.used) [
      | none ↦ (s, session_invalid)
      | some t ↦ elim (session_by_id t.session_id s.sessions) [
        | none ↦ (s, session_invalid)
        | some r ↦ reuse now t r s
      ]
    ]
  ]
