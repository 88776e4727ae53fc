-- ===== src/Auth/Sessions/Replay.antt =====
-- A refresh token that is presented twice.
use lcs_system.Shared.{
  ℕ, ◌+◌, ◌≤◌, ◌<◌, leb, ◌==◌, if◌then◌else◌, Bool, true, false, not, ◌≡◌, ◌≢◌, refl, sym, ap, none,
  some, List, [], ◌∷◌, All, is_found, Text, arith, inl, inr, Bool-cases, eqb_refl, ◌⊎◌,
  first_row-passes, eqb→eq,
}
use lcs_system.Auth.Sessions.{
  UserSession, UsedRefreshToken, Sessions, AccessPolicy, Rotation, rotated, refresh_conflict,
  session_revoked, session_expired, grace, session_by_hash, session_by_id, used_token, is_over,
  modify_session, active_user, renew, reuse, rotate_refresh_token,
}

abbrev rehashed : ℕ → UserSession → UserSession
rehashed fresh x = record x { refresh_token_hash = fresh }

-- No session has the digest of the token that was renewed.
renewed_hash :
    (key digest fresh : ℕ) (rs : List UserSession)
    → All (λ x. x.refresh_token_hash ≡ digest → x.id ≡ key) rs
    → fresh ≢ digest
    → session_by_hash digest (modify_session key (rehashed fresh) rs) ≡ none
renewed_hash key digest fresh [] unique new = refl
renewed_hash key digest fresh (x ∷ rs) unique new =
    ground (arith, unique.0, new, renewed_hash key digest fresh rs unique.1 new)

found_modified :
    (key : ℕ) (f : UserSession → UserSession)
    → ((x : UserSession) → (f x).id ≡ x.id)
    → (rs : List UserSession) (r : UserSession) → session_by_id key rs ≡ some r
    → session_by_id key (modify_session key f rs) ≡ some (f r)
found_modified key f same [] r h = cc
found_modified key f same (x ∷ rs) r h = ground (arith, h, same x, found_modified key f same rs r)

-- The session is the one that its key finds, and its token no other session's.
pub record IsKeyed (s : Sessions) (r : UserSession) : Type 0 where
  pub own : session_by_id r.id s.sessions ≡ some r
  pub unique : All (λ x. x.refresh_token_hash ≡ r.refresh_token_hash → x.id ≡ r.id) s.sessions

abbrev renewed : ℕ → ℕ → UserSession → Sessions → Sessions
renewed now fresh r s = record s {
  sessions = modify_session r.id (rehashed fresh) s.sessions;
  used = record { token_hash = r.refresh_token_hash; session_id = r.id; used_at = now } ∷ s.used;
}

not_refused :
    (a b c : Bool) (s w : Sessions) (v : ℕ) {s' : Sessions} {u : ℕ}
    → ◌≡◌ {A = Sessions × Rotation}
        (if not a
          then (s, session_revoked)
          else if b
          then (s, session_revoked)
          else if c
          then (s, session_expired)
          else (w, rotated v))
        (s', rotated u)
    → (b ≡ false) × (s' ≡ w)
not_refused false b c s w v {s'} {u} h = let e : session_revoked ≡ rotated u = ap (λ x. x.1) h in cc
not_refused true true c s w v {s'} {u} h =
    let e : session_revoked ≡ rotated u = ap (λ x. x.1) h in cc
not_refused true false true s w v {s'} {u} h =
    let e : session_expired ≡ rotated u = ap (λ x. x.1) h in cc
not_refused true false false s w v h = (refl, sym (ap (λ x. x.0) h))

renew-rotated :
    (policy : AccessPolicy) (now fresh : ℕ) (r : UserSession) (s : Sessions) {s' : Sessions} {u : ℕ}
    → renew policy now fresh r s ≡ (s', rotated u)
    → (is_found r.revoked_at ≡ false) × (s' ≡ renewed now fresh r s)
renew-rotated policy now fresh r s h =
    not_refused (active_user r.user_id s.users) (is_found r.revoked_at) (is_over policy now r) s
      (renewed now fresh r s) r.user_id h

-- A token is refused without effect within the five seconds of grace, and later revokes its session.
pub IsReplay : ℕ → ℕ → UserSession → Sessions → Sessions × Rotation → Type 0
IsReplay now later r s result =
    ((later ≤ now + grace) × (result ≡ (s, refresh_conflict)))
    ⊎ ((now + grace < later)
        × (result.1 ≡ session_revoked)
        × (x : UserSession) × (session_by_id r.id result.0.sessions ≡ some x)
        × (x.revoked_at ≡ some later))

revoked : ℕ → UserSession → UserSession
revoked now x = record x { revoked_at = some now }

reuse-IsReplay :
    (later : ℕ) (t : UsedRefreshToken) (r : UserSession) (s : Sessions)
    → is_found r.revoked_at ≡ false
    → session_by_id r.id s.sessions ≡ some r
    → IsReplay t.used_at later r s (reuse later t r s)
unfolding IsReplay revoked
reuse-IsReplay later t r s live found = elim (Bool-cases (leb later (t.used_at + grace))) [
  | inl p ↦ rw (live, p) (inl (ground (arith, p), refl))
  | inr p ↦
      let after : t.used_at + grace < later = ground (arith, p) in
      let here = found_modified r.id (revoked later) (λ _. refl) s.sessions r found in
      rw (live, p) (inr (after, refl, revoked later r, here, refl))
]

module _ (hash_token : Text → ℕ) (policy : AccessPolicy) where
  rotate_refresh_token-reuse :
      (token again : Text) (later : ℕ) (t : UsedRefreshToken) (r : UserSession) (s : Sessions)
      → session_by_hash (hash_token token) s.sessions ≡ none
      → used_token (hash_token token) s.used ≡ some t
      → session_by_id t.session_id s.sessions ≡ some r
      → rotate_refresh_token hash_token policy token again later s ≡ reuse later t r s
  unfolding rotate_refresh_token
  rotate_refresh_token-reuse token again later t r s gone used own =
      rw (rotate_refresh_token, gone, used, own) refl

  renewed-IsReplay :
      (token fresh : Text) (now later : ℕ) (r : UserSession) (s : Sessions)
      → hash_token token ≡ r.refresh_token_hash
      → IsKeyed s r
      → hash_token fresh ≢ r.refresh_token_hash
      → is_found r.revoked_at ≡ false
      → (again : Text)
      → IsReplay now later r (renewed now (hash_token fresh) r s) (
          rotate_refresh_token hash_token policy token again later
            (renewed now (hash_token fresh) r s))
  unfolding IsReplay
  renewed-IsReplay token fresh now later r s same keyed new live again =
      let after = renewed now (hash_token fresh) r s in
      let gone =
        renewed_hash r.id r.refresh_token_hash (hash_token fresh) s.sessions keyed.unique new in
      let own =
        found_modified r.id (rehashed (hash_token fresh)) (λ _. refl) s.sessions r keyed.own in
      let t : UsedRefreshToken = record {
        token_hash = r.refresh_token_hash;
        session_id = r.id;
        used_at = now;
      } in
      let step =
        rotate_refresh_token-reuse token again later t (rehashed (hash_token fresh) r) after
          (rw same gone) (rw (same, eqb_refl r.refresh_token_hash) refl) own in
      rw step (reuse-IsReplay later t (rehashed (hash_token fresh) r) after live own)

  -- A token that a session has been renewed with is presented again. Within five seconds that is
  -- refused without effect; later it is refused, and the session is revoked at that time. The
  -- session is the one that its key finds, no other session has the digest of the token, and the
  -- digest of the new token is another.
  pub rotate_refresh_token-IsReplay :
      (token fresh : Text) (now : ℕ) (r : UserSession) (s : Sessions) {s' : Sessions} {u : ℕ}
      → session_by_hash (hash_token token) s.sessions ≡ some r
      → IsKeyed s r
      → hash_token fresh ≢ hash_token token
      → rotate_refresh_token hash_token policy token fresh now s ≡ (s', rotated u)
      → (again : Text) (later : ℕ)
      → IsReplay now later r s' (rotate_refresh_token hash_token policy token again later s')
  unfolding rotate_refresh_token
  rotate_refresh_token-IsReplay token fresh now r s found keyed new h again later =
      let same : hash_token token ≡ r.refresh_token_hash = sym (
        eqb→eq r.refresh_token_hash (hash_token token)
          (first_row-passes (λ x. x.refresh_token_hash == hash_token token) s.sessions r found)) in
      let (live, made) =
        renew-rotated policy now (hash_token fresh) r s (rw (rotate_refresh_token, found) at h) in
      rw made (renewed-IsReplay token fresh now later r s same keyed (rw same at new) live again)
