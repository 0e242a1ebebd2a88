-- ===== src/Service/Auth/Revoked.antt =====
-- nvr_core/service/auth.go: what a revocation and a deactivation shut out, whatever is called later.
use rm_vms.Base.{
  ℕ, ◌≡◌, refl, subst, ap, inl, inr, Bool, true, false, ◌||◌, Option, none, some, List, [], ◌∷◌,
  ◌==◌, if_true, Bool-cases, All, String,
}
use rm_vms.Base.Int.{ℤ, ltb_ℤ}
use rm_vms.Base.Assoc.{String_eq, ℕ_eq}
use rm_vms.Service.Auth.Cases.{entered, log_in-cases, refresh-cases}
use rm_vms.Service.Auth.{
  Env, AuthState, RefreshToken, Times, error, unauthorized, get_by_hash, revoke, revoke_hashed,
  revoke_all_for_user, log_in, row_for, refresh_row, refresh_token, revoke_refresh_token,
  logout_deactivated_user, update_user_status_for_permission_change, Call, logs_in, refreshes,
  revokes, deactivates, changes_permissions, call, calls,
}

-- Every row that the test names is revoked.
unfoldable pub Dead : (RefreshToken → Bool) → List RefreshToken → Type 0
Dead named [] = Unit
Dead named (r ∷ rs) = (named r ≡ true → r.is_revoked ≡ true) × Dead named rs

revoke-Dead :
    (named : RefreshToken → Bool) (b : Bool) (r : RefreshToken)
    → (named (revoke false r) ≡ true → r.is_revoked ≡ true)
    → named (revoke b r) ≡ true
    → (revoke b r).is_revoked ≡ true
unfolding revoke
revoke-Dead named true r dead names = refl
revoke-Dead named false r dead names = dead names

pub revoke_hashed-Dead :
    (named : RefreshToken → Bool) (hash : String) (rs : List RefreshToken)
    → Dead named rs
    → Dead named (revoke_hashed hash rs)
unfolding Dead revoke_hashed revoke
revoke_hashed-Dead named hash [] dead = tt
revoke_hashed-Dead named hash (r ∷ rs) (d, dead) =
    (revoke-Dead named (String_eq.beq r.token_hash hash) r d, revoke_hashed-Dead named hash rs dead)

pub revoke_all-Dead :
    (named : RefreshToken → Bool) (user_id : ℕ) (rs : List RefreshToken)
    → Dead named rs
    → Dead named (revoke_all_for_user user_id rs)
unfolding Dead revoke_all_for_user revoke
revoke_all-Dead named user_id [] dead = tt
revoke_all-Dead named user_id (r ∷ rs) (d, dead) =
    (revoke-Dead named (r.user_id == user_id) r d, revoke_all-Dead named user_id rs dead)

-- The call draws no refresh token with that hash.
unfoldable pub Fresh : Env → String → Call → Type 0
Fresh env hash (logs_in username password none t) = Unit
Fresh env hash (logs_in username password (some raw) t) =
    String_eq.beq (env.hash_refresh_token raw) hash ≡ false
Fresh env hash (refreshes raw now t) = Unit
Fresh env hash (revokes raw accepted) = Unit
Fresh env hash (deactivates user_id accepted) = Unit
Fresh env hash (changes_permissions user_id now) = Unit

-- The rows with that hash.
unfoldable pub hashed : String → RefreshToken → Bool
hashed hash r = String_eq.beq r.token_hash hash

call-Dead :
    (env : Env) (s : AuthState) (hash : String) (c : Call)
    → Fresh env hash c
    → Dead (hashed hash) s.refresh_tokens
    → Dead (hashed hash) (call env s c).refresh_tokens
unfolding call log_in refresh_token revoke_refresh_token logout_deactivated_user
    update_user_status_for_permission_change entered row_for Dead hashed Fresh
call-Dead env s hash (logs_in username password none t) fresh dead =
    log_in-cases env s (λ s'. Dead (hashed hash) s'.refresh_tokens) (env.get_by_username username)
      password none t (λ updates. dead) (λ u r updates e active drawn. absurd (cc drawn))
call-Dead env s hash (logs_in username password (some raw) t) fresh dead =
    log_in-cases env s (λ s'. Dead (hashed hash) s'.refresh_tokens) (env.get_by_username username)
      password (some raw) t (λ updates. dead)
      (λ u r updates e active drawn.
        let same : raw ≡ r = cc drawn in
        (
          (λ names. absurd (
              cc (
                subst (λ x. String_eq.beq (env.hash_refresh_token x) hash ≡ false) same fresh,
                names,
              ))),
          dead,
        ))
call-Dead env s hash (refreshes raw now t) fresh dead =
    refresh-cases env s (λ s'. Dead (hashed hash) s'.refresh_tokens)
      (get_by_hash (env.hash_refresh_token raw) s.refresh_tokens) now t dead
      (λ r u e at active live. dead)
call-Dead env s hash (revokes raw true) fresh dead =
    revoke_hashed-Dead (hashed hash) (env.hash_refresh_token raw) s.refresh_tokens dead
call-Dead env s hash (revokes raw false) fresh dead = dead
call-Dead env s hash (deactivates user_id true) fresh dead =
    revoke_all-Dead (hashed hash) user_id s.refresh_tokens dead
call-Dead env s hash (deactivates user_id false) fresh dead = dead
call-Dead env s hash (changes_permissions user_id now) fresh dead = dead

calls-Dead :
    (env : Env) (hash : String) (cs : List Call) (s : AuthState)
    → All (Fresh env hash) cs
    → Dead (hashed hash) s.refresh_tokens
    → Dead (hashed hash) (calls env s cs).refresh_tokens
unfolding calls
calls-Dead env hash [] s fresh dead = dead
calls-Dead env hash (c ∷ cs) s (f, fresh) dead =
    calls-Dead env hash cs (call env s c) fresh (call-Dead env s hash c f dead)

revoke_hashed_kills :
    (hash : String) (rs : List RefreshToken) → Dead (hashed hash) (revoke_hashed hash rs)
unfolding Dead revoke_hashed hashed revoke
revoke_hashed_kills hash [] = tt
revoke_hashed_kills hash (r ∷ rs) =
    (killed (String_eq.beq r.token_hash hash) refl, revoke_hashed_kills hash rs)
  where
    killed :
        (b : Bool)
        → String_eq.beq r.token_hash hash ≡ b
        → String_eq.beq (revoke b r).token_hash hash ≡ true
        → (revoke b r).is_revoked ≡ true
    killed true e names = refl
    killed false e names = absurd (cc (e, names))

found-Dead :
    (hash : String) (rs : List RefreshToken) (r : RefreshToken)
    → Dead (hashed hash) rs
    → get_by_hash hash rs ≡ some r
    → r.is_revoked ≡ true
unfolding Dead hashed get_by_hash
found-Dead hash [] r dead e = absurd (cc e)
found-Dead hash (x ∷ rs) r (d, dead) e = elim (Bool-cases (String_eq.beq x.token_hash hash)) [
  | inl names ↦
      let got : some x ≡ some r = rw names at e in
      let same : x ≡ r = cc got in subst (λ y. y.is_revoked ≡ true) same (d names)
  | inr other ↦ found-Dead hash rs r dead (rw other at e)
]

pub dead_row_refused :
    (env : Env) (s : AuthState) (o : Option RefreshToken) (now : ℤ) (t : Times)
    → ((r : RefreshToken) → o ≡ some r → r.is_revoked ≡ true)
    → refresh_row env s o now t ≡ (error unauthorized, s)
unfolding refresh_row
dead_row_refused env s none now t dead = refl
dead_row_refused env s (some r) now t dead =
    if_true (r.is_revoked || ltb_ℤ r.expires_at now) _ _
      (ap (λ b. b || ltb_ℤ r.expires_at now) (dead r refl))

-- Once a refresh token was revoked, whoever then logs in, refreshes, is logged out, is deactivated or
-- gets other permissions, it is refused and the attempt changes nothing, unless a later log in draws
-- a token with the same hash.
pub revoked_token_refused :
    (env : Env) (s : AuthState) (raw : String) (later : List Call) (now : ℤ) (t : Times)
    → All (Fresh env (env.hash_refresh_token raw)) later
    → refresh_token env (calls env (revoke_refresh_token env s raw true) later) raw now t
      ≡ (error unauthorized, calls env (revoke_refresh_token env s raw true) later)
unfolding refresh_token revoke_refresh_token
revoked_token_refused env s raw later now t fresh =
    let hash = env.hash_refresh_token raw in
    let s' = revoke_refresh_token env s raw true in
    let dead = calls-Dead env hash later s' fresh (revoke_hashed_kills hash s.refresh_tokens) in
    dead_row_refused env (calls env s' later) (get_by_hash hash (calls env s' later).refresh_tokens)
      now t (λ r e. found-Dead hash (calls env s' later).refresh_tokens r dead e)
