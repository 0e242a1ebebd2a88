-- ===== src/Service/Auth/Deactivated.antt =====
-- nvr_core/service/auth.go: what the deactivation of a user shuts out, whatever is called later.
use rm_vms.Base.{
  ℕ, ◌≡◌, ◌≢◌, refl, sym, subst, ap₂, ◌∙◌, inl, inr, Bool, true, false, Option, none, some, List,
  [], ◌∷◌, ◌==◌, Bool-cases, All, String, arith, if_false,
}
use rm_vms.Base.Int.{ℤ, ◌≤ℤ◌, ◌<ℤ◌}
use rm_vms.Base.Assoc.{lookup, insert, String_eq, ℕ_eq, lookup-insert, lookup-erase_self}
use rm_vms.Service.Sessions.{
  UserStatusMap, login, Since, insert-Since, stale_rejected, update_permissions, erase-Since,
  logout_all,
}
use rm_vms.Service.Auth.Cases.{validate_parsed, entered, log_in-cases, refresh-cases}
use rm_vms.Service.Auth.Revoked.{Dead, revoke_hashed-Dead, revoke_all-Dead, dead_row_refused}
use rm_vms.Service.Auth.{
  Env, AuthState, User, RefreshToken, Times, Claims, error, unauthorized, found, get_by_hash,
  revoke, revoke_all_for_user, log_in, row_for, refresh_token, revoke_refresh_token,
  logout_deactivated_user, update_user_status_for_permission_change, validate_token, check_claims,
  Call, logs_in, refreshes, revokes, deactivates, changes_permissions, call, calls,
}

-- The table of users has the account switched off.
unfoldable pub SwitchedOff : Env → ℕ → Type 0
SwitchedOff env user =
    ((name : String) (u : User)
      → env.get_by_username name ≡ found u
      → u.id ≡ user
      → u.is_active ≡ false)
    × ((id : ℕ) (u : User) → env.get_by_id id ≡ some u → u.id ≡ user → u.is_active ≡ false)

-- A change of permissions comes at that time or later.
unfoldable pub NotBefore : ℤ → Call → Type 0
NotBefore t (logs_in username password raw times) = Unit
NotBefore t (refreshes raw now times) = Unit
NotBefore t (revokes raw accepted) = Unit
NotBefore t (deactivates user_id accepted) = Unit
NotBefore t (changes_permissions user_id now) = t ≤ℤ now

unfoldable pub owned : ℕ → RefreshToken → Bool
owned user r = r.user_id == user

login-Since_other :
    (t : ℤ) (user other : ℕ) (now : ℤ) (m : UserStatusMap)
    → other ≢ user
    → Since t user m
    → Since t user (login m other now)
unfolding Since login
login-Since_other t user other now m apart since v at = since v (of_entry (lookup other m) at)
  where
    of_entry :
        (o : Option ℤ)
        → lookup user (elim o [ none ↦ insert other now m | some s ↦ m ]) ≡ some v
        → lookup user m ≡ some v
    of_entry none e = sym (lookup-insert other user now m ∙ ground (arith, apart)) ∙ e
    of_entry (some s) e = e

active_other :
    (u : User) (user : ℕ) → (u.id ≡ user → u.is_active ≡ false) → u.is_active ≡ true → u.id ≢ user
active_other u user off active same = cc (off same, active)

call-Since_off :
    (env : Env) (s : AuthState) (user : ℕ) (t : ℤ) (c : Call)
    → SwitchedOff env user
    → NotBefore t c
    → Since t user s.user_status
    → Since t user (call env s c).user_status
unfolding call log_in refresh_token revoke_refresh_token logout_deactivated_user NotBefore
    update_user_status_for_permission_change entered SwitchedOff logout_all update_permissions
call-Since_off env s user t (logs_in username password raw times) (by_name, by_id) late since =
    log_in-cases env s (λ s'. Since t user s'.user_status) (env.get_by_username username) password
      raw times (λ updates. since)
      (λ u r updates e active drawn.
        login-Since_other t user u.id times.for_status s.user_status
          (active_other u user (by_name username u e) active) since)
call-Since_off env s user t (refreshes raw now times) (by_name, by_id) late since =
    refresh-cases env s (λ s'. Since t user s'.user_status)
      (get_by_hash (env.hash_refresh_token raw) s.refresh_tokens) now times since
      (λ r u e at active live.
        login-Since_other t user u.id times.for_status s.user_status
          (active_other u user (by_id r.user_id u at) active) since)
call-Since_off env s user t (revokes raw true) off late since = since
call-Since_off env s user t (revokes raw false) off late since = since
call-Since_off env s user t (deactivates user_id true) off late since =
    erase-Since t user user_id s.user_status since
call-Since_off env s user t (deactivates user_id false) off late since = since
call-Since_off env s user t (changes_permissions user_id now) off late since =
    insert-Since t user user_id now s.user_status late since

calls-Since_off :
    (env : Env) (user : ℕ) (t : ℤ) (cs : List Call) (s : AuthState)
    → SwitchedOff env user
    → All (NotBefore t) cs
    → Since t user s.user_status
    → Since t user (calls env s cs).user_status
unfolding calls
calls-Since_off env user t [] s off late since = since
calls-Since_off env user t (c ∷ cs) s off (l, late) since =
    calls-Since_off env user t cs (call env s c) off late
      (call-Since_off env s user t c off l since)

call-Dead_off :
    (env : Env) (s : AuthState) (user : ℕ) (c : Call)
    → SwitchedOff env user
    → Dead (owned user) s.refresh_tokens
    → Dead (owned user) (call env s c).refresh_tokens
unfolding call log_in refresh_token revoke_refresh_token logout_deactivated_user
    update_user_status_for_permission_change entered row_for Dead owned SwitchedOff
call-Dead_off env s user (logs_in username password raw times) (by_name, by_id) dead =
    log_in-cases env s (λ s'. Dead (owned user) s'.refresh_tokens) (env.get_by_username username)
      password raw times (λ updates. dead)
      (λ u r updates e active drawn.
        let other = active_other u user (by_name username u e) active in
        ((λ names. absurd (other (ground (arith, names)))), dead))
call-Dead_off env s user (refreshes raw now times) off dead =
    refresh-cases env s (λ s'. Dead (owned user) s'.refresh_tokens)
      (get_by_hash (env.hash_refresh_token raw) s.refresh_tokens) now times dead
      (λ r u e at active live. dead)
call-Dead_off env s user (revokes raw true) off dead =
    revoke_hashed-Dead (owned user) (env.hash_refresh_token raw) s.refresh_tokens dead
call-Dead_off env s user (revokes raw false) off dead = dead
call-Dead_off env s user (deactivates user_id true) off dead =
    revoke_all-Dead (owned user) user_id s.refresh_tokens dead
call-Dead_off env s user (deactivates user_id false) off dead = dead
call-Dead_off env s user (changes_permissions user_id now) off dead = dead

calls-Dead_off :
    (env : Env) (user : ℕ) (cs : List Call) (s : AuthState)
    → SwitchedOff env user
    → Dead (owned user) s.refresh_tokens
    → Dead (owned user) (calls env s cs).refresh_tokens
unfolding calls
calls-Dead_off env user [] s off dead = dead
calls-Dead_off env user (c ∷ cs) s off dead =
    calls-Dead_off env user cs (call env s c) off (call-Dead_off env s user c off dead)

revoke_all_kills :
    (user : ℕ) (rs : List RefreshToken) → Dead (owned user) (revoke_all_for_user user rs)
unfolding Dead revoke_all_for_user owned revoke
revoke_all_kills user [] = tt
revoke_all_kills user (r ∷ rs) = (killed (r.user_id == user) refl, revoke_all_kills user rs)
  where
    killed :
        (b : Bool)
        → (r.user_id == user) ≡ b
        → ((revoke b r).user_id == user) ≡ true
        → (revoke b r).is_revoked ≡ true
    killed true e names = refl
    killed false e names = absurd (cc (e, names))

logout-Since :
    (s : AuthState) (user : ℕ) (t : ℤ)
    → Since t user (logout_deactivated_user s user true).user_status
unfolding logout_deactivated_user Since logout_all
logout-Since s user t v e = absurd (cc (e, lookup-erase_self user s.user_status))

logout-Dead :
    (s : AuthState) (user : ℕ)
    → Dead (owned user) (logout_deactivated_user s user true).refresh_tokens
unfolding logout_deactivated_user
logout-Dead s user = revoke_all_kills user s.refresh_tokens

owned-Dead :
    (user : ℕ) (hash : String) (rs : List RefreshToken) (r : RefreshToken)
    → Dead (owned user) rs
    → get_by_hash hash rs ≡ some r
    → owned user r ≡ true
    → r.is_revoked ≡ true
unfolding Dead get_by_hash
owned-Dead user hash [] r dead e own = absurd (cc e)
owned-Dead user hash (x ∷ rs) r (d, dead) e own =
    elim (Bool-cases (String_eq.beq x.token_hash hash)) [
      | inl names ↦
          let got : some x ≡ some r = rw names at e in
          let same : x ≡ r = cc got in
          subst (λ y. y.is_revoked ≡ true) same
            (d (subst (λ y. owned user y ≡ true) (sym same) own))
      | inr other ↦ owned-Dead user hash rs r dead (rw other at e) own
    ]

own_row :
    (user : ℕ) (o : Option RefreshToken) (row r : RefreshToken)
    → o ≡ some row
    → o ≡ some r
    → row.user_id ≡ user
    → owned user r ≡ true
unfolding owned
own_row user o row r has e own =
    let same : row ≡ r = cc (has, e) in
    subst (λ y. (y.user_id == user) ≡ true) same (ground (arith, own))

stale_claims_refused :
    (s : AuthState) (claims : Claims) (user : ℕ) (issued t : ℤ)
    → claims.sub ≡ some user
    → claims.iat ≡ some issued
    → issued <ℤ t
    → Since t user s.user_status
    → check_claims s claims claims.sub claims.iat ≡ error unauthorized
unfolding check_claims
stale_claims_refused s claims user issued t sub iat stale since =
    ap₂ (check_claims s claims) sub iat
    ∙ if_false _ _ _ (stale_rejected t issued user s.user_status stale since)

pub deactivated_token_invalid :
    (env : Env) (s : AuthState) (user : ℕ) (t : ℤ) (later : List Call) (token : String)
    (claims : Claims) (issued now : ℤ)
    → SwitchedOff env user
    → All (NotBefore t) later
    → env.parse now token ≡ some claims
    → claims.sub ≡ some user
    → claims.iat ≡ some issued
    → issued <ℤ t
    → validate_token env (calls env (logout_deactivated_user s user true) later) token now
      ≡ error unauthorized
deactivated_token_invalid env s user t later token claims issued now off late parses sub iat stale =
    let after = calls env (logout_deactivated_user s user true) later in
    validate_parsed env after token now claims parses
    ∙ stale_claims_refused after claims user issued t sub iat stale (
        calls-Since_off env user t later (logout_deactivated_user s user true) off late
          (logout-Since s user t))

-- Once a user was logged out whose account is switched off, and whatever calls follow, log ins and
-- refreshes of anybody included, a refresh token of the user is refused and the attempt changes
-- nothing.
pub deactivated_user_cannot_refresh :
    (env : Env) (s : AuthState) (user : ℕ) (later : List Call) (raw : String) (now : ℤ)
    (row : RefreshToken) (times : Times)
    → SwitchedOff env user
    → get_by_hash
        (env.hash_refresh_token raw)
        (calls env (logout_deactivated_user s user true) later).refresh_tokens
      ≡ some row
    → row.user_id ≡ user
    → refresh_token env (calls env (logout_deactivated_user s user true) later) raw now times
      ≡ (error unauthorized, calls env (logout_deactivated_user s user true) later)
unfolding refresh_token
deactivated_user_cannot_refresh env s user later raw now row times off has own =
    let after = calls env (logout_deactivated_user s user true) later in
    let dead =
      calls-Dead_off env user later (logout_deactivated_user s user true) off
        (logout-Dead s user) in
    dead_row_refused env after (get_by_hash (env.hash_refresh_token raw) after.refresh_tokens) now
      times
      (λ r e. owned-Dead user (env.hash_refresh_token raw) after.refresh_tokens r dead e (
        own_row user (get_by_hash (env.hash_refresh_token raw) after.refresh_tokens) row r has e
          own))
