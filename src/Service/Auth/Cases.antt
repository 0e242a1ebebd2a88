-- ===== src/Service/Auth/Cases.antt =====
-- nvr_core/service/auth.go: the states in which a log in and a refresh can leave the service.
use rm_vms.Base.{
  ℕ, ◌≡◌, refl, Bool, true, false, not, ◌||◌, Option, none, some, List, ◌∷◌, String, if◌then◌else◌,
}
use rm_vms.Base.Int.{ℤ, ltb_ℤ}
use rm_vms.Service.Sessions.{login}
use rm_vms.Service.Auth.{
  Env, AuthState, User, RefreshToken, Times, Lookup, found, not_found, lookup_error, register_login,
  issue_tokens, log_in_user, register_refresh, with_password, migrate_hash, row_for, generate_token,
  refresh_permissions, refresh_user, refresh_row, matches, Claims, validate_token, check_claims,
}

choice {ℓ} :
    {A : Type ℓ} (P : AuthState → Type 0) (b : Bool) (x y : A × AuthState)
    → (b ≡ true → P x.1)
    → (b ≡ false → P y.1)
    → P (if b then x else y).1
choice P true x y h k = h refl
choice P false x y h k = k refl

not-false : (b : Bool) → not b ≡ false → b ≡ true
not-false true e = refl
not-false false e = absurd (cc e)

-- The state after a log in, if it succeeds.
unfoldable pub entered : Env → AuthState → User → String → Times → List (ℕ × String) → AuthState
entered env s user raw t updates = record {
  user_status = login s.user_status user.id t.for_status;
  refresh_tokens = row_for env user raw t.for_row ∷ s.refresh_tokens;
  password_updates = updates;
}

pub migrate-cases :
    (env : Env) (s : AuthState) (u : User) (password : String) (P : AuthState → Type 0)
    → ((updates : List (ℕ × String)) → P (record s { password_updates = updates }))
    → P (migrate_hash env s u password)
unfolding migrate_hash with_password
migrate-cases env s u password P all =
    of_test (env.is_legacy_hash u.password) (env.hash_password password)
  where
    of_test : (b : Bool) (h : Option String) → P (if b then with_password s u.id h else s)
    of_test true none = all s.password_updates
    of_test true (some h) = all ((u.id, h) ∷ s.password_updates)
    of_test false h = all s.password_updates

pub validate_parsed :
    (env : Env) (s : AuthState) (token : String) (now : ℤ) (claims : Claims)
    → env.parse now token ≡ some claims
    → validate_token env s token now ≡ check_claims s claims claims.sub claims.iat
unfolding validate_token
validate_parsed env s token now claims parses = rw (validate_token, parses) refl

module _ (env : Env) (s : AuthState) (P : AuthState → Type 0) where
  issue-cases :
      (u : User) (perms : Option (List String)) (raw : Option String) (t : Times)
      → P s
      → ((r : String) → raw ≡ some r → P (entered env s u r t s.password_updates))
      → P (issue_tokens env s u perms raw t).1
  unfolding issue_tokens register_login entered
  issue-cases u none raw t old new = old
  issue-cases u (some perms) none t old new = old
  issue-cases u (some perms) (some r) t old new = of_token (generate_token env u perms t.for_token)
    where
      of_token : (o : Option String) → P (register_login env s u perms o r t).1
      of_token none = old
      of_token (some token) =
          choice P (env.can_create (row_for env u r t.for_row)) _ _ (λ e. new r refl) (λ e. old)

  permission-cases :
      (u : User) (perms : Option (List String)) (t : Times)
      → P s
      → P (record s { user_status = login s.user_status u.id t.for_status })
      → P (refresh_permissions env s u perms t).1
  unfolding refresh_permissions register_refresh
  permission-cases u none t old new = old
  permission-cases u (some perms) t old new = of_token (generate_token env u perms t.for_token)
    where
      of_token : (o : Option String) → P (register_refresh s u perms o t).1
      of_token none = old
      of_token (some token) = new

-- A log in leaves the service as it was, up to the passwords, or has entered an active user.
module _ (env : Env) (s : AuthState) (P : AuthState → Type 0) where
  pub log_in-cases :
      (l : Lookup) (password : String) (raw : Option String) (t : Times)
      → ((updates : List (ℕ × String)) → P (record s { password_updates = updates }))
      → ((u : User) (r : String) (updates : List (ℕ × String))
          → l ≡ found u
          → u.is_active ≡ true
          → raw ≡ some r
          → P (entered env s u r t updates))
      → P (log_in_user env s l password raw t).1
  unfolding log_in_user entered
  log_in-cases not_found password raw t old new = old s.password_updates
  log_in-cases lookup_error password raw t old new = old s.password_updates
  log_in-cases (found u) password raw t old new =
      choice P (not u.is_active) _ _ (λ e. old s.password_updates)
        (λ active.
          choice P (not (matches (env.check_password_hash password u.password))) _ _
            (λ e. old s.password_updates)
            (λ e.
              migrate-cases env s u password
                (λ s'. P (issue_tokens env s' u (env.get_user_permission_codes u.id) raw t).1)
                (λ updates.
                  issue-cases env (record s { password_updates = updates }) P u
                    (env.get_user_permission_codes u.id) raw t (old updates)
                    (λ r e'. new u r updates refl (not-false u.is_active active) e'))))

  -- A refresh leaves it as it was, or has entered the active user of an unrevoked row.
  pub refresh-cases :
      (row : Option RefreshToken) (now : ℤ) (t : Times)
      → P s
      → ((r : RefreshToken) (u : User)
          → row ≡ some r
          → env.get_by_id r.user_id ≡ some u
          → u.is_active ≡ true
          → r.is_revoked ≡ false
          → P (record s { user_status = login s.user_status u.id t.for_status }))
      → P (refresh_row env s row now t).1
  unfolding refresh_row refresh_user
  refresh-cases none now t old new = old
  refresh-cases (some r) now t old new =
      choice P (r.is_revoked || ltb_ℤ r.expires_at now) _ _ (λ e. old)
        (λ e. of_user (env.get_by_id r.user_id) refl (unrevoked r.is_revoked e))
    where
      unrevoked : (b : Bool) → (b || ltb_ℤ r.expires_at now) ≡ false → b ≡ false
      unrevoked true e = e
      unrevoked false e = refl

      of_user :
          (o : Option User)
          → env.get_by_id r.user_id ≡ o
          → r.is_revoked ≡ false
          → P (refresh_user env s o t).1
      of_user none at live = old
      of_user (some u) at live =
          choice P (not u.is_active) _ _ (λ e. old)
            (λ active.
              permission-cases env s P u (env.get_user_permission_codes u.id) t old
                (new r u refl at (not-false u.is_active active) live))
