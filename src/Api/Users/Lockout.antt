-- ===== src/Api/Users/Lockout.antt =====
-- nvr_core/apiserver/user.manage.go with the service of logins: what it means for a user to be
-- deactivated.
use rm_vms.Base.{
  ℕ, ◌≡◌, ◌≢◌, refl, sym, subst, ap, ◌∙◌, inl, inr, Bool, true, false, Option, none, some, List, [],
  ◌∷◌, All, String, ◌==◌, Bool-cases, if◌then◌else◌, arith,
}
use rm_vms.Base.Int.{ℤ, ◌<ℤ◌}
use rm_vms.Base.Assoc.{String_eq}
use rm_vms.Service.Auth.{
  Env, User, AuthState, Claims, found, Call, calls, error, unauthorized, validate_token,
  logout_deactivated_user,
}
use rm_vms.Service.Auth.Deactivated.{SwitchedOff, NotBefore, deactivated_token_invalid}
use rm_vms.Service.Users.{
  get_by_id, get_by_username, update_row, update_rows, switch_off, deactivate_user,
}
use rm_vms.Api.Middleware.{
  SessionData, invalid_token, require_auth, answer, has_permission_user_no_self_manage,
}
use rm_vms.Api.Users.{
  Server, env_of, success, forbidden, bad_request, Answers, deactivates, serve, handle, finish,
}

switched_row :
    (id : ℕ) (u : User)
    → (update_row switch_off id u).id ≡ id
    → (update_row switch_off id u).is_active ≡ false
unfolding update_row switch_off
switched_row id u = of_test (u.id == id) refl
  where
    of_test :
        (b : Bool)
        → (u.id == id) ≡ b
        → (if b then record u { is_active = false } else u).id ≡ id
        → (if b then record u { is_active = false } else u).is_active ≡ false
    of_test true e own = refl
    of_test false e own = absurd (ground arith)

switched_by_name :
    (id : ℕ) (users : List User) (name : String) (u : User)
    → get_by_username (update_rows switch_off id users) name ≡ found u
    → u.id ≡ id
    → u.is_active ≡ false
unfolding get_by_username update_rows
switched_by_name id [] name u e own = absurd (cc e)
switched_by_name id (x ∷ us) name u e own =
    elim (Bool-cases (String_eq.beq (update_row switch_off id x).username name)) [
      | inl named ↦
          let got : found (update_row switch_off id x) ≡ found u = rw named at e in
          let same : update_row switch_off id x ≡ u = cc got in
          subst (λ y. y.is_active ≡ false) same
            (switched_row id x (ap (λ (y : User). y.id) same ∙ own))
      | inr other ↦ switched_by_name id us name u (rw other at e) own
    ]

switched_by_id :
    (id : ℕ) (users : List User) (key : ℕ) (u : User)
    → get_by_id (update_rows switch_off id users) key ≡ some u
    → u.id ≡ id
    → u.is_active ≡ false
unfolding get_by_id update_rows
switched_by_id id [] key u e own = absurd (cc e)
switched_by_id id (x ∷ us) key u e own =
    elim (Bool-cases ((update_row switch_off id x).id == key)) [
      | inl named ↦
          let got : some (update_row switch_off id x) ≡ some u = rw named at e in
          let same : update_row switch_off id x ≡ u = cc got in
          subst (λ y. y.is_active ≡ false) same
            (switched_row id x (ap (λ (y : User). y.id) same ∙ own))
      | inr other ↦ switched_by_id id us key u (rw other at e) own
    ]

table_SwitchedOff :
    (env : Env) (id : ℕ) (users : List User)
    → SwitchedOff (env_of env (update_rows switch_off id users)) id
unfolding SwitchedOff env_of
table_SwitchedOff env id users = (switched_by_name id users, switched_by_id id users)

success_apart : bad_request ≢ success
success_apart e = cc e

finish_won :
    (sv : Server) (own accepted : Bool) (users : List User) (auth : AuthState)
    → (finish sv bad_request (if own then none else if accepted then some users else none) auth).0
      ≡ success
    → (finish sv bad_request (if own then none else if accepted then some users else none) auth).1
      ≡ record { users = users; auth = auth }
unfolding finish
finish_won sv true accepted users auth won = absurd (success_apart won)
finish_won sv false true users auth won = refl
finish_won sv false false users auth won = absurd (success_apart won)

-- The server after a deactivation that went through.
unfoldable pub deactivated : Server → ℕ → Server
deactivated sv id = record {
  users = update_rows switch_off id sv.users;
  auth = logout_deactivated_user sv.auth id true;
}

refused_apart : forbidden ≢ success
refused_apart e = cc e

permitted :
    (env : Env) (sv : Server) (session : SessionData) (id : ℕ) (a : Answers) (b : Bool)
    → a.revokes ≡ true
    → (if b then serve env sv session id deactivates a else (forbidden, sv)).0 ≡ success
    → (if b then serve env sv session id deactivates a else (forbidden, sv)).1 ≡ deactivated sv id
unfolding serve deactivate_user deactivated
permitted env sv session id a true revokes won =
    finish_won sv (session.user_id == id) a.accepts (update_rows switch_off id sv.users)
      (logout_deactivated_user sv.auth id a.revokes) won
    ∙ ap
        (λ b. record {
          users = update_rows switch_off id sv.users;
          auth = logout_deactivated_user sv.auth id b;
        })
        revokes
permitted env sv session id a false revokes won = absurd (refused_apart won)

handle_deactivates :
    (env : Env) (sv : Server) (session : SessionData) (id : ℕ) (a : Answers)
    → a.revokes ≡ true
    → (handle env sv (some session) (some id) deactivates a).0 ≡ success
    → (handle env sv (some session) (some id) deactivates a).1 ≡ deactivated sv id
unfolding handle
handle_deactivates env sv session id a revokes won =
    permitted env sv session id a (has_permission_user_no_self_manage session id) revokes won

invalid_answered :
    (env : Env) (s : AuthState) (bearer : String → Option String) (header token : String) (now : ℤ)
    → bearer header ≡ some token
    → validate_token env s token now ≡ error unauthorized
    → require_auth env s bearer header now ≡ invalid_token
unfolding require_auth answer
invalid_answered env s bearer header token now bears refused =
    rw (require_auth, bears) (ap answer refused)

-- When a request to deactivate a user succeeds and the revocation after it does too, then, whatever
-- log ins, refreshes, revocations, deactivations and changes of permissions follow while the table
-- of users stays, the middleware refuses every request with an access token of the user that was
-- issued before the time `t`, if later changes of permissions come at `t` or after it.
pub deactivated_locked_out :
    (env : Env) (sv : Server) (session : SessionData) (id : ℕ) (a : Answers) (t : ℤ)
    (later : List Call) (bearer : String → Option String) (header token : String) (claims : Claims)
    (issued now : ℤ)
    → (handle env sv (some session) (some id) deactivates a).0 ≡ success
    → a.revokes ≡ true
    → All (NotBefore t) later
    → bearer header ≡ some token
    → env.parse now token ≡ some claims
    → claims.sub ≡ some id
    → claims.iat ≡ some issued
    → issued <ℤ t
    → (let after = (handle env sv (some session) (some id) deactivates a).1 in
        require_auth
          (env_of env after.users)
          (calls (env_of env after.users) after.auth later)
          bearer
          header
          now)
      ≡ invalid_token
unfolding deactivated env_of
deactivated_locked_out env sv session id a t later bearer header token claims issued now won revokes
      late bears parses sub iat stale =
    subst
      (λ after.
        require_auth (env_of env after.users) (calls (env_of env after.users) after.auth later)
          bearer header now
        ≡ invalid_token)
      (sym (handle_deactivates env sv session id a revokes won))
      (invalid_answered (env_of env off)
        (calls (env_of env off) (logout_deactivated_user sv.auth id true) later) bearer header token
        now bears
        (deactivated_token_invalid (env_of env off) sv.auth id t later token claims issued now
          (table_SwitchedOff env id sv.users) late (parses_too parses) sub iat stale))
  where
    off : List User
    off = update_rows switch_off id sv.users

    parses_too : env.parse now token ≡ some claims → (env_of env off).parse now token ≡ some claims
    parses_too e = e
