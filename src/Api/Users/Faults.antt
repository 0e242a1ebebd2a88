-- ===== src/Api/Users/Faults.antt =====
-- nvr_core/apiserver/user.manage.go: a user who is switched off by an update of the account.
use rm_vms.Base.{
  ℕ, ◌≡◌, refl, ap, ◌∙◌, inl, inr, Bool, true, false, ◌&&◌, Option, none, some, List, [], ◌∷◌,
  String, ◌==◌, Bool-cases, if_true, if_false, if◌then◌else◌,
}
use rm_vms.Base.Int.{ℤ}
use rm_vms.Service.Auth.{Env, User}
use rm_vms.Service.Users.{
  UpdateUserRequest, get_by_id, has_row, update_row, update_rows, switch_off, set_fields,
  update_partial, repo_update_partial, no_updates, is_none,
}
use rm_vms.Api.Middleware.{SessionData, has_permission_user_no_self_manage, require_auth}
use rm_vms.Api.Users.{
  Server, success, server_error, Answers, updates, serve, handle, finish, expire_on_role,
}

-- The body `{"is_active": false}`.
abbrev pub off_request : UpdateUserRequest
off_request = record {
  name = none;
  password = none;
  email = none;
  role_id = none;
  is_active = some false;
}

held_row :
    (users : List User) (id : ℕ) (u : User) → get_by_id users id ≡ some u → has_row id users ≡ true
unfolding get_by_id has_row
held_row [] id u e = absurd (cc e)
held_row (x ∷ us) id u e = elim (Bool-cases (x.id == id)) [
  | inl same ↦ rw same refl
  | inr other ↦ rw other (held_row us id u (rw other at e))
]

update_row-id : (id : ℕ) (x : User) → (update_row (set_fields off_request) id x).id ≡ x.id
unfolding update_row set_fields
update_row-id id x = of_test (x.id == id)
  where
    of_test : (b : Bool) → (if b then record x { is_active = false } else x).id ≡ x.id
    of_test true = refl
    of_test false = refl

update_row_same :
    (id : ℕ) (x : User)
    → (x.id == id) ≡ true
    → update_row (set_fields off_request) id x ≡ switch_off x
unfolding update_row set_fields switch_off
update_row_same id x same = if_true (x.id == id) _ _ same

updated_row :
    (users : List User) (id : ℕ) (u : User)
    → get_by_id users id ≡ some u
    → get_by_id (update_rows (set_fields off_request) id users) id ≡ some (switch_off u)
unfolding get_by_id update_rows
updated_row [] id u e = absurd (cc e)
updated_row (x ∷ us) id u e = elim (Bool-cases (x.id == id)) [
  | inl same ↦
      let got : some x ≡ some u = rw same at e in
      let is : x ≡ u = cc got in
      if_true ((update_row (set_fields off_request) id x).id == id) _ _
        (ap (λ i. i == id) (update_row-id id x) ∙ same)
      ∙ ap some (update_row_same id x same ∙ ap switch_off is)
  | inr other ↦
      if_false ((update_row (set_fields off_request) id x).id == id) _ _
        (ap (λ i. i == id) (update_row-id id x) ∙ other)
      ∙ updated_row us id u (rw other at e)
]

updated : Server → ℕ → Server
updated sv id = record { users = update_rows (set_fields off_request) id sv.users; auth = sv.auth }

partial_off :
    (env : Env) (sv : Server) (id : ℕ) (accepts : Bool)
    → accepts ≡ true
    → has_row id sv.users ≡ true
    → update_partial env.hash_password sv.users id off_request accepts
      ≡ some (update_rows (set_fields off_request) id sv.users)
unfolding update_partial repo_update_partial no_updates is_none
partial_off env sv id accepts said held =
    if_true (accepts && has_row id sv.users) _ _ (ap (λ b. b && has_row id sv.users) said ∙ held)

switched :
    (env : Env) (sv : Server) (session : SessionData) (id : ℕ) (u : User) (a : Answers)
    → has_permission_user_no_self_manage session id ≡ true
    → get_by_id sv.users id ≡ some u
    → a.accepts ≡ true
    → handle env sv (some session) (some id) (updates (some off_request)) a
      ≡ (success, updated sv id)
unfolding handle serve finish expire_on_role updated
switched env sv session id u a may held accepts =
    if_true (has_permission_user_no_self_manage session id) _ _ may
    ∙ ap (λ o. finish sv server_error o sv.auth)
        (partial_off env sv id a.accepts accepts (held_row sv.users id u held))

-- Switching a user off through the update of the account succeeds, and the row says so, but no
-- session ends: the middleware answers every request as it did before, so that an access token of
-- the user that was good stays good.
pub update_off_keeps_sessions :
    (env : Env) (sv : Server) (session : SessionData) (id : ℕ) (u : User) (a : Answers)
    (bearer : String → Option String) (header : String) (now : ℤ)
    → has_permission_user_no_self_manage session id ≡ true
    → get_by_id sv.users id ≡ some u
    → a.accepts ≡ true
    → ((handle env sv (some session) (some id) (updates (some off_request)) a).0 ≡ success)
      × (get_by_id
            (handle env sv (some session) (some id) (updates (some off_request)) a).1.users
            id
          ≡ some (switch_off u))
      × (require_auth env
            (handle env sv (some session) (some id) (updates (some off_request)) a).1.auth
            bearer
            header
            now
          ≡ require_auth env sv.auth bearer header now)
unfolding updated
update_off_keeps_sessions env sv session id u a bearer header now may held accepts =
    let e = switched env sv session id u a may held accepts in
    (
      ap (λ r. r.0) e,
      ap (λ r. get_by_id r.1.users id) e ∙ updated_row sv.users id u held,
      ap (λ r. require_auth env r.1.auth bearer header now) e,
    )
