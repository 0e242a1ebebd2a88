-- ===== src/Service/Users.antt =====
-- nvr_core/service/user.manage.go over the table of users (nvr_core/db/repository/user.go), a list
-- of rows in which an UPDATE changes every row of the id. Whether the database accepts a statement
-- and what a password is hashed to are parameters.
use rm_vms.Base.{
  ℕ, Bool, true, false, ◌&&◌, ◌||◌, Option, none, some, List, [], ◌∷◌, if◌then◌else◌, String, ◌==◌,
}
use rm_vms.Base.Int.{ℤ, pos, ltb_ℤ}
use rm_vms.Base.Assoc.{String_eq}
use rm_vms.Service.Auth.{User, Lookup, found, not_found}

-- `WHERE id = ?` and `WHERE username = ?`
unfoldable pub get_by_id : List User → ℕ → Option User
get_by_id [] id = none
get_by_id (u ∷ us) id = if u.id == id then some u else get_by_id us id

unfoldable pub get_by_username : List User → String → Lookup
get_by_username [] name = not_found
get_by_username (u ∷ us) name =
    if String_eq.beq u.username name then found u else get_by_username us name

-- `UPDATE users SET ... WHERE id = ?`
unfoldable pub update_row : (User → User) → ℕ → User → User
update_row change id u = if u.id == id then change u else u

unfoldable pub update_rows : (User → User) → ℕ → List User → List User
update_rows change id [] = []
update_rows change id (u ∷ us) = update_row change id u ∷ update_rows change id us

unfoldable pub delete_rows : ℕ → List User → List User
delete_rows id [] = []
delete_rows id (u ∷ us) = let rest = delete_rows id us in if u.id == id then rest else u ∷ rest

unfoldable pub has_row : ℕ → List User → Bool
has_row id [] = false
has_row id (u ∷ us) = u.id == id || has_row id us

-- `PartialUpdateInterfaces`, as `MapToPartialInterface` makes it.
pub record UpdateUserRequest : Type 0 where
  pub name : Option String
  pub password : Option String
  pub email : Option String
  pub role_id : Option ℕ
  pub is_active : Option Bool

abbrev pub or_keep {ℓ} : {A : Type ℓ} → Option A → A → A
or_keep none old = old
or_keep (some new) old = new

unfoldable pub set_fields : UpdateUserRequest → User → User
set_fields r u = record u {
  name = or_keep r.name u.name;
  password = or_keep r.password u.password;
  email = or_keep r.email u.email;
  role_id = or_keep r.role_id u.role_id;
  is_active = or_keep r.is_active u.is_active;
}

unfoldable pub is_none {ℓ} : {A : Type ℓ} → Option A → Bool
is_none none = true
is_none (some a) = false

-- `len(updates) == 0`
unfoldable pub no_updates : UpdateUserRequest → Bool
no_updates r =
    is_none r.name
    && is_none r.password
    && is_none r.email
    && is_none r.role_id
    && is_none r.is_active

-- The table after the call, or none for an error.
unfoldable pub repo_update_partial : List User → ℕ → UpdateUserRequest → Bool → Option (List User)
repo_update_partial users id r accepted =
    if no_updates r
    then some users
    else if accepted && has_row id users
    then some (update_rows (set_fields r) id users)
    else none

unfoldable pub hashed_request : Option String → UpdateUserRequest → UpdateUserRequest
hashed_request hash r = record r { password = hash }

unfoldable pub update_partial :
    (String → Option String) → List User → ℕ → UpdateUserRequest → Bool → Option (List User)
update_partial hash users id r accepted = elim r.password [
  | none ↦ repo_update_partial users id r accepted
  | some password ↦ elim (hash password) [
    | none ↦ none
    | some hashed ↦ repo_update_partial users id (hashed_request (some hashed) r) accepted
  ]
]

unfoldable pub update_user_password :
    (String → Option String) → List User → ℕ → String → Bool → Option (List User)
update_user_password hash users id password accepted = elim (hash password) [
  | none ↦ none
  | some hashed ↦
      if accepted then some (update_rows (λ u. record u { password = hashed }) id users) else none
]

unfoldable pub switch_off : User → User
switch_off u = record u { is_active = false }

-- `none` stands for either error, the database's or that of the own account.
unfoldable pub deactivate_user : List User → ℕ → ℕ → Bool → Option (List User)
deactivate_user users admin_id target_user_id accepted =
    if admin_id == target_user_id
    then none
    else if accepted
    then some (update_rows switch_off target_user_id users)
    else none

unfoldable pub delete_user : List User → ℕ → ℕ → Bool → Option (List User)
delete_user users admin_id target_user_id accepted =
    if admin_id == target_user_id
    then none
    else if accepted
    then some (delete_rows target_user_id users)
    else none

unfoldable pub update_user_role : List User → ℕ → ℕ → Bool → Option (List User)
update_user_role users target_user_id new_role_id accepted = elim (get_by_id users target_user_id) [
  | none ↦ none
  | some u ↦
      if accepted
      then some (update_rows (λ v. record v { role_id = new_role_id }) target_user_id users)
      else none
]

-- `page` and `pageSize` as `GetAllUsers` corrects them.
unfoldable pub page_of : ℤ → ℤ
page_of page = if ltb_ℤ page (pos 1) then pos 1 else page

unfoldable pub page_size_of : ℤ → ℤ
page_size_of page_size =
    if ltb_ℤ page_size (pos 1) || ltb_ℤ (pos 100) page_size then pos 20 else page_size
