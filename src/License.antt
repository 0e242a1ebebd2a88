-- ===== src/License.antt =====
-- nvr_core/license/manager.go, with `LoadToken` and `LoadClaims` of the license's status
-- (nvr_core/apiserver/dto/license.go, nvr_core/db/models/license.go) and `GetLicenseInfo`
-- (nvr_core/security/license.go). The mutex is a field: a goroutine that locks it again blocks for
-- ever, which is `deadlock`; a read of a nil token is `panics`. A time is in whole seconds,
-- a timer is its deadline and whether it still runs. What jwt makes of a token is a parameter, which
-- takes the time at which it looks at the expiry of the token, with the numbers of the claims as the integers that Go converts them to.
use rm_vms.Base.{
  ℕ, ◌≡◌, refl, Bool, true, false, not, ◌&&◌, Option, none, some, List, [], ◌∷◌, ◌++◌,
  if◌then◌else◌, String,
}
use rm_vms.Base.Int.{ℤ, pos, add64, sub64, leb_ℤ, eqb_ℤ}
use rm_vms.Base.Assoc.{lookup, insert, erase, ℕ_eq, String_eq}
mod Sums
mod Ledger
mod Runs
mod Faults
mod Blank
mod Tests

pub data Run {ℓ} (A : Type ℓ) : Type ℓ where
  ok : A → Run A
  deadlock panics : Run A

infixl 5 ◌>>=◌
abbrev pub ◌>>=◌ {ℓ κ} : {A : Type ℓ} {B : Type κ} → Run A → (A → Run B) → Run B
ok a >>= f = f a
deadlock >>= f = deadlock
panics >>= f = panics

-- The call returns, with a value that satisfies `P`.
unfoldable pub Ends {ℓ} : {A : Type ℓ} → (A → Type 0) → Run A → Type 0
Ends P (ok a) = P a
Ends P deadlock = ⊥
Ends P panics = ⊥

pub Ends-bind {ℓ κ} :
    {A : Type ℓ} {B : Type κ} (P : A → Type 0) (Q : B → Type 0) (r : Run A) (f : A → Run B)
    → Ends P r
    → ((a : A) → P a → Ends Q (f a))
    → Ends Q (r >>= f)
unfolding Ends
Ends-bind P Q (ok a) f p k = k a p
Ends-bind P Q deadlock f p k = absurd p
Ends-bind P Q panics f p k = absurd p

pub Ends-if {ℓ} :
    {A : Type ℓ} (P : A → Type 0) (b : Bool) (x y : Run A)
    → (b ≡ true → Ends P x)
    → (b ≡ false → Ends P y)
    → Ends P (if b then x else y)
Ends-if P true x y h k = h refl
Ends-if P false x y h k = k refl

-- models.License, a row of the table.
pub record License : Type 0 where
  pub id : ℕ
  pub key : String
  pub raw_token : String
  pub iss : String
  pub aud : String
  pub kind : String
  pub machine_id : String
  pub max_devices : ℤ
  pub issued_at : ℤ
  pub expires_at : ℤ
  pub uploaded_at : ℤ

-- The claims that have the type asked for.
pub record Claims : Type 0 where
  pub key : Option String
  pub iss : Option String
  pub aud : Option String
  pub kind : Option String
  pub machine_id : Option String
  pub max_devices : Option ℤ
  pub iat : Option ℤ
  pub exp : Option ℤ

pub record Token : Type 0 where
  pub valid : Bool
  pub claims : Option Claims

pub record LicenseStatus : Type 0 where
  pub token : String
  pub license : License
  pub is_valid : Bool
  pub errors : List String

abbrev pub or_keep {ℓ} : {A : Type ℓ} → Option A → A → A
or_keep none old = old
or_keep (some new) old = new

-- The token itself is not a claim: `RawToken` stays.
unfoldable pub load_claims : License → Claims → License
load_claims lic c = record lic {
  key = or_keep c.key lic.key;
  iss = or_keep c.iss lic.iss;
  aud = or_keep c.aud lic.aud;
  kind = or_keep c.kind lic.kind;
  machine_id = or_keep c.machine_id lic.machine_id;
  max_devices = or_keep c.max_devices lic.max_devices;
  issued_at = or_keep c.iat lic.issued_at;
  expires_at = or_keep c.exp lic.expires_at;
}

-- The embedded public key, and `jwt.Parse` with it; `none` is a nil token.
pub record Jwt : Type 0 where
  pub key_error : Option String
  pub parse : String → ℤ → Option Token

-- The error of `jwt.Parse` is not passed on.
unfoldable pub get_license_info : Jwt → String → ℤ → Option Token × Option String
get_license_info jwt token_string now = elim jwt.key_error [
  | some err ↦ (none, some err)
  | none ↦ (jwt.parse token_string now, none)
]

abbrev pub empty_license : License
empty_license = record {
  id = 0;
  key = "";
  raw_token = "";
  iss = "";
  aud = "";
  kind = "";
  machine_id = "";
  max_devices = pos 0;
  issued_at = pos 0;
  expires_at = pos 0;
  uploaded_at = pos 0;
}

abbrev pub empty_status : LicenseStatus
empty_status = record { token = ""; license = empty_license; is_valid = false; errors = [] }

abbrev pub error_list : Option String → List String
error_list none = []
error_list (some err) = err ∷ []

-- The claims, then the machine.
unfoldable pub with_claims : Option Claims → LicenseStatus → LicenseStatus
with_claims none ls = record ls { errors = ls.errors ++ ("empty claims" ∷ []) }
with_claims (some c) ls = record ls { license = load_claims ls.license c }

unfoldable pub check_machine : LicenseStatus → String → Bool → LicenseStatus
check_machine ls machine_id valid =
    if String_eq.beq ls.license.machine_id machine_id
    then record ls { is_valid = valid }
    else record ls { is_valid = false; errors = ls.errors ++ ("Machine id not match" ∷ []) }

-- `token, err` as `GetLicenseInfo` returns them.
unfoldable pub load_info :
    LicenseStatus → String → String → Option Token → Option String → Run LicenseStatus
load_info ls token_string machine_id none err = panics
load_info ls token_string machine_id (some token) err = ok (
    check_machine
      (with_claims token.claims
        (record ls { token = token_string; errors = ls.errors ++ error_list err }))
      machine_id (elim err [ none ↦ token.valid | some e ↦ false ]))

unfoldable pub load_token : Jwt → LicenseStatus → String → String → ℤ → Run LicenseStatus
load_token jwt ls token_string machine_id now =
    let info = get_license_info jwt token_string now in
    load_info ls token_string machine_id info.0 info.1

pub record Timer : Type 0 where
  pub fires_at : ℤ
  pub running : Bool

pub record LicenseManager : Type 0 where
  pub locked : Bool
  pub timers : List (ℕ × Timer)
  pub machine_id : String
  pub max_camera : ℤ
  pub lic_stats : List (ℕ × LicenseStatus)
  pub status : List LicenseStatus

unfoldable pub new_license_manager : LicenseManager
new_license_manager = record {
  locked = false;
  timers = [];
  machine_id = "";
  max_camera = pos 0;
  lic_stats = [];
  status = [];
}

-- `mu.Lock` and `mu.Unlock`
unfoldable pub lock : LicenseManager → Run LicenseManager
lock lm = if lm.locked then deadlock else ok (record lm { locked = true })

unfoldable pub unlock : LicenseManager → LicenseManager
unlock lm = record lm { locked = false }

-- `slices.DeleteFunc` of the statuses with the same raw token
unfoldable pub delete_token : String → List LicenseStatus → List LicenseStatus
delete_token raw_token [] = []
delete_token raw_token (l ∷ ls) =
    let rest = delete_token raw_token ls in
    if String_eq.beq l.license.raw_token raw_token then rest else l ∷ rest

unfoldable pub remove_license_status : LicenseManager → LicenseStatus → LicenseManager
remove_license_status lm lic = record lm {
  max_camera = sub64 lm.max_camera lic.license.max_devices;
  lic_stats = erase lic.license.id lm.lic_stats;
  status = delete_token lic.license.raw_token lm.status;
}

-- The body of `triggerExpiration`, under the lock.
unfoldable pub drop_held : LicenseManager → Option LicenseStatus → LicenseManager
drop_held lm none = lm
drop_held lm (some lic) = remove_license_status lm lic

unfoldable pub expire : LicenseManager → ℕ → LicenseManager
expire lm license_id =
    let lm' = drop_held lm (lookup license_id lm.lic_stats) in
    record lm' { timers = erase license_id lm'.timers }

unfoldable pub trigger_expiration : LicenseManager → ℕ → Run LicenseManager
trigger_expiration lm license_id = lock lm >>= λ lm'. ok (unlock (expire lm' license_id))

-- `existingTimer.Stop()`: the timer stays in the map.
unfoldable pub stop_timer : List (ℕ × Timer) → ℕ → List (ℕ × Timer)
stop_timer timers id = elim (lookup id timers) [
  | none ↦ timers
  | some timer ↦ insert id (record timer { running = false }) timers
]

unfoldable pub schedule_expiration_locked : LicenseManager → License → ℤ → Run LicenseManager
schedule_expiration_locked lm lic now =
    let stopped = record lm { timers = stop_timer lm.timers lic.id } in
    if eqb_ℤ lic.expires_at (pos 0)
    then ok stopped
    else if leb_ℤ lic.expires_at now
    then trigger_expiration stopped lic.id
    else ok (record stopped {
      timers = insert lic.id (record { fires_at = lic.expires_at; running = true }) stopped.timers;
    })

unfoldable pub schedule_expiration : LicenseManager → License → ℤ → Run LicenseManager
schedule_expiration lm lic now =
    lock lm >>= λ lm'. schedule_expiration_locked lm' lic now >>= λ lm''. ok (unlock lm'')

unfoldable pub with_license : LicenseManager → License → LicenseStatus → LicenseManager
with_license lm lic stats = record lm {
  max_camera = add64 lm.max_camera lic.max_devices;
  lic_stats = insert lic.id stats lm.lic_stats;
}

unfoldable pub append_status : LicenseManager → LicenseStatus → LicenseManager
append_status lm stats = record lm { status = lm.status ++ (stats ∷ []) }

-- What `AddLicense` does once it holds the lock.
unfoldable pub add_locked : LicenseManager → License → LicenseStatus → ℤ → Run LicenseManager
add_locked lm lic stats now =
    if stats.is_valid
    then (schedule_expiration_locked (with_license lm lic stats) lic now
        >>= (λ lm'. ok (append_status lm' stats)))
    else ok (append_status lm stats)

unfoldable pub status_of : License → LicenseStatus → LicenseStatus
status_of lic ls = record ls {
  license = record ls.license { id = lic.id; uploaded_at = lic.uploaded_at };
}

-- The clock is read when jwt parses the token, and again when the timer is set.
unfoldable pub add_license : Jwt → LicenseManager → License → ℤ → ℤ → Run LicenseManager
add_license jwt lm lic parsed_at now =
    load_token jwt empty_status lic.raw_token lm.machine_id parsed_at >>= λ ls.
    lock lm >>= λ lm'. add_locked lm' lic (status_of lic ls) now >>= λ lm''. ok (unlock lm'')

-- The licenses of the database at the start, all at one time.
unfoldable pub add_licenses : Jwt → LicenseManager → List License → ℤ → Run LicenseManager
add_licenses jwt lm [] now = ok lm
add_licenses jwt lm (lic ∷ list) now =
    add_license jwt lm lic now now >>= λ lm'. add_licenses jwt lm' list now

unfoldable pub init_with_licenses :
    Jwt → LicenseManager → List License → String → ℤ → Run LicenseManager
init_with_licenses jwt lm list machine_id now = lock lm >>= λ lm'.
    add_licenses jwt (unlock (record lm' { machine_id = machine_id; max_camera = pos 0 })) list now

-- A call from outside, with the time at which it parses the token, or a timer that fires: only one that runs and whose deadline has come.
pub data Event : Type 0 where
  adds : License → ℤ → Event
  fires : ℕ → Event

unfoldable pub fire : LicenseManager → ℕ → ℤ → Run LicenseManager
fire lm id now = elim (lookup id lm.timers) [
  | none ↦ ok lm
  | some timer ↦
      if timer.running && leb_ℤ timer.fires_at now then trigger_expiration lm id else ok lm
]

unfoldable pub step : Jwt → LicenseManager → Event → ℤ → Run LicenseManager
step jwt lm (adds lic parsed_at) now = add_license jwt lm lic parsed_at now
step jwt lm (fires id) now = fire lm id now

-- The events, each at its time.
unfoldable pub run : Jwt → LicenseManager → List (Event × ℤ) → Run LicenseManager
run jwt lm [] = ok lm
run jwt lm ((e, now) ∷ es) = step jwt lm e now >>= λ lm'. run jwt lm' es
