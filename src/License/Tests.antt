-- ===== src/License/Tests.antt =====
-- Runs of the license manager, and the conditions of its theorems at concrete inputs.
use rm_vms.Base.{ℕ, ◌≡◌, ◌≢◌, refl, inl, inr, true, false, Option, none, some, List, [], ◌∷◌, arith}
use rm_vms.Base.Int.{ℤ, pos, ltb_ℤ, int64, add64, sub64, ◌+ℤ◌, ◌-ℤ◌}
use rm_vms.Base.Assoc.{lookup, insert, erase, ℕ_eq}
use rm_vms.License.{
  Run, ok, deadlock, ◌>>=◌, Ends, Jwt, Claims, License, LicenseStatus, LicenseManager, Event, adds,
  fires, new_license_manager, add_license, init_with_licenses, load_token, load_info,
  get_license_info, with_claims, load_claims, check_machine, empty_status, run, expire, step, fire,
  add_licenses, lock, unlock, add_locked, with_license, append_status, schedule_expiration_locked,
  stop_timer, trigger_expiration, drop_held, remove_license_status, delete_token, status_of,
}
use rm_vms.License.Ledger.{Ledger, Good, Adding, Distinct, Lasting, Readable}
use rm_vms.License.Runs.{handed_in, max_camera_is_sum}
use rm_vms.License.Faults.{add_expired_deadlocks}
use rm_vms.License.Blank.{expiry_clears_status}

abbrev sixteen : Claims
sixteen = record {
  key = some "K";
  iss = none;
  aud = none;
  kind = some "vms";
  machine_id = some "m1";
  max_devices = some (pos 16);
  iat = some (pos 100);
  exp = some (pos 5000);
}

-- Every token is for 16 devices of machine m1, and good until 5000.
abbrev signed : Jwt
signed = record {
  key_error = none;
  parse = λ token now. some (record { valid = ltb_ℤ now (pos 5000); claims = some sixteen });
}

abbrev row : ℕ → ℤ → License
row id expires_at = record {
  id = id;
  key = "K";
  raw_token = "a.b.c";
  iss = "";
  aud = "";
  kind = "vms";
  machine_id = "m1";
  max_devices = pos 16;
  issued_at = pos 100;
  expires_at = expires_at;
  uploaded_at = pos 200;
}

abbrev later : List (Event × ℤ)
later = (adds (row 2 (pos 0)) (pos 1000), pos 1000) ∷ (fires 1, pos 5000) ∷ []

row-Readable : (id : ℕ) (expires_at : ℤ) → Readable signed "m1" (row id expires_at)
unfolding Readable Ends load_token load_info get_license_info with_claims load_claims check_machine
row-Readable id expires_at now valid = refl

max_camera_is_sum_example : Ends (Ledger "m1") (
    init_with_licenses signed new_license_manager (row 1 (pos 5000) ∷ []) "m1" (pos 900) >>= λ lm.
    run signed lm later)
unfolding handed_in Adding Distinct Good Lasting
max_camera_is_sum_example =
    max_camera_is_sum signed "m1" (row 1 (pos 5000) ∷ []) (pos 900) later
      (
        (row-Readable 1 (pos 5000), inr (omega arith)),
        ((row-Readable 2 (pos 0), inl refl), (tt, tt)),
      )
      ((omega arith, (tt, tt)), ((tt, tt), tt))

-- With licenses 1 and 2 held, the timer of license 1 leaves the 16 devices of license 2, and an
-- empty list of statuses.
after_later : Run LicenseManager → Option (ℤ × List LicenseStatus)
after_later (ok lm) = some (lm.max_camera, lm.status)
after_later r = none

expiry_run :
    after_later (
      init_with_licenses signed new_license_manager (row 1 (pos 5000) ∷ []) "m1" (pos 900) >>= λ lm.
      run signed lm later)
    ≡ some (pos 16, [])
unfolding after_later run step fire init_with_licenses add_licenses add_license load_token load_info
    get_license_info with_claims load_claims check_machine new_license_manager lock unlock
    add_locked with_license append_status schedule_expiration_locked stop_timer trigger_expiration
    expire drop_held remove_license_status delete_token status_of add64 sub64 int64 ◌+ℤ◌ ◌-ℤ◌ lookup
    insert erase
expiry_run = refl

abbrev status_1 : LicenseStatus
status_1 = record {
  token = "a.b.c";
  license = record (row 0 (pos 5000)) { raw_token = ""; uploaded_at = pos 0 };
  is_valid = true;
  errors = [];
}

abbrev on_m1 : LicenseManager
on_m1 = record {
  locked = false;
  timers = [];
  machine_id = "m1";
  max_camera = pos 0;
  lic_stats = [];
  status = [];
}

status_loads : load_token signed empty_status "a.b.c" "m1" (pos 4999) ≡ ok status_1
unfolding load_token load_info get_license_info with_claims load_claims check_machine
status_loads = refl

dated : pos 5000 ≢ pos 0
dated e = cc e

add_expired_deadlocks_example :
    add_license signed on_m1 (row 1 (pos 5000)) (pos 4999) (pos 5000) ≡ deadlock
add_expired_deadlocks_example =
    add_expired_deadlocks signed on_m1 (row 1 (pos 5000)) status_1 (pos 4999) (pos 5000)
      status_loads refl dated (omega arith)

-- A manager of machine m1 that was started with license 1.
abbrev status_of_1 : LicenseStatus
status_of_1 = record {
  token = "a.b.c";
  license = record (row 1 (pos 5000)) { raw_token = "" };
  is_valid = true;
  errors = [];
}

abbrev held_1 : LicenseManager
held_1 = record {
  locked = false;
  timers = (1, record { fires_at = pos 5000; running = true }) ∷ [];
  machine_id = "m1";
  max_camera = pos 16;
  lic_stats = (1, status_of_1) ∷ [];
  status = status_of_1 ∷ [];
}

runs_1 :
    (init_with_licenses signed new_license_manager (row 1 (pos 5000) ∷ []) "m1" (pos 900) >>= λ lm.
    run signed lm [])
    ≡ ok held_1
unfolding run init_with_licenses add_licenses add_license load_token load_info get_license_info
    with_claims load_claims check_machine new_license_manager lock unlock add_locked with_license
    append_status schedule_expiration_locked stop_timer status_of add64 int64 ◌+ℤ◌ lookup insert
runs_1 = refl

expiry_clears_status_example : (expire held_1 1).status ≡ []
unfolding lookup
expiry_clears_status_example =
    expiry_clears_status signed (row 1 (pos 5000) ∷ []) "m1" (pos 900) [] held_1 1 status_of_1
      runs_1 refl
