-- ===== src/License/Blank.antt =====
-- nvr_core/license/manager.go: the raw tokens in the list of statuses. `AddLicense` never sets the
-- raw token of a status, by which `RemoveLicenseStatus` picks the ones to delete.
use rm_vms.Base.{
  ℕ, ◌≡◌, refl, sym, ◌∙◌, ap, subst, inl, inr, Bool, true, false, ◌&&◌, Option, none, some, List,
  [], ◌∷◌, ◌++◌, All, All-append, String, if◌then◌else◌, Bool-cases, Option-cases, ◌==◌,
}
use rm_vms.Base.Int.{ℤ, pos, leb_ℤ, eqb_ℤ}
use rm_vms.Base.Assoc.{lookup, erase, ℕ_eq, String_eq, lookup-insert, lookup-erase}
use rm_vms.License.{
  Run, ok, deadlock, panics, ◌>>=◌, Jwt, Token, Claims, License, LicenseStatus, LicenseManager,
  empty_status, load_token, load_info, error_list, new_license_manager, trigger_expiration,
  schedule_expiration_locked, with_license, add_locked, add_license, add_licenses,
  init_with_licenses, lock, unlock, status_of, append_status, remove_license_status, expire,
  drop_held, delete_token, with_claims, load_claims, check_machine, get_license_info, Event, adds,
  fires, fire, step, run,
}

-- If the call returns, the value satisfies `P`.
unfoldable WhenOk {ℓ} : {A : Type ℓ} → (A → Type 0) → Run A → Type 0
WhenOk P (ok a) = P a
WhenOk P deadlock = Unit
WhenOk P panics = Unit

WhenOk-bind {ℓ κ} :
    {A : Type ℓ} {B : Type κ} (P : A → Type 0) (Q : B → Type 0) (r : Run A) (f : A → Run B)
    → WhenOk P r
    → ((a : A) → P a → WhenOk Q (f a))
    → WhenOk Q (r >>= f)
unfolding WhenOk
WhenOk-bind P Q (ok a) f p k = k a p
WhenOk-bind P Q deadlock f p k = tt
WhenOk-bind P Q panics f p k = tt

WhenOk-if {ℓ} :
    {A : Type ℓ} (P : A → Type 0) (b : Bool) (x y : Run A)
    → WhenOk P x
    → WhenOk P y
    → WhenOk P (if b then x else y)
WhenOk-if P true x y h k = h
WhenOk-if P false x y h k = k

-- The status has no raw token.
unfoldable pub NoToken : LicenseStatus → Type 0
NoToken s = s.license.raw_token ≡ ""

unfoldable pub Blank : LicenseManager → Type 0
Blank lm =
    All NoToken lm.status
    × ((id : ℕ) (s : LicenseStatus) → lookup id lm.lic_stats ≡ some s → NoToken s)

NoToken-if : (b : Bool) (x y : LicenseStatus) → NoToken x → NoToken y → NoToken (if b then x else y)
NoToken-if true x y h k = h
NoToken-if false x y h k = k

check_machine-NoToken :
    (ls : LicenseStatus) (machine : String) (valid : Bool)
    → NoToken ls
    → NoToken (check_machine ls machine valid)
unfolding check_machine NoToken
check_machine-NoToken ls machine valid blank =
    NoToken-if (String_eq.beq ls.license.machine_id machine) _ _ blank blank

with_claims-NoToken :
    (c : Option Claims) (ls : LicenseStatus) → NoToken ls → NoToken (with_claims c ls)
unfolding with_claims load_claims NoToken
with_claims-NoToken none ls blank = blank
with_claims-NoToken (some c) ls blank = blank

blank_start :
    (raw_token : String) (e : Option String)
    → NoToken (record empty_status { token = raw_token; errors = [] ++ error_list e })
unfolding NoToken
blank_start raw_token e = refl

load_info-NoToken :
    (raw_token machine : String) (t : Option Token) (e : Option String)
    → WhenOk NoToken (load_info empty_status raw_token machine t e)
unfolding load_info WhenOk
load_info-NoToken raw_token machine none e = tt
load_info-NoToken raw_token machine (some t) e =
    check_machine-NoToken _ machine _ (with_claims-NoToken t.claims _ (blank_start raw_token e))

load_token-NoToken :
    (jwt : Jwt) (raw_token machine : String) (now : ℤ)
    → WhenOk NoToken (load_token jwt empty_status raw_token machine now)
unfolding load_token WhenOk
load_token-NoToken jwt raw_token machine now =
    load_info-NoToken raw_token machine (get_license_info jwt raw_token now).0
      (get_license_info jwt raw_token now).1

delete_token-All :
    (raw_token : String) (ls : List LicenseStatus)
    → All NoToken ls
    → All NoToken (delete_token raw_token ls)
unfolding delete_token
delete_token-All raw_token [] blank = tt
delete_token-All raw_token (l ∷ ls) (b, blank) =
    elim (Bool-cases (String_eq.beq l.license.raw_token raw_token)) [
      | inl e ↦ rw e (delete_token-All raw_token ls blank)
      | inr e ↦ rw e (b, delete_token-All raw_token ls blank)
    ]

delete_token_blank : (ls : List LicenseStatus) → All NoToken ls → delete_token "" ls ≡ []
unfolding delete_token NoToken
delete_token_blank [] blank = refl
delete_token_blank (l ∷ ls) (b, blank) =
    let e : String_eq.beq l.license.raw_token "" ≡ true =
      (String_eq.beq_iff l.license.raw_token "").1 b in
    rw e (delete_token_blank ls blank)

drop_held-Blank :
    (lm : LicenseManager) (o : Option LicenseStatus) → Blank lm → Blank (drop_held lm o)
unfolding drop_held remove_license_status Blank
drop_held-Blank lm none blank = blank
drop_held-Blank lm (some s) (listed, held) = (
  delete_token-All s.license.raw_token lm.status listed,
  λ id t found. held id t (found_before id t found),
)
  where
    found_before :
        (id : ℕ) (t : LicenseStatus)
        → lookup id (erase s.license.id lm.lic_stats) ≡ some t
        → lookup id lm.lic_stats ≡ some t
    found_before id t found = elim (Bool-cases (s.license.id == id)) [
      | inl e ↦ let gone = rw e at (lookup-erase s.license.id id lm.lic_stats) in cc (gone, found)
      | inr e ↦ sym (rw e at (lookup-erase s.license.id id lm.lic_stats)) ∙ found
    ]

trigger_expiration-Blank :
    (lm : LicenseManager) (id : ℕ) → Blank lm → WhenOk Blank (trigger_expiration lm id)
unfolding trigger_expiration expire unlock lock Blank WhenOk
trigger_expiration-Blank lm id blank =
    WhenOk-bind Blank Blank (lock lm) _ (WhenOk-if Blank lm.locked deadlock _ tt blank)
      (λ lm' blank'. drop_held-Blank lm' (lookup id lm'.lic_stats) blank')

schedule-Blank :
    (lm : LicenseManager) (lic : License) (now : ℤ)
    → Blank lm
    → WhenOk Blank (schedule_expiration_locked lm lic now)
unfolding schedule_expiration_locked Blank WhenOk
schedule-Blank lm lic now blank =
    WhenOk-if Blank (eqb_ℤ lic.expires_at (pos 0)) _ _ blank (
      WhenOk-if Blank (leb_ℤ lic.expires_at now) _ _ (trigger_expiration-Blank _ lic.id blank)
        blank)

append_status-Blank :
    (lm : LicenseManager) (s : LicenseStatus) → NoToken s → Blank lm → Blank (append_status lm s)
unfolding append_status Blank
append_status-Blank lm s b (listed, held) =
    (All-append NoToken lm.status (s ∷ []) listed (b, tt), held)

with_license-Blank :
    (lm : LicenseManager) (lic : License) (s : LicenseStatus)
    → NoToken s
    → Blank lm
    → Blank (with_license lm lic s)
unfolding with_license Blank
with_license-Blank lm lic s b (listed, held) = (
  listed,
  λ id t found. elim (Bool-cases (lic.id == id)) [
    | inl e ↦
        let got = rw e at (lookup-insert lic.id id s lm.lic_stats) in
        let same : s ≡ t = cc (got, found) in subst NoToken same b
    | inr e ↦ held id t (sym (rw e at (lookup-insert lic.id id s lm.lic_stats)) ∙ found)
  ],
)

add_license-Blank :
    (jwt : Jwt) (lm : LicenseManager) (lic : License) (parsed_at now : ℤ)
    → Blank lm
    → WhenOk Blank (add_license jwt lm lic parsed_at now)
unfolding add_license add_locked lock unlock status_of WhenOk NoToken Blank
add_license-Blank jwt lm lic parsed_at now blank =
    WhenOk-bind NoToken Blank (load_token jwt empty_status lic.raw_token lm.machine_id parsed_at) _
      (load_token-NoToken jwt lic.raw_token lm.machine_id parsed_at)
      (λ ls b.
        WhenOk-bind Blank Blank (lock lm) _ (WhenOk-if Blank lm.locked deadlock _ tt blank)
          (λ lm' blank'.
            WhenOk-bind Blank Blank (add_locked lm' lic (status_of lic ls) now) _
              (WhenOk-if Blank ls.is_valid _ _
                (WhenOk-bind Blank Blank
                  (schedule_expiration_locked (with_license lm' lic (status_of lic ls)) lic now) _
                  (schedule-Blank _ lic now
                    (with_license-Blank lm' lic (status_of lic ls) b blank'))
                  (λ lm'' blank''. append_status-Blank lm'' (status_of lic ls) b blank''))
                (append_status-Blank lm' (status_of lic ls) b blank'))
              (λ lm'' blank''. blank'')))

fire-Blank : (lm : LicenseManager) (id : ℕ) (now : ℤ) → Blank lm → WhenOk Blank (fire lm id now)
unfolding fire WhenOk
fire-Blank lm id now blank = elim (Option-cases (lookup id lm.timers)) [
  | inl e ↦ rw (fire, e) blank
  | inr (timer, e) ↦
      rw (fire, e)
        (WhenOk-if Blank (timer.running && leb_ℤ timer.fires_at now) _ _
          (trigger_expiration-Blank lm id blank) blank)
]

run-Blank :
    (jwt : Jwt) (es : List (Event × ℤ)) (lm : LicenseManager)
    → Blank lm
    → WhenOk Blank (run jwt lm es)
unfolding run step WhenOk
run-Blank jwt [] lm blank = blank
run-Blank jwt ((adds lic parsed_at, now) ∷ es) lm blank =
    WhenOk-bind Blank Blank (add_license jwt lm lic parsed_at now) _
      (add_license-Blank jwt lm lic parsed_at now blank) (λ lm' blank'. run-Blank jwt es lm' blank')
run-Blank jwt ((fires id, now) ∷ es) lm blank =
    WhenOk-bind Blank Blank (fire lm id now) _ (fire-Blank lm id now blank)
      (λ lm' blank'. run-Blank jwt es lm' blank')

add_licenses-Blank :
    (jwt : Jwt) (list : List License) (lm : LicenseManager) (now : ℤ)
    → Blank lm
    → WhenOk Blank (add_licenses jwt lm list now)
unfolding add_licenses WhenOk
add_licenses-Blank jwt [] lm now blank = blank
add_licenses-Blank jwt (lic ∷ list) lm now blank =
    WhenOk-bind Blank Blank (add_license jwt lm lic now now) _
      (add_license-Blank jwt lm lic now now blank)
      (λ lm' blank'. add_licenses-Blank jwt list lm' now blank')

-- A new manager, once `InitWithLicenses` has read the licenses of the database.
init-Blank :
    (jwt : Jwt) (list : List License) (machine_id : String) (now : ℤ)
    → WhenOk Blank (init_with_licenses jwt new_license_manager list machine_id now)
unfolding init_with_licenses new_license_manager lock unlock Blank lookup WhenOk
init-Blank jwt list machine_id now = add_licenses-Blank jwt list _ now none_yet
  where
    none_yet : Blank (record {
      locked = false;
      timers = [];
      machine_id = machine_id;
      max_camera = pos 0;
      lic_stats = [];
      status = [];
    })
    none_yet = (tt, λ id s found. cc found)

drop_held_clears :
    (lm : LicenseManager) (s : LicenseStatus)
    → Blank lm
    → NoToken s
    → (drop_held lm (some s)).status ≡ []
unfolding drop_held remove_license_status Blank NoToken
drop_held_clears lm s (listed, held) b =
    ap (λ raw. delete_token raw lm.status) b ∙ delete_token_blank lm.status listed

-- Whatever licenses a manager was started with by `InitWithLicenses` and handed later, on any
-- machine, and whichever timers fired: when a license that it holds expires, the list of statuses is
-- emptied, those of the other licenses included.
pub expiry_clears_status :
    (jwt : Jwt) (list : List License) (machine_id : String) (now : ℤ) (es : List (Event × ℤ))
    (lm : LicenseManager) (id : ℕ) (s : LicenseStatus)
    → (init_with_licenses jwt new_license_manager list machine_id now >>= λ lm0. run jwt lm0 es)
      ≡ ok lm
    → lookup id lm.lic_stats ≡ some s
    → (expire lm id).status ≡ []
unfolding expire WhenOk Blank
expiry_clears_status jwt list machine_id now es lm id s runs held =
    let blank : Blank lm = subst (WhenOk Blank) runs (
      WhenOk-bind Blank Blank (init_with_licenses jwt new_license_manager list machine_id now) _
        (init-Blank jwt list machine_id now) (λ lm0 blank0. run-Blank jwt es lm0 blank0)) in
    ap (λ o. (drop_held lm o).status) held ∙ drop_held_clears lm s blank (blank.1 id s held)
