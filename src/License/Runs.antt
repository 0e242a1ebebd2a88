-- ===== src/License/Runs.antt =====
-- nvr_core/license/manager.go: whole lives of the manager, from its start with the licenses of the
-- database through licenses that are added and timers that fire.
use rm_vms.Base.{
  ℕ, ◌≡◌, ◌≢◌, refl, sym, ap, subst, false, ◌&&◌, Option, none, some, List, [], ◌∷◌, ◌++◌, All,
  String, if◌then◌else◌,
}
use rm_vms.Base.Int.{ℤ, pos, leb_ℤ, int64}
use rm_vms.Base.Assoc.{lookup, ℕ_eq}
use rm_vms.License.{
  Run, ok, deadlock, panics, ◌>>=◌, Ends, Ends-bind, Ends-if, Jwt, License, LicenseManager,
  new_license_manager, trigger_expiration, add_license, add_licenses, init_with_licenses, lock,
  unlock, Timer, Event, adds, fires, fire, step, run,
}
use rm_vms.License.Sums.{total, Filed}
use rm_vms.License.Ledger.{
  Books, Unheld, Adding, Distinct, Good, Ledger, After, add_license-After, trigger_expiration-After,
}

-- Another license than the one that the event adds.
unfoldable Apart : Event → ℕ → Type 0
Apart (adds lic parsed_at) id = id ≢ lic.id
Apart (fires other) id = Unit

unmoved :
    (machine : String) (lm : LicenseManager)
    → Ledger machine lm
    → After machine lm (λ other. Unit) lm
unfolding After
unmoved machine lm ledger = (ledger, λ id u unheld. unheld)

fire-After :
    (machine : String) (lm : LicenseManager) (id : ℕ) (now : ℤ)
    → Ledger machine lm
    → Ends (After machine lm (λ other. Unit)) (fire lm id now)
unfolding fire Ends After
fire-After machine lm id now ledger = of_timer (lookup id lm.timers)
  where
    of_timer :
        (o : Option Timer)
        → Ends (After machine lm (λ other. Unit)) (elim o [
          | none ↦ ok lm
          | some timer ↦
              if timer.running && leb_ℤ timer.fires_at now then trigger_expiration lm id else ok lm
        ])
    of_timer none = unmoved machine lm ledger
    of_timer (some timer) =
        Ends-if (After machine lm (λ other. Unit)) (timer.running && leb_ℤ timer.fires_at now) _ _
          (λ due. trigger_expiration-After machine lm id ledger)
          (λ early. unmoved machine lm ledger)

step-After :
    (jwt : Jwt) (machine : String) (lm : LicenseManager) (e : Event) (now : ℤ)
    → Ledger machine lm
    → Adding (Good jwt machine) (e, now)
    → Adding (λ lic later. Unheld lic.id lm) (e, now)
    → Ends (After machine lm (Apart e)) (step jwt lm e now)
unfolding step Apart Adding
step-After jwt machine lm (adds lic parsed_at) now ledger good fresh =
    add_license-After jwt machine lm lic parsed_at now ledger fresh good
step-After jwt machine lm (fires id) now ledger good fresh = fire-After machine lm id now ledger

-- What is still to be added is not held after the step either.
still-Unheld :
    (machine : String) (lm lm' : LicenseManager) (e : Event) (now : ℤ) (es : List (Event × ℤ))
    → After machine lm (Apart e) lm'
    → Distinct ((e, now) ∷ es)
    → All (Adding (λ lic later. Unheld lic.id lm)) es
    → All (Adding (λ lic later. Unheld lic.id lm')) es
unfolding After Distinct Adding Apart
still-Unheld machine lm lm' e now [] after distinct unheld = tt
still-Unheld machine lm lm' (fires id) now ((fires other, later) ∷ es) after distinct (u, unheld) =
    (tt, still-Unheld machine lm lm' (fires id) now es after distinct unheld)
still-Unheld machine lm lm' (fires id) now ((adds lic parsed_at, later) ∷ es) after distinct
      (u, unheld) =
    (after.1 lic.id tt u, still-Unheld machine lm lm' (fires id) now es after distinct.1 unheld)
still-Unheld machine lm lm' (adds new read_at) now ((fires other, later) ∷ es) after distinct
      (u, unheld) =
    (
      tt,
      still-Unheld machine lm lm' (adds new read_at) now es after (distinct.0.1, distinct.1) unheld,
    )
still-Unheld machine lm lm' (adds new read_at) now ((adds lic parsed_at, later) ∷ es) after distinct
      (u, unheld) =
    (
      after.1 lic.id distinct.0.0 u,
      still-Unheld machine lm lm' (adds new read_at) now es after (distinct.0.1, distinct.1.1)
          unheld,
    )

rest_Distinct :
    (e : Event) (now : ℤ) (es : List (Event × ℤ)) → Distinct ((e, now) ∷ es) → Distinct es
unfolding Distinct
rest_Distinct (adds lic parsed_at) now es distinct = distinct.1
rest_Distinct (fires id) now es distinct = distinct

pub run-Ledger :
    (jwt : Jwt) (machine : String) (es : List (Event × ℤ)) (lm : LicenseManager)
    → Ledger machine lm
    → All (Adding (Good jwt machine)) es
    → Distinct es
    → All (Adding (λ lic later. Unheld lic.id lm)) es
    → Ends (Ledger machine) (run jwt lm es)
unfolding run Ends After
run-Ledger jwt machine [] lm ledger good distinct fresh = ledger
run-Ledger jwt machine ((e, now) ∷ es) lm ledger (g, good) distinct (f, fresh) =
    Ends-bind (After machine lm (Apart e)) (Ledger machine) (step jwt lm e now) _
      (step-After jwt machine lm e now ledger g f)
      (λ lm' after.
        run-Ledger jwt machine es lm' after.0 good (rest_Distinct e now es distinct)
          (still-Unheld machine lm lm' e now es after distinct fresh))

-- The licenses of the database, as events at the start.
unfoldable pub handed_in : List License → ℤ → List (Event × ℤ)
handed_in [] now = []
handed_in (lic ∷ list) now = (adds lic now, now) ∷ handed_in list now

add_licenses-run :
    (jwt : Jwt) (list : List License) (now : ℤ) (es : List (Event × ℤ)) (lm : LicenseManager)
    → (add_licenses jwt lm list now >>= λ lm'. run jwt lm' es)
      ≡ run jwt lm (handed_in list now ++ es)
unfolding add_licenses run handed_in step
add_licenses-run jwt [] now es lm = refl
add_licenses-run jwt (lic ∷ list) now es lm =
    first (add_license jwt lm lic now now) (λ lm'. add_licenses-run jwt list now es lm')
  where
    first :
        (r : Run LicenseManager)
        → ((lm' : LicenseManager)
            → (add_licenses jwt lm' list now >>= λ lm''. run jwt lm'' es)
              ≡ run jwt lm' (handed_in list now ++ es))
        → ((r >>= λ lm'. add_licenses jwt lm' list now) >>= λ lm'. run jwt lm' es)
          ≡ (r >>= λ lm'. run jwt lm' (handed_in list now ++ es))
    first (ok lm') k = k lm'
    first deadlock k = refl
    first panics k = refl

All-Unheld :
    (lm : LicenseManager) (es : List (Event × ℤ))
    → lm.lic_stats ≡ []
    → All (Adding (λ lic later. Unheld lic.id lm)) es
unfolding Adding Unheld lookup
All-Unheld lm [] none_held = tt
All-Unheld lm ((adds lic parsed_at, now) ∷ es) none_held =
    (ap (lookup lic.id) none_held, All-Unheld lm es none_held)
All-Unheld lm ((fires id, now) ∷ es) none_held = (tt, All-Unheld lm es none_held)

abbrev started : String → LicenseManager
started machine = record {
  locked = false;
  timers = [];
  machine_id = machine;
  max_camera = pos 0;
  lic_stats = [];
  status = [];
}

started-Ledger : (machine : String) → Ledger machine (started machine)
unfolding Ledger Books Filed total int64
started-Ledger machine = (refl, refl, (tt, refl))

-- From a new manager, started with the licenses of the database and then living through any
-- licenses handed in and timers that fire: if no license is handed in twice, the token of each can
-- be read at any time and, when it is good, states the number of devices of its row, and none has
-- expired when it is handed in, then no call deadlocks or panics, the mutex is free between the
-- calls, every license is held under its own id, and the number of cameras is the sum of those
-- held, as int64.
pub max_camera_is_sum :
    (jwt : Jwt) (machine : String) (list : List License) (now : ℤ) (es : List (Event × ℤ))
    → All (Adding (Good jwt machine)) (handed_in list now ++ es)
    → Distinct (handed_in list now ++ es)
    → Ends
        (Ledger machine)
        (init_with_licenses jwt new_license_manager list machine now >>= λ lm. run jwt lm es)
unfolding init_with_licenses new_license_manager lock unlock
max_camera_is_sum jwt machine list now es good distinct =
    subst (Ends (Ledger machine)) (sym (add_licenses-run jwt list now es (started machine))) (
      run-Ledger jwt machine (handed_in list now ++ es) (started machine) (started-Ledger machine)
        good distinct (All-Unheld (started machine) (handed_in list now ++ es) refl))
