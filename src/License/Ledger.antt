-- ===== src/License/Ledger.antt =====
-- nvr_core/license/manager.go: the licensed number of cameras over the life of the manager.
use rm_vms.Base.{
  ℕ, ◌≡◌, ◌≢◌, refl, sym, ◌∙◌, ap, subst, ◌⊎◌, inl, inr, true, false, Option, none, some, List, [],
  ◌∷◌, Bool-cases, arith, All, String,
}
use rm_vms.Base.Int.{
  ℤ, pos, add64, sub64, int64, int64-add, int64-sub, ◌+ℤ◌, ◌-ℤ◌, ◌<ℤ◌, eqb_ℤ, leb_ℤ,
}
use rm_vms.Base.Assoc.{lookup, ℕ_eq, lookup-insert, lookup-erase}
use rm_vms.License.{
  Run, ok, ◌>>=◌, Ends, Ends-bind, Ends-if, Jwt, License, LicenseStatus, LicenseManager,
  empty_status, load_token, lock, unlock, expire, drop_held, remove_license_status,
  trigger_expiration, schedule_expiration_locked, with_license, append_status, add_locked,
  status_of, add_license, Event, adds, fires,
}
use rm_vms.License.Sums.{
  total, Filed, total-insert, Filed-insert, total-erase, Filed-own, Filed-erase,
}

-- The manager's number is the sum of the licenses it holds, in the arithmetic of 64 bits.
unfoldable pub Books : LicenseManager → Type 0
Books lm = Filed lm.lic_stats × (lm.max_camera ≡ int64 (total lm.lic_stats))

-- The license is not held.
unfoldable pub Unheld : ℕ → LicenseManager → Type 0
Unheld id lm = lookup id lm.lic_stats ≡ none

-- The two managers agree but for timers and statuses.
unfoldable Alike : LicenseManager → LicenseManager → Type 0
Alike lm lm' =
    (lm'.locked ≡ lm.locked)
    × (lm'.machine_id ≡ lm.machine_id)
    × (lm'.max_camera ≡ lm.max_camera)
    × (lm'.lic_stats ≡ lm.lic_stats)

-- The license does not expire, or later than now.
unfoldable pub Lasting : License → ℤ → Type 0
Lasting lic now = (lic.expires_at ≡ pos 0) ⊎ (now <ℤ lic.expires_at)

schedule-Alike :
    (lm : LicenseManager) (lic : License) (now : ℤ)
    → Lasting lic now
    → Ends (Alike lm) (schedule_expiration_locked lm lic now)
unfolding schedule_expiration_locked Ends Alike Lasting
schedule-Alike lm lic now (inl perpetual) =
    let e : eqb_ℤ lic.expires_at (pos 0) ≡ true = rw perpetual refl in rw e (refl, refl, refl, refl)
schedule-Alike lm lic now (inr later) = elim (Bool-cases (eqb_ℤ lic.expires_at (pos 0))) [
  | inl e ↦ rw e (refl, refl, refl, refl)
  | inr e ↦
      let l : leb_ℤ lic.expires_at now ≡ false = ground arith in rw (e, l) (refl, refl, refl, refl)
]

with_license-Books :
    (lm : LicenseManager) (lic : License) (s : LicenseStatus)
    → Books lm
    → Unheld lic.id lm
    → s.license.id ≡ lic.id
    → s.license.max_devices ≡ lic.max_devices
    → Books (with_license lm lic s)
unfolding Books Unheld with_license add64
with_license-Books lm lic s (filed, sum) fresh own same = (
  Filed-insert lic.id s lm.lic_stats fresh own filed,
  ap (λ m. int64 (m +ℤ lic.max_devices)) sum
      ∙ int64-add (total lm.lic_stats) lic.max_devices
      ∙ ap (λ d. int64 (total lm.lic_stats +ℤ d)) (sym same)
      ∙ ap int64 (sym (total-insert lic.id s lm.lic_stats fresh)),
)

remove-Books :
    (lm : LicenseManager) (id : ℕ) (s : LicenseStatus)
    → Books lm
    → lookup id lm.lic_stats ≡ some s
    → Books (remove_license_status lm s)
unfolding Books remove_license_status sub64
remove-Books lm id s (filed, sum) held = (
  Filed-erase s.license.id lm.lic_stats filed,
  ap (λ m. int64 (m -ℤ s.license.max_devices)) sum
      ∙ int64-sub (total lm.lic_stats) s.license.max_devices
      ∙ ap int64 (
          sym (
            total-erase s.license.id s lm.lic_stats filed (
              subst (λ k. lookup k lm.lic_stats ≡ some s)
                (sym (Filed-own id s lm.lic_stats filed held)) held))),
)

Alike-machine : (lm lm' : LicenseManager) → Alike lm lm' → lm'.machine_id ≡ lm.machine_id
unfolding Alike
Alike-machine lm lm' alike = alike.1

Alike-Books : (lm lm' : LicenseManager) → Alike lm lm' → Books lm → Books lm'
unfolding Alike Books
Alike-Books lm lm' (locked, machine, number, held) (filed, sum) =
    (subst Filed (sym held) filed, number ∙ sum ∙ ap (λ m. int64 (total m)) (sym held))

Alike-Unheld : (lm lm' : LicenseManager) (id : ℕ) → Alike lm lm' → Unheld id lm → Unheld id lm'
unfolding Alike Unheld
Alike-Unheld lm lm' id (locked, machine, number, held) unheld = ap (lookup id) held ∙ unheld

with_license-Unheld :
    (lm : LicenseManager) (lic : License) (s : LicenseStatus) (id : ℕ)
    → id ≢ lic.id
    → Unheld id lm
    → Unheld id (with_license lm lic s)
unfolding Unheld with_license
with_license-Unheld lm lic s id other unheld =
    lookup-insert lic.id id s lm.lic_stats ∙ ground (arith, unheld, other)

-- What an expiry leaves: the books in order, and no license held that was not.
unfoldable Closed : LicenseManager → LicenseManager → Type 0
Closed lm lm' =
    Books lm'
    × (lm'.locked ≡ lm.locked)
    × (lm'.machine_id ≡ lm.machine_id)
    × ((id : ℕ) → Unheld id lm → Unheld id lm')

drop_held-Closed :
    (lm : LicenseManager) (id : ℕ) (o : Option LicenseStatus)
    → Books lm
    → lookup id lm.lic_stats ≡ o
    → Closed lm (drop_held lm o)
unfolding drop_held Closed Unheld remove_license_status
drop_held-Closed lm id none books gone = (books, refl, refl, λ other unheld. unheld)
drop_held-Closed lm id (some s) books held = (
  remove-Books lm id s books held,
  refl,
  refl,
  λ other unheld. lookup-erase s.license.id other lm.lic_stats ∙ ground (arith, unheld),
)

expire-Closed : (lm : LicenseManager) (id : ℕ) → Books lm → Closed lm (expire lm id)
unfolding expire Closed Unheld Books
expire-Closed lm id books = drop_held-Closed lm id (lookup id lm.lic_stats) books refl

-- The license that the event hands in, if any, satisfies `P` at the time of the event.
unfoldable pub Adding : (License → ℤ → Type 0) → Event × ℤ → Type 0
Adding P (adds lic parsed_at, now) = P lic now
Adding P (fires id, now) = Unit

-- No license is handed in twice.
unfoldable pub Distinct : List (Event × ℤ) → Type 0
Distinct [] = Unit
Distinct ((fires id, now) ∷ es) = Distinct es
Distinct ((adds lic parsed_at, now) ∷ es) =
    All (Adding (λ other later. other.id ≢ lic.id)) es × Distinct es

-- The token of the license can be read at any time, and if it is good for the machine it allows as many
-- devices as the row says.
unfoldable pub Readable : Jwt → String → License → Type 0
Readable jwt machine lic =
    (now : ℤ)
    → Ends (λ ls. ls.is_valid ≡ true → ls.license.max_devices ≡ lic.max_devices)
        (load_token jwt empty_status lic.raw_token machine now)

-- A license to add: readable and lasting.
unfoldable pub Good : Jwt → String → License → ℤ → Type 0
Good jwt machine lic now = Readable jwt machine lic × Lasting lic now

-- Between two events.
unfoldable pub Ledger : String → LicenseManager → Type 0
Ledger machine lm = (lm.locked ≡ false) × (lm.machine_id ≡ machine) × Books lm

-- What a step leaves: the ledger, and no license held that was not, but for the one added.
unfoldable pub After : String → LicenseManager → (ℕ → Type 0) → LicenseManager → Type 0
After machine lm Other lm' =
    Ledger machine lm' × ((id : ℕ) → Other id → Unheld id lm → Unheld id lm')

add_locked-After :
    (machine : String) (lm : LicenseManager) (lic : License) (ls : LicenseStatus) (now : ℤ)
    → lm.machine_id ≡ machine
    → Books lm
    → Unheld lic.id lm
    → Lasting lic now
    → (ls.is_valid ≡ true → ls.license.max_devices ≡ lic.max_devices)
    → Ends
        (λ lm'. After machine lm (λ id. id ≢ lic.id) (unlock lm'))
        (add_locked lm lic (status_of lic ls) now)
unfolding add_locked status_of After Ledger Unheld unlock append_status Ends Books with_license
add_locked-After machine lm lic ls now at books fresh lasting same =
    Ends-if (λ lm'. After machine lm (λ id. id ≢ lic.id) (unlock lm')) ls.is_valid _ _
      (λ valid.
        Ends-bind (Alike held) (λ lm'. After machine lm (λ id. id ≢ lic.id) (unlock lm'))
          (schedule_expiration_locked held lic now)
          (λ lm'. ok (append_status lm' (status_of lic ls))) (schedule-Alike held lic now lasting)
          (λ lm' alike. (
            (
              refl,
              Alike-machine held lm' alike ∙ at,
              Alike-Books held lm' alike
                  (with_license-Books lm lic _ books fresh refl (same valid)),
            ),
            λ id other unheld.
                Alike-Unheld held lm' id alike
                  (with_license-Unheld lm lic (status_of lic ls) id other unheld),
          )))
      (λ invalid. ((refl, at, books), λ id other unheld. unheld))
  where
    held : LicenseManager
    held = with_license lm lic (status_of lic ls)

lock-free : (lm : LicenseManager) → lm.locked ≡ false → lock lm ≡ ok (record lm { locked = true })
unfolding lock
lock-free lm free = rw free refl

Ends-lock :
    {A : Type 0} (Q : A → Type 0) (lm : LicenseManager) (f : LicenseManager → Run A)
    → lm.locked ≡ false
    → Ends Q (f (record lm { locked = true }))
    → Ends Q (lock lm >>= f)
Ends-lock Q lm f free ends = subst (λ r. Ends Q (r >>= f)) (sym (lock-free lm free)) ends

pub add_license-After :
    (jwt : Jwt) (machine : String) (lm : LicenseManager) (lic : License) (parsed_at now : ℤ)
    → Ledger machine lm
    → Unheld lic.id lm
    → Good jwt machine lic now
    → Ends (After machine lm (λ id. id ≢ lic.id)) (add_license jwt lm lic parsed_at now)
unfolding add_license Ledger Good Readable Ends After Unheld Books
add_license-After jwt machine lm lic parsed_at now (free, at, books) fresh (readable, lasting) =
    Ends-bind (λ ls. ls.is_valid ≡ true → ls.license.max_devices ≡ lic.max_devices)
      (After machine lm (λ id. id ≢ lic.id))
      (load_token jwt empty_status lic.raw_token lm.machine_id parsed_at) _
      (subst (λ m. Readable jwt m lic) (sym at) readable parsed_at)
      (λ ls same. Ends-lock (After machine lm (λ id. id ≢ lic.id)) lm _ free (
        Ends-bind (λ lm'. After machine lm (λ id. id ≢ lic.id) (unlock lm'))
          (After machine lm (λ id. id ≢ lic.id))
          (add_locked (record lm { locked = true }) lic (status_of lic ls) now) _
          (add_locked-After machine (record lm { locked = true }) lic ls now at books fresh lasting
            same)
          (λ lm' after. after)))

pub trigger_expiration-After :
    (machine : String) (lm : LicenseManager) (id : ℕ)
    → Ledger machine lm
    → Ends (After machine lm (λ other. Unit)) (trigger_expiration lm id)
unfolding trigger_expiration Ledger Ends After unlock Closed Books Unheld
trigger_expiration-After machine lm id (free, at, books) =
    Ends-lock (After machine lm (λ other. Unit)) lm _ free (
      let c = expire-Closed (record lm { locked = true }) id books in
      ((refl, c.2 ∙ at, c.0), λ other u unheld. c.3 other unheld))
