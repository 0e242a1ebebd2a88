-- ===== src/License/Sums.antt =====
-- nvr_core/license/manager.go: the map of the licenses held, and what they add up to.
use rm_vms.Base.{
  ℕ, ◌≡◌, refl, sym, ◌∙◌, ap, subst, Option, inl, inr, none, some, List, [], ◌∷◌, ◌==◌, Bool-cases,
  arith,
}
use rm_vms.Base.Int.{ℤ, pos, ◌+ℤ◌, ◌-ℤ◌, int_laws, eq_of_parts}
use rm_vms.Base.Assoc.{lookup, insert, erase, ℕ_eq, lookup-insert, lookup-erase}
use rm_vms.License.{LicenseStatus}

-- What the licenses held allow together, exactly.
unfoldable pub total : List (ℕ × LicenseStatus) → ℤ
total [] = pos 0
total ((id, s) ∷ m) = total m +ℤ s.license.max_devices

-- Each license is held once, under its own id.
unfoldable pub Filed : List (ℕ × LicenseStatus) → Type 0
Filed [] = Unit
Filed ((id, s) ∷ m) = (s.license.id ≡ id) × (lookup id m ≡ none) × Filed m

+ℤ_swap : (a b c : ℤ) → (a +ℤ b) +ℤ c ≡ (a +ℤ c) +ℤ b
+ℤ_swap a b c = eq_of_parts _ _ (omega int_laws)

+-ℤ_swap : (a b c : ℤ) → (a -ℤ b) +ℤ c ≡ (a +ℤ c) -ℤ b
+-ℤ_swap a b c = eq_of_parts _ _ (omega int_laws)

+-ℤ_cancel : (a b : ℤ) → a ≡ (a +ℤ b) -ℤ b
+-ℤ_cancel a b = eq_of_parts _ _ (omega int_laws)

pub total-insert :
    (id : ℕ) (s : LicenseStatus) (m : List (ℕ × LicenseStatus))
    → lookup id m ≡ none
    → total (insert id s m) ≡ total m +ℤ s.license.max_devices
unfolding total lookup insert
total-insert id s [] fresh = refl
total-insert id s ((j, w) ∷ m) fresh = elim (Bool-cases (j == id)) [
  | inl same ↦ let e = rw same at fresh in cc e
  | inr apart ↦
      let e = rw apart at fresh in
      rw apart (
        ap (λ t. t +ℤ w.license.max_devices) (total-insert id s m e)
        ∙ +ℤ_swap (total m) s.license.max_devices w.license.max_devices)
]

pub Filed-insert :
    (id : ℕ) (s : LicenseStatus) (m : List (ℕ × LicenseStatus))
    → lookup id m ≡ none
    → s.license.id ≡ id
    → Filed m
    → Filed (insert id s m)
unfolding Filed lookup insert
Filed-insert id s [] fresh own filed = (own, refl, tt)
Filed-insert id s ((j, w) ∷ m) fresh own (named, once, filed) = elim (Bool-cases (j == id)) [
  | inl same ↦ let e = rw same at fresh in absurd (cc e)
  | inr apart ↦
      let e = rw apart at fresh in
      rw apart
        (named, (lookup-insert id j s m) ∙ ground (arith, once), Filed-insert id s m e own filed)
]

erase_absent : (id : ℕ) (m : List (ℕ × LicenseStatus)) → lookup id m ≡ none → erase id m ≡ m
unfolding lookup erase
erase_absent id [] fresh = refl
erase_absent id ((j, w) ∷ m) fresh = elim (Bool-cases (j == id)) [
  | inl same ↦ let e = rw same at fresh in cc e
  | inr apart ↦ let e = rw apart at fresh in rw apart (ap (◌∷◌ (j, w)) (erase_absent id m e))
]

abbrev devices_of : Option LicenseStatus → ℤ
devices_of none = pos 0
devices_of (some s) = s.license.max_devices

pub total-erase :
    (id : ℕ) (s : LicenseStatus) (m : List (ℕ × LicenseStatus))
    → Filed m
    → lookup id m ≡ some s
    → total (erase id m) ≡ total m -ℤ s.license.max_devices
unfolding Filed total lookup erase
total-erase id s [] filed held = cc held
total-erase id s ((j, w) ∷ m) (named, once, filed) held = elim (Bool-cases (j == id)) [
  | inl same ↦
      let at : j ≡ id = ground arith in
      let found = rw same at held in
      let gone = erase_absent id m (subst (λ k. lookup k m ≡ none) at once) in
      rw same (
        ap total gone
        ∙ +-ℤ_cancel (total m) w.license.max_devices
        ∙ ap (λ o. (total m +ℤ w.license.max_devices) -ℤ devices_of o) found)
  | inr apart ↦
      let e = rw apart at held in
      rw apart (
        ap (λ t. t +ℤ w.license.max_devices) (total-erase id s m filed e)
        ∙ +-ℤ_swap (total m) s.license.max_devices w.license.max_devices)
]

pub Filed-own :
    (id : ℕ) (s : LicenseStatus) (m : List (ℕ × LicenseStatus))
    → Filed m
    → lookup id m ≡ some s
    → s.license.id ≡ id
unfolding Filed lookup
Filed-own id s [] filed held = absurd (cc held)
Filed-own id s ((j, w) ∷ m) (named, once, filed) held = elim (Bool-cases (j == id)) [
  | inl same ↦
      let found = rw same at held in
      let at : j ≡ id = ground arith in sym (ap own_id found) ∙ named ∙ at
  | inr apart ↦ Filed-own id s m filed (rw apart at held)
]
  where
    own_id : Option LicenseStatus → ℕ
    own_id none = id
    own_id (some w) = w.license.id

pub Filed-erase : (id : ℕ) (m : List (ℕ × LicenseStatus)) → Filed m → Filed (erase id m)
unfolding Filed lookup erase
Filed-erase id [] filed = tt
Filed-erase id ((j, w) ∷ m) (named, once, filed) = elim (Bool-cases (j == id)) [
  | inl same ↦ rw same (Filed-erase id m filed)
  | inr apart ↦ rw apart (named, lookup-erase id j m ∙ ground (arith, once), Filed-erase id m filed)
]
