-- ===== src/License/Faults.antt =====
-- nvr_core/license/manager.go: a license that has expired when it is added, and what an expiry does
-- to the list of statuses.
use rm_vms.Base.{
  ◌≡◌, ◌≢◌, refl, ◌∙◌, ap, inl, inr, ◌⊎◌, Bool, true, false, Bool-cases, if_true, if_false, arith,
}
use rm_vms.Base.Int.{ℤ, pos, leb_ℤ, eqb_ℤ, ◌≤ℤ◌}
use rm_vms.Base.Assoc.{ℕ_eq, String_eq, eqb_ℤ_iff}
use rm_vms.License.{
  Run, ok, deadlock, ◌>>=◌, Jwt, License, LicenseStatus, LicenseManager, empty_status, load_token,
  trigger_expiration, schedule_expiration_locked, with_license, add_locked, add_license, lock,
  unlock, status_of, append_status,
}

locked_expired :
    (lm : LicenseManager) (lic : License) (now : ℤ)
    → lm.locked ≡ true
    → lic.expires_at ≢ pos 0
    → lic.expires_at ≤ℤ now
    → schedule_expiration_locked lm lic now ≡ deadlock
unfolding schedule_expiration_locked trigger_expiration lock
locked_expired lm lic now held dated past =
    let e : eqb_ℤ lic.expires_at (pos 0) ≡ false =
      not_zero (Bool-cases (eqb_ℤ lic.expires_at (pos 0))) in
    let l : leb_ℤ lic.expires_at now ≡ true = ground arith in rw (e, l, held) refl
  where
    not_zero :
        (eqb_ℤ lic.expires_at (pos 0) ≡ true) ⊎ (eqb_ℤ lic.expires_at (pos 0) ≡ false)
        → eqb_ℤ lic.expires_at (pos 0) ≡ false
    not_zero (inl zero) = absurd (dated ((eqb_ℤ_iff lic.expires_at (pos 0)).0 zero))
    not_zero (inr other) = other

add_locked_expired :
    (lm : LicenseManager) (lic : License) (s : LicenseStatus) (now : ℤ)
    → lm.locked ≡ true
    → s.is_valid ≡ true
    → lic.expires_at ≢ pos 0
    → lic.expires_at ≤ℤ now
    → add_locked lm lic s now ≡ deadlock
unfolding add_locked with_license
add_locked_expired lm lic s now held valid dated past =
    if_true s.is_valid _ _ valid
    ∙ ap (λ r. r >>= λ lm'. ok (append_status lm' s))
        (locked_expired (with_license lm lic s) lic now held dated past)

-- AddLicense of a license whose token is good when jwt parses it, whose row has an expiration date
-- and whose date has come when the timer is to be set, never returns: it holds the mutex and waits
-- for it.
pub add_expired_deadlocks :
    (jwt : Jwt) (lm : LicenseManager) (lic : License) (ls : LicenseStatus) (parsed_at now : ℤ)
    → load_token jwt empty_status lic.raw_token lm.machine_id parsed_at ≡ ok ls
    → ls.is_valid ≡ true
    → lic.expires_at ≢ pos 0
    → lic.expires_at ≤ℤ now
    → add_license jwt lm lic parsed_at now ≡ deadlock
unfolding add_license lock status_of
add_expired_deadlocks jwt lm lic ls parsed_at now loads valid dated past =
    ap
      (λ r. r >>= λ ls'.
        lock lm >>= λ lm'. add_locked lm' lic (status_of lic ls') now >>= λ lm''. ok (unlock lm''))
      loads
    ∙ of_lock lm.locked refl
  where
    ending : Run LicenseManager → Run LicenseManager
    ending r = r >>= λ lm'. add_locked lm' lic (status_of lic ls) now >>= λ lm''. ok (unlock lm'')

    of_lock : (b : Bool) → lm.locked ≡ b → ending (lock lm) ≡ deadlock
    of_lock true e = ap ending (if_true lm.locked deadlock _ e)
    of_lock false e =
        ap ending (if_false lm.locked deadlock _ e)
        ∙ ap (λ r. r >>= λ lm''. ok (unlock lm''))
            (add_locked_expired (record lm { locked = true }) lic (status_of lic ls) now refl valid
              dated past)
