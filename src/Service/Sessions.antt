-- ===== src/Service/Sessions.antt =====
-- nvr_core/service/mem.userstatus.go: which access tokens are still good, by user. `now` is
-- `time.Now().Unix()`. A method holds the mutex, so it is one step. The clock readings of `login`
-- in nvr_core/service/auth.go are two: one for the token, one for the map.
use rm_vms.Base.{
  ℕ, ◌≡◌, refl, sym, subst, ◌∙◌, inl, inr, Bool, false, none, some, List, [], ◌∷◌, ◌==◌, Bool-cases,
  Option-cases, All, arith,
}
use rm_vms.Base.Int.{ℤ, leb_ℤ, ◌≤ℤ◌, ◌<ℤ◌}
use rm_vms.Base.Assoc.{
  lookup, insert, erase, ℕ_eq, lookup-insert, lookup-erase, lookup-insert_self, lookup-erase_self,
}

abbrev pub UserStatusMap : Type 0
UserStatusMap = List (ℕ × ℤ)

unfoldable pub login : UserStatusMap → ℕ → ℤ → UserStatusMap
login m user_id now = elim (lookup user_id m) [ none ↦ insert user_id now m | some since ↦ m ]

unfoldable pub update_permissions : UserStatusMap → ℕ → ℤ → UserStatusMap
update_permissions m user_id now = insert user_id now m

unfoldable pub logout_all : UserStatusMap → ℕ → UserStatusMap
logout_all m user_id = erase user_id m

unfoldable pub is_valid : UserStatusMap → ℕ → ℤ → Bool
is_valid m user_id token_issued_at = elim (lookup user_id m) [
  | none ↦ false
  | some last_update ↦ leb_ℤ last_update token_issued_at
]

-- The calls on the map, each at its time.
pub data Call : Type 0 where
  logs_in permissions_change : ℕ → ℤ → Call
  logs_out : ℕ → Call

unfoldable pub call : UserStatusMap → Call → UserStatusMap
call m (logs_in user_id now) = login m user_id now
call m (permissions_change user_id now) = update_permissions m user_id now
call m (logs_out user_id) = logout_all m user_id

unfoldable pub calls : UserStatusMap → List Call → UserStatusMap
calls m [] = m
calls m (c ∷ cs) = calls (call m c) cs

-- The clock stands at `t` or later at the call.
unfoldable pub NotBefore : ℤ → Call → Type 0
NotBefore t (logs_in user_id now) = t ≤ℤ now
NotBefore t (permissions_change user_id now) = t ≤ℤ now
NotBefore t (logs_out user_id) = Unit

-- What the map has for the user, if anything, is at `t` or later.
unfoldable pub Since : ℤ → ℕ → UserStatusMap → Type 0
Since t user m = (v : ℤ) → lookup user m ≡ some v → t ≤ℤ v

pub insert-Since :
    (t : ℤ) (user other : ℕ) (now : ℤ) (m : UserStatusMap)
    → t ≤ℤ now
    → Since t user m
    → Since t user (insert other now m)
unfolding Since
insert-Since t user other now m late since v found = elim (Bool-cases (other == user)) [
  | inl same ↦
      let e = rw same at (lookup-insert other user now m) in
      let got : now ≡ v = cc (e, found) in subst (λ x. t ≤ℤ x) got late
  | inr apart ↦ let e = rw apart at (lookup-insert other user now m) in since v (sym e ∙ found)
]

pub erase-Since :
    (t : ℤ) (user other : ℕ) (m : UserStatusMap) → Since t user m → Since t user (erase other m)
unfolding Since
erase-Since t user other m since v found = elim (Bool-cases (other == user)) [
  | inl same ↦ let e = rw same at (lookup-erase other user m) in cc (e, found)
  | inr apart ↦ let e = rw apart at (lookup-erase other user m) in since v (sym e ∙ found)
]

call-Since :
    (t : ℤ) (user : ℕ) (m : UserStatusMap) (c : Call)
    → NotBefore t c
    → Since t user m
    → Since t user (call m c)
unfolding call NotBefore login update_permissions logout_all
call-Since t user m (logs_in other now) late since = elim (Option-cases (lookup other m)) [
  | inl out ↦ rw (login, out) (insert-Since t user other now m late since)
  | inr (v, known) ↦ rw (login, known) since
]
call-Since t user m (permissions_change other now) late since =
    insert-Since t user other now m late since
call-Since t user m (logs_out other) late since = erase-Since t user other m since

calls-Since :
    (t : ℤ) (user : ℕ) (cs : List Call) (m : UserStatusMap)
    → All (NotBefore t) cs
    → Since t user m
    → Since t user (calls m cs)
unfolding calls
calls-Since t user [] m late since = since
calls-Since t user (c ∷ cs) m (first, rest) since =
    calls-Since t user cs (call m c) rest (call-Since t user m c first since)

-- A token that was issued before the time of the user's last entry is not good.
pub stale_rejected :
    (t issued : ℤ) (user : ℕ) (m : UserStatusMap)
    → issued <ℤ t
    → Since t user m
    → is_valid m user issued ≡ false
unfolding is_valid Since
stale_rejected t issued user m stale since = elim (Option-cases (lookup user m)) [
  | inl out ↦ rw (is_valid, out) refl
  | inr (v, known) ↦ let late = since v known in rw (is_valid, known) (ground arith)
]

pub update_permissions-Since :
    (m : UserStatusMap) (user : ℕ) (t : ℤ) → Since t user (update_permissions m user t)
unfolding Since update_permissions
update_permissions-Since m user t v found =
    let got : t ≡ v = cc (found, lookup-insert_self user t m) in
    subst (λ x. t ≤ℤ x) got (omega arith)

-- When the permissions of a user change at `t`, no token issued to the user before `t` is ever good
-- again, whoever logs in or out or has permissions changed afterwards, if the clock never goes
-- behind `t`.
pub permissions_change_revokes :
    (m : UserStatusMap) (user : ℕ) (t issued : ℤ) (later : List Call)
    → issued <ℤ t
    → All (NotBefore t) later
    → is_valid (calls (update_permissions m user t) later) user issued ≡ false
permissions_change_revokes m user t issued later stale clock =
    stale_rejected t issued user _ stale (
      calls-Since t user later (update_permissions m user t) clock
        (update_permissions-Since m user t))

-- After a log out no token of the user is good.
pub logout_all_revokes :
    (m : UserStatusMap) (user : ℕ) (issued : ℤ) → is_valid (logout_all m user) user issued ≡ false
unfolding is_valid logout_all
logout_all_revokes m user issued = rw (is_valid, logout_all, lookup-erase_self user m) refl

-- The token of a first log in, issued at `issued` and registered at `now`, is good exactly where
-- the clock did not tick over between the two readings; a later log in keeps the first entry.
pub login_valid :
    (m : UserStatusMap) (user : ℕ) (issued now : ℤ)
    → (lookup user m ≡ none → is_valid (login m user now) user issued ≡ leb_ℤ now issued)
      × ((v : ℤ)
          → lookup user m ≡ some v
          → is_valid (login m user now) user issued ≡ leb_ℤ v issued)
unfolding is_valid login
login_valid m user issued now = (
  (λ out. rw (is_valid, login, out, lookup-insert_self user now m) refl),
  (λ v known. rw (is_valid, login, known) (rw known refl)),
)
