-- ===== src/Process/Worker/Frame.antt =====
-- What a message about one camera may change of a worker's state (nvr_core/process/worker.go), and
-- how the branches of a handler are put together.
use Prim.Native.String.{String}
use rm_vms.Base.{
  ℕ, ◌+◌, ◌≡◌, ◌≢◌, refl, ap, ◌∙◌, inl, inr, Bool, true, false, Option, none, some, ◌==◌, ==_iff,
  if◌then◌else◌, Bool-cases, subst,
}
use rm_vms.Base.Assoc.{lookup, ℕ_eq}
use rm_vms.Process.Camera.{StreamProfile}
use rm_vms.Process.Worker.{State, set_profile, set_restarts, restarts}
use rm_vms.Process.Worker.Response.{WorkerResponse, plan_restart}

-- What a message about `cam_id` leaves alone: the worker's map of cameras, the lines written, and
-- every camera but the one that the map has for `cam_id`.
unfoldable pub Kept : ℕ → State → State → Type 0
Kept cam_id s s' =
    (s'.worker.cameras ≡ s.worker.cameras)
    × (s'.worker.lines ≡ s.worker.lines)
    × ((q : ℕ) → lookup cam_id s.worker.cameras ≢ some q → s'.store q ≡ s.store q)

pub Kept-refl : (cam_id : ℕ) (s : State) → Kept cam_id s s
unfolding Kept
Kept-refl cam_id s = (refl, refl, λ q other. refl)

pub set_profile-Kept :
    (s : State) (cam_id p : ℕ) (profile : String) (sp : StreamProfile)
    → lookup cam_id s.worker.cameras ≡ some p
    → Kept cam_id s (set_profile s p profile sp)
unfolding Kept
set_profile-Kept s cam_id p profile sp known = (
  refl,
  refl,
  λ q other. elim (Bool-cases (p == q)) [
    | inl same ↦ absurd (other (known ∙ ap some ((==_iff p q).0 same)))
    | inr apart ↦ rw apart refl
  ],
)

-- A handler that does not panic changes nothing else.
unfoldable pub Keeps : ℕ → State → Option State → Type 0
Keeps cam_id s result = (s' : State) → result ≡ some s' → Kept cam_id s s'

pub Keeps-none : (cam_id : ℕ) (s : State) → Keeps cam_id s none
unfolding Keeps
Keeps-none cam_id s s' e = cc e

pub Keeps-some : (cam_id : ℕ) (s s1 : State) → Kept cam_id s s1 → Keeps cam_id s (some s1)
unfolding Keeps
Keeps-some cam_id s s1 kept s' e = subst (Kept cam_id s) (cc e) kept

pub Keeps-elim : (cam_id : ℕ) (s s1 : State) → Keeps cam_id s (some s1) → Kept cam_id s s1
unfolding Keeps
Keeps-elim cam_id s s1 kept = kept s1 refl

pub set_restarts-Kept :
    (s s1 : State) (cam_id id n : ℕ) → Kept cam_id s s1 → Kept cam_id s (set_restarts s1 id n)
unfolding Kept
set_restarts-Kept s s1 cam_id id n kept = kept

pub plan_restart-Kept :
    (s s1 : State) (cam_id : ℕ) (profile : String)
    → Kept cam_id s s1
    → Kept cam_id s (plan_restart s1 cam_id profile)
unfolding Kept
plan_restart-Kept s s1 cam_id profile kept = kept

pub Keeps-apply :
    (cam_id : ℕ) (s s1 : State) (result : Option State)
    → Keeps cam_id s result
    → result ≡ some s1
    → Kept cam_id s s1
unfolding Keeps
Keeps-apply cam_id s s1 result keeps done = keeps s1 done

-- The count of restarts is no part of what `Kept` is about.
pub Keeps-counted :
    (s : State) (resp : WorkerResponse) (result : Option State)
    → Keeps resp.cam_id (set_restarts s resp.cam_id (restarts s resp.cam_id + 1)) result
    → Keeps resp.cam_id s result
unfolding Keeps Kept
Keeps-counted s resp result keeps = keeps

pub Keeps-if :
    (cam_id : ℕ) (s : State) (b : Bool) (x y : Option State)
    → Keeps cam_id s x
    → Keeps cam_id s y
    → Keeps cam_id s (if b then x else y)
Keeps-if cam_id s true x y kx ky = kx
Keeps-if cam_id s false x y kx ky = ky

pub Kept-if :
    (cam_id : ℕ) (s : State) (b : Bool) (x y : State)
    → Kept cam_id s x
    → Kept cam_id s y
    → Kept cam_id s (if b then x else y)
Kept-if cam_id s true x y kx ky = kx
Kept-if cam_id s false x y kx ky = ky
