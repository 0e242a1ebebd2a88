-- ===== src/Service/Retention/Eviction.antt =====
-- nvr_core/service/system.retention.go: the pruning loop ends, and what it has evicted then.
use rm_vms.Base.{
  ℕ, zero, suc, ◌+◌, ◌*◌, ◌<◌, ◌≡◌, refl, sym, ap, ap₂, ◌∙◌, subst, inl, inr, ◌⊎◌, Bool, true,
  false, not, List, [], ◌∷◌, ◌++◌, take, drop, length, length-drop, take-add, drop-add,
  if◌then◌else◌, String, Bool-cases, if_false, arith,
}
use mathlib.Core.List.{append_assoc, append-nil}
use rm_vms.Segment.{Segment}
use rm_vms.Service.Retention.{
  Env, Store, Loop, pruned, db_error, out_of_fuel, Outcome, above_low, below_high, paths_of,
  prune_oldest, remove_files, prune_loop, unless_empty, enforce_disk_watermark,
}

-- The table and the files when the oldest `k` rows are evicted: the other rows are left as they
-- were, and of the files of those evicted the ones that can be removed are gone, oldest first.
unfoldable pub evict : Env → ℕ → Store → Store
evict env k st = record {
  rows = drop k st.rows;
  removed = st.removed ++ remove_files env (paths_of (take k st.rows));
}

-- The loop ended in that state: the disk is not above the low mark, or one more batch had no file,
-- or the database failed.
unfoldable pub Ending : Env → ℕ → Store → Loop → Type 0
Ending env batch st (pruned after) =
    ((after ≡ st) × (above_low (env.disk_usage st.removed) ≡ false))
    ⊎ ((after ≡ record st { rows = drop batch st.rows }) × (paths_of (take batch st.rows) ≡ []))
Ending env batch st (db_error after) = (after ≡ st) × (env.db_fails st.rows ≡ true)
Ending env batch st out_of_fuel = ⊥

-- Before each of the first `n` batches the disk was above the low mark.
unfoldable pub Needed : Env → ℕ → Store → ℕ → Type 0
Needed env batch st n =
    (i : ℕ) → i < n → above_low (env.disk_usage (evict env (i * batch) st).removed) ≡ true

remove_files-append :
    (env : Env) (xs ys : List String)
    → remove_files env (xs ++ ys) ≡ remove_files env xs ++ remove_files env ys
unfolding remove_files
remove_files-append env [] ys = refl
remove_files-append env (x ∷ xs) ys = elim (Bool-cases (env.can_remove x)) [
  | inl e ↦ rw e (ap (◌∷◌ x) (remove_files-append env xs ys))
  | inr e ↦ rw e (remove_files-append env xs ys)
]

paths_of-append : (xs ys : List Segment) → paths_of (xs ++ ys) ≡ paths_of xs ++ paths_of ys
unfolding paths_of
paths_of-append [] ys = refl
paths_of-append (x ∷ xs) ys = simp (paths_of-append xs ys, append_assoc)

evict-zero : (env : Env) (st : Store) → evict env 0 st ≡ st
unfolding evict paths_of remove_files
evict-zero env st = ap (λ gone. record st { removed = gone }) (append-nil st.removed)

evict-evict :
    (env : Env) (b j : ℕ) (st : Store) → evict env j (evict env b st) ≡ evict env (b + j) st
unfolding evict
evict-evict env b j st =
    ap₂ (λ rows removed. record { rows = rows; removed = removed })
      (sym (drop-add b j (b + j) st.rows refl))
      (append_assoc st.removed _ _
        ∙ ap (st.removed ++◌) (
            sym (
              remove_files-append env (paths_of (take b st.rows))
                (paths_of (take j (drop b st.rows))))
            ∙ ap (remove_files env) (
                sym (paths_of-append (take b st.rows) (take j (drop b st.rows)))
                ∙ ap paths_of (sym (take-add b j (b + j) st.rows refl)))))

-- A batch with files shortens the table.
batch_shrinks :
    (b : ℕ) (rows : List Segment) (p : String) (ps : List String)
    → paths_of (take b rows) ≡ p ∷ ps
    → length (drop b rows) < length rows
unfolding paths_of
batch_shrinks zero rows p ps e = cc e
batch_shrinks (suc b) [] p ps e = cc e
batch_shrinks (suc b) (x ∷ rows) p ps e = omega (arith, length-drop b rows)

-- Some number of batches was evicted, each of them needed, and the loop ended after them.
unfoldable pub Enforced : Env → ℕ → Store → Loop → Type 0
Enforced env batch st loop =
    (n : ℕ) × Needed env batch st n × Ending env batch (evict env (n * batch) st) loop

at_once :
    (env : Env) (batch : ℕ) (st : Store) (loop : Loop)
    → Ending env batch st loop
    → Enforced env batch st loop
unfolding Enforced Needed
at_once env batch st loop ending = (
  0,
  (λ i less. absurd (omega arith)),
  subst (λ s. Ending env batch s loop)
      (sym (ap (λ k. evict env k st) (omega arith) ∙ evict-zero env st)) ending,
)

one_more :
    (env : Env) (batch : ℕ) (st : Store) (loop : Loop)
    → above_low (env.disk_usage st.removed) ≡ true
    → Enforced env batch (evict env batch st) loop
    → Enforced env batch st loop
unfolding Enforced Needed
one_more env batch st loop above (n, needed, ending) = (
  suc n,
  before,
  subst (λ s. Ending env batch s loop)
      (evict-evict env batch (n * batch) st ∙ ap (λ k. evict env k st) (omega arith)) ending,
)
  where
    before :
        (i : ℕ) → i < suc n → above_low (env.disk_usage (evict env (i * batch) st).removed) ≡ true
    before zero less =
        ap (λ s. above_low (env.disk_usage s.removed))
          (ap (λ k. evict env k st) (omega arith) ∙ evict-zero env st)
        ∙ above
    before (suc i) less =
        ap (λ s. above_low (env.disk_usage s.removed))
          (ap (λ k. evict env k st) (omega arith) ∙ sym (evict-evict env batch (i * batch) st))
        ∙ needed i (omega arith)

Enforced-if :
    (env : Env) (batch : ℕ) (st : Store) (b : Bool) (x y : Loop)
    → (b ≡ true → Enforced env batch st x)
    → (b ≡ false → Enforced env batch st y)
    → Enforced env batch st (if b then x else y)
Enforced-if env batch st true x y h k = h refl
Enforced-if env batch st false x y h k = k refl

after_prune :
    (env : Env) (batch : ℕ) (st : Store) (paths : List String) (rest : Loop)
    → paths_of (take batch st.rows) ≡ paths
    → (length (drop batch st.rows) < length st.rows → Enforced env batch st rest)
    → Enforced env batch st
        (unless_empty paths (pruned (record st { rows = drop batch st.rows })) rest)
unfolding unless_empty Ending
after_prune env batch st [] rest e more = at_once env batch st _ (inr (refl, e))
after_prune env batch st (p ∷ ps) rest e more = more (batch_shrinks batch st.rows p ps e)

not-true : (b : Bool) → not b ≡ false → b ≡ true
not-true true e = refl
not-true false e = sym e

not-false : (b : Bool) → not b ≡ true → b ≡ false
not-false true e = sym e
not-false false e = refl

loop-Enforced :
    (env : Env) (batch fuel : ℕ) (st : Store)
    → length st.rows < fuel
    → Enforced env batch st (prune_loop env batch fuel st (env.disk_usage st.removed))
unfolding prune_loop prune_oldest Ending evict
loop-Enforced env batch zero st enough = absurd (omega arith)
loop-Enforced env batch (suc fuel) st enough =
    Enforced-if env batch st (not (above_low (env.disk_usage st.removed))) _ _
      (λ low. at_once env batch st (pruned st) (inl (refl, not-false _ low)))
      (λ above.
        Enforced-if env batch st (env.db_fails st.rows) _ _
          (λ fails. at_once env batch st (db_error st) (refl, fails))
          (λ works. after_prune env batch st (paths_of (take batch st.rows)) _ refl (λ shrinks.
            one_more env batch st _ (not-true _ above)
              (loop-Enforced env batch fuel (evict env batch st) (omega arith)))))

-- Where a tick of the watchdog finds the disk at the high mark, the pruning loop comes to an end
-- within the fuel given. It has evicted some number of whole batches of three rows for each active
-- camera, the oldest rows and the files of these, before each of which the disk was above the low
-- mark; and it stopped because the disk no longer is, because the next batch has no file, or
-- because the database failed.
pub enforce-Enforced :
    (env : Env) (active_cameras : ℕ) (st : Store)
    → below_high (env.disk_usage st.removed) ≡ false
    → Enforced env (active_cameras * 3) st (enforce_disk_watermark env active_cameras st).loop
unfolding enforce_disk_watermark
enforce-Enforced env active_cameras st high =
    subst (Enforced env (active_cameras * 3) st)
      (sym (ap (λ (o : Outcome). o.loop) (if_false _ _ _ high)))
      (loop-Enforced env (active_cameras * 3) (suc (length st.rows)) st (omega arith))

-- With no active camera the watchdog evicts nothing, however full the disk is and however many rows
-- the table has, if the database works: every batch is empty.
pub no_cameras_no_eviction :
    (env : Env) (st : Store)
    → below_high (env.disk_usage st.removed) ≡ false
    → env.db_fails st.rows ≡ false
    → (enforce_disk_watermark env 0 st).loop ≡ pruned st
unfolding enforce_disk_watermark prune_loop prune_oldest unless_empty paths_of
no_cameras_no_eviction env st high works =
    ap (λ (o : Outcome). o.loop) (if_false _ _ _ high)
    ∙ of_mark (above_low (env.disk_usage st.removed))
  where
    of_mark :
        (b : Bool)
        → (if not b then pruned st else if env.db_fails st.rows then db_error st else pruned st)
          ≡ pruned st
    of_mark true = if_false _ _ _ works
    of_mark false = refl
