-- ===== src/Service/Retention.antt =====
-- nvr_core/service/system.retention.go, and `PruneOldest` of nvr_core/db/repository/segment.go.
-- The table of segments is a list in the order of start times, which the query takes the oldest
-- from. What the disk reports after some files are gone, whether a file can be removed and whether
-- the database fails are parameters; the quotient of two float64 is compared as an exact fraction.
use rm_vms.Base.{
  ℕ, zero, suc, ◌+◌, ◌*◌, Bool, true, false, ◌||◌, not, Option, none, some, List, [], ◌∷◌, ◌++◌,
  take, drop, length, ltb, if◌then◌else◌, String,
}
use rm_vms.Base.Assoc.{String_eq}
use rm_vms.Segment.{Segment}
mod Eviction
mod Tests

pub record DiskUsage : Type 0 where
  pub used_bytes : ℕ
  pub total_bytes : ℕ

pub record Env : Type 0 where
  -- after the files of the list are gone; `none` is an error
  pub disk_usage : List String → Option DiskUsage
  pub can_remove : String → Bool
  -- with these rows in the table
  pub db_fails : List Segment → Bool

-- `diskPerc < HighWaterMark`, where an error leaves `diskPerc` at 0: 0.85 of the disk.
unfoldable pub below_high : Option DiskUsage → Bool
below_high none = true
below_high (some u) = ltb (100 * u.used_bytes) (85 * u.total_bytes)

-- `diskPerc > LowWaterMark`: 0.80 of the disk.
unfoldable pub above_low : Option DiskUsage → Bool
above_low none = false
above_low (some u) = ltb (80 * u.total_bytes) (100 * u.used_bytes)

pub record Store : Type 0 where
  pub rows : List Segment
  pub removed : List String

unfoldable pub non_empty : String → List String
non_empty path = if String_eq.beq path "" then [] else path ∷ []

unfoldable pub paths_of : List Segment → List String
paths_of [] = []
paths_of (seg ∷ rows) = non_empty seg.file_path ++ non_empty seg.snapshot_path ++ paths_of rows

-- The paths of the oldest rows, and the rows that are left.
unfoldable pub prune_oldest : List Segment → ℕ → List String × List Segment
prune_oldest rows limit = (paths_of (take limit rows), drop limit rows)

-- `os.Remove` of each path; a failure is logged.
unfoldable pub remove_files : Env → List String → List String
remove_files env [] = []
remove_files env (path ∷ paths) =
    let rest = remove_files env paths in if env.can_remove path then path ∷ rest else rest

pub data Warning : Type 0 where
  near_full full : Warning

-- How the pruning loop ends: below the mark or with nothing to delete, in both cases before the
-- vacuum; with an error of the database; or without fuel.
pub data Loop : Type 0 where
  pruned : Store → Loop
  db_error : Store → Loop
  out_of_fuel : Loop

-- `len(paths) == 0`
unfoldable pub unless_empty : List String → Loop → Loop → Loop
unless_empty [] nothing rest = nothing
unless_empty (p ∷ paths) nothing rest = rest

unfoldable pub prune_loop : Env → ℕ → ℕ → Store → Option DiskUsage → Loop
prune_loop env batch zero st disk = out_of_fuel
prune_loop env batch (suc fuel) st disk =
    let got = prune_oldest st.rows batch in
    let gone = st.removed ++ remove_files env got.0 in
    let rest =
      prune_loop env batch fuel (record { rows = got.1; removed = gone }) (env.disk_usage gone) in
    if not (above_low disk)
    then pruned st
    else if env.db_fails st.rows
    then db_error st
    else unless_empty got.0 (pruned (record st { rows = got.1 })) rest

pub record Outcome : Type 0 where
  pub warnings : List Warning
  pub loop : Loop
  pub vacuumed : Bool

unfoldable pub is_pruned : Loop → Bool
is_pruned (pruned st) = true
is_pruned (db_error st) = false
is_pruned out_of_fuel = false

-- One tick of the watchdog.
unfoldable pub enforce_disk_watermark : Env → ℕ → Store → Outcome
enforce_disk_watermark env active_cameras st =
    let disk = env.disk_usage st.removed in
    if below_high disk
    then record {
      warnings = if above_low disk then near_full ∷ [] else [];
      loop = pruned st;
      vacuumed = false;
    }
    else let loop = prune_loop env (active_cameras * 3) (suc (length st.rows)) st disk in
      record { warnings = full ∷ []; loop = loop; vacuumed = is_pruned loop }
