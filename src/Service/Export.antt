-- ===== src/Service/Export.antt =====
-- nvr_core/service/export.task.manager.go, with the statuses of nvr_core/utils/export.go. A task is
-- a cell behind a pointer that only the map holds, so the map holds the task itself. A method holds
-- the mutex: it is one step.
use rm_vms.Base.{
  ℕ, zero, suc, ◌+◌, ◌*◌, ◌/◌, Bool, true, false, ◌&&◌, Option, none, some, List, [], leb,
  if◌then◌else◌, String,
}
use rm_vms.Base.Int.{ℤ, pos, negsuc}
use rm_vms.Base.Assoc.{lookup, insert, String_eq}
mod Concat
mod Clips
mod Watermark
mod Placed
mod Codec
mod Ffmpeg
mod Progress
mod Lives
mod Tests

pub data TaskStatus : Type 0 where
  pending running finalizing completed failed : TaskStatus

-- A float64 of progress in percent, as the exact quotient that it rounds: `percent n d` is n / d,
-- `minus n d` is - n / d, for d above 0, and `not_a_number` is 0 / 0.
pub data Percent : Type 0 where
  percent : ℕ → ℕ → Percent
  minus : ℕ → ℕ → Percent
  not_a_number : Percent

-- `progr >= 99.0`
unfoldable pub at_least_99 : Percent → Bool
at_least_99 (percent n d) = leb (99 * d) n
at_least_99 (minus n d) = false
at_least_99 not_a_number = false

pub record ExportTask : Type 0 where
  pub id : String
  pub status : TaskStatus
  pub progress : Percent
  pub mime : String
  pub output_path : String
  pub error_msg : String
  pub created_at : ℤ

abbrev pub ExportTaskManager : Type 0
ExportTaskManager = List (String × ExportTask)

unfoldable pub new_export_task : String → ℤ → ExportTask
new_export_task id now = record {
  id = id;
  status = pending;
  progress = percent 0 1;
  mime = "";
  output_path = "";
  error_msg = "";
  created_at = now;
}

-- `GenerateTaskID` draws the id, which is an argument.
unfoldable pub create_task : ExportTaskManager → String → ℤ → ExportTaskManager
create_task m id now = insert id (new_export_task id now) m

-- `if task, exists := m.tasks[id]; exists { ... }`
unfoldable pub change_task :
    ExportTaskManager → String → (ExportTask → ExportTask) → ExportTaskManager
change_task m id change = elim (lookup id m) [ none ↦ m | some task ↦ insert id (change task) m ]

unfoldable pub is_running : TaskStatus → Bool
is_running running = true
is_running status = false

unfoldable pub with_progress : Percent → ExportTask → ExportTask
with_progress progr task =
    if at_least_99 progr && is_running task.status
    then record task { progress = progr; status = finalizing }
    else record task { progress = progr }

unfoldable pub with_status : TaskStatus → ExportTask → ExportTask
with_status status task = record task { status = status }

unfoldable pub with_success : String → ExportTask → ExportTask
with_success file_path task = record task { status = completed; output_path = file_path }

unfoldable pub with_failure : String → ExportTask → ExportTask
with_failure error_msg task = record task { status = failed; error_msg = error_msg }

unfoldable pub update_task_progress : ExportTaskManager → String → Percent → ExportTaskManager
update_task_progress m id progr = change_task m id (with_progress progr)

unfoldable pub update_task_status : ExportTaskManager → String → TaskStatus → ExportTaskManager
update_task_status m id status = change_task m id (with_status status)

unfoldable pub update_task_success : ExportTaskManager → String → String → ExportTaskManager
update_task_success m id file_path = change_task m id (with_success file_path)

unfoldable pub update_task_failed : ExportTaskManager → String → String → ExportTaskManager
update_task_failed m id error_msg = change_task m id (with_failure error_msg)

unfoldable pub get_task : ExportTaskManager → String → Option ExportTask
get_task m id = lookup id m
