-- ===== src/Process/Worker/Recover.antt =====
-- The life of the C++ process of a worker (nvr_core/process/worker.go): `Start`, `Stop`,
-- `monitorProcess` and `recoverWorker`. What the operating system answers is an input.
use Prim.Native.String.{String}
use text.Mathlib.Text.{◌==◌ as str_eq}
use rm_vms.Base.{◌≡◌, ◌≢◌, refl, Bool, true, Option, none, some, List, [], ◌∷◌, ◌++◌, if◌then◌else◌}
use rm_vms.Process.Reader.{ReaderShm, close}
use rm_vms.Process.Worker.{
  Pipe, opened, absent, broken, State, Word, word, number, send_command, send_worker_id,
}

-- Which calls of a launch succeed, and what `Stdin` is where the launch failed behind its pipe.
pub record Launch : Type 0 where
  pub stdin_pipe : Bool
  pub stdout_pipe : Bool
  pub stderr_pipe : Bool
  pub started : Bool
  pub stdin_of_failed : Pipe

pub data LaunchError : Type 0 where
  stdin_error stdout_error stderr_error start_failed : LaunchError

abbrev with_stdin : State → Pipe → State
with_stdin s pipe = record s { worker = record (s.worker) { stdin = pipe } }

-- `ConfigureCMDPipes`, with the error.
unfoldable configure_cmd_pipes : Launch → Option LaunchError
configure_cmd_pipes l =
    if l.stdin_pipe
    then (if l.stdout_pipe
        then (if l.stderr_pipe then none else some stderr_error)
        else some stdout_error)
    else some stdin_error

-- `Start`. Where it returns no error, `monitorProcess` runs in the background.
unfoldable start : Launch → State → State × Option LaunchError
start l s = elim (configure_cmd_pipes l) [
  | some stdin_error ↦ (s, some stdin_error)
  | some e ↦ (with_stdin s l.stdin_of_failed, some e)
  | none ↦
      if l.started
      then ((send_worker_id (with_stdin s opened)).0, none)
      else (with_stdin s l.stdin_of_failed, some start_failed)
]

-- What `recoverWorker` leaves: the worker, the reader that it closed with its loops, the file that it
-- removed, and the error that it logs.
pub record Recovered : Type 0 where
  pub state : State
  pub closed : Option ReaderShm
  pub removed : Option String
  pub failed : Option LaunchError

abbrev drop_reader : State → State
drop_reader s = record s { worker = record (s.worker) { shm_reader = none } }

abbrev closed_reader : Option ReaderShm → Option ReaderShm
closed_reader none = none
closed_reader (some r) = some (close r)

-- `shmPath`, which is not removed where it is empty.
abbrev wiped : (ReaderShm → String) → Option ReaderShm → Option String
wiped file_path none = none
wiped file_path (some r) = if str_eq (file_path r) "" then none else some (file_path r)

unfoldable recover_worker : (ReaderShm → String) → Launch → State → Recovered
recover_worker file_path l s =
    let (s', failed) = start l (drop_reader s) in
    record {
      state = s';
      closed = closed_reader s.worker.shm_reader;
      removed = wiped file_path s.worker.shm_reader;
      failed = failed;
    }

-- `monitorProcess` when the process has ended; `cancelled` is `ctx.Err() != nil`, and `none` is the
-- end of the monitor without a restart.
unfoldable monitor_process : Bool → (ReaderShm → String) → Launch → State → Option Recovered
monitor_process cancelled file_path l s =
    if cancelled then none else some (recover_worker file_path l s)

-- `Stop` closes the pipe and waits for the process.
unfoldable stop : State → State
stop s = elim s.worker.stdin [ absent ↦ s | opened ↦ with_stdin s broken | broken ↦ s ]

-- A recovery whose launch succeeds tells the new process its id and nothing else: the map of
-- cameras is as it was, and no stream of them is started.
recover_worker_sends_only_id :
    (file_path : ReaderShm → String) (pipe : Pipe) (s : State)
    → let l : Launch = record {
      stdin_pipe = true;
      stdout_pipe = true;
      stderr_pipe = true;
      started = true;
      stdin_of_failed = pipe;
    } in
      let got = recover_worker file_path l s in
      (got.state.worker.lines ≡ s.worker.lines ++ (word "WORKER" ∷ number s.worker.id ∷ []) ∷ [])
      × (got.state.worker.cameras ≡ s.worker.cameras)
      × (got.state.store ≡ s.store)
      × (got.failed ≡ none)
unfolding recover_worker start configure_cmd_pipes send_worker_id send_command
recover_worker_sends_only_id file_path pipe s = (refl, refl, refl, refl)

-- A command to a worker that was stopped returns an error and writes nothing.
stop-send_command :
    (s : State) (line : List Word)
    → ((send_command (stop s) line).0.worker.lines ≡ s.worker.lines)
      × ((send_command (stop s) line).1 ≢ none)
unfolding stop send_command
stop-send_command s line = by_pipe s.worker.stdin refl
  where
    by_pipe :
        (pipe : Pipe)
        → s.worker.stdin ≡ pipe
        → ((send_command (stop s) line).0.worker.lines ≡ s.worker.lines)
          × ((send_command (stop s) line).1 ≢ none)
    by_pipe absent e = rw e (refl, λ x. cc x)
    by_pipe opened e = rw e (refl, λ x. cc x)
    by_pipe broken e = rw e (refl, λ x. cc x)
