-- ===== src/Background/Tasks.antt =====
-- src/remote-extension/background-tasks.ts: `BackgroundTask`, and the methods of `RemoteBackgroundTasks`
-- that change one task. Processes and timers are the platform's: a task notes which signals its process
-- tree has been sent, and which of its timers are set.
use remote_codex.Base.{
  ℕ, String, Bool, true, false, not, Option, none, some, List, [], ◌∷◌, ◌++◌, nat_eq, if◌then◌else◌,
  nat_key, string_key,
}
use remote_codex.Background.Log.{BoundedTaskLog, Channel, append}

pub data RemoteBackgroundTaskState : Type 0 where
  running completed failed cancelled timed_out : RemoteBackgroundTaskState

pub data Signal : Type 0 where
  sigterm sigkill : Signal

-- `settled` is the promise that `finish` resolves: it is resolved once the task is not running.
pub record BackgroundTask : Type 0 where
  pub actual_cwd : String
  pub cancellation_requested : Bool
  pub completed_at_ms : Option ℕ
  pub exit_code : Option ℕ
  pub fingerprint : String
  pub force_timer : Bool
  pub log : BoundedTaskLog
  pub sent : List Signal
  pub signal : Option String
  pub started_at_ms : ℕ
  pub status : RemoteBackgroundTaskState
  pub task_id : String
  pub timeout : Option ℕ
  pub timed_out_flag : Bool
  pub workspace_root : String

abbrev pub is_running_state : RemoteBackgroundTaskState → Bool
is_running_state running = true
is_running_state _ = false

abbrev pub is_running : BackgroundTask → Bool
is_running t = is_running_state t.status

unfoldable pub terminate : Bool → BackgroundTask → BackgroundTask
terminate immediate t =
    if immediate
    then record t { timeout = none; force_timer = false; sent = t.sent ++ sigterm ∷ sigkill ∷ [] }
    else record t { timeout = none; force_timer = true; sent = t.sent ++ sigterm ∷ [] }

-- `exitCode === 0`.
abbrev pub is_success : Option ℕ → Bool
is_success none = false
is_success (some code) = nat_eq code 0

-- The status that `#finish` chooses.
abbrev pub verdict : Bool → Bool → Option ℕ → RemoteBackgroundTaskState
verdict over_time unwanted exit_code =
    if over_time
    then timed_out
    else if unwanted
    then cancelled
    else if is_success exit_code
    then completed
    else failed

unfoldable pub finish : Option ℕ → Option String → ℕ → BackgroundTask → BackgroundTask
finish exit_code signal now t = if not (is_running t) then t else record t {
  timeout = none;
  force_timer = false;
  completed_at_ms = some now;
  exit_code = exit_code;
  signal = signal;
  status = verdict t.timed_out_flag t.cancellation_requested exit_code;
}

-- The callback of the timeout that `start` sets.
unfoldable pub on_timeout : BackgroundTask → BackgroundTask
on_timeout t =
    if not (is_running t) then t else terminate false (record t { timed_out_flag = true })

-- The callback of the timer that `#terminate` sets.
unfoldable pub on_force : BackgroundTask → BackgroundTask
on_force t = if is_running t then record t { sent = t.sent ++ sigkill ∷ [] } else t

-- What `cancel`, `stopWorkspace` and `close` do to a task.
unfoldable pub request_cancellation : Bool → BackgroundTask → BackgroundTask
request_cancellation immediate t =
    if is_running t then terminate immediate (record t { cancellation_requested = true }) else t

unfoldable pub on_data : Channel → List ℕ → BackgroundTask → BackgroundTask
on_data channel chunk t = record t { log = append channel chunk t.log }

-- The answer of `#summary`, and that for a task that is not known, whose status is `none`.
pub record RemoteBackgroundTaskSummary : Type 0 where
  pub actual_cwd : Option String
  pub cancellation_requested : Bool
  pub completed_at_ms : Option ℕ
  pub exit_code : Option ℕ
  pub log_base_cursor : ℕ
  pub log_cursor : ℕ
  pub signal : Option String
  pub started_at_ms : Option ℕ
  pub status : Option RemoteBackgroundTaskState
  pub task_id : String

abbrev pub summary : BackgroundTask → RemoteBackgroundTaskSummary
summary t = record {
  actual_cwd = some t.actual_cwd;
  cancellation_requested = t.cancellation_requested;
  completed_at_ms = t.completed_at_ms;
  exit_code = t.exit_code;
  log_base_cursor = t.log.base_cursor;
  log_cursor = t.log.next_cursor;
  signal = t.signal;
  started_at_ms = some t.started_at_ms;
  status = some t.status;
  task_id = t.task_id;
}

abbrev pub unknown_summary : String → RemoteBackgroundTaskSummary
unknown_summary id = record {
  actual_cwd = none;
  cancellation_requested = false;
  completed_at_ms = none;
  exit_code = none;
  log_base_cursor = 0;
  log_cursor = 0;
  signal = none;
  started_at_ms = none;
  status = none;
  task_id = id;
}
