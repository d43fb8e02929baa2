-- ===== src/Background/Steps.antt =====
-- The histories of `RemoteBackgroundTasks` (src/remote-extension/background-tasks.ts).
use remote_codex.Base.{ℕ, String, Bool, Option, List, nat_key, string_key}
use remote_codex.Errors.{Result}
use remote_codex.Background.Log.{Channel}
use remote_codex.Background.Tasks.{finish, on_timeout, on_force, on_data}
use remote_codex.Background.Registry.{RemoteBackgroundTasks, TaskKey, pair_key, init, update}
use remote_codex.Background.Calls.{
  StartBackgroundTaskRequest, start_begin, start_resolved, start_failed, lookup, cancel,
  stop_workspace_begin, stop_workspace_end, close,
}

module _ (max_log_bytes max_tasks retention_ms : ℕ)
    (request_fingerprint : StartBackgroundTaskRequest → String)
    (normalize : String → String → Result String) (is_path_inside : String → String → Bool) where
  -- Calls, callbacks and halves of calls, in any order: the process and the timers of a task may call
  -- back at any time.
  pub data Step (s : RemoteBackgroundTasks) : RemoteBackgroundTasks → Type 0 where
    begins :
        (r : StartBackgroundTaskRequest) (now : ℕ)
        → Step s
            (start_begin max_log_bytes max_tasks retention_ms request_fingerprint normalize r now
              s).0
    resolved :
        (r : StartBackgroundTaskRequest) (paths : Option (String × String)) (now : ℕ)
        → Step s
            (start_resolved max_log_bytes max_tasks retention_ms request_fingerprint normalize
              is_path_inside r paths now s).0
    failed :
        (key : TaskKey) (uid now : ℕ)
        → Step s (start_failed max_log_bytes max_tasks retention_ms key uid now s)
    writes :
        (uid : ℕ) (channel : Channel) (chunk : List ℕ)
        → Step s (update uid (on_data channel chunk) s)
    ends :
        (uid : ℕ) (code : Option ℕ) (sig : Option String) (now : ℕ)
        → Step s (update uid (finish code sig now) s)
    times_out : (uid : ℕ) → Step s (update uid on_timeout s)
    forces : (uid : ℕ) → Step s (update uid on_force s)
    -- `status` and `log`.
    reads :
        (root id : String) (now : ℕ)
        → Step s (lookup max_log_bytes max_tasks retention_ms root id now s).0
    cancels :
        (root id : String) (now : ℕ)
        → Step s (cancel max_log_bytes max_tasks retention_ms root id now s)
    stops : (root : String) → Step s (stop_workspace_begin root s)
    stopped : (picked : List (TaskKey × ℕ)) → Step s (stop_workspace_end picked s)
    closes : Step s (close s)

  pub data Reach : RemoteBackgroundTasks → Type 0 where
    begin : Reach init
    next : {s s' : RemoteBackgroundTasks} → Reach s → Step s s' → Reach s'

  pub data Follows (s : RemoteBackgroundTasks) : RemoteBackgroundTasks → Type 0 where
    now_here : Follows s s
    then_step : {s' s'' : RemoteBackgroundTasks} → Follows s s' → Step s' s'' → Follows s s''
