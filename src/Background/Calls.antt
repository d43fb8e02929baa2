-- ===== src/Background/Calls.antt =====
-- src/remote-extension/background-tasks.ts: the methods of `RemoteBackgroundTasks`. One with an `await`
-- is two functions around it.
use remote_codex.Base.{
  ℕ, suc, min, max, String, Bool, true, false, not, ◌&&◌, ◌||◌, Option, none, some, List, [], ◌∷◌,
  map, ltb, leb, nat_eq, if◌then◌else◌, ◌==◌, nat_key, string_key, length, filter_by, any, all,
  Dict, get, set, delete,
}
use Prim.Native.Char.{code}
use remote_codex.Errors.{Result, ok, err, bridge_error, BridgeErrorCode}
use remote_codex.Background.Log.{LogPage, read, init as init_log}
use remote_codex.Background.Tasks.{
  BackgroundTask, running, is_running, finish, request_cancellation, RemoteBackgroundTaskSummary,
  summary, unknown_summary,
}
use remote_codex.Background.Registry.{
  TaskKey, pair_key, RemoteBackgroundTasks, update, find_task, make_capacity, prune,
}

-- The code units of an ASCII text, and of any other as many code points.
abbrev pub codes : String → List ℕ
codes String.[] = []
codes (String.◌∷◌ c s) = code c ∷ codes s

abbrev pub is_alphanumeric : ℕ → Bool
is_alphanumeric c = (leb 48 c && leb c 57) || (leb 65 c && leb c 90) || (leb 97 c && leb c 122)

-- `[A-Za-z0-9._-]`.
abbrev pub is_safe : ℕ → Bool
is_safe c = is_alphanumeric c || nat_eq c 46 || nat_eq c 95 || nat_eq c 45

-- The pattern of `validateTaskId`.
unfoldable pub is_task_id : List ℕ → Bool
is_task_id [] = false
is_task_id (c ∷ cs) = is_alphanumeric c && leb (length cs) 63 && all is_safe cs

unfoldable pub validate_task_id : String → Result (Unit {0})
validate_task_id id =
    if is_task_id (codes id)
    then ok tt
    else err (
        bridge_error BridgeErrorCode.protocol_mismatch
          "Background taskId must contain 1 to 64 safe characters")

unfoldable pub validate_argv : List String → Result (Unit {0})
validate_argv argv =
    if ltb (length argv) 1
      || ltb 256 (length argv)
      || any (λ entry. any (λ c. nat_eq c 0) (codes entry)) argv
    then err (
        bridge_error BridgeErrorCode.protocol_mismatch
          "Background argv must contain 1 to 256 NUL-free strings")
    else ok tt

pub record StartBackgroundTaskRequest : Type 0 where
  pub argv : List String
  pub cwd : Option String
  pub env : List (String × String)
  pub task_id : String
  pub timeout_ms : Option ℕ
  pub workspace_root : String

pub data Started : Type 0 where
  -- The task was there: its summary, and whether it was running.
  found : RemoteBackgroundTaskSummary → Bool → Started
  -- The working directory is looked up next.
  resolves : Started

module _ (max_log_bytes max_tasks retention_ms : ℕ) where
  -- `requestFingerprint`, a SHA-256 of JSON text, and `normalizeRemotePath`, which stands on the
  -- platform's paths.
  module _ (request_fingerprint : StartBackgroundTaskRequest → String)
      (normalize : String → String → Result String) where
    -- `start` from `#makeCapacity` to its first `await`, for a task that is not there.
    unfoldable pub admit :
        StartBackgroundTaskRequest → RemoteBackgroundTasks → RemoteBackgroundTasks × Result Started
    admit r s =
        let (s', room) = make_capacity max_log_bytes max_tasks retention_ms s in
        (
          s',
          elim room [
            | err e ↦ err e
            | ok _ ↦
                elim (normalize r.workspace_root
                  (elim r.cwd [ none ↦ r.workspace_root | some cwd ↦ cwd ])) [
                    | err e ↦ err e
                    | ok path ↦ ok resolves
                  ]
          ],
        )

    -- `start` up to its first `await`.
    unfoldable pub start_begin :
        StartBackgroundTaskRequest
        → ℕ
        → RemoteBackgroundTasks
        → RemoteBackgroundTasks × Result Started
    start_begin r now s0 =
        let s = prune max_log_bytes max_tasks retention_ms now s0 in
        elim (validate_task_id r.task_id) [
          | err e ↦ (s, err e)
          | ok _ ↦ elim (validate_argv r.argv) [
            | err e ↦ (s, err e)
            | ok _ ↦ elim (find_task (r.workspace_root, r.task_id) s) [
              | some t ↦
                  if not (t.fingerprint == request_fingerprint r)
                  then (
                    s,
                    err (
                        bridge_error BridgeErrorCode.protocol_mismatch
                          "Background taskId was reused with different parameters"),
                  )
                  else (s, ok (found (summary t) (is_running t)))
              | none ↦ admit r s
            ]
          ]
        ]

    abbrev pub new_task : StartBackgroundTaskRequest → String → ℕ → BackgroundTask
    new_task r cwd now = record {
      actual_cwd = cwd;
      cancellation_requested = false;
      completed_at_ms = none;
      exit_code = none;
      fingerprint = request_fingerprint r;
      force_timer = false;
      log = init_log max_log_bytes;
      sent = [];
      signal = none;
      started_at_ms = now;
      status = running;
      task_id = r.task_id;
      timeout =
          some (max 1000 (min (elim r.timeout_ms [ none ↦ 3600000 | some ms ↦ ms ]) 86400000));
      timed_out_flag = false;
      workspace_root = r.workspace_root;
    }

    unfoldable pub launch :
        StartBackgroundTaskRequest → String → ℕ → RemoteBackgroundTasks → RemoteBackgroundTasks
    launch r cwd now s = record {
      heap = set s.next_uid (new_task r cwd now) s.heap;
      next_uid = suc s.next_uid;
      tasks = set (r.workspace_root, r.task_id) s.next_uid s.tasks;
    }

    -- `start` behind its first `await`, which has found the real paths of the root and of the working
    -- directory, or has failed; `is_path_inside` of src/core/path-policy.ts. The `uid` is the task's.
    unfoldable pub start_resolved :
        (String → String → Bool)
        → StartBackgroundTaskRequest
        → Option (String × String)
        → ℕ
        → RemoteBackgroundTasks
        → RemoteBackgroundTasks × Result ℕ
    start_resolved is_path_inside r none now s = (
      s,
      err (
          bridge_error BridgeErrorCode.path_outside_root
            "Background task working directory does not exist"),
    )
    start_resolved is_path_inside r (some (root, cwd)) now s =
        if not (is_path_inside root cwd)
        then (
          s,
          err (
              bridge_error BridgeErrorCode.path_outside_root
                "Resolved background task directory escapes the workspace"),
        )
        else (launch r cwd now s, ok s.next_uid)

  -- The callback of the process's `error`.
  unfoldable pub start_failed : TaskKey → ℕ → ℕ → RemoteBackgroundTasks → RemoteBackgroundTasks
  start_failed key uid now s =
      let s' = update uid (finish none none now) s in record s' { tasks = delete key s'.tasks }

  -- The task that a method names, once the map is pruned and the id is validated.
  unfoldable pub lookup :
      String
      → String
      → ℕ
      → RemoteBackgroundTasks
      → RemoteBackgroundTasks × Result (Option BackgroundTask)
  lookup root id now s0 =
      let s = prune max_log_bytes max_tasks retention_ms now s0 in
      (s, elim (validate_task_id id) [ err e ↦ err e | ok _ ↦ ok (find_task (root, id) s) ])

  abbrev pub summary_or_unknown : String → Option BackgroundTask → RemoteBackgroundTaskSummary
  summary_or_unknown id none = unknown_summary id
  summary_or_unknown id (some t) = summary t

  unfoldable pub status :
      String
      → String
      → ℕ
      → RemoteBackgroundTasks
      → RemoteBackgroundTasks × Result RemoteBackgroundTaskSummary
  status root id now s =
      let (s', t) = lookup root id now s in
      (s', elim t [ err e ↦ err e | ok t ↦ ok (summary_or_unknown id t) ])

  unfoldable pub log :
      String
      → String
      → ℕ
      → ℕ
      → ℕ
      → RemoteBackgroundTasks
      → RemoteBackgroundTasks × Result (RemoteBackgroundTaskSummary × LogPage)
  log root id cursor limit_bytes now s =
      let (s', named) = lookup root id now s in
      (
        s',
        elim named [
          | err e ↦ err e
          | ok none ↦ ok (
            unknown_summary id,
            record { events = []; has_more = false; next_cursor = 0; truncated = false },
          )
          | ok (some t) ↦ ok (summary t, read cursor limit_bytes t.log)
        ],
      )

  -- `cancel` up to its `await`; what follows reads the task again.
  unfoldable pub cancel : String → String → ℕ → RemoteBackgroundTasks → RemoteBackgroundTasks
  cancel root id now s =
      let s' = (lookup root id now s).0 in
      elim (validate_task_id id) [
        | err e ↦ s'
        | ok _ ↦ elim (get (root, id) s'.tasks) [
          | none ↦ s'
          | some uid ↦ update uid (request_cancellation false) s'
        ]
      ]

-- The loops of `stopWorkspace` and `close` over the tasks that they stop at once.
unfoldable pub stop_all : List ℕ → RemoteBackgroundTasks → RemoteBackgroundTasks
stop_all [] s = s
stop_all (uid ∷ uids) s = stop_all uids (update uid (request_cancellation true) s)

abbrev pub is_of_workspace : String → Dict ℕ BackgroundTask → TaskKey × ℕ → Bool
is_of_workspace root heap (key, uid) = elim (get uid heap) [
  | none ↦ false
  | some t ↦ t.workspace_root == root
]

-- The entries that `stopWorkspace` picks.
abbrev pub tasks_of_workspace : String → RemoteBackgroundTasks → List (TaskKey × ℕ)
tasks_of_workspace root s = filter_by (is_of_workspace root s.heap) s.tasks

unfoldable pub stop_workspace_begin : String → RemoteBackgroundTasks → RemoteBackgroundTasks
stop_workspace_begin root s = stop_all (map (λ e. e.1) (tasks_of_workspace root s)) s

-- `this.#tasks.get(taskKey) === task`.
unfoldable pub holds : TaskKey → ℕ → Dict TaskKey ℕ → Bool
holds key uid m = elim (get key m) [ none ↦ false | some current ↦ nat_eq current uid ]

-- Its loop behind the `await` that all picked tasks settle.
unfoldable pub stop_workspace_end :
    List (TaskKey × ℕ) → RemoteBackgroundTasks → RemoteBackgroundTasks
stop_workspace_end [] s = s
stop_workspace_end ((key, uid) ∷ es) s =
    stop_workspace_end es
      (record s { tasks = if holds key uid s.tasks then delete key s.tasks else s.tasks })

unfoldable pub close : RemoteBackgroundTasks → RemoteBackgroundTasks
close s = stop_all (map (λ e. e.1) s.tasks) s
