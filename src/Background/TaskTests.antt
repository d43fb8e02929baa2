-- ===== src/Background/TaskTests.antt =====
-- Runs of `RemoteBackgroundTasks` (src/remote-extension/background-tasks.ts).
use remote_codex.Base.{
  String, ◌≡◌, refl, Bool, true, none, some, [], ◌∷◌, map, ◌==◌, nat_key, string_key, get, set,
}
use remote_codex.Errors.{Result, ok}
use remote_codex.Background.Log.{init as init_log}
use remote_codex.Background.Tasks.{BackgroundTask, completed, is_running, finish, summary}
use remote_codex.Background.Registry.{
  RemoteBackgroundTasks, pair_key, init, update, make_capacity, prune, find_task,
}
use remote_codex.Background.Calls.{
  StartBackgroundTaskRequest, found, resolves, admit, start_begin, new_task, launch, start_resolved,
  validate_task_id, validate_argv, is_task_id, close,
}
use remote_codex.Background.Lifecycle.{SameOutcome, Explained}
use remote_codex.Background.Steps.{Reach, begin, next, now_here, then_step, resolved, ends, closes}
use remote_codex.Background.Outcomes.{Follows-outcome, Reach-Explained, start_begin-running}

abbrev request : StartBackgroundTaskRequest
request = record {
  argv = "make" ∷ [];
  cwd = none;
  env = [];
  task_id = "build-1";
  timeout_ms = none;
  workspace_root = "/w";
}

abbrev fingerprint_of : StartBackgroundTaskRequest → String
fingerprint_of r = r.task_id

abbrev normalize : String → String → Result String
normalize root path = ok path

abbrev inside : String → String → Bool
inside root path = root == path

abbrev started : RemoteBackgroundTasks
started =
    (start_resolved 100 8 1000 fingerprint_of normalize inside request (some ("/w", "/w")) 5 init).0

abbrev ended : RemoteBackgroundTasks
ended = update 0 (finish (some 0) none 9) started

abbrev task : BackgroundTask
task = new_task 100 8 1000 fingerprint_of normalize request "/w" 5

abbrev ended_task : BackgroundTask
ended_task = record task {
  timeout = none;
  completed_at_ms = some 9;
  exit_code = some 0;
  status = completed;
}

first_call : (start_begin 100 8 1000 fingerprint_of normalize request 4 init).1 ≡ ok resolves
unfolding start_begin admit make_capacity prune find_task get validate_task_id validate_argv
    is_task_id
first_call = refl

second_call :
    (start_begin 100 8 1000 fingerprint_of normalize request 6 started).1
    ≡ ok (found (summary task) true)
unfolding start_begin admit make_capacity prune find_task get set start_resolved launch
    validate_task_id validate_argv is_task_id init_log
second_call = refl

-- Two calls with one task id whose first halves both run before a second half: each starts a process,
-- and the map knows only the later one.
abbrev raced : RemoteBackgroundTasks
raced =
    (start_resolved 100 8 1000 fingerprint_of normalize inside request (some ("/w", "/w")) 7
      started).0

raced_calls :
    ((start_begin 100 8 1000 fingerprint_of normalize request 4
        (start_begin 100 8 1000 fingerprint_of normalize request 4 init).0).1
      ≡ ok resolves)
    × (map (λ e. is_running e.1) raced.heap ≡ true ∷ true ∷ [])
    × (map (λ e. e.1) raced.tasks ≡ 1 ∷ [])
unfolding start_begin admit make_capacity prune find_task get set start_resolved launch
    validate_task_id validate_argv is_task_id init_log
raced_calls = (refl, refl, refl)

abbrev R : RemoteBackgroundTasks → Type 0
R = Reach 100 8 1000 fingerprint_of normalize inside

started-Reach : R started
unfolding start_resolved
started-Reach = next begin (resolved request (some ("/w", "/w")) 5)

ended-Reach : R ended
ended-Reach = next started-Reach (ends 0 (some 0) none 9)

Follows-outcome_example :
    (u : BackgroundTask) × (get 0 (close ended).heap ≡ some u) × SameOutcome ended_task u
unfolding start_resolved launch update finish get set init_log
Follows-outcome_example =
    Follows-outcome 100 8 1000 fingerprint_of normalize inside 0 ended_task ended-Reach refl refl
      (then_step now_here closes)

Reach-Explained_example : Explained ended_task
unfolding start_resolved launch update finish get set init_log
Reach-Explained_example =
    Reach-Explained 100 8 1000 fingerprint_of normalize inside 0 ended_task ended-Reach refl

start_begin-running_example :
    find_task
      ("/w", "build-1")
      (start_begin 100 1 1000 fingerprint_of normalize
        (record request { task_id = "b" })
        9
        started).0
    ≡ some task
unfolding start_resolved launch find_task get set init_log
start_begin-running_example =
    start_begin-running 100 1 1000 fingerprint_of normalize inside ("/w", "build-1") task
      (record request { task_id = "b" }) 9 (next begin (resolved request (some ("/w", "/w")) 5))
      refl refl
