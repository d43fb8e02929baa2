-- ===== src/Background/Outcomes.antt =====
-- The outcomes of background tasks (src/remote-extension/background-tasks.ts) over whole histories.
use remote_codex.Base.{
  ℕ, String, ◌≡◌, refl, sym, ap, ◌∙◌, inl, inr, Bool, true, false, none, some, Option-cases,
  nat_key, string_key, get,
}
use remote_codex.Errors.{Result}
use remote_codex.Background.Tasks.{BackgroundTask, is_running, is_running_state}
use remote_codex.Background.Registry.{RemoteBackgroundTasks, TaskKey, pair_key, find_task, prune}
use remote_codex.Background.Calls.{StartBackgroundTaskRequest, start_begin}
use remote_codex.Background.Lifecycle.{SameOutcome, Explained}
use remote_codex.Background.Index.{IsIndexed, prune-running, make_capacity-running}
use remote_codex.Background.Steps.{Reach, begin, next, Follows, now_here, then_step}
use remote_codex.Background.Edits.{
  IsCoherent, Keeps, Edit-IsCoherent, Edit-Keeps, SameOutcome-trans, same_outcome,
}
use remote_codex.Background.Effects.{
  Step-Edit, start_begin-cases, prune-SameHeap, make_capacity-heap,
}

module _ (max_log_bytes max_tasks retention_ms : ℕ)
    (request_fingerprint : StartBackgroundTaskRequest → String)
    (normalize : String → String → Result String) (is_path_inside : String → String → Bool) where
  Reach-IsCoherent :
      {s : RemoteBackgroundTasks}
      → Reach max_log_bytes max_tasks retention_ms request_fingerprint normalize is_path_inside s
      → IsCoherent s
  unfolding get
  Reach-IsCoherent begin = record {
    explained = λ uid t h. absurd (let e : none ≡ some t = h in cc);
    fresh = λ uid t h. absurd (let e : none ≡ some t = h in cc);
    indexed = tt;
  }
  Reach-IsCoherent (next r step) =
      Edit-IsCoherent max_log_bytes max_tasks retention_ms request_fingerprint normalize
        is_path_inside
        (Step-Edit max_log_bytes max_tasks retention_ms request_fingerprint normalize is_path_inside
          step)
        (Reach-IsCoherent r)

  Follows-IsCoherent :
      {s s' : RemoteBackgroundTasks}
      → Follows max_log_bytes max_tasks retention_ms request_fingerprint normalize is_path_inside s
          s'
      → IsCoherent s
      → IsCoherent s'
  Follows-IsCoherent now_here v = v
  Follows-IsCoherent (then_step f step) v =
      Edit-IsCoherent max_log_bytes max_tasks retention_ms request_fingerprint normalize
        is_path_inside
        (Step-Edit max_log_bytes max_tasks retention_ms request_fingerprint normalize is_path_inside
          step)
        (Follows-IsCoherent f v)

  Follows-Keeps :
      {s s' : RemoteBackgroundTasks}
      → Follows max_log_bytes max_tasks retention_ms request_fingerprint normalize is_path_inside s
          s'
      → IsCoherent s
      → Keeps s s'
  Follows-Keeps now_here v uid t h done = (
    t,
    h,
    same_outcome max_log_bytes max_tasks retention_ms request_fingerprint normalize is_path_inside
        t,
  )
  Follows-Keeps (then_step f step) v uid t h done =
      let (u, there, same) = Follows-Keeps f v uid t h done in
      let (w, then_there, same') =
        Edit-Keeps max_log_bytes max_tasks retention_ms request_fingerprint normalize is_path_inside
          (Step-Edit max_log_bytes max_tasks retention_ms request_fingerprint normalize
            is_path_inside step)
          (Follows-IsCoherent f v) uid u there (ap is_running_state same.0 ∙ done) in
      (
        w,
        then_there,
        SameOutcome-trans max_log_bytes max_tasks retention_ms request_fingerprint normalize
            is_path_inside t u w same same',
      )

  -- In every history, a process that ends later than its task was settled, a timer that fires late, a
  -- `cancel`, `stopWorkspace` or `close` change nothing of the outcome of a task that has settled: its
  -- status, its exit code and signal, when it ended and whether its cancellation was requested.
  pub Follows-outcome :
      {s s' : RemoteBackgroundTasks} (uid : ℕ) (t : BackgroundTask)
      → Reach max_log_bytes max_tasks retention_ms request_fingerprint normalize is_path_inside s
      → get uid s.heap ≡ some t
      → is_running t ≡ false
      → Follows max_log_bytes max_tasks retention_ms request_fingerprint normalize is_path_inside s
          s'
      → (u : BackgroundTask) × (get uid s'.heap ≡ some u) × SameOutcome t u
  Follows-outcome uid t r there done f = Follows-Keeps f (Reach-IsCoherent r) uid t there done

  -- In every history, each task is running and has no end, or has an end and the status for a `Reason`:
  -- timed_out exactly if it has run out of time, else cancelled exactly if its cancellation was
  -- requested, and else completed for the exit code 0 and failed for any other and for none. A task
  -- that was cancelled or has run out of time has been sent SIGTERM.
  pub Reach-Explained :
      {s : RemoteBackgroundTasks} (uid : ℕ) (t : BackgroundTask)
      → Reach max_log_bytes max_tasks retention_ms request_fingerprint normalize is_path_inside s
      → get uid s.heap ≡ some t
      → Explained t
  Reach-Explained uid t r there = (Reach-IsCoherent r).explained uid t there

  find_task-get :
      (key : TaskKey) (uid : ℕ) (s : RemoteBackgroundTasks)
      → get key s.tasks ≡ some uid
      → find_task key s ≡ get uid s.heap
  unfolding find_task
  find_task-get key uid s h = rw (find_task, h) refl

  find_task-none :
      (key : TaskKey) (s : RemoteBackgroundTasks) → get key s.tasks ≡ none → find_task key s ≡ none
  unfolding find_task
  find_task-none key s h = rw (find_task, h) refl

  -- In every history: a task that is running and that the map names is still named by it behind the
  -- first half of any `start`, which throws out tasks that have settled long ago, and more of them to
  -- make room.
  pub start_begin-running :
      {s : RemoteBackgroundTasks} (key : TaskKey) (t : BackgroundTask)
      (r : StartBackgroundTaskRequest) (now : ℕ)
      → Reach max_log_bytes max_tasks retention_ms request_fingerprint normalize is_path_inside s
      → find_task key s ≡ some t
      → is_running t ≡ true
      → find_task key
          (start_begin max_log_bytes max_tasks retention_ms request_fingerprint normalize r now s).0
        ≡ some t
  start_begin-running {s} key t r now reach there on = elim (Option-cases (get key s.tasks)) [
    | inl unknown ↦
        absurd (let z : none ≡ some t = sym (find_task-none key s unknown) ∙ there in cc)
    | inr (uid, known) ↦
        let object = sym (find_task-get key uid s known) ∙ there in
        let p = prune max_log_bytes max_tasks retention_ms now s in
        let (heap, _, thin) =
          prune-SameHeap max_log_bytes max_tasks retention_ms request_fingerprint normalize
            is_path_inside now s in
        let kept =
          prune-running max_log_bytes max_tasks retention_ms key uid now t s known object on in
        let still : get uid p.heap ≡ some t = ap (get uid) heap ∙ object in
        let indexed : IsIndexed p.heap p.tasks =
          rw heap (thin s.heap (Reach-IsCoherent reach).indexed) in
        let room =
          make_capacity-running max_log_bytes max_tasks retention_ms key uid t p indexed kept still
            on in
        elim (start_begin-cases max_log_bytes max_tasks retention_ms request_fingerprint normalize
          is_path_inside r now s) [
            | inl e ↦ rw e (find_task-get key uid p kept ∙ still)
            | inr e ↦ rw e (
                find_task-get key uid _ room
                ∙ ap (get uid) (
                    make_capacity-heap max_log_bytes max_tasks retention_ms request_fingerprint
                      normalize is_path_inside p)
                ∙ still)
          ]
  ]
