-- ===== src/Background/Effects.antt =====
-- Each step of background tasks (src/remote-extension/background-tasks.ts) as edits of the objects.
use remote_codex.Base.{
  ℕ, String, ◌≡◌, refl, ◌∙◌, ◌⊎◌, inl, inr, Bool, true, false, Option, none, some, List, [], ◌∷◌,
  map, arith, if◌then◌else◌, Bool-cases, Option-cases, nat_key, string_key, Dict, get, delete,
}
use remote_codex.Errors.{Result, Result-cases}
use remote_codex.Background.Registry.{
  RemoteBackgroundTasks, TaskKey, pair_key, make_capacity, prune,
}
use remote_codex.Background.Calls.{
  StartBackgroundTaskRequest, admit, start_begin, start_resolved, start_failed, lookup, cancel,
  stop_all, tasks_of_workspace, stop_workspace_begin, stop_workspace_end, close, validate_task_id,
  holds,
}
use remote_codex.Background.Lifecycle.{
  finish-IsFine, on_timeout-IsFine, on_force-IsFine, request_cancellation-IsFine, on_data-IsFine,
}
use remote_codex.Background.Index.{Thins, delete-Thins, prune-Thins, make_capacity-Thins}
use remote_codex.Background.Steps.{
  Step, begins, resolved, failed, writes, ends, times_out, forces, reads, cancels, stops, stopped,
  closes,
}
use remote_codex.Background.Edits.{SameHeap, Edit, same_heap, edited, launched, both}

module _ (max_log_bytes max_tasks retention_ms : ℕ)
    (request_fingerprint : StartBackgroundTaskRequest → String)
    (normalize : String → String → Result String) (is_path_inside : String → String → Bool) where
  pub make_capacity-heap :
      (s : RemoteBackgroundTasks)
      → (make_capacity max_log_bytes max_tasks retention_ms s).0.heap ≡ s.heap
  unfolding make_capacity
  make_capacity-heap s = ground arith

  make_capacity-next :
      (s : RemoteBackgroundTasks)
      → (make_capacity max_log_bytes max_tasks retention_ms s).0.next_uid ≡ s.next_uid
  unfolding make_capacity
  make_capacity-next s = ground arith

  make_capacity-SameHeap :
      (s : RemoteBackgroundTasks)
      → SameHeap s (make_capacity max_log_bytes max_tasks retention_ms s).0
  unfolding make_capacity
  make_capacity-SameHeap s = (
    make_capacity-heap s,
    make_capacity-next s,
    make_capacity-Thins max_log_bytes max_tasks retention_ms s,
  )

  pub prune-SameHeap :
      (now : ℕ) (s : RemoteBackgroundTasks)
      → SameHeap s (prune max_log_bytes max_tasks retention_ms now s)
  prune-SameHeap now s = (
    (unfold prune in refl),
    (unfold prune in refl),
    prune-Thins max_log_bytes max_tasks retention_ms now s,
  )

  -- The first half of `start` has pruned the map, and may have made room in it.
  pub start_begin-cases :
      (r : StartBackgroundTaskRequest) (now : ℕ) (s : RemoteBackgroundTasks)
      → let s' =
          (start_begin max_log_bytes max_tasks retention_ms request_fingerprint normalize r now
            s).0 in
        let p = prune max_log_bytes max_tasks retention_ms now s in
        (s' ≡ p) ⊎ (s' ≡ (make_capacity max_log_bytes max_tasks retention_ms p).0)
  unfolding start_begin admit
  start_begin-cases r now s = ground arith

  start_begin-SameHeap :
      (r : StartBackgroundTaskRequest) (now : ℕ) (s : RemoteBackgroundTasks)
      → SameHeap s
          (start_begin max_log_bytes max_tasks retention_ms request_fingerprint normalize r now s).0
  start_begin-SameHeap r now s =
      let pruned = prune-SameHeap now s in
      elim (start_begin-cases r now s) [
        | inl e ↦ rw e pruned
        | inr e ↦
            let (heap, uid, thin) =
              make_capacity-SameHeap (prune max_log_bytes max_tasks retention_ms now s) in
            rw e (heap ∙ pruned.0, uid ∙ pruned.1, λ h v. thin h (pruned.2 h v))
      ]

  same_tasks : (s : RemoteBackgroundTasks) → SameHeap s s
  same_tasks s = (refl, refl, λ heap v. v)

  holds-Thins :
      (key : TaskKey) (uid : ℕ) (m : Dict TaskKey ℕ)
      → Thins m (if holds key uid m then delete key m else m)
  holds-Thins key uid m heap v = elim (Bool-cases (holds key uid m)) [
    | inl held ↦ rw held (delete-Thins key m heap v)
    | inr lost ↦ rw lost v
  ]

  start_resolved-Edit :
      (r : StartBackgroundTaskRequest) (paths : Option (String × String)) (now : ℕ)
      (s : RemoteBackgroundTasks)
      → Edit max_log_bytes max_tasks retention_ms request_fingerprint normalize is_path_inside s
          (start_resolved max_log_bytes max_tasks retention_ms request_fingerprint normalize
            is_path_inside r paths now s).0
  unfolding start_resolved
  start_resolved-Edit r none now s = same_heap (same_tasks _)
  start_resolved-Edit r (some (root, cwd)) now s = elim (Bool-cases (is_path_inside root cwd)) [
    | inl inside ↦ rw inside (launched r cwd now)
    | inr outside ↦ rw outside (same_heap (same_tasks _))
  ]

  start_failed-Edit :
      (key : TaskKey) (uid now : ℕ) (s : RemoteBackgroundTasks)
      → Edit max_log_bytes max_tasks retention_ms request_fingerprint normalize is_path_inside s
          (start_failed max_log_bytes max_tasks retention_ms key uid now s)
  unfolding start_failed
  start_failed-Edit key uid now s =
      both (edited uid (finish-IsFine none none now)) (same_heap (refl, refl, delete-Thins key _))

  cancel-Edit :
      (root id : String) (now : ℕ) (s : RemoteBackgroundTasks)
      → Edit max_log_bytes max_tasks retention_ms request_fingerprint normalize is_path_inside s
          (cancel max_log_bytes max_tasks retention_ms root id now s)
  unfolding cancel lookup
  cancel-Edit root id now s =
      let s' = prune max_log_bytes max_tasks retention_ms now s in
      elim (Result-cases (validate_task_id id)) [
        | inr (e, refused) ↦ rw (cancel, refused) (same_heap (prune-SameHeap now s))
        | inl (_, valid) ↦ elim (Option-cases (get (root, id) s'.tasks)) [
          | inl unknown ↦ rw (cancel, valid, unknown) (same_heap (prune-SameHeap now s))
          | inr (uid, known) ↦
              rw (cancel, valid, known)
                (both (same_heap (prune-SameHeap now s))
                  (edited uid (request_cancellation-IsFine false)))
        ]
      ]

  stop_all-Edit :
      (uids : List ℕ) (s : RemoteBackgroundTasks)
      → Edit max_log_bytes max_tasks retention_ms request_fingerprint normalize is_path_inside s
          (stop_all uids s)
  unfolding stop_all
  stop_all-Edit [] s = same_heap (same_tasks _)
  stop_all-Edit (uid ∷ uids) s =
      both (edited uid (request_cancellation-IsFine true)) (stop_all-Edit uids _)

  stop_workspace_end-Edit :
      (picked : List (TaskKey × ℕ)) (s : RemoteBackgroundTasks)
      → Edit max_log_bytes max_tasks retention_ms request_fingerprint normalize is_path_inside s
          (stop_workspace_end picked s)
  unfolding stop_workspace_end
  stop_workspace_end-Edit [] s = same_heap (same_tasks _)
  stop_workspace_end-Edit ((key, uid) ∷ picked) s =
      both (same_heap (refl, refl, holds-Thins key uid s.tasks)) (stop_workspace_end-Edit picked _)

  pub Step-Edit :
      {s s' : RemoteBackgroundTasks}
      → Step max_log_bytes max_tasks retention_ms request_fingerprint normalize is_path_inside s s'
      → Edit max_log_bytes max_tasks retention_ms request_fingerprint normalize is_path_inside s s'
  unfolding stop_workspace_begin close lookup
  Step-Edit {s} (begins r now) = same_heap (start_begin-SameHeap r now s)
  Step-Edit {s} (resolved r paths now) = start_resolved-Edit r paths now s
  Step-Edit {s} (failed key uid now) = start_failed-Edit key uid now s
  Step-Edit (writes uid channel chunk) = edited uid (on_data-IsFine channel chunk)
  Step-Edit (ends uid code sig now) = edited uid (finish-IsFine code sig now)
  Step-Edit (times_out uid) = edited uid on_timeout-IsFine
  Step-Edit (forces uid) = edited uid on_force-IsFine
  Step-Edit (reads root id now) = same_heap (prune-SameHeap now _)
  Step-Edit {s} (cancels root id now) = cancel-Edit root id now s
  Step-Edit {s} (stops root) = stop_all-Edit (map (λ e. e.1) (tasks_of_workspace root s)) s
  Step-Edit {s} (stopped picked) = stop_workspace_end-Edit picked s
  Step-Edit {s} closes = stop_all-Edit (map (λ e. e.1) s.tasks) s
