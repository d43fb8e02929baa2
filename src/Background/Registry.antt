-- ===== src/Background/Registry.antt =====
-- src/remote-extension/background-tasks.ts: `RemoteBackgroundTasks`. A task is an object in `heap`,
-- which the map `tasks` and the callbacks of its process and timers refer to by its `uid`. The map's
-- key, the text `${root}\0${taskId}`, is the pair of its parts: a task id that has been validated holds
-- no NUL.
use remote_codex.Base.{
  ℕ, ◌+◌, String, ◌≡◌, ◌↔◌, Bool, true, false, not, ◌&&◌, Option, none, some, List, [], ◌∷◌, arith,
  ltb, leb, if◌then◌else◌, Eq, ◌==◌, nat_key, string_key, length, filter_by, Dict, get, set, delete,
}
use remote_codex.Errors.{Result, ok, err, bridge_error, BridgeErrorCode}
use remote_codex.Background.Tasks.{BackgroundTask, is_running}

abbrev pub TaskKey : Type 0
TaskKey = String × String

pub task_key_iff : (a b : TaskKey) → ((a.0 == b.0 && a.1 == b.1) ≡ true) ↔ (a ≡ b)
task_key_iff (a, b) (c, d) = ground (arith, string_key.same_iff a c, string_key.same_iff b d)

instance abbrev pub pair_key : Eq TaskKey
pair_key = record { same = (λ a b. a.0 == b.0 && a.1 == b.1); same_iff = task_key_iff }

pub record RemoteBackgroundTasks : Type 0 where
  pub heap : Dict ℕ BackgroundTask
  pub next_uid : ℕ
  pub tasks : Dict TaskKey ℕ

abbrev pub init : RemoteBackgroundTasks
init = record { heap = []; next_uid = 0; tasks = [] }

-- An assignment to the fields of the object `uid`.
unfoldable pub update :
    ℕ → (BackgroundTask → BackgroundTask) → RemoteBackgroundTasks → RemoteBackgroundTasks
update uid f s = elim (get uid s.heap) [
  | none ↦ s
  | some t ↦ record s { heap = set uid (f t) s.heap }
]

unfoldable pub find_task : TaskKey → RemoteBackgroundTasks → Option BackgroundTask
find_task key s = elim (get key s.tasks) [ none ↦ none | some uid ↦ get uid s.heap ]

abbrev pub key_of : BackgroundTask → TaskKey
key_of t = (t.workspace_root, t.task_id)

abbrev pub age : BackgroundTask → ℕ
age t = elim t.completed_at_ms [ none ↦ t.started_at_ms | some at ↦ at ]

-- The sort of `#makeCapacity`, which keeps the order of equal ages.
unfoldable pub insert_by_age : BackgroundTask → List BackgroundTask → List BackgroundTask
insert_by_age t [] = t ∷ []
insert_by_age t (u ∷ us) = if leb (age t) (age u) then t ∷ u ∷ us else u ∷ insert_by_age t us

unfoldable pub sort_by_age : List BackgroundTask → List BackgroundTask
sort_by_age [] = []
sort_by_age (t ∷ ts) = insert_by_age t (sort_by_age ts)

-- The settled tasks of the map, in its order.
unfoldable pub settled_tasks : Dict ℕ BackgroundTask → Dict TaskKey ℕ → List BackgroundTask
settled_tasks heap [] = []
settled_tasks heap ((key, uid) ∷ m) =
    let rest = settled_tasks heap m in
    elim (get uid heap) [ none ↦ rest | some t ↦ if is_running t then rest else t ∷ rest ]

module _ (max_log_bytes max_tasks retention_ms : ℕ) where
  -- The loop of `#makeCapacity`.
  unfoldable pub evict : List BackgroundTask → Dict TaskKey ℕ → Dict TaskKey ℕ
  evict [] m = m
  evict (t ∷ ts) m =
      let rest = evict ts (delete (key_of t) m) in if leb max_tasks (length m) then rest else m

  unfoldable pub make_capacity : RemoteBackgroundTasks → RemoteBackgroundTasks × Result (Unit {0})
  make_capacity s =
      let left = evict (sort_by_age (settled_tasks s.heap s.tasks)) s.tasks in
      if ltb (length s.tasks) max_tasks then (s, ok tt) else (
        record s { tasks = left },
        if leb max_tasks (length left)
            then err
                (bridge_error BridgeErrorCode.command_denied "Background task capacity is full")
            else ok tt,
      )

  abbrev pub is_expired : ℕ → Dict ℕ BackgroundTask → TaskKey × ℕ → Bool
  is_expired now heap (key, uid) = elim (get uid heap) [
    | none ↦ false
    | some t ↦
        not (is_running t)
        && elim t.completed_at_ms [ none ↦ false | some at ↦ leb (at + retention_ms) now ]
  ]

  unfoldable pub prune : ℕ → RemoteBackgroundTasks → RemoteBackgroundTasks
  prune now s = record s { tasks = filter_by (λ e. not (is_expired now s.heap e)) s.tasks }
