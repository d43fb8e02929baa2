-- ===== src/Background/Edits.antt =====
-- What the steps of background tasks (src/remote-extension/background-tasks.ts) do to the objects.
use remote_codex.Base.{
  ℕ, ◌<◌, String, ◌≡◌, refl, sym, ap, ◌∙◌, subst, inl, inr, Bool, false, some, arith, Bool-cases,
  Option-cases, ◌==◌, nat_key, string_key, ==_refl, some_inj, nat_eq_iff, get, set, get-set,
  get-set_all,
}
use remote_codex.Errors.{Result}
use remote_codex.Background.Tasks.{BackgroundTask, is_running, is_running_state}
use remote_codex.Background.Registry.{RemoteBackgroundTasks, pair_key, key_of, update}
use remote_codex.Background.Calls.{StartBackgroundTaskRequest, new_task, launch}
use remote_codex.Background.Lifecycle.{SameOutcome, Explained, IsFine}
use remote_codex.Background.Index.{IsIndexed, Thins, heap-IsIndexed, set-IsIndexed}

-- Every object is explained, the next one is new, and the map refers to the objects by their keys.
pub record IsCoherent (s : RemoteBackgroundTasks) : Type 0 where
  pub explained : (uid : ℕ) (t : BackgroundTask) → get uid s.heap ≡ some t → Explained t
  pub fresh : (uid : ℕ) (t : BackgroundTask) → get uid s.heap ≡ some t → uid < s.next_uid
  pub indexed : IsIndexed s.heap s.tasks

-- Objects that have settled are still there, with the same outcome.
abbrev pub Keeps : RemoteBackgroundTasks → RemoteBackgroundTasks → Type 0
Keeps s s' =
    (uid : ℕ) (t : BackgroundTask)
    → get uid s.heap ≡ some t
    → is_running t ≡ false
    → (u : BackgroundTask) × (get uid s'.heap ≡ some u) × SameOutcome t u

-- The objects are the same, and the map refers to no more of them.
abbrev pub SameHeap : RemoteBackgroundTasks → RemoteBackgroundTasks → Type 0
SameHeap s s' = (s'.heap ≡ s.heap) × (s'.next_uid ≡ s.next_uid) × Thins s.tasks s'.tasks

module _ (max_log_bytes max_tasks retention_ms : ℕ)
    (request_fingerprint : StartBackgroundTaskRequest → String)
    (normalize : String → String → Result String) (is_path_inside : String → String → Bool) where
  -- What a step does to the objects: nothing, a change of one, or a new one.
  pub data Edit : RemoteBackgroundTasks → RemoteBackgroundTasks → Type 0 where
    same_heap : {s s' : RemoteBackgroundTasks} → SameHeap s s' → Edit s s'
    edited :
        {s : RemoteBackgroundTasks} (uid : ℕ) {f : BackgroundTask → BackgroundTask}
        → IsFine f
        → Edit s (update uid f s)
    launched :
        {s : RemoteBackgroundTasks} (r : StartBackgroundTaskRequest) (cwd : String) (now : ℕ)
        → Edit s
            (launch max_log_bytes max_tasks retention_ms request_fingerprint normalize r cwd now s)
    both : {s s' s'' : RemoteBackgroundTasks} → Edit s s' → Edit s' s'' → Edit s s''

  launch-Explained :
      (r : StartBackgroundTaskRequest) (cwd : String) (now : ℕ)
      → Explained
          (new_task max_log_bytes max_tasks retention_ms request_fingerprint normalize r cwd now)
  launch-Explained r cwd now = record {
    going = λ h. refl;
    ended = λ h. absurd (ground arith);
    told = λ h. absurd (ground arith);
  }

  update-keys :
      (uid : ℕ) (f : BackgroundTask → BackgroundTask) (t : BackgroundTask)
      (s : RemoteBackgroundTasks)
      → IsFine f
      → get uid s.heap ≡ some t
      → (j : ℕ) (u : BackgroundTask) → get j s.heap ≡ some u
      → (u' : BackgroundTask) × (get j (set uid (f t) s.heap) ≡ some u') × (key_of u' ≡ key_of u)
  update-keys uid f t s fine there j u h = elim (Bool-cases (uid == j)) [
    | inl here ↦
        let same : t ≡ u =
          some_inj (sym there ∙ ap (λ i. get i s.heap) ((nat_eq_iff uid j).0 here) ∙ h) in
        (f t, get-set uid j (f t) s.heap ∙ rw here refl, fine.keyed t ∙ ap key_of same)
    | inr away ↦ (u, get-set uid j (f t) s.heap ∙ rw away h, refl)
  ]

  launch-keys :
      (r : StartBackgroundTaskRequest) (cwd : String) (now : ℕ) (s : RemoteBackgroundTasks)
      → IsCoherent s
      → (j : ℕ) (u : BackgroundTask) → get j s.heap ≡ some u
      → (u' : BackgroundTask) × (get j (
            set s.next_uid
              (new_task max_log_bytes max_tasks retention_ms request_fingerprint normalize r cwd
                now)
              s.heap)
          ≡ some u')
        × (key_of u' ≡ key_of u)
  launch-keys r cwd now s v j u h =
      let old = v.fresh j u h in
      let other : (s.next_uid == j) ≡ false = ground (arith, nat_eq_iff s.next_uid j) in
      (u, get-set s.next_uid j _ s.heap ∙ rw other h, refl)

  pub Edit-IsCoherent : {s s' : RemoteBackgroundTasks} → Edit s s' → IsCoherent s → IsCoherent s'
  unfolding update launch
  Edit-IsCoherent {s} {s'} (same_heap (e, n, thin)) v = record {
    explained = λ uid t h. v.explained uid t (ap (get uid) (sym e) ∙ h);
    fresh = λ uid t h. rw n (v.fresh uid t (ap (get uid) (sym e) ∙ h));
    indexed = rw e (thin s.heap v.indexed);
  }
  Edit-IsCoherent {s} (edited uid {f} fine) v = elim (Option-cases (get uid s.heap)) [
    | inl gone ↦ rw (update, gone) v
    | inr (t, there) ↦
        rw (update, there)
          (record {
            explained =
                get-set_all Explained uid (f t) s.heap (fine.explains t (v.explained uid t there))
                  v.explained;
            fresh = λ j u h. elim (Bool-cases (uid == j)) [
              | inl here ↦
                  subst (λ i. i < s.next_uid) ((nat_eq_iff uid j).0 here) (v.fresh uid t there)
              | inr away ↦ v.fresh j u (sym (get-set uid j (f t) s.heap ∙ rw away refl) ∙ h)
            ];
            indexed = heap-IsIndexed s.heap _ s.tasks (update-keys uid f t s fine there) v.indexed;
          })
  ]
  Edit-IsCoherent {s} (launched r cwd now) v = record {
    explained = get-set_all Explained s.next_uid _ s.heap (launch-Explained r cwd now) v.explained;
    fresh = λ j u h. elim (Bool-cases (s.next_uid == j)) [
      | inl here ↦ ground (arith, nat_eq_iff s.next_uid j)
      | inr away ↦
          let old = v.fresh j u (sym (get-set s.next_uid j _ s.heap ∙ rw away refl) ∙ h) in
          omega (arith, old)
    ];
    indexed =
        let t =
          new_task max_log_bytes max_tasks retention_ms request_fingerprint normalize r cwd now in
        set-IsIndexed (set s.next_uid t s.heap) (r.workspace_root, r.task_id) s.next_uid t s.tasks
          (get-set s.next_uid s.next_uid t s.heap ∙ rw (==_refl s.next_uid) refl) refl
          (heap-IsIndexed s.heap (set s.next_uid t s.heap) s.tasks (launch-keys r cwd now s v)
            v.indexed);
  }
  Edit-IsCoherent (both a b) v = Edit-IsCoherent b (Edit-IsCoherent a v)

  pub SameOutcome-trans :
      (t u w : BackgroundTask) → SameOutcome t u → SameOutcome u w → SameOutcome t w
  SameOutcome-trans t u w (a, b, c, d, e) (a', b', c', d', e') =
      (a' ∙ a, b' ∙ b, c' ∙ c, d' ∙ d, e' ∙ e)

  pub same_outcome : (t : BackgroundTask) → SameOutcome t t
  same_outcome t = (refl, refl, refl, refl, refl)

  pub Edit-Keeps : {s s' : RemoteBackgroundTasks} → Edit s s' → IsCoherent s → Keeps s s'
  unfolding update launch
  Edit-Keeps (same_heap (e, n, thin)) v uid t h done = (t, ap (get uid) e ∙ h, same_outcome t)
  Edit-Keeps {s} (edited uid {f} fine) v j t h done = elim (Option-cases (get uid s.heap)) [
    | inl gone ↦ rw (update, gone) (t, h, same_outcome t)
    | inr (u, there) ↦
        rw (update, there)
          (elim (Bool-cases (uid == j)) [
            | inl here ↦
                let e : u ≡ t =
                  some_inj (sym there ∙ ap (λ i. get i s.heap) ((nat_eq_iff uid j).0 here) ∙ h) in
                (
                  f t,
                  get-set uid j (f u) s.heap ∙ rw here (ap (λ x. some (f x)) e),
                  fine.frame t done,
                )
            | inr away ↦ (t, get-set uid j (f u) s.heap ∙ rw away h, same_outcome t)
          ])
  ]
  Edit-Keeps {s} (launched r cwd now) v j t h done =
      let old = v.fresh j t h in
      let other : (s.next_uid == j) ≡ false = ground (arith, nat_eq_iff s.next_uid j) in
      (t, get-set s.next_uid j _ s.heap ∙ rw other h, same_outcome t)
  Edit-Keeps (both a b) v j t h done =
      let (u, there, same) = Edit-Keeps a v j t h done in
      let (w, then_there, same') =
        Edit-Keeps b (Edit-IsCoherent a v) j u there (ap is_running_state same.0 ∙ done) in
      (w, then_there, SameOutcome-trans t u w same same')
