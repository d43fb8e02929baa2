-- ===== src/Background/Index.antt =====
-- The map of `RemoteBackgroundTasks` (src/remote-extension/background-tasks.ts) and the objects that it
-- refers to.
use remote_codex.Base.{
  ℕ, ◌≡◌, refl, sym, ap, ◌∙◌, subst, inl, inr, Bool, true, false, not, none, some, List, [], ◌∷◌,
  arith, ltb, leb, if◌then◌else◌, Bool-cases, ==_sym, ◌==◌, nat_key, string_key, some_inj, length,
  filter_by, All, Dict, get, set, delete, get-set, get-delete,
}
use remote_codex.Background.Tasks.{BackgroundTask, is_running}
use remote_codex.Background.Registry.{
  RemoteBackgroundTasks, TaskKey, pair_key, key_of, age, insert_by_age, sort_by_age, settled_tasks,
  evict, make_capacity, prune, is_expired,
}

-- Each key has one entry, of a task whose key it is.
abbrev pub IsIndexed : Dict ℕ BackgroundTask → Dict TaskKey ℕ → Type 0
IsIndexed heap [] = Unit {0}
IsIndexed heap ((key, uid) ∷ m) =
    ((t : BackgroundTask) × (get uid heap ≡ some t) × (key_of t ≡ key))
    × (get key m ≡ none)
    × IsIndexed heap m

-- A map that refers to fewer tasks.
abbrev pub Thins : Dict TaskKey ℕ → Dict TaskKey ℕ → Type 0
Thins m m' = (heap : Dict ℕ BackgroundTask) → IsIndexed heap m → IsIndexed heap m'

get-delete-none : (k j : TaskKey) (m : Dict TaskKey ℕ) → get j m ≡ none → get j (delete k m) ≡ none
get-delete-none k j m h =
    get-delete k j m ∙ elim (Bool-cases (k == j)) [ inl hit ↦ rw hit refl | inr miss ↦ rw miss h ]

pub delete-Thins : (k : TaskKey) (m : Dict TaskKey ℕ) → Thins m (delete k m)
unfolding delete
delete-Thins k [] heap v = tt
delete-Thins k ((key, uid) ∷ m) heap (named, unique, rest) = elim (Bool-cases (key == k)) [
  | inl hit ↦ rw hit (delete-Thins k m heap rest)
  | inr miss ↦ rw miss (named, get-delete-none k key m unique, delete-Thins k m heap rest)
]

get-filter_by-none :
    (p : TaskKey × ℕ → Bool) (j : TaskKey) (m : Dict TaskKey ℕ)
    → get j m ≡ none
    → get j (filter_by p m) ≡ none
unfolding get
get-filter_by-none p j [] h = refl
get-filter_by-none p j ((key, uid) ∷ m) h = ground (arith, get-filter_by-none p j m)

pub filter_by-Thins : (p : TaskKey × ℕ → Bool) (m : Dict TaskKey ℕ) → Thins m (filter_by p m)
filter_by-Thins p [] heap v = tt
filter_by-Thins p ((key, uid) ∷ m) heap (named, unique, rest) = elim (Bool-cases (p (key, uid))) [
  | inl kept ↦ rw kept (named, get-filter_by-none p key m unique, filter_by-Thins p m heap rest)
  | inr left ↦ rw left (filter_by-Thins p m heap rest)
]

-- No settled task has the key.
abbrev Spared : TaskKey → List BackgroundTask → Type 0
Spared k = All (λ t. (key_of t == k) ≡ false)

settled_tasks-cons :
    (heap : Dict ℕ BackgroundTask) (key : TaskKey) (uid : ℕ) (m : Dict TaskKey ℕ)
    (t : BackgroundTask)
    → get uid heap ≡ some t
    → settled_tasks heap ((key, uid) ∷ m)
      ≡ (if is_running t then settled_tasks heap m else t ∷ settled_tasks heap m)
unfolding settled_tasks
settled_tasks-cons heap key uid m t there = rw (settled_tasks, there) refl

Spared-cons :
    (heap : Dict ℕ BackgroundTask) (k key : TaskKey) (uid : ℕ) (m : Dict TaskKey ℕ)
    (t : BackgroundTask)
    → get uid heap ≡ some t
    → (is_running t ≡ false → (key_of t == k) ≡ false)
    → Spared k (settled_tasks heap m)
    → Spared k (settled_tasks heap ((key, uid) ∷ m))
Spared-cons heap k key uid m t there other rest =
    rw (settled_tasks-cons heap key uid m t there) (elim (Bool-cases (is_running t)) [
      | inl on ↦ rw on rest
      | inr done ↦ rw done (other done, rest)
    ])

settled_tasks-Spared-none :
    (heap : Dict ℕ BackgroundTask) (k : TaskKey) (m : Dict TaskKey ℕ)
    → IsIndexed heap m
    → get k m ≡ none
    → Spared k (settled_tasks heap m)
unfolding settled_tasks get
settled_tasks-Spared-none heap k [] v h = tt
settled_tasks-Spared-none heap k ((key, uid) ∷ m) ((t, there, named), unique, rest) h =
    elim (Bool-cases (key == k)) [
      | inl hit ↦ absurd (ground arith)
      | inr miss ↦
          Spared-cons heap k key uid m t there (λ d. ap (λ x. x == k) named ∙ miss)
            (settled_tasks-Spared-none heap k m rest (ground arith))
    ]

-- The key of a running task.
settled_tasks-Spared :
    (heap : Dict ℕ BackgroundTask) (k : TaskKey) (uid : ℕ) (u : BackgroundTask) (m : Dict TaskKey ℕ)
    → IsIndexed heap m
    → get k m ≡ some uid
    → get uid heap ≡ some u
    → is_running u ≡ true
    → Spared k (settled_tasks heap m)
unfolding get settled_tasks
settled_tasks-Spared heap k uid u [] v h there on = tt
settled_tasks-Spared heap k uid u ((key, uid') ∷ m) ((t, found, named), unique, rest) h there on =
    elim (Bool-cases (key == k)) [
      | inl hit ↦
          let same : uid' ≡ uid = ground arith in
          let object : t ≡ u = some_inj (sym found ∙ ap (λ i. get i heap) same ∙ there) in
          let absent : get k m ≡ none =
            subst (λ x. get x m ≡ none) ((pair_key.same_iff key k).0 hit) unique in
          Spared-cons heap k key uid' m t found
            (λ d. absurd (let z : true ≡ false = sym on ∙ ap is_running (sym object) ∙ d in cc))
            (settled_tasks-Spared-none heap k m rest absent)
      | inr miss ↦
          Spared-cons heap k key uid' m t found (λ d. ap (λ x. x == k) named ∙ miss)
            (settled_tasks-Spared heap k uid u m rest (ground arith) there on)
    ]

insert_by_age-Spared :
    (k : TaskKey) (t : BackgroundTask) (ts : List BackgroundTask)
    → (key_of t == k) ≡ false
    → Spared k ts
    → Spared k (insert_by_age t ts)
unfolding insert_by_age
insert_by_age-Spared k t [] h v = (h, tt)
insert_by_age-Spared k t (u ∷ us) h (g, v) = elim (Bool-cases (leb (age t) (age u))) [
  | inl first ↦ rw first (h, (g, v))
  | inr later ↦ rw later (g, insert_by_age-Spared k t us h v)
]

sort_by_age-Spared :
    (k : TaskKey) (ts : List BackgroundTask) → Spared k ts → Spared k (sort_by_age ts)
unfolding sort_by_age
sort_by_age-Spared k [] v = tt
sort_by_age-Spared k (t ∷ ts) (h, v) =
    insert_by_age-Spared k t (sort_by_age ts) h (sort_by_age-Spared k ts v)

get-filter_by :
    (p : TaskKey × ℕ → Bool) (k : TaskKey) (uid : ℕ) (m : Dict TaskKey ℕ)
    → get k m ≡ some uid
    → p (k, uid) ≡ true
    → get k (filter_by p m) ≡ some uid
unfolding get
get-filter_by p k uid [] h kept = h
get-filter_by p k uid ((key, uid') ∷ m) h kept = elim (Bool-cases (key == k)) [
  | inl hit ↦
      let same : uid' ≡ uid = ground arith in
      let here : p (key, uid') ≡ true =
        ap (λ x. p (x, uid')) ((pair_key.same_iff key k).0 hit) ∙ ap (λ i. p (k, i)) same ∙ kept in
      rw (here, hit) (ap some same)
  | inr miss ↦
      let rest = get-filter_by p k uid m (ground arith) kept in
      elim (Bool-cases (p (key, uid'))) [
        | inl stays ↦ rw (stays, miss) rest
        | inr goes ↦ rw goes rest
      ]
]

module _ (max_log_bytes max_tasks retention_ms : ℕ) where
  evict-Thins :
      (ts : List BackgroundTask) (m : Dict TaskKey ℕ)
      → Thins m (evict max_log_bytes max_tasks retention_ms ts m)
  unfolding evict
  evict-Thins [] m heap v = v
  evict-Thins (t ∷ ts) m heap v = elim (Bool-cases (leb max_tasks (length m))) [
    | inl full ↦
        rw full (evict-Thins ts (delete (key_of t) m) heap (delete-Thins (key_of t) m heap v))
    | inr room ↦ rw room v
  ]

  evict-get :
      (k : TaskKey) (ts : List BackgroundTask) (m : Dict TaskKey ℕ)
      → Spared k ts
      → get k (evict max_log_bytes max_tasks retention_ms ts m) ≡ get k m
  unfolding evict
  evict-get k [] m v = refl
  evict-get k (t ∷ ts) m (other, v) = elim (Bool-cases (leb max_tasks (length m))) [
    | inl full ↦
        rw full (evict-get k ts (delete (key_of t) m) v ∙ get-delete (key_of t) k m ∙ rw other refl)
    | inr room ↦ rw room refl
  ]

  pub make_capacity-Thins :
      (s : RemoteBackgroundTasks)
      → Thins s.tasks (make_capacity max_log_bytes max_tasks retention_ms s).0.tasks
  unfolding make_capacity
  make_capacity-Thins s heap v = elim (Bool-cases (ltb (length s.tasks) max_tasks)) [
    | inl room ↦ rw room v
    | inr full ↦ rw full (evict-Thins (sort_by_age (settled_tasks s.heap s.tasks)) s.tasks heap v)
  ]

  pub make_capacity-running :
      (k : TaskKey) (uid : ℕ) (u : BackgroundTask) (s : RemoteBackgroundTasks)
      → IsIndexed s.heap s.tasks
      → get k s.tasks ≡ some uid
      → get uid s.heap ≡ some u
      → is_running u ≡ true
      → get k (make_capacity max_log_bytes max_tasks retention_ms s).0.tasks ≡ some uid
  unfolding make_capacity
  make_capacity-running k uid u s v h there on =
      let spared =
        sort_by_age-Spared k _ (settled_tasks-Spared s.heap k uid u s.tasks v h there on) in
      elim (Bool-cases (ltb (length s.tasks) max_tasks)) [
        | inl room ↦ rw room h
        | inr full ↦
            rw full (evict-get k (sort_by_age (settled_tasks s.heap s.tasks)) s.tasks spared ∙ h)
      ]

  is_expired-running :
      (k : TaskKey) (uid now : ℕ) (u : BackgroundTask) (heap : Dict ℕ BackgroundTask)
      → get uid heap ≡ some u
      → is_running u ≡ true
      → is_expired max_log_bytes max_tasks retention_ms now heap (k, uid) ≡ false
  is_expired-running k uid now u heap there on = ground arith

  pub prune-Thins :
      (now : ℕ) (s : RemoteBackgroundTasks)
      → Thins s.tasks (prune max_log_bytes max_tasks retention_ms now s).tasks
  unfolding prune
  prune-Thins now s = filter_by-Thins _ s.tasks

  pub prune-running :
      (k : TaskKey) (uid now : ℕ) (u : BackgroundTask) (s : RemoteBackgroundTasks)
      → get k s.tasks ≡ some uid
      → get uid s.heap ≡ some u
      → is_running u ≡ true
      → get k (prune max_log_bytes max_tasks retention_ms now s).tasks ≡ some uid
  unfolding prune
  prune-running k uid now u s h there on =
      get-filter_by _ k uid s.tasks h (ap not (is_expired-running k uid now u s.heap there on))

pub heap-IsIndexed :
    (heap heap' : Dict ℕ BackgroundTask) (m : Dict TaskKey ℕ)
    → ((uid : ℕ) (t : BackgroundTask)
        → get uid heap ≡ some t
        → (t' : BackgroundTask) × (get uid heap' ≡ some t') × (key_of t' ≡ key_of t))
    → IsIndexed heap m
    → IsIndexed heap' m
heap-IsIndexed heap heap' [] later v = tt
heap-IsIndexed heap heap' ((key, uid) ∷ m) later ((t, there, named), unique, rest) =
    let (t', there', same) = later uid t there in
    ((t', there', same ∙ named), unique, heap-IsIndexed heap heap' m later rest)

get-set-none :
    (k j : TaskKey) (uid : ℕ) (m : Dict TaskKey ℕ)
    → (k == j) ≡ false
    → get j m ≡ none
    → get j (set k uid m) ≡ none
get-set-none k j uid m other h = get-set k j uid m ∙ rw other h

pub set-IsIndexed :
    (heap : Dict ℕ BackgroundTask) (k : TaskKey) (uid : ℕ) (t : BackgroundTask) (m : Dict TaskKey ℕ)
    → get uid heap ≡ some t
    → key_of t ≡ k
    → IsIndexed heap m
    → IsIndexed heap (set k uid m)
unfolding set get
set-IsIndexed heap k uid t [] there named v = ((t, there, named), refl, tt)
set-IsIndexed heap k uid t ((key, uid') ∷ m) there named (other, unique, rest) =
    elim (Bool-cases (key == k)) [
      | inl hit ↦ rw hit ((t, there, named ∙ sym ((pair_key.same_iff key k).0 hit)), unique, rest)
      | inr miss ↦ rw miss (
        other,
        get-set-none k key uid m (==_sym k key ∙ miss) unique,
        set-IsIndexed heap k uid t m there named rest,
      )
    ]
