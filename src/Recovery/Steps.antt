-- ===== src/Recovery/Steps.antt =====
-- `ThreadSubscriptionRecovery` of src/shim/thread-recovery.ts: its histories, and what it waits for in them.
use remote_codex.Base.{
  ℕ, suc, String, ◌≡◌, refl, inl, inr, Bool, true, false, not, ◌&&◌, Option, none, some, List, [],
  ◌∷◌, Bool-cases, Option-cases, nat_key, string_key, Dict, get, set, delete, has, add,
}
use remote_codex.Json.{Value, at}
use remote_codex.Recovery.Calls.{observe, on_timeout, dispose}
use remote_codex.Recovery.Cycle.{
  continue, continue_with, refresh, is_idle, is_active, is_selected, is_thread, is_of_workspace,
  no_more, add_each, request, fail, finish, next_thread, publish_status, publish_then, is_published,
  with_status, on_read, on_resumed, on_unsubscribed, drop_unloaded, begin_threads, next_page,
  on_listed,
}
use remote_codex.Recovery.State.{
  Await, Outcome, answered, failed_with, Running, waits, has_outcome, lists, reads, resumes,
  unsubscribes, ThreadRecovery, Context, init,
}
use remote_codex.Recovery.Status.{ThreadStatus}

-- The order of what happens: a cycle that has an outcome goes on later, and anything may come before.
pub data Reach : ThreadRecovery → Type 0 where
  start : Reach init
  observes : {s : ThreadRecovery} (message : Value) → Reach s → Reach (observe message s).0
  times_out : {s : ThreadRecovery} (id : String) → Reach s → Reach (on_timeout id s)
  refreshes : {s : ThreadRecovery} (x : Context) → Reach s → Reach (refresh x s)
  continues : {s : ThreadRecovery} (x : Context) → Reach s → Reach (continue x s)
  disposes : {s : ThreadRecovery} → Reach s → Reach (dispose s)

-- What is waited for is what the cycle waits for.
abbrev pub Fits : Option Running → Bool → Dict String String → Type 0
Fits none refreshing pending = (refreshing ≡ false) × (pending ≡ [])
Fits (some (waits id await)) refreshing pending =
    (refreshing ≡ true) × ((method : String) × (pending ≡ (id, method) ∷ []))
Fits (some (has_outcome outcome await)) refreshing pending = (refreshing ≡ true) × (pending ≡ [])

abbrev pub IsSound : ThreadRecovery → Type 0
IsSound s = Fits s.running s.refreshing s.pending

-- A cycle that runs, between two waits.
abbrev pub IsBetween : ThreadRecovery → Type 0
IsBetween s = (s.refreshing ≡ true) × (s.pending ≡ [])

pub request-IsSound :
    (x : Context) (method : String) (params : Value) (await : Await) (s : ThreadRecovery)
    → IsBetween s
    → IsSound (request x method params await s)
unfolding request set delete
request-IsSound x method params await s h = elim (Bool-cases s.disposed) [
  | inl gone ↦ rw (request, gone) h
  | inr alive ↦ elim (Option-cases x.send_failure) [
    | inl sends ↦ rw (request, alive, sends, h.1) (h.0, (method, refl))
    | inr (message, throws) ↦ rw (request, alive, throws, h.1) (h.0, refl)
  ]
]

pub fail-IsBetween :
    (message : String) (s : ThreadRecovery) → IsBetween s → IsBetween (fail message s)
unfolding fail
fail-IsBetween message s h = elim (Bool-cases s.disposed) [
  | inl gone ↦ rw (fail, gone) h
  | inr alive ↦ rw (fail, alive) h
]

pub finish-IsSound : (s : ThreadRecovery) → IsBetween s → IsSound (finish s)
unfolding finish
finish-IsSound s h = (refl, h.1)

pub next_thread-IsSound :
    (x : Context) (ids : List String) (s : ThreadRecovery)
    → IsBetween s
    → IsSound (next_thread x ids s)
unfolding next_thread
next_thread-IsSound x [] s h = finish-IsSound s h
next_thread-IsSound x (id ∷ rest) s h = request-IsSound x "thread/read" _ (reads id rest) s h

pub publish_status-IsBetween :
    (id : String) (status : ThreadStatus) (s : ThreadRecovery)
    → IsBetween s
    → IsBetween (publish_status id status s)
unfolding publish_status
publish_status-IsBetween id status s h =
    elim (Bool-cases (is_published status (get id s.published_status))) [
      | inl same ↦ rw (publish_status, same) h
      | inr new ↦ rw (publish_status, new) h
    ]

pub publish_then-IsSound :
    (x : Context) (id : String) (status : ThreadStatus) (rest : List String) (s : ThreadRecovery)
    → IsBetween s
    → IsSound (publish_then x id status rest s)
unfolding publish_then
publish_then-IsSound x id status rest s h =
    let s' = publish_status id status s in
    let h' = publish_status-IsBetween id status s h in
    elim (Bool-cases (is_idle status && has id s'.subscribed && not (is_selected x id))) [
      | inl leaves ↦
          rw (publish_then, leaves)
            (request-IsSound x "thread/unsubscribe" _ (unsubscribes id rest) s' h')
      | inr stays ↦ rw (publish_then, stays) (next_thread-IsSound x rest s' h')
    ]

pub with_status-IsSound :
    (x : Context) (id : String) (rest : List String) (status : Option ThreadStatus)
    (s : ThreadRecovery)
    → IsBetween s
    → IsSound (with_status x id rest status s)
unfolding with_status
with_status-IsSound x id rest none s h =
    next_thread-IsSound x rest _ (fail-IsBetween "Malformed thread runtime status" s h)
with_status-IsSound x id rest (some status) s h =
    elim (Bool-cases (is_active status && not (has id s.subscribed) && not (is_selected x id))) [
      | inl resumed ↦
          rw (with_status, resumed)
            (request-IsSound x "thread/resume" _ (resumes id status rest) _ h)
      | inr stays ↦ rw (with_status, stays) (publish_then-IsSound x id status rest _ h)
    ]

pub on_read-IsSound :
    (x : Context) (id : String) (rest : List String) (metadata : Value) (s : ThreadRecovery)
    → IsBetween s
    → IsSound (on_read x id rest metadata s)
unfolding on_read
on_read-IsSound x id rest metadata s h =
    elim (Bool-cases (is_thread id metadata && is_of_workspace x (at "thread" metadata))) [
      | inl ours ↦ rw (on_read, ours) (with_status-IsSound x id rest _ s h)
      | inr foreign ↦ rw (on_read, foreign) (next_thread-IsSound x rest s h)
    ]

pub on_resumed-IsSound :
    (x : Context) (id : String) (status : ThreadStatus) (rest : List String) (resumed : Value)
    (s : ThreadRecovery)
    → IsBetween s
    → IsSound (on_resumed x id status rest resumed s)
unfolding on_resumed
on_resumed-IsSound x id status rest resumed s h = elim (Bool-cases (is_thread id resumed)) [
  | inl good ↦ rw (on_resumed, good) (publish_then-IsSound x id _ rest _ h)
  | inr bad ↦
      rw (on_resumed, bad)
        (next_thread-IsSound x rest _ (fail-IsBetween "Malformed resumed thread" s h))
]

pub drop_unloaded-IsBetween :
    (loaded ids : List String) (s : ThreadRecovery)
    → IsBetween s
    → IsBetween (drop_unloaded loaded ids s)
unfolding drop_unloaded
drop_unloaded-IsBetween loaded [] s h = h
drop_unloaded-IsBetween loaded (id ∷ ids) s h = elim (Bool-cases (has id loaded)) [
  | inl there ↦ rw there (drop_unloaded-IsBetween loaded ids s h)
  | inr gone ↦ rw gone (drop_unloaded-IsBetween loaded ids _ h)
]

pub begin_threads-IsSound :
    (x : Context) (loaded : List String) (s : ThreadRecovery)
    → IsBetween s
    → IsSound (begin_threads x loaded s)
unfolding begin_threads
begin_threads-IsSound x loaded s h =
    next_thread-IsSound x loaded _ (drop_unloaded-IsBetween loaded s.subscribed _ h)

pub next_page-IsSound :
    (x : Context) (page : ℕ) (cursors loaded : List String) (cursor : Option String)
    (s : ThreadRecovery)
    → IsBetween s
    → IsSound (next_page x page cursors loaded cursor s)
unfolding next_page
next_page-IsSound x page cursors loaded none s h =
    finish-IsSound _ (fail-IsBetween "Malformed loaded-thread pagination" s h)
next_page-IsSound x page cursors loaded (some cursor) s h =
    request-IsSound x "thread/loaded/list" _ (lists (suc page) (add cursor cursors) loaded) s h

pub on_listed-IsSound :
    (x : Context) (page : ℕ) (cursors loaded : List String) (result : Value)
    (ids : Option (List String)) (s : ThreadRecovery)
    → IsBetween s
    → IsSound (on_listed x page cursors loaded result ids s)
unfolding on_listed
on_listed-IsSound x page cursors loaded result none s h =
    finish-IsSound _ (fail-IsBetween "Malformed loaded-thread index" s h)
on_listed-IsSound x page cursors loaded result (some ids) s h =
    elim (Bool-cases (no_more (at "nextCursor" result))) [
      | inl last ↦ rw (on_listed, last) (begin_threads-IsSound x (add_each ids loaded) s h)
      | inr more ↦
          rw (on_listed, more) (next_page-IsSound x page cursors (add_each ids loaded) _ s h)
    ]

pub continue_with-IsSound :
    (x : Context) (outcome : Outcome) (await : Await) (s : ThreadRecovery)
    → IsBetween s
    → IsSound (continue_with x outcome await s)
unfolding continue_with on_unsubscribed
continue_with-IsSound x (failed_with message) (lists page cursors loaded) s h =
    finish-IsSound _ (fail-IsBetween message s h)
continue_with-IsSound x (answered result) (lists page cursors loaded) s h =
    on_listed-IsSound x page cursors loaded result _ s h
continue_with-IsSound x (failed_with message) (reads id rest) s h =
    next_thread-IsSound x rest _ (fail-IsBetween message s h)
continue_with-IsSound x (answered metadata) (reads id rest) s h =
    on_read-IsSound x id rest metadata s h
continue_with-IsSound x (failed_with message) (resumes id status rest) s h =
    next_thread-IsSound x rest _ (fail-IsBetween message s h)
continue_with-IsSound x (answered resumed) (resumes id status rest) s h =
    on_resumed-IsSound x id status rest resumed s h
continue_with-IsSound x (failed_with message) (unsubscribes id rest) s h =
    next_thread-IsSound x rest _ (fail-IsBetween message s h)
continue_with-IsSound x (answered v) (unsubscribes id rest) s h = next_thread-IsSound x rest _ h
