-- ===== src/Recovery/Threads.antt =====
-- `refresh` of src/shim/thread-recovery.ts: the loop over the threads.
use remote_codex.Base.{
  String, inl, inr, not, ◌&&◌, Option, none, some, List, [], ◌∷◌, Bool-cases, Option-cases, nat_key,
  string_key, has,
}
use remote_codex.Json.{Value, at}
use remote_codex.Recovery.Cycle.{
  continue_with, is_idle, is_active, is_selected, is_thread, is_of_workspace, request, finish,
  next_thread, publish_status, publish_then, with_status, on_read, on_resumed, on_unsubscribed,
}
use remote_codex.Recovery.State.{
  Await, Outcome, answered, failed_with, Running, waits, has_outcome, reads, resumes, unsubscribes,
  ThreadRecovery, Context,
}
use remote_codex.Recovery.Status.{ThreadStatus}

abbrev pub await_of : Running → Await
await_of (waits id await) = await
await_of (has_outcome outcome await) = await

-- A cycle comes to its end whatever the outcomes of its requests are, and whatever has happened, each time,
-- before it goes on: there is no endless way through it.
pub data Ends : Option Running → Type 0 where
  over : Ends none
  goes_on :
      (r : Running)
      → ((x : Context) (outcome : Outcome) (s : ThreadRecovery)
          → Ends (continue_with x outcome (await_of r) s).running)
      → Ends (some r)

abbrev pub EndsFrom : Await → Type 0
EndsFrom await =
    (x : Context) (outcome : Outcome) (s : ThreadRecovery)
    → Ends (continue_with x outcome await s).running

pub request-Ends :
    (x : Context) (method : String) (params : Value) (await : Await) (s : ThreadRecovery)
    → EndsFrom await
    → Ends (request x method params await s).running
unfolding request
request-Ends x method params await s h = elim (Bool-cases s.disposed) [
  | inl gone ↦ rw (request, gone) (goes_on (has_outcome _ await) h)
  | inr alive ↦ elim (Option-cases x.send_failure) [
    | inl sends ↦ rw (request, alive, sends) (goes_on (waits _ await) h)
    | inr (message, throws) ↦ rw (request, alive, throws) (goes_on (has_outcome _ await) h)
  ]
]

pub finish-Ends : (s : ThreadRecovery) → Ends (finish s).running
unfolding finish
finish-Ends s = over

module _ (rest : List String)
    (later : (x : Context) (s : ThreadRecovery) → Ends (next_thread x rest s).running) where
  unsubscribes-Ends : (id : String) → EndsFrom (unsubscribes id rest)
  unfolding continue_with on_unsubscribed
  unsubscribes-Ends id x (failed_with message) s = later x _
  unsubscribes-Ends id x (answered v) s = later x _

  publish_then-Ends :
      (x : Context) (id : String) (status : ThreadStatus) (s : ThreadRecovery)
      → Ends (publish_then x id status rest s).running
  unfolding publish_then
  publish_then-Ends x id status s =
      let s' = publish_status id status s in
      elim (Bool-cases (is_idle status && has id s'.subscribed && not (is_selected x id))) [
        | inl leaves ↦
            rw (publish_then, leaves)
              (request-Ends x "thread/unsubscribe" _ (unsubscribes id rest) s'
                (unsubscribes-Ends id))
        | inr stays ↦ rw (publish_then, stays) (later x s')
      ]

  resumes-Ends : (id : String) (status : ThreadStatus) → EndsFrom (resumes id status rest)
  unfolding continue_with on_resumed
  resumes-Ends id status x (failed_with message) s = later x _
  resumes-Ends id status x (answered resumed) s = elim (Bool-cases (is_thread id resumed)) [
    | inl good ↦ rw (continue_with, on_resumed, good) (publish_then-Ends x id _ _)
    | inr bad ↦ rw (continue_with, on_resumed, bad) (later x _)
  ]

  with_status-Ends :
      (x : Context) (id : String) (status : Option ThreadStatus) (s : ThreadRecovery)
      → Ends (with_status x id rest status s).running
  unfolding with_status
  with_status-Ends x id none s = later x _
  with_status-Ends x id (some status) s =
      elim (Bool-cases (is_active status && not (has id s.subscribed) && not (is_selected x id))) [
        | inl resumed ↦
            rw (with_status, resumed)
              (request-Ends x "thread/resume" _ (resumes id status rest) _ (resumes-Ends id status))
        | inr stays ↦ rw (with_status, stays) (publish_then-Ends x id status _)
      ]

  pub reads-Ends : (id : String) → EndsFrom (reads id rest)
  unfolding continue_with on_read
  reads-Ends id x (failed_with message) s = later x _
  reads-Ends id x (answered metadata) s =
      elim (Bool-cases (is_thread id metadata && is_of_workspace x (at "thread" metadata))) [
        | inl ours ↦ rw (continue_with, on_read, ours) (with_status-Ends x id _ s)
        | inr foreign ↦ rw (continue_with, on_read, foreign) (later x s)
      ]

pub next_thread-Ends :
    (ids : List String) (x : Context) (s : ThreadRecovery) → Ends (next_thread x ids s).running
unfolding next_thread
next_thread-Ends [] x s = finish-Ends s
next_thread-Ends (id ∷ rest) x s =
    request-Ends x "thread/read" _ (reads id rest) s (reads-Ends rest (next_thread-Ends rest) id)
