-- ===== src/Recovery/Ending.antt =====
-- `refresh` of src/shim/thread-recovery.ts: the loop over the pages, and the whole cycle.
use remote_codex.Base.{
  ℕ, zero, suc, ◌+◌, String, ◌≡◌, refl, inl, inr, false, ◌&&◌, ◌||◌, Option, none, some, List, [],
  ◌∷◌, arith, nat_eq, Bool-cases, Option-cases, ◌==◌, nat_key, string_key, includes, Dict, get, has,
  add,
}
use text.Mathlib.Text.{starts_with}
use remote_codex.Json.{Value, undefined, null, num, bool, obj, arr, str, at, text_of}
use remote_codex.Rpc.{is_rpc_response}
use remote_codex.Recovery.Calls.{
  settled, settle, observe_thread, observe_notification, observe_response, observe_other,
  ending_methods, with_observed, is_some, observe, on_timeout, reject_all, dispose,
}
use remote_codex.Recovery.Cycle.{
  continue, continue_with, refresh, no_more, next_cursor, add_each, begin_threads, next_page,
  on_listed,
}
use remote_codex.Recovery.State.{
  Outcome, answered, failed_with, Running, waits, has_outcome, lists, ThreadRecovery, Context,
}
use remote_codex.Recovery.Status.{ThreadStatus, thread_status}
use remote_codex.Recovery.Steps.{Reach, start, observes, times_out, refreshes, continues, disposes}
use remote_codex.Recovery.Threads.{
  Ends, EndsFrom, request-Ends, finish-Ends, next_thread-Ends, over, goes_on,
}

text_cursor-bound :
    (page : ℕ) (cursors : List String) (t c : String)
    → next_cursor page cursors (str t) ≡ some c
    → nat_eq page 99 ≡ false
text_cursor-bound page cursors t c h =
    elim (Bool-cases (t == "" || has t cursors || nat_eq page 99)) [
      | inl refused ↦ absurd (let z : none ≡ some c = rw refused at h in cc)
      | inr taken ↦ ground (arith, taken)
    ]

-- The loop goes on to another page from no page but the first 99.
next_cursor-bound :
    (page : ℕ) (cursors : List String) (v : Value) (c : String)
    → next_cursor page cursors v ≡ some c
    → nat_eq page 99 ≡ false
next_cursor-bound page cursors (str t) c h = text_cursor-bound page cursors t c h
next_cursor-bound page cursors undefined c h = absurd (cc)
next_cursor-bound page cursors null c h = absurd (cc)
next_cursor-bound page cursors (num n) c h = absurd (cc)
next_cursor-bound page cursors (bool b) c h = absurd (cc)
next_cursor-bound page cursors (obj fs) c h = absurd (cc)
next_cursor-bound page cursors (arr vs) c h = absurd (cc)

begin_threads-Ends :
    (x : Context) (loaded : List String) (s : ThreadRecovery)
    → Ends (begin_threads x loaded s).running
unfolding begin_threads
begin_threads-Ends x loaded s = next_thread-Ends loaded x _

-- The next page, if the loop takes it, is one that it ends from.
next_page-Ends :
    (x : Context) (page : ℕ) (cursors loaded : List String) (cursor : Option String)
    (s : ThreadRecovery)
    → ((c : String) → cursor ≡ some c → EndsFrom (lists (suc page) (add c cursors) loaded))
    → Ends (next_page x page cursors loaded cursor s).running
unfolding next_page
next_page-Ends x page cursors loaded none s h = finish-Ends _
next_page-Ends x page cursors loaded (some c) s h =
    request-Ends x "thread/loaded/list" _ (lists (suc page) (add c cursors) loaded) s (h c refl)

on_listed-Ends :
    (x : Context) (page : ℕ) (cursors loaded : List String) (result : Value)
    (ids : Option (List String)) (s : ThreadRecovery)
    → ((c : String) (ids : List String)
        → nat_eq page 99 ≡ false
        → EndsFrom (lists (suc page) (add c cursors) ids))
    → Ends (on_listed x page cursors loaded result ids s).running
unfolding on_listed
on_listed-Ends x page cursors loaded result none s h = finish-Ends _
on_listed-Ends x page cursors loaded result (some ids) s h =
    elim (Bool-cases (no_more (at "nextCursor" result))) [
      | inl last ↦ rw (on_listed, last) (begin_threads-Ends x (add_each ids loaded) s)
      | inr more ↦
          rw (on_listed, more)
            (next_page-Ends x page cursors (add_each ids loaded) _ s (λ c e.
              h c (add_each ids loaded)
                (next_cursor-bound page cursors (at "nextCursor" result) c e)))
    ]

-- With so many pages left.
lists-Ends :
    (left page : ℕ) (cursors loaded : List String)
    → page + left ≡ 99
    → EndsFrom (lists page cursors loaded)
unfolding continue_with
lists-Ends left page cursors loaded e x (failed_with message) s = finish-Ends _
lists-Ends zero page cursors loaded e x (answered result) s =
    on_listed-Ends x page cursors loaded result _ s
      (λ c ids differs. absurd (ground (arith, e, differs)))
lists-Ends (suc left) page cursors loaded e x (answered result) s =
    on_listed-Ends x page cursors loaded result _ s
      (λ c ids differs. lists-Ends left (suc page) (add c cursors) ids (omega (arith, e)))

settled-Ends :
    (id : String) (outcome : Outcome) (running : Option Running)
    → Ends running
    → Ends (settled id outcome running)
settled-Ends id outcome none h = over
settled-Ends id outcome (some (has_outcome o await)) h = h
settled-Ends id outcome (some (waits j await)) (goes_on _ h) = elim (Bool-cases (j == id)) [
  | inl same ↦ rw same (goes_on (has_outcome outcome await) h)
  | inr other ↦ rw other (goes_on (waits j await) h)
]

reject_all-Ends :
    (pending : Dict String String) (running : Option Running)
    → Ends running
    → Ends (reject_all pending running)
unfolding reject_all
reject_all-Ends [] running h = h
reject_all-Ends ((id, method) ∷ pending) running h =
    reject_all-Ends pending _ (settled-Ends id _ running h)

continue-Ends :
    (x : Context) (s : ThreadRecovery) (running : Option Running)
    → s.running ≡ running
    → Ends running
    → Ends (continue x s).running
unfolding continue
continue-Ends x s none e h = rw (continue, e, e) h
continue-Ends x s (some (waits id await)) e h = rw (continue, e, e) h
continue-Ends x s (some (has_outcome outcome await)) e (goes_on _ h) =
    rw (continue, e) (h x outcome s)

refresh-Ends : (x : Context) (s : ThreadRecovery) → Ends s.running → Ends (refresh x s).running
unfolding refresh
refresh-Ends x s h = elim (Bool-cases (s.refreshing || s.disposed)) [
  | inl busy ↦ rw (refresh, busy) h
  | inr free ↦
      rw (refresh, free)
        (request-Ends x "thread/loaded/list" _ (lists 0 [] []) _
          (lists-Ends 99 0 [] [] (omega arith)))
]

with_observed-running :
    (id : String) (status : Option ThreadStatus) (s : ThreadRecovery)
    → (with_observed id status s).running ≡ s.running
with_observed-running id none s = refl
with_observed-running id (some status) s = refl

observe_thread-running :
    (method id : String) (params : Value) (s : ThreadRecovery)
    → (observe_thread method id params s).running ≡ s.running
unfolding observe_thread
observe_thread-running method id params s = elim (Bool-cases (includes method ending_methods)) [
  | inl ends ↦ rw (observe_thread, ends) refl
  | inr other ↦
      elim (Bool-cases (method == "thread/status/changed" && is_some (get id s.published_status))) [
        | inl changed ↦
            rw (observe_thread, other, changed)
              (with_observed-running id (thread_status (at "status" params)) s)
        | inr same ↦ rw (observe_thread, other, same) refl
      ]
]

observe_notification-running :
    (message : Value) (s : ThreadRecovery) → (observe_notification message s).running ≡ s.running
unfolding observe_notification
observe_notification-running message s = elim (Option-cases (text_of (at "method" message))) [
  | inl missing ↦ rw (observe_notification, missing) refl
  | inr (method, named) ↦ elim (Option-cases (text_of (at "threadId" (at "params" message)))) [
    | inl missing ↦ rw (observe_notification, named, missing) refl
    | inr (id, found) ↦
        rw (observe_notification, named, found)
          (observe_thread-running method id (at "params" message) s)
  ]
]

observe_other-Ends :
    (message : Value) (s : ThreadRecovery)
    → Ends s.running
    → Ends (observe_other message s).0.running
unfolding observe_other
observe_other-Ends message s h = rw (observe_notification-running message s) h

observe_response-Ends :
    (id : String) (message : Value) (s : ThreadRecovery)
    → Ends s.running
    → Ends (observe_response id message s).0.running
unfolding observe_response settle
observe_response-Ends id message s h = elim (Option-cases (get id s.pending)) [
  | inr (method, found) ↦ rw (observe_response, found) (settled-Ends id _ s.running h)
  | inl missing ↦ elim (Bool-cases (starts_with id "bridge_recovery_")) [
    | inl late ↦ rw (observe_response, missing, late) h
    | inr foreign ↦ rw (observe_response, missing, foreign) (observe_other-Ends message s h)
  ]
]

observe-Ends :
    (message : Value) (s : ThreadRecovery) → Ends s.running → Ends (observe message s).0.running
unfolding observe
observe-Ends message s h = elim (Bool-cases (is_rpc_response message)) [
  | inr other ↦ rw (observe, other) (observe_other-Ends message s h)
  | inl response ↦ elim (Option-cases (text_of (at "id" message))) [
    | inl missing ↦ rw (observe, response, missing) (observe_other-Ends message s h)
    | inr (id, found) ↦ rw (observe, response, found) (observe_response-Ends id message s h)
  ]
]

on_timeout-Ends :
    (id : String) (s : ThreadRecovery) → Ends s.running → Ends (on_timeout id s).running
unfolding on_timeout settle
on_timeout-Ends id s h = elim (Option-cases (get id s.pending)) [
  | inl missing ↦ rw (on_timeout, missing) h
  | inr (method, found) ↦ rw (on_timeout, found) (settled-Ends id _ s.running h)
]

dispose-Ends : (s : ThreadRecovery) → Ends s.running → Ends (dispose s).running
unfolding dispose
dispose-Ends s h = reject_all-Ends s.pending s.running h

-- In every history: the cycle that runs, if one does, comes to its end, whatever pages and threads the server
-- answers with, whichever requests fail, and whatever happens between two of its steps; no server can
-- keep it in the loop over the pages.
pub Reach-Ends : {s : ThreadRecovery} → Reach s → Ends s.running
Reach-Ends start = over
Reach-Ends (observes {s} message r) = observe-Ends message s (Reach-Ends r)
Reach-Ends (times_out {s} id r) = on_timeout-Ends id s (Reach-Ends r)
Reach-Ends (refreshes {s} x r) = refresh-Ends x s (Reach-Ends r)
Reach-Ends (continues {s} x r) = continue-Ends x s s.running refl (Reach-Ends r)
Reach-Ends (disposes {s} r) = dispose-Ends s (Reach-Ends r)
