-- ===== src/Recovery/Waiting.antt =====
-- `ThreadSubscriptionRecovery` of src/shim/thread-recovery.ts: what it waits for, in every history.
use remote_codex.Base.{
  String, ◌≡◌, refl, sym, ◌∙◌, inl, inr, true, false, ◌&&◌, ◌||◌, Option, none, some, [], arith,
  Bool-cases, Option-cases, ◌==◌, nat_key, string_key, ==_refl, includes, Dict, get, delete,
}
use remote_codex.Json.{Value, at, text_of}
use text.Mathlib.Text.{starts_with}
use remote_codex.Rpc.{is_rpc_response}
use remote_codex.Recovery.Calls.{
  settle, observe_thread, observe_notification, observe_response, observe_other, outcome_of,
  ending_methods, with_observed, is_some, observe, on_timeout, reject_all, dispose,
}
use remote_codex.Recovery.Cycle.{continue, refresh}
use remote_codex.Recovery.State.{
  Outcome, Running, waits, has_outcome, lists, ThreadRecovery, Context,
}
use remote_codex.Recovery.Status.{ThreadStatus, thread_status}
use remote_codex.Recovery.Steps.{
  Reach, Fits, IsSound, request-IsSound, continue_with-IsSound, start, observes, times_out,
  refreshes, continues, disposes,
}

-- The running cycle of `s`, given apart.
continue-Fits :
    (x : Context) (s : ThreadRecovery) (running : Option Running)
    → s.running ≡ running
    → Fits running s.refreshing s.pending
    → IsSound (continue x s)
unfolding continue
continue-Fits x s none e h = rw (continue, e, e) h
continue-Fits x s (some (waits id await)) e h = rw (continue, e, e) h
continue-Fits x s (some (has_outcome outcome await)) e h =
    rw (continue, e) (continue_with-IsSound x outcome await s h)

absent_from_empty :
    (id method : String) (pending : Dict String String)
    → pending ≡ []
    → get id pending ≡ some method
    → ⊥
unfolding get
absent_from_empty id method pending e h = let z : none ≡ some method = rw e at h in cc

settle-Fits :
    (id method : String) (outcome : Outcome) (s : ThreadRecovery) (running : Option Running)
    → s.running ≡ running
    → Fits running s.refreshing s.pending
    → get id s.pending ≡ some method
    → IsSound (settle id outcome s)
unfolding settle
settle-Fits id method outcome s none e h found =
    absurd (absent_from_empty id method s.pending h.1 found)
settle-Fits id method outcome s (some (has_outcome o await)) e h found =
    absurd (absent_from_empty id method s.pending h.1 found)
settle-Fits id method outcome s (some (waits j await)) e h found =
    let (m, only) = h.1 in
    elim (Bool-cases (j == id)) [
      | inl same ↦ rw (e, same, only) (unfold delete in rw same (h.0, refl))
      | inr other ↦ absurd (
          let there = rw only at found in
          let z : none ≡ some method = unfold get in rw other at there in cc)
    ]

reject-Fits :
    (s : ThreadRecovery) (running : Option Running)
    → s.running ≡ running
    → Fits running s.refreshing s.pending
    → IsSound (dispose s)
unfolding dispose reject_all
reject-Fits s none e h = rw (e, h.1) (h.0, refl)
reject-Fits s (some (has_outcome outcome await)) e h = rw (e, h.1) (h.0, refl)
reject-Fits s (some (waits id await)) e h =
    let (method, only) = h.1 in rw (e, only, ==_refl id) (h.0, refl)

idle_empty :
    (s : ThreadRecovery) (running : Option Running)
    → Fits running s.refreshing s.pending
    → s.refreshing ≡ false
    → s.pending ≡ []
idle_empty s none h quiet = h.1
idle_empty s (some (waits id await)) h quiet = absurd (let z : true ≡ false = sym h.0 ∙ quiet in cc)
idle_empty s (some (has_outcome outcome await)) h quiet = h.1

refresh-IsSound : (x : Context) (s : ThreadRecovery) → IsSound s → IsSound (refresh x s)
unfolding refresh
refresh-IsSound x s h = elim (Bool-cases (s.refreshing || s.disposed)) [
  | inl busy ↦ rw (refresh, busy) h
  | inr free ↦
      let empty = idle_empty s s.running h (ground (arith, free)) in
      rw (refresh, free) (request-IsSound x "thread/loaded/list" _ (lists 0 [] []) _ (refl, empty))
]

with_observed-IsSound :
    (id : String) (status : Option ThreadStatus) (s : ThreadRecovery)
    → IsSound s
    → IsSound (with_observed id status s)
with_observed-IsSound id none s h = h
with_observed-IsSound id (some status) s h = h

observe_thread-IsSound :
    (method id : String) (params : Value) (s : ThreadRecovery)
    → IsSound s
    → IsSound (observe_thread method id params s)
unfolding observe_thread
observe_thread-IsSound method id params s h = elim (Bool-cases (includes method ending_methods)) [
  | inl ends ↦ rw (observe_thread, ends) h
  | inr other ↦
      elim (Bool-cases (method == "thread/status/changed" && is_some (get id s.published_status))) [
        | inl changed ↦
            rw (observe_thread, other, changed)
              (with_observed-IsSound id (thread_status (at "status" params)) s h)
        | inr same ↦ rw (observe_thread, other, same) h
      ]
]

observe_notification-IsSound :
    (message : Value) (s : ThreadRecovery) → IsSound s → IsSound (observe_notification message s)
unfolding observe_notification
observe_notification-IsSound message s h = elim (Option-cases (text_of (at "method" message))) [
  | inl missing ↦ rw (observe_notification, missing) h
  | inr (method, named) ↦ elim (Option-cases (text_of (at "threadId" (at "params" message)))) [
    | inl missing ↦ rw (observe_notification, named, missing) h
    | inr (id, found) ↦
        rw (observe_notification, named, found)
          (observe_thread-IsSound method id (at "params" message) s h)
  ]
]

observe_response-IsSound :
    (id : String) (message : Value) (s : ThreadRecovery)
    → IsSound s
    → IsSound (observe_response id message s).0
unfolding observe_response observe_other
observe_response-IsSound id message s h = elim (Option-cases (get id s.pending)) [
  | inr (method, found) ↦
      rw (observe_response, found)
        (settle-Fits id method (outcome_of method message) s s.running refl h found)
  | inl missing ↦ elim (Bool-cases (starts_with id "bridge_recovery_")) [
    | inl late ↦ rw (observe_response, missing, late) h
    | inr foreign ↦
        rw (observe_response, missing, foreign) (observe_notification-IsSound message s h)
  ]
]

observe-IsSound : (message : Value) (s : ThreadRecovery) → IsSound s → IsSound (observe message s).0
unfolding observe observe_other
observe-IsSound message s h = elim (Bool-cases (is_rpc_response message)) [
  | inr other ↦ rw (observe, other) (observe_notification-IsSound message s h)
  | inl response ↦ elim (Option-cases (text_of (at "id" message))) [
    | inl missing ↦ rw (observe, response, missing) (observe_notification-IsSound message s h)
    | inr (id, found) ↦ rw (observe, response, found) (observe_response-IsSound id message s h)
  ]
]

on_timeout-IsSound : (id : String) (s : ThreadRecovery) → IsSound s → IsSound (on_timeout id s)
unfolding on_timeout
on_timeout-IsSound id s h = elim (Option-cases (get id s.pending)) [
  | inl missing ↦ rw (on_timeout, missing) h
  | inr (method, found) ↦ rw (on_timeout, found) (settle-Fits id method _ s s.running refl h found)
]

-- In every history: while a cycle waits, exactly the request that it waits for is pending; while it
-- has an outcome and goes on, none is; and when no cycle runs, none is. `refreshing`, which keeps a
-- second cycle from beginning, is set exactly while a cycle runs.
pub Reach-IsSound : {s : ThreadRecovery} → Reach s → IsSound s
Reach-IsSound start = (refl, refl)
Reach-IsSound (observes {s} message r) = observe-IsSound message s (Reach-IsSound r)
Reach-IsSound (times_out {s} id r) = on_timeout-IsSound id s (Reach-IsSound r)
Reach-IsSound (refreshes {s} x r) = refresh-IsSound x s (Reach-IsSound r)
Reach-IsSound (continues {s} x r) = continue-Fits x s s.running refl (Reach-IsSound r)
Reach-IsSound (disposes {s} r) = reject-Fits s s.running refl (Reach-IsSound r)
