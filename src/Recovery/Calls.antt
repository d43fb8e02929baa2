-- ===== src/Recovery/Calls.antt =====
-- `ThreadSubscriptionRecovery` of src/shim/thread-recovery.ts: what comes to it from outside.
use remote_codex.Base.{
  String, Bool, true, false, not, ◌&&◌, Option, none, some, List, [], ◌∷◌, nat_eq, if◌then◌else◌,
  ◌==◌, nat_key, string_key, includes, Dict, get, set, delete, remove,
}
use Prim.Native.String.{◌++◌ as ◌<>◌}
use text.Mathlib.Text.{starts_with}
use remote_codex.Json.{Value, undefined, null, str, num, bool, at, text_of}
use remote_codex.Rpc.{is_rpc_response}
use remote_codex.Recovery.State.{
  Outcome, answered, failed_with, Running, waits, has_outcome, ThreadRecovery,
}
use remote_codex.Recovery.Status.{ThreadStatus, thread_status}

-- The promise of a request is settled: the cycle that waits for it has an outcome.
abbrev pub settled : String → Outcome → Option Running → Option Running
settled id outcome (some (waits j await)) =
    if j == id then some (has_outcome outcome await) else some (waits j await)
settled id outcome running = running

unfoldable pub settle : String → Outcome → ThreadRecovery → ThreadRecovery
settle id outcome s = record s {
  pending = delete id s.pending;
  running = settled id outcome s.running;
}

-- Whether `if (value)` goes into its branch.
abbrev pub is_truthy : Value → Bool
is_truthy undefined = false
is_truthy null = false
is_truthy (bool b) = b
is_truthy (num n) = not (nat_eq n 0)
is_truthy (str s) = not (s == "")
is_truthy _ = true

abbrev pub outcome_of : String → Value → Outcome
outcome_of method message =
    if is_truthy (at "error" message)
    then failed_with ("Official thread recovery request failed: " <> method)
    else answered (at "result" message)

abbrev pub ending_methods : List String
ending_methods = "thread/closed" ∷ "thread/archived" ∷ "thread/deleted" ∷ []

abbrev pub with_observed : String → Option ThreadStatus → ThreadRecovery → ThreadRecovery
with_observed id none s = s
with_observed id (some status) s = record s { published_status = set id status s.published_status }

abbrev pub is_some {ℓ} : {A : Type ℓ} → Option A → Bool
is_some none = false
is_some (some a) = true

-- A notification on a thread.
unfoldable pub observe_thread : String → String → Value → ThreadRecovery → ThreadRecovery
observe_thread method id params s =
    if includes method ending_methods
    then record s {
      published_status = delete id s.published_status;
      subscribed = remove id s.subscribed;
    }
    else if method == "thread/status/changed" && is_some (get id s.published_status)
    then with_observed id (thread_status (at "status" params)) s
    else s

unfoldable pub observe_notification : Value → ThreadRecovery → ThreadRecovery
observe_notification message s = elim (text_of (at "method" message)) [
  | none ↦ s
  | some method ↦ elim (text_of (at "threadId" (at "params" message))) [
    | none ↦ s
    | some id ↦ observe_thread method id (at "params" message) s
  ]
]

unfoldable pub observe_other : Value → ThreadRecovery → ThreadRecovery × Bool
observe_other message s = (observe_notification message s, false)

unfoldable pub observe_response : String → Value → ThreadRecovery → ThreadRecovery × Bool
observe_response id message s = elim (get id s.pending) [
  | some method ↦ (settle id (outcome_of method message) s, true)
  | none ↦ if starts_with id "bridge_recovery_" then (s, true) else observe_other message s
]

-- `observe`, and whether the message was the recovery's.
unfoldable pub observe : Value → ThreadRecovery → ThreadRecovery × Bool
observe message s =
    if is_rpc_response message
    then elim (text_of (at "id" message)) [
      | none ↦ observe_other message s
      | some id ↦ observe_response id message s
    ]
    else observe_other message s

-- The timer of a request.
unfoldable pub on_timeout : String → ThreadRecovery → ThreadRecovery
on_timeout id s = elim (get id s.pending) [
  | none ↦ s
  | some method ↦ settle id (failed_with ("Thread recovery timed out: " <> method)) s
]

-- `pending.reject` for every request that is waited for.
unfoldable pub reject_all : Dict String String → Option Running → Option Running
reject_all [] running = running
reject_all ((id, method) ∷ pending) running =
    reject_all pending (settled id (failed_with "Thread recovery disposed") running)

unfoldable pub dispose : ThreadRecovery → ThreadRecovery
dispose s = record s {
  disposed = true;
  pending = [];
  published_status = [];
  running = reject_all s.pending s.running;
  subscribed = [];
}
