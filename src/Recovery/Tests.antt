-- ===== src/Recovery/Tests.antt =====
-- A cycle of src/shim/thread-recovery.ts, and witnesses of the theorems on it.
use remote_codex.Base.{◌≡◌, refl, none, [], ◌∷◌, nat_key, string_key, get, set, delete, has, add}
use remote_codex.Json.{
  Value, null, str, obj, arr, item, no_items, field, end, lookup_field, has_field,
}
use remote_codex.Rpc.{is_rpc_response}
use remote_codex.Recovery.Calls.{settle, observe, observe_response, reject_all, dispose}
use remote_codex.Recovery.Cycle.{
  request, finish, next_thread, publish_status, publish_then, with_status, on_read, drop_unloaded,
  begin_threads, on_listed, continue_with, continue, refresh,
}
use remote_codex.Recovery.Ending.{Reach-Ends}
use remote_codex.Recovery.State.{Context, ThreadRecovery, status_changed, init}
use remote_codex.Recovery.Status.{idle, thread_status}
use remote_codex.Recovery.Steps.{Reach, start, observes, refreshes, continues, IsSound}
use remote_codex.Recovery.Threads.{Ends}
use remote_codex.Recovery.Waiting.{Reach-IsSound}

abbrev context : Context
context = record {
  random = "1";
  selected_thread_id = none;
  send_failure = none;
  workspace_root = none;
}

abbrev answer : Value → Value
answer result = obj (field "id" (str "bridge_recovery_1") (field "result" result end))

abbrev one_thread : Value
one_thread =
    answer (obj (field "data" (arr (item (str "t") no_items)) (field "nextCursor" null end)))

abbrev idle_thread : Value
idle_thread = answer (
    obj (
      field "thread"
        (obj (field "id" (str "t") (field "status" (obj (field "type" (str "idle") end)) end)))
        end))

abbrev after_list : ThreadRecovery
after_list = continue context (observe one_thread (refresh context init)).0

abbrev after_read : ThreadRecovery
after_read = continue context (observe idle_thread after_list).0

reads_list : Reach after_list
reads_list = continues context (observes one_thread (refreshes context start))

idle_told :
    after_read.emitted ≡ status_changed "t" (record { active_flags = none; kind = idle }) ∷ []
unfolding refresh request observe observe_response settle continue continue_with on_listed
    begin_threads drop_unloaded next_thread on_read with_status thread_status publish_then
    publish_status finish get set delete has add is_rpc_response lookup_field has_field
idle_told = refl

-- The answer has come, and the recovery is disposed of before the cycle goes on: it emits the status.
abbrev disposed_late : ThreadRecovery
disposed_late = continue context (dispose (observe idle_thread after_list).0)

told_after_dispose :
    disposed_late.emitted ≡ status_changed "t" (record { active_flags = none; kind = idle }) ∷ []
unfolding refresh request observe observe_response settle continue continue_with on_listed
    begin_threads drop_unloaded next_thread on_read with_status thread_status publish_then
    publish_status finish dispose reject_all get set delete has add is_rpc_response lookup_field
    has_field
told_after_dispose = refl

Reach-IsSound_example : IsSound after_list
Reach-IsSound_example = Reach-IsSound reads_list

Reach-Ends_example : Ends after_list.running
Reach-Ends_example = Reach-Ends reads_list
