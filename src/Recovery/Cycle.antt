-- ===== src/Recovery/Cycle.antt =====
-- `ThreadSubscriptionRecovery` of src/shim/thread-recovery.ts. A cycle of `refresh` waits at four places
-- (`Await`); from one to the next it runs in `continue`, once its request is answered, is refused or has
-- run out of time. The id of a request ends in a random text, which is an argument, as is whether `send`
-- returns. The duration of a cycle is left out.
use remote_codex.Base.{
  ℕ, suc, ◌+◌, String, Bool, true, false, not, ◌&&◌, ◌||◌, Option, none, some, List, [], ◌∷◌, ◌++◌,
  nat_eq, if◌then◌else◌, ◌==◌, nat_key, string_key, length, filter_by, get, set, delete, has, add,
  remove,
}
use Prim.Native.String.{◌++◌ as ◌<>◌}
use remote_codex.Json.{
  Value, str, num, bool, obj, arr, Items, no_items, item, field, end, is_record, is_undefined,
  is_null, is_text, at,
}
use remote_codex.Recovery.State.{
  Await, Outcome, ThreadRecovery, no_cycle, Context, lists, reads, resumes, unsubscribes, answered,
  failed_with, waits, has_outcome, closed, status_changed,
}
use remote_codex.Recovery.Status.{ThreadStatus, active, idle, thread_status, same_status}

unfoldable pub request : Context → String → Value → Await → ThreadRecovery → ThreadRecovery
request x method params await s =
    let id = "bridge_recovery_" <> x.random in
    if s.disposed
    then record s { running = some (has_outcome (failed_with "Thread recovery disposed") await) }
    else elim x.send_failure [
      | none ↦ record s {
        pending = set id method s.pending;
        running = some (waits id await);
        sent = s.sent ++ ((method, params) ∷ []);
      }
      | some message ↦ record s {
        pending = delete id s.pending;
        running = some (has_outcome (failed_with message) await);
      }
    ]

-- `failed`.
unfoldable pub fail : String → ThreadRecovery → ThreadRecovery
fail message s = if s.disposed then s else record s {
  cycle = record s.cycle { errors = s.cycle.errors + 1 };
  logged = s.logged ++ (message ∷ []);
}

-- The block of `finally`.
unfoldable pub finish : ThreadRecovery → ThreadRecovery
finish s = record s {
  refreshing = false;
  reported = (if s.disposed then s.reported else s.reported ++ (s.cycle ∷ []));
  running = none;
}

-- The loop over the threads goes on with the next, or the cycle is over.
unfoldable pub next_thread : Context → List String → ThreadRecovery → ThreadRecovery
next_thread x [] s = finish s
next_thread x (id ∷ rest) s =
    request x "thread/read"
      (obj (field "threadId" (str id) (field "includeTurns" (bool false) end))) (reads id rest) s

-- `#publishStatus`.
abbrev pub is_published : ThreadStatus → Option ThreadStatus → Bool
is_published status none = false
is_published status (some old) = same_status old status

unfoldable pub publish_status : String → ThreadStatus → ThreadRecovery → ThreadRecovery
publish_status id status s =
    if is_published status (get id s.published_status) then s else record s {
      cycle = record s.cycle { published_statuses = s.cycle.published_statuses + 1 };
      emitted = s.emitted ++ (status_changed id status ∷ []);
      published_status = set id status s.published_status;
    }

abbrev pub is_selected : Context → String → Bool
is_selected x id = elim x.selected_thread_id [ none ↦ false | some t ↦ t == id ]

abbrev pub is_idle : ThreadStatus → Bool
is_idle status = elim status.kind [ idle ↦ true | _ ↦ false ]

abbrev pub is_active : ThreadStatus → Bool
is_active status = elim status.kind [ active ↦ true | _ ↦ false ]

-- From `#publishStatus` to the end of the loop's body.
unfoldable pub publish_then :
    Context → String → ThreadStatus → List String → ThreadRecovery → ThreadRecovery
publish_then x id status rest s0 =
    let s = publish_status id status s0 in
    if is_idle status && has id s.subscribed && not (is_selected x id)
    then request x "thread/unsubscribe" (obj (field "threadId" (str id) end)) (unsubscribes id rest)
        s
    else next_thread x rest s

abbrev pub is_of_workspace : Context → Value → Bool
is_of_workspace x thread = elim x.workspace_root [
  | none ↦ true
  | some root ↦ is_text root (at "cwd" thread)
]

abbrev pub is_thread : String → Value → Bool
is_thread id v = is_record v && is_record (at "thread" v) && is_text id (at "id" (at "thread" v))

unfoldable pub with_status :
    Context → String → List String → Option ThreadStatus → ThreadRecovery → ThreadRecovery
with_status x id rest none s = next_thread x rest (fail "Malformed thread runtime status" s)
with_status x id rest (some status) s0 =
    let s = record s0 {
      cycle = record s0.cycle { matching_threads = s0.cycle.matching_threads + 1 };
    } in
    if is_active status && not (has id s.subscribed) && not (is_selected x id)
    then request x "thread/resume"
        (obj (field "threadId" (str id) (field "excludeTurns" (bool true) end)))
        (resumes id status rest) s
    else publish_then x id status rest s

unfoldable pub on_read : Context → String → List String → Value → ThreadRecovery → ThreadRecovery
on_read x id rest metadata s =
    if is_thread id metadata && is_of_workspace x (at "thread" metadata)
    then with_status x id rest (thread_status (at "status" (at "thread" metadata))) s
    else next_thread x rest s

abbrev pub or_status : Option ThreadStatus → ThreadStatus → ThreadStatus
or_status none status = status
or_status (some status) old = status

unfoldable pub on_resumed :
    Context → String → ThreadStatus → List String → Value → ThreadRecovery → ThreadRecovery
on_resumed x id status rest resumed s =
    if is_thread id resumed
    then publish_then x id (or_status (thread_status (at "status" (at "thread" resumed))) status)
        rest
        (record s {
          cycle = record s.cycle { resumed_threads = s.cycle.resumed_threads + 1 };
          subscribed = add id s.subscribed;
        })
    else next_thread x rest (fail "Malformed resumed thread" s)

unfoldable pub on_unsubscribed : Context → String → List String → ThreadRecovery → ThreadRecovery
on_unsubscribed x id rest s = next_thread x rest (record s {
  cycle = record s.cycle { unsubscribed_threads = s.cycle.unsubscribed_threads + 1 };
  subscribed = remove id s.subscribed;
})

-- Subscriptions to threads that are not loaded are given up.
unfoldable pub drop_unloaded : List String → List String → ThreadRecovery → ThreadRecovery
drop_unloaded loaded [] s = s
drop_unloaded loaded (id ∷ ids) s =
    let kept = drop_unloaded loaded ids s in
    let dropped =
      drop_unloaded loaded ids (record s {
        emitted = s.emitted ++ (closed id ∷ []);
        subscribed = remove id s.subscribed;
      }) in
    if has id loaded then kept else dropped

unfoldable pub begin_threads : Context → List String → ThreadRecovery → ThreadRecovery
begin_threads x loaded s0 =
    let s =
      drop_unloaded loaded s0.subscribed
        (record s0 { cycle = record s0.cycle { listed_threads = length loaded } }) in
    next_thread x loaded
      (record s { published_status = filter_by (λ entry. has entry.0 loaded) s.published_status })

-- The texts of an array, if it holds nothing else.
abbrev add_text : Value → Option (List String) → Option (List String)
add_text (str t) (some ts) = some (t ∷ ts)
add_text _ _ = none

abbrev pub texts_of : Items → Option (List String)
texts_of no_items = some []
texts_of (item v vs) = add_text v (texts_of vs)

abbrev pub listed : Value → Option (List String)
listed (arr vs) = texts_of vs
listed _ = none

abbrev pub add_each : List String → List String → List String
add_each [] loaded = loaded
add_each (id ∷ ids) loaded = add_each ids (add id loaded)

-- The cursor of the next page, if the loop may go there from this one.
abbrev pub next_cursor : ℕ → List String → Value → Option String
next_cursor page cursors (str c) =
    if c == "" || has c cursors || nat_eq page 99 then none else some c
next_cursor page cursors _ = none

abbrev pub no_more : Value → Bool
no_more v = is_undefined v || is_null v

unfoldable pub next_page :
    Context → ℕ → List String → List String → Option String → ThreadRecovery → ThreadRecovery
next_page x page cursors loaded none s = finish (fail "Malformed loaded-thread pagination" s)
next_page x page cursors loaded (some cursor) s =
    request x "thread/loaded/list" (obj (field "limit" (num 100) (field "cursor" (str cursor) end)))
      (lists (suc page) (add cursor cursors) loaded) s

unfoldable pub on_listed :
    Context
    → ℕ
    → List String
    → List String
    → Value
    → Option (List String)
    → ThreadRecovery
    → ThreadRecovery
on_listed x page cursors loaded result none s = finish (fail "Malformed loaded-thread index" s)
on_listed x page cursors loaded result (some ids) s =
    if no_more (at "nextCursor" result)
    then begin_threads x (add_each ids loaded) s
    else next_page x page cursors (add_each ids loaded)
        (next_cursor page cursors (at "nextCursor" result)) s

-- What a cycle does with the outcome of what it has waited for, up to where it waits next.
unfoldable pub continue_with : Context → Outcome → Await → ThreadRecovery → ThreadRecovery
continue_with x (failed_with message) (lists page cursors loaded) s = finish (fail message s)
continue_with x (answered result) (lists page cursors loaded) s =
    on_listed x page cursors loaded result (listed (at "data" result)) s
continue_with x (failed_with message) (reads id rest) s = next_thread x rest (fail message s)
continue_with x (answered metadata) (reads id rest) s = on_read x id rest metadata s
continue_with x (failed_with message) (resumes id status rest) s =
    next_thread x rest (fail message s)
continue_with x (answered resumed) (resumes id status rest) s =
    on_resumed x id status rest resumed s
continue_with x (failed_with message) (unsubscribes id rest) s = next_thread x rest (fail message s)
continue_with x (answered v) (unsubscribes id rest) s = on_unsubscribed x id rest s

unfoldable pub continue : Context → ThreadRecovery → ThreadRecovery
continue x s = elim s.running [
  | none ↦ s
  | some (waits id await) ↦ s
  | some (has_outcome outcome await) ↦ continue_with x outcome await s
]

-- `refresh` up to its first `await`.
unfoldable pub refresh : Context → ThreadRecovery → ThreadRecovery
refresh x s =
    if s.refreshing || s.disposed
    then s
    else request x "thread/loaded/list" (obj (field "limit" (num 100) end)) (lists 0 [] [])
        (record s { cycle = no_cycle; refreshing = true })
