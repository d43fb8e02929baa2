-- ===== src/ThreadLifecycle/Tests.antt =====
-- Runs of `ThreadLifecycleIndex` (src/shim/thread-lifecycle.ts).
use remote_codex.Base.{
  String, ◌≡◌, refl, ◌≢◌, ◌⊎◌, inl, true, false, none, some, List, [], ◌∷◌, nat_key, string_key,
  has, add, remove,
}
use remote_codex.Json.{Value, str, obj, arr, item, no_items, field, end, lookup_field}
use remote_codex.ThreadLifecycle.{
  add_thread, ThreadLifecycleIndex, response, response_for, response_id, notification,
  notification_id, notification_for, remove_thread, status_changed, string_of, joined,
}
use remote_codex.ThreadLifecycle.Laws.{
  Message, responds, notifies, receive, IsConsistent, receive-IsConsistent, notification-Ends,
  receive-selected,
}

abbrev index : ThreadLifecycleIndex
index = record { loaded = "b" ∷ []; selected = none }

abbrev started : Value
started = obj (field "thread" (obj (field "id" (str "a") end)) end)

abbrev closed : Value
closed = obj (field "threadId" (str "a") end)

abbrev messages : List Message
messages =
    responds "thread/start" none started true
    ∷ notifies "thread/closed" closed
    ∷ responds "thread/start" none started true
    ∷ []

messages-selected : (receive messages index).selected ≡ some "a"
unfolding receive response response_for response_id notification notification_for notification_id
    remove_thread lookup_field add remove
messages-selected = refl

-- A status in an array counts as the status, since it is made a text first.
strange_status_counts :
    (notification "thread/status/changed"
      (obj (
        field "threadId"
          (str "a")
          (field "status" (obj (field "type" (arr (item (str "idle") no_items)) end)) end)))
      index).loaded
    ≡ "b" ∷ "a" ∷ []
unfolding notification notification_for notification_id status_changed string_of joined lookup_field
    add add_thread
strange_status_counts = refl

empty-IsConsistent : IsConsistent index
empty-IsConsistent id h = absurd (let e : none ≡ some id = h in cc)

receive-IsConsistent_example : IsConsistent (receive messages index)
receive-IsConsistent_example = receive-IsConsistent messages index empty-IsConsistent

notification-Ends_example :
    (has "a" (notification "thread/closed" closed index).loaded ≡ false)
    × ((notification "thread/closed" closed index).selected ≢ some "a")
    × (◌≢◌ {A = String} "a" "b"
        → has "b" (notification "thread/closed" closed index).loaded ≡ has "b" index.loaded)
unfolding notification_id lookup_field
notification-Ends_example =
    notification-Ends "thread/closed" "a" "b" closed index (inl refl) refl refl

receive-selected_example :
    ((response "thread/start" none started false index).selected ≡ index.selected)
    ⊎ ((response "thread/start" none started false index).selected ≡ none)
receive-selected_example = receive-selected "thread/start" none started index
