-- ===== src/ThreadLifecycle/Laws.antt =====
-- The threads that `ThreadLifecycleIndex` (src/shim/thread-lifecycle.ts) knows of, over any messages.
use remote_codex.Base.{
  String, ◌≡◌, ◌∙◌, ◌≢◌, ◌⊎◌, inl, inr, Bool, true, false, ◌&&◌, Option, none, some, List, [], ◌∷◌,
  arith, Bool-cases, Option-cases, ◌==◌, nat_key, string_key, ==_refl, includes, has, has-add,
  has-remove,
}
use remote_codex.Json.{Value, is_record, at, is_text}
use remote_codex.ThreadLifecycle.{
  ThreadLifecycleIndex, remove_thread, add_thread, deselect, string_of, known_kinds, status_changed,
  response_for, response_id, response, notification_for, notification_id, notification,
  opening_methods,
}

pub data Message : Type 0 where
  responds : String → Option String → Value → Bool → Message
  notifies : String → Value → Message

unfoldable pub receive : List Message → ThreadLifecycleIndex → ThreadLifecycleIndex
receive [] t = t
receive (responds method id result vscode ∷ ms) t = receive ms (response method id result vscode t)
receive (notifies method params ∷ ms) t = receive ms (notification method params t)

-- The selected thread is a loaded one.
abbrev pub IsConsistent : ThreadLifecycleIndex → Type 0
IsConsistent t = (id : String) → t.selected ≡ some id → has id t.loaded ≡ true

remove_thread-IsConsistent :
    (id : String) (t : ThreadLifecycleIndex) → IsConsistent t → IsConsistent (remove_thread id t)
unfolding remove_thread
remove_thread-IsConsistent id t v j h =
    ground
      (arith, has-remove id j t.loaded, string_key.same_iff id j, string_key.same_iff j id, v j)

add_thread-IsConsistent :
    (id : String) (t : ThreadLifecycleIndex) → IsConsistent t → IsConsistent (add_thread id t)
unfolding add_thread
add_thread-IsConsistent id t v j h = ground (arith, has-add id j t.loaded, v j)

deselect-IsConsistent :
    (id : String) (vscode : Bool) (t : ThreadLifecycleIndex)
    → IsConsistent t
    → IsConsistent (deselect id vscode t)
unfolding deselect
deselect-IsConsistent id vscode t v j h = ground (arith, v j)

response_for-IsConsistent :
    (method id : String) (result : Value) (vscode : Bool) (t : ThreadLifecycleIndex)
    → IsConsistent t
    → IsConsistent (response_for method id result vscode t)
unfolding response_for
response_for-IsConsistent method id result vscode t v =
    elim (Bool-cases (includes method opening_methods)) [
      | inl opening ↦
          rw opening (λ j h. ground (arith, has-add id j t.loaded, v j, string_key.same_iff id j))
      | inr other ↦
          rw other (elim (Bool-cases (includes method ("thread/archive" ∷ "thread/delete" ∷ []))) [
            | inl gone ↦ rw gone (remove_thread-IsConsistent id t v)
            | inr stays ↦ rw stays (elim (Bool-cases (method == "thread/unsubscribe")) [
              | inl leaves ↦ rw leaves (
                  let w = deselect-IsConsistent id vscode t v in
                  elim (Bool-cases (is_text "notLoaded" (at "status" result))) [
                    | inl dropped ↦ rw dropped (remove_thread-IsConsistent id _ w)
                    | inr held ↦ rw held w
                  ])
              | inr nothing ↦ rw nothing v
            ])
          ])
    ]

status_changed-IsConsistent :
    (id : String) (kind : Value) (t : ThreadLifecycleIndex)
    → IsConsistent t
    → IsConsistent (status_changed id kind t)
unfolding status_changed
status_changed-IsConsistent id kind t v = elim (Bool-cases (is_text "notLoaded" kind)) [
  | inl gone ↦ rw gone (remove_thread-IsConsistent id t v)
  | inr stays ↦ rw stays (elim (Bool-cases (includes (string_of kind) known_kinds)) [
    | inl here ↦ rw here (add_thread-IsConsistent id t v)
    | inr odd ↦ rw odd v
  ])
]

notification_for-IsConsistent :
    (method id : String) (params : Value) (t : ThreadLifecycleIndex)
    → IsConsistent t
    → IsConsistent (notification_for method id params t)
unfolding notification_for
notification_for-IsConsistent method id params t v =
    elim (Bool-cases
      (includes method ("thread/closed" ∷ "thread/archived" ∷ "thread/deleted" ∷ []))) [
        | inl gone ↦ rw gone (remove_thread-IsConsistent id t v)
        | inr stays ↦
            rw stays
              (elim (Bool-cases
                (method == "thread/status/changed" && is_record (at "status" params))) [
                  | inl changed ↦ rw changed (status_changed-IsConsistent id _ t v)
                  | inr other ↦
                      rw other
                        (elim (Bool-cases
                          (includes method ("thread/started" ∷ "turn/started" ∷ []))) [
                            | inl started ↦ rw started (add_thread-IsConsistent id t v)
                            | inr nothing ↦ rw nothing v
                          ])
                ])
      ]

response-IsConsistent :
    (method : String) (thread_id : Option String) (result : Value) (vscode : Bool)
    (t : ThreadLifecycleIndex)
    → IsConsistent t
    → IsConsistent (response method thread_id result vscode t)
unfolding response
response-IsConsistent method thread_id result vscode t v = elim (Bool-cases (is_record result)) [
  | inr no_record ↦ rw no_record v
  | inl ok ↦ rw ok (elim (Option-cases (response_id thread_id result)) [
    | inl none_named ↦ rw none_named v
    | inr (id, named) ↦ rw named (response_for-IsConsistent method id result vscode t v)
  ])
]

notification-IsConsistent :
    (method : String) (params : Value) (t : ThreadLifecycleIndex)
    → IsConsistent t
    → IsConsistent (notification method params t)
unfolding notification
notification-IsConsistent method params t v = elim (Bool-cases (is_record params)) [
  | inr no_record ↦ rw no_record v
  | inl ok ↦ rw ok (elim (Option-cases (notification_id params)) [
    | inl none_named ↦ rw none_named v
    | inr (id, named) ↦ rw named (notification_for-IsConsistent method id params t v)
  ])
]

-- Whatever responses and notifications arrive, in any order and of any shape: the thread that is
-- selected is one that is loaded.
pub receive-IsConsistent :
    (ms : List Message) (t : ThreadLifecycleIndex) → IsConsistent t → IsConsistent (receive ms t)
unfolding receive
receive-IsConsistent [] t v = v
receive-IsConsistent (responds method id result vscode ∷ ms) t v =
    receive-IsConsistent ms _ (response-IsConsistent method id result vscode t v)
receive-IsConsistent (notifies method params ∷ ms) t v =
    receive-IsConsistent ms _ (notification-IsConsistent method params t v)

-- The notifications that end a thread.
abbrev pub Ends : String → Type 0
Ends method =
    (method ≡ "thread/closed") ⊎ (method ≡ "thread/archived") ⊎ (method ≡ "thread/deleted")

notification-notification_for :
    (method id : String) (params : Value) (t : ThreadLifecycleIndex)
    → is_record params ≡ true
    → notification_id params ≡ some id
    → notification method params t ≡ notification_for method id params t
unfolding notification
notification-notification_for method id params t r n = ground arith

notification_for-remove :
    (method id : String) (params : Value) (t : ThreadLifecycleIndex)
    → Ends method
    → notification_for method id params t ≡ remove_thread id t
unfolding notification_for
notification_for-remove method id params t (inl e) = rw e
notification_for-remove method id params t (inr (inl e)) = rw e
notification_for-remove method id params t (inr (inr e)) = rw e

remove_thread_lem :
    (id other : String) (t : ThreadLifecycleIndex)
    → (has id (remove_thread id t).loaded ≡ false)
      × ((remove_thread id t).selected ≢ some id)
      × (id ≢ other → has other (remove_thread id t).loaded ≡ has other t.loaded)
unfolding remove_thread
remove_thread_lem id other t = (
  has-remove id id t.loaded ∙ rw (==_refl id),
  λ h. ground (arith, ==_refl id),
  λ ne. ground (arith, has-remove id other t.loaded, string_key.same_iff id other),
)

-- After a notification that a thread has been closed, archived or deleted it is neither loaded nor
-- selected, and every other thread is loaded exactly if it was.
pub notification-Ends :
    (method id other : String) (params : Value) (t : ThreadLifecycleIndex)
    → Ends method
    → is_record params ≡ true
    → notification_id params ≡ some id
    → let t' = notification method params t in
      (has id t'.loaded ≡ false)
      × (t'.selected ≢ some id)
      × (id ≢ other → has other t'.loaded ≡ has other t.loaded)
notification-Ends method id other params t e r n =
    rw
      (
        notification-notification_for method id params t r n,
        notification_for-remove method id params t e,
      )
      (remove_thread_lem id other t)

-- Only VS Code selects: a response to another client leaves the selection as it is
-- or clears it.
pub receive-selected :
    (method : String) (thread_id : Option String) (result : Value) (t : ThreadLifecycleIndex)
    → ((response method thread_id result false t).selected ≡ t.selected)
      ⊎ ((response method thread_id result false t).selected ≡ none)
unfolding response response_for remove_thread deselect
receive-selected method thread_id result t = ground arith
