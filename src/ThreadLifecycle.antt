-- ===== src/ThreadLifecycle.antt =====
-- src/shim/thread-lifecycle.ts: `ThreadLifecycleIndex`.
pub mod Laws
mod Tests
use remote_codex.Base.{
  String, Bool, true, false, not, ◌&&◌, ◌||◌, Option, none, some, List, [], ◌∷◌, if◌then◌else◌,
  ◌==◌, nat_key, string_key, includes, add, remove,
}
use Prim.Native.String.{◌++◌ as ◌<>◌}
use remote_codex.Json.{
  Value, undefined, null, bool, num, str, obj, arr, Items, no_items, item, is_record, at, is_text,
  text_of, is_undefined, is_null,
}
use remote_codex.Config.Text.{decimal}

pub record ThreadLifecycleIndex : Type 0 where
  pub loaded : List String
  pub selected : Option String

abbrev pub is_selected : String → Option String → Bool
is_selected id none = false
is_selected id (some s) = s == id

unfoldable pub remove_thread : String → ThreadLifecycleIndex → ThreadLifecycleIndex
remove_thread id t = record {
  loaded = remove id t.loaded;
  selected = if is_selected id t.selected then none else t.selected;
}

unfoldable pub add_thread : String → ThreadLifecycleIndex → ThreadLifecycleIndex
add_thread id t = record t { loaded = add id t.loaded }

-- `isRecord(value) ? value : undefined`.
abbrev pub record_or_undefined : Value → Value
record_or_undefined v = if is_record v then v else undefined

abbrev pub opening_methods : List String
opening_methods =
    "thread/start" ∷ "thread/resume" ∷ "thread/fork" ∷ "turn/start" ∷ "turn/steer" ∷ []

-- `if (vscode && this.selected === id) this.selected = undefined`.
unfoldable pub deselect : String → Bool → ThreadLifecycleIndex → ThreadLifecycleIndex
deselect id vscode t = record t {
  selected = if vscode && is_selected id t.selected then none else t.selected;
}

-- `response`, once the id of its thread is known.
unfoldable pub response_for :
    String → String → Value → Bool → ThreadLifecycleIndex → ThreadLifecycleIndex
response_for method id result vscode t =
    if includes method opening_methods
    then record { loaded = add id t.loaded; selected = if vscode then some id else t.selected }
    else if includes method ("thread/archive" ∷ "thread/delete" ∷ [])
    then remove_thread id t
    else if method == "thread/unsubscribe"
    then (if is_text "notLoaded" (at "status" result)
        then remove_thread id (deselect id vscode t)
        else deselect id vscode t)
    else t

-- The id that the result names, or else the request's; the empty text counts as none.
unfoldable pub response_id : Option String → Value → Option String
response_id thread_id result = elim (text_of (at "id" (record_or_undefined (at "thread" result)))) [
  | some s ↦ if s == "" then none else some s
  | none ↦ elim thread_id [ none ↦ none | some s ↦ if s == "" then none else some s ]
]

unfoldable pub response :
    String → Option String → Value → Bool → ThreadLifecycleIndex → ThreadLifecycleIndex
response method thread_id result vscode t =
    if not (is_record result) then t else elim (response_id thread_id result) [
      | none ↦ t
      | some id ↦ response_for method id result vscode t
    ]

-- `String(value)`: an array is the texts of its entries with commas between them, in which null and
-- undefined are empty.
unfoldable mutual
  pub string_of : Value → String
  string_of undefined = "undefined"
  string_of null = "null"
  string_of (bool true) = "true"
  string_of (bool false) = "false"
  string_of (num n) = decimal n
  string_of (str s) = s
  string_of (obj fs) = "[object Object]"
  string_of (arr vs) = joined vs

  pub joined : Items → String
  joined no_items = ""
  joined (item v vs) =
      let entry = string_of v in
      let rest = joined vs in
      (if is_undefined v || is_null v then "" else entry)
      <> (elim vs [ no_items ↦ "" | item w ws ↦ "," <> rest ])

abbrev pub known_kinds : List String
known_kinds = "idle" ∷ "active" ∷ "systemError" ∷ []

-- The branch of `thread/status/changed`.
unfoldable pub status_changed : String → Value → ThreadLifecycleIndex → ThreadLifecycleIndex
status_changed id kind t =
    if is_text "notLoaded" kind
    then remove_thread id t
    else if includes (string_of kind) known_kinds
    then add_thread id t
    else t

-- `notification`, once the id of its thread is known.
unfoldable pub notification_for :
    String → String → Value → ThreadLifecycleIndex → ThreadLifecycleIndex
notification_for method id params t =
    if includes method ("thread/closed" ∷ "thread/archived" ∷ "thread/deleted" ∷ [])
    then remove_thread id t
    else if method == "thread/status/changed" && is_record (at "status" params)
    then status_changed id (at "type" (at "status" params)) t
    else if includes method ("thread/started" ∷ "turn/started" ∷ [])
    then add_thread id t
    else t

unfoldable pub notification_id : Value → Option String
notification_id params = elim (text_of (at "threadId" params)) [
  | some s ↦ some s
  | none ↦ text_of (at "id" (record_or_undefined (at "thread" params)))
]

unfoldable pub notification : String → Value → ThreadLifecycleIndex → ThreadLifecycleIndex
notification method params t =
    if not (is_record params)
    then t
    else elim (notification_id params) [ none ↦ t | some id ↦ notification_for method id params t ]
