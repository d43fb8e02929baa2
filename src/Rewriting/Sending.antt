-- ===== src/Rewriting/Sending.antt =====
-- `rewriteClientMessage` and `scopeThreadListToWorkspace` of src/shim/rewrite.ts.
use remote_codex.Base.{
  String, Bool, true, false, not, ◌&&◌, ◌||◌, Option, none, some, if◌then◌else◌, ◌==◌, nat_key,
  string_key,
}
use remote_codex.Json.{
  Value, str, obj, Fields, is_record, is_text, at, has_at, fields_of, set_field,
}
use remote_codex.Config.{BridgeConfig}
use remote_codex.Rewriting.{
  Notes, remote_primary_root, runtime_workspace_root, initialize_params, thread_params,
  start_params, turn_params, settings_params,
}

-- What `rewriteClientMessage` returns, or that it throws its `TypeError`.
pub data Rewritten : Type 0 where
  thrown same : Rewritten
  changed : Fields → Rewritten

-- A configuration whose instructions can be written; both tests throw the same error.
abbrev pub has_primary : Option BridgeConfig → Bool
has_primary none = true
has_primary (some config) = elim (remote_primary_root config) [ some root ↦ true | none ↦ false ]

-- The parameters from the runtime root; without a primary root the instructions throw.
unfoldable pub with_root : Option BridgeConfig → String → (String → Fields) → Rewritten
with_root config control_dir params =
    if not (has_primary config) then thrown else elim (runtime_workspace_root config control_dir) [
      | none ↦ thrown
      | some root ↦ changed (params root)
    ]

-- The branches of `rewriteClientMessage` on the method.
unfoldable pub rewrite_params : Notes → String → Fields → Option BridgeConfig → String → Rewritten
rewrite_params notes method params config control_dir =
    if method == "initialize"
    then changed (initialize_params params)
    else if method == "thread/start"
    then with_root config control_dir (start_params notes params config control_dir)
    else if method == "thread/resume"
    then with_root config control_dir (thread_params notes params config control_dir)
    else if method == "turn/start"
    then with_root config control_dir (turn_params notes params config control_dir)
    else if method == "thread/settings/update"
    then changed (settings_params params config control_dir)
    else if method == "thread/fork"
    then with_root config control_dir (thread_params notes params config control_dir)
    else same

-- The parameters that a message gets. `createToolRouteInventory`, which is called when no inventory is
-- given, throws without a primary root, whatever the method is.
unfoldable pub rewrite_client_message : Notes → Value → Option BridgeConfig → String → Rewritten
rewrite_client_message notes message config control_dir =
    if not (has_at "method" message) || not (is_record (at "params" message))
    then same
    else if not notes.has_inventory && not (has_primary config)
    then thrown
    else elim (at "method" message) [
      | str method ↦
          rewrite_params notes method (fields_of (at "params" message)) config control_dir
      | _ ↦ same
    ]

-- `{ ...message, params }`.
abbrev pub sent : Value → Rewritten → Option Value
sent message thrown = none
sent message same = some message
sent message (changed params) = some (obj (set_field "params" (obj params) (fields_of message)))

-- `scopeThreadListToWorkspace`.
unfoldable pub scope_thread_list_to_workspace : Value → Option String → Value
scope_thread_list_to_workspace message none = message
scope_thread_list_to_workspace message (some root) =
    if root == ""
      || not (has_at "method" message)
      || not (is_text "thread/list" (at "method" message))
      || not (is_record (at "params" message))
    then message
    else obj (
        set_field "params" (obj (set_field "cwd" (str root) (fields_of (at "params" message))))
          (fields_of message))
