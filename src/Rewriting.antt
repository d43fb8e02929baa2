-- ===== src/Rewriting.antt =====
-- src/shim/rewrite.ts: what the requests of a client become before the app server reads them. The texts
-- that a call writes for the model are `Notes`; they are put together from the inventory of tool
-- routes, the resources of the conversation and the editor, and nothing is assumed of them.
pub mod Params
pub mod Sending
pub mod Laws
pub mod Tests
use remote_codex.Base.{
  ℕ, String, Bool, true, false, not, ◌&&◌, ◌||◌, Option, none, some, List, [], ◌∷◌, nat_eq,
  if◌then◌else◌, ◌==◌, nat_key, string_key, find_by,
}
use Prim.Native.String.{◌++◌ as ◌<>◌}
use remote_codex.Json.{
  Value, str, bool, obj, arr, Fields, end, field, Items, no_items, item, is_record, is_undefined,
  is_text, at, fields_of, lookup_field, set_field, delete_field,
}
use remote_codex.Background.Calls.{codes}
use remote_codex.Config.{
  BridgeConfig, WorkspaceRootConfig, local_target, remote_target, primary, secondary, is_letter,
}

-- `remotePolicy` behind its test of the primary root, `serializeToolRouteInventory`,
-- `formatEditorContext` of the context that is given, and `REMOTE_DYNAMIC_TOOLS`; and whether the call
-- is given an inventory of routes.
pub record Notes : Type 0 where
  pub dynamic_tools : Items
  pub editor_context : Option String
  pub has_inventory : Bool
  pub remote_policy : BridgeConfig → String
  pub tool_routes : String

abbrev pub is_remote_primary : WorkspaceRootConfig → Bool
is_remote_primary root = elim root.target [
  | local_target ↦ false
  | remote_target ↦ elim root.role [ primary ↦ true | secondary ↦ false ]
]

-- `remotePrimaryRoot`, with `none` for the `TypeError`.
unfoldable pub remote_primary_root : BridgeConfig → Option WorkspaceRootConfig
remote_primary_root config = find_by is_remote_primary config.roots

abbrev pub is_slash : ℕ → Bool
is_slash c = nat_eq c 47 || nat_eq c 92

-- `/^[A-Za-z]:[\\/]/`.
abbrev pub has_drive : List ℕ → Bool
has_drive (c ∷ colon ∷ slash ∷ cs) = is_letter c && nat_eq colon 58 && is_slash slash
has_drive _ = false

-- `/^[\\/][^\\/]+/`, behind a name, and `/^[^\\/]+[\\/][^\\/]+/`, behind its first character.
abbrev pub has_share : List ℕ → Bool
has_share [] = false
has_share (c ∷ []) = false
has_share (c ∷ d ∷ cs) =
    let rest = has_share (d ∷ cs) in if is_slash c then not (is_slash d) else rest

-- `/^\\\\[^\\/]+[\\/][^\\/]+/`.
abbrev pub has_server : List ℕ → Bool
has_server (a ∷ b ∷ c ∷ cs) = nat_eq a 92 && nat_eq b 92 && not (is_slash c) && has_share cs
has_server _ = false

abbrev pub is_windows_native : String → Bool
is_windows_native control_dir = has_drive (codes control_dir) || has_server (codes control_dir)

-- `runtimeWorkspaceRoots`: the one root, or `none` for the `TypeError`.
unfoldable pub runtime_workspace_root : Option BridgeConfig → String → Option String
runtime_workspace_root none control_dir = some control_dir
runtime_workspace_root (some config) control_dir =
    if is_windows_native control_dir
    then some control_dir
    else elim (remote_primary_root config) [ none ↦ none | some root ↦ some root.path ]

-- `[first, second].filter(Boolean).join("\n\n")`.
unfoldable pub join_texts : String → String → String
join_texts first second =
    if first == "" then second else if second == "" then first else first <> "\n\n" <> second

abbrev pub text_or_empty : Value → String
text_or_empty (str s) = s
text_or_empty _ = ""

-- `mergeInstructions`; what it throws is tested where it is called.
abbrev pub merge_instructions : Notes → Value → BridgeConfig → Value
merge_instructions notes existing config =
    str (join_texts (notes.remote_policy config) (text_or_empty existing))

abbrev pub application_context : String → Value
application_context text = obj (field "kind" (str "application") (field "value" (str text) end))

abbrev pub with_editor_context : Option String → Fields → Fields
with_editor_context none fs = fs
with_editor_context (some text) fs =
    set_field "codex-remote-bridge-editor-context" (application_context text) fs

unfoldable pub merge_additional_context : Notes → Value → BridgeConfig → Fields
merge_additional_context notes existing config =
    let current =
      delete_field "codex-remote-bridge-tool-routes"
        (delete_field "codex-remote-bridge-editor-context" (fields_of existing)) in
    with_editor_context notes.editor_context (
      set_field "codex-remote-bridge-tool-routes" (application_context notes.tool_routes) (
        set_field "codex-remote-bridge" (application_context (notes.remote_policy config)) current))

abbrev pub has_name : String → Value → Bool
has_name name tool = is_record tool && is_text name (at "name" tool)

-- `REMOTE_TOOL_NAMES.has(tool.name)`, of a tool that is a record with a name.
unfoldable pub names_one_of : Items → Value → Bool
names_one_of no_items tool = false
names_one_of (item t ts) tool =
    if elim (at "name" t) [ str name ↦ has_name name tool | _ ↦ false ]
    then true
    else names_one_of ts tool

-- The tools of a client that are none of the bridge's, and behind them those.
unfoldable pub append_tools : Items → Items → Items
append_tools tools no_items = tools
append_tools tools (item t ts) =
    let rest = append_tools tools ts in if names_one_of tools t then rest else item t rest

abbrev pub merge_dynamic_tools : Items → Value → Items
merge_dynamic_tools tools (arr existing) = append_tools tools existing
merge_dynamic_tools tools _ = tools

-- `withRemoteSessionPolicy`.
unfoldable pub with_remote_session_policy : Fields → Option BridgeConfig → Fields
with_remote_session_policy params config =
    let rewritten =
      delete_field "sandboxPolicy" (delete_field "sandbox" (delete_field "config" params)) in
    elim config [
      | some c ↦
          set_field "permissions" (str ":danger-full-access")
            (set_field "approvalPolicy" (str "never") rewritten)
      | none ↦ delete_field "permissions" (
          if is_text "full-access" (lookup_field "permissions" params)
            && is_undefined (lookup_field "approvalPolicy" params)
          then set_field "approvalPolicy" (str "never") rewritten
          else rewritten)
    ]

abbrev pub read_only_policy : Value
read_only_policy = obj (field "type" (str "readOnly") (field "networkAccess" (bool false) end))

-- The parameters that thread/start, thread/resume, thread/fork and turn/start have in common.
unfoldable pub session_params : Fields → Option BridgeConfig → String → String → Fields
session_params params config control_dir root =
    set_field "runtimeWorkspaceRoots" (arr (item (str root) no_items))
      (set_field "cwd" (str control_dir) (with_remote_session_policy params config))

unfoldable pub initialize_params : Fields → Fields
initialize_params params =
    set_field "capabilities"
      (obj
        (set_field "experimentalApi" (bool true) (fields_of (lookup_field "capabilities" params))))
      params

-- The parameters of thread/resume and of thread/fork.
unfoldable pub thread_params : Notes → Fields → Option BridgeConfig → String → String → Fields
thread_params notes params config control_dir root =
    let common = session_params params config control_dir root in
    elim config [
      | none ↦ set_field "sandbox" (str "read-only") common
      | some c ↦
          set_field "developerInstructions"
            (merge_instructions notes (lookup_field "developerInstructions" params) c) common
    ]

unfoldable pub start_params : Notes → Fields → Option BridgeConfig → String → String → Fields
start_params notes params config control_dir root =
    let common = thread_params notes params config control_dir root in
    elim config [
      | none ↦ common
      | some c ↦
          set_field "dynamicTools"
            (arr (merge_dynamic_tools notes.dynamic_tools (lookup_field "dynamicTools" params)))
            common
    ]

unfoldable pub turn_params : Notes → Fields → Option BridgeConfig → String → String → Fields
turn_params notes params config control_dir root =
    let common = session_params params config control_dir root in
    elim config [
      | none ↦ set_field "sandboxPolicy" read_only_policy common
      | some c ↦
          set_field "additionalContext"
            (obj (merge_additional_context notes (lookup_field "additionalContext" params) c))
            common
    ]

unfoldable pub settings_params : Fields → Option BridgeConfig → String → Fields
settings_params params config control_dir =
    set_field "cwd" (str control_dir) (with_remote_session_policy params config)
