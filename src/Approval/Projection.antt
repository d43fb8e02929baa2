-- ===== src/Approval/Projection.antt =====
-- src/shim/remote-approval-policy.ts: what VS Code is shown of the permissions. A function whose result
-- its caller compares with its argument by `===` returns `none` for the argument itself: whatever else
-- it returns is a new object.
use remote_codex.Base.{
  String, Bool, true, false, not, ◌&&◌, ◌||◌, Option, none, some, if◌then◌else◌, ◌==◌, nat_key,
  string_key, has, remove,
}
use text.Mathlib.Text.{starts_with}
use remote_codex.Json.{
  Value, undefined, null, bool, str, arr, obj, Items, no_items, item, Fields, end, field, is_record,
  fields_of, set_field, delete_field, at, has_at, is_text, is_array, is_undefined, text_of,
}
use remote_codex.Rpc.{RpcId, rpc_id_key, is_rpc_response, id_of}
use remote_codex.Approval.Tracker.{
  VisiblePermissionProfileId, danger_full_access, read_only, workspace,
  RemotePermissionPresentation, RemoteApprovalPolicyTracker, or_value, presentation_for_thread,
}

abbrev pub remote_permission_profile_id : String
remote_permission_profile_id = "codex-remote-bridge"

abbrev pub profile_name : VisiblePermissionProfileId → String
profile_name danger_full_access = ":danger-full-access"
profile_name read_only = ":read-only"
profile_name workspace = ":workspace"

unfoldable pub sandbox_policy : VisiblePermissionProfileId → Value
sandbox_policy danger_full_access = obj (field "type" (str "dangerFullAccess") end)
sandbox_policy read_only =
    obj (field "type" (str "readOnly") (field "networkAccess" (bool false) end))
sandbox_policy workspace = obj (
    field "type" (str "workspaceWrite") (
      field "writableRoots" (arr no_items) (
        field "networkAccess" (bool false)
          (field "excludeTmpdirEnvVar" (bool false) (field "excludeSlashTmp" (bool false) end)))))

unfoldable pub is_internal_permission_profile : Value → Bool
is_internal_permission_profile v = is_record v && is_text remote_permission_profile_id (at "id" v)

-- `hasInternalDefault` and `hasInternalProfile`.
unfoldable pub has_internal_default : Value → Bool
has_internal_default v = is_text remote_permission_profile_id (at "default_permissions" v)

unfoldable pub has_internal_profile : Value → Bool
has_internal_profile v =
    is_record (at "permissions" v) && has_at remote_permission_profile_id (at "permissions" v)

-- Deletes the property if the value that is to stand for nothing is `undefined`.
unfoldable pub put_empty : String → Value → Fields → Fields
put_empty key empty fs = if is_undefined empty then delete_field key fs else set_field key empty fs

unfoldable pub without_default : Value → Value → Fields → Fields
without_default v empty fs =
    if has_internal_default v then put_empty "default_permissions" empty fs else fs

-- `visiblePermissions`.
unfoldable pub visible_permissions : Value → Fields
visible_permissions v = delete_field remote_permission_profile_id (fields_of (at "permissions" v))

abbrev pub is_empty : Fields → Bool
is_empty end = true
is_empty (field k v fs) = false

unfoldable pub without_profile : Value → Value → Fields → Fields
without_profile v empty fs =
    if has_internal_profile v
    then (if is_empty (visible_permissions v)
        then put_empty "permissions" empty fs
        else set_field "permissions" (obj (visible_permissions v)) fs)
    else fs

unfoldable pub without_internal_permission : Value → Value → Option Value
without_internal_permission v empty =
    if not (is_record v)
    then none
    else if not (has_internal_default v) && not (has_internal_profile v)
    then none
    else some (obj (without_profile v empty (without_default v empty (fields_of v))))

-- The keys of `flatInternalKeys`.
abbrev pub is_flat_internal_key : String → Bool
is_flat_internal_key key =
    key == "permissions.codex-remote-bridge" || starts_with key "permissions.codex-remote-bridge."

unfoldable pub has_flat_key : Fields → Bool
has_flat_key end = false
has_flat_key (field k v fs) = if is_flat_internal_key k then true else has_flat_key fs

unfoldable pub delete_flat_keys : Fields → Fields
delete_flat_keys end = end
delete_flat_keys (field k v fs) =
    if is_flat_internal_key k then delete_flat_keys fs else field k v (delete_flat_keys fs)

unfoldable pub without_internal_permission_origins : Value → Option Value
without_internal_permission_origins v =
    if not (is_record v)
    then none
    else if not (has_at "default_permissions" v)
        && not (has_internal_profile v)
        && not (has_flat_key (fields_of v))
    then none
    else some (
        obj (
          without_profile v undefined
            (delete_flat_keys (delete_field "default_permissions" (fields_of v)))))

abbrev pub is_internal_entry : Value → Bool
is_internal_entry v = is_record v && is_text remote_permission_profile_id (at "id" v)

unfoldable pub visible_entries : Items → Items
visible_entries no_items = no_items
visible_entries (item v vs) =
    if is_internal_entry v then visible_entries vs else item v (visible_entries vs)

unfoldable pub lists_internal : Items → Bool
lists_internal no_items = false
lists_internal (item v vs) = if is_internal_entry v then true else lists_internal vs

abbrev pub items_of : Value → Items
items_of (arr xs) = xs
items_of _ = no_items

-- The lengths differ exactly if an entry has been left out.
unfoldable pub project_permission_profile_list_result : Value → Option Value
project_permission_profile_list_result v =
    if not (is_record v) || not (is_array (at "data" v))
    then none
    else if not (lists_internal (items_of (at "data" v)))
    then none
    else some
        (obj (set_field "data" (arr (visible_entries (items_of (at "data" v)))) (fields_of v)))

unfoldable pub project_layer : Value → Value
project_layer layer =
    if not (is_record layer)
    then layer
    else elim (without_internal_permission (at "config" layer) undefined) [
      | none ↦ layer
      | some config ↦ obj (set_field "config" config (fields_of layer))
    ]

unfoldable pub project_layers : Items → Items
project_layers no_items = no_items
project_layers (item v vs) = item (project_layer v) (project_layers vs)

-- The object that `projectConfigReadResult` builds around a config that has changed.
unfoldable pub config_read_fields : Value → Value → Fields
config_read_fields v config =
    let origins =
      or_value (without_internal_permission_origins (at "origins" v)) (at "origins" v) in
    let fs = set_field "origins" origins (set_field "config" config (fields_of v)) in
    if is_array (at "layers" v)
    then set_field "layers" (arr (project_layers (items_of (at "layers" v)))) fs
    else fs

unfoldable pub project_config_read_result : Value → Option Value
project_config_read_result v =
    if not (is_record v) then none else elim (without_internal_permission (at "config" v) null) [
      | none ↦ none
      | some config ↦ some (obj (config_read_fields v config))
    ]

abbrev pub shown_profile : VisiblePermissionProfileId → Value
shown_profile p = obj (field "id" (str (profile_name p)) (field "extends" null end))

-- `projectThreadSettings` and `projectThreadResult`, which name the sandbox differently.
unfoldable pub project_thread : String → Value → RemotePermissionPresentation → Option Value
project_thread sandbox_key v p =
    if not (is_record v) || not (is_internal_permission_profile (at "activePermissionProfile" v))
    then none
    else some (
        obj (
          set_field "activePermissionProfile" (shown_profile p.profile_id) (
            set_field sandbox_key (sandbox_policy p.profile_id)
              (set_field "approvalPolicy" (str p.approval_policy) (fields_of v)))))

abbrev pub project_thread_settings : Value → RemotePermissionPresentation → Option Value
project_thread_settings = project_thread "sandboxPolicy"

abbrev pub project_thread_result : Value → RemotePermissionPresentation → Option Value
project_thread_result = project_thread "sandbox"

-- `{ ...message, [key]: value }`, or the message for `none`.
abbrev pub with_part : String → Value → Option Value → Value
with_part key message none = message
with_part key message (some v) = obj (set_field key v (fields_of message))

-- `projectServerMessage` for a response with a record as its result.
unfoldable pub project_response :
    RpcId → Value → RemoteApprovalPolicyTracker → RemoteApprovalPolicyTracker × Value
project_response id message t =
    let result = at "result" message in
    if has id t.permission_profile_list_responses
    then (
      record t {
        permission_profile_list_responses = remove id t.permission_profile_list_responses;
      },
      with_part "result" message (project_permission_profile_list_result result),
    )
    else (
      t,
      elim (project_config_read_result result) [
        | some config ↦ with_part "result" message (some config)
        | none ↦ elim (text_of (at "id" (at "thread" result))) [
          | none ↦ message
          | some thread ↦
              with_part "result" message
                (project_thread_result result (presentation_for_thread thread t))
        ]
      ],
    )

unfoldable pub project_notification : Value → RemoteApprovalPolicyTracker → Value
project_notification message t =
    let params = at "params" message in
    if not (is_text "thread/settings/updated" (at "method" message)) || not (is_record params)
    then message
    else elim (text_of (at "threadId" params)) [
      | none ↦ message
      | some thread ↦
          with_part "params" message
            (elim (project_thread_settings (at "threadSettings" params)
              (presentation_for_thread thread t)) [
                | none ↦ none
                | some settings ↦
                    some (obj (set_field "threadSettings" settings (fields_of params)))
              ])
    ]

unfoldable pub project_server_message :
    Value → RemoteApprovalPolicyTracker → RemoteApprovalPolicyTracker × Value
project_server_message message t =
    if is_rpc_response message && is_record (at "result" message)
    then elim (id_of message) [ none ↦ (t, message) | some id ↦ project_response id message t ]
    else (t, project_notification message t)
