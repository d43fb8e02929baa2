-- ===== src/Approval/ShownTests.antt =====
-- Messages before and behind `projectServerMessage` (src/shim/remote-approval-policy.ts).
use remote_codex.Base.{
  String, ◌≡◌, refl, ◌≢◌, inl, true, false, none, some, [], ◌∷◌, ◌==◌, nat_key, string_key, has,
}
use remote_codex.Json.{
  Value, undefined, null, num, str, arr, obj, no_items, item, field, end, at, lookup_field,
  set_field, delete_field, has_field,
}
use remote_codex.Rpc.{rpc_id_key, number_id, is_rpc_response}
use remote_codex.Approval.Tracker.{RemoteApprovalPolicyTracker, init, or_value}
use remote_codex.Approval.Projection.{
  remote_permission_profile_id, is_internal_permission_profile, lists_internal, items_of,
  project_config_read_result, project_server_message, project_response,
  project_permission_profile_list_result, visible_entries, without_internal_permission,
  has_internal_default, has_internal_profile, without_profile, without_default, visible_permissions,
  put_empty,
}
use remote_codex.Approval.Hiding.{Hides, visible, is_plain, without_internal_permission-Hides}
use remote_codex.Approval.ConfigRead.{AllHide, project_config_read_result-Hides}
use remote_codex.Approval.Shown.{project_server_message-lists, project_server_message-settings}

abbrev config : Value
config = obj (
    field "default_permissions" (str "codex-remote-bridge") (
      field "permissions" (obj (field "codex-remote-bridge" (obj end) (field "own" (obj end) end)))
        end))

abbrev answer : Value
answer = obj (
    field "config" config
      (field "layers" (arr (item (obj (field "config" config end)) no_items)) end))

abbrev listing : Value
listing = obj (
    field "id" (num 4) (
      field "result"
        (obj (
          field "data"
            (arr
              (item (obj (field "id" (str "codex-remote-bridge") end)) (item (str "own") no_items)))
            end))
        end))

abbrev noted : RemoteApprovalPolicyTracker
noted = record init { permission_profile_list_responses = number_id 4 ∷ [] }

abbrev settings : Value
settings = obj (
    field "method" (str "thread/settings/updated") (
      field "params"
        (obj (
          field "threadId" (str "a") (
            field "threadSettings"
              (obj (
                field "activePermissionProfile" (obj (field "id" (str "codex-remote-bridge") end))
                  end))
              end)))
        end))

listing_shown :
    at "result" (project_server_message listing noted).1
    ≡ obj (field "data" (arr (item (str "own") no_items)) end)
unfolding project_server_message project_response project_permission_profile_list_result
    visible_entries lists_internal is_rpc_response lookup_field has_field set_field has
listing_shown = refl

config_shown :
    without_internal_permission config undefined
    ≡ some (obj (field "permissions" (obj (field "own" (obj end) end)) end))
unfolding without_internal_permission has_internal_default has_internal_profile without_profile
    without_default visible_permissions put_empty lookup_field has_field set_field delete_field
config_shown = refl

without_internal_permission-Hides_example :
    Hides (visible config null)
    × (has_internal_default config ≡ true → at "default_permissions" (visible config null) ≡ null)
    × ((key : String)
        → is_plain key (at key config) ≡ true
        → at key (visible config null) ≡ at key config)
    × ((p : String)
        → (remote_permission_profile_id == p) ≡ false
        → at p (at "permissions" (visible config null)) ≡ at p (at "permissions" config))
without_internal_permission-Hides_example = without_internal_permission-Hides config null (inl refl)

-- A default of the user's own stays beside the internal profile.
abbrev mixed : Value
mixed = obj (
    field "default_permissions" (str "own")
      (field "permissions" (obj (field "codex-remote-bridge" (obj end) end)) end))

own_default_stays :
    visible mixed null
    ≡ obj (field "default_permissions" (str "own") (field "permissions" null end))
unfolding without_internal_permission has_internal_default has_internal_profile without_default
    without_profile visible_permissions put_empty lookup_field has_field set_field delete_field
own_default_stays = refl

project_config_read_result-Hides_example :
    let w = or_value (project_config_read_result answer) answer in
    Hides (at "config" w)
    × (project_config_read_result answer ≢ none → AllHide (items_of (at "layers" w)))
project_config_read_result-Hides_example = project_config_read_result-Hides answer refl

project_server_message-lists_example :
    (lists_internal (items_of (at "data" (at "result" (project_server_message listing noted).1)))
      ≡ false)
    × (has (number_id 4) (project_server_message listing noted).0.permission_profile_list_responses
        ≡ false)
unfolding is_rpc_response lookup_field has_field has
project_server_message-lists_example =
    project_server_message-lists listing (number_id 4) noted refl refl refl refl

project_server_message-settings_example :
    is_internal_permission_profile (
      at "activePermissionProfile"
        (at "threadSettings" (at "params" (project_server_message settings noted).1)))
    ≡ false
unfolding is_rpc_response lookup_field has_field
project_server_message-settings_example =
    project_server_message-settings settings "a" noted refl refl refl refl
