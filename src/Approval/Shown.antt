-- ===== src/Approval/Shown.antt =====
-- What VS Code is shown in answers and notifications behind `projectServerMessage`
-- (src/shim/remote-approval-policy.ts).
use remote_codex.Base.{
  String, ◌≡◌, refl, ap, ◌∙◌, inl, inr, true, false, Option, none, some, Bool-cases, Option-cases,
  nat_key, string_key, ==_refl, has, has-remove,
}
use remote_codex.Json.{
  Value, undefined, str, arr, obj, Items, no_items, item, is_record, fields_of, lookup_field,
  set_field, at, is_text, is_array, text_of, lookup_field-set_field,
}
use remote_codex.Rpc.{RpcId, rpc_id_key, is_rpc_response, id_of}
use remote_codex.Approval.Tracker.{
  RemotePermissionPresentation, RemoteApprovalPolicyTracker, VisiblePermissionProfileId,
  danger_full_access, read_only, workspace, or_value, presentation_for_thread,
}
use remote_codex.Approval.Projection.{
  is_internal_permission_profile, items_of, project_permission_profile_list_result, visible_entries,
  lists_internal, is_internal_entry, project_thread, sandbox_policy, shown_profile, with_part,
  project_response, project_notification, project_server_message,
}
use remote_codex.Approval.ConfigRead.{at-not_record, not_array-items_of}

lists-visible_entries : (vs : Items) → lists_internal (visible_entries vs) ≡ false
unfolding lists_internal visible_entries
lists-visible_entries no_items = refl
lists-visible_entries (item v vs) = elim (Bool-cases (is_internal_entry v)) [
  | inl internal ↦ rw internal (lists-visible_entries vs)
  | inr shown ↦ rw (shown, shown) (lists-visible_entries vs)
]

-- What a message shows as its result.
part-with_part :
    (key : String) (message : Value) (o : Option Value)
    → at key (with_part key message o) ≡ or_value o (at key message)
part-with_part key message none = refl
part-with_part key message (some v) =
    lookup_field-set_field key key v (fields_of message) ∙ rw (==_refl key) refl

listing-hides :
    (v : Value)
    → lists_internal (items_of (at "data" (or_value (project_permission_profile_list_result v) v)))
      ≡ false
unfolding project_permission_profile_list_result
listing-hides v = elim (Bool-cases (is_record v)) [
  | inr no_record ↦ rw (no_record, at-not_record "data" v no_record) (unfold lists_internal in refl)
  | inl holds ↦ elim (Bool-cases (is_array (at "data" v))) [
    | inr no_list ↦
        rw (holds, no_list, not_array-items_of (at "data" v) no_list)
          (unfold lists_internal in refl)
    | inl list ↦ elim (Bool-cases (lists_internal (items_of (at "data" v)))) [
      | inr clean ↦ rw (holds, list, clean) clean
      | inl dirty ↦
          rw
            (
              holds,
              list,
              dirty,
              lookup_field-set_field "data" "data" (arr (visible_entries (items_of (at "data" v))))
                  (fields_of v),
            )
            (lists-visible_entries (items_of (at "data" v)))
    ]
  ]
]

project_response-lists :
    (id : RpcId) (message : Value) (t : RemoteApprovalPolicyTracker)
    → has id t.permission_profile_list_responses ≡ true
    → (lists_internal (items_of (at "data" (at "result" (project_response id message t).1)))
        ≡ false)
      × (has id (project_response id message t).0.permission_profile_list_responses ≡ false)
unfolding project_response
project_response-lists id message t h = rw h (
  ap (λ x. lists_internal (items_of (at "data" x)))
        (part-with_part "result" message
          (project_permission_profile_list_result (at "result" message)))
      ∙ listing-hides (at "result" message),
  has-remove id id t.permission_profile_list_responses ∙ rw (==_refl id) refl,
)

-- The answer to a listing of permission profiles that the tracker has noted, whatever it holds: VS Code
-- is shown no entry for the internal profile, and the note is gone, so that a later answer under the
-- same id is treated by its own kind.
pub project_server_message-lists :
    (message : Value) (id : RpcId) (t : RemoteApprovalPolicyTracker)
    → is_rpc_response message ≡ true
    → is_record (at "result" message) ≡ true
    → id_of message ≡ some id
    → has id t.permission_profile_list_responses ≡ true
    → let (t', shown) = project_server_message message t in
      (lists_internal (items_of (at "data" (at "result" shown))) ≡ false)
      × (has id t'.permission_profile_list_responses ≡ false)
unfolding project_server_message
project_server_message-lists message id t response result named noted =
    rw (project_server_message, response, result, named) (project_response-lists id message t noted)

profile_name-visible :
    (p : VisiblePermissionProfileId) → is_internal_permission_profile (shown_profile p) ≡ false
unfolding is_internal_permission_profile lookup_field
profile_name-visible danger_full_access = refl
profile_name-visible read_only = refl
profile_name-visible workspace = refl

undefined-visible : is_internal_permission_profile undefined ≡ false
unfolding is_internal_permission_profile
undefined-visible = refl

project_thread-hides :
    (key : String) (v : Value) (p : RemotePermissionPresentation)
    → is_internal_permission_profile
        (at "activePermissionProfile" (or_value (project_thread key v p) v))
      ≡ false
unfolding project_thread
project_thread-hides key v p = elim (Bool-cases (is_record v)) [
  | inr no_record ↦
      rw (no_record, at-not_record "activePermissionProfile" v no_record) undefined-visible
  | inl holds ↦
      elim (Bool-cases (is_internal_permission_profile (at "activePermissionProfile" v))) [
        | inr other ↦ rw (holds, other) other
        | inl internal ↦
            let inner =
              set_field key (sandbox_policy p.profile_id)
                (set_field "approvalPolicy" (str p.approval_policy) (fields_of v)) in
            rw
              (
                holds,
                internal,
                lookup_field-set_field "activePermissionProfile" "activePermissionProfile"
                    (shown_profile p.profile_id) inner,
              )
              (profile_name-visible p.profile_id)
      ]
]

-- The message that carries new settings of a thread.
settings_message :
    (message : Value) (thread : String) (t : RemoteApprovalPolicyTracker)
    → is_text "thread/settings/updated" (at "method" message) ≡ true
    → is_record (at "params" message) ≡ true
    → text_of (at "threadId" (at "params" message)) ≡ some thread
    → at "threadSettings" (at "params" (project_notification message t))
      ≡ or_value
          (project_thread "sandboxPolicy"
            (at "threadSettings" (at "params" message))
            (presentation_for_thread thread t))
          (at "threadSettings" (at "params" message))
unfolding project_notification
settings_message message thread t method params named =
    let settings = at "threadSettings" (at "params" message) in
    elim (Option-cases
      (project_thread "sandboxPolicy" settings (presentation_for_thread thread t))) [
        | inl same ↦ rw (project_notification, method, params, named, same) refl
        | inr (new, changes) ↦
            rw (project_notification, method, params, named, changes)
              (ap (at "threadSettings") (
                  part-with_part "params" message
                    (some (obj (set_field "threadSettings" new (fields_of (at "params" message))))))
                ∙ lookup_field-set_field "threadSettings" "threadSettings" new
                    (fields_of (at "params" message)))
      ]

-- A notification of a thread's new settings, whatever they hold: VS Code is never shown the internal
-- profile as the thread's active one.
pub project_server_message-settings :
    (message : Value) (thread : String) (t : RemoteApprovalPolicyTracker)
    → is_rpc_response message ≡ false
    → is_text "thread/settings/updated" (at "method" message) ≡ true
    → is_record (at "params" message) ≡ true
    → text_of (at "threadId" (at "params" message)) ≡ some thread
    → is_internal_permission_profile (
        at "activePermissionProfile"
          (at "threadSettings" (at "params" (project_server_message message t).1)))
      ≡ false
unfolding project_server_message
project_server_message-settings message thread t notifies method params named =
    let p = presentation_for_thread thread t in
    let settings = at "threadSettings" (at "params" message) in
    rw notifies (
      ap (λ x. is_internal_permission_profile (at "activePermissionProfile" x))
        (settings_message message thread t method params named)
      ∙ project_thread-hides "sandboxPolicy" settings p)
