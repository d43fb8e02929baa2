-- ===== src/Approval/Tracker.antt =====
-- src/shim/remote-approval-policy.ts: which approvals VS Code asks for, thread by thread. A message is
-- a JSON value, tested as src/shim/rpc.ts does.
use remote_codex.Base.{
  String, Bool, true, false, not, ◌||◌, Option, none, some, List, [], ◌∷◌, if◌then◌else◌, ◌==◌,
  nat_key, string_key, includes, Dict, get, set, delete, has, add, remove,
}
use remote_codex.Json.{Value, undefined, null, is_record, at, text_of, is_text}
use remote_codex.Rpc.{RpcId, rpc_id_key, is_rpc_request, is_rpc_response, id_of}

pub data VisiblePermissionProfileId : Type 0 where
  danger_full_access read_only workspace : VisiblePermissionProfileId

pub data RemoteApprovalMode : Type 0 where
  ask never : RemoteApprovalMode

pub record RemotePermissionPresentation : Type 0 where
  pub approval_policy : String
  pub profile_id : VisiblePermissionProfileId

abbrev pub default_presentation : RemotePermissionPresentation
default_presentation = record { approval_policy = "on-request"; profile_id = workspace }

-- `a ?? b`.
abbrev pub or_else {ℓ} : {A : Type ℓ} → Option A → Option A → Option A
or_else none b = b
or_else (some a) b = some a

abbrev pub or_value {ℓ} : {A : Type ℓ} → Option A → A → A
or_value none b = b
or_value (some a) b = a

unfoldable pub profile_from_value : Value → Option VisiblePermissionProfileId
profile_from_value v =
    if is_text "full-access" v
      || is_text "danger-full-access" v
      || is_text "dangerFullAccess" v
      || is_text ":danger-full-access" v
    then some danger_full_access
    else if is_text "read-only" v || is_text "readOnly" v || is_text ":read-only" v
    then some read_only
    else if is_text "workspace-write" v || is_text "workspaceWrite" v || is_text ":workspace" v
    then some workspace
    else none

-- A property of what may be no record is `undefined`.
unfoldable pub profile_from_params : Value → Option VisiblePermissionProfileId
profile_from_params params = or_else (profile_from_value (at "type" (at "sandboxPolicy" params))) (
    or_else (profile_from_value (at "sandbox" params)) (
      or_else (profile_from_value (at "permissions" params)) (
        or_else (profile_from_value (at "id" (at "activePermissionProfile" params)))
          (profile_from_value (at "sandbox_mode" (at "config" params))))))

abbrev pub is_absent : Value → Bool
is_absent undefined = true
is_absent null = true
is_absent _ = false

-- The profile that alone decides the approval policy.
unfoldable pub deciding_profile : Value → Option VisiblePermissionProfileId
deciding_profile params =
    or_else (profile_from_value (at "permissions" params))
      (profile_from_value (at "id" (at "activePermissionProfile" params)))

-- The rest of `approvalPolicyFromParams`, for a policy that is no text.
unfoldable pub policy_without_text : Value → Option String
policy_without_text params = elim (deciding_profile params) [
  | some danger_full_access ↦ some "never"
  | some read_only ↦ some "on-request"
  | some workspace ↦ some "on-request"
  | none ↦
      if not (is_absent (at "approvalPolicy" params))
      then some "on-request"
      else elim (text_of (at "permissions" params)) [ some s ↦ some "on-request" | none ↦ none ]
]

unfoldable pub approval_policy_from_params : Value → Option String
approval_policy_from_params params = elim (text_of (at "approvalPolicy" params)) [
  | some policy ↦ some policy
  | none ↦ policy_without_text params
]

unfoldable pub permission_presentation :
    Value → RemotePermissionPresentation → RemotePermissionPresentation
permission_presentation params fallback = record {
  approval_policy = or_value (approval_policy_from_params params) fallback.approval_policy;
  profile_id = or_value (profile_from_params params) fallback.profile_id;
}

pub record RemoteApprovalPolicyTracker : Type 0 where
  pub pending_thread_starts : Dict RpcId RemotePermissionPresentation
  pub pending_permission_profile_lists : List RpcId
  pub permission_profile_list_responses : List RpcId
  pub thread_presentations : Dict String RemotePermissionPresentation

abbrev pub init : RemoteApprovalPolicyTracker
init = record {
  pending_thread_starts = [];
  pending_permission_profile_lists = [];
  permission_profile_list_responses = [];
  thread_presentations = [];
}

unfoldable pub presentation_for_thread :
    String → RemoteApprovalPolicyTracker → RemotePermissionPresentation
presentation_for_thread id t = or_value (get id t.thread_presentations) default_presentation

unfoldable pub start_thread :
    RpcId → RemotePermissionPresentation → RemoteApprovalPolicyTracker → RemoteApprovalPolicyTracker
start_thread id p t = record t { pending_thread_starts = set id p t.pending_thread_starts }

-- What `thread/fork` starts from.
unfoldable pub fork_fallback : Value → RemoteApprovalPolicyTracker → RemotePermissionPresentation
fork_fallback params t = elim (text_of (at "threadId" params)) [
  | some id ↦ presentation_for_thread id t
  | none ↦ default_presentation
]

-- The branch of the requests that change a thread's settings.
unfoldable pub update_thread : Value → RemoteApprovalPolicyTracker → RemoteApprovalPolicyTracker
update_thread params t = elim (text_of (at "threadId" params)) [
  | none ↦ t
  | some id ↦ record t {
    thread_presentations =
        set id (permission_presentation params (presentation_for_thread id t))
          t.thread_presentations;
  }
]

-- `observeClientMessage`, for a request with an id, a method and parameters.
unfoldable pub observe_request :
    RpcId → String → Value → RemoteApprovalPolicyTracker → RemoteApprovalPolicyTracker
observe_request id method params t =
    if method == "permissionProfile/list"
    then record t { pending_permission_profile_lists = add id t.pending_permission_profile_lists }
    else if method == "thread/start"
    then start_thread id (permission_presentation params default_presentation) t
    else if method == "thread/fork"
    then start_thread id (permission_presentation params (fork_fallback params t)) t
    else if includes method ("thread/resume" ∷ "thread/settings/update" ∷ "turn/start" ∷ [])
    then update_thread params t
    else t

unfoldable pub observe_client_message :
    Value → RemoteApprovalPolicyTracker → RemoteApprovalPolicyTracker
observe_client_message message t =
    if not (is_rpc_request message) || not (is_record (at "params" message))
    then t
    else elim (id_of message) [
      | none ↦ t
      | some id ↦ elim (text_of (at "method" message)) [
        | none ↦ t
        | some method ↦ observe_request id method (at "params" message) t
      ]
    ]

-- The first half of `observeServerMessage`: a listing that is answered.
unfoldable pub note_listing : RpcId → RemoteApprovalPolicyTracker → RemoteApprovalPolicyTracker
note_listing id t =
    if has id t.pending_permission_profile_lists
    then record t {
      pending_permission_profile_lists = remove id t.pending_permission_profile_lists;
      permission_profile_list_responses = add id t.permission_profile_list_responses;
    }
    else t

-- The second half: a thread that has been started.
unfoldable pub note_start :
    RpcId → Value → RemoteApprovalPolicyTracker → RemoteApprovalPolicyTracker
note_start id message t = elim (get id t.pending_thread_starts) [
  | none ↦ t
  | some p ↦ elim (text_of (at "id" (at "thread" (at "result" message)))) [
    | none ↦ record t { pending_thread_starts = delete id t.pending_thread_starts }
    | some thread ↦ record t {
      pending_thread_starts = delete id t.pending_thread_starts;
      thread_presentations = set thread p t.thread_presentations;
    }
  ]
]

unfoldable pub observe_server_message :
    Value → RemoteApprovalPolicyTracker → RemoteApprovalPolicyTracker
observe_server_message message t =
    if not (is_rpc_response message)
    then t
    else elim (id_of message) [ none ↦ t | some id ↦ note_start id message (note_listing id t) ]

unfoldable pub mode_for_thread : String → RemoteApprovalPolicyTracker → RemoteApprovalMode
mode_for_thread id t =
    if (presentation_for_thread id t).approval_policy == "never" then never else ask

unfoldable pub requires_approval : String → RemoteApprovalPolicyTracker → Bool
requires_approval id t = elim (mode_for_thread id t) [ never ↦ false | ask ↦ true ]
