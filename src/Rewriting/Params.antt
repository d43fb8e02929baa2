-- ===== src/Rewriting/Params.antt =====
-- What the parameters of a session are, name by name, behind src/shim/rewrite.ts.
use remote_codex.Base.{
  String, ◌≡◌, refl, ◌∙◌, inl, inr, Bool, false, ◌&&◌, ◌||◌, Option, none, some, arith,
  if◌then◌else◌, Bool-cases, ◌==◌, nat_key, string_key,
}
use remote_codex.Json.{
  Value, undefined, str, Fields, is_text, is_undefined, lookup_field, set_field,
  lookup_field-set_field, lookup_field-delete_field,
}
use remote_codex.Config.{BridgeConfig}
use remote_codex.Rewriting.{
  with_remote_session_policy, session_params, thread_params, start_params, turn_params,
  settings_params, Notes, read_only_policy,
}

-- The names under which the rewriting puts what the bridge has to tell, beside `cwd`.
abbrev pub is_told : String → Bool
is_told key =
    "runtimeWorkspaceRoots" == key
    || "developerInstructions" == key
    || "dynamicTools" == key
    || "additionalContext" == key

-- What a remote session may do: no sandbox of its own, which would be the local host's.
abbrev pub remote_value : Fields → String → Value
remote_value params key =
    if "permissions" == key
    then str ":danger-full-access"
    else if "approvalPolicy" == key
    then str "never"
    else if "sandboxPolicy" == key || "sandbox" == key || "config" == key
    then undefined
    else lookup_field key params

-- What a local session may do, with a sandbox and with a policy for it.
abbrev pub local_value : Value → Value → Fields → String → Value
local_value sandbox policy params key =
    if "sandbox" == key
    then sandbox
    else if "sandboxPolicy" == key
    then policy
    else if "permissions" == key || "config" == key
    then undefined
    else if "approvalPolicy" == key
        && is_text "full-access" (lookup_field "permissions" params)
        && is_undefined (lookup_field "approvalPolicy" params)
    then str "never"
    else lookup_field key params

==_apart : (a b key : String) → (a == b) ≡ false → (a == key) && (b == key) ≡ false
==_apart a b key h =
    ground (arith, string_key.same_iff a b, string_key.same_iff a key, string_key.same_iff b key)

lookup_field-set_field_if :
    (j k : String) (b : Bool) (v : Value) (fs : Fields)
    → lookup_field j (if b then set_field k v fs else fs)
      ≡ (if (k == j) && b then v else lookup_field j fs)
lookup_field-set_field_if j k b v fs = elim (Bool-cases b) [
  | inl t ↦ rw t (lookup_field-set_field j k v fs ∙ ground arith)
  | inr f ↦ rw f (ground arith)
]

remote_policy_lem :
    (params : Fields) (config : BridgeConfig) (key : String)
    → lookup_field key (with_remote_session_policy params (some config)) ≡ remote_value params key
unfolding with_remote_session_policy
remote_policy_lem params config key =
    rw
      (
        lookup_field-set_field key "permissions",
        lookup_field-set_field key "approvalPolicy",
        lookup_field-delete_field key "sandboxPolicy",
        lookup_field-delete_field key "sandbox",
        lookup_field-delete_field key "config",
      )
      (ground arith)

local_policy_lem :
    (params : Fields) (key : String)
    → lookup_field key (with_remote_session_policy params none)
      ≡ local_value undefined undefined params key
unfolding with_remote_session_policy
local_policy_lem params key =
    rw
      (
        lookup_field-delete_field key "permissions",
        lookup_field-set_field_if key "approvalPolicy",
        lookup_field-delete_field key "sandboxPolicy",
        lookup_field-delete_field key "sandbox",
        lookup_field-delete_field key "config",
      )
      (ground (
        arith,
        ==_apart "permissions" "sandbox" key refl,
        ==_apart "permissions" "sandboxPolicy" key refl,
        ==_apart "approvalPolicy" "sandbox" key refl,
        ==_apart "approvalPolicy" "sandboxPolicy" key refl,
        ==_apart "approvalPolicy" "config" key refl,
      ))

unfoldable pub session_sandbox : String → Value
session_sandbox method =
    if method == "turn/start" || method == "thread/settings/update"
    then undefined
    else str "read-only"

unfoldable pub session_sandbox_policy : String → Value
session_sandbox_policy method = if method == "turn/start" then read_only_policy else undefined

-- What stands at a name, other than those of `is_told`, behind the rewriting of a session's parameters.
unfoldable pub confined_value : String → Option BridgeConfig → String → Fields → String → Value
confined_value method config control_dir params key =
    if "cwd" == key then str control_dir else elim config [
      | some c ↦ remote_value params key
      | none ↦ local_value (session_sandbox method) (session_sandbox_policy method) params key
    ]

pub settings_params-confined_value :
    (params : Fields) (config : Option BridgeConfig) (control_dir key : String)
    → lookup_field key (settings_params params config control_dir)
      ≡ confined_value "thread/settings/update" config control_dir params key
unfolding settings_params confined_value session_sandbox session_sandbox_policy
settings_params-confined_value params (some c) control_dir key =
    rw (lookup_field-set_field key "cwd", remote_policy_lem params c key) refl
settings_params-confined_value params none control_dir key =
    rw (lookup_field-set_field key "cwd", local_policy_lem params key) refl

module _ (params : Fields) (control_dir root key : String) (u : is_told key ≡ false) where
  is_no_root : ("runtimeWorkspaceRoots" == key) ≡ false
  is_no_root = ground arith

  is_no_instruction : ("developerInstructions" == key) ≡ false
  is_no_instruction = ground arith

  is_no_tool : ("dynamicTools" == key) ≡ false
  is_no_tool = ground arith

  is_no_context : ("additionalContext" == key) ≡ false
  is_no_context = ground arith

  session_params_lem :
      (config : Option BridgeConfig)
      → lookup_field key (session_params params config control_dir root) ≡ (
          if "cwd" == key
          then str control_dir
          else lookup_field key (with_remote_session_policy params config))
  unfolding session_params
  session_params_lem config =
      rw
        (
          lookup_field-set_field key "runtimeWorkspaceRoots",
          is_no_root,
          lookup_field-set_field key "cwd",
        )
        refl

  module _ (notes : Notes) where
    pub thread_params-confined_value :
        (method : String) (config : Option BridgeConfig)
        → session_sandbox method ≡ str "read-only"
        → session_sandbox_policy method ≡ undefined
        → lookup_field key (thread_params notes params config control_dir root)
          ≡ confined_value method config control_dir params key
    unfolding thread_params confined_value
    thread_params-confined_value method (some c) s p =
        rw
          (
            lookup_field-set_field key "developerInstructions",
            is_no_instruction,
            session_params_lem (some c),
            remote_policy_lem params c key,
          )
          refl
    thread_params-confined_value method none s p =
        rw
          (
            lookup_field-set_field key "sandbox",
            session_params_lem none,
            local_policy_lem params key,
            s,
            p,
          )
          (ground (arith, ==_apart "cwd" "sandbox" key refl))

    pub start_params-confined_value :
        (config : Option BridgeConfig)
        → lookup_field key (start_params notes params config control_dir root)
          ≡ confined_value "thread/start" config control_dir params key
    unfolding start_params session_sandbox session_sandbox_policy
    start_params-confined_value (some c) =
        rw (lookup_field-set_field key "dynamicTools", is_no_tool)
          (thread_params-confined_value "thread/start" (some c) refl refl)
    start_params-confined_value none = thread_params-confined_value "thread/start" none refl refl

    pub turn_params-confined_value :
        (config : Option BridgeConfig)
        → lookup_field key (turn_params notes params config control_dir root)
          ≡ confined_value "turn/start" config control_dir params key
    unfolding turn_params confined_value session_sandbox session_sandbox_policy
    turn_params-confined_value (some c) =
        rw
          (
            lookup_field-set_field key "additionalContext",
            is_no_context,
            session_params_lem (some c),
            remote_policy_lem params c key,
          )
          refl
    turn_params-confined_value none =
        rw
          (
            lookup_field-set_field key "sandboxPolicy",
            session_params_lem none,
            local_policy_lem params key,
          )
          (ground (
            arith,
            ==_apart "cwd" "sandboxPolicy" key refl,
            ==_apart "sandbox" "sandboxPolicy" key refl,
          ))
