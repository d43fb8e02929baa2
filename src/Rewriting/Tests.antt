-- ===== src/Rewriting/Tests.antt =====
-- Requests that src/shim/rewrite.ts rewrites, and a witness of its theorem.
use remote_codex.Base.{String, ◌≡◌, refl, true, none, some, [], ◌∷◌, nat_key, string_key}
use remote_codex.Json.{
  Value, Fields, str, bool, num, obj, field, end, item, no_items, at, lookup_field, has_field,
  set_field, delete_field,
}
use remote_codex.Config.{
  BridgeConfig, WorkspaceTarget, remote_target, local_target, primary, vscode_remote,
  enabled_access, auto_routing,
}
use remote_codex.Rewriting.{
  Notes, runtime_workspace_root, remote_primary_root, thread_params, session_params,
  with_remote_session_policy, join_texts, append_tools, names_one_of,
}
use remote_codex.Rewriting.Sending.{
  rewrite_client_message, rewrite_params, with_root, sent, scope_thread_list_to_workspace,
}
use remote_codex.Rewriting.Laws.{sent_value, rewrite_client_message-confined_value}
use remote_codex.Rewriting.Params.{confined_value}

abbrev notes : Notes
notes = record {
  dynamic_tools = item (obj (field "name" (str "remote_exec") end)) no_items;
  editor_context = none;
  has_inventory = true;
  remote_policy = (λ config. "policy");
  tool_routes = "routes";
}

-- The configuration of a project of the host, as it stands in the settings.
abbrev project : WorkspaceTarget → BridgeConfig
project target = record {
  command_timeout_ms = 60000;
  connect_timeout_seconds = 10;
  connection_mode = vscode_remote;
  host = "build";
  identity_file = none;
  max_output_bytes = 1048576;
  max_parallel_reads = 4;
  remote_mcp_access = enabled_access;
  remote_mcp_routing = auto_routing;
  roots =
      record {
        display_name = "project";
        id = "primary";
        path = "/srv/project";
        role = primary;
        target = target;
      }
      ∷ [];
  ssh_executable = "ssh";
  ssh_port = none;
  ssh_user = none;
  vscode_transport = none;
  workspace_root = "/srv/project";
}

abbrev wishes : Fields
wishes = field "sandbox" (str "danger-full-access") (
    field "config" (obj end) (
      field "cwd" (str "/")
        (field "model" (str "m") (field "developerInstructions" (str "mine") end))))

abbrev escape : String → Value
escape method =
    obj (field "method" (str method) (field "id" (num 1) (field "params" (obj wishes) end)))

rewrite_client_message-confined_value_example :
    sent_value "sandbox" (
      sent
        (escape "thread/resume")
        (rewrite_client_message notes (escape "thread/resume") none "/control"))
    ≡ some (confined_value "thread/resume" none "/control" wishes "sandbox")
unfolding lookup_field
rewrite_client_message-confined_value_example =
    rewrite_client_message-confined_value notes none "/control" "sandbox" (escape "thread/resume")
      "thread/resume" refl refl refl refl refl

sandbox_is_read_only :
    sent_value "sandbox" (
      sent
        (escape "thread/resume")
        (rewrite_client_message notes (escape "thread/resume") none "/control"))
    ≡ some (str "read-only")
unfolding rewrite_client_message rewrite_params with_root runtime_workspace_root thread_params
    session_params with_remote_session_policy lookup_field has_field set_field delete_field
sandbox_is_read_only = refl

instructions_are_joined :
    sent_value "developerInstructions" (
      sent (escape "thread/fork") (
        rewrite_client_message notes
          (escape "thread/fork")
          (some (project remote_target))
          "/control"))
    ≡ some (str "policy\n\nmine")
unfolding rewrite_client_message rewrite_params with_root runtime_workspace_root remote_primary_root
    join_texts thread_params session_params with_remote_session_policy lookup_field has_field
    set_field delete_field
instructions_are_joined = refl

-- A configuration without a remote primary root.
error_is_thrown :
    sent
      (escape "turn/start")
      (rewrite_client_message notes (escape "turn/start") (some (project local_target)) "/control")
    ≡ none
unfolding rewrite_client_message rewrite_params with_root runtime_workspace_root remote_primary_root
    lookup_field has_field
error_is_thrown = refl

windows_root :
    runtime_workspace_root (some (project remote_target)) "C:\\control" ≡ some "C:\\control"
unfolding runtime_workspace_root
windows_root = refl

server_root :
    runtime_workspace_root (some (project remote_target)) "\\\\server\\share"
    ≡ some "\\\\server\\share"
unfolding runtime_workspace_root
server_root = refl

posix_root :
    runtime_workspace_root (some (project remote_target)) "\\\\server\\" ≡ some "/srv/project"
unfolding runtime_workspace_root remote_primary_root
posix_root = refl

-- A tool of the client that has the name of one of the bridge's is left out.
tools_are_merged :
    append_tools notes.dynamic_tools (
      item
        (obj (field "name" (str "remote_exec") (field "mine" (bool true) end)))
        (item (obj (field "name" (str "other") end)) no_items))
    ≡ item (obj (field "name" (str "other") end)) notes.dynamic_tools
unfolding append_tools names_one_of lookup_field
tools_are_merged = refl

thread_list_is_scoped :
    at "cwd"
      (at "params" (scope_thread_list_to_workspace (escape "thread/list") (some "/srv/project")))
    ≡ str "/srv/project"
unfolding scope_thread_list_to_workspace lookup_field has_field set_field
thread_list_is_scoped = refl
