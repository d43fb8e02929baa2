-- ===== src/Config/Parse.antt =====
-- `parseWorkspaceRoots` and `parseBridgeConfig` of src/core/config.ts.
use remote_codex.Base.{
  ℕ, suc, String, Bool, not, ◌||◌, Option, none, some, List, [], ◌∷◌, ltb, nat_eq, if◌then◌else◌,
  ◌==◌, nat_key, string_key, filter_by, has, add,
}
use Prim.Native.String.{◌++◌ as ◌<>◌}
use text.Mathlib.Text.{starts_with}
use remote_codex.Errors.{Result, ok, err, bridge_error, BridgeErrorCode, ◌>>=◌, ◌>>◌, throw_if}
use remote_codex.Json.{
  Value, str, arr, Items, no_items, item, is_record, at, is_text, is_undefined, is_null,
}
use remote_codex.Background.Calls.{codes}
use remote_codex.Background.Registry.{TaskKey, pair_key}
use remote_codex.Config.Text.{trim, is_blank, text_length}
use remote_codex.Config.Roots.{
  normalized_remote_root, default_remote_primary_root, parse_workspace_root, path_api,
}
use remote_codex.Config.{
  WorkspaceRootConfig, PathApi, required_string, is_ssh_user, is_primary, is_remote, target_name,
  BridgeConfig, ConnectionMode, openssh, vscode_remote, auto_routing, local_routing, enabled_access,
  all_access, VsCodeTransportDescriptor, parse_host, integer_in_range, is_choice, is_number_of,
}

abbrev invalid_config : BridgeErrorCode
invalid_config = BridgeErrorCode.invalid_config

-- What the loop over the roots keeps in `rootPaths`: the source joins the two texts by a NUL, which is in
-- neither.
abbrev pub path_identity : WorkspaceRootConfig → TaskKey
path_identity r = (target_name r.target, r.path)

-- The loop over the roots, with the ids and the paths that it has seen.
unfoldable pub check_unique :
    List WorkspaceRootConfig → List String → List TaskKey → Result (Unit {0})
check_unique [] ids paths = ok tt
check_unique (r ∷ roots) ids paths =
    throw_if (has r.id ids) invalid_config ("Duplicate root id: " <> r.id)
    >> (throw_if (has (path_identity r) paths) invalid_config
          ("Duplicate " <> (target_name r.target <> (" root path: " <> r.path)))
        >> check_unique roots (add r.id ids) (add (path_identity r) paths))

-- `primaryRoots`, and the path of the one that there has to be.
unfoldable pub primary_path : List WorkspaceRootConfig → Result String
primary_path (r ∷ []) =
    throw_if (not (is_remote r.target)) invalid_config
      "roots must contain exactly one remote primary root"
    >> ok r.path
primary_path _ =
    err (bridge_error invalid_config "roots must contain exactly one remote primary root")

abbrev pub primary_root : List WorkspaceRootConfig → Result String
primary_root roots = primary_path (filter_by is_primary roots)

abbrev pub items_length : Items → ℕ
items_length no_items = 0
items_length (item v vs) = suc (items_length vs)

-- The items of an array of 1 to 16, if it is one.
unfoldable pub root_items : Value → Result Items
root_items (arr vs) =
    throw_if (nat_eq (items_length vs) 0 || ltb 16 (items_length vs)) invalid_config
      "roots must contain from 1 to 16 root records"
    >> ok vs
root_items _ = err (bridge_error invalid_config "roots must contain from 1 to 16 root records")

-- `undefined`, null and the empty text stand for nothing.
abbrev pub is_nothing : Value → Bool
is_nothing v = is_undefined v || is_null v || is_text "" v

module _ (posix win32 : PathApi) where
  unfoldable pub parse_all : Items → ℕ → Result (List WorkspaceRootConfig)
  parse_all no_items index = ok []
  parse_all (item v vs) index = parse_workspace_root posix win32 v index >>= λ root.
      parse_all vs (suc index) >>= λ rest. ok (root ∷ rest)

  unfoldable pub check_workspace_root : Value → String → Result (Unit {0})
  check_workspace_root v root =
      if is_undefined v
      then ok tt
      else normalized_remote_root posix win32 v "workspaceRoot" >>= λ path.
          throw_if (not (path == root)) invalid_config
            "workspaceRoot must match the remote primary root path"

  unfoldable pub parse_workspace_roots : Value → Bool → Result (List WorkspaceRootConfig × String)
  parse_workspace_roots v is_version_1 =
      if is_version_1
      then throw_if (not (is_undefined (at "roots" v))) invalid_config
          "roots require bridge configuration version 2"
        >> (normalized_remote_root posix win32 (at "workspaceRoot" v) "workspaceRoot" >>= λ root.
            ok (default_remote_primary_root posix win32 root ∷ [], root))
      else root_items (at "roots" v) >>= λ items. parse_all items 0 >>= λ roots.
          check_unique roots [] []
          >> (primary_root roots >>= λ root.
              check_workspace_root (at "workspaceRoot" v) root >> ok (roots, root))

  unfoldable pub parse_identity_file : Value → Result (Option String)
  parse_identity_file v =
      if is_nothing v
      then ok none
      else required_string v "identityFile" >>= λ file.
          let api = path_api posix win32 file in
          throw_if (not (api.is_absolute file) || not (api.normalize file == file)) invalid_config
            "identityFile must be a normalized absolute local path"
          >> ok (some file)

-- The tests between the roots and `sshUser`.
unfoldable pub check_choices : Value → Result (Unit {0})
check_choices v =
    throw_if (not (is_choice "deny" "allow" (at "localExecution" v))) invalid_config
      "localExecution must be allow"
    >> (throw_if (not (is_choice "openssh" "vscode-remote" (at "connectionMode" v))) invalid_config
          "connectionMode must be vscode-remote or openssh"
        >> (throw_if (not (is_choice "none" "vscode-extension" (at "remoteHelper" v)))
              invalid_config "remoteHelper must be none or vscode-extension"
            >> (throw_if
                  (not (
                    is_undefined (at "maxParallelWrites" v)
                    || is_number_of 1 (at "maxParallelWrites" v)))
                  invalid_config "maxParallelWrites is fixed to 1"
                >> (throw_if (not (is_choice "auto" "local" (at "remoteMcpRouting" v)))
                      invalid_config "remoteMcpRouting must be auto or local"
                    >> throw_if (not (is_choice "enabled" "all" (at "remoteMcpAccess" v)))
                        invalid_config "remoteMcpAccess must be enabled or all"))))

unfoldable pub parse_ssh_user : Value → Result (Option String)
parse_ssh_user v =
    if is_nothing v
    then ok none
    else required_string v "sshUser" >>= λ user.
        throw_if (not (is_ssh_user (codes user)) || starts_with user "-") invalid_config
          "sshUser contains unsupported characters"
        >> ok (some user)

unfoldable pub parse_ssh_port : Value → Result (Option ℕ)
parse_ssh_port v =
    if is_undefined v || is_null v
    then ok none
    else integer_in_range v 22 1 65535 "sshPort must be an integer from 1 to 65535" >>= λ port.
        ok (some port)

abbrev pub helper_name : ConnectionMode → String
helper_name openssh = "none"
helper_name vscode_remote = "vscode-extension"

unfoldable pub parse_connection_mode : Value → ConnectionMode
parse_connection_mode v = if is_text "vscode-remote" v then vscode_remote else openssh

unfoldable pub check_helper : Value → ConnectionMode → Result (Unit {0})
check_helper v mode =
    throw_if (not (is_undefined v || is_text (helper_name mode) v)) invalid_config
      "remoteHelper does not match the selected connectionMode"

unfoldable pub parse_transport : Value → Result (Option VsCodeTransportDescriptor)
parse_transport v =
    if is_undefined v
    then ok none
    else throw_if (not (is_record v)) invalid_config "vscodeTransport must be an object"
      >> (required_string (at "endpoint" v) "vscodeTransport.endpoint" >>= λ endpoint.
          required_string (at "sessionId" v) "vscodeTransport.sessionId" >>= λ session_id.
          required_string (at "token" v) "vscodeTransport.token" >>= λ token.
          throw_if (ltb (text_length token) 32) invalid_config
            "vscodeTransport.token must contain at least 32 characters"
          >> ok (some (record { endpoint = endpoint; session_id = session_id; token = token })))

unfoldable pub check_transport :
    Option VsCodeTransportDescriptor → ConnectionMode → Result (Unit {0})
check_transport (some t) openssh = err (
    bridge_error invalid_config
      "vscodeTransport is only valid with the vscode-remote connection mode")
check_transport _ _ = ok tt

abbrev pub parse_ssh_executable : Value → String
parse_ssh_executable (str s) = if is_blank (trim s) then "ssh" else s
parse_ssh_executable _ = "ssh"

unfoldable pub check_version : Value → Result (Unit {0})
check_version v =
    throw_if (not (is_undefined v || is_number_of 1 v || is_number_of 2 v)) invalid_config
      "Unsupported bridge configuration version"

module _ (posix win32 : PathApi) where
  unfoldable pub parse_bridge_config : Value → Result BridgeConfig
  parse_bridge_config v =
      throw_if (not (is_record v)) invalid_config "Bridge configuration must be an object"
      >> (parse_host v >>= λ host.
          check_version (at "version" v)
          >> (parse_workspace_roots posix win32 v (not (is_number_of 2 (at "version" v)))
              >>= λ located.
                  check_choices v
                  >> (parse_ssh_user (at "sshUser" v) >>= λ user.
                      parse_ssh_port (at "sshPort" v) >>= λ port.
                      parse_identity_file posix win32 (at "identityFile" v) >>= λ identity.
                      let mode = parse_connection_mode (at "connectionMode" v) in
                      check_helper (at "remoteHelper" v) mode
                      >> (parse_transport (at "vscodeTransport" v) >>= λ transport.
                          check_transport transport mode
                          >> (integer_in_range (at "commandTimeoutMs" v) 120000 1000 3600000
                                "commandTimeoutMs must be an integer from 1000 to 3600000"
                              >>= λ command_timeout_ms.
                                  integer_in_range (at "maxOutputBytes" v) 10485760 1024 104857600
                                    "maxOutputBytes must be an integer from 1024 to 104857600"
                                  >>= λ max_output_bytes.
                                      integer_in_range (at "maxParallelReads" v) 8 1 64
                                        "maxParallelReads must be an integer from 1 to 64"
                                      >>= λ max_parallel_reads.
                                          integer_in_range (at "connectTimeoutSeconds" v) 10 1 120
                                            "connectTimeoutSeconds must be an integer from 1 to 120"
                                          >>= λ connect_timeout_seconds. ok (record {
                                            command_timeout_ms = command_timeout_ms;
                                            connect_timeout_seconds = connect_timeout_seconds;
                                            connection_mode = mode;
                                            host = host;
                                            identity_file = identity;
                                            max_output_bytes = max_output_bytes;
                                            max_parallel_reads = max_parallel_reads;
                                            remote_mcp_access =
                                                if is_text "all" (at "remoteMcpAccess" v)
                                                then all_access
                                                else enabled_access;
                                            remote_mcp_routing =
                                                if is_text "local" (at "remoteMcpRouting" v)
                                                then local_routing
                                                else auto_routing;
                                            roots = located.0;
                                            ssh_executable =
                                                parse_ssh_executable (at "sshExecutable" v);
                                            ssh_port = port;
                                            ssh_user = user;
                                            vscode_transport = transport;
                                            workspace_root = located.1;
                                          }))))))
