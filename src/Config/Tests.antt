-- ===== src/Config/Tests.antt =====
-- Configurations that src/core/config.ts reads, and witnesses of the theorems on it.
use remote_codex.Base.{String, ◌≡◌, refl, none, some, [], ◌∷◌, string_key, nat_key, add, has}
use text.Mathlib.Text.{starts_with}
use remote_codex.Errors.{ok, err, BridgeErrorCode, bridge_error, ◌>>=◌, ◌>>◌, throw_if}
use remote_codex.Json.{Value, num, str, obj, arr, no_items, item, field, end, lookup_field}
use remote_codex.Config.Accepted.{parse_bridge_config-IsConfig, parse_bridge_config-IsShown}
use remote_codex.Config.RoundTrip.{parse_bridge_config-config_value}
use remote_codex.Config.Rejected.{parse_bridge_config-invalid_config}
use remote_codex.Config.Parse.{
  parse_bridge_config, check_version, parse_workspace_roots, check_choices, parse_ssh_user,
  parse_ssh_port, check_helper, check_transport, check_unique, check_workspace_root, parse_all,
  parse_connection_mode, parse_identity_file, parse_transport, primary_path, root_items,
}
use remote_codex.Config.Roots.{
  normalized_remote_root, is_remote_root, default_remote_primary_root, is_local_root,
  normalized_local_root, parse_display_name, parse_id, parse_path, parse_role, parse_target,
  parse_workspace_root,
}
use remote_codex.Config.Text.{trim, trim_end, trim_start, is_space, decimal, text_length, units}
use remote_codex.Config.Printed.{config_value, IsConfig}
use remote_codex.Config.{
  PathApi, parse_host, required_string, is_bad_host, integer_in_range, BridgeConfig, remote_target,
  local_target, primary, secondary, vscode_remote, enabled_access, auto_routing,
}

-- The path of a directory below the root, whose name is all behind the slash.
abbrev name_of : String → String
name_of String.[] = ""
name_of (String.◌∷◌ c s) = s

abbrev slashes : PathApi
slashes = record {
  basename = name_of;
  is_absolute = (λ s. starts_with s "/");
  normalize = (λ s. s);
  root_of = (λ s. "/");
}

abbrev given : Value
given = obj (
    field "version" (num 2) (
      field "host" (str " build ") (
        field "sshUser" (str "alu") (
          field "sshPort" (num 2222) (
            field "commandTimeoutMs" (num 5000) (
              field "connectionMode" (str "vscode-remote") (
                field "roots"
                  (arr (
                    item
                      (obj (
                        field "id" (str "remote-primary") (
                          field "target" (str "remote") (
                            field "role" (str "primary") (
                              field "path" (str "/work")
                                (field "displayName" (str "work ") end))))))
                      (item
                        (obj (
                          field "id" (str "local-full-access") (
                            field "target" (str "local") (
                              field "role" (str "secondary")
                                (field "path" (str "/") (field "displayName" (str "Local") end))))))
                        no_items)))
                  end)))))))

abbrev held : BridgeConfig
held = record {
  command_timeout_ms = 5000;
  connect_timeout_seconds = 10;
  connection_mode = vscode_remote;
  host = "build";
  identity_file = none;
  max_output_bytes = 10485760;
  max_parallel_reads = 8;
  remote_mcp_access = enabled_access;
  remote_mcp_routing = auto_routing;
  roots =
      record {
        display_name = "work";
        id = "remote-primary";
        path = "/work";
        role = primary;
        target = remote_target;
      }
      ∷ record {
        display_name = "Local";
        id = "local-full-access";
        path = "/";
        role = secondary;
        target = local_target;
      }
      ∷ [];
  ssh_executable = "ssh";
  ssh_port = some 2222;
  ssh_user = some "alu";
  vscode_transport = none;
  workspace_root = "/work";
}

given_is_read : parse_bridge_config slashes slashes given ≡ ok held
unfolding parse_bridge_config ◌>>=◌ ◌>>◌ throw_if parse_host required_string lookup_field trim
    trim_end trim_start is_space is_bad_host check_version parse_workspace_roots
    normalized_remote_root is_remote_root check_choices parse_ssh_user parse_ssh_port add has
    check_helper check_transport check_unique check_workspace_root parse_all parse_connection_mode
    parse_identity_file parse_transport primary_path root_items default_remote_primary_root
    is_local_root normalized_local_root parse_display_name parse_id parse_path parse_role
    parse_target parse_workspace_root decimal text_length units integer_in_range bridge_error
given_is_read = refl

parse_bridge_config-IsConfig_example : IsConfig slashes slashes held
parse_bridge_config-IsConfig_example =
    parse_bridge_config-IsConfig slashes slashes given held given_is_read

parse_bridge_config-config_value_example :
    parse_bridge_config slashes slashes (config_value held) ≡ ok held
unfolding lookup_field
parse_bridge_config-config_value_example =
    parse_bridge_config-config_value slashes slashes held
      (parse_bridge_config-IsConfig slashes slashes given held given_is_read)
      (parse_bridge_config-IsShown slashes slashes given held given_is_read refl)

-- A port that there is not.
abbrev bad_port : Value
bad_port = obj (
    field "host" (str "build")
      (field "workspaceRoot" (str "/work") (field "sshPort" (num 70000) end)))

parse_bridge_config-invalid_config_example :
    BridgeErrorCode.invalid_config ≡ BridgeErrorCode.invalid_config
unfolding parse_bridge_config ◌>>=◌ ◌>>◌ throw_if parse_host required_string lookup_field trim
    trim_end trim_start is_space is_bad_host check_version parse_workspace_roots
    normalized_remote_root is_remote_root check_choices parse_ssh_user parse_ssh_port add has
    check_helper check_transport check_unique check_workspace_root parse_all parse_connection_mode
    parse_identity_file parse_transport primary_path root_items default_remote_primary_root
    is_local_root normalized_local_root parse_display_name parse_id parse_path parse_role
    parse_target parse_workspace_root decimal text_length units integer_in_range bridge_error
parse_bridge_config-invalid_config_example =
    parse_bridge_config-invalid_config slashes slashes bad_port
      (bridge_error BridgeErrorCode.invalid_config "sshPort must be an integer from 1 to 65535")
      refl

-- A directory with a name of 129 characters, in a configuration of version 1.
abbrev long_root : String
long_root =
    "/aaaaaaaaaaaaaaaaaaaaaaaaaaaaaaaaaaaaaaaaaaaaaaaaaaaaaaaaaaaaaaaaaaaaaaaaaaaaaaaaaaaaaaaaaaaaaaaaaaaaaaaaaaaaaaaaaaaaaaaaaaaaaaaaa"

abbrev old_config : Value
old_config = obj (field "host" (str "build") (field "workspaceRoot" (str long_root) end))

-- It is accepted, and what it has become is refused.
long_name_is_refused :
    (parse_bridge_config slashes slashes old_config >>= λ c.
    parse_bridge_config slashes slashes (config_value c))
    ≡ err (
        bridge_error BridgeErrorCode.invalid_config
          "roots[0].displayName must not exceed 128 characters")
unfolding parse_bridge_config ◌>>=◌ ◌>>◌ throw_if parse_host required_string lookup_field trim
    trim_end trim_start is_space is_bad_host check_version parse_workspace_roots
    normalized_remote_root is_remote_root check_choices parse_ssh_user parse_ssh_port add has
    check_helper check_transport check_unique check_workspace_root parse_all parse_connection_mode
    parse_identity_file parse_transport primary_path root_items default_remote_primary_root
    is_local_root normalized_local_root parse_display_name parse_id parse_path parse_role
    parse_target parse_workspace_root decimal text_length units integer_in_range bridge_error
long_name_is_refused = refl
