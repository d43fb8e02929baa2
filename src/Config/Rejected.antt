-- ===== src/Config/Rejected.antt =====
-- src/core/config.ts: what is thrown.
use remote_codex.Base.{ℕ, String, ◌≡◌, Bool, Option, none, some, List, [], ◌∷◌, nat_key, string_key}
use remote_codex.Errors.{BridgeErrorCode, BridgeError, err}
use remote_codex.Errors.Codes.{Throws, throws_rules}
use remote_codex.Json.{Value, undefined, null, num, str, arr, Items, no_items, item}
use remote_codex.Background.Registry.{TaskKey, pair_key}
use remote_codex.Config.Roots.{
  normalized_remote_root, normalized_local_root, parse_workspace_root, parse_id, parse_target,
  parse_role, parse_display_name, parse_path,
}
use remote_codex.Config.Parse.{
  check_workspace_root, check_unique, primary_path, parse_all, parse_workspace_roots,
  parse_identity_file, check_choices, check_helper, check_version, parse_ssh_user, parse_ssh_port,
  parse_transport, check_transport, check_helper, check_version, parse_bridge_config, root_items,
}
use remote_codex.Config.{
  WorkspaceTarget, WorkspaceAccessRole, local_target, remote_target, WorkspaceRootConfig, PathApi,
  required_string, ConnectionMode, openssh, vscode_remote, VsCodeTransportDescriptor, parse_host,
  integer_in_range,
}

abbrev bad : BridgeErrorCode
bad = BridgeErrorCode.invalid_config

required_string-Throws : (v : Value) (name : String) → Throws bad (required_string v name)
unfolding required_string
required_string-Throws (str s) name = search throws_rules
required_string-Throws _ name = search throws_rules

integer_in_range-Throws :
    (v : Value) (fallback minimum maximum : ℕ) (message : String)
    → Throws bad (integer_in_range v fallback minimum maximum message)
unfolding integer_in_range
integer_in_range-Throws (num n) fallback minimum maximum message = search throws_rules
integer_in_range-Throws undefined fallback minimum maximum message = search throws_rules
integer_in_range-Throws null fallback minimum maximum message = search throws_rules
integer_in_range-Throws _ fallback minimum maximum message = search throws_rules

ruleset value_rules = (throws_rules, required_string-Throws, integer_in_range-Throws)

parse_host-Throws : (v : Value) → Throws bad (parse_host v)
unfolding parse_host
parse_host-Throws v = search value_rules

parse_id-Throws : (v : Value) (name : String) → Throws bad (parse_id v name)
unfolding parse_id
parse_id-Throws v name = search value_rules

parse_display_name-Throws : (v : Value) (name : String) → Throws bad (parse_display_name v name)
unfolding parse_display_name
parse_display_name-Throws v name = search value_rules

parse_target-Throws : (v : Value) (name : String) → Throws bad (parse_target v name)
unfolding parse_target
parse_target-Throws v name = search value_rules

parse_role-Throws : (v : Value) (name : String) → Throws bad (parse_role v name)
unfolding parse_role
parse_role-Throws v name = search value_rules

ruleset root_rules = (
  value_rules, parse_host-Throws, parse_id-Throws, parse_display_name-Throws, parse_target-Throws,
  parse_role-Throws,
)

check_unique-Throws :
    (roots : List WorkspaceRootConfig) (ids : List String) (paths : List TaskKey)
    → Throws bad (check_unique roots ids paths)
unfolding check_unique
check_unique-Throws [] ids paths = search throws_rules
check_unique-Throws (r ∷ roots) ids paths = search (throws_rules, check_unique-Throws roots)

primary_path-Throws : (roots : List WorkspaceRootConfig) → Throws bad (primary_path roots)
unfolding primary_path
primary_path-Throws [] = search throws_rules
primary_path-Throws (r ∷ []) = search throws_rules
primary_path-Throws (r ∷ s ∷ rs) = search throws_rules

root_items-Throws : (v : Value) → Throws bad (root_items v)
unfolding root_items
root_items-Throws (arr vs) = search throws_rules
root_items-Throws _ = search throws_rules

ruleset list_rules = (root_rules, check_unique-Throws, primary_path-Throws, root_items-Throws)

module _ (posix win32 : PathApi) where
  normalized_remote_root-Throws :
      (v : Value) (name : String) → Throws bad (normalized_remote_root posix win32 v name)
  unfolding normalized_remote_root
  normalized_remote_root-Throws v name = search value_rules

  parse_path-Throws :
      (v : Value) (name id : String) (role : WorkspaceAccessRole) (target : WorkspaceTarget)
      → Throws bad (parse_path posix win32 v name id role target)
  unfolding parse_path normalized_local_root
  parse_path-Throws v name id role remote_target = normalized_remote_root-Throws v name
  parse_path-Throws v name id role local_target = search value_rules

  parse_workspace_root-Throws :
      (v : Value) (index : ℕ) → Throws bad (parse_workspace_root posix win32 v index)
  unfolding parse_workspace_root
  parse_workspace_root-Throws v index = search (root_rules, parse_path-Throws) depth 9

  parse_all-Throws : (vs : Items) (index : ℕ) → Throws bad (parse_all posix win32 vs index)
  unfolding parse_all
  parse_all-Throws no_items index = search throws_rules
  parse_all-Throws (item v vs) index =
      search (throws_rules, parse_workspace_root-Throws, parse_all-Throws vs)

  check_workspace_root-Throws :
      (v : Value) (root : String) → Throws bad (check_workspace_root posix win32 v root)
  unfolding check_workspace_root
  check_workspace_root-Throws v root = search (throws_rules, normalized_remote_root-Throws)

  parse_workspace_roots-Throws :
      (v : Value) (is_version_1 : Bool)
      → Throws bad (parse_workspace_roots posix win32 v is_version_1)
  unfolding parse_workspace_roots
  parse_workspace_roots-Throws v is_version_1 =
      search
        (list_rules, normalized_remote_root-Throws, parse_all-Throws, check_workspace_root-Throws)
        depth 9

  parse_identity_file-Throws : (v : Value) → Throws bad (parse_identity_file posix win32 v)
  unfolding parse_identity_file
  parse_identity_file-Throws v = search value_rules

check_choices-Throws : (v : Value) → Throws bad (check_choices v)
unfolding check_choices
check_choices-Throws v = search throws_rules depth 9

parse_ssh_user-Throws : (v : Value) → Throws bad (parse_ssh_user v)
unfolding parse_ssh_user
parse_ssh_user-Throws v = search value_rules

parse_ssh_port-Throws : (v : Value) → Throws bad (parse_ssh_port v)
unfolding parse_ssh_port
parse_ssh_port-Throws v = search value_rules

check_helper-Throws : (v : Value) (mode : ConnectionMode) → Throws bad (check_helper v mode)
unfolding check_helper
check_helper-Throws v mode = search throws_rules

check_version-Throws : (v : Value) → Throws bad (check_version v)
unfolding check_version
check_version-Throws v = search throws_rules

parse_transport-Throws : (v : Value) → Throws bad (parse_transport v)
unfolding parse_transport
parse_transport-Throws v = search value_rules depth 9

check_transport-Throws :
    (o : Option VsCodeTransportDescriptor) (mode : ConnectionMode)
    → Throws bad (check_transport o mode)
unfolding check_transport
check_transport-Throws none openssh = search throws_rules
check_transport-Throws none vscode_remote = search throws_rules
check_transport-Throws (some t) openssh = search throws_rules
check_transport-Throws (some t) vscode_remote = search throws_rules

ruleset config_rules = (
  root_rules, parse_workspace_roots-Throws, parse_identity_file-Throws, check_choices-Throws,
  parse_ssh_user-Throws, parse_ssh_port-Throws, check_helper-Throws, check_version-Throws,
  parse_transport-Throws, check_transport-Throws,
)

parse_bridge_config-Throws :
    (posix win32 : PathApi) (v : Value) → Throws bad (parse_bridge_config posix win32 v)
unfolding parse_bridge_config
parse_bridge_config-Throws posix win32 v = search config_rules depth 24

-- Whatever the value is: an error that `parseBridgeConfig` throws has the code INVALID_CONFIG.
pub parse_bridge_config-invalid_config :
    (posix win32 : PathApi) (v : Value) (e : BridgeError)
    → parse_bridge_config posix win32 v ≡ err e
    → e.code ≡ BridgeErrorCode.invalid_config
parse_bridge_config-invalid_config posix win32 v e h =
    (parse_bridge_config-Throws posix win32 v).at e h
