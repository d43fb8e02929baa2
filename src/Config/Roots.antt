-- ===== src/Config/Roots.antt =====
-- The roots of a configuration: `parseWorkspaceRoot`, `parseWorkspaceRoots` and what they call.
use remote_codex.Base.{
  ℕ, String, Bool, false, not, ◌&&◌, ◌||◌, ltb, if◌then◌else◌, ◌==◌, nat_key, string_key,
}
use Prim.Native.String.{◌++◌ as ◌<>◌}
use remote_codex.Errors.{Result, ok, err, bridge_error, BridgeErrorCode, ◌>>=◌, ◌>>◌, throw_if}
use remote_codex.Json.{Value, is_record, at, is_text}
use remote_codex.Background.Calls.{codes}
use remote_codex.Background.Registry.{pair_key}
use remote_codex.Config.Text.{trim, text_length, decimal}
use remote_codex.Config.{
  WorkspaceTarget, local_target, remote_target, WorkspaceAccessRole, primary, secondary,
  WorkspaceRootConfig, PathApi, required_string, is_windows_path, is_root_id,
  full_local_access_root_id,
}

abbrev invalid_config : BridgeErrorCode
invalid_config = BridgeErrorCode.invalid_config

unfoldable pub parse_target : Value → String → Result WorkspaceTarget
parse_target v name =
    if is_text "local" v
    then ok local_target
    else if is_text "remote" v
    then ok remote_target
    else err (bridge_error invalid_config (name <> ".target must be local or remote"))

unfoldable pub parse_role : Value → String → Result WorkspaceAccessRole
parse_role v name =
    if is_text "primary" v
    then ok primary
    else if is_text "secondary" v
    then ok secondary
    else err (bridge_error invalid_config (name <> ".role must be primary or secondary"))

-- Whether a local root may be a root of the file system.
abbrev pub allows_filesystem_root : String → WorkspaceAccessRole → Bool
allows_filesystem_root id primary = false
allows_filesystem_root id secondary = id == full_local_access_root_id

unfoldable pub parse_id : Value → String → Result String
parse_id v name = required_string v (name <> ".id") >>= λ text.
    throw_if (not (is_root_id (codes (trim text)))) invalid_config
      (name <> ".id must contain 1-64 letters, digits, dots, underscores, or hyphens")
    >> ok (trim text)

unfoldable pub parse_display_name : Value → String → Result String
parse_display_name v name = required_string v (name <> ".displayName") >>= λ text.
    throw_if (ltb 128 (text_length (trim text))) invalid_config
      (name <> ".displayName must not exceed 128 characters")
    >> ok (trim text)

module _ (posix win32 : PathApi) where
  -- The test of `normalizedRemoteRoot`, and that of `normalizedLocalRoot`.
  unfoldable pub is_remote_root : String → Bool
  is_remote_root path = posix.is_absolute path && posix.normalize path == path && not (path == "/")

  unfoldable pub normalized_remote_root : Value → String → Result String
  normalized_remote_root v name = required_string v name >>= λ path.
      throw_if (not (is_remote_root path)) invalid_config
        (name <> " must be a normalized absolute POSIX path other than /")
      >> ok path

  abbrev pub path_api : String → PathApi
  path_api path = if is_windows_path (codes path) then win32 else posix

  unfoldable pub is_local_root : Bool → String → Bool
  is_local_root allow_filesystem_root path =
      let api = path_api path in
      api.is_absolute path
      && api.normalize path == path
      && (allow_filesystem_root || not (api.root_of path == path))

  unfoldable pub normalized_local_root : Value → String → Bool → Result String
  normalized_local_root v name allow_filesystem_root = required_string v name >>= λ path.
      throw_if (not (is_local_root allow_filesystem_root path)) invalid_config
        (name <> " must be a normalized absolute local path other than a filesystem root")
      >> ok path

  unfoldable pub default_remote_primary_root : String → WorkspaceRootConfig
  default_remote_primary_root root = record {
    display_name = posix.basename root;
    id = "remote-primary";
    path = root;
    role = primary;
    target = remote_target;
  }

  unfoldable pub remote_home_access_root : Value → Result WorkspaceRootConfig
  remote_home_access_root home = normalized_remote_root home "remote home directory" >>= λ path.
      ok (record {
        display_name = "Remote user home";
        id = "remote-home-access";
        path = path;
        role = secondary;
        target = remote_target;
      })

  unfoldable pub parse_path :
      Value → String → String → WorkspaceAccessRole → WorkspaceTarget → Result String
  parse_path v name id role remote_target = normalized_remote_root v name
  parse_path v name id role local_target =
      normalized_local_root v name (allows_filesystem_root id role)

  unfoldable pub parse_workspace_root : Value → ℕ → Result WorkspaceRootConfig
  parse_workspace_root v index =
      let name = "roots[" <> decimal index <> "]" in
      throw_if (not (is_record v)) invalid_config (name <> " must be an object")
      >> (parse_id (at "id" v) name >>= λ id. parse_target (at "target" v) name >>= λ target.
          parse_role (at "role" v) name >>= λ role.
          parse_display_name (at "displayName" v) name >>= λ display_name.
          parse_path (at "path" v) (name <> ".path") id role target >>= λ path. ok (record {
            display_name = display_name;
            id = id;
            path = path;
            role = role;
            target = target;
          }))
