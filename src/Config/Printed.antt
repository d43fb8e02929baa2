-- ===== src/Config/Printed.antt =====
-- A configuration as the object that the code holds it in, and what the properties of one that was
-- accepted are. A property that the object leaves out reads as `undefined`.
use remote_codex.Base.{
  ℕ, ◌≤◌, String, ◌≡◌, Bool, true, false, Option, none, some, List, [], ◌∷◌, map, ltb, Eq, nat_key,
  string_key, length, filter_by, All, has,
}
use text.Mathlib.Text.{starts_with}
use remote_codex.Json.{Value, undefined, num, str, obj, arr, Items, no_items, item, field, end}
use remote_codex.Background.Calls.{codes}
use remote_codex.Background.Registry.{pair_key}
use remote_codex.Config.Text.{trim, is_blank, text_length, IsText}
use remote_codex.Config.Roots.{is_remote_root, is_local_root, allows_filesystem_root, path_api}
use remote_codex.Config.Parse.{path_identity, helper_name}
use remote_codex.Config.{
  local_target, remote_target, WorkspaceRootConfig, PathApi, is_ssh_user, is_primary, target_name,
  role_name, BridgeConfig, ConnectionMode, openssh, vscode_remote, RemoteMcpRouting, auto_routing,
  local_routing, RemoteMcpAccess, enabled_access, all_access, VsCodeTransportDescriptor, is_root_id,
  is_bad_host,
}

abbrev pub text_or_undefined : Option String → Value
text_or_undefined none = undefined
text_or_undefined (some s) = str s

abbrev pub number_or_undefined : Option ℕ → Value
number_or_undefined none = undefined
number_or_undefined (some n) = num n

abbrev pub transport_value : Option VsCodeTransportDescriptor → Value
transport_value none = undefined
transport_value (some t) = obj (
    field "endpoint" (str t.endpoint)
      (field "sessionId" (str t.session_id) (field "token" (str t.token) end)))

abbrev pub mode_name : ConnectionMode → String
mode_name openssh = "openssh"
mode_name vscode_remote = "vscode-remote"

abbrev pub routing_name : RemoteMcpRouting → String
routing_name auto_routing = "auto"
routing_name local_routing = "local"

abbrev pub access_name : RemoteMcpAccess → String
access_name enabled_access = "enabled"
access_name all_access = "all"

abbrev pub root_value : WorkspaceRootConfig → Value
root_value r = obj (
    field "id" (str r.id) (
      field "target" (str (target_name r.target)) (
        field "role" (str (role_name r.role))
          (field "path" (str r.path) (field "displayName" (str r.display_name) end)))))

abbrev pub root_values : List WorkspaceRootConfig → Items
root_values [] = no_items
root_values (r ∷ roots) = item (root_value r) (root_values roots)

abbrev pub config_value : BridgeConfig → Value
config_value c = obj (
    field "version" (num 2) (
      field "host" (str c.host) (
        field "roots" (arr (root_values c.roots)) (
          field "workspaceRoot" (str c.workspace_root) (
            field "connectionMode" (str (mode_name c.connection_mode)) (
              field "localExecution" (str "allow") (
                field "remoteHelper" (str (helper_name c.connection_mode)) (
                  field "sshUser" (text_or_undefined c.ssh_user) (
                    field "sshPort" (number_or_undefined c.ssh_port) (
                      field "identityFile" (text_or_undefined c.identity_file) (
                        field "sshExecutable" (str c.ssh_executable) (
                          field "remoteMcpRouting" (str (routing_name c.remote_mcp_routing)) (
                            field "remoteMcpAccess" (str (access_name c.remote_mcp_access)) (
                              field "commandTimeoutMs" (num c.command_timeout_ms) (
                                field "maxOutputBytes" (num c.max_output_bytes) (
                                  field "maxParallelReads" (num c.max_parallel_reads) (
                                    field "maxParallelWrites" (num 1) (
                                      field "connectTimeoutSeconds" (num c.connect_timeout_seconds)
                                        (field "vscodeTransport"
                                          (transport_value c.vscode_transport)
                                          end)))))))))))))))))))

-- No key stands twice.
abbrev pub Distinct {ℓ} : {K : Type ℓ} ⦃e : Eq K⦄ → List K → Type 0
Distinct [] = Unit
Distinct (k ∷ ks) = (has k ks ≡ false) × Distinct ks

-- What holds of a value that may be missing.
abbrev pub Holds {ℓ κ} : {A : Type ℓ} → (A → Type κ) → Option A → Type κ
Holds P none = Unit
Holds P (some a) = P a

abbrev pub IsBetween : ℕ → ℕ → ℕ → Type 0
IsBetween minimum maximum n = (minimum ≤ n) × (n ≤ maximum)

pub record IsSshUser (user : String) : Type 0 where
  pub user_text : IsText user
  pub user_pattern : is_ssh_user (codes user) ≡ true
  pub user_dash : starts_with user "-" ≡ false

pub record IsTransport (t : VsCodeTransportDescriptor) : Type 0 where
  pub endpoint_text : IsText t.endpoint
  pub session_text : IsText t.session_id
  pub token_text : IsText t.token
  pub token_length : ltb (text_length t.token) 32 ≡ false

pub record IsDisplayName (name : String) : Type 0 where
  pub name_text : IsText name
  pub name_trimmed : trim name ≡ name
  pub name_length : ltb 128 (text_length name) ≡ false

module _ (posix win32 : PathApi) where
  abbrev pub is_root_path : WorkspaceRootConfig → Bool
  is_root_path r = elim r.target [
    | local_target ↦ is_local_root posix win32 (allows_filesystem_root r.id r.role) r.path
    | remote_target ↦ is_remote_root posix win32 r.path
  ]

  pub record IsRoot (r : WorkspaceRootConfig) : Type 0 where
    pub id_text : IsText r.id
    pub id_trimmed : trim r.id ≡ r.id
    pub id_pattern : is_root_id (codes r.id) ≡ true
    pub path_text : IsText r.path
    pub path_root : is_root_path r ≡ true

  pub record IsIdentityFile (file : String) : Type 0 where
    pub file_text : IsText file
    pub file_absolute : (path_api posix win32 file).is_absolute file ≡ true
    pub file_normalized : (path_api posix win32 file).normalize file ≡ file

  pub record IsConfig (c : BridgeConfig) : Type 0 where
    pub host_text : IsText c.host
    pub host_trimmed : trim c.host ≡ c.host
    pub host_plain : is_bad_host c.host ≡ false
    pub roots_count : IsBetween 1 16 (length c.roots)
    pub roots_valid : All IsRoot c.roots
    pub ids_distinct : Distinct (map (λ r. r.id) c.roots)
    pub paths_distinct : Distinct (map path_identity c.roots)
    -- The one primary root, which is the workspace's.
    pub primary_root : WorkspaceRootConfig
    pub primary_only : filter_by is_primary c.roots ≡ primary_root ∷ []
    pub primary_remote : primary_root.target ≡ remote_target
    pub primary_path : primary_root.path ≡ c.workspace_root
    pub user_valid : Holds IsSshUser c.ssh_user
    pub port_range : Holds (IsBetween 1 65535) c.ssh_port
    pub identity_valid : Holds IsIdentityFile c.identity_file
    pub executable_text : is_blank (trim c.ssh_executable) ≡ false
    pub transport_valid : Holds IsTransport c.vscode_transport
    pub transport_mode : Holds (λ t. c.connection_mode ≡ vscode_remote) c.vscode_transport
    pub command_timeout_range : IsBetween 1000 3600000 c.command_timeout_ms
    pub output_range : IsBetween 1024 104857600 c.max_output_bytes
    pub reads_range : IsBetween 1 64 c.max_parallel_reads
    pub connect_range : IsBetween 1 120 c.connect_timeout_seconds
