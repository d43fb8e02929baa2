-- ===== src/Config.antt =====
-- src/core/config.ts and the types of src/core/types.ts that a configuration is made of. A JSON number is
-- a natural number here, which `Number.isInteger` accepts; the test of one that is negative or no
-- integer, which throws the same error, has no case.
pub mod Text
pub mod Roots
pub mod Parse
pub mod Printed
pub mod Checks
pub mod RootChecks
pub mod Accepted
pub mod RoundTrip
pub mod Rejected
pub mod Tests
use remote_codex.Base.{
  ℕ, String, Bool, true, false, not, ◌&&◌, ◌||◌, Option, List, [], ◌∷◌, ltb, leb, nat_eq, length,
  any, all,
}
use Prim.Native.String.{◌++◌ as ◌<>◌}
use text.Mathlib.Text.{starts_with}
use remote_codex.Errors.{Result, ok, err, bridge_error, BridgeErrorCode, ◌>>=◌, ◌>>◌, throw_if}
use remote_codex.Json.{Value, undefined, null, num, str, at, is_text, is_undefined}
use remote_codex.Background.Calls.{codes, is_alphanumeric, is_safe}
use remote_codex.Config.Text.{is_space, is_blank, trim, has_code}

pub data WorkspaceTarget : Type 0 where
  local_target remote_target : WorkspaceTarget

pub data WorkspaceAccessRole : Type 0 where
  primary secondary : WorkspaceAccessRole

pub record WorkspaceRootConfig : Type 0 where
  pub display_name : String
  pub id : String
  pub path : String
  pub role : WorkspaceAccessRole
  pub target : WorkspaceTarget

pub record VsCodeTransportDescriptor : Type 0 where
  pub endpoint : String
  pub session_id : String
  pub token : String

-- `openssh` with the helper `none`, or `vscode-remote` with `vscode-extension`.
pub data ConnectionMode : Type 0 where
  openssh vscode_remote : ConnectionMode

pub data RemoteMcpRouting : Type 0 where
  auto_routing local_routing : RemoteMcpRouting

pub data RemoteMcpAccess : Type 0 where
  enabled_access all_access : RemoteMcpAccess

-- The properties `version`, `localExecution`, `maxParallelWrites` have one value each, and
-- `remoteHelper` is decided by `connectionMode`.
pub record BridgeConfig : Type 0 where
  pub command_timeout_ms : ℕ
  pub connect_timeout_seconds : ℕ
  pub connection_mode : ConnectionMode
  pub host : String
  pub identity_file : Option String
  pub max_output_bytes : ℕ
  pub max_parallel_reads : ℕ
  pub remote_mcp_access : RemoteMcpAccess
  pub remote_mcp_routing : RemoteMcpRouting
  pub roots : List WorkspaceRootConfig
  pub ssh_executable : String
  pub ssh_port : Option ℕ
  pub ssh_user : Option String
  pub vscode_transport : Option VsCodeTransportDescriptor
  pub workspace_root : String

abbrev pub invalid_config : BridgeErrorCode
invalid_config = BridgeErrorCode.invalid_config

-- The last argument is the message, with its name and its bounds written in.
unfoldable pub integer_in_range : Value → ℕ → ℕ → ℕ → String → Result ℕ
integer_in_range (num n) fallback minimum maximum message =
    throw_if (ltb n minimum || ltb maximum n) invalid_config message >> ok n
integer_in_range undefined fallback minimum maximum message =
    throw_if (ltb fallback minimum || ltb maximum fallback) invalid_config message >> ok fallback
integer_in_range null fallback minimum maximum message =
    throw_if (ltb fallback minimum || ltb maximum fallback) invalid_config message >> ok fallback
integer_in_range _ fallback minimum maximum message = err (bridge_error invalid_config message)

unfoldable pub required_string : Value → String → Result String
required_string (str s) name =
    throw_if (is_blank (trim s)) invalid_config (name <> " must be a non-empty string")
    >> (throw_if (has_code 0 s) invalid_config (name <> " must not contain NUL") >> ok s)
required_string _ name = err (bridge_error invalid_config (name <> " must be a non-empty string"))

-- A path module of the platform, `posix` or `win32`; `root_of` is the property `root` of `parse`.
pub record PathApi : Type 0 where
  pub is_absolute : String → Bool
  pub normalize : String → String
  pub root_of : String → String
  pub basename : String → String

-- The pattern `^[A-Za-z]:[\\/]|^\\\\`.
abbrev pub is_letter : ℕ → Bool
is_letter c = (leb 65 c && leb c 90) || (leb 97 c && leb c 122)

abbrev pub is_windows_path : List ℕ → Bool
is_windows_path (a ∷ b ∷ c ∷ cs) =
    (is_letter a && nat_eq b 58 && (nat_eq c 92 || nat_eq c 47)) || (nat_eq a 92 && nat_eq b 92)
is_windows_path (a ∷ b ∷ []) = nat_eq a 92 && nat_eq b 92
is_windows_path _ = false

-- The pattern of a root's id, and that of `sshUser`, with its test for a leading dash.
abbrev pub is_root_id : List ℕ → Bool
is_root_id [] = false
is_root_id (c ∷ cs) = is_alphanumeric c && leb (length cs) 63 && all is_safe cs

abbrev pub is_ssh_user : List ℕ → Bool
is_ssh_user [] = false
is_ssh_user (c ∷ cs) = (is_letter c || nat_eq c 95) && all is_safe cs

-- A character of the class `[\s*?![\]]`, a slash or a backslash.
abbrev pub is_host_stop : ℕ → Bool
is_host_stop c =
    is_space c
    || nat_eq c 42
    || nat_eq c 63
    || nat_eq c 33
    || nat_eq c 91
    || nat_eq c 93
    || nat_eq c 47
    || nat_eq c 92

unfoldable pub is_bad_host : String → Bool
is_bad_host host = starts_with host "-" || any is_host_stop (codes host)

unfoldable pub parse_host : Value → Result String
parse_host v = required_string (at "host" v) "host" >>= λ text.
    throw_if (is_bad_host (trim text)) invalid_config
      "host must be a concrete OpenSSH host alias without whitespace or wildcards"
    >> ok (trim text)

abbrev pub full_local_access_root_id : String
full_local_access_root_id = "local-full-access"

abbrev pub target_name : WorkspaceTarget → String
target_name local_target = "local"
target_name remote_target = "remote"

abbrev pub role_name : WorkspaceAccessRole → String
role_name primary = "primary"
role_name secondary = "secondary"

abbrev pub is_primary : WorkspaceRootConfig → Bool
is_primary r = elim r.role [ primary ↦ true | secondary ↦ false ]

abbrev pub is_remote : WorkspaceTarget → Bool
is_remote local_target = false
is_remote remote_target = true

-- `undefined`, or one of two texts.
abbrev pub is_choice : String → String → Value → Bool
is_choice a b v = is_undefined v || is_text a v || is_text b v

abbrev pub is_number_of : ℕ → Value → Bool
is_number_of n (num m) = nat_eq m n
is_number_of n _ = false
