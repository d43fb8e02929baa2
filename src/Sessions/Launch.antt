-- ===== src/Sessions/Launch.antt =====
-- src/core/remote-mcp-policy.ts and src/core/remote-mcp-adapters.ts: which launches of a remote MCP
-- server are let through.
use remote_codex.Base.{
  ℕ, ◌+◌, String, Bool, true, false, not, ◌&&◌, ◌||◌, Option, none, some, List, [], ◌∷◌, ltb, leb,
  nat_eq, if◌then◌else◌, ◌==◌, nat_key, string_key, length, any, all, includes,
}
use Prim.Native.String.{◌++◌ as ◌<>◌}
use remote_codex.Errors.{Result, ok, BridgeErrorCode, ◌>>=◌, ◌>>◌, throw_if}
use remote_codex.Background.Calls.{codes, is_alphanumeric}
use remote_codex.Config.{is_letter, RemoteMcpAccess, all_access, enabled_access}

abbrev command_denied : BridgeErrorCode
command_denied = BridgeErrorCode.command_denied

abbrev pub local_launchers : List String
local_launchers =
    "bash" ∷ "bun" ∷ "cmd" ∷ "docker" ∷ "node" ∷ "npx" ∷ "powershell" ∷ "pwsh" ∷ "python"
    ∷ "python3" ∷ "sh" ∷ "ssh" ∷ "uv" ∷ "uvx" ∷ []

-- `[A-Za-z0-9._+-]`.
abbrev pub is_plain : ℕ → Bool
is_plain c = is_alphanumeric c || nat_eq c 46 || nat_eq c 95 || nat_eq c 43 || nat_eq c 45

abbrev pub is_executable_name : List ℕ → Bool
is_executable_name [] = false
is_executable_name (c ∷ cs) = is_plain c && all is_plain cs

abbrev pub is_dash : ℕ → Bool
is_dash c = nat_eq c 45

-- `^[A-Za-z0-9][A-Za-z0-9._+-]*$`.
abbrev pub is_word : List ℕ → Bool
is_word [] = false
is_word (c ∷ cs) = is_alphanumeric c && all is_plain cs

-- The pattern `SAFE_REMOTE_ARGUMENT`: a word behind at most two dashes.
abbrev pub is_safe_argument : List ℕ → Bool
is_safe_argument (a ∷ b ∷ cs) =
    is_word (a ∷ b ∷ cs) || (is_dash a && (is_word (b ∷ cs) || (is_dash b && is_word cs)))
is_safe_argument cs = is_word cs

-- Letters without regard to case, for the flag `i`.
abbrev pub lower : ℕ → ℕ
lower c = if leb 65 c && leb c 90 then c + 32 else c

-- What is left of a text behind a word, which is in lower case.
abbrev pub behind : List ℕ → List ℕ → Option (List ℕ)
behind [] cs = some cs
behind (w ∷ ws) [] = none
behind (w ∷ ws) (c ∷ cs) = if nat_eq (lower c) w then behind ws cs else none

-- A word, and then the end of the text or a separator.
abbrev pub ends_word : (ℕ → Bool) → Option (List ℕ) → Bool
ends_word separates none = false
ends_word separates (some []) = true
ends_word separates (some (c ∷ cs)) = separates c

abbrev pub has_word_here : (ℕ → Bool) → List String → List ℕ → Bool
has_word_here separates words cs = any (λ w. ends_word separates (behind (codes w) cs)) words

-- One of the words stands at the beginning of the text or behind an opening separator, and before its end or
-- a closing one.
unfoldable pub has_word : (ℕ → Bool) → (ℕ → Bool) → List String → Bool → List ℕ → Bool
has_word opens closes words is_open [] = false
has_word opens closes words is_open (c ∷ cs) =
    (is_open && has_word_here closes words (c ∷ cs)) || has_word opens closes words (opens c) cs

abbrev pub sensitive_words : List String
sensitive_words =
    "apikey" ∷ "api-key" ∷ "api_key" ∷ "auth" ∷ "credential" ∷ "password" ∷ "secret" ∷ "token" ∷ []

-- The pattern `SENSITIVE_ARGUMENT`.
unfoldable pub is_sensitive_argument : List ℕ → Bool
is_sensitive_argument cs =
    has_word (λ c. nat_eq c 45 || nat_eq c 95) (λ c. nat_eq c 45 || nat_eq c 95 || nat_eq c 61)
      sensitive_words true cs

unfoldable pub is_eligible_argument : String → Bool
is_eligible_argument entry =
    is_safe_argument (codes entry) && not (is_sensitive_argument (codes entry))

unfoldable pub are_remote_mcp_arguments_safe : List String → Bool
are_remote_mcp_arguments_safe args = all is_eligible_argument args

-- `basename` of the platform is the parameter.
unfoldable pub remote_mcp_executable_name : (String → String) → String → Option String
remote_mcp_executable_name basename command =
    let executable = basename command in
    if is_executable_name (codes executable) && not (includes executable local_launchers)
    then some executable
    else none

abbrev pub is_some_text : Option String → String → Bool
is_some_text none t = false
is_some_text (some s) t = s == t

unfoldable pub assert_remote_mcp_launch :
    (String → String) → String → List String → String → Result (Unit {0})
assert_remote_mcp_launch basename executable args workspace_root =
    throw_if (not (is_some_text (remote_mcp_executable_name basename executable) executable))
      command_denied "Remote MCP executable is not eligible for routing"
    >> throw_if (not (all (λ entry. entry == workspace_root || is_eligible_argument entry) args))
        command_denied "Remote MCP arguments are not eligible for routing"

pub record RemoteMcpLaunch : Type 0 where
  pub args : List String
  pub environment : List (String × String)

pub record RemoteMcpLaunchRequest : Type 0 where
  pub adapter_id : Option String
  pub args : List String
  pub executable : String
  pub server_name : Option String
  pub workspace_root : String

abbrev pub codegraph_all_tools : List (String × String)
codegraph_all_tools =
    ("CODEGRAPH_MCP_TOOLS", "search,callers,callees,impact,node,explore,status,files") ∷ []

abbrev pub is_environment_name : List ℕ → Bool
is_environment_name [] = false
is_environment_name (c ∷ cs) =
    (is_letter c || nat_eq c 95) && all (λ d. is_alphanumeric d || nat_eq d 95) cs

-- `[A-Za-z0-9,._+:/-]`.
abbrev pub is_environment_value : List ℕ → Bool
is_environment_value [] = false
is_environment_value (c ∷ cs) =
    is_alphanumeric c
    && leb (length cs) 4095
    && all (λ d. is_plain d || nat_eq d 44 || nat_eq d 58 || nat_eq d 47) cs

abbrev pub begins_with_word : List ℕ → String → Bool
begins_with_word cs w = elim (behind (codes w) cs) [ none ↦ false | some rest ↦ true ]

-- The pattern `SENSITIVE_ENVIRONMENT_NAME`.
unfoldable pub is_sensitive_environment_name : List ℕ → Bool
is_sensitive_environment_name cs =
    has_word (λ c. nat_eq c 95) (λ c. nat_eq c 95)
      ("apikey" ∷ "api_key" ∷ "auth" ∷ "credential" ∷ "password" ∷ "secret" ∷ "token" ∷ []) true cs
    || any (begins_with_word cs) ("chatgpt_" ∷ "codex_" ∷ "electron_" ∷ "openai_" ∷ "vscode_" ∷ [])

unfoldable pub check_environment : List (String × String) → Result (Unit {0})
check_environment [] = ok tt
check_environment (entry ∷ entries) =
    throw_if
      (not (is_environment_name (codes entry.0)) || is_sensitive_environment_name (codes entry.0))
      command_denied ("Remote MCP adapter environment name is not eligible: " <> entry.0)
    >> (throw_if (not (is_environment_value (codes entry.1))) command_denied
          ("Remote MCP adapter environment value is not eligible: " <> entry.0)
        >> check_environment entries)

unfoldable pub assert_adapter_environment : List (String × String) → Result (Unit {0})
assert_adapter_environment environment =
    throw_if (ltb 16 (length environment)) command_denied
      "Remote MCP adapter environment is too large"
    >> check_environment environment

-- An argument `--path` or `-p`, and the workspace's root behind it.
unfoldable pub names_root : String → List String → Bool
names_root root (entry ∷ next ∷ args) =
    ((entry == "--path" || entry == "-p") && next == root) || names_root root (next ∷ args)
names_root root _ = false

-- `resolve` of the one adapter.
unfoldable pub resolve_codegraph : RemoteMcpLaunchRequest → Result RemoteMcpLaunch
resolve_codegraph r =
    throw_if
      (not (is_some_text r.server_name "codegraph")
        || not (r.executable == "codegraph")
        || not (names_root r.workspace_root r.args))
      command_denied "Remote MCP adapter does not match the launch"
    >> ok (record { args = r.args; environment = codegraph_all_tools })

abbrev pub codegraph_id : String
codegraph_id = "codegraph-all-tools-v1"

unfoldable pub select_remote_mcp_adapter : RemoteMcpAccess → String → String → Option String
select_remote_mcp_adapter all_access server_name executable =
    if server_name == "codegraph" && executable == "codegraph" then some codegraph_id else none
select_remote_mcp_adapter enabled_access server_name executable = none

unfoldable pub resolve_adapter : String → RemoteMcpLaunchRequest → Result RemoteMcpLaunch
resolve_adapter id r =
    throw_if (not (id == codegraph_id)) command_denied "Remote MCP adapter is not registered"
    >> (resolve_codegraph r >>= λ launch.
        assert_adapter_environment launch.environment >> ok launch)

unfoldable pub resolve_remote_mcp_launch : RemoteMcpLaunchRequest → Result RemoteMcpLaunch
resolve_remote_mcp_launch r = elim r.adapter_id [
  | none ↦ ok (record { args = r.args; environment = [] })
  | some id ↦ resolve_adapter id r
]
