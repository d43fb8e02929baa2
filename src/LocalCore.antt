-- ===== src/LocalCore.antt =====
-- src/shim/local-core-policy.ts: which requests of a client reach the local app server, and what the
-- server is started with.
pub mod Laws
pub mod Tests
use remote_codex.Base.{
  ℕ, zero, suc, ◌+◌, ◌*◌, ◌/◌, String, Bool, true, false, not, ◌&&◌, ◌||◌, Option, none, some, List,
  [], ◌∷◌, ◌++◌, leb, nat_eq, if◌then◌else◌, ◌==◌, nat_key, string_key, take, drop, includes,
}
use text.Mathlib.Text.{starts_with}
use remote_codex.Json.{Value, str, bool, at, has_at, is_record, is_array}
use remote_codex.Background.Calls.{codes}
use remote_codex.Config.Text.{text_length, has_code}

abbrev pub blocked_local_client_methods : List String
blocked_local_client_methods =
    "thread/shellCommand" ∷ "thread/backgroundTerminals/clean" ∷ "thread/backgroundTerminals/list"
    ∷ "thread/backgroundTerminals/terminate" ∷ "fs/readFile" ∷ "fs/writeFile" ∷ "fs/createDirectory"
    ∷ "fs/getMetadata" ∷ "fs/readDirectory" ∷ "fs/remove" ∷ "fs/copy" ∷ "fs/watch" ∷ "fs/unwatch"
    ∷ "command/exec" ∷ "command/exec/write" ∷ "command/exec/terminate" ∷ "command/exec/resize"
    ∷ "process/spawn" ∷ "process/writeStdin" ∷ "process/kill" ∷ "process/resizePty"
    ∷ "fuzzyFileSearch" ∷ "fuzzyFileSearch/sessionStart" ∷ "fuzzyFileSearch/sessionUpdate"
    ∷ "fuzzyFileSearch/sessionStop" ∷ []

abbrev pub blocked_local_server_approval_methods : List String
blocked_local_server_approval_methods =
    "item/commandExecution/requestApproval" ∷ "item/fileChange/requestApproval"
    ∷ "item/permissions/requestApproval" ∷ "applyPatchApproval" ∷ "execCommandApproval" ∷ []

unfoldable pub is_blocked_local_client_method : String → Bool
is_blocked_local_client_method method = includes method blocked_local_client_methods

unfoldable pub is_blocked_local_server_approval : String → Bool
is_blocked_local_server_approval method = includes method blocked_local_server_approval_methods

unfoldable pub is_local_client_risk_namespace : String → Bool
is_local_client_risk_namespace method =
    method == "thread/shellCommand"
    || starts_with method "thread/backgroundTerminals/"
    || starts_with method "fs/"
    || starts_with method "command/exec"
    || starts_with method "process/"
    || starts_with method "fuzzyFileSearch"

-- The method of a message that has one.
abbrev pub method_of : Value → Option String
method_of message = elim (at "method" message) [ Value.str m ↦ some m | _ ↦ none ]

unfoldable pub is_blocked_local_client_message : Value → Bool
is_blocked_local_client_message message = elim (method_of message) [
  | none ↦ false
  | some m ↦ is_local_client_risk_namespace m
]

pub data LocalAttachmentRequestKind : Type 0 where
  attachment_directory pasted_text registry : LocalAttachmentRequestKind

-- A hexadecimal digit, without regard to case.
abbrev pub is_hex : ℕ → Bool
is_hex c = (leb 48 c && leb c 57) || (leb 65 c && leb c 70) || (leb 97 c && leb c 102)

-- `[89ab]`, without regard to case.
abbrev pub is_variant : ℕ → Bool
is_variant c =
    nat_eq c 56 || nat_eq c 57 || nat_eq c 97 || nat_eq c 98 || nat_eq c 65 || nat_eq c 66

abbrev pub repeat {ℓ} : {A : Type ℓ} → ℕ → A → List A → List A
repeat zero a rest = rest
repeat (suc n) a rest = a ∷ repeat n a rest

-- A text that has a character of each class, in their order, and no more.
unfoldable pub matches : List (ℕ → Bool) → List ℕ → Bool
matches [] [] = true
matches (p ∷ ps) (c ∷ cs) = p c && matches ps cs
matches _ _ = false

abbrev is_minus : ℕ → Bool
is_minus c = nat_eq c 45

-- The pattern `MANAGED_ATTACHMENT_DIRECTORY`.
abbrev pub attachment_pattern : List (ℕ → Bool)
attachment_pattern = repeat 8 is_hex (
    is_minus
    ∷ repeat 4 is_hex (
        is_minus
        ∷ (λ c. nat_eq c 52)
        ∷ repeat 3 is_hex
            (is_minus ∷ is_variant ∷ repeat 3 is_hex (is_minus ∷ repeat 12 is_hex []))))

-- `text.split(separator)`.
abbrev pub push_first : ℕ → List (List ℕ) → List (List ℕ)
push_first c [] = (c ∷ []) ∷ []
push_first c (xs ∷ xss) = (c ∷ xs) ∷ xss

unfoldable pub split : ℕ → List ℕ → List (List ℕ)
split separator [] = [] ∷ []
split separator (c ∷ cs) =
    let rest = split separator cs in if nat_eq c separator then [] ∷ rest else push_first c rest

-- `isAbsolute`, `resolve`, `relative` and `sep` of the platform's paths.
pub record Paths : Type 0 where
  pub is_absolute : String → Bool
  pub resolve : String → String
  pub relative : String → String → String
  pub separator : ℕ

unfoldable pub equal_codes : List ℕ → List ℕ → Bool
equal_codes [] [] = true
equal_codes (a ∷ as') (b ∷ bs) = nat_eq a b && equal_codes as' bs
equal_codes _ _ = false

abbrev pub same_text : List ℕ → String → Bool
same_text cs s = equal_codes cs (codes s)

unfoldable pub kind_of_segments : List (List ℕ) → Option LocalAttachmentRequestKind
kind_of_segments (name ∷ []) =
    if same_text name "pasted-text-attachments.json"
    then some registry
    else if matches attachment_pattern name
    then some attachment_directory
    else none
kind_of_segments (directory ∷ name ∷ []) =
    if matches attachment_pattern directory && same_text name "pasted-text.txt"
    then some pasted_text
    else none
kind_of_segments _ = none

-- A relative path that leads out of its root, or nowhere; `..` stands before a separator.
abbrev pub leads_out : ℕ → List ℕ → Bool
leads_out separator [] = true
leads_out separator (a ∷ []) = false
leads_out separator (a ∷ b ∷ []) = nat_eq a 46 && nat_eq b 46
leads_out separator (a ∷ b ∷ c ∷ cs) = nat_eq a 46 && nat_eq b 46 && nat_eq c separator

module _ (paths : Paths) where
  unfoldable pub managed_attachment_path_kind : Value → String → Option LocalAttachmentRequestKind
  managed_attachment_path_kind (Value.str path) root =
      let child = paths.relative (paths.resolve root) (paths.resolve path) in
      if has_code 0 path
        || not (paths.is_absolute path)
        || leads_out paths.separator (codes child)
        || paths.is_absolute child
      then none
      else kind_of_segments (split paths.separator (codes child))
  managed_attachment_path_kind _ root = none

abbrev pub is_file_kind : Option LocalAttachmentRequestKind → Bool
is_file_kind (some registry) = true
is_file_kind (some pasted_text) = true
is_file_kind _ = false

abbrev pub is_directory_kind : Option LocalAttachmentRequestKind → Bool
is_directory_kind (some attachment_directory) = true
is_directory_kind _ = false

abbrev pub is_pasted_kind : Option LocalAttachmentRequestKind → Bool
is_pasted_kind (some pasted_text) = true
is_pasted_kind _ = false

abbrev pub is_true : Value → Bool
is_true (bool b) = b
is_true _ = false

-- A text of at most so many UTF-16 code units.
abbrev pub is_text_up_to : ℕ → Value → Bool
is_text_up_to n (Value.str s) = leb (text_length s) n
is_text_up_to n _ = false

-- `Math.ceil((10 * 1024 * 1024 * 4) / 3) + 4`.
abbrev pub max_managed_attachment_base64_length : ℕ
max_managed_attachment_base64_length = (10 * 1024 * 1024 * 4 + 2) / 3 + 4

-- The test of the `switch` for a method.
unfoldable pub is_allowed_method : String → Value → Option LocalAttachmentRequestKind → Bool
is_allowed_method method params kind =
    if method == "fs/readFile"
    then is_file_kind kind
    else if method == "fs/createDirectory"
    then is_directory_kind kind && is_true (at "recursive" params)
    else if method == "fs/writeFile"
    then (is_file_kind kind
        && is_text_up_to max_managed_attachment_base64_length (at "dataBase64" params))
    else if method == "fs/remove"
    then (is_pasted_kind kind
        && is_true (at "force" params)
        && not (is_true (at "recursive" params)))
    else false

-- An array is an object that has none of the properties.
abbrev pub is_object : Value → Bool
is_object v = is_record v || is_array v

unfoldable pub allowed_local_attachment_request :
    Paths → Value → String → Option LocalAttachmentRequestKind
allowed_local_attachment_request paths message root =
    if not (has_at "method" message)
      || not (has_at "id" message)
      || not (is_object (at "params" message))
    then none
    else let kind = managed_attachment_path_kind paths (at "path" (at "params" message)) root in
      elim (method_of message) [
        | none ↦ none
        | some m ↦ if is_allowed_method m (at "params" message) kind then kind else none
      ]

abbrev pub remote_permission_overrides : List String
remote_permission_overrides =
    "default_permissions=\"codex-remote-bridge\""
    ∷ "permissions.codex-remote-bridge.description=\"Codex Remote Bridge local-deny policy\""
    ∷ "permissions.codex-remote-bridge.filesystem={\":root\"=\"deny\",\":minimal\"=\"read\"}"
    ∷ "permissions.codex-remote-bridge.network.enabled=false" ∷ []

-- `flatMap((value) => ["-c", value])`.
abbrev pub as_options : List String → List String
as_options [] = []
as_options (value ∷ values) = "-c" ∷ value ∷ as_options values

abbrev pub next_place : Option ℕ → Option ℕ
next_place none = none
next_place (some n) = some (suc n)

-- `list.indexOf(text)`.
unfoldable pub index_of_text : String → List String → Option ℕ
index_of_text t [] = none
index_of_text t (x ∷ xs) =
    let later = index_of_text t xs in if x == t then some 0 else next_place later

-- The arguments before an index, the options, and the arguments from the index on.
abbrev pub spliced : List String → List String → Option ℕ → Option (List String)
spliced options args none = none
spliced options args (some n) = some (take n args ++ (options ++ drop n args))

-- `withRemoteCorePolicy`: `none` for the `TypeError`.
unfoldable pub with_remote_core_policy : List String → Option (List String)
with_remote_core_policy args =
    spliced (as_options remote_permission_overrides) args (index_of_text "app-server" args)
