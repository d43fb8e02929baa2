-- ===== src/Config/RoundTrip/Options.antt =====
-- src/core/config.ts: the properties that may be missing, and those with a choice, are read back.
use remote_codex.Base.{
  ℕ, String, ◌≡◌, refl, ◌∙◌, subst, inl, inr, true, false, Option, none, some, if◌then◌else◌,
  Bool-cases, ◌==◌, nat_key, string_key, ==_refl,
}
use remote_codex.Errors.{ok, ◌>>◌, throw_if, >>=-ok, throw_if-ok}
use remote_codex.Json.{num, str, lookup_field, is_text}
use remote_codex.Background.Registry.{pair_key}
use remote_codex.Config.Text.{trim_start, trim_end, trim, is_blank, IsText}
use remote_codex.Config.Parse.{
  helper_name, parse_identity_file, parse_connection_mode, check_choices, check_helper,
  check_version, parse_ssh_user, parse_ssh_port, parse_transport, check_transport,
  parse_ssh_executable, check_helper, check_version,
}
use remote_codex.Config.Printed.{
  Holds, config_value, transport_value, text_or_undefined, number_or_undefined, access_name,
  routing_name, mode_name, IsBetween, IsSshUser, IsTransport, IsIdentityFile,
}
use remote_codex.Config.{
  PathApi, is_choice, BridgeConfig, ConnectionMode, openssh, vscode_remote, RemoteMcpRouting,
  RemoteMcpAccess, auto_routing, local_routing, enabled_access, all_access,
  VsCodeTransportDescriptor,
}
use remote_codex.Config.RoundTrip.Texts.{required_string-ok, integer_in_range-ok}

pub is_nothing-text : (s : String) → IsText s → (s == "") ≡ false
is_nothing-text s t = elim (Bool-cases (s == "")) [
  | inl empty ↦
      let same : s ≡ "" = (string_key.same_iff s "").0 empty in
      let z : is_blank (trim "") ≡ false =
        subst (λ x. is_blank (trim x) ≡ false) same t.not_blank in
      absurd (unfold trim trim_start trim_end in (let y : true ≡ false = z in cc))
  | inr filled ↦ filled
]

pub parse_ssh_user-ok :
    (o : Option String) → Holds IsSshUser o → parse_ssh_user (text_or_undefined o) ≡ ok o
unfolding parse_ssh_user
parse_ssh_user-ok none h = refl
parse_ssh_user-ok (some user) h =
    rw (is_nothing-text user h.user_text, required_string-ok user _ h.user_text, >>=-ok)
      (throw_if-ok _ _ _ (rw (h.user_pattern, h.user_dash) refl))

pub parse_ssh_port-ok :
    (o : Option ℕ) → Holds (IsBetween 1 65535) o → parse_ssh_port (number_or_undefined o) ≡ ok o
unfolding parse_ssh_port
parse_ssh_port-ok none h = refl
parse_ssh_port-ok (some n) h = rw (integer_in_range-ok n 22 1 65535 _ h, >>=-ok) refl

pub parse_identity_file-ok :
    (posix win32 : PathApi) (o : Option String)
    → Holds (IsIdentityFile posix win32) o
    → parse_identity_file posix win32 (text_or_undefined o) ≡ ok o
unfolding parse_identity_file
parse_identity_file-ok posix win32 none h = refl
parse_identity_file-ok posix win32 (some file) h =
    rw (is_nothing-text file h.file_text, required_string-ok file _ h.file_text, >>=-ok)
      (throw_if-ok _ _ _ (rw (h.file_absolute, h.file_normalized, ==_refl file) refl))

pub parse_transport-ok :
    (o : Option VsCodeTransportDescriptor)
    → Holds IsTransport o
    → parse_transport (transport_value o) ≡ ok o
unfolding parse_transport lookup_field
parse_transport-ok none h = refl
parse_transport-ok (some t) h =
    throw_if-ok _ _ _ refl
    ∙ rw
        (
          required_string-ok t.endpoint _ h.endpoint_text,
          >>=-ok,
          required_string-ok t.session_id _ h.session_text,
          >>=-ok,
          required_string-ok t.token _ h.token_text,
          >>=-ok,
        )
        (throw_if-ok _ _ _ h.token_length)

pub check_transport-ok :
    (o : Option VsCodeTransportDescriptor) (mode : ConnectionMode)
    → Holds (λ t. mode ≡ vscode_remote) o
    → check_transport o mode ≡ ok tt
unfolding check_transport
check_transport-ok none openssh h = refl
check_transport-ok none vscode_remote h = refl
check_transport-ok (some t) vscode_remote h = refl
check_transport-ok (some t) openssh h = absurd (cc)

pub check_helper-ok : (mode : ConnectionMode) → check_helper (str (helper_name mode)) mode ≡ ok tt
unfolding check_helper throw_if
check_helper-ok openssh = refl
check_helper-ok vscode_remote = refl

pub parse_connection_mode-ok :
    (mode : ConnectionMode) → parse_connection_mode (str (mode_name mode)) ≡ mode
unfolding parse_connection_mode
parse_connection_mode-ok openssh = refl
parse_connection_mode-ok vscode_remote = refl

pub is_mode :
    (mode : ConnectionMode) → is_choice "openssh" "vscode-remote" (str (mode_name mode)) ≡ true
is_mode openssh = refl
is_mode vscode_remote = refl

pub is_helper :
    (mode : ConnectionMode) → is_choice "none" "vscode-extension" (str (helper_name mode)) ≡ true
is_helper openssh = refl
is_helper vscode_remote = refl

pub is_routing : (r : RemoteMcpRouting) → is_choice "auto" "local" (str (routing_name r)) ≡ true
is_routing auto_routing = refl
is_routing local_routing = refl

pub is_access : (a : RemoteMcpAccess) → is_choice "enabled" "all" (str (access_name a)) ≡ true
is_access enabled_access = refl
is_access all_access = refl

pub routing-ok :
    (r : RemoteMcpRouting)
    → (if is_text "local" (str (routing_name r)) then local_routing else auto_routing) ≡ r
routing-ok auto_routing = refl
routing-ok local_routing = refl

pub access-ok :
    (a : RemoteMcpAccess)
    → (if is_text "all" (str (access_name a)) then all_access else enabled_access) ≡ a
access-ok enabled_access = refl
access-ok all_access = refl

pub check_version-ok : check_version (num 2) ≡ ok tt
unfolding check_version throw_if
check_version-ok = refl

pub check_choices-ok : (c : BridgeConfig) → check_choices (config_value c) ≡ ok tt
unfolding check_choices lookup_field
check_choices-ok c =
    rw
      (
        is_mode c.connection_mode,
        is_helper c.connection_mode,
        is_routing c.remote_mcp_routing,
        is_access c.remote_mcp_access,
      )
      (unfold throw_if ◌>>◌ in refl)

pub ssh_executable-ok : (s : String) → is_blank (trim s) ≡ false → parse_ssh_executable (str s) ≡ s
ssh_executable-ok s h = rw h refl
