-- ===== src/Config/Accepted.antt =====
-- What `parseBridgeConfig` of src/core/config.ts accepts.
use remote_codex.Base.{
  ℕ, String, ◌≡◌, refl, subst, inl, inr, Bool, true, false, not, ◌||◌, Option, none, some, List,
  arith, if◌then◌else◌, Bool-cases, nat_key, string_key, some_inj, All,
}
use remote_codex.Errors.{ok, >>=-eq-ok, >>-eq-ok, throw_if-eq-ok, ok_inj}
use remote_codex.Json.{Value, undefined, null, num, str, obj, arr, bool, at, is_undefined, is_null}
use remote_codex.Background.Registry.{pair_key}
use remote_codex.Config.Text.{is_space, trim_start, trim_end, trim, is_blank}
use remote_codex.Config.Roots.{path_api}
use remote_codex.Config.Parse.{
  parse_workspace_roots, parse_identity_file, parse_ssh_user, parse_ssh_port, parse_transport,
  check_transport, parse_ssh_executable, is_nothing, parse_bridge_config,
}
use remote_codex.Config.Printed.{Holds, IsBetween, IsSshUser, IsTransport, IsIdentityFile, IsConfig}
use remote_codex.Config.{
  WorkspaceRootConfig, PathApi, is_number_of, BridgeConfig, ConnectionMode, openssh, vscode_remote,
  VsCodeTransportDescriptor,
}
use remote_codex.Config.Checks.{
  required_string-IsText, integer_in_range-IsBetween, parse_host-IsText,
}
use remote_codex.Config.RootChecks.{AreRoots, IsShown, version_1-AreRoots, version_2-AreRoots}

parse_ssh_user-IsSshUser :
    (v : Value) (o : Option String) → parse_ssh_user v ≡ ok o → Holds IsSshUser o
unfolding parse_ssh_user
parse_ssh_user-IsSshUser v none h = tt
parse_ssh_user-IsSshUser v (some user) h = elim (Bool-cases (is_nothing v)) [
  | inl nothing ↦ absurd (let e : none ≡ some user = ok_inj (rw nothing at h) in cc)
  | inr given ↦
      let h0 = rw given at h in
      let (text, found, h1) = >>=-eq-ok h0 in
      let (good, h2) = throw_if-eq-ok _ _ h1 in
      let same : text ≡ user = some_inj (ok_inj h2) in
      subst IsSshUser same (record {
        user_text = (required_string-IsText v _ text found).1;
        user_pattern = ground (arith, good);
        user_dash = ground (arith, good);
      })
]

parse_ssh_port-IsBetween :
    (v : Value) (o : Option ℕ) → parse_ssh_port v ≡ ok o → Holds (IsBetween 1 65535) o
unfolding parse_ssh_port
parse_ssh_port-IsBetween v none h = tt
parse_ssh_port-IsBetween v (some n) h = elim (Bool-cases (is_undefined v || is_null v)) [
  | inl nothing ↦ absurd (let e : none ≡ some n = ok_inj (rw nothing at h) in cc)
  | inr given ↦
      let h0 = rw given at h in
      let (port, found, h1) = >>=-eq-ok h0 in
      let same : port ≡ n = some_inj (ok_inj h1) in
      subst (IsBetween 1 65535) same (integer_in_range-IsBetween v _ _ _ _ port found)
]

parse_identity_file-IsIdentityFile :
    (posix win32 : PathApi) (v : Value) (o : Option String)
    → parse_identity_file posix win32 v ≡ ok o
    → Holds (IsIdentityFile posix win32) o
unfolding parse_identity_file
parse_identity_file-IsIdentityFile posix win32 v none h = tt
parse_identity_file-IsIdentityFile posix win32 v (some file) h = elim (Bool-cases (is_nothing v)) [
  | inl nothing ↦ absurd (let e : none ≡ some file = ok_inj (rw nothing at h) in cc)
  | inr given ↦
      let h0 = rw given at h in
      let (text, found, h1) = >>=-eq-ok h0 in
      let (good, h2) = throw_if-eq-ok _ _ h1 in
      let api = path_api posix win32 text in
      let same : text ≡ file = some_inj (ok_inj h2) in
      subst (IsIdentityFile posix win32) same (record {
        file_text = (required_string-IsText v _ text found).1;
        file_absolute = ground (arith, good);
        file_normalized = (string_key.same_iff (api.normalize text) text).0 (ground (arith, good));
      })
]

parse_transport-IsTransport :
    (v : Value) (o : Option VsCodeTransportDescriptor)
    → parse_transport v ≡ ok o
    → Holds IsTransport o
unfolding parse_transport
parse_transport-IsTransport v none h = tt
parse_transport-IsTransport v (some t) h = elim (Bool-cases (is_undefined v)) [
  | inl nothing ↦ absurd (let e : none ≡ some t = ok_inj (rw nothing at h) in cc)
  | inr given ↦
      let h0 = rw given at h in
      let (is_object, h1) = throw_if-eq-ok _ _ h0 in
      let (endpoint, found_endpoint, h2) = >>=-eq-ok h1 in
      let (session, found_session, h3) = >>=-eq-ok h2 in
      let (token, found_token, h4) = >>=-eq-ok h3 in
      let (long, h5) = throw_if-eq-ok _ _ h4 in
      let same : record { endpoint = endpoint; session_id = session; token = token } ≡ t =
        some_inj (ok_inj h5) in
      subst IsTransport same (record {
        endpoint_text = (required_string-IsText _ _ endpoint found_endpoint).1;
        session_text = (required_string-IsText _ _ session found_session).1;
        token_text = (required_string-IsText _ _ token found_token).1;
        token_length = long;
      })
]

check_transport-mode :
    (o : Option VsCodeTransportDescriptor) (mode : ConnectionMode)
    → check_transport o mode ≡ ok tt
    → Holds (λ t. mode ≡ vscode_remote) o
unfolding check_transport
check_transport-mode none mode h = tt
check_transport-mode (some t) vscode_remote h = refl
check_transport-mode (some t) openssh h = absurd (cc)

ssh-not_blank : is_blank (trim "ssh") ≡ false
unfolding trim trim_start trim_end is_space
ssh-not_blank = refl

trimmed_or-not_blank :
    (s : String) → is_blank (trim (if is_blank (trim s) then "ssh" else s)) ≡ false
trimmed_or-not_blank s = elim (Bool-cases (is_blank (trim s))) [
  | inl blank ↦ rw blank ssh-not_blank
  | inr filled ↦ rw (filled, filled) refl
]

parse_ssh_executable-not_blank : (v : Value) → is_blank (trim (parse_ssh_executable v)) ≡ false
parse_ssh_executable-not_blank (str s) = trimmed_or-not_blank s
parse_ssh_executable-not_blank undefined = ssh-not_blank
parse_ssh_executable-not_blank null = ssh-not_blank
parse_ssh_executable-not_blank (num n) = ssh-not_blank
parse_ssh_executable-not_blank (bool b) = ssh-not_blank
parse_ssh_executable-not_blank (obj fs) = ssh-not_blank
parse_ssh_executable-not_blank (arr vs) = ssh-not_blank

module _ (posix win32 : PathApi) where
  parse_workspace_roots-AreRoots :
      (v : Value) (is_version_1 : Bool) (roots : List WorkspaceRootConfig) (root : String)
      → parse_workspace_roots posix win32 v is_version_1 ≡ ok (roots, root)
      → AreRoots posix win32 roots root × (is_version_1 ≡ false → All IsShown roots)
  parse_workspace_roots-AreRoots v true roots root h =
      (version_1-AreRoots posix win32 v roots root h, λ e. absurd (cc))
  parse_workspace_roots-AreRoots v false roots root h =
      let (valid, shown) = version_2-AreRoots posix win32 v roots root h in (valid, λ e. shown)

  accepted :
      (v : Value) (c : BridgeConfig)
      → parse_bridge_config posix win32 v ≡ ok c
      → IsConfig posix win32 c × (is_number_of 2 (at "version" v) ≡ true → All IsShown c.roots)
  unfolding parse_bridge_config
  accepted v c h =
      let (is_object, h0) = throw_if-eq-ok _ _ h in
      let (host, found_host, h1) = >>=-eq-ok h0 in
      let (known, h2) = >>-eq-ok h1 in
      let (located, found_roots, h3) = >>=-eq-ok h2 in
      let (chosen, h4) = >>-eq-ok h3 in
      let (user, found_user, h5) = >>=-eq-ok h4 in
      let (port, found_port, h6) = >>=-eq-ok h5 in
      let (identity, found_identity, h7) = >>=-eq-ok h6 in
      let (helper, h8) = >>-eq-ok h7 in
      let (transport, found_transport, h9) = >>=-eq-ok h8 in
      let (moded, h10) = >>-eq-ok h9 in
      let (command_timeout, found_command, h11) = >>=-eq-ok h10 in
      let (output, found_output, h12) = >>=-eq-ok h11 in
      let (reads, found_reads, h13) = >>=-eq-ok h12 in
      let (connect, found_connect, h14) = >>=-eq-ok h13 in
      let (host_text, host_trimmed, host_plain) = parse_host-IsText v host found_host in
      let (are, shown) =
        parse_workspace_roots-AreRoots v (not (is_number_of 2 (at "version" v))) located.0 located.1
          found_roots in
      let same = ok_inj h14 in
      subst
        (λ x.
          IsConfig posix win32 x × (is_number_of 2 (at "version" v) ≡ true → All IsShown x.roots))
        same
        (
          record {
            host_text = host_text;
            host_trimmed = host_trimmed;
            host_plain = host_plain;
            roots_count = are.count;
            roots_valid = are.valid;
            ids_distinct = are.distinct_ids;
            paths_distinct = are.distinct_paths;
            primary_root = are.first;
            primary_only = are.only;
            primary_remote = are.remote;
            primary_path = are.path;
            user_valid = parse_ssh_user-IsSshUser _ user found_user;
            port_range = parse_ssh_port-IsBetween _ port found_port;
            identity_valid =
                parse_identity_file-IsIdentityFile posix win32 _ identity found_identity;
            executable_text = parse_ssh_executable-not_blank (at "sshExecutable" v);
            transport_valid = parse_transport-IsTransport _ transport found_transport;
            transport_mode = check_transport-mode transport _ moded;
            command_timeout_range =
                integer_in_range-IsBetween _ _ _ _ _ command_timeout found_command;
            output_range = integer_in_range-IsBetween _ _ _ _ _ output found_output;
            reads_range = integer_in_range-IsBetween _ _ _ _ _ reads found_reads;
            connect_range = integer_in_range-IsBetween _ _ _ _ _ connect found_connect;
          },
          λ two. shown (rw two refl),
        )

  -- What has been accepted is well formed: its numbers are in their ranges, its texts hold what they
  -- are tested for, its roots are 1 to 16 with different ids and different paths, exactly one of them
  -- is primary, and that one is remote and has the workspace's path; a transport comes with the
  -- connection mode vscode-remote alone.
  pub parse_bridge_config-IsConfig :
      (v : Value) (c : BridgeConfig)
      → parse_bridge_config posix win32 v ≡ ok c
      → IsConfig posix win32 c
  parse_bridge_config-IsConfig v c h = (accepted v c h).0

  pub parse_bridge_config-IsShown :
      (v : Value) (c : BridgeConfig)
      → parse_bridge_config posix win32 v ≡ ok c
      → is_number_of 2 (at "version" v) ≡ true
      → All IsShown c.roots
  parse_bridge_config-IsShown v c h = (accepted v c h).1
