-- ===== src/Config/RoundTrip.antt =====
-- src/core/config.ts: a configuration is read back from the object that it is.
mod Texts
mod Roots
mod Options
use remote_codex.Base.{
  ◌≡◌, refl, ◌∙◌, subst, inl, inr, Bool, true, false, List, [], ◌∷◌, Bool-cases, nat_key,
  string_key, ==_refl, filter_by, All,
}
use remote_codex.Errors.{ok, ◌>>◌, throw_if, >>=-ok, throw_if-ok}
use remote_codex.Json.{str, lookup_field}
use remote_codex.Config.Text.{IsText}
use remote_codex.Config.Roots.{is_remote_root}
use remote_codex.Config.Parse.{
  check_workspace_root, primary_path, parse_workspace_roots, parse_bridge_config,
}
use remote_codex.Config.Printed.{config_value, IsRoot, IsConfig}
use remote_codex.Config.{PathApi, is_primary, BridgeConfig, parse_host}
use remote_codex.Config.RootChecks.{IsShown}
use remote_codex.Config.RoundTrip.Texts.{required_string-ok, integer_in_range-ok}
use remote_codex.Config.RoundTrip.Roots.{
  normalized_remote_root-ok, parse_all-ok, root_items-ok, check_unique-ok, Apart-nil,
  primary_path-ok,
}
use remote_codex.Config.RoundTrip.Options.{
  parse_ssh_user-ok, parse_ssh_port-ok, parse_identity_file-ok, parse_transport-ok,
  check_transport-ok, check_helper-ok, parse_connection_mode-ok, routing-ok, access-ok,
  check_version-ok, check_choices-ok, ssh_executable-ok,
}

All-filter_by {ℓ κ} :
    {A : Type ℓ} (P : A → Type κ) (p : A → Bool) (xs : List A) → All P xs → All P (filter_by p xs)
All-filter_by P p [] h = tt
All-filter_by P p (x ∷ xs) h = elim (Bool-cases (p x)) [
  | inl keeps ↦ rw keeps (h.0, All-filter_by P p xs h.1)
  | inr drops ↦ rw drops (All-filter_by P p xs h.1)
]

module _ (posix win32 : PathApi) (c : BridgeConfig) (valid : IsConfig posix win32 c) where
  primary-IsRoot : IsRoot posix win32 valid.primary_root
  primary-IsRoot =
      let kept = All-filter_by (IsRoot posix win32) is_primary c.roots valid.roots_valid in
      let one : All (IsRoot posix win32) (valid.primary_root ∷ []) =
        subst (All (IsRoot posix win32)) valid.primary_only kept in
      one.0

  workspace_root-ok :
      check_workspace_root posix win32 (str c.workspace_root) c.workspace_root ≡ ok tt
  unfolding check_workspace_root
  workspace_root-ok =
      let text = subst IsText valid.primary_path primary-IsRoot.path_text in
      let good =
        subst (λ x. is_remote_root posix win32 x ≡ true) valid.primary_path
          (rw valid.primary_remote at primary-IsRoot.path_root) in
      rw (normalized_remote_root-ok posix win32 c.workspace_root _ text good, >>=-ok)
        (rw (==_refl c.workspace_root) (unfold throw_if in refl))

  parse_workspace_roots-ok :
      All IsShown c.roots
      → parse_workspace_roots posix win32 (config_value c) false ≡ ok (c.roots, c.workspace_root)
  unfolding parse_workspace_roots lookup_field
  parse_workspace_roots-ok shown =
      rw
        (
          root_items-ok c.roots valid.roots_count,
          >>=-ok,
          parse_all-ok posix win32 c.roots 0 valid.roots_valid shown,
          >>=-ok,
          check_unique-ok c.roots [] [] valid.ids_distinct (Apart-nil _) valid.paths_distinct
              (Apart-nil _),
          primary_path-ok _ valid.primary_root valid.primary_only valid.primary_remote,
          >>=-ok,
          valid.primary_path,
          workspace_root-ok,
        )
        (unfold ◌>>◌ in refl)

  parse_host-ok : parse_host (config_value c) ≡ ok c.host
  unfolding parse_host lookup_field
  parse_host-ok =
      rw (required_string-ok c.host "host" valid.host_text, >>=-ok, valid.host_trimmed)
        (throw_if-ok _ _ _ valid.host_plain)

  -- A well-formed configuration, whose roots have names that may be shown, is read back, unchanged, from
  -- the object that it is.
  pub parse_bridge_config-config_value :
      All IsShown c.roots → parse_bridge_config posix win32 (config_value c) ≡ ok c
  unfolding parse_bridge_config lookup_field
  parse_bridge_config-config_value shown =
      throw_if-ok _ _ _ refl
      ∙ rw
          (
            parse_host-ok,
            >>=-ok,
            parse_workspace_roots-ok shown,
            >>=-ok,
            check_choices-ok c,
            parse_ssh_user-ok c.ssh_user valid.user_valid,
            >>=-ok,
            parse_ssh_port-ok c.ssh_port valid.port_range,
            >>=-ok,
            parse_identity_file-ok posix win32 c.identity_file valid.identity_valid,
            >>=-ok,
            check_version-ok,
            parse_connection_mode-ok c.connection_mode,
            check_helper-ok c.connection_mode,
            parse_transport-ok c.vscode_transport valid.transport_valid,
            >>=-ok,
            check_transport-ok c.vscode_transport c.connection_mode valid.transport_mode,
            integer_in_range-ok c.command_timeout_ms 120000 1000 3600000 _
                valid.command_timeout_range,
            >>=-ok,
            integer_in_range-ok c.max_output_bytes 10485760 1024 104857600 _ valid.output_range,
            >>=-ok,
            integer_in_range-ok c.max_parallel_reads 8 1 64 _ valid.reads_range,
            >>=-ok,
            integer_in_range-ok c.connect_timeout_seconds 10 1 120 _ valid.connect_range,
            >>=-ok,
            routing-ok c.remote_mcp_routing,
            access-ok c.remote_mcp_access,
            ssh_executable-ok c.ssh_executable valid.executable_text,
          )
          (unfold ◌>>◌ in refl)
