-- ===== src/Config/RoundTrip/Roots.antt =====
-- src/core/config.ts: the roots of a configuration are read back.
use remote_codex.Base.{
  ℕ, suc, String, ◌≡◌, refl, ap, ◌∙◌, true, false, List, [], ◌∷◌, map, arith, Eq, nat_key,
  string_key, ==_sym, length, All, has, add, has-add,
}
use remote_codex.Errors.{ok, >>=-ok, throw_if-ok}
use remote_codex.Json.{str, arr, lookup_field}
use remote_codex.Background.Calls.{codes}
use remote_codex.Background.Registry.{TaskKey, pair_key}
use remote_codex.Config.Text.{trim, IsText}
use remote_codex.Config.Roots.{
  is_remote_root, normalized_remote_root, normalized_local_root, parse_workspace_root, parse_id,
  parse_target, parse_role, parse_display_name, parse_path,
}
use remote_codex.Config.Parse.{
  path_identity, check_unique, primary_path, parse_all, items_length, root_items,
}
use remote_codex.Config.Printed.{
  Distinct, root_value, root_values, IsBetween, IsDisplayName, IsRoot, is_root_path,
}
use remote_codex.Config.{
  WorkspaceTarget, WorkspaceAccessRole, local_target, remote_target, WorkspaceRootConfig, PathApi,
  is_root_id, target_name, role_name, primary, secondary,
}
use remote_codex.Config.RootChecks.{Apart, IsShown}
use remote_codex.Config.RoundTrip.Texts.{required_string-ok}

pub parse_id-ok :
    (s name : String)
    → IsText s
    → trim s ≡ s
    → is_root_id (codes s) ≡ true
    → parse_id (str s) name ≡ ok s
unfolding parse_id
parse_id-ok s name t trimmed pattern =
    rw (required_string-ok s _ t, >>=-ok, trimmed) (throw_if-ok _ _ _ (rw pattern refl))

pub parse_display_name-ok :
    (s name : String) → IsDisplayName s → parse_display_name (str s) name ≡ ok s
unfolding parse_display_name
parse_display_name-ok s name d =
    rw (required_string-ok s _ d.name_text, >>=-ok, d.name_trimmed)
      (throw_if-ok _ _ _ d.name_length)

pub parse_target-ok :
    (t : WorkspaceTarget) (name : String) → parse_target (str (target_name t)) name ≡ ok t
unfolding parse_target
parse_target-ok local_target name = refl
parse_target-ok remote_target name = refl

pub parse_role-ok :
    (r : WorkspaceAccessRole) (name : String) → parse_role (str (role_name r)) name ≡ ok r
unfolding parse_role
parse_role-ok primary name = refl
parse_role-ok secondary name = refl

module _ (posix win32 : PathApi) where
  pub normalized_remote_root-ok :
      (s name : String)
      → IsText s
      → is_remote_root posix win32 s ≡ true
      → normalized_remote_root posix win32 (str s) name ≡ ok s
  unfolding normalized_remote_root
  normalized_remote_root-ok s name t good =
      rw (required_string-ok s name t, >>=-ok) (throw_if-ok _ _ _ (rw good refl))

  pub parse_path-ok :
      (name display_name id path : String) (role : WorkspaceAccessRole) (target : WorkspaceTarget)
      → IsText path
      → is_root_path posix win32 (record {
        display_name = display_name;
        id = id;
        path = path;
        role = role;
        target = target;
      })
        ≡ true
      → parse_path posix win32 (str path) name id role target ≡ ok path
  unfolding parse_path normalized_local_root
  parse_path-ok name display_name id path role remote_target t good =
      normalized_remote_root-ok path name t good
  parse_path-ok name display_name id path role local_target t good =
      rw (required_string-ok path name t, >>=-ok) (throw_if-ok _ _ _ (rw good refl))

  pub parse_workspace_root-ok :
      (r : WorkspaceRootConfig) (index : ℕ)
      → IsRoot posix win32 r
      → IsShown r
      → parse_workspace_root posix win32 (root_value r) index ≡ ok r
  unfolding parse_workspace_root lookup_field
  parse_workspace_root-ok r index valid shown =
      throw_if-ok _ _ _ refl
      ∙ rw
          (
            parse_id-ok r.id _ valid.id_text valid.id_trimmed valid.id_pattern,
            >>=-ok,
            parse_target-ok,
            >>=-ok,
            parse_role-ok,
            >>=-ok,
            parse_display_name-ok r.display_name _ shown,
            >>=-ok,
            parse_path-ok _ r.display_name r.id r.path r.role r.target valid.path_text
                valid.path_root,
            >>=-ok,
          )
          refl

  pub parse_all-ok :
      (roots : List WorkspaceRootConfig) (index : ℕ)
      → All (IsRoot posix win32) roots
      → All IsShown roots
      → parse_all posix win32 (root_values roots) index ≡ ok roots
  unfolding parse_all
  parse_all-ok [] index valid shown = refl
  parse_all-ok (r ∷ roots) index valid shown =
      rw
        (
          parse_workspace_root-ok r index valid.0 shown.0,
          >>=-ok,
          parse_all-ok roots (suc index) valid.1 shown.1,
          >>=-ok,
        )
        refl

pub items_length-root_values :
    (roots : List WorkspaceRootConfig) → items_length (root_values roots) ≡ length roots
items_length-root_values [] = refl
items_length-root_values (r ∷ roots) = ap suc (items_length-root_values roots)

pub root_items-ok :
    (roots : List WorkspaceRootConfig)
    → IsBetween 1 16 (length roots)
    → root_items (arr (root_values roots)) ≡ ok (root_values roots)
unfolding root_items
root_items-ok roots h = throw_if-ok _ _ _ (ground (arith, h.0, h.1, items_length-root_values roots))

pub add-Apart :
    {K : Type 0} ⦃e : Eq K⦄ (k : K) (seen ks : List K)
    → has k ks ≡ false
    → Apart seen ks
    → Apart (add k seen) ks
unfolding has
add-Apart k seen [] h apart = tt
add-Apart ⦃e⦄ k seen (j ∷ ks) h apart = (
  ground (arith, has-add k j seen, apart.0, ==_sym k j),
  add-Apart k seen ks (ground arith) apart.1,
)

pub check_unique-ok :
    (roots : List WorkspaceRootConfig) (ids : List String) (paths : List TaskKey)
    → Distinct (map (λ r. r.id) roots)
    → Apart ids (map (λ r. r.id) roots)
    → Distinct (map path_identity roots)
    → Apart paths (map path_identity roots)
    → check_unique roots ids paths ≡ ok tt
unfolding check_unique
check_unique-ok [] ids paths di ai dp ap = refl
check_unique-ok (r ∷ roots) ids paths di ai dp ap =
    throw_if-ok _ _ _ ai.0
    ∙ throw_if-ok _ _ _ ap.0
    ∙ check_unique-ok roots _ _ di.1 (add-Apart r.id ids (map (λ r. r.id) roots) di.0 ai.1) dp.1
        (add-Apart (path_identity r) paths (map path_identity roots) dp.0 ap.1)

pub Apart-nil : {K : Type 0} ⦃e : Eq K⦄ (ks : List K) → Apart [] ks
unfolding has
Apart-nil [] = tt
Apart-nil (k ∷ ks) = (refl, Apart-nil ks)

pub primary_path-ok :
    (found : List WorkspaceRootConfig) (first : WorkspaceRootConfig)
    → found ≡ first ∷ []
    → first.target ≡ remote_target
    → primary_path found ≡ ok first.path
unfolding primary_path
primary_path-ok found first only remote = rw only (throw_if-ok _ _ _ (rw remote refl))
