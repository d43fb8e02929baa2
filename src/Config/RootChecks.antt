-- ===== src/Config/RootChecks.antt =====
-- src/core/config.ts: what follows when the roots have been accepted.
use remote_codex.Base.{
  ℕ, suc, String, ◌≡◌, refl, ap, subst, true, false, not, List, [], ◌∷◌, map, arith, Eq, ◌==◌,
  nat_key, string_key, ==_sym, length, filter_by, All, has, add, has-add,
}
use remote_codex.Errors.{ok, >>=-eq-ok, >>-eq-ok, throw_if-eq-ok, ok_inj}
use remote_codex.Json.{Value, undefined, null, num, str, obj, arr, bool, Items, no_items, item, at}
use remote_codex.Background.Calls.{codes}
use remote_codex.Background.Registry.{TaskKey, pair_key}
use remote_codex.Config.Text.{is_space, trim_start, trim_end, trim, IsText}
use remote_codex.Config.Roots.{
  is_remote_root, normalized_remote_root, normalized_local_root, is_local_root,
  default_remote_primary_root, allows_filesystem_root, parse_workspace_root, parse_id, parse_path,
}
use remote_codex.Config.Parse.{
  path_identity, check_unique, primary_path, parse_all, parse_workspace_roots, items_length,
  root_items,
}
use remote_codex.Config.Printed.{Distinct, IsBetween, IsDisplayName, IsRoot, is_root_path}
use remote_codex.Config.{
  WorkspaceTarget, WorkspaceAccessRole, local_target, remote_target, WorkspaceRootConfig, PathApi,
  is_root_id, is_remote, is_primary,
}
use remote_codex.Config.Checks.{
  trimmed-IsText, kept-IsText, holds_of_negated, parse_display_name-IsDisplayName,
}

absent_from_larger :
    {K : Type 0} ⦃e : Eq K⦄ (k j : K) (ks : List K)
    → has j (add k ks) ≡ false
    → ((k == j) ≡ false) × (has j ks ≡ false)
absent_from_larger k j ks h = ground (arith, has-add k j ks)

-- No key of the one list is in the other.
abbrev pub Apart : {K : Type 0} ⦃e : Eq K⦄ → List K → List K → Type 0
Apart seen [] = Unit
Apart seen (k ∷ ks) = (has k seen ≡ false) × Apart seen ks

Apart-add :
    {K : Type 0} ⦃e : Eq K⦄ (k : K) (seen ks : List K)
    → Apart (add k seen) ks
    → (has k ks ≡ false) × Apart seen ks
unfolding has
Apart-add k seen [] h = (refl, tt)
Apart-add k seen (j ∷ ks) h =
    let (differs, new) = absent_from_larger k j seen h.0 in
    let (later, apart) = Apart-add k seen ks h.1 in ((rw (==_sym j k, differs) later), (new, apart))

check_unique-Distinct :
    (roots : List WorkspaceRootConfig) (ids : List String) (paths : List TaskKey)
    → check_unique roots ids paths ≡ ok tt
    → (Distinct (map (λ r. r.id) roots) × Apart ids (map (λ r. r.id) roots))
      × (Distinct (map path_identity roots) × Apart paths (map path_identity roots))
unfolding check_unique
check_unique-Distinct [] ids paths h = ((tt, tt), (tt, tt))
check_unique-Distinct (r ∷ roots) ids paths h =
    let (new_id, h1) = throw_if-eq-ok _ _ h in
    let (new_path, h2) = throw_if-eq-ok _ _ h1 in
    let (i, p) = check_unique-Distinct roots (add r.id ids) (add (path_identity r) paths) h2 in
    let (a, b) = Apart-add r.id ids (map (λ r. r.id) roots) i.1 in
    let (c, d) = Apart-add (path_identity r) paths (map path_identity roots) p.1 in
    (((a, i.0), (new_id, b)), ((c, p.0), (new_path, d)))

module _ (posix win32 : PathApi) where
  parse_path-IsText :
      (v : Value) (name id : String) (role : WorkspaceAccessRole) (target : WorkspaceTarget)
      (s : String)
      → parse_path posix win32 v name id role target ≡ ok s
      → IsText s
        × ((name : String)
            → is_root_path posix win32
                (record { display_name = name; id = id; path = s; role = role; target = target })
              ≡ true)
  unfolding parse_path normalized_remote_root normalized_local_root
  parse_path-IsText v name id role remote_target s h =
      let (text, good) = kept-IsText (λ p. not (is_remote_root posix win32 p)) v _ _ s h in
      (text, λ n. holds_of_negated _ good)
  parse_path-IsText v name id role local_target s h =
      let (text, good) =
        kept-IsText (λ p. not (is_local_root posix win32 (allows_filesystem_root id role) p)) v _ _
          s h in
      (text, λ n. holds_of_negated _ good)

  parse_workspace_root-IsRoot :
      (v : Value) (index : ℕ) (r : WorkspaceRootConfig)
      → parse_workspace_root posix win32 v index ≡ ok r
      → IsRoot posix win32 r × IsDisplayName r.display_name
  unfolding parse_workspace_root parse_id
  parse_workspace_root-IsRoot v index r h =
      let (is_object, h0) = throw_if-eq-ok _ _ h in
      let (id, found_id, h1) = >>=-eq-ok h0 in
      let (target, found_target, h2) = >>=-eq-ok h1 in
      let (role, found_role, h3) = >>=-eq-ok h2 in
      let (display_name, found_name, h4) = >>=-eq-ok h3 in
      let (path, found_path, h5) = >>=-eq-ok h4 in
      let (text, trimmed, pattern) =
        trimmed-IsText (λ t. not (is_root_id (codes t))) (at "id" v) _ _ id found_id in
      let (path_text, path_root) =
        parse_path-IsText (at "path" v) _ id role target path found_path in
      let shown = parse_display_name-IsDisplayName (at "displayName" v) _ display_name found_name in
      let same : record {
        display_name = display_name;
        id = id;
        path = path;
        role = role;
        target = target;
      }
          ≡ r =
        ok_inj h5 in
      subst (λ x. IsRoot posix win32 x × IsDisplayName x.display_name) same
        (
          record {
            id_text = text;
            id_trimmed = trimmed;
            id_pattern = holds_of_negated _ pattern;
            path_text = path_text;
            path_root = path_root display_name;
          },
          shown,
        )

  parse_all-IsRoot :
      (vs : Items) (index : ℕ) (roots : List WorkspaceRootConfig)
      → parse_all posix win32 vs index ≡ ok roots
      → All (λ r. IsRoot posix win32 r × IsDisplayName r.display_name) roots
        × (length roots ≡ items_length vs)
  unfolding parse_all
  parse_all-IsRoot no_items index roots h =
      let same : [] ≡ roots = ok_inj h in
      subst (λ x. All (λ r. IsRoot posix win32 r × IsDisplayName r.display_name) x × (length x ≡ 0))
        same (tt, refl)
  parse_all-IsRoot (item v vs) index roots h =
      let (root, found, h1) = >>=-eq-ok h in
      let (rest, rest_found, h2) = >>=-eq-ok h1 in
      let (valid, count) = parse_all-IsRoot vs (suc index) rest rest_found in
      let same : root ∷ rest ≡ roots = ok_inj h2 in
      subst
        (λ x.
          All (λ r. IsRoot posix win32 r × IsDisplayName r.display_name) x
          × (length x ≡ suc (items_length vs)))
        same ((parse_workspace_root-IsRoot v index root found, valid), ap suc count)

  root_items-length :
      (v : Value) (vs : Items) → root_items v ≡ ok vs → IsBetween 1 16 (items_length vs)
  unfolding root_items
  root_items-length (arr ws) vs h =
      let (count, e) = throw_if-eq-ok _ _ h in
      let same : ws ≡ vs = ok_inj e in
      subst (λ x. IsBetween 1 16 (items_length x)) same (ground arith)
  root_items-length (str s) vs h = absurd (cc)
  root_items-length undefined vs h = absurd (cc)
  root_items-length null vs h = absurd (cc)
  root_items-length (num n) vs h = absurd (cc)
  root_items-length (bool b) vs h = absurd (cc)
  root_items-length (obj fs) vs h = absurd (cc)

-- The roots of a configuration and the workspace's.
pub record AreRoots (posix win32 : PathApi) (roots : List WorkspaceRootConfig) (root : String)
    : Type 0 where
  pub count : IsBetween 1 16 (length roots)
  pub valid : All (IsRoot posix win32) roots
  pub distinct_ids : Distinct (map (λ r. r.id) roots)
  pub distinct_paths : Distinct (map path_identity roots)
  pub first : WorkspaceRootConfig
  pub only : filter_by is_primary roots ≡ first ∷ []
  pub remote : first.target ≡ remote_target
  pub path : first.path ≡ root

is_remote-eq : (t : WorkspaceTarget) → is_remote t ≡ true → t ≡ remote_target
is_remote-eq local_target h = absurd (cc)
is_remote-eq remote_target h = refl

primary_path-eq-ok :
    (found : List WorkspaceRootConfig) (root : String)
    → primary_path found ≡ ok root
    → (r : WorkspaceRootConfig) × (found ≡ r ∷ []) × (r.target ≡ remote_target) × (r.path ≡ root)
unfolding primary_path
primary_path-eq-ok [] root h = absurd (cc)
primary_path-eq-ok (r ∷ s ∷ rs) root h = absurd (cc)
primary_path-eq-ok (r ∷ []) root h =
    let (remote, e) = throw_if-eq-ok _ _ h in
    (r, refl, is_remote-eq r.target (holds_of_negated _ remote), ok_inj e)

module _ {ℓ κ μ} {A : Type ℓ} (P : A → Type κ) (Q : A → Type μ) where
  All-left : (xs : List A) → All (λ a. P a × Q a) xs → All P xs
  All-left [] h = tt
  All-left (x ∷ xs) h = (h.0.0, All-left xs h.1)

  All-right : (xs : List A) → All (λ a. P a × Q a) xs → All Q xs
  All-right [] h = tt
  All-right (x ∷ xs) h = (h.0.1, All-right xs h.1)

abbrev pub IsShown : WorkspaceRootConfig → Type 0
IsShown r = IsDisplayName r.display_name

module _ (posix win32 : PathApi) where
  remote_primary-IsRoot :
      (root : String)
      → IsText root
      → is_remote_root posix win32 root ≡ true
      → IsRoot posix win32 (default_remote_primary_root posix win32 root)
  unfolding default_remote_primary_root
  remote_primary-IsRoot root text good = record {
    id_text =
        unfold trim trim_start trim_end is_space in record { not_blank = refl; no_nul = refl };
    id_trimmed = unfold trim trim_start trim_end is_space in refl;
    id_pattern = refl;
    path_text = text;
    path_root = good;
  }

  pub version_1-AreRoots :
      (v : Value) (roots : List WorkspaceRootConfig) (root : String)
      → parse_workspace_roots posix win32 v true ≡ ok (roots, root)
      → AreRoots posix win32 roots root
  unfolding parse_workspace_roots normalized_remote_root default_remote_primary_root
  version_1-AreRoots v roots root h =
      let (nothing, h1) = throw_if-eq-ok _ _ h in
      let (path, found, h2) = >>=-eq-ok h1 in
      let (text, good) =
        kept-IsText (λ p. not (is_remote_root posix win32 p)) (at "workspaceRoot" v) _ _ path
          found in
      let same : (default_remote_primary_root posix win32 path ∷ [], path) ≡ (roots, root) =
        ok_inj h2 in
      subst (λ x. AreRoots posix win32 x.0 x.1) same
        (record {
          count = omega arith;
          valid = (remote_primary-IsRoot path text (holds_of_negated _ good), tt);
          distinct_ids = (unfold has in refl, tt);
          distinct_paths = (unfold has in refl, tt);
          first = default_remote_primary_root posix win32 path;
          only = refl;
          remote = refl;
          path = refl;
        })

  pub version_2-AreRoots :
      (v : Value) (roots : List WorkspaceRootConfig) (root : String)
      → parse_workspace_roots posix win32 v false ≡ ok (roots, root)
      → AreRoots posix win32 roots root × All IsShown roots
  unfolding parse_workspace_roots
  version_2-AreRoots v roots root h =
      let (items, found_items, h1) = >>=-eq-ok h in
      let (parsed, found, h2) = >>=-eq-ok h1 in
      let (unique, h3) = >>-eq-ok h2 in
      let (path, found_path, h4) = >>=-eq-ok h3 in
      let (agrees, h5) = >>-eq-ok h4 in
      let (both, size) = parse_all-IsRoot posix win32 items 0 parsed found in
      let (ids, paths) = check_unique-Distinct parsed [] [] unique in
      let (first, only, remote, is_path) = primary_path-eq-ok _ path found_path in
      let (low, high) = root_items-length posix win32 (at "roots" v) items found_items in
      let same : (parsed, path) ≡ (roots, root) = ok_inj h5 in
      subst (λ x. AreRoots posix win32 x.0 x.1 × All IsShown x.0) same
        (
          record {
            count = (omega (arith, size, low), omega (arith, size, high));
            valid = All-left (IsRoot posix win32) IsShown parsed both;
            distinct_ids = ids.0;
            distinct_paths = paths.0;
            first = first;
            only = only;
            remote = remote;
            path = is_path;
          },
          All-right (IsRoot posix win32) IsShown parsed both,
        )
