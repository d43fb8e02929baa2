-- ===== src/LocalCore/Tests.antt =====
-- Requests and arguments that src/shim/local-core-policy.ts decides on, and witnesses of its theorems.
use remote_codex.Base.{String, ◌≡◌, refl, true, none, some, List, [], ◌∷◌, string_key, nat_key}
use text.Mathlib.Text.{starts_with}
use remote_codex.Json.{Value, str, bool, num, obj, field, end, lookup_field, has_field}
use remote_codex.LocalCore.{
  Paths, pasted_text, allowed_local_attachment_request, managed_attachment_path_kind,
  kind_of_segments, split, matches, equal_codes, is_allowed_method, with_remote_core_policy,
  as_options, remote_permission_overrides, index_of_text,
}
use remote_codex.LocalCore.Laws.{
  IsLetThrough, allowed_local_attachment_request-IsLetThrough, insert_before,
  with_remote_core_policy-insert_before,
}

-- A slash, and then the path below the one root `/a`.
abbrev below_a : String → String
below_a (String.◌∷◌ slash (String.◌∷◌ a (String.◌∷◌ again s))) = s
below_a s = s

abbrev slashes : Paths
slashes = record {
  is_absolute = (λ s. starts_with s "/");
  relative = (λ root s. below_a s);
  resolve = (λ s. s);
  separator = 47;
}

abbrev removal : Value
removal = obj (
    field "method" (str "fs/remove") (
      field "id" (num 7) (
        field "params"
          (obj (
            field "path" (str "/a/0123abcd-0123-4567-89AB-0123456789ab/pasted-text.txt")
              (field "force" (bool true) end)))
          end)))

removal_allowed : allowed_local_attachment_request slashes removal "/a" ≡ some pasted_text
unfolding allowed_local_attachment_request managed_attachment_path_kind kind_of_segments split
    matches equal_codes is_allowed_method lookup_field has_field
removal_allowed = refl

allowed_local_attachment_request-IsLetThrough_example :
    IsLetThrough slashes removal "/a" pasted_text
allowed_local_attachment_request-IsLetThrough_example =
    allowed_local_attachment_request-IsLetThrough slashes removal "/a" pasted_text removal_allowed

abbrev invocation : List String
invocation = "--verbose" ∷ "app-server" ∷ "--listen" ∷ []

with_remote_core_policy-insert_before_example :
    with_remote_core_policy invocation
    ≡ insert_before (as_options remote_permission_overrides) invocation
with_remote_core_policy-insert_before_example = with_remote_core_policy-insert_before invocation

no_server : with_remote_core_policy ("exec" ∷ []) ≡ none
unfolding with_remote_core_policy index_of_text
no_server = refl
