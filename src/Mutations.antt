-- ===== src/Mutations.antt =====
-- src/core/workspace-mutations.ts: the checks of a write, and patches of text files. A text is the list
-- of its UTF-16 code units.
pub mod Patches
mod Tests
use remote_codex.Base.{
  ℕ, suc, ◌+◌, Bool, true, false, not, ◌&&◌, ◌||◌, Option, none, some, List, [], ◌∷◌, ◌++◌, ltb,
  leb, nat_eq, if◌then◌else◌, length, take, drop, all,
}
use remote_codex.Errors.{Result, ok, err, bridge_error, BridgeErrorCode}

abbrev pub max_workspace_write_bytes : ℕ
max_workspace_write_bytes = 1048576

abbrev pub max_workspace_patch_replacements : ℕ
max_workspace_patch_replacements = 64

-- `[0-9a-f]`.
abbrev pub is_lower_hex : ℕ → Bool
is_lower_hex c = (leb 48 c && leb c 57) || (leb 97 c && leb c 102)

-- `SHA256_PATTERN`.
unfoldable pub is_sha256 : List ℕ → Bool
is_sha256 text = nat_eq (length text) 64 && all is_lower_hex text

unfoldable pub validate_expected_hash : Option (List ℕ) → Bool → Result (Option (List ℕ))
validate_expected_hash none required =
    if required
    then err
        (bridge_error BridgeErrorCode.file_conflict "expectedHash is required for an existing file")
    else ok none
validate_expected_hash (some value) required =
    if not (is_sha256 value)
    then err (
        bridge_error BridgeErrorCode.protocol_mismatch
          "expectedHash must be a lowercase SHA-256 digest")
    else ok (some value)

abbrev pub is_alphanumeric : ℕ → Bool
is_alphanumeric c = (leb 48 c && leb c 57) || (leb 65 c && leb c 90) || (leb 97 c && leb c 122)

-- `[A-Za-z0-9+/]`; `=` is 61.
abbrev pub is_base64_char : ℕ → Bool
is_base64_char c = is_alphanumeric c || nat_eq c 43 || nat_eq c 47

-- The pattern of `decodeWorkspaceContent`: groups of four, of which the last may be padded.
unfoldable pub is_base64 : List ℕ → Bool
is_base64 [] = true
is_base64 (a ∷ b ∷ c ∷ d ∷ cs) =
    let rest = is_base64 cs in
    let full =
      is_base64_char a && is_base64_char b && is_base64_char c && is_base64_char d && rest in
    let padded =
      is_base64_char a
      && is_base64_char b
      && nat_eq d 61
      && (is_base64_char c || nat_eq c 61)
      && nat_eq (length cs) 0 in
    full || padded
is_base64 _ = false

-- `Buffer.from(text, "base64")` is the platform's.
module _ (from_base64 : List ℕ → List ℕ) where
  unfoldable pub decode_workspace_content : List ℕ → ℕ → Result (List ℕ)
  decode_workspace_content text max_bytes =
      if not (is_base64 text)
      then err (bridge_error BridgeErrorCode.protocol_mismatch "contentBase64 must be valid base64")
      else if ltb max_bytes (length (from_base64 text))
      then err (
          bridge_error BridgeErrorCode.output_truncated
            "Workspace write exceeds the configured byte limit")
      else ok (from_base64 text)

unfoldable pub is_prefix : List ℕ → List ℕ → Bool
is_prefix [] text = true
is_prefix (c ∷ cs) [] = false
is_prefix (c ∷ cs) (d ∷ ds) = nat_eq c d && is_prefix cs ds

abbrev pub next_index : Option ℕ → Option ℕ
next_index none = none
next_index (some n) = some (suc n)

-- `text.indexOf(pattern)`, and `none` for -1.
unfoldable pub index_of : List ℕ → List ℕ → Option ℕ
index_of pattern [] = if is_prefix pattern [] then some 0 else none
index_of pattern (c ∷ cs) =
    let rest = index_of pattern cs in if is_prefix pattern (c ∷ cs) then some 0 else next_index rest

abbrev pub is_found : Option ℕ → Bool
is_found none = false
is_found (some n) = true

pub record WorkspacePatchReplacement : Type 0 where
  pub old_text : List ℕ
  pub new_text : List ℕ

-- The body of the loop of `applyWorkspacePatch`.
unfoldable pub replace : WorkspacePatchReplacement → List ℕ → Result (List ℕ)
replace r text =
    if nat_eq (length r.old_text) 0
    then err (
        bridge_error BridgeErrorCode.protocol_mismatch
          "Each replacement requires non-empty oldText and string newText")
    else elim (index_of r.old_text text) [
      | none ↦ err (
          bridge_error BridgeErrorCode.file_conflict
            "Patch source text was not found in the current file")
      | some first ↦
          if is_found (index_of r.old_text (drop (first + length r.old_text) text))
          then err (
              bridge_error BridgeErrorCode.file_conflict
                "Patch source text is ambiguous in the current file")
          else ok (take first text ++ r.new_text ++ drop (first + length r.old_text) text)
    ]

unfoldable pub replace_all : List WorkspacePatchReplacement → List ℕ → Result (List ℕ)
replace_all [] text = ok text
replace_all (r ∷ rs) text = elim (replace r text) [ err e ↦ err e | ok next ↦ replace_all rs next ]

-- The strict UTF-8 decoder and the encoder are the platform's.
module _ (decode : List ℕ → Option (List ℕ)) (encode : List ℕ → List ℕ) where
  unfoldable pub apply_workspace_patch : List ℕ → List WorkspacePatchReplacement → Result (List ℕ)
  apply_workspace_patch content replacements =
      if ltb (length replacements) 1 || ltb max_workspace_patch_replacements (length replacements)
      then err (
          bridge_error BridgeErrorCode.protocol_mismatch
            "replacements must contain 1 to 64 entries")
      else elim (decode content) [
        | none ↦ err (
            bridge_error BridgeErrorCode.command_denied
              "Workspace patches require a valid UTF-8 text file")
        | some text ↦ elim (replace_all replacements text) [
          | err e ↦ err e
          | ok next ↦ ok (encode next)
        ]
      ]
