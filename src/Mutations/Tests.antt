-- ===== src/Mutations/Tests.antt =====
-- Patches at texts (src/core/workspace-mutations.ts).
use remote_codex.Base.{
  ℕ, zero, suc, ◌+◌, ◌<◌, ◌≡◌, refl, ap, ◌≢◌, true, false, some, List, [], ◌∷◌, ◌++◌, arith,
  nat_key, string_key, length, take, drop, drop-nil,
}
use remote_codex.Errors.{ok}
use remote_codex.Mutations.{
  WorkspacePatchReplacement, is_prefix, index_of, replace, replace_all, apply_workspace_patch,
  is_base64,
}
use remote_codex.Mutations.Patches.{occurs_at, replace_lem, replace-occurs_at}

abbrev swap : WorkspacePatchReplacement
swap = record { old_text = 2 ∷ 3 ∷ []; new_text = 9 ∷ [] }

abbrev text : List ℕ
text = 1 ∷ 2 ∷ 3 ∷ 2 ∷ []

abbrev patched : List ℕ
patched = 1 ∷ 9 ∷ 2 ∷ []

abbrev doubled : WorkspacePatchReplacement
doubled = record { old_text = 5 ∷ 5 ∷ []; new_text = 6 ∷ [] }

-- The old text begins at two places, which overlap; the patch is made at the first.
overlapping : replace doubled (5 ∷ 5 ∷ 5 ∷ []) ≡ ok (6 ∷ 5 ∷ [])
unfolding replace index_of is_prefix
overlapping = refl

swap_patch : apply_workspace_patch some (λ t. t) text (swap ∷ []) ≡ ok patched
unfolding apply_workspace_patch replace_all replace index_of is_prefix
swap_patch = refl

padded : is_base64 (81 ∷ 81 ∷ 61 ∷ 61 ∷ []) ≡ true
unfolding is_base64
padded = refl

replace_lem_example :
    (before after : List ℕ) × (text ≡ before ++ swap.old_text ++ after)
    × (patched ≡ before ++ swap.new_text ++ after)
    × ((m : ℕ) → m < length before → occurs_at swap.old_text text m ≡ false)
    × ((m : ℕ) → occurs_at swap.old_text after m ≡ false)
unfolding replace index_of is_prefix
replace_lem_example = replace_lem swap text patched refl

one_place : (m : ℕ) → m ≢ 1 → occurs_at swap.old_text text m ≡ false
unfolding is_prefix
one_place zero h = refl
one_place (suc zero) h = absurd (h refl)
one_place (suc (suc zero)) h = refl
one_place (suc (suc (suc zero))) h = refl
one_place (suc (suc (suc (suc m)))) h = ap (is_prefix swap.old_text) (drop-nil m)

replace-occurs_at_example :
    replace swap text ≡ ok (take 1 text ++ swap.new_text ++ drop (1 + length swap.old_text) text)
unfolding is_prefix
replace-occurs_at_example = replace-occurs_at swap text 1 (omega arith) refl one_place
