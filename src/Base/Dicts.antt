-- ===== src/Base/Dicts.antt =====
-- `Map` and `Set` of the language: association lists in insertion order. `set` on a key that is
-- present keeps its place. `delete` drops every entry of the key: in a `Map` there is at most one.
use Prim.Native.Nat.{◌+◌, ◌≤◌}
use mathlib.Core.Path.{◌≡◌, refl, sym, ◌∙◌, subst}
use mathlib.Core.Logic.{inl, inr}
use mathlib.Core.Bool.{Bool, true, false}
use mathlib.Core.List.{List, [], ◌∷◌}
use mathlib.Core.Option.{Option, none, some}
use native.Mathlib.Omega.{arith}
use remote_codex.Base.Tests.{if◌then◌else◌, Eq, ◌==◌, Bool-cases, some_inj}
use remote_codex.Base.Lists.{length}

abbrev pub Dict {ℓ} : (K V : Type ℓ) → Type ℓ
Dict K V = List (K × V)

module _ {ℓ} {K V : Type ℓ} ⦃e : Eq K⦄ where
  unfoldable pub get : K → Dict K V → Option V
  get k [] = none
  get k ((j, v) ∷ m) = if j == k then some v else get k m

  unfoldable pub set : K → V → Dict K V → Dict K V
  set k v [] = (k, v) ∷ []
  set k v ((j, w) ∷ m) = if j == k then (j, v) ∷ m else (j, w) ∷ set k v m

  unfoldable pub delete : K → Dict K V → Dict K V
  delete k [] = []
  delete k ((j, w) ∷ m) = if j == k then delete k m else (j, w) ∷ delete k m

  pub get-set :
      (k j : K) (v : V) (m : Dict K V) → get j (set k v m) ≡ (if k == j then some v else get j m)
  unfolding get set
  get-set k j v [] = refl
  get-set k j v ((i, w) ∷ m) =
      ground (arith, e.same_iff k j, e.same_iff i k, e.same_iff i j, get-set k j v m)

  pub get-delete :
      (k j : K) (m : Dict K V) → get j (delete k m) ≡ (if k == j then none else get j m)
  unfolding get delete
  get-delete k j [] = ground arith
  get-delete k j ((i, w) ∷ m) =
      ground (arith, e.same_iff k j, e.same_iff i k, e.same_iff i j, get-delete k j m)

  pub length-delete-le : (k : K) (m : Dict K V) → length (delete k m) ≤ length m
  unfolding delete
  length-delete-le k [] = omega arith
  length-delete-le k ((i, w) ∷ m) = ground (arith, length-delete-le k m)

  pub length-set_new :
      (k : K) (v : V) (m : Dict K V) → get k m ≡ none → length (set k v m) ≡ length m + 1
  unfolding get set
  length-set_new k v [] h = omega arith
  length-set_new k v ((i, w) ∷ m) h = ground (arith, length-set_new k v m)

module _ {ℓ} {K : Type ℓ} ⦃e : Eq K⦄ where
  unfoldable pub has : K → List K → Bool
  has k [] = false
  has k (j ∷ s) = if j == k then true else has k s

  unfoldable pub add : K → List K → List K
  add k [] = k ∷ []
  add k (j ∷ s) = if j == k then j ∷ s else j ∷ add k s

  unfoldable pub remove : K → List K → List K
  remove k [] = []
  remove k (j ∷ s) = if j == k then remove k s else j ∷ remove k s

  pub has-add : (k j : K) (s : List K) → has j (add k s) ≡ (if k == j then true else has j s)
  unfolding has add
  has-add k j [] = refl
  has-add k j (i ∷ s) =
      ground (arith, e.same_iff k j, e.same_iff i k, e.same_iff i j, has-add k j s)

  pub has-remove : (k j : K) (s : List K) → has j (remove k s) ≡ (if k == j then false else has j s)
  unfolding has remove
  has-remove k j [] = ground arith
  has-remove k j (i ∷ s) =
      ground (arith, e.same_iff k j, e.same_iff i k, e.same_iff i j, has-remove k j s)

-- What holds of every value still holds of every value.
pub get-set_all {ℓ κ} :
    {K V : Type ℓ} ⦃e : Eq K⦄ (P : V → Type κ) (k : K) (v : V) (m : Dict K V)
    → P v
    → ((j : K) (w : V) → get j m ≡ some w → P w)
    → (j : K) (w : V) → get j (set k v m) ≡ some w
    → P w
get-set_all P k v m p h j w g = elim (Bool-cases (k == j)) [
  | inl hit ↦ subst P (some_inj (sym (get-set k j v m ∙ rw hit) ∙ g)) p
  | inr miss ↦ h j w (sym (get-set k j v m ∙ rw miss) ∙ g)
]

pub get-delete_all {ℓ κ} :
    {K V : Type ℓ} ⦃e : Eq K⦄ (P : V → Type κ) (k : K) (m : Dict K V)
    → ((j : K) (w : V) → get j m ≡ some w → P w)
    → (j : K) (w : V) → get j (delete k m) ≡ some w
    → P w
get-delete_all P k m h j w g = elim (Bool-cases (k == j)) [
  | inl hit ↦ absurd (let z : none ≡ some w = sym (get-delete k j m ∙ rw hit) ∙ g in cc)
  | inr miss ↦ h j w (sym (get-delete k j m ∙ rw miss) ∙ g)
]
