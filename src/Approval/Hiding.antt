-- ===== src/Approval/Hiding.antt =====
-- The internal permission profile of the bridge behind the projections of
-- src/shim/remote-approval-policy.ts.
use remote_codex.Base.{
  String, ◌≡◌, refl, sym, ap, ◌∙◌, ◌⊎◌, inl, inr, Bool, true, false, not, ◌&&◌, none, some, arith,
  if◌then◌else◌, Bool-cases, ◌==◌, nat_key, string_key,
}
use remote_codex.Json.{
  Value, undefined, null, bool, str, arr, obj, Fields, end, field, is_record, fields_of,
  lookup_field, has_field, delete_field, at, is_text, lookup_field-set_field,
  lookup_field-delete_field,
}
use remote_codex.Approval.Tracker.{or_value}
use remote_codex.Approval.Projection.{
  remote_permission_profile_id, has_internal_default, has_internal_profile, put_empty,
  without_default, visible_permissions, is_empty, without_profile, without_internal_permission,
}

-- What stands for a property that has nothing left to show.
abbrev pub IsEmptyValue : Value → Type 0
IsEmptyValue e = (e ≡ null) ⊎ (e ≡ undefined)

has_field-delete_field : (k : String) (fs : Fields) → has_field k (delete_field k fs) ≡ false
unfolding has_field delete_field
has_field-delete_field k end = refl
has_field-delete_field k (field j v fs) = ground (arith, has_field-delete_field k fs)

lookup-put_empty :
    (j k : String) (e : Value) (fs : Fields)
    → IsEmptyValue e
    → lookup_field j (put_empty k e fs) ≡ (if k == j then e else lookup_field j fs)
unfolding put_empty
lookup-put_empty j k e fs (inl h) = rw h (lookup_field-set_field j k null fs)
lookup-put_empty j k e fs (inr h) = rw h (lookup_field-delete_field j k fs)

lookup-without_default :
    (j : String) (v e : Value) (fs : Fields)
    → IsEmptyValue e
    → lookup_field j (without_default v e fs)
      ≡ (if "default_permissions" == j && has_internal_default v then e else lookup_field j fs)
unfolding without_default
lookup-without_default j v e fs h = elim (Bool-cases (has_internal_default v)) [
  | inl shown ↦ rw shown (lookup-put_empty j "default_permissions" e fs h ∙ ground arith)
  | inr hidden ↦ rw hidden (ground arith)
]

-- What is left of the profiles.
abbrev left_profiles : Value → Value → Value
left_profiles v e = if is_empty (visible_permissions v) then e else obj (visible_permissions v)

lookup-without_profile :
    (j : String) (v e : Value) (fs : Fields)
    → IsEmptyValue e
    → lookup_field j (without_profile v e fs) ≡ (
        if "permissions" == j && has_internal_profile v
        then left_profiles v e
        else lookup_field j fs)
unfolding without_profile
lookup-without_profile j v e fs h = elim (Bool-cases (has_internal_profile v)) [
  | inr hidden ↦ rw hidden (ground arith)
  | inl shown ↦ rw shown (elim (Bool-cases (is_empty (visible_permissions v))) [
    | inl bare ↦ rw bare (lookup-put_empty j "permissions" e fs h ∙ ground arith)
    | inr more ↦ rw more (lookup_field-set_field j "permissions" _ fs ∙ ground arith)
  ])
]

-- The value that the caller goes on with.
abbrev pub visible : Value → Value → Value
visible v e = or_value (without_internal_permission v e) v

-- A config shows the internal profile neither as the default nor among the profiles.
abbrev pub Hides : Value → Type 0
Hides c = (has_internal_default c ≡ false) × (has_internal_profile c ≡ false)

unfoldable pub changed : Value → Value → Value
changed v e = obj (without_profile v e (without_default v e (fields_of v)))

-- A property of the changed object.
lookup-changed :
    (j : String) (v e : Value)
    → IsEmptyValue e
    → at j (changed v e) ≡ (
        if "permissions" == j && has_internal_profile v
        then left_profiles v e
        else if "default_permissions" == j && has_internal_default v
        then e
        else at j v)
unfolding changed
lookup-changed j v e h =
    lookup-without_profile j v e _ h
    ∙ ap (λ x. if "permissions" == j && has_internal_profile v then left_profiles v e else x)
        (lookup-without_default j v e (fields_of v) h)

empty-text : (e : Value) → IsEmptyValue e → is_text remote_permission_profile_id e ≡ false
empty-text e (inl h) = rw h refl
empty-text e (inr h) = rw h refl

holds_profile : Value → Bool
holds_profile x = is_record x && has_field remote_permission_profile_id (fields_of x)

empty-holds_profile : (e : Value) → IsEmptyValue e → holds_profile e ≡ false
unfolding holds_profile
empty-holds_profile e (inl h) = rw h refl
empty-holds_profile e (inr h) = rw h refl

left-holds_profile : (v e : Value) → IsEmptyValue e → holds_profile (left_profiles v e) ≡ false
unfolding holds_profile
left-holds_profile v e h = elim (Bool-cases (is_empty (visible_permissions v))) [
  | inl bare ↦ rw bare (unfold holds_profile in empty-holds_profile e h)
  | inr more ↦ rw more (
      unfold visible_permissions in
      has_field-delete_field remote_permission_profile_id (fields_of (at "permissions" v)))
]

pub changed-default : (v e : Value) → IsEmptyValue e → has_internal_default (changed v e) ≡ false
unfolding has_internal_default
changed-default v e h =
    ap (is_text remote_permission_profile_id) (lookup-changed "default_permissions" v e h)
    ∙ elim (Bool-cases (has_internal_default v)) [
      | inl shown ↦ rw shown (empty-text e h)
      | inr hidden ↦ rw hidden hidden
    ]

pub changed-profile : (v e : Value) → IsEmptyValue e → has_internal_profile (changed v e) ≡ false
unfolding has_internal_profile holds_profile
changed-profile v e h =
    ap holds_profile (lookup-changed "permissions" v e h)
    ∙ elim (Bool-cases (has_internal_profile v)) [
      | inl shown ↦ rw shown (left-holds_profile v e h)
      | inr hidden ↦ rw hidden hidden
    ]

pub not_record-Hides : (v : Value) → is_record v ≡ false → Hides v
unfolding has_internal_default has_internal_profile lookup_field
not_record-Hides (obj fs) h = absurd (cc)
not_record-Hides undefined h = (refl, refl)
not_record-Hides null h = (refl, refl)
not_record-Hides (bool b) h = (refl, refl)
not_record-Hides (Value.num n) h = (refl, refl)
not_record-Hides (str t) h = (refl, refl)
not_record-Hides (arr xs) h = (refl, refl)

pub without_internal_permission-cases :
    (v e : Value)
    → ((without_internal_permission v e ≡ none) × Hides v)
      ⊎ (without_internal_permission v e ≡ some (changed v e))
unfolding without_internal_permission changed
without_internal_permission-cases v e = elim (Bool-cases (is_record v)) [
  | inr no_record ↦ inl (rw no_record refl, not_record-Hides v no_record)
  | inl holds ↦ elim (Bool-cases (has_internal_default v)) [
    | inl default ↦ inr (rw (without_internal_permission, holds, default) refl)
    | inr no_default ↦ elim (Bool-cases (has_internal_profile v)) [
      | inl profile ↦ inr (rw (without_internal_permission, holds, no_default, profile) refl)
      | inr no_profile ↦ inl (
        rw (without_internal_permission, holds, no_default, no_profile) refl,
        (no_default, no_profile),
      )
    ]
  ]
]

at-empty : (p : String) (e : Value) → IsEmptyValue e → at p e ≡ undefined
unfolding lookup_field
at-empty p e (inl h) = rw h refl
at-empty p e (inr h) = rw h refl

lookup-is_empty : (p : String) (fs : Fields) → is_empty fs ≡ true → lookup_field p fs ≡ undefined
unfolding lookup_field
lookup-is_empty p end h = refl
lookup-is_empty p (field k v fs) h = absurd (cc)

left-profiles :
    (p : String) (v e : Value)
    → IsEmptyValue e
    → (remote_permission_profile_id == p) ≡ false
    → at p (left_profiles v e) ≡ at p (at "permissions" v)
left-profiles p v e h other =
    let kept : lookup_field p (visible_permissions v) ≡ at p (at "permissions" v) =
      unfold visible_permissions in
      (lookup_field-delete_field p remote_permission_profile_id (fields_of (at "permissions" v))
        ∙ rw other refl) in
    elim (Bool-cases (is_empty (visible_permissions v))) [
      | inl bare ↦
          rw bare (at-empty p e h ∙ sym (lookup-is_empty p (visible_permissions v) bare) ∙ kept)
      | inr more ↦ rw more kept
    ]

changed-profiles :
    (p : String) (v e : Value)
    → IsEmptyValue e
    → (remote_permission_profile_id == p) ≡ false
    → at p (at "permissions" (changed v e)) ≡ at p (at "permissions" v)
changed-profiles p v e h other =
    ap (at p) (lookup-changed "permissions" v e h) ∙ elim (Bool-cases (has_internal_profile v)) [
      | inl shown ↦ rw shown (left-profiles p v e h other)
      | inr hidden ↦ rw hidden refl
    ]

-- A property that the projection has no reason to change: it is neither the internal default, nor
-- profiles with the internal one among them.
abbrev pub is_plain : String → Value → Bool
is_plain key x =
    not ("default_permissions" == key && is_text remote_permission_profile_id x)
    && not (
        "permissions" == key && is_record x && has_field remote_permission_profile_id (fields_of x))

plain-default :
    (key : String) (v : Value)
    → is_plain key (at key v) ≡ true
    → ("default_permissions" == key && has_internal_default v) ≡ false
unfolding has_internal_default
plain-default key v h = elim (Bool-cases ("default_permissions" == key)) [
  | inr other ↦ rw other refl
  | inl this ↦
      let e : "default_permissions" ≡ key =
        ground (arith, string_key.same_iff "default_permissions" key) in
      rw (this, e) (ground arith)
]

plain-profile :
    (key : String) (v : Value)
    → is_plain key (at key v) ≡ true
    → ("permissions" == key && has_internal_profile v) ≡ false
unfolding has_internal_profile
plain-profile key v h = elim (Bool-cases ("permissions" == key)) [
  | inr other ↦ rw other refl
  | inl this ↦
      let e : "permissions" ≡ key = ground (arith, string_key.same_iff "permissions" key) in
      rw (this, e) (ground arith)
]

-- Whatever value a config is: what the caller goes on with shows the internal profile neither as the
-- default nor among the profiles, and is otherwise the config that came. What stands for nothing is put
-- in place of the internal default. Each other property is the same; so is a default that is not the internal profile, and are profiles without it; and where the
-- profiles hold it, each other profile is the same.
pub without_internal_permission-Hides :
    (v e : Value)
    → IsEmptyValue e
    → Hides (visible v e)
      × (has_internal_default v ≡ true → at "default_permissions" (visible v e) ≡ e)
      × ((key : String) → is_plain key (at key v) ≡ true → at key (visible v e) ≡ at key v)
      × ((p : String)
          → (remote_permission_profile_id == p) ≡ false
          → at p (at "permissions" (visible v e)) ≡ at p (at "permissions" v))
without_internal_permission-Hides v e h = elim (without_internal_permission-cases v e) [
  | inl (same, hidden) ↦ rw same (
    hidden,
    (λ shown. absurd (let z : true ≡ false = sym shown ∙ hidden.0 in cc)),
    (λ key a. refl),
    (λ p a. refl),
  )
  | inr new ↦ rw new (
    (changed-default v e h, changed-profile v e h),
    (λ shown. lookup-changed "default_permissions" v e h ∙ rw shown refl),
    (λ key a. lookup-changed key v e h ∙ rw (plain-default key v a, plain-profile key v a) refl),
    (λ p a. changed-profiles p v e h a),
  )
]
