-- ===== src/Approval/ConfigRead.antt =====
-- What VS Code is shown of a config and its layers (src/shim/remote-approval-policy.ts).
use remote_codex.Base.{
  String, ◌≡◌, refl, sym, ◌∙◌, subst, ◌≢◌, inl, inr, true, false, none, if◌then◌else◌, Bool-cases,
  nat_key, string_key,
}
use remote_codex.Json.{
  Value, undefined, null, bool, str, arr, obj, Items, no_items, item, is_record, fields_of,
  lookup_field, set_field, at, is_array, lookup_field-set_field,
}
use remote_codex.Rpc.{rpc_id_key}
use remote_codex.Approval.Tracker.{or_value}
use remote_codex.Approval.Projection.{
  without_internal_permission_origins, project_layer, project_layers, items_of, config_read_fields,
  project_config_read_result,
}
use remote_codex.Approval.Hiding.{
  Hides, changed, not_record-Hides, without_internal_permission-cases, changed-default,
  changed-profile,
}

-- The layers of a config.
abbrev pub AllHide : Items → Type 0
AllHide no_items = Unit {0}
AllHide (item layer layers) = Hides (at "config" layer) × AllHide layers

pub at-not_record : (key : String) (v : Value) → is_record v ≡ false → at key v ≡ undefined
unfolding lookup_field
at-not_record key (obj fs) h = absurd (cc)
at-not_record key undefined h = refl
at-not_record key null h = refl
at-not_record key (bool b) h = refl
at-not_record key (Value.num n) h = refl
at-not_record key (str t) h = refl
at-not_record key (arr xs) h = refl

undefined_config : (v : Value) → is_record v ≡ false → Hides (at "config" v)
undefined_config v h =
    subst Hides (sym (at-not_record "config" v h)) (not_record-Hides undefined refl)

project_layer-Hides : (layer : Value) → Hides (at "config" (project_layer layer))
unfolding project_layer
project_layer-Hides layer = elim (Bool-cases (is_record layer)) [
  | inr no_record ↦ rw no_record (undefined_config layer no_record)
  | inl holds ↦ elim (without_internal_permission-cases (at "config" layer) undefined) [
    | inl (same, hidden) ↦ rw (project_layer, holds, same) hidden
    | inr new ↦
        rw
          (
            project_layer,
            holds,
            new,
            lookup_field-set_field "config" "config" (changed (at "config" layer) undefined)
                (fields_of layer),
          )
          (
            changed-default (at "config" layer) undefined (inr refl),
            changed-profile (at "config" layer) undefined (inr refl),
          )
  ]
]

project_layers-AllHide : (layers : Items) → AllHide (project_layers layers)
unfolding project_layers
project_layers-AllHide no_items = tt
project_layers-AllHide (item layer layers) =
    (project_layer-Hides layer, project_layers-AllHide layers)

-- The properties of the object that `projectConfigReadResult` builds.
config_read-parts :
    (v config : Value)
    → (at "config" (obj (config_read_fields v config)) ≡ config)
      × (at "layers" (obj (config_read_fields v config)) ≡ (
          if is_array (at "layers" v)
          then arr (project_layers (items_of (at "layers" v)))
          else at "layers" v))
unfolding config_read_fields
config_read-parts v config =
    let origins =
      or_value (without_internal_permission_origins (at "origins" v)) (at "origins" v) in
    let inner = set_field "config" config (fields_of v) in
    let outer = set_field "origins" origins inner in
    let layers = arr (project_layers (items_of (at "layers" v))) in
    let c : lookup_field "config" outer ≡ config =
      lookup_field-set_field "config" "origins" origins inner
      ∙ lookup_field-set_field "config" "config" config (fields_of v) in
    let l : lookup_field "layers" outer ≡ at "layers" v =
      lookup_field-set_field "layers" "origins" origins inner
      ∙ lookup_field-set_field "layers" "config" config (fields_of v) in
    elim (Bool-cases (is_array (at "layers" v))) [
      | inl list ↦ rw list (
        lookup_field-set_field "config" "layers" layers outer ∙ c,
        lookup_field-set_field "layers" "layers" layers outer,
      )
      | inr other ↦ rw other (c, l)
    ]

pub not_array-items_of : (v : Value) → is_array v ≡ false → items_of v ≡ no_items
not_array-items_of (arr xs) h = absurd (cc)
not_array-items_of undefined h = refl
not_array-items_of null h = refl
not_array-items_of (bool b) h = refl
not_array-items_of (Value.num n) h = refl
not_array-items_of (str t) h = refl
not_array-items_of (obj fs) h = refl

config_read-AllHide :
    (v config : Value) → AllHide (items_of (at "layers" (obj (config_read_fields v config))))
config_read-AllHide v config =
    subst (λ x. AllHide (items_of x)) (sym (config_read-parts v config).1)
      (elim (Bool-cases (is_array (at "layers" v))) [
        | inl list ↦ rw list (project_layers-AllHide (items_of (at "layers" v)))
        | inr other ↦ rw (other, not_array-items_of (at "layers" v) other) tt
      ])

-- Whatever record `config/read` answers: when its config has to be changed for VS Code, then neither the
-- config that is shown nor any layer's shows the internal profile; otherwise the config does not show
-- it anyway.
pub project_config_read_result-Hides :
    (v : Value)
    → is_record v ≡ true
    → let w = or_value (project_config_read_result v) v in
      Hides (at "config" w)
      × (project_config_read_result v ≢ none → AllHide (items_of (at "layers" w)))
unfolding project_config_read_result
project_config_read_result-Hides v h =
    elim (without_internal_permission-cases (at "config" v) null) [
      | inl (same, hidden) ↦
          rw (project_config_read_result, h, same) (hidden, λ ne. absurd (ne refl))
      | inr new ↦
          let c = changed (at "config" v) null in
          rw (project_config_read_result, h, new)
            (
              subst Hides (sym (config_read-parts v c).0) (
                changed-default (at "config" v) null (inl refl),
                changed-profile (at "config" v) null (inl refl),
              ),
              λ ne. config_read-AllHide v c,
            )
    ]
