-- ===== src/Rewriting/Laws.antt =====
-- What is left of a client's request behind src/shim/rewrite.ts.
use remote_codex.Base.{
  String, ◌≡◌, refl, sym, ap, ◌∙◌, subst, inl, inr, Bool, true, false, ◌||◌, Option, none, some,
  arith, Bool-cases, Option-cases, ◌==◌, nat_key, string_key,
}
use remote_codex.Json.{
  Value, str, obj, Fields, at, is_record, fields_of, lookup_field, has_field,
  lookup_field-set_field,
}
use remote_codex.Config.{BridgeConfig}
use remote_codex.Rewriting.{
  Notes, is_windows_native, runtime_workspace_root, remote_primary_root, settings_params,
}
use remote_codex.Rewriting.Sending.{
  changed, rewrite_client_message, rewrite_params, with_root, has_primary, sent,
}
use remote_codex.Rewriting.Params.{
  is_told, session_sandbox, session_sandbox_policy, confined_value, settings_params-confined_value,
  thread_params-confined_value, start_params-confined_value, turn_params-confined_value,
}

-- The methods that begin or change a session.
abbrev pub is_session_method : String → Bool
is_session_method method =
    method == "thread/start"
    || method == "thread/resume"
    || method == "turn/start"
    || method == "thread/settings/update"
    || method == "thread/fork"

-- What stands at a name of the parameters that are sent.
abbrev pub sent_value : String → Option Value → Option Value
sent_value key none = none
sent_value key (some message) = some (at key (at "params" message))

lookup-has_field :
    (key s : String) (fs : Fields) → lookup_field key fs ≡ str s → has_field key fs ≡ true
unfolding lookup_field has_field
lookup-has_field key s Fields.end h = absurd (cc)
lookup-has_field key s (Fields.field k v fs) h = elim (Bool-cases (k == key)) [
  | inl t ↦ rw t refl
  | inr f ↦ rw f (lookup-has_field key s fs (rw f at h))
]

sent_value-changed :
    (key : String) (message : Value) (params : Fields)
    → sent_value key (sent message (changed params)) ≡ some (lookup_field key params)
sent_value-changed key message params =
    rw (lookup_field-set_field "params" "params" (obj params) (fields_of message)) refl

-- With a primary root there is a root for the session, so that nothing is thrown.
with_root-value :
    (message : Value) (config : Option BridgeConfig) (control_dir key : String)
    (params : String → Fields) (v : Value)
    → has_primary config ≡ true
    → ((root : String) → lookup_field key (params root) ≡ v)
    → sent_value key (sent message (with_root config control_dir params)) ≡ some v
unfolding with_root runtime_workspace_root
with_root-value message none control_dir key params v h each =
    sent_value-changed key message (params control_dir) ∙ ap some (each control_dir)
with_root-value message (some c) control_dir key params v h each =
    elim (Option-cases (remote_primary_root c)) [
      | inl e ↦ absurd (let z : false ≡ true = rw (has_primary, e) at h in cc)
      | inr (root, e) ↦ elim (Bool-cases (is_windows_native control_dir)) [
        | inl t ↦
            rw (h, e, t)
              (sent_value-changed key message (params control_dir) ∙ ap some (each control_dir))
        | inr f ↦
            rw (h, e, f)
              (sent_value-changed key message (params root.path) ∙ ap some (each root.path))
      ]
    ]

session_method-cases :
    (P : String → Type 0)
    → P "thread/start"
    → P "thread/resume"
    → P "turn/start"
    → P "thread/settings/update"
    → P "thread/fork"
    → (method : String) → is_session_method method ≡ true
    → P method
session_method-cases P start resume turn settings fork method h =
    let found = λ (name : String) (t : (method == name) ≡ true) (p : P name).
      subst P (sym ((string_key.same_iff method name).0 t)) p in
    elim (Bool-cases (method == "thread/start")) [
      | inl t ↦ found "thread/start" t start
      | inr a ↦ elim (Bool-cases (method == "thread/resume")) [
        | inl t ↦ found "thread/resume" t resume
        | inr b ↦ elim (Bool-cases (method == "turn/start")) [
          | inl t ↦ found "turn/start" t turn
          | inr c ↦ elim (Bool-cases (method == "thread/settings/update")) [
            | inl t ↦ found "thread/settings/update" t settings
            | inr d ↦ found "thread/fork" (ground (arith, h, a, b, c, d)) fork
          ]
        ]
      ]
    ]

module _ (notes : Notes) (config : Option BridgeConfig) (control_dir key : String) where
  -- What the branch of a method sends at a name.
  abbrev rewritten_value : Value → Fields → String → Option Value
  rewritten_value message params method =
      sent_value key (sent message (rewrite_params notes method params config control_dir))

  rewrite_params-value :
      (message : Value) (params : Fields)
      → has_primary config ≡ true
      → is_told key ≡ false
      → (method : String) → is_session_method method ≡ true
      → rewritten_value message params method
        ≡ some (confined_value method config control_dir params key)
  unfolding rewrite_params session_sandbox session_sandbox_policy
  rewrite_params-value message params h u =
      let branch = with_root-value message config control_dir key in
      session_method-cases
        (λ method.
          rewritten_value message params method
          ≡ some (confined_value method config control_dir params key))
        (branch _ _ h
          (λ root. start_params-confined_value params control_dir root key u notes config))
        (branch _ _ h (λ root.
          thread_params-confined_value params control_dir root key u notes "thread/resume" config
            refl refl))
        (branch _ _ h
          (λ root. turn_params-confined_value params control_dir root key u notes config))
        (sent_value-changed key message (settings_params params config control_dir)
          ∙ ap some (settings_params-confined_value params config control_dir key))
        (branch _ _ h (λ root.
          thread_params-confined_value params control_dir root key u notes "thread/fork" config refl
            refl))

  -- Whatever parameters a client gives to a request that begins or changes a session, and whatever
  -- the bridge has to tell it: the request is sent, where a configuration has a remote primary root,
  -- and at each name but those that the bridge tells under, it holds what the window's policy says.
  -- The directory is the control directory, and the client's `config` is gone. A remote session has
  -- neither sandbox nor sandbox policy, the full permissions and the approval policy "never". A local
  -- session has no permissions; its sandbox is read-only for start, resume and fork and its sandbox
  -- policy is read-only for a turn, and there is no other; its approval policy is "never" where
  -- full access is asked for without a policy, and else the client's. Each other name holds what the
  -- client has put there.
  pub rewrite_client_message-confined_value :
      (message : Value) (method : String)
      → at "method" message ≡ str method
      → is_session_method method ≡ true
      → is_record (at "params" message) ≡ true
      → has_primary config ≡ true
      → is_told key ≡ false
      → sent_value key (sent message (rewrite_client_message notes message config control_dir))
        ≡ some (confined_value method config control_dir (fields_of (at "params" message)) key)
  unfolding rewrite_client_message
  rewrite_client_message-confined_value message method m s r h u =
      let has = lookup-has_field "method" method (fields_of message) m in
      let value = rewrite_params-value message (fields_of (at "params" message)) h u method s in
      elim (Bool-cases notes.has_inventory) [
        | inl i ↦ rw (has, r, i, m) value
        | inr i ↦ rw (has, r, i, h, m) value
      ]
