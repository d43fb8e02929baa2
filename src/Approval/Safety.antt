-- ===== src/Approval/Safety.antt =====
-- When `RemoteApprovalPolicyTracker` (src/shim/remote-approval-policy.ts) lets a thread go unasked.
use remote_codex.Base.{
  get-set_all, get-delete_all, String, ◌≡◌, refl, sym, ap, ◌∙◌, ◌≢◌, inl, inr, Bool, true, false,
  not, ◌||◌, none, some, List, [], ◌∷◌, arith, if◌then◌else◌, Bool-cases, Option-cases, ◌==◌,
  nat_key, string_key, All, includes, get, has,
}
use remote_codex.Json.{Value, is_record, at, text_of}
use remote_codex.Rpc.{RpcId, rpc_id_key, is_rpc_request, is_rpc_response, id_of}
use remote_codex.Approval.Tracker.{
  RemotePermissionPresentation, default_presentation, approval_policy_from_params,
  permission_presentation, RemoteApprovalPolicyTracker, init, presentation_for_thread, start_thread,
  fork_fallback, update_thread, observe_request, observe_client_message, note_listing, note_start,
  observe_server_message, mode_for_thread, requires_approval,
}

either_all {ℓ κ} :
    {A : Type ℓ} (P : A → Type κ) (b : Bool) {x y : A} → P x → P y → P (if b then x else y)
either_all P true p q = p
either_all P false p q = q

-- What the tracker sees.
pub data Seen : Type 0 where
  from_client from_server : Value → Seen

unfoldable pub observe : Seen → RemoteApprovalPolicyTracker → RemoteApprovalPolicyTracker
observe (from_client m) t = observe_client_message m t
observe (from_server m) t = observe_server_message m t

unfoldable pub observe_all : List Seen → RemoteApprovalPolicyTracker → RemoteApprovalPolicyTracker
observe_all [] t = t
observe_all (s ∷ ss) t = observe_all ss (observe s t)

-- No message of the client asks to go on without approvals.
abbrev pub NeverAsked : Seen → Type 0
NeverAsked (from_client m) = approval_policy_from_params (at "params" m) ≢ some "never"
NeverAsked (from_server m) = Unit

abbrev pub Asks : RemotePermissionPresentation → Type 0
Asks p = p.approval_policy ≢ "never"

-- Every presentation that the tracker holds asks for approval.
pub record IsCautious (t : RemoteApprovalPolicyTracker) : Type 0 where
  pub starting :
      (id : RpcId) (p : RemotePermissionPresentation)
      → get id t.pending_thread_starts ≡ some p
      → Asks p
  pub started :
      (id : String) (p : RemotePermissionPresentation)
      → get id t.thread_presentations ≡ some p
      → Asks p

default-Asks : Asks default_presentation
default-Asks e = ground (arith, string_key.same_iff "on-request" "never")

permission_presentation-Asks :
    (params : Value) (fallback : RemotePermissionPresentation)
    → approval_policy_from_params params ≢ some "never"
    → Asks fallback
    → Asks (permission_presentation params fallback)
unfolding permission_presentation
permission_presentation-Asks params fallback h f e =
    elim (Option-cases (approval_policy_from_params params)) [
      | inl absent ↦ f (sym (rw absent refl) ∙ e)
      | inr (policy, given) ↦ h (given ∙ ap some (sym (rw given refl) ∙ e))
    ]

presentation_for_thread-Asks :
    (id : String) (t : RemoteApprovalPolicyTracker)
    → IsCautious t
    → Asks (presentation_for_thread id t)
unfolding presentation_for_thread
presentation_for_thread-Asks id t v = elim (Option-cases (get id t.thread_presentations)) [
  | inl unknown ↦ rw unknown default-Asks
  | inr (p, known) ↦ rw known (v.started id p known)
]

start_thread-IsCautious :
    (id : RpcId) (p : RemotePermissionPresentation) (t : RemoteApprovalPolicyTracker)
    → Asks p
    → IsCautious t
    → IsCautious (start_thread id p t)
unfolding start_thread
start_thread-IsCautious id p t a v = record {
  starting = get-set_all Asks id p t.pending_thread_starts a v.starting;
  started = v.started;
}

fork_fallback-Asks :
    (params : Value) (t : RemoteApprovalPolicyTracker)
    → IsCautious t
    → Asks (fork_fallback params t)
unfolding fork_fallback
fork_fallback-Asks params t v = elim (Option-cases (text_of (at "threadId" params))) [
  | inl unnamed ↦ rw (fork_fallback, unnamed) default-Asks
  | inr (id, named) ↦ rw (fork_fallback, named) (presentation_for_thread-Asks id t v)
]

update_thread-IsCautious :
    (params : Value) (t : RemoteApprovalPolicyTracker)
    → approval_policy_from_params params ≢ some "never"
    → IsCautious t
    → IsCautious (update_thread params t)
unfolding update_thread
update_thread-IsCautious params t h v = elim (Option-cases (text_of (at "threadId" params))) [
  | inl unnamed ↦ rw (update_thread, unnamed) v
  | inr (id, named) ↦
      rw (update_thread, named)
        (record {
          starting = v.starting;
          started =
              get-set_all Asks id (permission_presentation params (presentation_for_thread id t))
                t.thread_presentations
                (permission_presentation-Asks params (presentation_for_thread id t) h
                  (presentation_for_thread-Asks id t v))
                v.started;
        })
]

observe_request-IsCautious :
    (id : RpcId) (method : String) (params : Value) (t : RemoteApprovalPolicyTracker)
    → approval_policy_from_params params ≢ some "never"
    → IsCautious t
    → IsCautious (observe_request id method params t)
unfolding observe_request
observe_request-IsCautious id method params t h v =
    either_all IsCautious (method == "permissionProfile/list")
      (record { starting = v.starting; started = v.started })
      (either_all IsCautious (method == "thread/start")
        (start_thread-IsCautious id (permission_presentation params default_presentation) t
          (permission_presentation-Asks params default_presentation h default-Asks) v)
        (either_all IsCautious (method == "thread/fork")
          (start_thread-IsCautious id (permission_presentation params (fork_fallback params t)) t
            (permission_presentation-Asks params (fork_fallback params t) h
              (fork_fallback-Asks params t v))
            v)
          (either_all IsCautious
            (includes method ("thread/resume" ∷ "thread/settings/update" ∷ "turn/start" ∷ []))
            (update_thread-IsCautious params t h v) v)))

observe_client_message-IsCautious :
    (message : Value) (t : RemoteApprovalPolicyTracker)
    → approval_policy_from_params (at "params" message) ≢ some "never"
    → IsCautious t
    → IsCautious (observe_client_message message t)
unfolding observe_client_message
observe_client_message-IsCautious message t h v =
    either_all IsCautious (not (is_rpc_request message) || not (is_record (at "params" message))) v
      (elim (Option-cases (id_of message)) [
        | inl unidentified ↦ rw unidentified v
        | inr (id, identified) ↦ elim (Option-cases (text_of (at "method" message))) [
          | inl unnamed ↦ rw identified (rw unnamed v)
          | inr (method, named) ↦
              rw identified
                (rw named (observe_request-IsCautious id method (at "params" message) t h v))
        ]
      ])

note_listing-IsCautious :
    (id : RpcId) (t : RemoteApprovalPolicyTracker) → IsCautious t → IsCautious (note_listing id t)
unfolding note_listing
note_listing-IsCautious id t v =
    either_all IsCautious (has id t.pending_permission_profile_lists)
      (record { starting = v.starting; started = v.started }) v

note_start-IsCautious :
    (id : RpcId) (message : Value) (t : RemoteApprovalPolicyTracker)
    → IsCautious t
    → IsCautious (note_start id message t)
unfolding note_start
note_start-IsCautious id message t v = elim (Option-cases (get id t.pending_thread_starts)) [
  | inl unknown ↦ rw (note_start, unknown) v
  | inr (p, known) ↦ elim (Option-cases (text_of (at "id" (at "thread" (at "result" message))))) [
    | inl unnamed ↦
        rw (note_start, known, unnamed)
          (record {
            starting = get-delete_all Asks id t.pending_thread_starts v.starting;
            started = v.started;
          })
    | inr (thread, named) ↦
        rw (note_start, known, named)
          (record {
            starting = get-delete_all Asks id t.pending_thread_starts v.starting;
            started =
                get-set_all Asks thread p t.thread_presentations (v.starting id p known) v.started;
          })
  ]
]

observe_server_message-IsCautious :
    (message : Value) (t : RemoteApprovalPolicyTracker)
    → IsCautious t
    → IsCautious (observe_server_message message t)
unfolding observe_server_message
observe_server_message-IsCautious message t v =
    either_all IsCautious (not (is_rpc_response message)) v (elim (Option-cases (id_of message)) [
      | inl unidentified ↦ rw unidentified v
      | inr (id, identified) ↦
          rw identified
            (note_start-IsCautious id message (note_listing id t) (note_listing-IsCautious id t v))
    ])

observe-IsCautious :
    (s : Seen) (t : RemoteApprovalPolicyTracker)
    → NeverAsked s
    → IsCautious t
    → IsCautious (observe s t)
unfolding observe
observe-IsCautious (from_client m) t h v = observe_client_message-IsCautious m t h v
observe-IsCautious (from_server m) t h v = observe_server_message-IsCautious m t v

observe_all-IsCautious :
    (ss : List Seen) (t : RemoteApprovalPolicyTracker)
    → All NeverAsked ss
    → IsCautious t
    → IsCautious (observe_all ss t)
unfolding observe_all
observe_all-IsCautious [] t h v = v
observe_all-IsCautious (s ∷ ss) t (h, hs) v =
    observe_all-IsCautious ss (observe s t) hs (observe-IsCautious s t h v)

nothing {ℓ} : {A : Type ℓ} {a : A} → none ≢ some a
nothing e = cc

init-IsCautious : IsCautious init
unfolding get
init-IsCautious = record {
  starting = λ id p e. absurd (nothing e);
  started = λ id p e. absurd (nothing e);
}

pub observe_all-requires_approval :
    (ss : List Seen) (id : String)
    → All NeverAsked ss
    → requires_approval id (observe_all ss init) ≡ true
unfolding requires_approval mode_for_thread
observe_all-requires_approval ss id h =
    let shy =
      presentation_for_thread-Asks id (observe_all ss init)
        (observe_all-IsCautious ss init h init-IsCautious) in
    elim (Bool-cases
      ((presentation_for_thread id (observe_all ss init)).approval_policy == "never")) [
        | inl quiet ↦ absurd (shy ((string_key.same_iff _ _).0 quiet))
        | inr asking ↦ rw (requires_approval, asking) refl
      ]
