-- ===== src/Sessions/Quiet.antt =====
-- src/remote-extension/stdio-sessions.ts: the calls that leave all that is said as it is.
use remote_codex.Base.{
  ℕ, String, ◌≡◌, refl, ◌∙◌, subst, inl, inr, Bool, true, false, Option, none, some, List, [], ◌∷◌,
  arith, nat_eq, if◌then◌else◌, Bool-cases, Option-cases, nat_key, string_key, nat_eq_iff, Dict,
  get, delete, get-set,
}
use remote_codex.Errors.{Result, ok, err, >>=-eq-ok, throw_if-eq-ok, ok_inj}
use remote_codex.Sessions.Table.{
  StdioSession, RemoteStdioSessions, modify, forget, on_error, write, end_input, stop, on_force,
  stop_all, stop_workspace, workspace_sessions,
}
use remote_codex.Sessions.History.{or_same, queue_in}

abbrev pub is_there : Option StdioSession → Bool
is_there none = false
is_there (some t) = true

abbrev pub changed : (StdioSession → StdioSession) → Option StdioSession → Option StdioSession
changed f none = none
changed f (some t) = some (f t)

pub get-modify :
    (u uid : ℕ) (f : StdioSession → StdioSession) (s : RemoteStdioSessions)
    → get u (modify uid f s).heap
      ≡ (if nat_eq uid u then changed f (get u s.heap) else get u s.heap)
unfolding modify
get-modify u uid f s = elim (Option-cases (get uid s.heap)) [
  | inl missing ↦ elim (Bool-cases (nat_eq uid u)) [
    | inl same ↦
        let missing_u = subst (λ x. get x s.heap ≡ none) ((nat_eq_iff uid u).0 same) missing in
        rw (modify, missing, same) (rw missing_u refl)
    | inr other ↦ rw (modify, missing, other) refl
  ]
  | inr (t, found) ↦ elim (Bool-cases (nat_eq uid u)) [
    | inl same ↦
        let found_u = subst (λ x. get x s.heap ≡ some t) ((nat_eq_iff uid u).0 same) found in
        rw (modify, found) (get-set uid u (f t) s.heap ∙ rw same (rw found_u refl))
    | inr other ↦ rw (modify, found) (get-set uid u (f t) s.heap ∙ rw other refl)
  ]
]

pub emitted-modify :
    (uid : ℕ) (f : StdioSession → StdioSession) (s : RemoteStdioSessions)
    → ((modify uid f s).emitted ≡ s.emitted) × ((modify uid f s).next_uid ≡ s.next_uid)
unfolding modify
emitted-modify uid f s = elim (Option-cases (get uid s.heap)) [
  | inl missing ↦ rw (modify, missing) (refl, refl)
  | inr (t, found) ↦ rw (modify, found) (refl, refl)
]

-- A call that says nothing: the queues, what has been emitted and the sessions that there are stay.
pub record IsQuiet (s s' : RemoteStdioSessions) : Type 0 where
  pub emitted : s'.emitted ≡ s.emitted
  pub next : s'.next_uid ≡ s.next_uid
  pub queues : (uid : ℕ) → queue_in (get uid s'.heap) ≡ queue_in (get uid s.heap)
  pub there : (uid : ℕ) → is_there (get uid s'.heap) ≡ is_there (get uid s.heap)

pub IsQuiet-refl : (s : RemoteStdioSessions) → IsQuiet s s
IsQuiet-refl s = record { emitted = refl; next = refl; queues = λ uid. refl; there = λ uid. refl }

pub IsQuiet-trans : (a b c : RemoteStdioSessions) → IsQuiet a b → IsQuiet b c → IsQuiet a c
IsQuiet-trans a b c h k = record {
  emitted = k.emitted ∙ h.emitted;
  next = k.next ∙ h.next;
  queues = λ uid. k.queues uid ∙ h.queues uid;
  there = λ uid. k.there uid ∙ h.there uid;
}

pub changed-queue :
    (f : StdioSession → StdioSession)
    → ((t : StdioSession) → (f t).output_queue ≡ t.output_queue)
    → (o : Option StdioSession)
    → (queue_in (changed f o) ≡ queue_in o) × (is_there (changed f o) ≡ is_there o)
changed-queue f h none = (refl, refl)
changed-queue f h (some t) = (h t, refl)

pub modify-IsQuiet :
    (uid : ℕ) (f : StdioSession → StdioSession) (s : RemoteStdioSessions)
    → ((t : StdioSession) → (f t).output_queue ≡ t.output_queue)
    → IsQuiet s (modify uid f s)
modify-IsQuiet uid f s h = record {
  emitted = (emitted-modify uid f s).0;
  next = (emitted-modify uid f s).1;
  queues = λ u. rw (get-modify u uid f s) (ground (arith, (changed-queue f h (get u s.heap)).0));
  there = λ u. rw (get-modify u uid f s) (ground (arith, (changed-queue f h (get u s.heap)).1));
}

pub forget-IsQuiet : (uid : ℕ) (s : RemoteStdioSessions) → IsQuiet s (forget uid s)
unfolding forget
forget-IsQuiet uid s = elim (Option-cases (get uid s.heap)) [
  | inl missing ↦ rw (forget, missing) (IsQuiet-refl s)
  | inr (t, found) ↦
      rw (forget, found)
        (record { emitted = refl; next = refl; queues = λ uid. refl; there = λ uid. refl })
]

pub stop-IsQuiet : (id : String) (s : RemoteStdioSessions) → IsQuiet s (stop id s)
unfolding stop
stop-IsQuiet id s = elim (Option-cases (get id s.sessions)) [
  | inl missing ↦ rw (stop, missing) (IsQuiet-refl s)
  | inr (uid, found) ↦
      let without = record s { sessions = delete id s.sessions } in
      let dropped : IsQuiet s without = record {
        emitted = refl;
        next = refl;
        queues = λ uid. refl;
        there = λ uid. refl;
      } in
      rw (stop, found)
        (IsQuiet-trans s without _ dropped (modify-IsQuiet uid _ without (λ t. refl)))
]

pub stop_all-IsQuiet :
    (entries : Dict String ℕ) (s : RemoteStdioSessions) → IsQuiet s (stop_all entries s)
unfolding stop_all
stop_all-IsQuiet [] s = IsQuiet-refl s
stop_all-IsQuiet ((id, uid) ∷ entries) s =
    IsQuiet-trans s (stop id s) _ (stop-IsQuiet id s) (stop_all-IsQuiet entries (stop id s))

pub on_error-IsQuiet : (uid : ℕ) (s : RemoteStdioSessions) → IsQuiet s (on_error uid s)
unfolding on_error
on_error-IsQuiet uid s =
    IsQuiet-trans s (forget uid s) _ (forget-IsQuiet uid s)
      (modify-IsQuiet uid _ (forget uid s) (λ t. refl))

pub on_force-IsQuiet : (uid : ℕ) (s : RemoteStdioSessions) → IsQuiet s (on_force uid s)
unfolding on_force
on_force-IsQuiet uid s = modify-IsQuiet uid _ s (λ t. ground arith)

pub stop_workspace-IsQuiet :
    (root : String) (s : RemoteStdioSessions) → IsQuiet s (stop_workspace root s).0
unfolding stop_workspace
stop_workspace-IsQuiet root s = stop_all-IsQuiet (workspace_sessions root s) s

pub or_same-IsQuiet :
    (s : RemoteStdioSessions) (r : Result RemoteStdioSessions)
    → ((s' : RemoteStdioSessions) → r ≡ ok s' → IsQuiet s s')
    → IsQuiet s (or_same s r)
or_same-IsQuiet s (ok s') h = h s' refl
or_same-IsQuiet s (err e) h = IsQuiet-refl s

pub write-IsQuiet :
    (from_base64 : String → List ℕ) (id chunk : String) (limit : ℕ) (s s' : RemoteStdioSessions)
    → write from_base64 id chunk limit s ≡ ok s'
    → IsQuiet s s'
unfolding write
write-IsQuiet from_base64 id chunk limit s s' h =
    let (uid, found, h1) = >>=-eq-ok h in
    let (valid, h2) = throw_if-eq-ok _ _ h1 in
    let (short, h3) = throw_if-eq-ok _ _ h2 in
    subst (IsQuiet s) (ok_inj h3) (modify-IsQuiet uid _ s (λ t. refl))

pub end_input-IsQuiet :
    (id : String) (s s' : RemoteStdioSessions) → end_input id s ≡ ok s' → IsQuiet s s'
unfolding end_input
end_input-IsQuiet id s s' h =
    let (uid, found, h1) = >>=-eq-ok h in
    subst (IsQuiet s) (ok_inj h1) (modify-IsQuiet uid _ s (λ t. refl))
