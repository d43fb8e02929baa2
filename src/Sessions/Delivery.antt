-- ===== src/Sessions/Delivery.antt =====
-- src/remote-extension/stdio-sessions.ts: what the controller is told of a session, in every history of
-- calls and of callbacks, beside what its process has said.
use remote_codex.Base.{
  ℕ, String, ◌≡◌, refl, sym, ap, ◌∙◌, subst, inl, inr, true, false, ◌&&◌, Option, none, some, List,
  [], ◌∷◌, ◌++◌, map, append-nil, append_assoc, arith, ltb, nat_eq, if◌then◌else◌, Bool-cases,
  Option-cases, nat_key, string_key, nat_eq_iff, get, set, get-set,
}
use remote_codex.Sessions.Framing.{frames, concat-frames}
use remote_codex.Sessions.Table.{
  Channel, RemoteStdioEvent, StdioSession, StartStdioRequest, RemoteStdioSessions, init, modify,
  start_resolved, new_session, on_data, forget, on_close, emit_next, emit_head, close,
}
use remote_codex.Sessions.History.{
  Call, step, run, Said, said_in, events_of, queue_in, told, untold, spoken, next_after,
  says_in_all, said_in-append, said_in-map, events_of-append, starts, says, exits, fails, emits,
  writes, ends, stops, forces, stops_workspace, closes, byte, exited,
}
use remote_codex.Sessions.Quiet.{
  is_there, changed, get-modify, emitted-modify, IsQuiet, IsQuiet-refl, forget-IsQuiet,
  stop-IsQuiet, stop_all-IsQuiet, on_error-IsQuiet, on_force-IsQuiet, stop_workspace-IsQuiet,
  or_same-IsQuiet, write-IsQuiet, end_input-IsQuiet,
}

-- All that is told of a session: what has been, and what will be.
abbrev view : ℕ → RemoteStdioSessions → List Said
view uid s = told uid s ++ untold uid s

IsQuiet-view : (uid : ℕ) (s s' : RemoteStdioSessions) → IsQuiet s s' → view uid s' ≡ view uid s
unfolding told untold
IsQuiet-view uid s s' q = rw (q.emitted, q.queues uid) refl

-- The sessions that there are have the numbers below the next one.
abbrev IsNumbered : RemoteStdioSessions → Type 0
IsNumbered s = (uid : ℕ) → is_there (get uid s.heap) ≡ ltb uid s.next_uid

IsQuiet-IsNumbered : (s s' : RemoteStdioSessions) → IsQuiet s s' → IsNumbered s → IsNumbered s'
IsQuiet-IsNumbered s s' q h uid = rw q.next (q.there uid ∙ h uid)

changed-said :
    (f : StdioSession → StdioSession) (said : List Said)
    → ((t : StdioSession) → said_in (f t).output_queue ≡ said_in t.output_queue ++ said)
    → (o : Option StdioSession)
    → said_in (queue_in (changed f o)) ≡ said_in (queue_in o) ++ (if is_there o then said else [])
unfolding said_in
changed-said f said h none = refl
changed-said f said h (some t) = h t

modify-view :
    (uid u : ℕ) (f : StdioSession → StdioSession) (said : List Said) (s : RemoteStdioSessions)
    → ((t : StdioSession) → said_in (f t).output_queue ≡ said_in t.output_queue ++ said)
    → view uid (modify u f s)
      ≡ view uid s ++ (if nat_eq u uid && is_there (get u s.heap) then said else [])
unfolding told untold
modify-view uid u f said s h =
    rw ((emitted-modify u f s).0, get-modify uid u f s)
      (elim (Bool-cases (nat_eq u uid)) [
        | inl same ↦
            let e = (nat_eq_iff u uid).0 same in
            rw (same, e)
              (ap (◌++◌ (said_in (events_of uid s.emitted)))
                  (changed-said f said h (get uid s.heap))
                ∙ sym (
                    append_assoc (said_in (events_of uid s.emitted))
                      (said_in (queue_in (get uid s.heap))) _))
        | inr other ↦ rw (other, append-nil) refl
      ])

changed-is_there :
    (f : StdioSession → StdioSession) (o : Option StdioSession)
    → is_there (changed f o) ≡ is_there o
changed-is_there f none = refl
changed-is_there f (some t) = refl

modify-IsNumbered :
    (u : ℕ) (f : StdioSession → StdioSession) (s : RemoteStdioSessions)
    → IsNumbered s
    → IsNumbered (modify u f s)
modify-IsNumbered u f s h uid =
    rw ((emitted-modify u f s).1, get-modify uid u f s)
      (ground (arith, changed-is_there f (get uid s.heap), h uid))

-- What one call does to what is told of a session.
record Follows (c : Call) (s s' : RemoteStdioSessions) : Type 0 where
  numbered : IsNumbered s'
  counted : s'.next_uid ≡ next_after s.next_uid c
  views : (uid : ℕ) → view uid s' ≡ view uid s ++ spoken uid s.next_uid c

quiet-Follows :
    (c : Call) (s s' : RemoteStdioSessions)
    → IsQuiet s s'
    → IsNumbered s
    → next_after s.next_uid c ≡ s.next_uid
    → ((uid : ℕ) → spoken uid s.next_uid c ≡ [])
    → Follows c s s'
quiet-Follows c s s' q h counts silent = record {
  numbered = IsQuiet-IsNumbered s s' q h;
  counted = q.next ∙ sym counts;
  views = λ uid. rw (silent uid, append-nil) (IsQuiet-view uid s s' q);
}

on_data-Follows :
    (uid : ℕ) (channel : Channel) (chunk : List ℕ) (s : RemoteStdioSessions)
    → IsNumbered s
    → Follows (says uid channel chunk) s (on_data uid channel chunk s)
unfolding on_data
on_data-Follows u channel chunk s h = record {
  numbered = modify-IsNumbered u _ s h;
  counted = (emitted-modify u _ s).1;
  views = λ uid.
      modify-view uid u _ (map (byte channel) chunk) s (λ t.
        said_in-append t.output_queue _
        ∙ ap (◌++◌ (said_in t.output_queue)) (
            said_in-map channel (frames t.max_frame_bytes chunk)
            ∙ ap (map (byte channel)) (concat-frames t.max_frame_bytes chunk)))
      ∙ rw (h u) refl;
}

on_close-Follows :
    (uid : ℕ) (exit_code : Option ℕ) (signal : Option String) (s : RemoteStdioSessions)
    → IsNumbered s
    → Follows (exits uid exit_code signal) s (on_close uid exit_code signal s)
unfolding on_close said_in
on_close-Follows u exit_code signal s h =
    let q = forget-IsQuiet u s in
    let h' = IsQuiet-IsNumbered s (forget u s) q h in
    record {
      numbered = modify-IsNumbered u _ (forget u s) h';
      counted = (emitted-modify u _ (forget u s)).1 ∙ q.next;
      views = λ uid.
          modify-view uid u _ (exited exit_code signal ∷ []) (forget u s)
            (λ t. said_in-append t.output_queue _)
          ∙ rw (IsQuiet-view uid s (forget u s) q, h' u, q.next) refl;
    }

fresh-queue : (o : Option StdioSession) → is_there o ≡ false → queue_in o ≡ []
fresh-queue none h = refl
fresh-queue (some t) h = absurd (cc)

new-queue :
    (uid : ℕ) (r : StartStdioRequest) (s : RemoteStdioSessions)
    → IsNumbered s
    → queue_in (get uid (set s.next_uid (new_session r) s.heap)) ≡ queue_in (get uid s.heap)
new-queue uid r s h = elim (Bool-cases (nat_eq s.next_uid uid)) [
  | inl same ↦
      let none_yet : is_there (get uid s.heap) ≡ false = h uid ∙ ground (arith, same) in
      rw (get-set s.next_uid uid (new_session r) s.heap, same)
        (sym (fresh-queue (get uid s.heap) none_yet))
  | inr other ↦ rw (get-set s.next_uid uid (new_session r) s.heap, other) refl
]

start_resolved-Follows :
    (r : StartStdioRequest) (executable : Option String) (s : RemoteStdioSessions)
    → IsNumbered s
    → Follows (starts r executable) s (start_resolved r executable s).0
unfolding start_resolved
start_resolved-Follows r none s h =
    quiet-Follows (starts r none) s s (IsQuiet-refl s) h refl (λ uid. refl)
start_resolved-Follows r (some executable) s h = record {
  numbered = λ uid. rw (get-set s.next_uid uid (new_session r) s.heap) (ground (arith, h uid));
  counted = refl;
  views = λ uid. unfold told untold in rw (new-queue uid r s h, append-nil) refl;
}

hit :
    (u uid : ℕ) (event : RemoteStdioEvent)
    → nat_eq u uid ≡ true
    → events_of uid ((u, event) ∷ []) ≡ event ∷ []
unfolding events_of
hit u uid event same = rw same refl

miss :
    (u uid : ℕ) (event : RemoteStdioEvent)
    → nat_eq u uid ≡ false
    → events_of uid ((u, event) ∷ []) ≡ []
unfolding events_of
miss u uid event other = rw other refl

-- An event that goes from the queue to what has been emitted stays in its place.
moved :
    (a : List RemoteStdioEvent) (event : RemoteStdioEvent) (events : List RemoteStdioEvent)
    → said_in (a ++ (event ∷ [])) ++ said_in events ≡ (said_in a ++ said_in (event ∷ events)) ++ []
unfolding said_in
moved a event events = simp (said_in-append, append_assoc, append-nil)

emit_head-Follows :
    (u : ℕ) (t : StdioSession) (events : List RemoteStdioEvent) (s : RemoteStdioSessions)
    → get u s.heap ≡ some t
    → t.output_queue ≡ events
    → IsNumbered s
    → Follows (emits u) s (emit_head u t events s)
emit_head-Follows u t [] s found e h =
    quiet-Follows (emits u) s s (IsQuiet-refl s) h refl (λ uid. refl)
emit_head-Follows u t (event ∷ events) s found e h =
    let rest = record t { output_queue = events } in
    record {
      numbered = λ uid. elim (Bool-cases (nat_eq u uid)) [
        | inl same ↦
            let found_uid = subst (λ x. get x s.heap ≡ some t) ((nat_eq_iff u uid).0 same) found in
            let there = subst (λ o. is_there o ≡ ltb uid s.next_uid) found_uid (h uid) in
            rw (get-set u uid rest s.heap, same) there
        | inr other ↦ rw (get-set u uid rest s.heap, other) (h uid)
      ];
      counted = refl;
      views = λ uid.
          unfold told untold in
          elim (Bool-cases (nat_eq u uid)) [
            | inl same ↦
                let found_uid =
                  subst (λ x. get x s.heap ≡ some t) ((nat_eq_iff u uid).0 same) found in
                rw
                  (
                    get-set u uid rest s.heap,
                    same,
                    found_uid,
                    e,
                    events_of-append uid s.emitted ((u, event) ∷ []),
                    hit u uid event same,
                  )
                  (moved (events_of uid s.emitted) event events)
            | inr other ↦
                rw
                  (
                    get-set u uid rest s.heap,
                    other,
                    events_of-append uid s.emitted ((u, event) ∷ []),
                    miss u uid event other,
                    append-nil,
                    append-nil,
                  )
                  refl
          ];
    }

emit_next-Follows :
    (uid : ℕ) (s : RemoteStdioSessions) → IsNumbered s → Follows (emits uid) s (emit_next uid s)
unfolding emit_next
emit_next-Follows u s h = elim (Option-cases (get u s.heap)) [
  | inl missing ↦
      rw (emit_next, missing) (quiet-Follows (emits u) s s (IsQuiet-refl s) h refl (λ uid. refl))
  | inr (t, found) ↦ rw (emit_next, found) (emit_head-Follows u t t.output_queue s found refl h)
]

step-Follows : (c : Call) (s : RemoteStdioSessions) → IsNumbered s → Follows c s (step c s)
unfolding step
step-Follows (starts r executable) s h = start_resolved-Follows r executable s h
step-Follows (says uid channel chunk) s h = on_data-Follows uid channel chunk s h
step-Follows (exits uid exit_code signal) s h = on_close-Follows uid exit_code signal s h
step-Follows (emits uid) s h = emit_next-Follows uid s h
step-Follows (fails uid) s h =
    quiet-Follows (fails uid) s _ (on_error-IsQuiet uid s) h refl (λ u. refl)
step-Follows (writes from_base64 id chunk limit) s h =
    quiet-Follows (writes from_base64 id chunk limit) s _
      (or_same-IsQuiet s _ (write-IsQuiet from_base64 id chunk limit s)) h refl (λ u. refl)
step-Follows (ends id) s h =
    quiet-Follows (ends id) s _ (or_same-IsQuiet s _ (end_input-IsQuiet id s)) h refl (λ u. refl)
step-Follows (stops id) s h = quiet-Follows (stops id) s _ (stop-IsQuiet id s) h refl (λ u. refl)
step-Follows (forces uid) s h =
    quiet-Follows (forces uid) s _ (on_force-IsQuiet uid s) h refl (λ u. refl)
step-Follows (stops_workspace root) s h =
    quiet-Follows (stops_workspace root) s _ (stop_workspace-IsQuiet root s) h refl (λ u. refl)
step-Follows closes s h =
    quiet-Follows closes s _ (unfold close in stop_all-IsQuiet s.sessions s) h refl (λ u. refl)

run-view :
    (cs : List Call) (s : RemoteStdioSessions)
    → IsNumbered s
    → (uid : ℕ) → view uid (run cs s) ≡ view uid s ++ says_in_all uid s.next_uid cs
unfolding run says_in_all
run-view [] s h uid = sym (append-nil (view uid s))
run-view (c ∷ cs) s h uid =
    let f = step-Follows c s h in
    run-view cs (step c s) f.numbered uid
    ∙ rw (f.views uid, f.counted) (append_assoc (view uid s) (spoken uid s.next_uid c) _)

init-IsNumbered : IsNumbered init
unfolding get
init-IsNumbered uid = ground arith

-- In every history of calls and of callbacks, in whatever order: what the controller has been told of a
-- session, and behind it what it will be told next, is all that the session's process has said since it was
-- started, byte for byte, on both channels in one order, and its exit. Neither stop, stopWorkspace nor close lose
-- anything of it.
pub run-told :
    (cs : List Call) (uid : ℕ)
    → told uid (run cs init) ++ untold uid (run cs init) ≡ says_in_all uid 0 cs
run-told cs uid =
    run-view cs init init-IsNumbered uid ∙ (unfold told untold events_of said_in get in refl)
