-- ===== src/Sessions/History.antt =====
-- src/remote-extension/stdio-sessions.ts: histories of calls and of callbacks, and what the processes say
-- in them.
use remote_codex.Base.{
  ℕ, suc, String, ◌≡◌, refl, sym, ap, ◌∙◌, ◌&&◌, Option, none, some, List, [], ◌∷◌, ◌++◌, map,
  append_assoc, arith, ltb, nat_eq, if◌then◌else◌, nat_key, string_key, get,
}
use remote_codex.Errors.{Result, ok, err}
use remote_codex.Sessions.Framing.{concat}
use remote_codex.Sessions.Table.{
  Channel, RemoteStdioEvent, data_event, exit_event, StdioSession, StartStdioRequest,
  RemoteStdioSessions, start_resolved, on_data, on_close, on_error, emit_next, write, end_input,
  stop, on_force, stop_workspace, close,
}

-- What may happen next: a call, or a callback of a process or of a timer.
pub data Call : Type 0 where
  starts : StartStdioRequest → Option String → Call
  says : ℕ → Channel → List ℕ → Call
  exits : ℕ → Option ℕ → Option String → Call
  fails : ℕ → Call
  emits : ℕ → Call
  writes : (String → List ℕ) → String → String → ℕ → Call
  ends : String → Call
  stops : String → Call
  forces : ℕ → Call
  stops_workspace : String → Call
  closes : Call

abbrev pub or_same : RemoteStdioSessions → Result RemoteStdioSessions → RemoteStdioSessions
or_same s (ok s') = s'
or_same s (err e) = s

unfoldable pub step : Call → RemoteStdioSessions → RemoteStdioSessions
step (starts r executable) s = (start_resolved r executable s).0
step (says uid channel chunk) s = on_data uid channel chunk s
step (exits uid exit_code signal) s = on_close uid exit_code signal s
step (fails uid) s = on_error uid s
step (emits uid) s = emit_next uid s
step (writes from_base64 id chunk limit) s = or_same s (write from_base64 id chunk limit s)
step (ends id) s = or_same s (end_input id s)
step (stops id) s = stop id s
step (forces uid) s = on_force uid s
step (stops_workspace root) s = (stop_workspace root s).0
step closes s = close s

unfoldable pub run : List Call → RemoteStdioSessions → RemoteStdioSessions
run [] s = s
run (c ∷ cs) s = run cs (step c s)

-- What a process says, byte for byte, and its exit.
pub data Said : Type 0 where
  byte : Channel → ℕ → Said
  exited : Option ℕ → Option String → Said

abbrev pub said_by : RemoteStdioEvent → List Said
said_by (data_event channel chunk) = map (byte channel) chunk
said_by (exit_event exit_code signal) = exited exit_code signal ∷ []

unfoldable pub said_in : List RemoteStdioEvent → List Said
said_in [] = []
said_in (event ∷ events) = said_by event ++ said_in events

unfoldable pub events_of : ℕ → List (ℕ × RemoteStdioEvent) → List RemoteStdioEvent
events_of uid [] = []
events_of uid (entry ∷ entries) =
    if nat_eq entry.0 uid then entry.1 ∷ events_of uid entries else events_of uid entries

abbrev pub queue_in : Option StdioSession → List RemoteStdioEvent
queue_in none = []
queue_in (some t) = t.output_queue

-- What the controller has been told of a session, and what it will be told next.
unfoldable pub told : ℕ → RemoteStdioSessions → List Said
told uid s = said_in (events_of uid s.emitted)

unfoldable pub untold : ℕ → RemoteStdioSessions → List Said
untold uid s = said_in (queue_in (get uid s.heap))

-- The specification: what the processes say, the n-th of them under the number n, and nothing of tables,
-- frames or queues.
abbrev pub spoken : ℕ → ℕ → Call → List Said
spoken uid next (says u channel chunk) =
    if nat_eq u uid && ltb u next then map (byte channel) chunk else []
spoken uid next (exits u exit_code signal) =
    if nat_eq u uid && ltb u next then exited exit_code signal ∷ [] else []
spoken uid next _ = []

abbrev pub next_after : ℕ → Call → ℕ
next_after next (starts r (some executable)) = suc next
next_after next _ = next

unfoldable pub says_in_all : ℕ → ℕ → List Call → List Said
says_in_all uid next [] = []
says_in_all uid next (c ∷ cs) = spoken uid next c ++ says_in_all uid (next_after next c) cs

pub said_in-append : (xs ys : List RemoteStdioEvent) → said_in (xs ++ ys) ≡ said_in xs ++ said_in ys
unfolding said_in
said_in-append [] ys = refl
said_in-append (x ∷ xs) ys =
    ap (◌++◌ (said_by x)) (said_in-append xs ys)
    ∙ sym (append_assoc (said_by x) (said_in xs) (said_in ys))

pub map-append :
    {A B : Type 0} (f : A → B) (xs ys : List A) → map f (xs ++ ys) ≡ map f xs ++ map f ys
map-append f [] ys = refl
map-append f (x ∷ xs) ys = ap (◌∷◌ (f x)) (map-append f xs ys)

pub said_in-map :
    (channel : Channel) (xss : List (List ℕ))
    → said_in (map (data_event channel) xss) ≡ map (byte channel) (concat xss)
unfolding said_in
said_in-map channel [] = refl
said_in-map channel (xs ∷ xss) =
    ap (◌++◌ (map (byte channel) xs)) (said_in-map channel xss)
    ∙ sym (map-append (byte channel) xs (concat xss))

pub events_of-append :
    (uid : ℕ) (xs ys : List (ℕ × RemoteStdioEvent))
    → events_of uid (xs ++ ys) ≡ events_of uid xs ++ events_of uid ys
unfolding events_of
events_of-append uid [] ys = refl
events_of-append uid (x ∷ xs) ys = ground (arith, events_of-append uid xs ys)
