-- ===== src/Sessions/Table.antt =====
-- src/remote-extension/stdio-sessions.ts: `RemoteStdioSessions` and its calls. A session is an object: the
-- callbacks of its process keep it when the table has dropped it. The base64 form of a chunk is left
-- out of the events; an `emit` that fails counts as one that is done, as in the source.
use remote_codex.Base.{
  ℕ, suc, String, Bool, true, false, not, Option, none, some, List, [], ◌∷◌, ◌++◌, map, ltb,
  if◌then◌else◌, ◌==◌, nat_key, string_key, length, filter_by, Dict, get, set, delete,
}
use Prim.Native.String.{◌++◌ as ◌<>◌}
use remote_codex.Errors.{Result, ok, err, bridge_error, BridgeErrorCode, ◌>>=◌, ◌>>◌, throw_if}
use remote_codex.Background.Calls.{codes}
use remote_codex.Background.Tasks.{Signal, sigterm, sigkill}
use remote_codex.Mutations.{is_base64}
use remote_codex.Sessions.Launch.{
  RemoteMcpLaunch, RemoteMcpLaunchRequest, resolve_remote_mcp_launch, assert_remote_mcp_launch,
}
use remote_codex.Sessions.Framing.{frames}

pub data Channel : Type 0 where
  stdout stderr : Channel

pub data RemoteStdioEvent : Type 0 where
  data_event : Channel → List ℕ → RemoteStdioEvent
  -- The exit code and the signal.
  exit_event : Option ℕ → Option String → RemoteStdioEvent

pub record StdioSession : Type 0 where
  pub ended : Bool
  pub force_timer : Bool
  pub id : String
  pub max_frame_bytes : ℕ
  pub output_queue : List RemoteStdioEvent
  pub sent : List Signal
  pub settled : Bool
  pub workspace_root : String
  -- What has been written to the process.
  pub written : List (List ℕ)

pub record StartStdioRequest : Type 0 where
  pub id : String
  pub launch : RemoteMcpLaunchRequest
  pub max_frame_bytes : ℕ

-- `emitted` are the events that `emit` was called with, each with the session that it comes from.
pub record RemoteStdioSessions : Type 0 where
  pub emitted : List (ℕ × RemoteStdioEvent)
  pub heap : Dict ℕ StdioSession
  pub next_uid : ℕ
  pub sessions : Dict String ℕ

abbrev pub init : RemoteStdioSessions
init = record { emitted = []; heap = []; next_uid = 0; sessions = [] }

unfoldable pub modify :
    ℕ → (StdioSession → StdioSession) → RemoteStdioSessions → RemoteStdioSessions
modify uid f s = elim (get uid s.heap) [
  | none ↦ s
  | some t ↦ record s { heap = set uid (f t) s.heap }
]

-- `start` up to its `await`; what it goes on with is the launch. `basename` is the platform's.
unfoldable pub start_begin :
    (String → String) → StartStdioRequest → RemoteStdioSessions → Result RemoteMcpLaunch
start_begin basename r s = elim (get r.id s.sessions) [
  | some uid ↦
      err (bridge_error BridgeErrorCode.protocol_mismatch "Duplicate remote stdio session id")
  | none ↦ resolve_remote_mcp_launch r.launch >>= λ launch.
      assert_remote_mcp_launch basename r.launch.executable launch.args r.launch.workspace_root
      >> ok launch
]

abbrev pub new_session : StartStdioRequest → StdioSession
new_session r = record {
  ended = false;
  force_timer = false;
  id = r.id;
  max_frame_bytes = r.max_frame_bytes;
  output_queue = [];
  sent = [];
  settled = false;
  workspace_root = r.launch.workspace_root;
  written = [];
}

-- `start` behind its first `await`, which has looked for the executable, up to the second, which waits
-- for the process.
unfoldable pub start_resolved :
    StartStdioRequest → Option String → RemoteStdioSessions → RemoteStdioSessions × Result ℕ
start_resolved r none s = (
  s,
  err (
      bridge_error BridgeErrorCode.remote_transport_disconnected
        ("Remote MCP executable was not found: " <> r.launch.executable)),
)
start_resolved r (some executable) s = (
  record s {
    heap = set s.next_uid (new_session r) s.heap;
    next_uid = suc s.next_uid;
    sessions = set r.id s.next_uid s.sessions;
  },
  ok s.next_uid,
)

abbrev pub queue_events : List RemoteStdioEvent → StdioSession → StdioSession
queue_events events t = record t { output_queue = t.output_queue ++ events }

-- `queueData`.
unfoldable pub on_data : ℕ → Channel → List ℕ → RemoteStdioSessions → RemoteStdioSessions
on_data uid channel chunk s =
    modify uid (λ t. queue_events (map (data_event channel) (frames t.max_frame_bytes chunk)) t) s

-- What `close` and `error` take out of the table is the id's entry.
unfoldable pub forget : ℕ → RemoteStdioSessions → RemoteStdioSessions
forget uid s = elim (get uid s.heap) [
  | none ↦ s
  | some t ↦ record s { sessions = delete t.id s.sessions }
]

-- The callbacks of the process's `close` and `error`.
unfoldable pub on_close : ℕ → Option ℕ → Option String → RemoteStdioSessions → RemoteStdioSessions
on_close uid exit_code signal s =
    modify uid
      (λ t.
        queue_events (exit_event exit_code signal ∷ [])
          (record t { force_timer = false; settled = true }))
      (forget uid s)

unfoldable pub on_error : ℕ → RemoteStdioSessions → RemoteStdioSessions
on_error uid s = modify uid (λ t. record t { settled = true }) (forget uid s)

-- The output queue of a session comes to its next event.
abbrev pub emit_head :
    ℕ → StdioSession → List RemoteStdioEvent → RemoteStdioSessions → RemoteStdioSessions
emit_head uid t [] s = s
emit_head uid t (event ∷ events) s = record s {
  emitted = s.emitted ++ ((uid, event) ∷ []);
  heap = set uid (record t { output_queue = events }) s.heap;
}

unfoldable pub emit_next : ℕ → RemoteStdioSessions → RemoteStdioSessions
emit_next uid s = elim (get uid s.heap) [ none ↦ s | some t ↦ emit_head uid t t.output_queue s ]

-- `#session`.
unfoldable pub find_session : String → RemoteStdioSessions → Result ℕ
find_session id s = elim (get id s.sessions) [
  | none ↦ err (
      bridge_error BridgeErrorCode.remote_transport_disconnected
        "Remote stdio session is unavailable")
  | some uid ↦ ok uid
]

-- `write` up to its `await`; `from_base64` is `Buffer.from`.
unfoldable pub write :
    (String → List ℕ) → String → String → ℕ → RemoteStdioSessions → Result RemoteStdioSessions
write from_base64 id encoded_chunk max_frame_bytes s = find_session id s >>= λ uid.
    throw_if (not (is_base64 (codes encoded_chunk))) BridgeErrorCode.protocol_mismatch
      "Remote stdio input is not valid base64"
    >> (throw_if (ltb max_frame_bytes (length (from_base64 encoded_chunk)))
          BridgeErrorCode.output_truncated "Remote stdio input frame exceeds the limit"
        >> ok (
            modify uid (λ t. record t { written = t.written ++ (from_base64 encoded_chunk ∷ []) })
              s))

unfoldable pub end_input : String → RemoteStdioSessions → Result RemoteStdioSessions
end_input id s = find_session id s >>= λ uid. ok (modify uid (λ t. record t { ended = true }) s)

unfoldable pub stop : String → RemoteStdioSessions → RemoteStdioSessions
stop id s = elim (get id s.sessions) [
  | none ↦ s
  | some uid ↦
      modify uid (λ t. record t { force_timer = true; sent = t.sent ++ (sigterm ∷ []) })
        (record s { sessions = delete id s.sessions })
]

-- The timer of `stop`, which `close` may have cleared.
unfoldable pub on_force : ℕ → RemoteStdioSessions → RemoteStdioSessions
on_force uid s =
    modify uid
      (λ t.
        if t.force_timer
        then record t { force_timer = false; sent = t.sent ++ (sigkill ∷ []) }
        else t)
      s

unfoldable pub stop_all : Dict String ℕ → RemoteStdioSessions → RemoteStdioSessions
stop_all [] s = s
stop_all ((id, uid) ∷ entries) s = stop_all entries (stop id s)

abbrev pub has_root : String → RemoteStdioSessions → String × ℕ → Bool
has_root root s entry = elim (get entry.1 s.heap) [
  | none ↦ false
  | some t ↦ t.workspace_root == root
]

-- The sessions of a workspace, which `stopWorkspace` stops and then waits for.
unfoldable pub workspace_sessions : String → RemoteStdioSessions → Dict String ℕ
workspace_sessions root s = filter_by (has_root root s) s.sessions

unfoldable pub stop_workspace : String → RemoteStdioSessions → RemoteStdioSessions × Dict String ℕ
stop_workspace root s = let found = workspace_sessions root s in (stop_all found s, found)

unfoldable pub close : RemoteStdioSessions → RemoteStdioSessions
close s = stop_all s.sessions s
