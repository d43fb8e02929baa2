-- ===== src/Sessions/Tests.antt =====
-- Sessions of src/remote-extension/stdio-sessions.ts, and witnesses of the theorems on them.
use remote_codex.Base.{
  ◌++◌, max, String, ◌≡◌, refl, none, some, List, [], ◌∷◌, All, nat_key, string_key, get, set,
  delete,
}
use remote_codex.Errors.{ok, ◌>>=◌, ◌>>◌, throw_if}
use remote_codex.Sessions.Launch.{
  RemoteMcpLaunch, resolve_remote_mcp_launch, resolve_adapter, resolve_codegraph,
  assert_adapter_environment, check_environment, names_root, is_sensitive_environment_name,
  has_word, assert_remote_mcp_launch, remote_mcp_executable_name, is_eligible_argument,
  is_sensitive_argument,
}
use remote_codex.Sessions.Framing.{
  frames, frames_from, concat, concat-frames, IsFrame, frames-IsFrame,
}
use remote_codex.Sessions.Table.{
  stdout, stderr, StartStdioRequest, init, start_begin, start_resolved, modify, on_close, forget,
  stop,
}
use remote_codex.Sessions.History.{
  Call, starts, says, exits, emits, stops, step, run, told, untold, says_in_all, byte, exited,
}
use remote_codex.Sessions.Delivery.{run-told}
use remote_codex.Sessions.Admission.{IsAdmitted, start_begin-IsAdmitted}

abbrev graph : StartStdioRequest
graph = record {
  id = "s1";
  launch = record {
    adapter_id = some "codegraph-all-tools-v1";
    args = "serve" ∷ "--path" ∷ "/work" ∷ [];
    executable = "codegraph";
    server_name = some "codegraph";
    workspace_root = "/work";
  };
  max_frame_bytes = 2;
}

abbrev launched : RemoteMcpLaunch
launched = record {
  args = "serve" ∷ "--path" ∷ "/work" ∷ [];
  environment =
      ("CODEGRAPH_MCP_TOOLS", "search,callers,callees,impact,node,explore,status,files") ∷ [];
}

-- `basename` of a name without a slash.
abbrev whole : String → String
whole s = s

graph_starts : start_begin whole graph init ≡ ok launched
unfolding start_begin get resolve_remote_mcp_launch resolve_adapter resolve_codegraph
    assert_adapter_environment check_environment names_root is_sensitive_environment_name has_word
    assert_remote_mcp_launch remote_mcp_executable_name is_eligible_argument is_sensitive_argument
    ◌>>=◌ ◌>>◌ throw_if
graph_starts = refl

start_begin-IsAdmitted_example :
    (get graph.id init.sessions ≡ none) × IsAdmitted graph.launch launched
start_begin-IsAdmitted_example = start_begin-IsAdmitted whole graph init launched graph_starts

five : frames 2 (1 ∷ 2 ∷ 3 ∷ 4 ∷ 5 ∷ []) ≡ (1 ∷ 2 ∷ []) ∷ (3 ∷ 4 ∷ []) ∷ (5 ∷ []) ∷ []
unfolding frames frames_from
five = refl

concat-frames_example : concat (frames 2 (1 ∷ 2 ∷ 3 ∷ [])) ≡ 1 ∷ 2 ∷ 3 ∷ []
concat-frames_example = concat-frames 2 (1 ∷ 2 ∷ 3 ∷ [])

frames-IsFrame_example : All (IsFrame (max 1 2)) (frames 2 (1 ∷ 2 ∷ 3 ∷ []))
frames-IsFrame_example = frames-IsFrame 2 (1 ∷ 2 ∷ 3 ∷ [])

abbrev story : List Call
story =
    starts graph (some "/bin/codegraph")
    ∷ says 0 stdout (7 ∷ 8 ∷ 9 ∷ [])
    ∷ emits 0
    ∷ says 0 stderr (5 ∷ [])
    ∷ stops "s1"
    ∷ exits 0 (some 0) none
    ∷ emits 0
    ∷ []

run-told_example : told 0 (run story init) ++ untold 0 (run story init) ≡ says_in_all 0 0 story
run-told_example = run-told story 0

all_said :
    says_in_all 0 0 story
    ≡ byte stdout 7 ∷ byte stdout 8 ∷ byte stdout 9 ∷ byte stderr 5 ∷ exited (some 0) none ∷ []
unfolding says_in_all
all_said = refl

-- A session that was stopped ends when its id has been given to another: the table forgets the other.
abbrev again : List Call
again =
    starts graph (some "/bin/codegraph")
    ∷ stops "s1"
    ∷ starts graph (some "/bin/codegraph")
    ∷ exits 0 none (some "SIGTERM")
    ∷ []

other_forgotten : get "s1" (run again init).sessions ≡ none
unfolding run step start_resolved stop modify on_close forget get set delete
other_forgotten = refl
