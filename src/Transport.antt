-- ===== src/Transport.antt =====
-- src/core/vscode-transport.ts: the guards of the messages between Controller, Shim and Executor, and
-- the dispatch of the Executor's events in src/extension/vscode-transport-server.ts.
pub mod Events
pub mod Shapes
pub mod Guards
mod Tests
use remote_codex.Base.{
  String, Bool, true, false, not, ◌&&◌, ◌||◌, List, [], ◌∷◌, ◌++◌, if◌then◌else◌, all,
}
use remote_codex.Json.{
  Value, null, num, str, is_record, at, is_text, is_string, is_number, is_bool, is_null, is_array,
  items_include, text_of, Items, no_items,
}

abbrev pub controller_workspace_operations : List String
controller_workspace_operations =
    "deleteConversationResources" ∷ "resolveConversationResources" ∷ "resolveEditorContext"
    ∷ "resolveFuzzyFileSearch" ∷ "localApplyPatch" ∷ "localCanonicalPath" ∷ "localCreateDirectory"
    ∷ "localDeletePath" ∷ "localGitStatus" ∷ "localListDirectory" ∷ "localListTree"
    ∷ "localReadFile" ∷ "localRenamePath" ∷ "localSearch" ∷ "localWriteFile"
    ∷ "openWorkspaceResource" ∷ "registerWorkspaceResource" ∷ "showWorkspaceDiff" ∷ []

abbrev pub remote_executor_capabilities : List String
remote_executor_capabilities =
    "backgroundCancel" ∷ "backgroundLog" ∷ "backgroundStart" ∷ "backgroundStatus" ∷ "canonicalPath"
    ∷ "cancel" ∷ "execute" ∷ "executeAsyncEvents" ∷ "executeStdin" ∷ "executeStdinExactLength"
    ∷ "homeScopedExecution" ∷ "listDirectory" ∷ "listTree" ∷ "probe" ∷ "readFile" ∷ "resultStatus"
    ∷ "search" ∷ "stdioEnd" ∷ "stdioDetachedDescendantStop" ∷ "stdioProcessTreeStop" ∷ "stdioStart"
    ∷ "stdioStop" ∷ "stdioWrite" ∷ "workspaceWriteOrphanCleanup" ∷ "workspaceStop" ∷ []

-- The operations that `isTransportRequest` names beside the Controller's.
abbrev pub remote_request_operations : List String
remote_request_operations =
    "backgroundCancel" ∷ "backgroundLog" ∷ "backgroundStart" ∷ "backgroundStatus" ∷ "canonicalPath"
    ∷ "cancel" ∷ "execute" ∷ "listDirectory" ∷ "listTree" ∷ "probe" ∷ "readFile" ∷ "resultStatus"
    ∷ "search" ∷ "stdioStart" ∷ "workspaceStop" ∷ []

-- The list of `isTransportRequest`.
unfoldable pub request_operations : List String
request_operations = remote_request_operations ++ controller_workspace_operations

-- `array.includes(value)` for a list of texts.
unfoldable pub includes_text : Value → List String → Bool
includes_text v [] = false
includes_text v (t ∷ ts) = if is_text t v then true else includes_text v ts

abbrev pub is_channel : Value → Bool
is_channel v = is_text "stdout" v || is_text "stderr" v

unfoldable pub is_remote_output_event : Value → Bool
is_remote_output_event v =
    is_record v && is_string (at "id" v) && is_string (at "chunk" v) && is_channel (at "channel" v)

-- `value === true`.
abbrev pub is_true : Value → Bool
is_true (Value.bool b) = b
is_true _ = false

unfoldable pub is_remote_execution_accepted : Value → Bool
is_remote_execution_accepted v = is_record v && is_true (at "accepted" v)

unfoldable pub is_remote_execution_completed_event : Value → Bool
is_remote_execution_completed_event v =
    is_record v
    && is_text "executionComplete" (at "event" v)
    && is_string (at "id" v)
    && is_record (at "response" v)
    && is_bool (at "ok" (at "response" v))

unfoldable pub is_remote_stdio_event : Value → Bool
is_remote_stdio_event v =
    is_record v
    && is_string (at "id" v)
    && (if is_text "data" (at "event" v)
        then is_string (at "chunk" v) && is_channel (at "channel" v)
        else (is_text "exit" (at "event" v)
            && (is_null (at "exitCode" v) || is_number (at "exitCode" v))
            && (is_null (at "signal" v) || is_string (at "signal" v))))

unfoldable pub is_transport_stdio_input : Value → Bool
is_transport_stdio_input v =
    is_record v
    && is_string (at "id" v)
    && ((is_text "stdioInput" (at "type" v) && is_string (at "chunk" v))
        || is_text "stdioEnd" (at "type" v))

abbrev pub items_of : Value → Items
items_of (Value.arr xs) = xs
items_of _ = no_items

unfoldable pub is_remote_executor_ping : Value → Bool
is_remote_executor_ping v =
    is_record v
    && is_text "ssh-remote" (at "remoteName" v)
    && is_array (at "capabilities" v)
    && all (λ c. items_include c (items_of (at "capabilities" v))) remote_executor_capabilities

unfoldable pub is_controller_workspace_operation : Value → Bool
is_controller_workspace_operation v = is_string v && includes_text v controller_workspace_operations

-- The two conditions of `isTransportRequest` on the operation.
unfoldable pub has_known_operation : Value → Bool
has_known_operation v =
    is_string (at "operation" v) && includes_text (at "operation" v) request_operations

unfoldable pub is_transport_request : Value → Bool
is_transport_request v =
    is_record v
    && is_string (at "id" v)
    && is_string (at "token" v)
    && is_string (at "hostId" v)
    && is_string (at "workspaceRoot" v)
    && is_string (at "outputCommand" v)
    && is_record (at "policy" v)
    && has_known_operation v
    && is_record (at "params" v)

-- Where `handleOutput` of the transport server takes a value that the Executor has sent.
pub data Destination : Type 0 where
  stdio_output execution_completed output ignored : Destination

unfoldable pub handle_output : Value → Destination
handle_output v =
    if is_remote_stdio_event v
    then stdio_output
    else if is_remote_execution_completed_event v
    then execution_completed
    else if not (is_remote_output_event v)
    then ignored
    else output
