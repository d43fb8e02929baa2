-- ===== src/Transport/Events.antt =====
-- The events of the Executor, as the types of src/core/vscode-transport.ts have them, and their messages.
use remote_codex.Base.{ℕ, String, Bool, Option, none, some, nat_key, string_key}
use remote_codex.Json.{Value, null, bool, num, str, obj, end, field, Fields}
use remote_codex.Transport.{Destination, stdio_output, execution_completed, output}

pub data Channel : Type 0 where
  stderr stdout : Channel

-- `BridgeErrorPayload` of src/core/types.ts, whose code is one of its texts here.
pub record BridgeErrorPayload : Type 0 where
  pub code : String
  pub details : Option Value
  pub message : String
  pub retryable : Bool

pub record RemoteExecutorCommandResponse : Type 0 where
  pub error : Option BridgeErrorPayload
  pub ok : Bool
  pub result : Option Value

-- The events of the Executor, as the types of the protocol have them.
pub data ExecutorEvent : Type 0 where
  wrote : Channel → String → String → ExecutorEvent
  completed : String → RemoteExecutorCommandResponse → ExecutorEvent
  stdio_wrote : Channel → String → String → ExecutorEvent
  stdio_exited : Option ℕ → String → Option String → ExecutorEvent

-- A property that may be missing.
abbrev pub optional_field : String → Option Value → Fields → Fields
optional_field key none fs = fs
optional_field key (some v) fs = field key v fs

abbrev pub error_value : BridgeErrorPayload → Value
error_value e = obj (
    field "code" (str e.code) (
      field "message" (str e.message)
        (field "retryable" (bool e.retryable) (optional_field "details" e.details end))))

abbrev pub optional_error : Option BridgeErrorPayload → Option Value
optional_error none = none
optional_error (some e) = some (error_value e)

abbrev pub response_value : RemoteExecutorCommandResponse → Value
response_value r = obj (
    optional_field "error" (optional_error r.error)
      (field "ok" (bool r.ok) (optional_field "result" r.result end)))

abbrev pub channel_value : Channel → Value
channel_value stderr = str "stderr"
channel_value stdout = str "stdout"

abbrev pub number_or_null : Option ℕ → Value
number_or_null none = null
number_or_null (some n) = num n

abbrev pub text_or_null : Option String → Value
text_or_null none = null
text_or_null (some s) = str s

abbrev pub completed_value : String → RemoteExecutorCommandResponse → Value
completed_value id response = obj (
    field "event" (str "executionComplete")
      (field "id" (str id) (field "response" (response_value response) end)))

-- The message of an event.
abbrev pub message : ExecutorEvent → Value
message (wrote c chunk id) =
    obj (field "channel" (channel_value c) (field "chunk" (str chunk) (field "id" (str id) end)))
message (completed id response) = completed_value id response
message (stdio_wrote c chunk id) = obj (
    field "channel" (channel_value c)
      (field "chunk" (str chunk) (field "event" (str "data") (field "id" (str id) end))))
message (stdio_exited code id signal) = obj (
    field "event" (str "exit") (
      field "exitCode" (number_or_null code)
        (field "id" (str id) (field "signal" (text_or_null signal) end))))

abbrev pub destination : ExecutorEvent → Destination
destination (wrote c chunk id) = output
destination (completed id response) = execution_completed
destination (stdio_wrote c chunk id) = stdio_output
destination (stdio_exited code id signal) = stdio_output
