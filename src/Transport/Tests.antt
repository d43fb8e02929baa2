-- ===== src/Transport/Tests.antt =====
-- The guards of src/core/vscode-transport.ts at messages.
use remote_codex.Base.{
  String, ◌≡◌, refl, ◌≢◌, true, false, none, some, nat_key, string_key, includes,
}
use remote_codex.Json.{Value, str, obj, field, end, lookup_field}
use remote_codex.Transport.{
  execution_completed, handle_output, is_transport_request, has_known_operation, includes_text,
  request_operations,
}
use remote_codex.Transport.Events.{ExecutorEvent, completed, message}
use remote_codex.Transport.Guards.{
  Vouched, handle_output-message, handle_output-Vouched, is_transport_request-operation,
}

abbrev request : String → Value
request operation = obj (
    field "id" (str "1") (
      field "token" (str "t") (
        field "hostId" (str "h") (
          field "workspaceRoot" (str "/w") (
            field "outputCommand" (str "c") (
              field "policy" (obj end)
                (field "operation" (str operation) (field "params" (obj end) end))))))))

abbrev event : ExecutorEvent
event = completed "e1" (record {
  error = some (record {
    code = "TIMEOUT";
    details = none;
    message = "Remote command timed out";
    retryable = false;
  });
  ok = false;
  result = none;
})

stop_refused : is_transport_request (request "stdioStop") ≡ false
unfolding is_transport_request has_known_operation includes_text request_operations lookup_field
stop_refused = refl

handle_output-message_example : handle_output (message event) ≡ execution_completed
handle_output-message_example = handle_output-message event

handle_output-Vouched_example : Vouched (handle_output (message event)) (message event)
handle_output-Vouched_example = handle_output-Vouched (message event)

is_transport_request-operation_example :
    (op : String) × (lookup_field "operation" (
        field "id" (str "1") (
          field "token" (str "t") (
            field "hostId" (str "h") (
              field "workspaceRoot" (str "/w") (
                field "outputCommand" (str "c") (
                  field "policy"
                    (obj end)
                    (field "operation" (str "search") (field "params" (obj end) end))))))))
      ≡ str op)
    × (includes op request_operations ≡ true)
    × (op ≢ "stdioEnd")
    × (op ≢ "stdioStop")
    × (op ≢ "stdioWrite")
unfolding is_transport_request has_known_operation includes_text request_operations lookup_field
is_transport_request-operation_example = is_transport_request-operation (request "search") refl
