-- ===== src/Transport/Guards.antt =====
-- The guards of src/core/vscode-transport.ts against the types that they vouch for.
use remote_codex.Base.{
  String, ◌≡◌, refl, sym, ◌∙◌, subst, ◌≢◌, ◌⊎◌, inl, inr, Bool, true, false, Option-cases, none,
  some, List, [], ◌∷◌, arith, Bool-cases, nat_key, string_key, includes,
}
use remote_codex.Json.{Value, bool, str, lookup_field, at, is_text, is_record}
use remote_codex.Transport.{
  request_operations, has_known_operation, includes_text, is_remote_output_event,
  is_remote_execution_completed_event, is_remote_stdio_event, is_transport_request, Destination,
  stdio_output, execution_completed, output, ignored, handle_output,
}
use remote_codex.Transport.Events.{
  stderr, stdout, RemoteExecutorCommandResponse, ExecutorEvent, wrote, completed, stdio_wrote,
  stdio_exited, response_value, message, destination,
}
use remote_codex.Transport.Shapes.{
  IsChannel, IsNumberOrNull, IsTextOrNull, is_string-str, is_text-str, is_bool-bool,
  is_channel-IsChannel, is_number-IsNumberOrNull, is_string-IsTextOrNull,
}

response-ok : (r : RemoteExecutorCommandResponse) → at "ok" (response_value r) ≡ bool r.ok
unfolding lookup_field
response-ok r = elim (Option-cases r.error) [
  | inl missing ↦ rw missing refl
  | inr (e, there) ↦ rw there refl
]

-- Every event that the Executor can send reaches the handler of its kind, whatever its fields hold:
-- output, the exit of a session with a code, a signal, both or none, and the end of an execution with
-- a result, an error, both or none.
pub handle_output-message : (e : ExecutorEvent) → handle_output (message e) ≡ destination e
unfolding handle_output is_remote_stdio_event is_remote_execution_completed_event
    is_remote_output_event lookup_field
handle_output-message (wrote stderr chunk id) = refl
handle_output-message (wrote stdout chunk id) = refl
handle_output-message (completed id response) = rw (response-ok response) refl
handle_output-message (stdio_wrote stderr chunk id) = refl
handle_output-message (stdio_wrote stdout chunk id) = refl
handle_output-message (stdio_exited none id none) = refl
handle_output-message (stdio_exited none id (some s)) = refl
handle_output-message (stdio_exited (some n) id none) = refl
handle_output-message (stdio_exited (some n) id (some s)) = refl

-- What a value that reaches a handler has been shown to hold.
abbrev pub Vouched : Destination → Value → Type 0
Vouched stdio_output v =
    (id : String) × (at "id" v ≡ str id)
    × (((chunk : String) × (at "event" v ≡ str "data")
          × (at "chunk" v ≡ str chunk)
          × IsChannel (at "channel" v))
        ⊎ ((at "event" v ≡ str "exit")
            × IsNumberOrNull (at "exitCode" v)
            × IsTextOrNull (at "signal" v)))
Vouched execution_completed v =
    (id : String) × (at "id" v ≡ str id)
    × (is_record (at "response" v) ≡ true)
    × ((ok : Bool) × (at "ok" (at "response" v) ≡ bool ok))
Vouched output v =
    (id : String) × (at "id" v ≡ str id)
    × (chunk : String) × (at "chunk" v ≡ str chunk)
    × IsChannel (at "channel" v)
Vouched ignored v = Unit {0}

stdio-Vouched : (v : Value) → is_remote_stdio_event v ≡ true → Vouched stdio_output v
unfolding is_remote_stdio_event
stdio-Vouched v h =
    let (id, named) = is_string-str (at "id" v) (ground arith) in
    elim (Bool-cases (is_text "data" (at "event" v))) [
      | inl data_event ↦
          let (chunk, held) = is_string-str (at "chunk" v) (ground arith) in
          let channel = is_channel-IsChannel (at "channel" v) (ground arith) in
          (id, named, inl (chunk, is_text-str "data" (at "event" v) data_event, held, channel))
      | inr other ↦
          let exit = is_text-str "exit" (at "event" v) (ground arith) in
          let code = is_number-IsNumberOrNull (at "exitCode" v) (ground arith) in
          let signal = is_string-IsTextOrNull (at "signal" v) (ground arith) in
          (id, named, inr (exit, code, signal))
    ]

completed-Vouched :
    (v : Value) → is_remote_execution_completed_event v ≡ true → Vouched execution_completed v
unfolding is_remote_execution_completed_event
completed-Vouched v h =
    let (id, named) = is_string-str (at "id" v) (ground arith) in
    let (ok, held) = is_bool-bool (at "ok" (at "response" v)) (ground arith) in
    let response : is_record (at "response" v) ≡ true = ground arith in
    (id, named, response, (ok, held))

output-Vouched : (v : Value) → is_remote_output_event v ≡ true → Vouched output v
unfolding is_remote_output_event
output-Vouched v h =
    let (id, named) = is_string-str (at "id" v) (ground arith) in
    let (chunk, held) = is_string-str (at "chunk" v) (ground arith) in
    let channel = is_channel-IsChannel (at "channel" v) (ground arith) in
    (id, named, chunk, held, channel)

-- Whatever value arrives, a handler that it reaches finds the fields that it reads, as their types say:
-- a text `id`; of output the chunk and one of the two channels; of a session's exit the code, a number
-- or null, and the signal, a text or null; of an execution's end a response that is an object, with a
-- Boolean `ok`; of that response's `result` and `error` nothing is said.
pub handle_output-Vouched : (v : Value) → Vouched (handle_output v) v
unfolding handle_output
handle_output-Vouched v = elim (Bool-cases (is_remote_stdio_event v)) [
  | inl stdio ↦ rw stdio (stdio-Vouched v stdio)
  | inr no_stdio ↦ rw no_stdio (elim (Bool-cases (is_remote_execution_completed_event v)) [
    | inl done ↦ rw done (completed-Vouched v done)
    | inr not_done ↦ rw not_done (elim (Bool-cases (is_remote_output_event v)) [
      | inl out ↦ rw out (output-Vouched v out)
      | inr nothing ↦ rw nothing tt
    ])
  ])
]

includes_text-str : (op : String) (ts : List String) → includes_text (str op) ts ≡ includes op ts
unfolding includes_text
includes_text-str op [] = refl
includes_text-str op (t ∷ ts) =
    ground (arith, includes_text-str op ts, string_key.same_iff op t, string_key.same_iff t op)

not_included :
    (op t : String) (ts : List String) → includes op ts ≡ true → includes t ts ≡ false → op ≢ t
not_included op t ts h k e =
    let g : false ≡ true = sym k ∙ subst (λ x. includes x ts ≡ true) e h in cc

without_stdio :
    (includes "stdioEnd" request_operations ≡ false)
    × (includes "stdioStop" request_operations ≡ false)
    × (includes "stdioWrite" request_operations ≡ false)
unfolding request_operations
without_stdio = (refl, refl, refl)

-- `stdioEnd`, `stdioStop` and `stdioWrite` are operations of the Executor that no request of the
-- transport may name: a value that is accepted as a request has an operation of the two lists.
pub is_transport_request-operation :
    (v : Value)
    → is_transport_request v ≡ true
    → (op : String) × (at "operation" v ≡ str op)
      × (includes op request_operations ≡ true)
      × (op ≢ "stdioEnd")
      × (op ≢ "stdioStop")
      × (op ≢ "stdioWrite")
unfolding is_transport_request
is_transport_request-operation v h =
    let operation : has_known_operation v ≡ true = ground arith in
    let (op, named) =
      is_string-str (at "operation" v) (unfold has_known_operation in ground arith) in
    let listed : includes_text (at "operation" v) request_operations ≡ true =
      unfold has_known_operation in ground arith in
    let known : includes op request_operations ≡ true =
      sym (includes_text-str op request_operations)
      ∙ subst (λ x. includes_text x request_operations ≡ true) named listed in
    (
      op,
      named,
      known,
      not_included op "stdioEnd" request_operations known without_stdio.0,
      not_included op "stdioStop" request_operations known without_stdio.1,
      not_included op "stdioWrite" request_operations known without_stdio.2,
    )
