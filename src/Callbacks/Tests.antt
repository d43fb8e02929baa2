-- ===== src/Callbacks/Tests.antt =====
-- Runs of `RequestCallbackQueue` (src/shim/request-callback-queue.ts).
use remote_codex.Base.{
  String, ◌≡◌, refl, ◌⊎◌, true, some, [], ◌∷◌, arith, nat_key, string_key, get, set, delete,
}
use remote_codex.Json.{Value, num, str, obj, field, end, lookup_field, set_field, has_field}
use remote_codex.Rpc.{number_id, is_rpc_response}
use remote_codex.Callbacks.{
  Pending, replied, client_detached, RequestCallbackQueue, init, settle, register, request, receive,
  settle_all, close,
}
use remote_codex.Callbacks.Settling.{times}
use remote_codex.Callbacks.Histories.{Reach, begin, next, requests, Reach-times, close-times}

abbrev asked : RequestCallbackQueue
asked = request "bridge_callback_a" (number_id 7) true init

abbrev asked_twice : RequestCallbackQueue
asked_twice = request "bridge_callback_b" (number_id 8) true asked

abbrev answer : Value
answer = obj (field "id" (str "bridge_callback_a") (field "result" (num 3) end))

-- The answer comes back under the id of the request; the other promise is told of the end.
answers :
    (close (receive answer asked_twice).0).resolved
    ≡ (0, replied (obj (field "id" (num 7) (field "result" (num 3) end))))
      ∷ (1, client_detached (number_id 8))
      ∷ []
unfolding close settle_all settle register request receive is_rpc_response lookup_field set_field
    has_field get set delete
answers = refl

asked_twice-Reach : Reach asked_twice
unfolding request register get set
asked_twice-Reach =
    next (next begin (requests "bridge_callback_a" (number_id 7) true refl))
      (requests "bridge_callback_b" (number_id 8) true refl)

Reach-times_example :
    (times 1 asked_twice.resolved ≡ 1)
    ⊎ ((times 1 asked_twice.resolved ≡ 0)
        × (key : String) × (p : Pending) × (get key asked_twice.callbacks ≡ some p)
        × (p.call ≡ 1))
unfolding request register set
Reach-times_example = Reach-times 1 asked_twice-Reach (omega arith)

close-times_example : times 1 (close asked_twice).resolved ≡ 1
unfolding request register set
close-times_example = close-times 1 asked_twice-Reach (omega arith)
