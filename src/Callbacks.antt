-- ===== src/Callbacks.antt =====
-- src/shim/request-callback-queue.ts: the callbacks of `RequestCallbackQueue`. A promise that `request`
-- returns is the number of the call, and `resolved` lists the answers that promises were given, in
-- order. The timer of a callback is a step of the histories; the lanes
-- are apart from the callbacks, in Lanes.
pub mod Settling
pub mod Histories
pub mod Lanes
pub mod LaneSteps
pub mod LaneOrder
mod Tests
mod LaneTests
use remote_codex.Base.{
  ℕ, suc, String, Bool, true, false, not, none, some, List, [], ◌∷◌, ◌++◌, map, leb, if◌then◌else◌,
  string_key, length, Dict, get, set, delete,
}
use text.Mathlib.Text.{starts_with}
use remote_codex.Json.{Value, num, str, obj, set_field, fields_of, at, text_of}
use remote_codex.Rpc.{RpcId, number_id, string_id, is_rpc_response}

pub record Pending : Type 0 where
  pub call : ℕ
  pub id : RpcId

-- The answers that the code makes up, and the one that it has received.
pub data Answer : Type 0 where
  queue_is_full timed_out transport_lost client_detached : RpcId → Answer
  replied : Value → Answer

pub record RequestCallbackQueue : Type 0 where
  pub callbacks : Dict String Pending
  pub next_call : ℕ
  pub resolved : List (ℕ × Answer)

abbrev pub init : RequestCallbackQueue
init = record { callbacks = []; next_call = 0; resolved = [] }

-- Deletes the callback and resolves its promise, if it is there.
unfoldable pub settle : String → (RpcId → Answer) → RequestCallbackQueue → RequestCallbackQueue
settle key answer q = elim (get key q.callbacks) [
  | none ↦ q
  | some p ↦ record q {
    callbacks = delete key q.callbacks;
    resolved = q.resolved ++ (p.call, answer p.id) ∷ [];
  }
]

-- A new promise, and its callback.
unfoldable pub register : String → RpcId → RequestCallbackQueue → RequestCallbackQueue
register key id q = record q {
  callbacks = set key (record { call = q.next_call; id = id }) q.callbacks;
  next_call = suc q.next_call;
}

-- `request`; the key is `bridge_callback_` with a random UUID, and `sent` says whether `send` returned.
unfoldable pub request : String → RpcId → Bool → RequestCallbackQueue → RequestCallbackQueue
request key id sent q =
    if leb 1024 (length q.callbacks)
    then record q {
      next_call = suc q.next_call;
      resolved = q.resolved ++ (q.next_call, queue_is_full id) ∷ [];
    }
    else if sent
    then register key id q
    else settle key transport_lost (register key id q)

abbrev pub id_value : RpcId → Value
id_value (number_id n) = num n
id_value (string_id s) = str s

-- `{ ...message, id: pending.id }`.
abbrev pub reply : Value → RpcId → Answer
reply message id = replied (obj (set_field "id" (id_value id) (fields_of message)))

unfoldable pub receive : Value → RequestCallbackQueue → RequestCallbackQueue × Bool
receive message q =
    if not (is_rpc_response message) then (q, false) else elim (text_of (at "id" message)) [
      | none ↦ (q, false)
      | some key ↦
          if not (starts_with key "bridge_callback_")
          then (q, false)
          else (settle key (reply message) q, true)
    ]

unfoldable pub settle_all : List String → RequestCallbackQueue → RequestCallbackQueue
settle_all [] q = q
settle_all (key ∷ keys) q = settle_all keys (settle key client_detached q)

unfoldable pub close : RequestCallbackQueue → RequestCallbackQueue
close q = settle_all (map (λ e. e.0) q.callbacks) q
