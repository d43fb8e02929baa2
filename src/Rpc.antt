-- ===== src/Rpc.antt =====
-- src/shim/rpc.ts: the kinds of JSON-RPC messages. A message is a JSON value.
use remote_codex.Base.{
  ℕ, String, ◌≡◌, ◌↔◌, Bool, true, false, not, ◌&&◌, ◌||◌, Option, none, some, arith, nat_eq, Eq,
  ◌==◌, nat_key, string_key,
}
use remote_codex.Json.{Value, is_record, at, has_at, is_string, is_number}

pub data RpcId : Type 0 where
  number_id : ℕ → RpcId
  string_id : String → RpcId

abbrev pub rpc_id_eq : RpcId → RpcId → Bool
rpc_id_eq (number_id a) (number_id b) = nat_eq a b
rpc_id_eq (string_id a) (string_id b) = a == b
rpc_id_eq _ _ = false

pub rpc_id_eq_iff : (a b : RpcId) → (rpc_id_eq a b ≡ true) ↔ (a ≡ b)
rpc_id_eq_iff (number_id a) (number_id b) = ground arith
rpc_id_eq_iff (string_id a) (string_id b) = ground (arith, string_key.same_iff a b)
rpc_id_eq_iff (number_id a) (string_id b) = ground arith
rpc_id_eq_iff (string_id a) (number_id b) = ground arith

instance abbrev pub rpc_id_key : Eq RpcId
rpc_id_key = record { same = rpc_id_eq; same_iff = rpc_id_eq_iff }

abbrev pub is_id : Value → Bool
is_id v = is_string v || is_number v

-- The `id` of a message whose kind has been tested.
abbrev pub id_of : Value → Option RpcId
id_of v = elim (at "id" v) [
  | Value.num n ↦ some (number_id n)
  | Value.str s ↦ some (string_id s)
  | _ ↦ none
]

unfoldable pub is_rpc_request : Value → Bool
is_rpc_request v = is_record v && is_id (at "id" v) && is_string (at "method" v)

unfoldable pub is_rpc_notification : Value → Bool
is_rpc_notification v = is_record v && not (has_at "id" v) && is_string (at "method" v)

unfoldable pub is_rpc_response : Value → Bool
is_rpc_response v =
    is_record v
    && is_id (at "id" v)
    && not (has_at "method" v)
    && (has_at "result" v || has_at "error" v)
