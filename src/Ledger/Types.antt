-- ===== src/Ledger/Types.antt =====
-- src/core/operation-ledger.ts: `OperationLedger`. A stored operation is an object with an identity,
-- `uid`; the map `#entries` holds the objects in the order of insertion, and `#operations` names
-- them by their identity. An object that `close` drops from the map while its operation runs is
-- kept in `orphans`: its promise still settles it. Time is an argument of the calls that read it.
use remote_codex.Base.{
  ℕ, String, Bool, true, false, ◌&&◌, ◌||◌, Option, none, some, List, [], ◌∷◌, ltb, if◌then◌else◌,
  ◌==◌, nat_key, string_key, Dict, get, delete,
}
use remote_codex.Errors.{BridgeError, BridgeErrorCode, Thrown}

pub data OperationState : Type 0 where
  running completed cancelled failed unknown : OperationState

abbrev pub is_running_state : OperationState → Bool
is_running_state running = true
is_running_state _ = false

pub data IdempotencyOutcome : Type 0 where
  executed joined replayed : IdempotencyOutcome

pub record OperationSnapshot (T : Type 0) : Type 0 where
  pub error : Option BridgeError
  pub result : Option T
  pub status : OperationState

pub data Promise (T : Type 0) : Type 0 where
  pending : Promise T
  fulfilled : T → Promise T
  rejected : BridgeError → Promise T

-- How the callback of an operation ends.
pub data Outcome (T : Type 0) : Type 0 where
  returned : T → Outcome T
  threw : Thrown → Outcome T

pub record OperationEntry (T : Type 0) : Type 0 where
  pub uid : ℕ
  pub entry_id : String
  pub fingerprint : String
  pub operation_ids : List String
  pub aborted : Bool
  pub result : Promise T
  pub size_bytes : ℕ
  pub settled_at : Option ℕ
  pub snapshot : OperationSnapshot T

pub record OperationHandle (T : Type 0) : Type 0 where
  pub outcome : IdempotencyOutcome
  pub entry : ℕ
  pub result : Promise T

pub record OperationLedger (T : Type 0) : Type 0 where
  pub entries : List (OperationEntry T)
  pub orphans : List (OperationEntry T)
  pub operations : Dict String ℕ
  pub stored_bytes : ℕ
  pub next_uid : ℕ

pub record Limits : Type 0 where
  pub max_entries : ℕ
  pub retention_ms : ℕ
  pub max_bytes : ℕ

-- The constructor; its `TypeError`s are `none`.
unfoldable pub init : {T : Type 0} → Limits → Option (OperationLedger T)
init limits =
    if ltb limits.max_entries 1 || ltb limits.retention_ms 1 || ltb limits.max_bytes 1
    then none
    else some
        (record { entries = []; orphans = []; operations = []; stored_bytes = 0; next_uid = 0 })

unfoldable pub terminal_state : BridgeError → OperationState
terminal_state e = elim e.code [
  | BridgeErrorCode.cancelled ↦ OperationState.cancelled
  | BridgeErrorCode.result_unknown ↦ unknown
  | _ ↦ failed
]

-- The loop of `#settle` and of `clearPrefix` over the operation ids of one entry.
unfoldable pub release : ℕ → List String → Dict String ℕ → Dict String ℕ
release uid [] ops = ops
release uid (op ∷ ids) ops =
    release uid ids
      (elim (get op ops) [ none ↦ ops | some bound ↦ if bound == uid then delete op ops else ops ])

module _ {T : Type 0} where
  abbrev pub is_running : OperationEntry T → Bool
  is_running e = is_running_state e.snapshot.status

  -- `#entries.get(entryId)`.
  unfoldable pub find_entry : String → List (OperationEntry T) → Option (OperationEntry T)
  find_entry id [] = none
  find_entry id (e ∷ es) = if e.entry_id == id then some e else find_entry id es

  -- A reference to an object, followed.
  unfoldable pub deref : ℕ → List (OperationEntry T) → Option (OperationEntry T)
  deref uid [] = none
  deref uid (e ∷ es) = if e.uid == uid then some e else deref uid es

  -- An assignment to fields of an object.
  unfoldable pub assign : ℕ → OperationEntry T → List (OperationEntry T) → List (OperationEntry T)
  assign uid e' [] = []
  assign uid e' (e ∷ es) = if e.uid == uid then e' ∷ es else e ∷ assign uid e' es

  unfoldable pub remove_entry : String → List (OperationEntry T) → List (OperationEntry T)
  remove_entry id [] = []
  remove_entry id (e ∷ es) = if e.entry_id == id then es else e ∷ remove_entry id es

  -- `entry.controller.abort()` for the running entries that a test picks.
  unfoldable pub abort_where :
      (OperationEntry T → Bool) → List (OperationEntry T) → List (OperationEntry T)
  abort_where p [] = []
  abort_where p (e ∷ es) =
      (if p e && is_running e then record e { aborted = true } else e) ∷ abort_where p es
