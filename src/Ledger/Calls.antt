-- ===== src/Ledger/Calls.antt =====
-- The methods of `OperationLedger` (src/core/operation-ledger.ts). A method returns the ledger that it
-- leaves beside its result: one that throws has pruned the ledger too.
use remote_codex.Base.{
  ℕ, suc, ◌+◌, ◌-◌, String, Bool, true, false, not, ◌&&◌, Option, none, some, List, [], ◌∷◌, ◌++◌,
  map, ltb, leb, if◌then◌else◌, ◌==◌, nat_key, string_key, length, filter_by, get, set, add,
}
use text.Mathlib.Text.{starts_with}
use remote_codex.Errors.{
  BridgeError, BridgeErrorCode, Result, ok, err, bridge_error, as_bridge_error,
}
use remote_codex.Ledger.Types.{
  running, completed, unknown, executed, joined, replayed, OperationSnapshot, Promise, pending,
  fulfilled, rejected, Outcome, returned, threw, OperationEntry, OperationHandle, OperationLedger,
  Limits, terminal_state, is_running, find_entry, deref, assign, remove_entry, release, abort_where,
}

-- The error of a result that does not fit.
abbrev pub oversize_error : BridgeError
oversize_error =
    bridge_error BridgeErrorCode.result_unknown
      "Remote operation result exceeded the bounded idempotency ledger"

abbrev pub oversize_snapshot : {T : Type 0} → OperationSnapshot T
oversize_snapshot = record { error = some oversize_error; result = none; status = unknown }

module _ {T : Type 0} where
  abbrev pub new_entry : String → String → ℕ → OperationEntry T
  new_entry id fingerprint uid = record {
    uid = uid;
    entry_id = id;
    fingerprint = fingerprint;
    operation_ids = [];
    aborted = false;
    result = pending;
    size_bytes = 0;
    settled_at = none;
    snapshot = record { error = none; result = none; status = running };
  }

  -- `#entries.set(entryId, entry)` for the new object.
  unfoldable pub with_entry : String → String → OperationLedger T → OperationLedger T
  with_entry id fingerprint l = record l {
    entries = l.entries ++ new_entry id fingerprint l.next_uid ∷ [];
    next_uid = suc l.next_uid;
  }

  -- `entry.operationIds.add(operationId)`.
  unfoldable pub with_id : String → ℕ → List (OperationEntry T) → List (OperationEntry T)
  with_id op uid es = elim (deref uid es) [
    | none ↦ es
    | some e ↦ assign uid (record e { operation_ids = add op e.operation_ids }) es
  ]

  unfoldable pub bind_operation : String → ℕ → OperationLedger T → Result (OperationLedger T)
  bind_operation op uid l =
      if elim (get op l.operations) [ none ↦ false | some bound ↦ not (bound == uid) ]
      then err (
          bridge_error BridgeErrorCode.protocol_mismatch
            "Remote operation ID is already bound to another request")
      else ok
          (record l { operations = set op uid l.operations; entries = with_id op uid l.entries })

  unfoldable pub delete_entry : String → ℕ → OperationLedger T → OperationLedger T
  delete_entry id uid l = elim (find_entry id l.entries) [
    | none ↦ l
    | some e ↦ if not (e.uid == uid) then l else record l {
      entries = remove_entry id l.entries;
      stored_bytes = l.stored_bytes - e.size_bytes;
    }
  ]

  unfoldable pub cancel : String → OperationLedger T → OperationLedger T × Bool
  cancel op l = elim (get op l.operations) [
    | none ↦ (l, false)
    | some uid ↦ elim (deref uid l.entries) [
      | none ↦ (l, false)
      | some e ↦
          if not (is_running e)
          then (l, false)
          else (record l { entries = assign uid (record e { aborted = true }) l.entries }, true)
    ]
  ]

  -- The first half of `clearPrefix`, up to its `await`: the entries that it has picked.
  unfoldable pub clear_prefix_begin :
      String → OperationLedger T → OperationLedger T × List (String × ℕ)
  clear_prefix_begin prefix l =
      let p = λ (e : OperationEntry T). starts_with e.entry_id prefix in
      (
        record l { entries = abort_where p l.entries },
        map (λ e. (e.entry_id, e.uid)) (filter_by p l.entries),
      )

  -- Its loop over the operation ids of a picked entry, and `entry.operationIds.clear()`.
  unfoldable pub unbind : ℕ → OperationLedger T → OperationLedger T
  unbind uid l = elim (deref uid l.entries) [
    | none ↦ l
    | some e ↦ record l {
      operations = release uid e.operation_ids l.operations;
      entries = assign uid (record e { operation_ids = [] }) l.entries;
    }
  ]

  -- The loop behind the `await`.
  unfoldable pub clear_prefix_end : List (String × ℕ) → OperationLedger T → OperationLedger T
  clear_prefix_end [] l = l
  clear_prefix_end ((id, uid) ∷ matches) l =
      clear_prefix_end matches (delete_entry id uid (unbind uid l))

  unfoldable pub close : OperationLedger T → OperationLedger T
  close l = record l {
    entries = [];
    orphans =
        filter_by is_running (abort_where (λ e. true) l.entries) ++ filter_by is_running l.orphans;
    operations = [];
    stored_bytes = 0;
  }

  module _ (limits : Limits) where
    open limits use {max_entries, retention_ms, max_bytes}

    abbrev pub is_expired : ℕ → OperationEntry T → Bool
    is_expired now e = elim e.settled_at [ none ↦ false | some at ↦ leb (at + retention_ms) now ]

    -- The loop of `#prune`; `Math.max(0, …)` is the subtraction of ℕ.
    unfoldable pub prune_entries : ℕ → List (OperationEntry T) → ℕ → List (OperationEntry T) × ℕ
    prune_entries now [] stored = ([], stored)
    prune_entries now (e ∷ es) stored =
        let (kept, left) =
          prune_entries now es (if is_expired now e then stored - e.size_bytes else stored) in
        (if is_expired now e then kept else e ∷ kept, left)

    unfoldable pub prune : ℕ → OperationLedger T → OperationLedger T
    prune now l =
        let (kept, left) = prune_entries now l.entries l.stored_bytes in
        record l { entries = kept; stored_bytes = left }

    abbrev pub has_capacity : OperationLedger T → Bool
    has_capacity l = ltb (length l.entries) max_entries && ltb l.stored_bytes max_bytes

    unfoldable pub make_capacity : OperationLedger T → Result (Unit {0})
    make_capacity l =
        if has_capacity l
        then ok tt
        else err
            (bridge_error BridgeErrorCode.command_denied "Remote operation ledger is at capacity")

    -- The part of `start` for an entry that is there.
    unfoldable pub start_existing :
        String
        → String
        → OperationEntry T
        → OperationLedger T
        → OperationLedger T × Result (OperationHandle T)
    start_existing op fingerprint e l =
        if not (e.fingerprint == fingerprint)
        then (
          l,
          err (
              bridge_error BridgeErrorCode.protocol_mismatch
                "Idempotency key was reused with different operation parameters"),
        )
        else if not (is_running e)
        then (l, ok (record { outcome = replayed; entry = e.uid; result = e.result }))
        else elim (bind_operation op e.uid l) [
          | err x ↦ (l, err x)
          | ok l' ↦ (l', ok (record { outcome = joined; entry = e.uid; result = e.result }))
        ]

    -- The part of `start` for a new entry.
    unfoldable pub start_new :
        String
        → String
        → String
        → OperationLedger T
        → OperationLedger T × Result (OperationHandle T)
    start_new id op fingerprint l = elim (make_capacity l) [
      | err x ↦ (l, err x)
      | ok _ ↦ elim (get op l.operations) [
        | some _ ↦ (
          l,
          err (
              bridge_error BridgeErrorCode.protocol_mismatch
                "Remote operation ID is already bound to another request"),
        )
        | none ↦ elim (bind_operation op l.next_uid (with_entry id fingerprint l)) [
          | err x ↦ (with_entry id fingerprint l, err x)
          | ok l' ↦ (l', ok (record { outcome = executed; entry = l.next_uid; result = pending }))
        ]
      ]
    ]

    unfoldable pub start :
        String
        → String
        → String
        → ℕ
        → OperationLedger T
        → OperationLedger T × Result (OperationHandle T)
    start id op fingerprint now l =
        let l' = prune now l in
        elim (find_entry id l'.entries) [
          | some e ↦ start_existing op fingerprint e l'
          | none ↦ start_new id op fingerprint l'
        ]

    unfoldable pub status : String → ℕ → OperationLedger T → OperationLedger T × OperationSnapshot T
    status id now l =
        let l' = prune now l in
        elim (find_entry id l'.entries) [
          | none ↦ (l', record { error = none; result = none; status = unknown })
          | some e ↦ (l', e.snapshot)
        ]

    -- The byte length of a snapshot's JSON text, which depends on `T`; `none` if it has none.
    module _ (json_bytes : OperationSnapshot T → Option ℕ) where
      unfoldable pub snapshot_size : OperationSnapshot T → ℕ
      snapshot_size s = elim (json_bytes s) [ none ↦ max_bytes + 1 | some n ↦ n ]

      -- The snapshot and the promise that the two callbacks of `start` hand to `#settle`.
      unfoldable pub settlement : Outcome T → OperationSnapshot T × Promise T
      settlement (returned v) =
          (record { error = none; result = some v; status = completed }, fulfilled v)
      settlement (threw t) =
          let e = as_bridge_error t BridgeErrorCode.remote_transport_disconnected in
          (record { error = some e; result = none; status = terminal_state e }, rejected e)

      -- What `#settle` writes to the entry.
      unfoldable pub settled_entry : Outcome T → ℕ → ℕ → OperationEntry T → OperationEntry T
      settled_entry o now stored e =
          let (s, p) = settlement o in
          let fits = not (ltb max_bytes (snapshot_size s + stored)) in
          record e {
            operation_ids = [];
            result = if fits then p else rejected oversize_error;
            size_bytes = if fits then snapshot_size s else snapshot_size oversize_snapshot;
            settled_at = some now;
            snapshot = if fits then s else oversize_snapshot;
          }

      unfoldable pub settle : ℕ → Outcome T → ℕ → OperationLedger T → OperationLedger T
      settle uid o now l = elim (deref uid l.entries) [
        | some e ↦ record l {
          entries = assign uid (settled_entry o now l.stored_bytes e) l.entries;
          operations = release uid e.operation_ids l.operations;
          stored_bytes = l.stored_bytes + (settled_entry o now l.stored_bytes e).size_bytes;
        }
        | none ↦ elim (deref uid l.orphans) [
          | none ↦ l
          | some e ↦ record l {
            orphans = assign uid (settled_entry o now l.stored_bytes e) l.orphans;
            operations = release uid e.operation_ids l.operations;
            stored_bytes = l.stored_bytes + (settled_entry o now l.stored_bytes e).size_bytes;
          }
        ]
      ]
