-- ===== src/Ledger/Tests.antt =====
-- Runs of `OperationLedger` (src/core/operation-ledger.ts), and its theorems at them.
use remote_codex.Base.{
  ℕ, String, ◌≡◌, refl, Option, none, some, [], ◌∷◌, if◌then◌else◌, nat_key, string_key, get, set,
  delete, add,
}
use remote_codex.Errors.{ok}
use remote_codex.Ledger.Types.{
  executed, joined, replayed, pending, fulfilled, returned, completed, OperationHandle,
  OperationEntry, OperationLedger, OperationSnapshot, Limits, is_running, find_entry, deref, init,
  assign, release,
}
use remote_codex.Ledger.Calls.{
  start, status, settle, prune, new_entry, with_entry, bind_operation, start_existing, start_new,
  settled_entry, settlement, snapshot_size, with_id, make_capacity, prune_entries,
}
use remote_codex.Ledger.Steps.{
  Reach, begin, next, Runs, now_here, then_step, settles, starts, reads,
}
use remote_codex.Ledger.Bounds.{IsBounded}
use remote_codex.Ledger.Invariant.{Reach-IsBounded}
use remote_codex.Ledger.Replay.{start-settle, start-start}

program : Unit {0}
unfolding init start status settle prune prune_entries bind_operation with_entry with_id
    start_existing start_new settled_entry settlement snapshot_size make_capacity delete find_entry
    deref assign release get set add
program = tt

abbrev limits : Limits
limits = record { max_entries = 2; retention_ms = 100; max_bytes = 25 }

-- Every snapshot is 10 bytes long.
abbrev ten : OperationSnapshot ℕ → Option ℕ
ten s = some 10

abbrev empty : OperationLedger ℕ
empty = record { entries = []; orphans = []; operations = []; stored_bytes = 0; next_uid = 0 }

abbrev begun : OperationLedger ℕ
begun = (start limits "write:1" "op-1" "abc" 0 empty).0

abbrev ended : OperationLedger ℕ
ended = settle limits ten 0 (returned 7) 5 begun

begun-Reach : Reach limits ten begun
unfolding program
begun-Reach = next (begin refl) (starts "write:1" "op-1" "abc" 0)

begun-Runs : Runs 0 begun.entries
unfolding program
begun-Runs = (record (new_entry "write:1" "abc" 0) { operation_ids = "op-1" ∷ [] }, refl, refl)

abbrev kept : OperationEntry ℕ
kept = settled_entry limits ten (returned 7) 5 0 (new_entry "write:1" "abc" 0)

replay :
    (start limits "write:1" "op-2" "abc" 50 ended).1
    ≡ ok (record { outcome = replayed; entry = 0; result = fulfilled 7 })
unfolding program
replay = refl

-- After the retention time the key starts a new operation.
expiry :
    (start limits "write:1" "op-2" "abc" 105 ended).1
    ≡ ok (record { outcome = executed; entry = 1; result = pending })
unfolding program
expiry = refl

Reach-IsBounded_example : IsBounded limits ended
Reach-IsBounded_example =
    Reach-IsBounded limits ten (next begun-Reach (settles 0 (returned 7) 5 begun-Runs))

start-settle_example :
    ((start limits "write:1" "op-2" "abc" 50 ended).1
      ≡ ok (record { outcome = replayed; entry = 0; result = fulfilled 7 }))
    × ((status limits "write:1" 50 ended).1
        ≡ record { error = none; result = some 7; status = completed })
unfolding program
start-settle_example =
    start-settle limits ten 0 (returned 7) 5 50 "op-2" kept begun-Reach begun-Runs
      (then_step now_here (reads "write:1" 20)) refl refl

abbrev first : OperationHandle ℕ
first = record { outcome = executed; entry = 0; result = pending }

abbrev second : OperationHandle ℕ
second = record { outcome = replayed; entry = 0; result = fulfilled 7 }

start-start_example :
    (◌≡◌ {A = String} "abc" "abc")
    × (second.entry ≡ first.entry)
    × (second.outcome ≡ (if is_running kept then joined else replayed))
    × (second.result ≡ kept.result)
unfolding program
start-start_example =
    start-start limits ten "write:1" "op-1" "op-2" "abc" "abc" 0 50 first second kept (begin refl)
      refl refl (then_step now_here (settles 0 (returned 7) 5 begun-Runs)) refl refl refl
